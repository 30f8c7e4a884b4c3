-- ===== src/Shell/Launch/Wiring.antt =====
-- Which process of a pipeline reads and writes which pipe, and what the shell holds of the
-- processes, in `launch_pipeline` of sp_prj2/phase3/myshell.c.
use system_programming.Base.{
  arith, positive-ne_zero, All, Bool, List, Option, [], append-nil, ap, append_assoc, false,
  is_positive, none, pos, refl, some, sym, true, ℕ, ℤ, ◌++◌, ◌∙◌, ◌≡◌, ◌∷◌,
}
use system_programming.Shell.Text.{Text}
use system_programming.Shell.Words.{parseline}
use system_programming.Shell.Launch.{
  Stage, Progress, Flow, onward, replaced, after_fork, fork_stage, piped_stage, launch_stage,
  launch_loop, first_progress, then_turn, is_nil, join_group, write_end, read_end, both_ends,
}
use system_programming.Shell.Launch.Balance.{count, Balanced, after_fork-none, after_fork-some}

-- A stage whose command has a name, and whose process the shell starts: `fork` returned a child's
-- id, and a pipe was there.
pub record IsStarted (x : Text × Stage) : Type 0 where
  pub named : is_nil (parseline x.0) ≡ false
  pub child : is_positive x.1.fork ≡ true
  pub read : ℕ
  pub write : ℕ
  pub piped : x.1.pipe ≡ some (read, write)

-- The read end of a pipe that the loop made last.
abbrev pub last_read : Option ℕ → List (Text × Stage) → Option ℕ
last_read fd [] = fd
last_read fd ((segment, stage) ∷ rest) = last_read (read_end stage.pipe) rest

-- The group that a process with id `own` comes to be in: that of the first process before it.
abbrev pub leader : List (Text × Stage) → ℤ → ℤ
leader [] own = own
leader ((segment, stage) ∷ rest) own = stage.fork

abbrev pub forks : List (Text × Stage) → List ℤ
forks [] = []
forks ((segment, stage) ∷ rest) = stage.fork ∷ forks rest

-- The last process of a pipeline has no pipe of its own, and every other one has.
abbrev pub OwnPipe : Bool → Stage → Option (ℕ × ℕ) → Type 0
OwnPipe last stage none = last ≡ true
OwnPipe last stage (some ends) = (last ≡ false) × (stage.pipe ≡ some ends)

-- The loop's variables behind stages that were started.
abbrev pub walk : List (Text × Stage) → Progress → Progress
walk [] s = s
walk ((segment, stage) ∷ rest) s =
    walk rest
      (after_fork stage.pipe stage.fork (record s { opened = s.opened ++ both_ends stage.pipe }))

launch_stage-started :
    (segment : Text) (argv : List Text) (stage : Stage) (s : Progress)
    → IsStarted (segment, stage)
    → is_nil argv ≡ false
    → launch_stage false argv stage s
      ≡ onward (
          after_fork stage.pipe stage.fork (record s { opened = s.opened ++ both_ends stage.pipe }))
unfolding launch_stage piped_stage fork_stage
launch_stage-started segment [] stage s h named = cc
launch_stage-started segment (name ∷ args) stage s h named =
    rw (h.piped, positive-ne_zero stage.fork h.child)

is_nil-append :
    (xs : List (Text × Stage)) (x : Text × Stage) (ys : List (Text × Stage))
    → is_nil (xs ++ x ∷ ys) ≡ false
is_nil-append [] x ys = refl
is_nil-append (y ∷ xs) x ys = refl

pub launch_loop-walk :
    (xs : List (Text × Stage)) (x : Text × Stage) (ys : List (Text × Stage)) (s : Progress)
    → All IsStarted xs
    → launch_loop (xs ++ x ∷ ys) s ≡ launch_loop (x ∷ ys) (walk xs s)
unfolding launch_loop
launch_loop-walk [] x ys s h = refl
launch_loop-walk ((segment, stage) ∷ xs) x ys s h =
    rw
      (
        is_nil-append xs x ys,
        launch_stage-started segment (parseline segment) stage s h.0 h.0.named,
      )
      (launch_loop-walk xs x ys _ h.1)

walk-pids : (xs : List (Text × Stage)) (s : Progress) → (walk xs s).pids ≡ s.pids ++ forks xs
unfolding after_fork
walk-pids [] s = sym (append-nil s.pids)
walk-pids ((segment, stage) ∷ xs) s =
    walk-pids xs _ ∙ append_assoc s.pids (stage.fork ∷ []) (forks xs)

pub walk-prev_read :
    (xs : List (Text × Stage)) (s : Progress) → (walk xs s).prev_read ≡ last_read s.prev_read xs
unfolding after_fork
walk-prev_read [] s = refl
walk-prev_read ((segment, stage) ∷ xs) s = walk-prev_read xs _

join_group-set : (pgid pid : ℤ) → is_positive pgid ≡ true → join_group pgid pid ≡ pgid
join_group-set pgid pid h = rw (positive-ne_zero pgid h)

walk-pgid :
    (xs : List (Text × Stage)) (s : Progress)
    → is_positive s.pgid ≡ true
    → (walk xs s).pgid ≡ s.pgid
unfolding after_fork
walk-pgid [] s h = refl
walk-pgid ((segment, stage) ∷ xs) s h =
    let e = join_group-set s.pgid stage.fork h in walk-pgid xs _ (rw e h) ∙ e

walk-leader :
    (xs : List (Text × Stage)) (own : ℤ)
    → All IsStarted xs
    → join_group (walk xs first_progress).pgid own ≡ leader xs own
unfolding after_fork
walk-leader [] own h = refl
walk-leader ((segment, stage) ∷ xs) own h =
    ap (λ (p : ℤ). join_group p own) (walk-pgid xs _ h.0.child)
    ∙ join_group-set stage.fork own h.0.child

launch_stage-child :
    (last : Bool) (argv : List Text) (stage : Stage) (s : Progress) (fd : Option (ℕ × ℕ))
    → is_nil argv ≡ false
    → stage.fork ≡ pos 0
    → stage.exec_ok ≡ true
    → OwnPipe last stage fd
    → launch_stage last argv stage s
      ≡ replaced (record {
        group = join_group s.pgid stage.own_pid;
        input = s.prev_read;
        output = write_end fd;
        argv = argv;
      })
unfolding launch_stage piped_stage fork_stage
launch_stage-child last [] stage s fd named zero_fork found own = cc
launch_stage-child true (name ∷ args) stage s none named zero_fork found own = rw (zero_fork, found)
launch_stage-child true (name ∷ args) stage s (some ends) named zero_fork found own = cc (own.0)
launch_stage-child false (name ∷ args) stage s none named zero_fork found own = cc
launch_stage-child false (name ∷ args) stage s (some (r, w)) named zero_fork found own =
    rw (own.1, zero_fork, found)

launch_stage-last :
    (argv : List Text) (stage : Stage) (s : Progress)
    → is_nil argv ≡ false
    → is_positive stage.fork ≡ true
    → launch_stage true argv stage s ≡ onward (after_fork none stage.fork s)
unfolding launch_stage fork_stage
launch_stage-last [] stage s named child = cc
launch_stage-last (name ∷ args) stage s named child = rw (positive-ne_zero stage.fork child)

forks-append : (xs ys : List (Text × Stage)) → forks (xs ++ ys) ≡ forks xs ++ forks ys
forks-append [] ys = refl
forks-append ((segment, stage) ∷ xs) ys = ap (λ (l : List ℤ). stage.fork ∷ l) (forks-append xs ys)

-- The ends of the pipes of the stages.
abbrev pub all_ends : List (Text × Stage) → List ℕ
all_ends [] = []
all_ends ((segment, stage) ∷ rest) = both_ends stage.pipe ++ all_ends rest

walk-opened :
    (xs : List (Text × Stage)) (s : Progress) → (walk xs s).opened ≡ s.opened ++ all_ends xs
unfolding after_fork
walk-opened [] s = sym (append-nil s.opened)
walk-opened ((segment, stage) ∷ xs) s =
    walk-opened xs _ ∙ append_assoc s.opened (both_ends stage.pipe) (all_ends xs)

after_pipe-Balanced :
    (stage : Stage) (s : Progress) (r w : ℕ)
    → stage.pipe ≡ some (r, w)
    → Balanced s
    → Balanced
        (after_fork stage.pipe stage.fork (record s { opened = s.opened ++ both_ends stage.pipe }))
after_pipe-Balanced stage s r w e h = rw e (after_fork-some r w stage.fork s h)

Balanced-walk :
    (xs : List (Text × Stage)) (s : Progress) → All IsStarted xs → Balanced s → Balanced (walk xs s)
Balanced-walk [] s h b = b
Balanced-walk ((segment, stage) ∷ xs) s h b =
    Balanced-walk xs _ h.1 (after_pipe-Balanced stage s h.0.read h.0.write h.0.piped b)

-- What the loop has opened and closed behind stages that were started.
pub walk-Balanced :
    (xs : List (Text × Stage)) → All IsStarted xs → Balanced (walk xs first_progress)
walk-Balanced xs h = Balanced-walk xs first_progress h (λ d. omega arith)

module _ (before : List (Text × Stage)) (segment : Text) (stage : Stage)
    (started : All IsStarted before) where
  -- A process of a pipeline, from the child's branch of its turn: if `execvp` finds its program, it
  -- reads the pipe of the process before it and writes its own pipe; the first has the shell's input
  -- and the last the shell's output. It is in the group of the first process, and its arguments are
  -- those of its segment.
  pub launch_loop-child :
      (after : List (Text × Stage)) (fd : Option (ℕ × ℕ))
      → is_nil (parseline segment) ≡ false
      → stage.fork ≡ pos 0
      → stage.exec_ok ≡ true
      → OwnPipe (is_nil after) stage fd
      → launch_loop (before ++ (segment, stage) ∷ after) first_progress
        ≡ replaced (record {
          group = leader before stage.own_pid;
          input = last_read none before;
          output = write_end fd;
          argv = parseline segment;
        })
  unfolding launch_loop
  launch_loop-child after fd named zero_fork found own =
      let s = walk before first_progress in
      launch_loop-walk before (segment, stage) after first_progress started
      ∙ ap (λ (flow : Flow). then_turn flow (launch_loop after))
          (launch_stage-child (is_nil after) (parseline segment) stage s fd named zero_fork found
            own)
      ∙ rw (walk-prev_read before first_progress, walk-leader before stage.own_pid started)

  -- The shell's own way through the loop, for processes that all could be started: it ends with the
  -- ids of all of them in order and in the group of the first; it has opened the ends of all the pipes,
  -- and has closed every descriptor as often as it opened it.
  pub launch_loop-parent :
      is_nil (parseline segment) ≡ false
      → is_positive stage.fork ≡ true
      → (s : Progress) × (launch_loop (before ++ (segment, stage) ∷ []) first_progress ≡ onward s)
        × (s.pids ≡ forks (before ++ (segment, stage) ∷ []))
        × (s.pgid ≡ leader before stage.fork)
        × (s.prev_read ≡ none)
        × (s.opened ≡ all_ends before)
        × ((fd : ℕ) → count fd s.opened ≡ count fd s.closed)
  unfolding launch_loop after_fork
  launch_loop-parent named child =
      let s = walk before first_progress in
      (
        after_fork none stage.fork s,
        launch_loop-walk before (segment, stage) [] first_progress started
            ∙ ap (λ (flow : Flow). then_turn flow (launch_loop []))
                (launch_stage-last (parseline segment) stage s named child),
        ap (λ (l : List ℤ). l ++ stage.fork ∷ []) (walk-pids before first_progress)
            ∙ sym (forks-append before ((segment, stage) ∷ [])),
        walk-leader before stage.fork started,
        refl,
        walk-opened before first_progress,
        λ fd. omega (arith, after_fork-none stage.fork s (walk-Balanced before started) fd),
      )
