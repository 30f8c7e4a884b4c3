-- ===== src/Shell/Eval/Runs.antt =====
-- What a line that is written out as a pipeline does in sp_prj2/phase3/myshell.c, from its text to the
-- job table.
use system_programming.Base.{
  ℕ, ◌+◌, ◌<◌, Bool, true, false, All, Option, none, some, List, [], ◌∷◌, ◌++◌, map, ◌≡◌, ◌≢◌, refl,
  ap, sym, ◌∙◌, arith, length, is_positive,
}
use system_programming.Shell.Text.{Text, normalize_jobcmd}
use system_programming.Shell.Words.{parseline}
use system_programming.Shell.Line.{max_cmds, Line, parse_line}
use system_programming.Shell.Line.Pieces.{Piece, show_pieces}
use system_programming.Shell.Line.RoundTrip.{IsCommand, show_line, mark, parse_line-show_line}
use system_programming.Shell.Line.Segments.{parse_line-parseline}
use system_programming.Shell.Jobs.{Table, Job, max_jobs, job_at, new_job, add_job}
use system_programming.Shell.Jobs.Invariant.{IsTable}
use system_programming.Shell.Jobs.Lookup.{Added, add_job_lem}
use system_programming.Shell.Wait.{deliver}
use system_programming.Shell.Builtins.{Env, builtin_command, external}
use system_programming.Shell.Launch.{
  Stage, Progress, is_nil, finished, state_of, end_launch, launch_loop, onward, register,
  first_progress, launch_pipeline,
}
use system_programming.Shell.Launch.Wiring.{IsStarted, leader, forks, launch_loop-parent}
use system_programming.Shell.Eval.{
  Answers, with_stages, launch_line, launched, eval_one, after_builtin, head_arg, eval_line, eval,
}

-- The kernel makes the pipe and the process of a turn.
pub record Starts (stage : Stage) : Type 0 where
  pub child : is_positive stage.fork ≡ true
  pub read : ℕ
  pub write : ℕ
  pub piped : stage.pipe ≡ some (read, write)

with_stages-IsStarted :
    (stages : ℕ → Stage) (k : ℕ) (segments : List Text)
    → ((i : ℕ) → Starts (stages i))
    → All (λ s. parseline s ≢ []) segments
    → All IsStarted (with_stages stages k segments)
unfolding with_stages
with_stages-IsStarted stages k [] start named = tt
with_stages-IsStarted stages k (segment ∷ rest) start named =
    let one = start k in
    (
      record {
        named = is_nil-ne_nil (parseline segment) named.0;
        child = one.child;
        read = one.read;
        write = one.write;
        piped = one.piped;
      },
      with_stages-IsStarted stages (k + 1) rest start named.1,
    )
  where
    is_nil-ne_nil : (xs : List Text) → xs ≢ [] → is_nil xs ≡ false
    is_nil-ne_nil [] ne = absurd (ne refl)
    is_nil-ne_nil (x ∷ xs) ne = refl

-- Stages that are not none, as those before the last and the last.
abbrev Ends : Text × Stage → List (Text × Stage) → Type 0
Ends x xs =
    (before : List (Text × Stage)) × (last : Text × Stage) × (x ∷ xs ≡ before ++ last ∷ [])
    × All IsStarted before
    × IsStarted last
    × (leader before last.1.fork ≡ x.1.fork)

split_last :
    (x : Text × Stage) (xs : List (Text × Stage)) → IsStarted x → All IsStarted xs → Ends x xs
split_last x [] h rest = ([], x, refl, tt, h, refl)
split_last x (y ∷ xs) h rest =
    let (before, last, e, starts, ends, led) = split_last y xs rest.0 rest.1 in
    (x ∷ before, last, ap (λ (l : List (Text × Stage)). x ∷ l) e, (h, starts), ends, refl)

launch_loop-started :
    (x : Text × Stage) (xs : List (Text × Stage))
    → IsStarted x
    → All IsStarted xs
    → (s : Progress) × (launch_loop (x ∷ xs) first_progress ≡ onward s)
      × (s.pids ≡ forks (x ∷ xs))
      × (s.pgid ≡ x.1.fork)
      × (s.prev_read ≡ none)
launch_loop-started x xs h rest =
    let (before, last, e, starts, ends, led) = split_last x xs h rest in
    let (s, runs, pids, pgid, read, opened, closed) =
      launch_loop-parent before last.0 last.1 starts ends.named ends.child in
    (
      s,
      ap (λ (l : List (Text × Stage)). launch_loop l first_progress) e ∙ runs,
      pids ∙ ap forks (sym e),
      pgid ∙ led,
      read,
    )

-- The table has a slot that is not in use.
pub record HasRoom (t : Table) : Type 0 where
  pub slot : ℕ
  pub inside : slot < max_jobs
  pub free : (job_at t.jobs slot).used ≡ false

Added-some :
    (t t' : Table) (j : Job) (r : Option ℕ)
    → HasRoom t
    → Added t j r t'
    → (i : ℕ) × (r ≡ some i) × Added t j (some i) t'
Added-some t t' j none room h = absurd (ground (arith, h.0 room.slot room.inside, room.free))
Added-some t t' j (some i) room h = (i, refl, h)

launch_pipeline-onward :
    (env : Env) (segments : List (Text × Stage)) (bg : Bool) (cmdline : Text) (t : Table)
    (s : Progress)
    → launch_loop segments first_progress ≡ onward s
    → launch_pipeline env segments bg cmdline t
      ≡ finished (
          let (r, t') = add_job s.pgid s.pids (length segments) (state_of bg) cmdline t in
          end_launch env bg s.pgid r (deliver env.pending t'))
unfolding launch_pipeline register
launch_pipeline-onward env segments bg cmdline t s h = rw (h, launch_pipeline)

launch_pipeline-started :
    (env : Env) (x : Text × Stage) (xs : List (Text × Stage)) (bg : Bool) (cmdline : Text)
    (t : Table)
    → IsStarted x
    → All IsStarted xs
    → IsTable t
    → HasRoom t
    → (i : ℕ) × (t' : Table) × Added t
        (new_job t.next_jid x.1.fork (forks (x ∷ xs)) (length (x ∷ xs)) (state_of bg) cmdline)
        (some i)
        t'
      × (launch_pipeline env (x ∷ xs) bg cmdline t
          ≡ finished (end_launch env bg x.1.fork (some i) (deliver env.pending t')))
launch_pipeline-started env x xs bg cmdline t h rest sound room =
    let (s, runs, pids, pgid, read) = launch_loop-started x xs h rest in
    let n = length (x ∷ xs) in
    let (r, t') = add_job x.1.fork (forks (x ∷ xs)) n (state_of bg) cmdline t in
    let job = new_job t.next_jid x.1.fork (forks (x ∷ xs)) n (state_of bg) cmdline in
    let (i, e, added) =
      Added-some t t' job r room
        (add_job_lem x.1.fork (forks (x ∷ xs)) n (state_of bg) cmdline t sound (omega arith)) in
    (i, t', added, launch_pipeline-onward env (x ∷ xs) bg cmdline t s runs ∙ rw (pids, pgid, e))

-- The one command of a line names no built-in command; two or more are not looked at.
abbrev pub IsExternal : Env → Text → List (List Piece) → Table → Type 0
IsExternal env segment (d ∷ ds) t = Unit {0}
IsExternal env segment [] t =
    (name : Text) × (args : List Text) × (parseline segment ≡ name ∷ args)
    × (builtin_command env name (head_arg args) t ≡ external)

eval_line-launch :
    (answers : Answers) (cmdline : Text) (c : List Piece) (ds : List (List Piece)) (bg : Bool)
    (t : Table)
    → IsExternal answers.env (show_pieces c) ds t
    → let l : Line = record { segments = map show_pieces (c ∷ ds); bg = bg } in
      eval_line answers cmdline l t ≡ launch_line answers cmdline l t
unfolding eval_line eval_one after_builtin
eval_line-launch answers cmdline c (d ∷ ds) bg t h = refl
eval_line-launch answers cmdline c [] bg t h = rw (h.2, h.3)

eval-parsed :
    (answers : Answers) (cmdline : Text) (l : Line) (t : Table)
    → parse_line cmdline ≡ some l
    → eval answers cmdline t ≡ eval_line answers cmdline l t
unfolding eval
eval-parsed answers cmdline l t h = rw (h, eval)

-- A line that is written out as one to `MAXCMDS` commands, which the shell is to run by itself, with
-- the kernel making every process and pipe, and a free slot in a sound table: the line becomes one
-- job in that table, under the next id, with the processes of all its commands in order, in the
-- group of the first, and in the background exactly if it is marked so. The shell goes on with that
-- job: it waits for its group, or prints its line.
pub eval-show_line :
    (answers : Answers) (c : List Piece) (ds : List (List Piece)) (bg : Bool) (t : Table)
    → IsCommand c
    → All IsCommand ds
    → length ds < max_cmds
    → IsExternal answers.env (show_pieces c) ds t
    → ((k : ℕ) → Starts (answers.stages k))
    → IsTable t
    → HasRoom t
    → let line = show_line c ds (mark bg) in
      let stages = with_stages answers.stages 0 (map show_pieces (c ∷ ds)) in
      let pgid = (answers.stages 0).fork in
      (i : ℕ) × (t' : Table) × Added t
        (new_job t.next_jid pgid
          (forks stages)
          (length stages)
          (state_of bg)
          (normalize_jobcmd line))
        (some i)
        t'
      × (eval answers line t
          ≡ launched
              (finished (end_launch answers.env bg pgid (some i) (deliver answers.env.pending t'))))
unfolding launch_line with_stages
eval-show_line answers c ds bg t ok rest room alone starts sound free =
    let line = show_line c ds (mark bg) in
    let l : Line = record { segments = map show_pieces (c ∷ ds); bg = bg } in
    let read = parse_line-show_line c ds bg ok rest room in
    let started =
      with_stages-IsStarted answers.stages 0 (map show_pieces (c ∷ ds)) starts
        (parse_line-parseline line l read) in
    let (i, t', added, runs) =
      launch_pipeline-started answers.env (show_pieces c, answers.stages 0)
        (with_stages answers.stages 1 (map show_pieces ds)) bg (normalize_jobcmd line) t started.0
        started.1 sound free in
    (
      i,
      t',
      added,
      eval-parsed answers line l t read
          ∙ (eval_line-launch answers line c ds bg t alone ∙ ap launched runs),
    )
