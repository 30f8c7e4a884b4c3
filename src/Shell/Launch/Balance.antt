-- ===== src/Shell/Launch/Balance.antt =====
-- The loop of `launch_pipeline` of sp_prj2/phase3/myshell.c keeps what it opens and what it closes in
-- balance.
use system_programming.Base.{
  List, [], arith, false, if◌then◌else◌, none, pos, some, suc, ℕ, ℤ, ◌++◌, ◌+◌, ◌==ℤ◌, ◌==◌, ◌∷◌,
  ◌≡◌, Bool, Option, true,
}
use system_programming.Shell.Words.{parseline}
use system_programming.Shell.Text.{Text}
use system_programming.Shell.Launch.{
  Stage, Progress, to_list, after_fork, Flow, launch_stage, launch_loop, onward, fork_stage,
  pipe_failed, piped_stage, replaced, then_turn, is_nil,
}

-- How often a descriptor stands in a list.
abbrev pub count : ℕ → List ℕ → ℕ
count fd [] = 0
count fd (x ∷ xs) = if x == fd then suc (count fd xs) else count fd xs

pub count-append : (fd : ℕ) (xs ys : List ℕ) → count fd (xs ++ ys) ≡ count fd xs + count fd ys
count-append fd [] ys = omega arith
count-append fd (x ∷ xs) ys = ground (arith, count-append fd xs ys)

-- Every descriptor is closed as often as it was opened, but for the read end that the loop holds.
abbrev pub Balanced : Progress → Type 0
Balanced s = (fd : ℕ) → count fd s.opened ≡ count fd s.closed + count fd (to_list s.prev_read)

-- In the shell itself `fork` never returned 0.
abbrev pub IsParent : Stage → Type 0
IsParent stage = (stage.fork ==ℤ pos 0) ≡ false

pub after_fork-none : (pid : ℤ) (s : Progress) → Balanced s → Balanced (after_fork none pid s)
unfolding after_fork
after_fork-none pid s h fd = omega (
  arith,
  h fd,
  count-append fd s.closed (to_list s.prev_read ++ []),
  count-append fd (to_list s.prev_read) [],
)

pub after_fork-some :
    (r w : ℕ) (pid : ℤ) (s : Progress)
    → Balanced s
    → Balanced (after_fork (some (r, w)) pid (record s { opened = s.opened ++ r ∷ w ∷ [] }))
unfolding after_fork
after_fork-some r w pid s h fd = ground (
  arith,
  h fd,
  count-append fd s.opened (r ∷ w ∷ []),
  count-append fd s.closed (to_list s.prev_read ++ w ∷ []),
  count-append fd (to_list s.prev_read) (w ∷ []),
)

abbrev pub FlowBalanced : Flow → Type 0
FlowBalanced (onward s) = Balanced s
FlowBalanced (pipe_failed s) = Balanced s
FlowBalanced (replaced image) = Unit {0}

launch_stage-Balanced :
    (last : Bool) (argv : List Text) (stage : Stage) (s : Progress)
    → IsParent stage
    → Balanced s
    → FlowBalanced (launch_stage last argv stage s)
unfolding launch_stage fork_stage piped_stage
launch_stage-Balanced last [] stage s p h = h
launch_stage-Balanced true (name ∷ args) stage s p h = rw p (after_fork-none stage.fork s h)
launch_stage-Balanced false (name ∷ args) stage s p h = piped stage.pipe
  where
    piped : (fd : Option (ℕ × ℕ)) → FlowBalanced (piped_stage fd (name ∷ args) stage s)
    piped none = h
    piped (some (r, w)) = rw p (after_fork-some r w stage.fork s h)

abbrev pub AllParents : List (Text × Stage) → Type 0
AllParents [] = Unit {0}
AllParents ((segment, stage) ∷ rest) = IsParent stage × AllParents rest

then_turn-Balanced :
    (flow : Flow) (next : Progress → Flow)
    → FlowBalanced flow
    → ((s : Progress) → Balanced s → FlowBalanced (next s))
    → FlowBalanced (then_turn flow next)
then_turn-Balanced (onward s) next h more = more s h
then_turn-Balanced (pipe_failed s) next h more = h
then_turn-Balanced (replaced image) next h more = tt

pub launch_loop-Balanced :
    (segments : List (Text × Stage)) (s : Progress)
    → AllParents segments
    → Balanced s
    → FlowBalanced (launch_loop segments s)
unfolding launch_loop
launch_loop-Balanced [] s p h = h
launch_loop-Balanced ((segment, stage) ∷ rest) s p h =
    then_turn-Balanced (launch_stage (is_nil rest) (parseline segment) stage s) (launch_loop rest)
      (launch_stage-Balanced (is_nil rest) (parseline segment) stage s p.0 h)
      (λ s' h'. launch_loop-Balanced rest s' p.1 h')
