-- ===== src/Shell/Launch/Descriptors.antt =====
-- The descriptors that `launch_pipeline` of sp_prj2/phase3/myshell.c opens and closes.
use system_programming.Base.{
  All, ◌≢◌, ap, ◌∙◌, List, [], arith, false, none, some, suc, ℕ, ◌++◌, ◌+◌, ◌∷◌, ◌≡◌, subst,
}
use system_programming.Shell.Words.{parseline}
use system_programming.Shell.Text.{Text}
use system_programming.Shell.Launch.{
  Stage, Progress, to_list, Flow, launch_stage, launch_loop, onward, first_progress, pipe_failed,
  piped_stage, close_last, then_turn, is_nil,
}
use system_programming.Shell.Launch.Balance.{
  count, count-append, FlowBalanced, AllParents, launch_loop-Balanced,
}
use system_programming.Shell.Launch.Wiring.{
  IsStarted, last_read, walk, launch_loop-walk, walk-prev_read, walk-Balanced,
}

-- The shell closes every descriptor that it opens for a pipeline, as often as it opens it, if each
-- `pipe` succeeds.
pub launch_loop-closes :
    (segments : List (Text × Stage)) (s : Progress) (fd : ℕ)
    → AllParents segments
    → launch_loop segments first_progress ≡ onward s
    → count fd s.opened ≡ count fd (close_last s).closed
launch_loop-closes segments s fd p e =
    let h =
      subst FlowBalanced e (launch_loop-Balanced segments first_progress p (λ d. omega arith)) in
    omega (arith, h fd, count-append fd s.closed (to_list s.prev_read))

launch_stage-no_pipe :
    (argv : List Text) (stage : Stage) (s : Progress)
    → is_nil argv ≡ false
    → stage.pipe ≡ none
    → launch_stage false argv stage s ≡ pipe_failed s
unfolding launch_stage piped_stage
launch_stage-no_pipe [] stage s named broken = cc
launch_stage-no_pipe (name ∷ args) stage s named broken = rw broken

-- Where the stages before were started and the `pipe` of the next fails, the shell leaves the loop and
-- returns with the read end of the pipe before still open: it has opened that descriptor once more than
-- it has closed it, and every other as often.
pub launch_loop-leaks :
    (before : List (Text × Stage)) (segment : Text) (stage : Stage) (x : Text × Stage)
    (after : List (Text × Stage)) (fd : ℕ)
    → All IsStarted before
    → last_read none before ≡ some fd
    → is_nil (parseline segment) ≡ false
    → stage.pipe ≡ none
    → (s : Progress) × (launch_loop (before ++ (segment, stage) ∷ x ∷ after) first_progress
        ≡ pipe_failed s)
      × (count fd s.opened ≡ suc (count fd s.closed))
      × ((other : ℕ) → fd ≢ other → count other s.opened ≡ count other s.closed)
unfolding launch_loop
launch_loop-leaks before segment stage x after fd started last named broken =
    let s = walk before first_progress in
    let held : s.prev_read ≡ some fd = walk-prev_read before first_progress ∙ last in
    let balanced = λ (d : ℕ).
      subst (λ r. count d s.opened ≡ count d s.closed + count d (to_list r)) held
        (walk-Balanced before started d) in
    (
      s,
      launch_loop-walk before (segment, stage) (x ∷ after) first_progress started
          ∙ ap (λ (flow : Flow). then_turn flow (launch_loop (x ∷ after)))
              (launch_stage-no_pipe (parseline segment) stage s named broken),
      ground (arith, balanced fd),
      λ other ne. ground (arith, balanced other),
    )
