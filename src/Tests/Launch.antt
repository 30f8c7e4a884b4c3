-- ===== src/Tests/Launch.antt =====
-- `launch_pipeline` of sp_prj2/phase3/myshell.c with concrete answers of the kernel.
use system_programming.Base.{
  All, List, [], false, none, refl, some, true, ℕ, pos, ◌≡◌, ◌∷◌, suc, ◌≢◌, arith,
}
use system_programming.Shell.Text.{Text, is_space}
use system_programming.Shell.Words.{parseline, is_quote}
use system_programming.Shell.Jobs.{Table, init_jobs, find_first, is_free, is_front, job_at}
use system_programming.Shell.Jobs.Invariant.{used-replicate}
use system_programming.Shell.Launch.{
  Stage, Progress, onward, pipe_failed, replaced, launch_loop, first_progress, close_last,
  launch_pipeline, Launched, finished, is_nil,
}
use system_programming.Shell.Wait.{asleep}
use system_programming.Shell.Launch.Wiring.{IsStarted, launch_loop-child, launch_loop-parent}
use system_programming.Shell.Launch.Descriptors.{launch_loop-closes, launch_loop-leaks}
use system_programming.Shell.Launch.Balance.{count}
use system_programming.Shell.Launch.Failures.{launch_pipeline-asleep}
use system_programming.Tests.Data.{cat, ls, quiet_env, parent_stage}

abbrev first_stage : Stage
first_stage = parent_stage (pos 100) (some (3, 4))

abbrev last_stage : Stage
last_stage = parent_stage (pos 101) none

-- `ls | cat` in the shell.
abbrev in_shell : List (Text × Stage)
in_shell = (ls, first_stage) ∷ (cat, last_stage) ∷ []

-- The child of the last turn.
abbrev child_stage : Stage
child_stage = record { pipe = none; fork = pos 0; own_pid = pos 101; exec_ok = true; stale = pos 0 }

ls_named : is_nil (parseline ls) ≡ false
unfolding parseline is_space is_quote
ls_named = refl

cat_named : is_nil (parseline cat) ≡ false
unfolding parseline is_space is_quote
cat_named = refl

ls-IsStarted : All IsStarted ((ls, first_stage) ∷ [])
ls-IsStarted = (record { named = ls_named; child = refl; read = 3; write = 4; piped = refl }, tt)

launch_loop-child_example :
    launch_loop ((ls, first_stage) ∷ (cat, child_stage) ∷ []) first_progress
    ≡ replaced (record { group = pos 100; input = some 3; output = none; argv = parseline cat })
launch_loop-child_example =
    launch_loop-child ((ls, first_stage) ∷ []) cat child_stage ls-IsStarted [] none cat_named refl
      refl refl

launch_loop-parent_example :
    (s : Progress) × (launch_loop in_shell first_progress ≡ onward s)
    × (s.pids ≡ pos 100 ∷ pos 101 ∷ [])
    × (s.pgid ≡ pos 100)
    × (s.prev_read ≡ none)
    × (s.opened ≡ 3 ∷ 4 ∷ [])
    × ((fd : ℕ) → count fd s.opened ≡ count fd s.closed)
launch_loop-parent_example =
    launch_loop-parent ((ls, first_stage) ∷ []) cat last_stage ls-IsStarted cat_named refl

abbrev after_both : Progress
after_both = record {
  prev_read = none;
  pgid = pos 100;
  pids = pos 100 ∷ pos 101 ∷ [];
  opened = 3 ∷ 4 ∷ [];
  closed = 4 ∷ 3 ∷ [];
}

in_shell_runs : launch_loop in_shell first_progress ≡ onward after_both
unfolding launch_loop parseline is_space is_quote
in_shell_runs = refl

launch_loop-closes_example : count 3 after_both.opened ≡ count 3 (close_last after_both).closed
launch_loop-closes_example =
    launch_loop-closes in_shell after_both 3 (refl, (refl, tt)) in_shell_runs

-- The second of three stages gets no pipe.
abbrev short_of_pipes : List (Text × Stage)
short_of_pipes = (ls, first_stage) ∷ (cat, last_stage) ∷ (cat, last_stage) ∷ []

launch_loop-leaks_example :
    (s : Progress) × (launch_loop short_of_pipes first_progress ≡ pipe_failed s)
    × (count 3 s.opened ≡ suc (count 3 s.closed))
    × ((other : ℕ) → 3 ≢ other → count other s.opened ≡ count other s.closed)
launch_loop-leaks_example =
    launch_loop-leaks ((ls, first_stage) ∷ []) cat last_stage (cat, last_stage) [] 3 ls-IsStarted
      refl cat_named refl

-- `execvp` does not find the program.
abbrev lost_stage : Stage
lost_stage = record { pipe = none; fork = pos 0; own_pid = pos 102; exec_ok = false; stale = pos 0 }

quiet_start : (k : ℕ) → is_front (job_at init_jobs.jobs k) ≡ false
unfolding init_jobs
quiet_start k = ground (arith, used-replicate 16 k)

room_at_start : find_first is_free init_jobs.jobs ≡ some 0
unfolding init_jobs find_first
room_at_start = refl

launch_pipeline-asleep_example :
    (l : Launched) × (u : Table) × (launch_pipeline quiet_env
        ((ls, lost_stage) ∷ [])
        false
        ls
        init_jobs
      ≡ finished l)
    × (l.outcome ≡ asleep u)
launch_pipeline-asleep_example =
    launch_pipeline-asleep quiet_env ls init_jobs 0 room_at_start quiet_start tt tt tt ls lost_stage
      ls_named refl (λ _. refl)
