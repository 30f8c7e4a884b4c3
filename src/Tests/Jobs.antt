-- ===== src/Tests/Jobs.antt =====
-- The job table, the signal handlers and the waits of sp_prj2/phase3/myshell.c at concrete tables.
use system_programming.Base.{
  List, Option, [], false, refl, some, suc, true, zero, ℕ, ℤ, pos, negsuc, ◌++◌, ◌≡◌, ◌∷◌, arith,
  replicate,
}
use system_programming.Shell.Text.{Text, skip_space, is_space}
use system_programming.Shell.JobId.{
  percent, parse_job_id, valid, strtol, is_digit, read_digits, to_int, check_id,
}
use system_programming.Shell.Jobs.{
  foreground, background, stopped, init_jobs, add_job, new_job, empty_job, find_job_by_jid,
  find_job_by_pid, job_at, put_job, update_fg_pgid, is_front,
}
use system_programming.Shell.Jobs.Invariant.{
  used-replicate, IsTable, init_jobs-IsTable, add_job-IsTable,
}
use system_programming.Shell.Jobs.Lookup.{Added, add_job_lem}
use system_programming.Shell.Signals.{Report, exited, signaled, sigchld_handler, sigterm, sigcont}
use system_programming.Shell.Signals.Invariant.{sigchld_handler-IsTable}
use system_programming.Shell.Signals.Exits.{sigchld_handler-clears}
use system_programming.Shell.Wait.{returned, asleep, wait_for_foreground}
use system_programming.Shell.Wait.Ends.{
  IsFront, EndsAll, idle, Sound, wait_for_foreground-Sound, wait_for_foreground-ends,
  wait_for_foreground-misses,
}
use system_programming.Shell.Builtins.{Env, builtin_fg, builtin_kill}
use system_programming.Shell.Builtins.Effects.{builtin_kill-own_group, builtin_fg-ends}
use system_programming.Tests.Data.{cat, ls, quiet_env, one_job, stopped_job}

abbrev both : List ℤ
both = pos 100 ∷ pos 101 ∷ []

pub one_job-IsTable : IsTable one_job
unfolding one_job
one_job-IsTable =
    add_job-IsTable (pos 100) both 2 foreground cat init_jobs init_jobs-IsTable (omega arith)

stopped_job-IsTable : IsTable stopped_job
unfolding stopped_job
stopped_job-IsTable =
    add_job-IsTable (pos 100) both 2 stopped cat init_jobs init_jobs-IsTable (omega arith)

add_job_lem_example :
    let (r, t') = add_job (pos 102) (pos 102 ∷ []) 1 background ls one_job in
    Added one_job (new_job one_job.next_jid (pos 102) (pos 102 ∷ []) 1 background ls) r t'
add_job_lem_example =
    add_job_lem (pos 102) (pos 102 ∷ []) 1 background ls one_job one_job-IsTable (omega arith)

abbrev two_exits : List Report
two_exits = (pos 101, exited) ∷ (pos 100, signaled) ∷ []

sigchld_handler-IsTable_example : IsTable (sigchld_handler two_exits one_job)
sigchld_handler-IsTable_example = sigchld_handler-IsTable two_exits one_job one_job-IsTable

sigchld_handler-clears_example :
    sigchld_handler two_exits one_job ≡ update_fg_pgid (put_job 0 empty_job one_job)
unfolding one_job find_job_by_pid
sigchld_handler-clears_example =
    sigchld_handler-clears 0 one_job two_exits (omega arith) ((refl, refl), ((refl, refl), tt))
      (omega arith) refl

wait_for_foreground-Sound_example :
    Sound (pos 100) (wait_for_foreground (pos 100) (idle ∷ []) two_exits one_job)
wait_for_foreground-Sound_example =
    wait_for_foreground-Sound (pos 100) (idle ∷ []) two_exits one_job one_job-IsTable

only_first : (k : ℕ) → is_front (job_at one_job.jobs k) ≡ true → k ≡ 0
unfolding one_job
only_first zero h = refl
only_first (suc k) h = absurd (ground (arith, used-replicate 15 k))

one_job-IsFront : IsFront one_job 0 (pos 100)
unfolding one_job
one_job-IsFront = record { inside = omega arith; group = refl; real = refl; only = only_first }

one_job-EndsAll : EndsAll one_job 0 two_exits
unfolding one_job find_job_by_pid
one_job-EndsAll = record {
  exits = ((refl, refl), ((refl, refl), tt));
  nonempty = omega arith;
  complete = refl;
}

wait_for_foreground-ends_example :
    wait_for_foreground
      (pos 100)
      (replicate 2 idle ++ record { before = []; during = two_exits } ∷ [])
      []
      one_job
    ≡ returned (update_fg_pgid (put_job 0 empty_job one_job))
wait_for_foreground-ends_example =
    wait_for_foreground-ends one_job 0 (pos 100) two_exits one_job-IsFront one_job-EndsAll 2 [] []

wait_for_foreground-misses_example :
    (wait_for_foreground (pos 100) [] two_exits one_job
      ≡ asleep (update_fg_pgid (put_job 0 empty_job one_job)))
    × ((update_fg_pgid (put_job 0 empty_job one_job)).fg_pgid ≡ pos 0)
wait_for_foreground-misses_example =
    wait_for_foreground-misses one_job 0 (pos 100) two_exits one_job-IsFront one_job-EndsAll

-- `%1`
abbrev job_one : Option Text
job_one = some (percent ∷ b'1' ∷ [])

job_one-valid : parse_job_id job_one ≡ valid 1
unfolding parse_job_id strtol is_digit check_id to_int skip_space is_space read_digits
job_one-valid = refl

-- Both processes end while SIGCHLD is blocked.
abbrev ending_env : Env
ending_env = record quiet_env { pending = two_exits }

builtin_kill-own_group_example :
    (builtin_kill ending_env job_one one_job).kills ≡ (pos 0, sigterm) ∷ []
unfolding one_job find_job_by_jid
builtin_kill-own_group_example =
    builtin_kill-own_group ending_env job_one one_job 1 0 job_one-valid refl (omega arith)
      one_job-EndsAll

none_in_front : (k : ℕ) → is_front (job_at stopped_job.jobs k) ≡ false
unfolding stopped_job
none_in_front zero = refl
none_in_front (suc k) = ground (arith, used-replicate 15 k)

stopped_job-EndsAll : EndsAll stopped_job 0 two_exits
unfolding stopped_job find_job_by_pid
stopped_job-EndsAll = record {
  exits = ((refl, refl), ((refl, refl), tt));
  nonempty = omega arith;
  complete = refl;
}

abbrev fg_env : Env
fg_env = record quiet_env { schedule = idle ∷ record { before = []; during = two_exits } ∷ [] }

builtin_fg-ends_example :
    ((builtin_fg fg_env job_one stopped_job).kills ≡ (negsuc 99, sigcont) ∷ [])
    × ((builtin_fg fg_env job_one stopped_job).messages ≡ [])
    × ((builtin_fg fg_env job_one stopped_job).outcome
        ≡ returned (update_fg_pgid (put_job 0 empty_job stopped_job)))
unfolding stopped_job find_job_by_jid
builtin_fg-ends_example =
    builtin_fg-ends fg_env job_one stopped_job 1 0 1 two_exits [] job_one-valid refl none_in_front
      refl stopped_job-EndsAll refl refl refl
