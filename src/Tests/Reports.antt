-- ===== src/Tests/Reports.antt =====
-- Reports on the processes of two jobs of sp_prj2/phase3/myshell.c, in turns.
use system_programming.Base.{List, [], ◌∷◌, arith, none, some, zero, suc, pos, negsuc, ◌≡◌, refl}
use mathlib.Core.List.{foldl}
use system_programming.Shell.Jobs.{
  Table, background, stopped, add_job, find_job_by_jid, has_pid, new_job,
}
use system_programming.Shell.Jobs.Invariant.{IsTable, add_job-IsTable, used-replicate}
use system_programming.Shell.Signals.{Report, was_stopped, exited, sigchld_handler}
use system_programming.Shell.Signals.PerJob.{follow, lookup, IsApart}
use system_programming.Shell.Signals.PerJob.Handler.{sigchld_handler-follow}
use system_programming.Tests.Data.{cat, ls, one_job}
use system_programming.Tests.Jobs.{one_job-IsTable}

-- `cat | cat` in the foreground, and `ls` in the background.
unfoldable two_jobs : Table
unfolding add_job one_job
two_jobs = (add_job (pos 102) (pos 102 ∷ []) 1 background ls one_job).1

two_jobs-IsTable : IsTable two_jobs
unfolding two_jobs
two_jobs-IsTable =
    add_job-IsTable (pos 102) (pos 102 ∷ []) 1 background ls one_job one_job-IsTable (omega arith)

two_jobs-IsApart : IsApart two_jobs.jobs
unfolding two_jobs has_pid
two_jobs-IsApart pid zero zero h k = refl
two_jobs-IsApart (pos n) zero (suc zero) h k = absurd (ground arith)
two_jobs-IsApart (negsuc n) zero (suc zero) h k = cc
two_jobs-IsApart (pos n) (suc zero) zero h k = absurd (ground arith)
two_jobs-IsApart (negsuc n) (suc zero) zero h k = cc
two_jobs-IsApart pid (suc zero) (suc zero) h k = refl
two_jobs-IsApart pid (suc (suc i)) j h k = absurd (ground (arith, used-replicate 14 i))
two_jobs-IsApart pid i (suc (suc j)) h k = absurd (ground (arith, used-replicate 14 j))

abbrev reports : List Report
reports =
    (pos 100, was_stopped) ∷ (pos 102, exited) ∷ (pos 101, was_stopped) ∷ (pos 101, exited) ∷ []

-- The job in the background is gone, and the other is stopped with one process left.
second_gone : foldl follow (lookup 2 two_jobs) reports ≡ none
unfolding two_jobs find_job_by_jid has_pid
second_gone = refl

first_stopped :
    foldl follow (lookup 1 two_jobs) reports
    ≡ some (record (new_job 1 (pos 100) (pos 100 ∷ pos 101 ∷ []) 2 stopped cat) { live_count = 1 })
unfolding two_jobs find_job_by_jid has_pid
first_stopped = refl

sigchld_handler-follow_example :
    lookup 1 (sigchld_handler reports two_jobs) ≡ foldl follow (lookup 1 two_jobs) reports
sigchld_handler-follow_example =
    sigchld_handler-follow 1 reports two_jobs two_jobs-IsTable two_jobs-IsApart
