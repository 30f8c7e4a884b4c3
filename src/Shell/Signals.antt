-- ===== src/Shell/Signals.antt =====
-- The signal handlers of sp_prj2/phase3/myshell.c. The kernel's answers to `waitpid` come as a
-- list: the handler's loop ends where that returns no process.
pub mod Invariant
pub mod Exits
pub mod PerJob
use system_programming.Base.{
  List, Option, if◌then◌else◌, is_positive, neg, none, some, ℕ, ℤ, ◌-◌, ◌==◌,
}
use mathlib.Core.List.{foldl}
use system_programming.Shell.Jobs.{
  JobState, background, stopped, Job, Table, job_at, find_job_by_pid, is_stopped, update_fg_pgid,
  put_job, set_state, delete_job,
}

pub data Status : Type 0 where
  was_stopped was_continued exited signaled : Status

-- A process and its status, as `waitpid` returns them.
abbrev pub Report : Type 0
Report = ℤ × Status

pub data Signal : Type 0 where
  sigint sigtstp sigcont sigterm sigkill : Signal

-- `if (live_count > 0) live_count--;`
abbrev pub count_down : Job → Job
count_down j = record j { live_count = j.live_count - 1 }

-- The last branch of the loop, for a process that has ended.
unfoldable pub end_process : ℕ → Table → Table
unfolding delete_job
end_process i t =
    let t' = put_job i (count_down (job_at t.jobs i)) t in
    if (job_at t'.jobs i).live_count == 0 then delete_job (some i) t' else t'

unfoldable pub on_status : ℕ → Status → Table → Table
unfolding end_process
on_status i was_stopped t = set_state i stopped t
on_status i was_continued t =
    if is_stopped (job_at t.jobs i).state then set_state i background t else t
on_status i exited t = end_process i t
on_status i signaled t = end_process i t

unfoldable pub reap_in : Option ℕ → Status → Table → Table
unfolding on_status
reap_in none status t = t
reap_in (some i) status t = on_status i status t

-- One turn of the loop.
unfoldable pub reap : Table → Report → Table
unfolding find_job_by_pid reap_in
reap t (pid, status) = reap_in (find_job_by_pid pid t) status t

unfoldable pub sigchld_handler : List Report → Table → Table
unfolding reap update_fg_pgid
sigchld_handler reports t = update_fg_pgid (foldl reap t reports)

-- The process group and the signal of a call of `kill`.
abbrev pub Kill : Type 0
Kill = ℤ × Signal

unfoldable pub forward : Signal → Table → Option Kill
forward signal t = if is_positive t.fg_pgid then some (neg t.fg_pgid, signal) else none

unfoldable pub sigint_handler : Table → Option Kill
unfolding forward
sigint_handler t = forward sigint t

unfoldable pub sigtstp_handler : Table → Option Kill
unfolding forward
sigtstp_handler t = forward sigtstp t
