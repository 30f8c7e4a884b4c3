-- ===== src/Shell/Signals/Invariant.antt =====
-- The `SIGCHLD` handler of sp_prj2/phase3/myshell.c keeps the job table sound.
use system_programming.Base.{
  List, Option, [], arith, length, none, refl, some, true, ℕ, ℤ, ◌<◌, ◌∷◌, ◌≡◌, Bool-cases,
  if◌then◌else◌, inl, inr, set-set, ◌-◌, ◌==◌,
}
use mathlib.Core.List.{foldl}
use system_programming.Shell.Jobs.{
  empty_job, Table, job_at, holds_pid, find_job_by_pid, put_job, set_state, delete_job,
  update_fg_pgid, JobState, stopped, background,
}
use system_programming.Shell.Jobs.Slots.{find_first-Search, Search, job_at-set_self}
use system_programming.Shell.Jobs.Invariant.{
  IsSlots, IsSlots-edit, IsSlots-free, IsTable, update_fg_pgid-IsTable,
}
use system_programming.Shell.Signals.{
  Status, was_stopped, was_continued, exited, signaled, Report, count_down, end_process, on_status,
  reap_in, reap, sigchld_handler,
}

-- What the handler's loop keeps between two reports.
pub record Between (t : Table) : Type 0 where
  pub slots : IsSlots t.jobs t.next_jid
  pub positive : 0 < t.next_jid

-- The job's counter is the old one less one, and at 0 its slot is cleared.
pub end_process_lem :
    (i : ℕ) (t : Table)
    → i < length t.jobs
    → end_process i t ≡ (
        if (job_at t.jobs i).live_count - 1 == 0
        then update_fg_pgid (put_job i empty_job t)
        else put_job i (count_down (job_at t.jobs i)) t)
unfolding end_process delete_job
end_process_lem i t inside = rw (
  job_at-set_self t.jobs i (count_down (job_at t.jobs i)) inside,
  set-set t.jobs i (count_down (job_at t.jobs i)) empty_job,
)

module _ (i : ℕ) (t : Table) (h : Between t) (inside : i < length t.jobs)
    (used : (job_at t.jobs i).used ≡ true) where
  pub set_state-Between : (state : JobState) → Between (set_state i state t)
  set_state-Between state = record {
    slots =
        IsSlots-edit i (record (job_at t.jobs i) { state = state }) h.slots inside used refl
          (h.slots.good i used).alive (h.slots.good i used).counted;
    positive = h.positive;
  }

  end_process-Between : Between (end_process i t)
  unfolding update_fg_pgid
  end_process-Between =
      let old = h.slots.good i used in
      rw (end_process_lem i t inside) (elim (Bool-cases ((job_at t.jobs i).live_count - 1 == 0)) [
        | inl y ↦ rw y (record { slots = IsSlots-free i h.slots inside; positive = h.positive })
        | inr n ↦ rw n (record {
          slots =
              IsSlots-edit i (count_down (job_at t.jobs i)) h.slots inside used refl (ground arith)
                (omega (arith, old.counted));
          positive = h.positive;
        })
      ])

  on_status-Between : (status : Status) → Between (on_status i status t)
  unfolding on_status
  on_status-Between was_stopped = set_state-Between stopped
  on_status-Between was_continued = ground (arith, set_state-Between background, h)
  on_status-Between exited = end_process-Between
  on_status-Between signaled = end_process-Between

reap_in-Between :
    (pid : ℤ) (r : Option ℕ) (status : Status) (t : Table)
    → Search (holds_pid pid) t.jobs r
    → Between t
    → Between (reap_in r status t)
unfolding reap_in
reap_in-Between pid none status t found h = h
reap_in-Between pid (some i) status t found h =
    on_status-Between i t h found.inside (ground (arith, found.passes)) status

pub reap-Between : (t : Table) (report : Report) → Between t → Between (reap t report)
unfolding reap find_job_by_pid
reap-Between t (pid, status) h =
    reap_in-Between pid (find_job_by_pid pid t) status t (find_first-Search (holds_pid pid) t.jobs)
      h

foldl-Between : (t : Table) (reports : List Report) → Between t → Between (foldl reap t reports)
foldl-Between t [] h = h
foldl-Between t (r ∷ reports) h = foldl-Between (reap t r) reports (reap-Between t r h)

-- Whatever reports the kernel has, in whatever order, the `SIGCHLD` handler leaves a sound table:
-- every job in it counts a live process, and `fg_pgid` is again the group of the foreground job.
pub sigchld_handler-IsTable :
    (reports : List Report) (t : Table) → IsTable t → IsTable (sigchld_handler reports t)
unfolding sigchld_handler
sigchld_handler-IsTable reports t h =
    let after = foldl-Between t reports (record { slots = h.slots; positive = h.positive }) in
    update_fg_pgid-IsTable (foldl reap t reports) after.slots after.positive
