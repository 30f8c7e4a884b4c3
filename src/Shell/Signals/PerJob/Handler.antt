-- ===== src/Shell/Signals/PerJob/Handler.antt =====
-- The loop of the `SIGCHLD` handler of sp_prj2/phase3/myshell.c, job by job.
use system_programming.Base.{
  Bool, Bool-cases, ap, List, Option, [], ◌∷◌, arith, false, true, none, some, inl, inr, ℕ, ℤ, ◌==◌,
  ◌-◌, ◌<◌, ◌≡◌, ◌∙◌, refl, length,
}
use mathlib.Core.List.{foldl}
use mathlib.Core.Option
use system_programming.Shell.Jobs.{
  Job, Table, empty_job, job_at, has_jid, holds_pid, find_first, find_job_by_jid, find_job_by_pid,
  update_fg_pgid, is_stopped, stopped, background,
}
use system_programming.Shell.Jobs.Slots.{find_first-Search, Search}
use system_programming.Shell.Jobs.Invariant.{IsTable}
use system_programming.Shell.Signals.{
  Status, was_stopped, was_continued, exited, signaled, Report, count_down, end_process, on_status,
  reap_in, reap, sigchld_handler,
}
use system_programming.Shell.Signals.Invariant.{Between, end_process_lem, reap-Between}
use system_programming.Shell.Signals.PerJob.{
  follow, lookup, IsApart, IsApart-set, reported, lookup-on_status,
}

module _ (t : Table) (pid : ℤ) (status : Status) where
  -- A report on no job.
  unclaimed-follow :
      (r : Option ℕ)
      → ((k : ℕ) → k < length t.jobs → holds_pid pid (job_at t.jobs k) ≡ false)
      → (test : Job → Bool) → Search test t.jobs r
      → Option.map (job_at t.jobs) r ≡ follow (Option.map (job_at t.jobs) r) (pid, status)
  unclaimed-follow none unclaimed test found = refl
  unclaimed-follow (some k) unclaimed test found = rw (unclaimed k found.inside)

  reported-follow :
      (jid i : ℕ) (inside : i < length t.jobs) (r : Option ℕ)
      → holds_pid pid (job_at t.jobs i) ≡ true
      → IsApart t.jobs
      → reported jid i t inside status r ≡ follow (Option.map (job_at t.jobs) r) (pid, status)
  reported-follow jid i inside none holds apart = refl
  reported-follow jid i inside (some k) holds apart = elim (Bool-cases (k == i)) [
    | inl y ↦ let same : k ≡ i = ground arith in rw (y, same, holds)
    | inr n ↦
        let other : holds_pid pid (job_at t.jobs k) ≡ false = ground (arith, apart pid k i) in
        rw (n, other)
  ]

lookup-reap_in :
    (jid : ℕ) (t : Table) (pid : ℤ) (status : Status) (r : Option ℕ)
    → Between t
    → IsApart t.jobs
    → Search (holds_pid pid) t.jobs r
    → lookup jid (reap_in r status t) ≡ follow (lookup jid t) (pid, status)
unfolding reap_in find_job_by_jid
lookup-reap_in jid t pid status none h apart found =
    unclaimed-follow t pid status (find_first (has_jid jid) t.jobs) found (has_jid jid)
      (find_first-Search (has_jid jid) t.jobs)
lookup-reap_in jid t pid status (some i) h apart found =
    lookup-on_status jid i t found.inside h (ground (arith, found.passes)) status
    ∙ reported-follow t pid status jid i found.inside (find_first (has_jid jid) t.jobs) found.passes
        apart

lookup-reap :
    (jid : ℕ) (t : Table) (r : Report)
    → Between t
    → IsApart t.jobs
    → lookup jid (reap t r) ≡ follow (lookup jid t) r
unfolding reap find_job_by_pid
lookup-reap jid t (pid, status) h apart =
    lookup-reap_in jid t pid status (find_job_by_pid pid t) h apart
      (find_first-Search (holds_pid pid) t.jobs)

end_process-IsApart :
    (i : ℕ) (t : Table) → i < length t.jobs → IsApart t.jobs → IsApart (end_process i t).jobs
unfolding update_fg_pgid
end_process-IsApart i t inside apart =
    rw (end_process_lem i t inside) (elim (Bool-cases ((job_at t.jobs i).live_count - 1 == 0)) [
      | inl y ↦ rw y (IsApart-set t.jobs i empty_job inside (λ pid e. cc) apart)
      | inr n ↦ rw n (IsApart-set t.jobs i (count_down (job_at t.jobs i)) inside (λ pid e. e) apart)
    ])

on_status-IsApart :
    (i : ℕ) (t : Table) (status : Status)
    → i < length t.jobs
    → IsApart t.jobs
    → IsApart (on_status i status t).jobs
unfolding on_status
on_status-IsApart i t was_stopped inside apart =
    IsApart-set t.jobs i (record (job_at t.jobs i) { state = stopped }) inside (λ pid e. e) apart
on_status-IsApart i t was_continued inside apart =
    elim (Bool-cases (is_stopped (job_at t.jobs i).state)) [
      | inl y ↦ rw y (
          IsApart-set t.jobs i (record (job_at t.jobs i) { state = background }) inside (λ pid e. e)
            apart)
      | inr n ↦ rw n apart
    ]
on_status-IsApart i t exited inside apart = end_process-IsApart i t inside apart
on_status-IsApart i t signaled inside apart = end_process-IsApart i t inside apart

reap_in-IsApart :
    (t : Table) (pid : ℤ) (status : Status) (r : Option ℕ)
    → IsApart t.jobs
    → Search (holds_pid pid) t.jobs r
    → IsApart (reap_in r status t).jobs
unfolding reap_in
reap_in-IsApart t pid status none apart found = apart
reap_in-IsApart t pid status (some i) apart found = on_status-IsApart i t status found.inside apart

reap-IsApart : (t : Table) (r : Report) → IsApart t.jobs → IsApart (reap t r).jobs
unfolding reap find_job_by_pid
reap-IsApart t (pid, status) apart =
    reap_in-IsApart t pid status (find_job_by_pid pid t) apart
      (find_first-Search (holds_pid pid) t.jobs)

foldl-follow :
    (jid : ℕ) (reports : List Report) (t : Table)
    → Between t
    → IsApart t.jobs
    → lookup jid (foldl reap t reports) ≡ foldl follow (lookup jid t) reports
foldl-follow jid [] t h apart = refl
foldl-follow jid (r ∷ reports) t h apart =
    foldl-follow jid reports (reap t r) (reap-Between t r h) (reap-IsApart t r apart)
    ∙ ap (λ (o : Option Job). foldl follow o reports) (lookup-reap jid t r h apart)

-- In a sound table in which no process belongs to two jobs, whatever the kernel reports, what an id
-- stands for behind the handler is what it stood for, with the reports on the job's own processes
-- taken in order: stopped, continued, or counted down, and gone with the last live process.
pub sigchld_handler-follow :
    (jid : ℕ) (reports : List Report) (t : Table)
    → IsTable t
    → IsApart t.jobs
    → lookup jid (sigchld_handler reports t) ≡ foldl follow (lookup jid t) reports
unfolding sigchld_handler update_fg_pgid find_job_by_jid
sigchld_handler-follow jid reports t h apart =
    foldl-follow jid reports t (record { slots = h.slots; positive = h.positive }) apart
