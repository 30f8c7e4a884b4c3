-- ===== src/Shell/Jobs/Lookup.antt =====
-- Finding jobs in the table of sp_prj2/phase3/myshell.c after `add_job`.
use system_programming.Base.{
  Bool, List, Option, ap, length, none, some, true, ℕ, ◌<◌, ◌↔◌, ◌≡◌, arith, false, refl, set,
  subst, ℤ, ◌+◌, ◌≢◌,
}
use system_programming.Shell.Text.{Text}
use system_programming.Shell.Jobs.{
  max_jobs, JobState, Job, Table, job_at, find_first, is_free, new_job, fill_slot, update_fg_pgid,
  add_job, has_jid, find_job_by_jid, is_front, front_pgid, find_foreground_job,
}
use system_programming.Shell.Jobs.Slots.{job_at-set, find_first-Search, Search, Finds}
use system_programming.Shell.Jobs.Invariant.{IsTable, add_job-IsTable}

-- The one slot that passes is where the search stops.
pub find_first-only :
    (test : Job → Bool) (jobs : List Job) (i : ℕ)
    → i < length jobs
    → test (job_at jobs i) ≡ true
    → ((k : ℕ) → test (job_at jobs k) ≡ true → k ≡ i)
    → find_first test jobs ≡ some i
find_first-only test jobs i inside passes only =
    stop (find_first test jobs) (find_first-Search test jobs)
  where
    stop : (r : Option ℕ) → Search test jobs r → r ≡ some i
    stop none none_passes = cc (none_passes i inside)
    stop (some k) found = ap some (only k found.passes)

-- The group that `update_fg_pgid` stores is that of the first job in the foreground.
pub front_pgid-some :
    (jobs : List Job) (i : ℕ)
    → find_first is_front jobs ≡ some i
    → front_pgid jobs ≡ (job_at jobs i).pgid
unfolding front_pgid find_foreground_job
front_pgid-some jobs i e = rw (e, front_pgid)

-- In a sound table `find_job_by_jid` finds exactly the slot in use with that id.
pub find_job_by_jid_lem :
    (t : Table) (jid i : ℕ)
    → IsTable t
    → ((find_job_by_jid jid t ≡ some i)
        ↔ ((i < max_jobs) × ((job_at t.jobs i).used ≡ true) × ((job_at t.jobs i).jid ≡ jid)))
unfolding find_job_by_jid
find_job_by_jid_lem t jid i h = (
  λ e.
      let found : Finds (has_jid jid) t.jobs i =
        subst (Search (has_jid jid) t.jobs) e (find_first-Search (has_jid jid) t.jobs) in
      (
        omega (arith, h.slots.size, found.inside),
        ground (arith, found.passes),
        ground (arith, found.passes),
      ),
  λ (inside, used, id).
      find_first-only (has_jid jid) t.jobs i (omega (arith, h.slots.size)) (ground arith)
        (λ k p. h.slots.distinct k i (ground arith) used (ground arith)),
)

-- What `add_job` may have done to the table: nothing, as no slot was free, or filled a free slot
-- with the job and left the others.
abbrev pub Added : Table → Job → Option ℕ → Table → Type 0
Added t j none t' = ((k : ℕ) → k < max_jobs → (job_at t.jobs k).used ≡ true) × (t' ≡ t)
Added t j (some i) t' =
    ((job_at t.jobs i).used ≡ false)
    × (job_at t'.jobs i ≡ j)
    × ((k : ℕ) → k ≢ i → job_at t'.jobs k ≡ job_at t.jobs k)
    × (t'.next_jid ≡ t.next_jid + 1)
    × (find_job_by_jid j.jid t' ≡ some i)

fill_slot-Added :
    (j : Job) (r : Option ℕ) (t : Table)
    → Search is_free t.jobs r
    → IsTable t
    → IsTable (fill_slot j r t).1
    → j.used ≡ true
    → Added t j (fill_slot j r t).0 (fill_slot j r t).1
unfolding fill_slot update_fg_pgid
fill_slot-Added j none t found h after used =
    (λ k le. ground (arith, found k (omega (arith, h.slots.size))), refl)
fill_slot-Added j (some i) t found h after used =
    let here : job_at (set t.jobs i j) i ≡ j =
      ground (arith, job_at-set t.jobs i i j found.inside) in
    (
      ground (arith, found.passes),
      here,
      λ k ne. ground (arith, job_at-set t.jobs i k j found.inside),
      refl,
      (find_job_by_jid_lem _ j.jid i after).1
          (omega (arith, h.slots.size, found.inside), rw here used, rw here),
    )

-- On a sound table `add_job` fails exactly when all sixteen slots are in use, and then changes
-- nothing; otherwise it fills a free slot with the job under the id `next_jid`, leaves the other
-- slots, counts `next_jid` on, and `find_job_by_jid` finds the new job by its id.
pub add_job_lem :
    (pgid : ℤ) (pids : List ℤ) (npids : ℕ) (state : JobState) (cmdline : Text) (t : Table)
    → IsTable t
    → 0 < npids
    → let (r, t') = add_job pgid pids npids state cmdline t in
      Added t (new_job t.next_jid pgid pids npids state cmdline) r t'
unfolding add_job
add_job_lem pgid pids npids state cmdline t h some_pid =
    fill_slot-Added (new_job t.next_jid pgid pids npids state cmdline) (find_first is_free t.jobs) t
      (find_first-Search is_free t.jobs) h
      (add_job-IsTable pgid pids npids state cmdline t h some_pid) refl
