-- ===== src/Shell/Jobs/Invariant.antt =====
-- What holds of the job table of sp_prj2/phase3/myshell.c, and that the table's operations keep it.
use system_programming.Base.{
  List, arith, length, length-set, set, true, ℕ, ◌<◌, ◌∙◌, ◌≡◌, ◌≤◌, Bool, false, none, refl,
  replicate, suc, zero, ℤ, Option, some, ◌+◌,
}
use system_programming.Shell.Jobs.{
  max_jobs, Job, Table, job_at, front_pgid, empty_job, update_fg_pgid, find_first, init_jobs,
  add_job, JobState, Text, fill_slot, new_job, is_free, put_job,
}
use system_programming.Shell.Jobs.Slots.{job_at-set, Search, find_first-Search}

-- A job in use was given its id before `next`, and has a process left.
pub record IsJob (next : ℕ) (j : Job) : Type 0 where
  pub named : 0 < j.jid
  pub old : j.jid < next
  pub alive : 0 < j.live_count
  pub counted : j.live_count ≤ j.npids

pub record IsSlots (jobs : List Job) (next : ℕ) : Type 0 where
  pub size : length jobs ≡ max_jobs
  pub good : (i : ℕ) → (job_at jobs i).used ≡ true → IsJob next (job_at jobs i)
  pub distinct :
      (i k : ℕ)
      → (job_at jobs i).used ≡ true
      → (job_at jobs k).used ≡ true
      → (job_at jobs i).jid ≡ (job_at jobs k).jid
      → i ≡ k

-- The slots are sound, `next_jid` is positive, and `fg_pgid` is the group of the foreground job.
pub record IsTable (t : Table) : Type 0 where
  pub slots : IsSlots t.jobs t.next_jid
  pub positive : 0 < t.next_jid
  pub coherent : t.fg_pgid ≡ front_pgid t.jobs

module _ {jobs : List Job} {next next' : ℕ} (h : IsSlots jobs next) (i : ℕ) (j : Job)
    (inside : i < length jobs) (le : next ≤ next') where
  pub IsSlots-set :
      (j.used ≡ true → IsJob next' j)
      → (j.used ≡ true
          → (k : ℕ) → (job_at jobs k).used ≡ true
          → (job_at jobs k).jid ≡ j.jid
          → k ≡ i)
      → IsSlots (set jobs i j) next'
  IsSlots-set good fresh = record {
    size = length-set jobs i j ∙ h.size;
    good = λ k used. ground (arith, job_at-set jobs i k j inside, h.good k);
    distinct = λ a b ua ub e. ground (
      arith,
      job_at-set jobs i a j inside,
      job_at-set jobs i b j inside,
      h.distinct a b,
      λ (u : j.used ≡ true). fresh u a,
      λ (u : j.used ≡ true). fresh u b,
    );
  }

pub IsSlots-edit :
    {jobs : List Job} {next : ℕ} (i : ℕ) (j : Job)
    → IsSlots jobs next
    → i < length jobs
    → (job_at jobs i).used ≡ true
    → j.jid ≡ (job_at jobs i).jid
    → 0 < j.live_count
    → j.live_count ≤ j.npids
    → IsSlots (set jobs i j) next
IsSlots-edit {jobs} {next} i j h inside used same alive counted =
    let old : IsJob next (job_at jobs i) = h.good i used in
    IsSlots-set h i j inside (omega arith)
      (λ _. record { named = omega arith; old = omega arith; alive = alive; counted = counted })
      (λ _ k u e. h.distinct k i u used (e ∙ same))

pub IsSlots-free :
    {jobs : List Job} {next : ℕ} (i : ℕ)
    → IsSlots jobs next
    → i < length jobs
    → IsSlots (set jobs i empty_job) next
IsSlots-free {jobs} {next} i h inside =
    IsSlots-set h i empty_job inside (omega arith) (λ u. cc) (λ u. cc)

pub update_fg_pgid-IsTable :
    (t : Table) → IsSlots t.jobs t.next_jid → 0 < t.next_jid → IsTable (update_fg_pgid t)
unfolding update_fg_pgid
update_fg_pgid-IsTable t h p = record { slots = h; positive = p; coherent = refl }

pub used-replicate : (n k : ℕ) → (job_at (replicate n empty_job) k).used ≡ false
used-replicate zero k = refl
used-replicate (suc n) zero = refl
used-replicate (suc n) (suc k) = used-replicate n k

find_first-replicate :
    (test : Job → Bool) (n : ℕ)
    → test empty_job ≡ false
    → find_first test (replicate n empty_job) ≡ none
unfolding find_first
find_first-replicate test zero h = refl
find_first-replicate test (suc n) h = rw (h, find_first-replicate test n h)

-- `main` starts with a sound table.
pub init_jobs-IsTable : IsTable init_jobs
unfolding init_jobs front_pgid
init_jobs-IsTable = record {
  slots = record {
    size = refl;
    good = λ i used. cc (used-replicate max_jobs i);
    distinct = λ i k used. cc (used-replicate max_jobs i);
  };
  positive = omega arith;
  coherent = refl;
}

fill_slot-IsTable :
    (j : Job) (r : Option ℕ) (t : Table)
    → Search is_free t.jobs r
    → IsTable t
    → j.jid ≡ t.next_jid
    → 0 < j.live_count
    → j.live_count ≤ j.npids
    → IsTable (fill_slot j r t).1
unfolding fill_slot
fill_slot-IsTable j none t found h id alive counted = h
fill_slot-IsTable j (some i) t found h id alive counted =
    update_fg_pgid-IsTable (record (put_job i j t) { next_jid = t.next_jid + 1 })
      (IsSlots-set h.slots i j found.inside (omega arith)
        (λ _. record {
          named = omega (arith, h.positive);
          old = omega arith;
          alive = alive;
          counted = counted;
        })
        (λ _ k used e. absurd (omega (arith, e, (h.slots.good k used).old))))
      (omega arith)

-- `add_job` keeps the table sound, whatever job it is given, if that has a process.
pub add_job-IsTable :
    (pgid : ℤ) (pids : List ℤ) (npids : ℕ) (state : JobState) (cmdline : Text) (t : Table)
    → IsTable t
    → 0 < npids
    → IsTable (add_job pgid pids npids state cmdline t).1
unfolding add_job
add_job-IsTable pgid pids npids state cmdline t h some_pid =
    fill_slot-IsTable (new_job t.next_jid pgid pids npids state cmdline) (find_first is_free t.jobs)
      t (find_first-Search is_free t.jobs) h refl some_pid (omega arith)
