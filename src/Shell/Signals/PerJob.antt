-- ===== src/Shell/Signals/PerJob.antt =====
-- The `SIGCHLD` handler of sp_prj2/phase3/myshell.c against a specification without slots: a job id
-- stands for at most one job, and each job sees only the reports on its own processes.
pub mod Handler
use system_programming.Base.{
  Bool, Bool-cases, List, Option, [], ◌∷◌, ap, arith, false, true, length, none, some, inl, inr, ℕ,
  ℤ, ◌<◌, ◌==◌, ◌-◌, ◌≡◌, ◌≢◌, ◌∙◌, sym, refl, set, if◌then◌else◌, subst,
}
use mathlib.Core.List.{foldl}
use mathlib.Core.Option
use system_programming.Shell.Jobs.{
  Job, Table, empty_job, job_at, has_jid, holds_pid, find_first, find_job_by_jid, find_job_by_pid,
  put_job, update_fg_pgid, set_state, stopped, background, is_stopped,
}
use system_programming.Shell.Jobs.Slots.{
  job_at-set, find_first-set, find_first-Search, Search, Finds,
}
use system_programming.Shell.Jobs.Lookup.{find_first-only}
use system_programming.Shell.Jobs.Invariant.{IsSlots, IsTable}
use system_programming.Shell.Signals.{
  Status, was_stopped, was_continued, exited, signaled, Report, count_down, end_process, on_status,
  reap_in, reap, sigchld_handler,
}
use system_programming.Shell.Signals.Invariant.{Between, end_process_lem, reap-Between}

-- What a report on one of its processes makes of a job; `none` is a job that has ended.
abbrev pub on_report : Status → Job → Option Job
on_report was_stopped j = some (record j { state = stopped })
on_report was_continued j = some (if is_stopped j.state then record j { state = background } else j)
on_report exited j = if j.live_count - 1 == 0 then none else some (count_down j)
on_report signaled j = if j.live_count - 1 == 0 then none else some (count_down j)

-- A job that is not there any more sees no report, and one that is sees those on its processes.
abbrev pub follow : Option Job → Report → Option Job
follow none r = none
follow (some j) (pid, status) = if holds_pid pid j then on_report status j else some j

-- The job of an id.
abbrev pub lookup : ℕ → Table → Option Job
lookup jid t = Option.map (job_at t.jobs) (find_job_by_jid jid t)

-- No process belongs to two jobs.
abbrev pub IsApart : List Job → Type 0
IsApart jobs =
    (pid : ℤ) (i k : ℕ)
    → holds_pid pid (job_at jobs i) ≡ true
    → holds_pid pid (job_at jobs k) ≡ true
    → i ≡ k

pub IsApart-set :
    (jobs : List Job) (i : ℕ) (j : Job)
    → i < length jobs
    → ((pid : ℤ) → holds_pid pid j ≡ true → holds_pid pid (job_at jobs i) ≡ true)
    → IsApart jobs
    → IsApart (set jobs i j)
IsApart-set jobs i j inside less apart pid a b h k = ground (
  arith,
  job_at-set jobs i a j inside,
  job_at-set jobs i b j inside,
  less pid,
  apart pid a b,
  apart pid a i,
  apart pid i b,
)

-- The job at a slot after a write to slot `i`.
abbrev rewritten : ℕ → Job → List Job → ℕ → Job
rewritten i j jobs k = if k == i then j else job_at jobs k

module _ (jid i : ℕ) (t : Table) (inside : i < length t.jobs) where
  lookup-put_job :
      (j : Job)
      → has_jid jid j ≡ has_jid jid (job_at t.jobs i)
      → lookup jid (put_job i j t)
        ≡ Option.map (rewritten i j t.jobs) (find_first (has_jid jid) t.jobs)
  unfolding find_job_by_jid
  lookup-put_job j same =
      rw (find_first-set (has_jid jid) t.jobs i j inside same)
        (map_same (find_first (has_jid jid) t.jobs))
    where
      map_same :
          (r : Option ℕ)
          → Option.map (job_at (set t.jobs i j)) r ≡ Option.map (rewritten i j t.jobs) r
      map_same none = refl
      map_same (some k) = ap some (job_at-set t.jobs i k j inside)

  -- What a report for slot `i` makes of the job in slot `k`.
  abbrev pub reported : Status → Option ℕ → Option Job
  reported status none = none
  reported status (some k) =
      if k == i then on_report status (job_at t.jobs i) else some (job_at t.jobs k)

  map-reported :
      (status : Status) (j : Job) (r : Option ℕ)
      → on_report status (job_at t.jobs i) ≡ some j
      → Option.map (rewritten i j t.jobs) r ≡ reported status r
  map-reported status j none e = refl
  map-reported status j (some k) e = elim (Bool-cases (k == i)) [ inl y ↦ rw (y, e) | inr n ↦ rw n ]

  -- A write that the report asks for.
  lookup-reported :
      (status : Status) (j : Job)
      → has_jid jid j ≡ has_jid jid (job_at t.jobs i)
      → on_report status (job_at t.jobs i) ≡ some j
      → lookup jid (put_job i j t) ≡ reported status (find_first (has_jid jid) t.jobs)
  lookup-reported status j same e =
      lookup-put_job j same ∙ map-reported status j (find_first (has_jid jid) t.jobs) e

  kept-reported :
      (status : Status) (r : Option ℕ)
      → on_report status (job_at t.jobs i) ≡ some (job_at t.jobs i)
      → Option.map (job_at t.jobs) r ≡ reported status r
  kept-reported status none e = refl
  kept-reported status (some k) e = elim (Bool-cases (k == i)) [
    | inl y ↦ let same : k ≡ i = ground arith in rw (y, e, same)
    | inr n ↦ rw n
  ]

  other-reported :
      (status : Status) (j : Job) (r : Option ℕ)
      → has_jid jid (job_at t.jobs i) ≡ false
      → Search (has_jid jid) t.jobs r
      → Option.map (rewritten i j t.jobs) r ≡ reported status r
  other-reported status j none n found = refl
  other-reported status j (some k) n found = elim (Bool-cases (k == i)) [
    | inl y ↦ let same : k ≡ i = ground arith in let passes = found.passes in cc
    | inr m ↦ rw m
  ]

  module _ (h : Between t) (used : (job_at t.jobs i).used ≡ true) where
    find_first-freed :
        (r : Option ℕ)
        → has_jid jid (job_at t.jobs i) ≡ true
        → Search (has_jid jid) (set t.jobs i empty_job) r
        → r ≡ none
    find_first-freed none here found = refl
    find_first-freed (some k) here found =
        absurd (
          ground
            (arith, found.passes, job_at-set t.jobs i k empty_job inside, h.slots.distinct k i))

    lookup-freed :
        (status : Status)
        → on_report status (job_at t.jobs i) ≡ none
        → lookup jid (put_job i empty_job t) ≡ reported status (find_first (has_jid jid) t.jobs)
    unfolding find_job_by_jid
    lookup-freed status e = elim (Bool-cases (has_jid jid (job_at t.jobs i))) [
      | inl y ↦
          let gone =
            find_first-freed (find_first (has_jid jid) (set t.jobs i empty_job)) y
              (find_first-Search (has_jid jid) (set t.jobs i empty_job)) in
          let only : find_first (has_jid jid) t.jobs ≡ some i =
            find_first-only (has_jid jid) t.jobs i inside y
              (λ k p. h.slots.distinct k i (ground arith) used (ground arith)) in
          let self : (i == i) ≡ true = ground arith in rw (gone, only, self, e)
      | inr n ↦
          lookup-put_job empty_job (sym n)
          ∙ other-reported status empty_job (find_first (has_jid jid) t.jobs) n
              (find_first-Search (has_jid jid) t.jobs)
    ]

    lookup-end_process :
        (status : Status)
        → on_report status (job_at t.jobs i) ≡ on_report exited (job_at t.jobs i)
        → lookup jid (end_process i t) ≡ reported status (find_first (has_jid jid) t.jobs)
    unfolding update_fg_pgid find_job_by_jid
    lookup-end_process status e =
        rw (end_process_lem i t inside) (elim (Bool-cases ((job_at t.jobs i).live_count - 1 == 0)) [
          | inl y ↦ rw y (lookup-freed status (e ∙ rw y))
          | inr n ↦ rw n (lookup-reported status (count_down (job_at t.jobs i)) refl (e ∙ rw n))
        ])

    pub lookup-on_status :
        (status : Status)
        → lookup jid (on_status i status t) ≡ reported status (find_first (has_jid jid) t.jobs)
    unfolding on_status find_job_by_jid
    lookup-on_status was_stopped =
        lookup-reported was_stopped (record (job_at t.jobs i) { state = stopped }) refl refl
    lookup-on_status was_continued = elim (Bool-cases (is_stopped (job_at t.jobs i).state)) [
      | inl y ↦ rw y (
          lookup-reported was_continued (record (job_at t.jobs i) { state = background }) refl
            (rw y))
      | inr n ↦ rw n (kept-reported was_continued (find_first (has_jid jid) t.jobs) (rw n))
    ]
    lookup-on_status exited = lookup-end_process exited refl
    lookup-on_status signaled = lookup-end_process signaled refl
