-- ===== src/Shell/Wait/Asleep.antt =====
-- A wait of sp_prj2/phase3/myshell.c that never ends: for a job that no reported process is in.
use system_programming.Base.{
  All, Bool-cases, List, Option, [], ap, false, if◌then◌else◌, inl, inr, is_positive, length,
  length-set, none, refl, set, some, sym, true, ℕ, ℤ, ◌-◌, ◌<◌, ==ℤ_iff, ◌==◌, ◌∙◌, ◌≡◌, ◌≢◌, ◌∷◌,
  arith,
}
use mathlib.Core.List.{foldl}
use system_programming.Shell.Jobs.{
  Job, Table, background, stopped, empty_job, find_job_by_pid, holds_pid, is_front, is_stopped,
  job_at, update_fg_pgid,
}
use system_programming.Shell.Jobs.Slots.{Search, find_first-Search, job_at-set, set-job_at}
use system_programming.Shell.Jobs.Lookup.{find_first-only, front_pgid-some}
use system_programming.Shell.Signals.{
  Status, was_stopped, was_continued, exited, signaled, Report, count_down, end_process, on_status,
  reap_in, reap, sigchld_handler,
}
use system_programming.Shell.Signals.Invariant.{end_process_lem}
use system_programming.Shell.Wait.{Turn, asleep, deliver, wait_for_foreground}

-- The kernel reports processes, whose ids are positive.
abbrev pub IsReal : Report → Type 0
IsReal (pid, status) = is_positive pid ≡ true

abbrev pub IsRealTurn : Turn → Type 0
IsRealTurn turn = All IsReal turn.before × All IsReal turn.during

-- A change to slot `k` alone that puts no job in the foreground.
record Demotes (k : ℕ) (t t' : Table) : Type 0 where
  job : Job
  jobs : t'.jobs ≡ set t.jobs k job
  front : is_front job ≡ true → is_front (job_at t.jobs k) ≡ true

module _ (k : ℕ) (t : Table) (inside : k < length t.jobs) where
  unchanged-Demotes : Demotes k t t
  unchanged-Demotes = record {
    job = job_at t.jobs k;
    jobs = sym (set-job_at t.jobs k inside);
    front = λ h. h;
  }

  end_process-Demotes : Demotes k t (end_process k t)
  unfolding update_fg_pgid
  end_process-Demotes =
      rw (end_process_lem k t inside) (elim (Bool-cases ((job_at t.jobs k).live_count - 1 == 0)) [
        | inl y ↦ rw y (record { job = empty_job; jobs = refl; front = λ h. cc })
        | inr n ↦ rw n (record { job = count_down (job_at t.jobs k); jobs = refl; front = λ h. h })
      ])

  on_status-Demotes : (status : Status) → Demotes k t (on_status k status t)
  unfolding on_status
  on_status-Demotes was_stopped = record {
    job = record (job_at t.jobs k) { state = stopped };
    jobs = refl;
    front = λ h. ground arith;
  }
  on_status-Demotes was_continued = elim (Bool-cases (is_stopped (job_at t.jobs k).state)) [
    | inl y ↦ rw y (record {
      job = record (job_at t.jobs k) { state = background };
      jobs = refl;
      front = λ h. ground arith;
    })
    | inr n ↦ rw n unchanged-Demotes
  ]
  on_status-Demotes exited = end_process-Demotes
  on_status-Demotes signaled = end_process-Demotes

-- Slot `i` holds the one job in the foreground, `j`, which no reported process belongs to.
module _ (i : ℕ) (j : Job) (front : is_front j ≡ true)
    (foreign : (pid : ℤ) → is_positive pid ≡ true → holds_pid pid j ≡ false) where
  pub record Alone (t : Table) : Type 0 where
    pub inside : i < length t.jobs
    pub here : job_at t.jobs i ≡ j
    pub only : (k : ℕ) → is_front (job_at t.jobs k) ≡ true → k ≡ i

  Alone-Demotes :
      (k : ℕ) (t t' : Table) → k < length t.jobs → k ≢ i → Demotes k t t' → Alone t → Alone t'
  Alone-Demotes k t t' within ne d a = record {
    inside = rw (d.jobs, length-set t.jobs k d.job) a.inside;
    here = rw d.jobs (job_at-set t.jobs k i d.job within ∙ ground (arith, a.here));
    only = λ m h.
        let e : is_front (if m == k then d.job else job_at t.jobs m) ≡ true =
          ap is_front (sym (job_at-set t.jobs k m d.job within))
          ∙ (ap (λ (l : List Job). is_front (job_at l m)) (sym d.jobs) ∙ h) in
        elim (Bool-cases (m == k)) [
          | inl y ↦ absurd (ne (a.only k (d.front (rw y at e))))
          | inr n ↦ a.only m (rw n at e)
        ];
  }

  reap_in-Alone :
      (pid : ℤ) (r : Option ℕ) (status : Status) (t : Table)
      → is_positive pid ≡ true
      → Search (holds_pid pid) t.jobs r
      → Alone t
      → Alone (reap_in r status t)
  unfolding reap_in
  reap_in-Alone pid none status t real found a = a
  reap_in-Alone pid (some k) status t real found a =
      Alone-Demotes k t (on_status k status t) found.inside
        (λ e. cc (foreign pid real, found.passes, a.here, ap (job_at t.jobs) e))
        (on_status-Demotes k t found.inside status) a

  foldl-Alone :
      (reports : List Report) (t : Table)
      → All IsReal reports
      → Alone t
      → Alone (foldl reap t reports)
  unfolding reap find_job_by_pid
  foldl-Alone [] t h a = a
  foldl-Alone ((pid, status) ∷ reports) t h a = foldl-Alone reports (reap t (pid, status)) h.1 (
      reap_in-Alone pid (find_job_by_pid pid t) status t h.0
        (find_first-Search (holds_pid pid) t.jobs) a)

  pub Alone-group : (t : Table) → Alone t → (update_fg_pgid t).fg_pgid ≡ j.pgid
  unfolding update_fg_pgid
  Alone-group t a =
      front_pgid-some t.jobs i
        (find_first-only is_front t.jobs i a.inside (ap is_front a.here ∙ front) a.only)
      ∙ ap (λ (x : Job). x.pgid) a.here

  -- The shell waits for that job, whatever signals come in.
  pub record Hung (t : Table) : Type 0 where
    pub alone : Alone t
    pub group : t.fg_pgid ≡ j.pgid

  pub deliver-Hung :
      (reports : List Report) (t : Table) → All IsReal reports → Hung t → Hung (deliver reports t)
  unfolding deliver sigchld_handler update_fg_pgid
  deliver-Hung [] t h a = a
  deliver-Hung (r ∷ reports) t h a =
      let after = foldl-Alone (r ∷ reports) t h a.alone in
      record {
        alone = record { inside = after.inside; here = after.here; only = after.only };
        group = Alone-group (foldl reap t (r ∷ reports)) after;
      }

  pub wait_for_foreground-asleep :
      (schedule : List Turn) (last : List Report) (t : Table)
      → All IsRealTurn schedule
      → All IsReal last
      → Hung t
      → (u : Table) × (wait_for_foreground j.pgid schedule last t ≡ asleep u)
  unfolding wait_for_foreground
  wait_for_foreground-asleep [] last t h k a =
      (deliver last t, rw ((==ℤ_iff t.fg_pgid j.pgid).1 a.group))
  wait_for_foreground-asleep (turn ∷ schedule) last t h k a =
      rw ((==ℤ_iff t.fg_pgid j.pgid).1 a.group) (
        wait_for_foreground-asleep schedule last (deliver turn.during (deliver turn.before t)) h.1 k
          (deliver-Hung turn.during _ h.0.1 (deliver-Hung turn.before t h.0.0 a)))
