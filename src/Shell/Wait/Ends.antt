-- ===== src/Shell/Wait/Ends.antt =====
-- When `wait_for_foreground` of sp_prj2/phase3/myshell.c ends, and when it misses the end.
use system_programming.Shell.Signals.Invariant.{sigchld_handler-IsTable}
use system_programming.Shell.Jobs.Invariant.{IsTable}
use system_programming.Base.{
  All, List, Option, [], arith, false, is_positive, length, none, pos, refl, set, some, true, ℕ, ℤ,
  ◌<◌, ◌∷◌, ◌≡◌, ==ℤ_iff, Bool-cases, inl, inr, negsuc, replicate, suc, zero, ◌++◌, ◌==ℤ◌,
}
use system_programming.Shell.Jobs.{
  Job, empty_job, Table, job_at, find_first, find_foreground_job, front_pgid, is_front, put_job,
  update_fg_pgid,
}
use system_programming.Shell.Jobs.Slots.{job_at-set, find_first-Search, Search}
use system_programming.Shell.Signals.{Report}
use system_programming.Shell.Signals.Exits.{IsExitOf, sigchld_handler-clears}
use system_programming.Shell.Wait.{deliver, Turn, wait_for_foreground, Outcome, returned, asleep}

-- The job in slot `i` is the one job in the foreground, and its group is `pgid`.
pub record IsFront (t : Table) (i : ℕ) (pgid : ℤ) : Type 0 where
  pub inside : i < length t.jobs
  pub group : t.fg_pgid ≡ pgid
  pub real : is_positive pgid ≡ true
  pub only : (k : ℕ) → is_front (job_at t.jobs k) ≡ true → k ≡ i

-- The reports say that all its live processes have ended.
pub record EndsAll (t : Table) (i : ℕ) (reports : List Report) : Type 0 where
  pub exits : All (IsExitOf t i) reports
  pub nonempty : 0 < length reports
  pub complete : length reports ≡ (job_at t.jobs i).live_count

front_pgid-none :
    (jobs : List Job) → ((k : ℕ) → is_front (job_at jobs k) ≡ false) → front_pgid jobs ≡ pos 0
unfolding front_pgid find_foreground_job
front_pgid-none jobs h = none_found (find_first is_front jobs) (find_first-Search is_front jobs)
  where
    none_found :
        (r : Option ℕ)
        → Search is_front jobs r
        → (elim r [ none ↦ pos 0 | some i ↦ (job_at jobs i).pgid ]) ≡ pos 0
    none_found none s = refl
    none_found (some i) s = cc (h i, s.passes)

cleared-front :
    (t : Table) (i : ℕ)
    → i < length t.jobs
    → ((k : ℕ) → is_front (job_at t.jobs k) ≡ true → k ≡ i)
    → (update_fg_pgid (put_job i empty_job t)).fg_pgid ≡ pos 0
unfolding update_fg_pgid
cleared-front t i inside only =
    front_pgid-none (set t.jobs i empty_job)
      (λ k. ground (arith, job_at-set t.jobs i k empty_job inside, only k))

pub deliver-ends :
    (reports : List Report) (t : Table) (i : ℕ)
    → i < length t.jobs
    → EndsAll t i reports
    → deliver reports t ≡ update_fg_pgid (put_job i empty_job t)
unfolding deliver
deliver-ends [] t i inside e = absurd (omega (arith, e.nonempty))
deliver-ends (r ∷ reports) t i inside e =
    sigchld_handler-clears i t (r ∷ reports) inside e.exits e.nonempty e.complete

zero-ne-positive : (p : ℤ) → is_positive p ≡ true → (pos 0 ==ℤ p) ≡ false
zero-ne-positive (pos zero) h = cc
zero-ne-positive (pos (suc n)) h = ground arith
zero-ne-positive (negsuc n) h = refl

-- A turn in which the shell is woken by another signal, such as SIGINT.
abbrev pub idle : Turn
idle = record { before = []; during = [] }

module _ (t : Table) (i : ℕ) (pgid : ℤ) (reports : List Report) (f : IsFront t i pgid)
    (e : EndsAll t i reports) where
  waits : (t.fg_pgid ==ℤ pgid) ≡ true
  waits = (==ℤ_iff t.fg_pgid pgid).1 f.group

  over : ((update_fg_pgid (put_job i empty_job t)).fg_pgid ==ℤ pgid) ≡ false
  over = rw (cleared-front t i f.inside f.only) (zero-ne-positive pgid f.real)

  returns :
      (schedule : List Turn) (last : List Report)
      → wait_for_foreground pgid schedule last (update_fg_pgid (put_job i empty_job t))
        ≡ returned (update_fg_pgid (put_job i empty_job t))
  unfolding wait_for_foreground
  returns [] last = rw over
  returns (turn ∷ schedule) last = rw over

  -- The shell waits for the one foreground job through any number of other signals, and when the
  -- last of the job's processes are reported during its sleep it goes on, with the job's slot free.
  pub wait_for_foreground-ends :
      (n : ℕ) (schedule : List Turn) (last : List Report)
      → wait_for_foreground pgid
          (replicate n idle ++ record { before = []; during = reports } ∷ schedule)
          last
          t
        ≡ returned (update_fg_pgid (put_job i empty_job t))
  unfolding wait_for_foreground deliver
  wait_for_foreground-ends zero schedule last =
      rw (waits, deliver-ends reports t i f.inside e) (returns schedule last)
  wait_for_foreground-ends (suc n) schedule last =
      rw waits (wait_for_foreground-ends n schedule last)

  -- Reports that arrive between the test and the sleep are lost on the wait: with no later signal
  -- the shell sleeps on, although the job's slot is free and no job is in the foreground.
  pub wait_for_foreground-misses :
      (wait_for_foreground pgid [] reports t ≡ asleep (update_fg_pgid (put_job i empty_job t)))
      × ((update_fg_pgid (put_job i empty_job t)).fg_pgid ≡ pos 0)
  unfolding wait_for_foreground
  wait_for_foreground-misses =
      (rw (waits, deliver-ends reports t i f.inside e), cleared-front t i f.inside f.only)

pub deliver-IsTable : (reports : List Report) (t : Table) → IsTable t → IsTable (deliver reports t)
unfolding deliver
deliver-IsTable [] t h = h
deliver-IsTable (r ∷ reports) t h = sigchld_handler-IsTable (r ∷ reports) t h

-- What a wait has come to: it is over only when another group, or none, is in the foreground, and
-- the table is sound throughout.
abbrev pub Sound : ℤ → Outcome → Type 0
Sound pgid (returned t) = IsTable t × ((t.fg_pgid ==ℤ pgid) ≡ false)
Sound pgid (asleep t) = IsTable t

-- Under every schedule of signals, `wait_for_foreground` returns only when the group that it was
-- given is no longer in the foreground, and keeps the table sound.
pub wait_for_foreground-Sound :
    (pgid : ℤ) (schedule : List Turn) (last : List Report) (t : Table)
    → IsTable t
    → Sound pgid (wait_for_foreground pgid schedule last t)
unfolding wait_for_foreground
wait_for_foreground-Sound pgid [] last t h = elim (Bool-cases (t.fg_pgid ==ℤ pgid)) [
  | inl y ↦ rw y (deliver-IsTable last t h)
  | inr n ↦ rw n (h, n)
]
wait_for_foreground-Sound pgid (turn ∷ schedule) last t h = elim (Bool-cases (t.fg_pgid ==ℤ pgid)) [
  | inl y ↦ rw y (
      wait_for_foreground-Sound pgid schedule last (deliver turn.during (deliver turn.before t))
        (deliver-IsTable turn.during _ (deliver-IsTable turn.before t h)))
  | inr n ↦ rw n (h, n)
]
