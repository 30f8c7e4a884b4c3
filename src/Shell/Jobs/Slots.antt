-- ===== src/Shell/Jobs/Slots.antt =====
-- Reading, writing and searching the slots of the job table of sp_prj2/phase3/myshell.c.
use system_programming.Base.{
  Bool, Bool-cases, List, Option, [], arith, false, if◌then◌else◌, inl, inr, length, none, set,
  some, suc, true, zero, ℕ, ◌<◌, ◌==◌, ◌∙◌, ◌∷◌, ◌≡◌, ap, refl,
}
use mathlib.Core.Option
use system_programming.Shell.Jobs.{Job, job_at, find_first}

pub job_at-set :
    (jobs : List Job) (i k : ℕ) (j : Job)
    → i < length jobs
    → job_at (set jobs i j) k ≡ (if k == i then j else job_at jobs k)
job_at-set [] i k j h = absurd (omega arith)
job_at-set (x ∷ jobs) zero zero j h = ground arith
job_at-set (x ∷ jobs) zero (suc k) j h = ground arith
job_at-set (x ∷ jobs) (suc i) zero j h = ground arith
job_at-set (x ∷ jobs) (suc i) (suc k) j h = job_at-set jobs i k j (omega arith) ∙ ground arith

pub job_at-set_self :
    (jobs : List Job) (i : ℕ) (j : Job) → i < length jobs → job_at (set jobs i j) i ≡ j
job_at-set_self jobs i j h = job_at-set jobs i i j h ∙ ground arith

pub set-job_at : (jobs : List Job) (i : ℕ) → i < length jobs → set jobs i (job_at jobs i) ≡ jobs
set-job_at [] i h = refl
set-job_at (x ∷ jobs) zero h = refl
set-job_at (x ∷ jobs) (suc i) h = ap (λ (l : List Job). x ∷ l) (set-job_at jobs i (omega arith))

-- A write that the test does not see leaves the search where it was.
pub find_first-set :
    (test : Job → Bool) (jobs : List Job) (i : ℕ) (j : Job)
    → i < length jobs
    → test j ≡ test (job_at jobs i)
    → find_first test (set jobs i j) ≡ find_first test jobs
unfolding find_first
find_first-set test [] i j h e = refl
find_first-set test (x ∷ jobs) zero j h e = rw e
find_first-set test (x ∷ jobs) (suc i) j h e = rw (find_first-set test jobs i j (omega arith) e)

-- The slot at which a search stops is the first that passes.
pub record Finds (test : Job → Bool) (jobs : List Job) (i : ℕ) : Type 0 where
  pub inside : i < length jobs
  pub passes : test (job_at jobs i) ≡ true
  pub first : (k : ℕ) → k < i → test (job_at jobs k) ≡ false

abbrev pub Search : (Job → Bool) → List Job → Option ℕ → Type 0
Search test jobs none = (k : ℕ) → k < length jobs → test (job_at jobs k) ≡ false
Search test jobs (some i) = Finds test jobs i

pub find_first-Search :
    (test : Job → Bool) (jobs : List Job) → Search test jobs (find_first test jobs)
unfolding find_first
find_first-Search test [] = λ k h. absurd (omega arith)
find_first-Search test (j ∷ jobs) = elim (Bool-cases (test j)) [
  | inl y ↦ rw y (record { inside = omega arith; passes = y; first = λ k h. absurd (omega arith) })
  | inr n ↦ rw n (later (find_first test jobs) (find_first-Search test jobs) n)
]
  where
    behind :
        test j ≡ false
        → (i : ℕ) → ((k : ℕ) → k < i → test (job_at jobs k) ≡ false)
        → (k : ℕ) → k < suc i
        → test (job_at (j ∷ jobs) k) ≡ false
    behind n i all zero h = n
    behind n i all (suc k) h = all k (omega arith)

    later :
        (r : Option ℕ)
        → Search test jobs r
        → test j ≡ false
        → Search test (j ∷ jobs) (Option.map suc r)
    later none all n = behind n (length jobs) all
    later (some i) found n = record {
      inside = omega arith;
      passes = found.passes;
      first = behind n i found.first;
    }
