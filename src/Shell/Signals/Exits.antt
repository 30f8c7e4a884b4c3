-- ===== src/Shell/Signals/Exits.antt =====
-- The processes of a job, and the `SIGCHLD` handler of sp_prj2/phase3/myshell.c as they end.
use system_programming.Base.{
  All, Bool, List, [], false, length, some, true, ℕ, ℤ, ◌-◌, ◌<◌, ◌∙◌, ◌∷◌, ◌≡◌, ap, arith,
  length-set, refl, set, set-set, suc, sym, ◌==◌,
}
use mathlib.Core.List.{foldl}
use system_programming.Shell.Jobs.{
  Job, empty_job, Table, job_at, holds_pid, find_job_by_pid, put_job, update_fg_pgid,
}
use system_programming.Shell.Jobs.Slots.{find_first-set, job_at-set_self, set-job_at}
use system_programming.Shell.Signals.{
  Status, was_stopped, was_continued, exited, signaled, Report, count_down, end_process, on_status,
  reap_in, reap, sigchld_handler,
}
use system_programming.Shell.Signals.Invariant.{end_process_lem}

abbrev pub is_final : Status → Bool
is_final exited = true
is_final signaled = true
is_final _ = false

-- The report says that a process of the job in slot `i` has ended.
abbrev pub IsExitOf : Table → ℕ → Report → Type 0
IsExitOf t i (pid, status) = (find_job_by_pid pid t ≡ some i) × (is_final status ≡ true)

-- The job with `n` processes fewer.
abbrev pub less_live : ℕ → Job → Job
less_live n j = record j { live_count = j.live_count - n }

reap-exit : (t : Table) (i : ℕ) (r : Report) → IsExitOf t i r → reap t r ≡ end_process i t
unfolding reap reap_in on_status
reap-exit t i (pid, was_stopped) h = cc
reap-exit t i (pid, was_continued) h = cc
reap-exit t i (pid, exited) h = rw h.0
reap-exit t i (pid, signaled) h = rw h.0

pub IsExitOf-put :
    (t : Table) (i : ℕ) (j : Job) (reports : List Report)
    → i < length t.jobs
    → ((pid : ℤ) → holds_pid pid j ≡ holds_pid pid (job_at t.jobs i))
    → All (IsExitOf t i) reports
    → All (IsExitOf (put_job i j t) i) reports
unfolding find_job_by_pid
IsExitOf-put t i j [] inside same h = tt
IsExitOf-put t i j ((pid, status) ∷ reports) inside same ((found, final), rest) = (
  (find_first-set (holds_pid pid) t.jobs i j inside (same pid) ∙ found, final),
  IsExitOf-put t i j reports inside same rest,
)

less_live-0 : (j : Job) → less_live 0 j ≡ j
less_live-0 j = ap (λ (n : ℕ). record j { live_count = n }) (omega arith)

less_live-count_down : (n : ℕ) (j : Job) → less_live n (count_down j) ≡ less_live (suc n) j
less_live-count_down n j = ap (λ (m : ℕ). record j { live_count = m }) (omega arith)

-- The table after one of several live processes of slot `i` has ended.
abbrev counted_down : ℕ → Table → Table
counted_down i t = put_job i (count_down (job_at t.jobs i)) t

module _ (i : ℕ) (t : Table) (inside : i < length t.jobs) where
  reap-counted_down :
      (r : Report) → IsExitOf t i r → 1 < (job_at t.jobs i).live_count → reap t r ≡ counted_down i t
  reap-counted_down r h more =
      let left : ((job_at t.jobs i).live_count - 1 == 0) ≡ false = ground arith in
      reap-exit t i r h ∙ (end_process_lem i t inside ∙ rw left)

  reap-last :
      (r : Report)
      → IsExitOf t i r
      → (job_at t.jobs i).live_count ≡ 1
      → reap t r ≡ update_fg_pgid (put_job i empty_job t)
  reap-last r h last = reap-exit t i r h ∙ (end_process_lem i t inside ∙ rw last)

  inside-counted_down : i < length (counted_down i t).jobs
  inside-counted_down = omega (arith, length-set t.jobs i (count_down (job_at t.jobs i)))

  job_at-counted_down : job_at (counted_down i t).jobs i ≡ count_down (job_at t.jobs i)
  job_at-counted_down = job_at-set_self t.jobs i (count_down (job_at t.jobs i)) inside

  put_job-counted_down : (j : Job) → put_job i j (counted_down i t) ≡ put_job i j t
  put_job-counted_down j =
      ap (λ (l : List Job). record t { jobs = l })
        (set-set t.jobs i (count_down (job_at t.jobs i)) j)

  less_live-counted_down :
      (n : ℕ)
      → put_job i (less_live n (job_at (counted_down i t).jobs i)) (counted_down i t)
        ≡ put_job i (less_live (suc n) (job_at t.jobs i)) t
  less_live-counted_down n =
      put_job-counted_down (less_live n (job_at (counted_down i t).jobs i))
      ∙ ap (λ (j : Job). put_job i j t)
          (ap (less_live n) job_at-counted_down ∙ less_live-count_down n (job_at t.jobs i))

foldl-fewer :
    (i : ℕ) (t : Table) (reports : List Report)
    → i < length t.jobs
    → All (IsExitOf t i) reports
    → length reports < (job_at t.jobs i).live_count
    → foldl reap t reports ≡ put_job i (less_live (length reports) (job_at t.jobs i)) t
foldl-fewer i t [] inside h fewer =
    ap (λ (l : List Job). record t { jobs = l })
      (sym (ap (set t.jobs i) (less_live-0 (job_at t.jobs i)) ∙ set-job_at t.jobs i inside))
foldl-fewer i t (r ∷ reports) inside h fewer =
    rw (reap-counted_down i t inside r h.0 (omega arith)) (
      foldl-fewer i (counted_down i t) reports (inside-counted_down i t inside)
        (IsExitOf-put t i (count_down (job_at t.jobs i)) reports inside (λ pid. refl) h.1)
        (rw (job_at-counted_down i t inside) (omega arith))
      ∙ less_live-counted_down i t inside (length reports))

foldl-clears :
    (i : ℕ) (t : Table) (r : Report) (reports : List Report)
    → i < length t.jobs
    → All (IsExitOf t i) (r ∷ reports)
    → length (r ∷ reports) ≡ (job_at t.jobs i).live_count
    → foldl reap t (r ∷ reports) ≡ update_fg_pgid (put_job i empty_job t)
foldl-clears i t r [] inside h all = reap-last i t inside r h.0 (omega arith)
foldl-clears i t r (r' ∷ reports) inside h all =
    rw (reap-counted_down i t inside r h.0 (omega arith)) (
      foldl-clears i (counted_down i t) r' reports (inside-counted_down i t inside)
        (IsExitOf-put t i (count_down (job_at t.jobs i)) (r' ∷ reports) inside (λ pid. refl) h.1)
        (rw (job_at-counted_down i t inside) (omega arith))
      ∙ ap update_fg_pgid (put_job-counted_down i t inside empty_job))

-- Reports that processes of one job have ended take their number from the job's count of live
-- processes as long as one is left, and change no other slot.
pub sigchld_handler-fewer :
    (i : ℕ) (t : Table) (reports : List Report)
    → i < length t.jobs
    → All (IsExitOf t i) reports
    → length reports < (job_at t.jobs i).live_count
    → sigchld_handler reports t
      ≡ update_fg_pgid (put_job i (less_live (length reports) (job_at t.jobs i)) t)
unfolding sigchld_handler
sigchld_handler-fewer i t reports inside h fewer =
    ap update_fg_pgid (foldl-fewer i t reports inside h fewer)

-- When as many are reported as the job has live processes, its slot is free again, and no other
-- slot has changed.
pub sigchld_handler-clears :
    (i : ℕ) (t : Table) (reports : List Report)
    → i < length t.jobs
    → All (IsExitOf t i) reports
    → 0 < length reports
    → length reports ≡ (job_at t.jobs i).live_count
    → sigchld_handler reports t ≡ update_fg_pgid (put_job i empty_job t)
unfolding sigchld_handler update_fg_pgid
sigchld_handler-clears i t [] inside h some_report all = absurd (omega arith)
sigchld_handler-clears i t (r ∷ reports) inside h some_report all =
    ap update_fg_pgid (foldl-clears i t r reports inside h all)
