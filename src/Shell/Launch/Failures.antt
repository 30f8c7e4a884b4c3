-- ===== src/Shell/Launch/Failures.antt =====
-- What `launch_pipeline` of sp_prj2/phase3/myshell.c comes to where the one process of a command
-- is not started: `fork` failed, or `execvp` failed in the child, which then runs on as a shell.
use system_programming.Base.{
  All, Bool-cases, List, [], ap, arith, false, inl, inr, is_positive, length-set, pos, refl, some,
  subst, take, true, ℕ, ℤ, ◌+◌, ◌==ℤ◌, ==ℤ_iff, ◌≡◌, ◌∷◌,
}
use system_programming.Shell.Text.{Text}
use system_programming.Shell.Words.{parseline}
use system_programming.Shell.Builtins.{Env}
use system_programming.Shell.Launch.{
  Progress, Stage, onward, finished, Launched, after_fork, fork_stage, launch_stage, launch_loop,
  first_progress, close_last, launch_pipeline, register, end_launch, is_nil,
}
use system_programming.Shell.Jobs.{
  Job, Table, foreground, add_job, fill_slot, find_first, holds_pid, has_pid, is_free, is_front,
  job_at, new_job, put_job, update_fg_pgid,
}
use system_programming.Shell.Jobs.Slots.{
  Finds, Search, find_first-Search, job_at-set, job_at-set_self,
}
use system_programming.Shell.Wait.{asleep, deliver}
use system_programming.Shell.Wait.Asleep.{
  IsReal, IsRealTurn, Alone, Alone-group, Hung, deliver-Hung, wait_for_foreground-asleep,
}

ne_of_positive : (p pid : ℤ) → is_positive p ≡ false → is_positive pid ≡ true → (p ==ℤ pid) ≡ false
ne_of_positive p pid h k = elim (Bool-cases (p ==ℤ pid)) [
  | inl y ↦ cc (ap is_positive ((==ℤ_iff p pid).0 y))
  | inr n ↦ n
]

no_pid :
    (p pid : ℤ) (pids : List ℤ)
    → pids ≡ p ∷ []
    → is_positive p ≡ false
    → is_positive pid ≡ true
    → has_pid (take 1 pids) 1 pid ≡ false
unfolding has_pid
no_pid p pid pids e h k = rw (e, ne_of_positive p pid h k)

launch_stage-failed :
    (argv : List Text) (stage : Stage)
    → is_nil argv ≡ false
    → (stage.fork ≡ pos 0 → stage.exec_ok ≡ false)
    → (s : Progress) × (launch_stage true argv stage first_progress ≡ onward s)
      × (s.pids ≡ stage.fork ∷ [])
unfolding launch_stage fork_stage after_fork
launch_stage-failed [] stage named missing = cc
launch_stage-failed (name ∷ args) stage named missing = elim (Bool-cases (stage.fork ==ℤ pos 0)) [
  | inl y ↦ rw (y, missing ((==ℤ_iff stage.fork (pos 0)).0 y)) (_, refl, refl)
  | inr n ↦ rw n (_, refl, refl)
]

launch_loop-failed :
    (segment : Text) (stage : Stage)
    → is_nil (parseline segment) ≡ false
    → (stage.fork ≡ pos 0 → stage.exec_ok ≡ false)
    → (s : Progress) × (launch_loop ((segment, stage) ∷ []) first_progress ≡ onward s)
      × (s.pids ≡ stage.fork ∷ [])
unfolding launch_loop
launch_loop-failed segment stage named missing =
    let (s, e, pids) = launch_stage-failed (parseline segment) stage named missing in
    (s, rw e, pids)

module _ (env : Env) (cmdline : Text) (t : Table) (i : ℕ)
    (room : find_first is_free t.jobs ≡ some i)
    (quiet : (k : ℕ) → is_front (job_at t.jobs k) ≡ false) (pending_real : All IsReal env.pending)
    (schedule_real : All IsRealTurn env.schedule) (last_real : All IsReal env.last) where
  found : Finds is_free t.jobs i
  found = subst (Search is_free t.jobs) room (find_first-Search is_free t.jobs)

  abbrev filled : Job → Table
  filled j = record (put_job i j t) { next_jid = t.next_jid + 1 }

  filled-Alone :
      (j : Job) (front : is_front j ≡ true)
      (foreign : (pid : ℤ) → is_positive pid ≡ true → holds_pid pid j ≡ false)
      → Alone i j front foreign (filled j)
  filled-Alone j front foreign =
      let within = found.inside in
      record {
        inside = rw (length-set t.jobs i j) within;
        here = job_at-set_self t.jobs i j within;
        only = λ k. ground (arith, job_at-set t.jobs i k j within, quiet k);
      }

  filled-Hung :
      (j : Job) (front : is_front j ≡ true)
      (foreign : (pid : ℤ) → is_positive pid ≡ true → holds_pid pid j ≡ false)
      → Hung i j front foreign (deliver env.pending (update_fg_pgid (filled j)))
  unfolding update_fg_pgid
  filled-Hung j front foreign =
      let a = filled-Alone j front foreign in
      deliver-Hung i j front foreign env.pending (update_fg_pgid (filled j)) pending_real (record {
        alone = record { inside = a.inside; here = a.here; only = a.only };
        group = Alone-group i j front foreign (filled j) a;
      })

  register-asleep :
      (s : Progress) (p : ℤ)
      → s.pids ≡ p ∷ []
      → is_positive p ≡ false
      → (u : Table) × ((register env 1 false cmdline s t).outcome ≡ asleep u)
  unfolding register add_job fill_slot end_launch
  register-asleep s p e h =
      let j : Job = new_job t.next_jid s.pgid s.pids 1 foreground cmdline in
      let foreign : (pid : ℤ) → is_positive pid ≡ true → holds_pid pid j ≡ false =
        λ pid k. no_pid p pid s.pids e h k in
      rw room (
        wait_for_foreground-asleep i j refl foreign env.schedule env.last
          (deliver env.pending (update_fg_pgid (filled j))) schedule_real last_real
          (filled-Hung j refl foreign))

  -- The one process of a foreground command was not started: `fork` returned a number that is not
  -- positive, and where that is 0, in the child, `execvp` did not find the program. Then, if a slot
  -- is free and no job is in the foreground, `launch_pipeline` registers a job without a real process
  -- in this process' table and never returns: whatever processes the kernel reports, it sleeps on.
  pub launch_pipeline-asleep :
      (segment : Text) (stage : Stage)
      → is_nil (parseline segment) ≡ false
      → is_positive stage.fork ≡ false
      → (stage.fork ≡ pos 0 → stage.exec_ok ≡ false)
      → (l : Launched) × (u : Table) × (launch_pipeline env ((segment, stage) ∷ []) false cmdline t
          ≡ finished l)
        × (l.outcome ≡ asleep u)
  unfolding launch_pipeline
  launch_pipeline-asleep segment stage named failed missing =
      let (s, e, pids) = launch_loop-failed segment stage named missing in
      let (u, sleeps) = register-asleep (close_last s) stage.fork pids failed in
      (register env 1 false cmdline (close_last s) t, u, rw (e, launch_pipeline), sleeps)
