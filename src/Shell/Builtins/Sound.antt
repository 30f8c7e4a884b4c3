-- ===== src/Shell/Builtins/Sound.antt =====
-- The built-in commands of sp_prj2/phase3/myshell.c keep the job table sound.
use system_programming.Base.{
  List, Option, arith, none, some, subst, ℕ, ℤ, ◌≡◌, Bool-cases, inl, inr, neg, refl,
}
use system_programming.Shell.Text.{Text}
use system_programming.Shell.JobId.{Parsed, valid, bad_form, invalid, parse_job_id}
use system_programming.Shell.Jobs.{
  JobState, foreground, background, Table, job_at, has_jid, find_job_by_jid, set_state,
  update_fg_pgid,
}
use system_programming.Shell.Jobs.Slots.{find_first-Search, Search}
use system_programming.Shell.Jobs.Invariant.{IsTable, update_fg_pgid-IsTable}
use system_programming.Shell.Signals.Invariant.{Between, set_state-Between}
use system_programming.Shell.Signals.{Report}
use system_programming.Shell.Wait.{Turn, Outcome, returned, asleep, wait_for_foreground}
use system_programming.Shell.Wait.Ends.{deliver-IsTable, wait_for_foreground-Sound, Sound}
use system_programming.Shell.Builtins.{
  Env, Effect, Command, exits, handled, external, bg_found, builtin_bg, resume_front, fg_found,
  builtin_fg, kill_found, builtin_kill, list_jobs, change_directory, builtin_command, with_job_id,
  sigcont,
}

abbrev pub Keeps : Outcome → Type 0
Keeps (returned t) = IsTable t
Keeps (asleep t) = IsTable t

Sound-Keeps : (pgid : ℤ) (o : Outcome) → Sound pgid o → Keeps o
Sound-Keeps pgid (returned t) h = h.0
Sound-Keeps pgid (asleep t) h = h

pub wait_for_foreground-Keeps :
    (pgid : ℤ) (schedule : List Turn) (last : List Report) (t : Table)
    → IsTable t
    → Keeps (wait_for_foreground pgid schedule last t)
wait_for_foreground-Keeps pgid schedule last t h =
    Sound-Keeps pgid (wait_for_foreground pgid schedule last t)
      (wait_for_foreground-Sound pgid schedule last t h)

pub update-set_state-IsTable :
    (state : JobState) (i jid : ℕ) (t : Table)
    → IsTable t
    → find_job_by_jid jid t ≡ some i
    → IsTable (update_fg_pgid (set_state i state t))
unfolding find_job_by_jid
update-set_state-IsTable state i jid t h e =
    let found = subst (Search (has_jid jid) t.jobs) e (find_first-Search (has_jid jid) t.jobs) in
    let between : Between t = record { slots = h.slots; positive = h.positive } in
    let after = set_state-Between i t between found.inside (ground (arith, found.passes)) state in
    update_fg_pgid-IsTable (set_state i state t) after.slots after.positive

with_job_id-Keeps :
    (p : Parsed) (t : Table) (run : ℕ → Effect)
    → IsTable t
    → ((jid : ℕ) → Keeps (run jid).outcome)
    → Keeps (with_job_id p t run).outcome
with_job_id-Keeps (valid jid) t run h k = k jid
with_job_id-Keeps bad_form t run h k = h
with_job_id-Keeps (invalid text) t run h k = h

module _ (env : Env) (arg : Option Text) (t : Table) (h : IsTable t) where
  bg_found-Keeps :
      (jid : ℕ) (r : Option ℕ) → find_job_by_jid jid t ≡ r → Keeps (bg_found env jid r t).outcome
  unfolding bg_found
  bg_found-Keeps jid none e = deliver-IsTable env.pending t h
  bg_found-Keeps jid (some i) e =
      deliver-IsTable env.pending _ (update-set_state-IsTable background i jid t h e)

  builtin_bg-Keeps : Keeps (builtin_bg env arg t).outcome
  unfolding builtin_bg
  builtin_bg-Keeps =
      with_job_id-Keeps (parse_job_id arg) t _ h
        λ jid. bg_found-Keeps jid (find_job_by_jid jid t) refl

  resume_front-Keeps : (pgid : ℤ) (u : Table) → IsTable u → Keeps (resume_front env pgid u).outcome
  unfolding resume_front
  resume_front-Keeps pgid u k = elim (Bool-cases (env.kill_ok (neg pgid) sigcont)) [
    | inl y ↦ rw y (wait_for_foreground-Keeps pgid env.schedule env.last u k)
    | inr n ↦ rw n k
  ]

  fg_found-Keeps :
      (jid : ℕ) (r : Option ℕ) → find_job_by_jid jid t ≡ r → Keeps (fg_found env jid r t).outcome
  unfolding fg_found
  fg_found-Keeps jid none e = deliver-IsTable env.pending t h
  fg_found-Keeps jid (some i) e =
      resume_front-Keeps (job_at t.jobs i).pgid _
        (deliver-IsTable env.pending _ (update-set_state-IsTable foreground i jid t h e))

  builtin_fg-Keeps : Keeps (builtin_fg env arg t).outcome
  unfolding builtin_fg
  builtin_fg-Keeps =
      with_job_id-Keeps (parse_job_id arg) t _ h
        λ jid. fg_found-Keeps jid (find_job_by_jid jid t) refl

  kill_found-Keeps :
      (jid : ℕ) (r : Option ℕ) (u : Table) → IsTable u → Keeps (kill_found env jid r u).outcome
  unfolding kill_found
  kill_found-Keeps jid none u k = k
  kill_found-Keeps jid (some i) u k = k

  builtin_kill-Keeps : Keeps (builtin_kill env arg t).outcome
  unfolding builtin_kill
  builtin_kill-Keeps =
      with_job_id-Keeps (parse_job_id arg) t _ h
        λ jid. kill_found-Keeps jid (find_job_by_jid jid t) _ (deliver-IsTable env.pending t h)

  change_directory-Keeps : (a : Option Text) → Keeps (change_directory env a t).outcome
  unfolding change_directory
  change_directory-Keeps none = h
  change_directory-Keeps (some dir) = h

  list_jobs-Keeps : Keeps (list_jobs env t).outcome
  unfolding list_jobs
  list_jobs-Keeps = deliver-IsTable env.pending t h

-- What a command leaves behind, if it was a built-in one and the shell goes on.
abbrev pub Leaves : Command → Type 0
Leaves exits = Unit {0}
Leaves (handled effect) = Keeps effect.outcome
Leaves external = Unit {0}

-- Whatever the command line's first two arguments, the kernel's answers and the signals that come
-- in, a built-in command leaves a sound job table, on its error paths too.
pub builtin_command-Leaves :
    (env : Env) (name : Text) (arg : Option Text) (t : Table)
    → IsTable t
    → Leaves (builtin_command env name arg t)
unfolding builtin_command
builtin_command-Leaves env name arg t h = ground (
  arith,
  change_directory-Keeps env arg t h arg,
  list_jobs-Keeps env arg t h,
  builtin_bg-Keeps env arg t h,
  builtin_fg-Keeps env arg t h,
  builtin_kill-Keeps env arg t h,
)
