-- ===== src/Shell/Builtins/Effects.antt =====
-- Which processes the built-in commands of sp_prj2/phase3/myshell.c signal, and how `fg` ends.
use system_programming.Base.{
  List, Option, [], arith, false, is_positive, length, neg, none, pos, refl, replicate, some, true,
  ℕ, ℤ, ◌++◌, ◌<◌, ◌∷◌, ◌≡◌, ap, length-set, set, set-set, subst, ◌∙◌,
}
use system_programming.Shell.Text.{Text}
use system_programming.Shell.JobId.{Parsed, valid, bad_form, invalid, parse_job_id}
use system_programming.Shell.Jobs.{
  foreground, empty_job, Job, Table, job_at, find_job_by_jid, is_front, set_state, put_job,
  update_fg_pgid, has_jid, find_job_by_pid,
}
use system_programming.Shell.Jobs.Slots.{
  job_at-set, job_at-set_self, find_first-Search, Search, Finds,
}
use system_programming.Shell.Jobs.Lookup.{find_first-only, front_pgid-some}
use system_programming.Shell.Signals.{Report, Signal, sigcont, sigterm, Kill}
use system_programming.Shell.Signals.Exits.{IsExitOf-put}
use system_programming.Shell.Wait.{Turn, returned, deliver}
use system_programming.Shell.Wait.Ends.{
  IsFront, EndsAll, idle, wait_for_foreground-ends, deliver-ends,
}
use system_programming.Shell.Builtins.{
  Env, with_job_id, resume_front, fg_found, builtin_fg, kill_found, builtin_kill,
}

-- The group of the job in a slot, with the signal for it.
abbrev slot_target : Signal → Table → Option ℕ → List Kill
slot_target signal t none = []
slot_target signal t (some i) = (neg (job_at t.jobs i).pgid, signal) ∷ []

abbrev id_target : Signal → Table → Parsed → List Kill
id_target signal t (valid jid) = slot_target signal t (find_job_by_jid jid t)
id_target signal t bad_form = []
id_target signal t (invalid text) = []

-- What a command on a job id should signal: the group of the job with that id, if there is one.
abbrev pub target : Signal → Option Text → Table → List Kill
target signal arg t = id_target signal t (parse_job_id arg)

resume_front-kills :
    (env : Env) (pgid : ℤ) (t : Table) → (resume_front env pgid t).kills ≡ (neg pgid, sigcont) ∷ []
unfolding resume_front
resume_front-kills env pgid t = ground arith

fg_found-kills :
    (env : Env) (jid : ℕ) (t : Table) (r : Option ℕ)
    → (fg_found env jid r t).kills ≡ slot_target sigcont t r
unfolding fg_found
fg_found-kills env jid t none = refl
fg_found-kills env jid t (some i) = resume_front-kills env (job_at t.jobs i).pgid _

-- `fg` continues exactly the group of the job that its argument names, whatever signals come in,
-- and signals nothing if the argument is malformed or names no job.
pub builtin_fg-target :
    (env : Env) (arg : Option Text) (t : Table)
    → (builtin_fg env arg t).kills ≡ target sigcont arg t
unfolding builtin_fg
builtin_fg-target env arg t = on (parse_job_id arg)
  where
    on :
        (p : Parsed)
        → (with_job_id p t (λ jid. fg_found env jid (find_job_by_jid jid t) t)).kills
          ≡ id_target sigcont t p
    on (valid jid) = fg_found-kills env jid t (find_job_by_jid jid t)
    on bad_form = refl
    on (invalid text) = refl

kill_found-kills :
    (env : Env) (jid : ℕ) (t : Table) (r : Option ℕ)
    → (kill_found env jid r t).kills ≡ slot_target sigterm t r
unfolding kill_found
kill_found-kills env jid t none = refl
kill_found-kills env jid t (some i) = refl

-- `kill` terminates exactly the group of the job that its argument names, if no SIGCHLD is pending
-- at the time, and signals nothing if the argument is malformed or names no job.
pub builtin_kill-target :
    (env : Env) (arg : Option Text) (t : Table)
    → env.pending ≡ []
    → (builtin_kill env arg t).kills ≡ target sigterm arg t
unfolding builtin_kill deliver
builtin_kill-target env arg t quiet = rw quiet (on (parse_job_id arg))
  where
    on :
        (p : Parsed)
        → (with_job_id p t (λ jid. kill_found env jid (find_job_by_jid jid t) t)).kills
          ≡ id_target sigterm t p
    on (valid jid) = kill_found-kills env jid t (find_job_by_jid jid t)
    on bad_form = refl
    on (invalid text) = refl

-- If the last processes of the job that `kill` names end while SIGCHLD is blocked, its slot is
-- cleared before the group is read from it: SIGTERM then goes to group 0, the shell's own.
pub builtin_kill-own_group :
    (env : Env) (arg : Option Text) (t : Table) (jid i : ℕ)
    → parse_job_id arg ≡ valid jid
    → find_job_by_jid jid t ≡ some i
    → i < length t.jobs
    → EndsAll t i env.pending
    → (builtin_kill env arg t).kills ≡ (pos 0, sigterm) ∷ []
unfolding builtin_kill kill_found update_fg_pgid
builtin_kill-own_group env arg t jid i parsed found inside ends = rw (
  parsed,
  found,
  deliver-ends env.pending t i inside ends,
  job_at-set_self t.jobs i empty_job inside,
)

-- The table in which `fg` waits.
abbrev in_front : ℕ → Table → Table
in_front i t = update_fg_pgid (set_state i foreground t)

in_front-IsFront :
    (t : Table) (i : ℕ)
    → i < length t.jobs
    → (job_at t.jobs i).used ≡ true
    → ((k : ℕ) → is_front (job_at t.jobs k) ≡ false)
    → is_positive (job_at t.jobs i).pgid ≡ true
    → IsFront (in_front i t) i (job_at t.jobs i).pgid
unfolding update_fg_pgid
in_front-IsFront t i inside used quiet real =
    let j : Job = record (job_at t.jobs i) { state = foreground } in
    let here = job_at-set_self t.jobs i j inside in
    let within : i < length (set t.jobs i j) = omega (arith, length-set t.jobs i j) in
    let only : (k : ℕ) → is_front (job_at (set t.jobs i j) k) ≡ true → k ≡ i =
      λ k p. ground (arith, job_at-set t.jobs i k j inside, quiet k) in
    let passes : is_front (job_at (set t.jobs i j) i) ≡ true = rw (here, used) in
    record {
      inside = within;
      group =
          front_pgid-some (set t.jobs i j) i
            (find_first-only is_front (set t.jobs i j) i within passes only)
          ∙ ap (λ (x : Job). x.pgid) here;
      real = real;
      only = only;
    }

in_front-EndsAll :
    (t : Table) (i : ℕ) (reports : List Report)
    → i < length t.jobs
    → EndsAll t i reports
    → EndsAll (in_front i t) i reports
unfolding update_fg_pgid find_job_by_pid
in_front-EndsAll t i reports inside e =
    let j : Job = record (job_at t.jobs i) { state = foreground } in
    record {
      exits = IsExitOf-put t i j reports inside (λ pid. refl) e.exits;
      nonempty = e.nonempty;
      complete = e.complete ∙ rw (job_at-set_self t.jobs i j inside);
    }

cleared-in_front :
    (i : ℕ) (t : Table)
    → update_fg_pgid (put_job i empty_job (in_front i t)) ≡ update_fg_pgid (put_job i empty_job t)
unfolding update_fg_pgid
cleared-in_front i t =
    rw (set-set t.jobs i (record (job_at t.jobs i) { state = foreground }) empty_job)

-- `fg` on a job while none is in the foreground and no SIGCHLD is pending: it sends SIGCONT to the
-- job's group and to no other, and, where `kill` succeeds, the shell waits for the job through any
-- number of other signals, and when its processes are reported it goes on, with the job's slot free
-- and nothing printed.
pub builtin_fg-ends :
    (env : Env) (arg : Option Text) (t : Table) (jid i n : ℕ) (reports : List Report)
    (schedule : List Turn)
    → parse_job_id arg ≡ valid jid
    → find_job_by_jid jid t ≡ some i
    → ((k : ℕ) → is_front (job_at t.jobs k) ≡ false)
    → is_positive (job_at t.jobs i).pgid ≡ true
    → EndsAll t i reports
    → env.pending ≡ []
    → env.kill_ok (neg (job_at t.jobs i).pgid) sigcont ≡ true
    → env.schedule ≡ replicate n idle ++ record { before = []; during = reports } ∷ schedule
    → ((builtin_fg env arg t).kills ≡ (neg (job_at t.jobs i).pgid, sigcont) ∷ [])
      × ((builtin_fg env arg t).messages ≡ [])
      × ((builtin_fg env arg t).outcome ≡ returned (update_fg_pgid (put_job i empty_job t)))
unfolding builtin_fg fg_found resume_front deliver find_job_by_jid
builtin_fg-ends env arg t jid i n reports schedule parsed found quiet real ends none_pending sent
      planned =
    let at : Finds (has_jid jid) t.jobs i =
      subst (Search (has_jid jid) t.jobs) found (find_first-Search (has_jid jid) t.jobs) in
    let used : (job_at t.jobs i).used ≡ true = ground (arith, at.passes) in
    (
      rw (parsed, found, none_pending, sent),
      rw (parsed, found, none_pending, sent),
      rw (parsed, found, none_pending, sent, planned)
          (wait_for_foreground-ends (in_front i t) i (job_at t.jobs i).pgid reports
              (in_front-IsFront t i at.inside used quiet real)
              (in_front-EndsAll t i reports at.inside ends) n schedule env.last
            ∙ ap returned (cleared-in_front i t)),
    )
