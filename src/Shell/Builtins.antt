-- ===== src/Shell/Builtins.antt =====
-- The built-in commands of sp_prj2/phase3/myshell.c. What the kernel answers is in an `Env`.
-- Unblocking SIGCHLD delivers what is pending, and the code then reads through its job pointer.
pub mod Sound
pub mod Effects
use system_programming.Base.{
  Bool, List, Option, [], false, if◌then◌else◌, neg, none, some, true, ℕ, ℤ, ◌&&◌, ◌==◌, ◌∷◌,
}
use mathlib.Core.Option
use Prim.Native.String.{String}
use system_programming.Shell.Text.{Text}
use system_programming.Shell.JobId.{Parsed, valid, bad_form, invalid, parse_job_id}
use system_programming.Shell.Jobs.{
  JobState, empty, foreground, background, stopped, Job, Table, job_at, find_job_by_jid, set_state,
  update_fg_pgid,
}
use system_programming.Shell.Signals.{Report, Signal, sigcont, sigterm, Kill}
use system_programming.Shell.Wait.{Turn, Outcome, returned, deliver, wait_for_foreground}

pub record Env : Type 0 where
  pub kill_ok : ℤ → Signal → Bool
  pub chdir_ok : Text → Bool
  pub pending : List Report
  pub schedule : List Turn
  pub last : List Report

-- What is printed.
pub data Message : Type 0 where
  bad_job_id no_argument chdir_failed kill_failed pipe_error job_table_full parse_error : Message
  invalid_job_id : Text → Message
  no_such_job : ℕ → Message
  started : ℕ → ℤ → Text → Message
  listed : ℕ → String → Text → Message

-- What a command came to, with the signals that it sent and the lines that it printed.
pub record Effect : Type 0 where
  pub outcome : Outcome
  pub kills : List Kill
  pub messages : List Message

abbrev pub said : Message → Table → Effect
said m t = record { outcome = returned t; kills = []; messages = m ∷ [] }

abbrev pub job_state_name : JobState → String
job_state_name foreground = "Foreground"
job_state_name background = "Running"
job_state_name stopped = "Stopped"
job_state_name empty = "Unknown"

list_used : List Job → List Message
list_used [] = []
list_used (j ∷ jobs) =
    if j.used
    then listed j.jid (job_state_name j.state) j.cmdline ∷ list_used jobs
    else list_used jobs

unfoldable pub list_jobs : Env → Table → Effect
unfolding list_used deliver
list_jobs env t = record {
  outcome = returned (deliver env.pending t);
  kills = [];
  messages = list_used t.jobs;
}

-- Goes on with a job id, or prints the message of `parse_job_id`.
abbrev pub with_job_id : Parsed → Table → (ℕ → Effect) → Effect
with_job_id (valid jid) t run = run jid
with_job_id bad_form t run = said bad_job_id t
with_job_id (invalid text) t run = said (invalid_job_id text) t

-- `kill(-job->pgid, SIGCONT)` and the line about the job, both read after the signals came in.
resume_behind : Env → ℕ → Table → Effect
resume_behind env i t =
    let j = job_at t.jobs i in
    record {
      outcome = returned t;
      kills = (neg j.pgid, sigcont) ∷ [];
      messages =
          (if env.kill_ok (neg j.pgid) sigcont then started j.jid j.pgid j.cmdline else kill_failed)
          ∷ [];
    }

unfoldable pub bg_found : Env → ℕ → Option ℕ → Table → Effect
unfolding resume_behind deliver update_fg_pgid
bg_found env jid none t = said (no_such_job jid) (deliver env.pending t)
bg_found env jid (some i) t =
    resume_behind env i (deliver env.pending (update_fg_pgid (set_state i background t)))

unfoldable pub builtin_bg : Env → Option Text → Table → Effect
unfolding bg_found find_job_by_jid
builtin_bg env arg t =
    with_job_id (parse_job_id arg) t λ jid. bg_found env jid (find_job_by_jid jid t) t

-- Here the group was read before the signals came in.
unfoldable pub resume_front : Env → ℤ → Table → Effect
unfolding wait_for_foreground
resume_front env pgid t =
    if env.kill_ok (neg pgid) sigcont
    then record {
      outcome = wait_for_foreground pgid env.schedule env.last t;
      kills = (neg pgid, sigcont) ∷ [];
      messages = [];
    }
    else record {
      outcome = returned t;
      kills = (neg pgid, sigcont) ∷ [];
      messages = kill_failed ∷ [];
    }

unfoldable pub fg_found : Env → ℕ → Option ℕ → Table → Effect
unfolding resume_front deliver update_fg_pgid
fg_found env jid none t = said (no_such_job jid) (deliver env.pending t)
fg_found env jid (some i) t =
    resume_front env (job_at t.jobs i).pgid
      (deliver env.pending (update_fg_pgid (set_state i foreground t)))

unfoldable pub builtin_fg : Env → Option Text → Table → Effect
unfolding fg_found find_job_by_jid
builtin_fg env arg t =
    with_job_id (parse_job_id arg) t λ jid. fg_found env jid (find_job_by_jid jid t) t

unfoldable pub kill_found : Env → ℕ → Option ℕ → Table → Effect
kill_found env jid none t = said (no_such_job jid) t
kill_found env jid (some i) t =
    let target = neg (job_at t.jobs i).pgid in
    record {
      outcome = returned t;
      kills = (target, sigterm) ∷ [];
      messages = if env.kill_ok target sigterm then [] else kill_failed ∷ [];
    }

-- The table is searched before the signals come in, and read after.
unfoldable pub builtin_kill : Env → Option Text → Table → Effect
unfolding kill_found find_job_by_jid deliver
builtin_kill env arg t =
    with_job_id (parse_job_id arg) t
      λ jid. kill_found env jid (find_job_by_jid jid t) (deliver env.pending t)

unfoldable pub change_directory : Env → Option Text → Table → Effect
change_directory env none t = said no_argument t
change_directory env (some dir) t = record {
  outcome = returned t;
  kills = [];
  messages = if env.chdir_ok dir then [] else chdir_failed ∷ [];
}

-- `!strcmp(a, b)`
unfoldable pub same_text : Text → Text → Bool
same_text [] [] = true
same_text (c ∷ s) (d ∷ t) = (c == d) && same_text s t
same_text _ _ = false

pub data Command : Type 0 where
  exits : Command
  handled : Effect → Command
  external : Command

-- `name` is `argv[0]` and `arg` is `argv[1]`.
unfoldable pub builtin_command : Env → Text → Option Text → Table → Command
unfolding same_text change_directory list_jobs builtin_bg builtin_fg builtin_kill
builtin_command env name arg t =
    if same_text name (b'c' ∷ b'd' ∷ [])
    then handled (change_directory env arg t)
    else if same_text name (b'e' ∷ b'x' ∷ b'i' ∷ b't' ∷ [])
    then exits
    else if same_text name (b'j' ∷ b'o' ∷ b'b' ∷ b's' ∷ [])
    then handled (list_jobs env t)
    else if same_text name (b'b' ∷ b'g' ∷ [])
    then handled (builtin_bg env arg t)
    else if same_text name (b'f' ∷ b'g' ∷ [])
    then handled (builtin_fg env arg t)
    else if same_text name (b'k' ∷ b'i' ∷ b'l' ∷ b'l' ∷ [])
    then handled (builtin_kill env arg t)
    else external
