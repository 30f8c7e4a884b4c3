-- ===== src/Shell/Launch.antt =====
-- `launch_pipeline` of sp_prj2/phase3/myshell.c. `fork` returns in two processes, and the model
-- follows either: where it returns 0 the rest is what the child does, up to `execvp`. `setpgid` is
-- taken to succeed. SIGCHLD is blocked in the shell's loop, so that no handler runs there; a child whose
-- `execvp` failed has it unblocked from then on, and the reports that come in before its `add_job` are
-- on processes that are not in its table, which the handler leaves as it is.
pub mod Balance
pub mod Descriptors
pub mod Wiring
pub mod Failures
use system_programming.Base.{
  Bool, List, Option, [], false, if◌then◌else◌, is_positive, length, neg, none, pos, some, true, ℕ,
  ℤ, ◌++◌, ◌==ℤ◌, ◌∷◌,
}
use system_programming.Shell.Text.{Text}
use system_programming.Shell.Words.{parseline}
use system_programming.Shell.Jobs.{JobState, foreground, background, Job, Table, job_at, add_job}
use system_programming.Shell.Signals.{sigkill, Kill}
use system_programming.Shell.Wait.{Outcome, returned, deliver, wait_for_foreground}
use system_programming.Shell.Builtins.{Env, Message, started, pipe_error, job_table_full}

-- What the kernel answers in one turn of the loop: the two ends of a pipe, the result of `fork`,
-- the child's own id, and whether `execvp` finds the program; and what the turn's entry of `pids`
-- holds before it is set.
pub record Stage : Type 0 where
  pub pipe : Option (ℕ × ℕ)
  pub fork : ℤ
  pub own_pid : ℤ
  pub exec_ok : Bool
  pub stale : ℤ

-- The loop's variables, and the descriptors that this process has opened and closed. -1 in
-- `prev_read` is `none`.
pub record Progress : Type 0 where
  pub prev_read : Option ℕ
  pub pgid : ℤ
  pub pids : List ℤ
  pub opened : List ℕ
  pub closed : List ℕ

-- A process that `execvp` has replaced: its group, its standard input and output where they were
-- redirected, and its arguments.
pub record Image : Type 0 where
  pub group : ℤ
  pub input : Option ℕ
  pub output : Option ℕ
  pub argv : List Text

pub data Flow : Type 0 where
  onward : Progress → Flow
  pipe_failed : Progress → Flow
  replaced : Image → Flow

abbrev pub to_list : Option ℕ → List ℕ
to_list none = []
to_list (some fd) = fd ∷ []

abbrev pub write_end : Option (ℕ × ℕ) → Option ℕ
write_end none = none
write_end (some (r, w)) = some w

abbrev pub read_end : Option (ℕ × ℕ) → Option ℕ
read_end none = none
read_end (some (r, w)) = some r

abbrev pub both_ends : Option (ℕ × ℕ) → List ℕ
both_ends none = []
both_ends (some (r, w)) = r ∷ w ∷ []

-- `if (pgid == 0) pgid = pid;`
abbrev pub join_group : ℤ → ℤ → ℤ
join_group pgid pid = if pgid ==ℤ pos 0 then pid else pgid

-- What the turn does behind `fork`, in the parent and in a child that could not `execvp`. `fd` is
-- the turn's pipe, or `none` in the last turn.
unfoldable pub after_fork : Option (ℕ × ℕ) → ℤ → Progress → Progress
after_fork fd pid s = record {
  prev_read = read_end fd;
  pgid = join_group s.pgid pid;
  pids = s.pids ++ pid ∷ [];
  opened = s.opened;
  closed = s.closed ++ (to_list s.prev_read ++ to_list (write_end fd));
}

-- The child's branch up to `execvp`.
abbrev child_closes : Option (ℕ × ℕ) → Stage → Progress → Progress
child_closes fd stage s = record s {
  pgid = join_group s.pgid stage.own_pid;
  closed = s.closed ++ (to_list s.prev_read ++ both_ends fd);
}

unfoldable pub fork_stage : Option (ℕ × ℕ) → List Text → Stage → Progress → Flow
unfolding after_fork
fork_stage fd argv stage s =
    if stage.fork ==ℤ pos 0
    then (if stage.exec_ok
        then replaced (record {
          group = join_group s.pgid stage.own_pid;
          input = s.prev_read;
          output = write_end fd;
          argv = argv;
        })
        else onward (after_fork fd stage.fork (child_closes fd stage s)))
    else onward (after_fork fd stage.fork s)

-- A segment that is not the last gets a pipe.
unfoldable pub piped_stage : Option (ℕ × ℕ) → List Text → Stage → Progress → Flow
unfolding fork_stage
piped_stage none argv stage s = pipe_failed s
piped_stage (some (r, w)) argv stage s =
    fork_stage (some (r, w)) argv stage (record s { opened = s.opened ++ r ∷ w ∷ [] })

-- One turn of the loop. A segment with no argument is passed over.
unfoldable pub launch_stage : Bool → List Text → Stage → Progress → Flow
unfolding piped_stage fork_stage
launch_stage last [] stage s = onward (record s { pids = s.pids ++ stage.stale ∷ [] })
launch_stage true (name ∷ args) stage s = fork_stage none (name ∷ args) stage s
launch_stage false (name ∷ args) stage s = piped_stage stage.pipe (name ∷ args) stage s

abbrev pub is_nil {ℓ} : {A : Type ℓ} → List A → Bool
is_nil [] = true
is_nil (_ ∷ _) = false

-- `onward s` goes on with the next turn, and the rest leaves the loop.
abbrev pub then_turn : Flow → (Progress → Flow) → Flow
then_turn (onward s) next = next s
then_turn (pipe_failed s) next = pipe_failed s
then_turn (replaced image) next = replaced image

unfoldable pub launch_loop : List (Text × Stage) → Progress → Flow
unfolding launch_stage
launch_loop [] s = onward s
launch_loop ((segment, stage) ∷ rest) s =
    then_turn (launch_stage (is_nil rest) (parseline segment) stage s) (launch_loop rest)

abbrev pub first_progress : Progress
first_progress = record { prev_read = none; pgid = pos 0; pids = []; opened = []; closed = [] }

-- `if (prev_read != -1) close(prev_read);` behind the loop.
abbrev pub close_last : Progress → Progress
close_last s = record s { closed = s.closed ++ to_list s.prev_read }

-- What the function has come to in this process: `ok` is the return value, 0 or -1, as `true` or
-- `false`. The lines that `unix_error` prints on the way are in Shell/System.
pub record Launched : Type 0 where
  pub ok : Bool
  pub outcome : Outcome
  pub kills : List Kill
  pub job : Option ℕ
  pub messages : List Message

pub data Ending : Type 0 where
  finished : Launched → Ending
  became : Image → Ending

-- `printf("[%d] %d %s\n", job->jid, job->pgid, job->cmdline)`
abbrev pub started_line : Job → Message
started_line j = started j.jid j.pgid j.cmdline

-- What stands behind `add_job`. `t` is the table once SIGCHLD is unblocked.
unfoldable pub end_launch : Env → Bool → ℤ → Option ℕ → Table → Launched
unfolding wait_for_foreground
end_launch env bg pgid none t = record {
  ok = false;
  outcome = returned t;
  kills = if is_positive pgid then (neg pgid, sigkill) ∷ [] else [];
  job = none;
  messages = job_table_full ∷ [];
}
end_launch env bg pgid (some i) t = record {
  ok = true;
  outcome = if bg then returned t else wait_for_foreground pgid env.schedule env.last t;
  kills = [];
  job = some i;
  messages = if bg then started_line (job_at t.jobs i) ∷ [] else [];
}

abbrev pub state_of : Bool → JobState
state_of bg = if bg then background else foreground

unfoldable pub register : Env → ℕ → Bool → Text → Progress → Table → Launched
unfolding end_launch add_job deliver
register env nseg bg cmdline s t =
    let (r, t') = add_job s.pgid s.pids nseg (state_of bg) cmdline t in
    end_launch env bg s.pgid r (deliver env.pending t')

unfoldable pub launch_pipeline : Env → List (Text × Stage) → Bool → Text → Table → Ending
unfolding launch_loop register deliver
launch_pipeline env segments bg cmdline t = elim (launch_loop segments first_progress) [
  | onward s ↦ finished (register env (length segments) bg cmdline (close_last s) t)
  | pipe_failed s ↦ finished (record {
    ok = false;
    outcome = returned (deliver env.pending t);
    kills = [];
    job = none;
    messages = pipe_error ∷ [];
  })
  | replaced image ↦ became image
]
