-- ===== src/Shell/Jobs.antt =====
-- The job table of sp_prj2/phase3/myshell.c and its operations. A `job_t *` into `jobs` is the
-- slot's index, and `none` is NULL. The counters are numbers without bound: `next_jid` would reach
-- the end of `int` after 2 ^ 31 - 1 jobs.
pub mod Slots
pub mod Invariant
pub mod Lookup
use system_programming.Base.{
  Bool, List, Option, [], false, get_or, if◌then◌else◌, map, none, not, pos, replicate, set, some,
  suc, take, true, zero, ℕ, ℤ, ◌&&◌, ◌+◌, ◌-◌, ◌==ℤ◌, ◌==◌, ◌∷◌, ◌||◌,
}
use mathlib.Core.Option
use system_programming.Shell.Text.{Text}

abbrev pub max_jobs : ℕ
max_jobs = 16

abbrev pub max_line : ℕ
max_line = 8192

pub data JobState : Type 0 where
  empty foreground background stopped : JobState

pub record Job : Type 0 where
  pub used : Bool
  pub jid : ℕ
  pub pgid : ℤ
  pub pids : List ℤ
  pub npids : ℕ
  pub live_count : ℕ
  pub state : JobState
  pub cmdline : Text

-- A slot whose bytes are all 0.
abbrev pub empty_job : Job
empty_job = record {
  used = false;
  jid = 0;
  pgid = pos 0;
  pids = [];
  npids = 0;
  live_count = 0;
  state = empty;
  cmdline = [];
}

-- The variables of the file: `jobs`, `next_jid` and `fg_pgid`.
pub record Table : Type 0 where
  pub jobs : List Job
  pub next_jid : ℕ
  pub fg_pgid : ℤ

-- The state that `main` reads its first line in.
unfoldable pub init_jobs : Table
init_jobs = record { jobs = replicate max_jobs empty_job; next_jid = 1; fg_pgid = pos 0 }

-- The job that a pointer points to.
abbrev pub job_at : List Job → ℕ → Job
job_at jobs i = get_or jobs i empty_job

-- `for (i = 0; i < MAXJOBS; i++) if (test(jobs[i])) return i;`
unfoldable pub find_first : (Job → Bool) → List Job → Option ℕ
find_first test [] = none
find_first test (j ∷ jobs) =
    let later = Option.map suc (find_first test jobs) in if test j then some 0 else later

-- The inner loop of `find_job_by_pid`: the first `npids` entries are compared.
unfoldable pub has_pid : List ℤ → ℕ → ℤ → Bool
has_pid pids zero pid = false
has_pid [] (suc n) pid = false
has_pid (p ∷ pids) (suc n) pid = (p ==ℤ pid) || has_pid pids n pid

abbrev pub is_foreground : JobState → Bool
is_foreground foreground = true
is_foreground _ = false

abbrev pub is_stopped : JobState → Bool
is_stopped stopped = true
is_stopped _ = false

abbrev pub is_free : Job → Bool
is_free j = not j.used

abbrev pub has_jid : ℕ → Job → Bool
has_jid jid j = j.used && (j.jid == jid)

abbrev pub holds_pid : ℤ → Job → Bool
holds_pid pid j = j.used && has_pid j.pids j.npids pid

abbrev pub is_front : Job → Bool
is_front j = j.used && is_foreground j.state

unfoldable pub find_job_by_jid : ℕ → Table → Option ℕ
unfolding find_first
find_job_by_jid jid t = find_first (has_jid jid) t.jobs

unfoldable pub find_job_by_pid : ℤ → Table → Option ℕ
unfolding find_first has_pid
find_job_by_pid pid t = find_first (holds_pid pid) t.jobs

unfoldable pub find_foreground_job : List Job → Option ℕ
unfolding find_first
find_foreground_job jobs = find_first is_front jobs

-- The group that `update_fg_pgid` stores.
unfoldable pub front_pgid : List Job → ℤ
unfolding find_foreground_job
front_pgid jobs = elim (find_foreground_job jobs) [ none ↦ pos 0 | some i ↦ (job_at jobs i).pgid ]

unfoldable pub update_fg_pgid : Table → Table
unfolding front_pgid
update_fg_pgid t = record t { fg_pgid = front_pgid t.jobs }

-- A write through a job's pointer.
abbrev pub put_job : ℕ → Job → Table → Table
put_job i j t = record t { jobs = set t.jobs i j }

abbrev pub set_state : ℕ → JobState → Table → Table
set_state i state t = put_job i (record (job_at t.jobs i) { state = state }) t

-- The job that a free slot is filled with.
abbrev pub new_job : ℕ → ℤ → List ℤ → ℕ → JobState → Text → Job
new_job jid pgid pids npids state cmdline = record {
  used = true;
  jid = jid;
  pgid = pgid;
  pids = take npids pids;
  npids = npids;
  live_count = npids;
  state = state;
  cmdline = take (max_line - 1) cmdline;
}

-- What the loop of `add_job` does at the slot where it stops.
unfoldable pub fill_slot : Job → Option ℕ → Table → Option ℕ × Table
unfolding update_fg_pgid
fill_slot j none t = (none, t)
fill_slot j (some i) t =
    (some i, update_fg_pgid (record (put_job i j t) { next_jid = t.next_jid + 1 }))

-- The slot that was filled, or NULL if every slot is in use.
unfoldable pub add_job : ℤ → List ℤ → ℕ → JobState → Text → Table → Option ℕ × Table
unfolding find_first fill_slot
add_job pgid pids npids state cmdline t =
    fill_slot (new_job t.next_jid pgid pids npids state cmdline) (find_first is_free t.jobs) t

unfoldable pub delete_job : Option ℕ → Table → Table
unfolding update_fg_pgid
delete_job none t = t
delete_job (some i) t = update_fg_pgid (put_job i empty_job t)
