-- ===== src/Tests/Data.antt =====
-- Inputs of the runs of sp_prj2/phase3/myshell.c.
use system_programming.Base.{[], pos, true, ◌∷◌, Option, ℕ, ℤ}
use system_programming.Shell.Text.{Text}
use system_programming.Shell.Jobs.{Table, foreground, stopped, init_jobs, add_job}
use system_programming.Shell.Builtins.{Env}
use system_programming.Shell.Launch.{Stage}

abbrev pub quiet_env : Env
quiet_env = record {
  kill_ok = λ _ _. true;
  chdir_ok = λ _. true;
  pending = [];
  schedule = [];
  last = [];
}

abbrev pub cat : Text
cat = b'c' ∷ b'a' ∷ b't' ∷ []

abbrev pub ls : Text
ls = b'l' ∷ b's' ∷ []

-- The table after `cat | cat` was started in the foreground as processes 100 and 101.
unfoldable pub one_job : Table
unfolding add_job init_jobs
one_job = (add_job (pos 100) (pos 100 ∷ pos 101 ∷ []) 2 foreground cat init_jobs).1

-- The table after `cat | cat` was stopped.
unfoldable pub stopped_job : Table
unfolding add_job init_jobs
stopped_job = (add_job (pos 100) (pos 100 ∷ pos 101 ∷ []) 2 stopped cat init_jobs).1

-- Turns of the loop of `launch_pipeline`.
abbrev pub parent_stage : ℤ → Option (ℕ × ℕ) → Stage
parent_stage pid pipe = record {
  pipe = pipe;
  fork = pid;
  own_pid = pos 0;
  exec_ok = true;
  stale = pos 0;
}
