-- ===== src/Tests/Runs.antt =====
-- A whole line in the shell of sp_prj2/phase3/myshell.c, and a line that two of the shells read.
use system_programming.Base.{
  ℕ, suc, ◌+◌, ◌-◌, pos, true, some, take, List, [], ◌∷◌, ◌≡◌, refl, arith, length,
}
use system_programming.Shell.Text.{Text, normalize_jobcmd}
use system_programming.Shell.Words as Words
use system_programming.Shell.Words.{max_args}
use system_programming.Shell.Line.Pieces.{show_pieces}
use system_programming.Shell.Line.RoundTrip.{mark, show_line}
use system_programming.Shell.Jobs.{Table, init_jobs, new_job}
use system_programming.Shell.Jobs.Invariant.{init_jobs-IsTable}
use system_programming.Shell.Jobs.Lookup.{Added}
use system_programming.Shell.Wait.{deliver}
use system_programming.Shell.Launch.{Stage, finished, state_of, end_launch}
use system_programming.Shell.Launch.Wiring.{forks}
use system_programming.Shell.Eval.{Answers, with_stages, launched, eval}
use system_programming.Shell.Eval.Runs.{Starts, HasRoom, eval-show_line}
use system_programming.Phase2
use system_programming.Phase2.Bound.{parseline-take}
use system_programming.Tests.Data.{quiet_env, parent_stage}
use system_programming.Tests.Text.{quoted_bar, quoted_bar-IsCommand}

abbrev stages : ℕ → Stage
stages k = parent_stage (pos (suc (99 + k))) (some (3, 4))

stages_start : (k : ℕ) → Starts (stages k)
stages_start k = record { child = refl; read = 3; write = 4; piped = refl }

abbrev answers : Answers
answers = record { env = quiet_env; stages = stages }

init_jobs-HasRoom : HasRoom init_jobs
unfolding init_jobs
init_jobs-HasRoom = record { slot = 0; inside = omega arith; free = refl }

-- The quoted command twice, in the background.
abbrev text : Text
text = show_line quoted_bar (quoted_bar ∷ []) (mark true)

abbrev both : List (Text × Stage)
both = with_stages stages 0 (show_pieces quoted_bar ∷ show_pieces quoted_bar ∷ [])

eval-show_line_example :
    (i : ℕ) × (t' : Table) × Added init_jobs
      (new_job init_jobs.next_jid
        (pos 100)
        (forks both)
        (length both)
        (state_of true)
        (normalize_jobcmd text))
      (some i)
      t'
    × (eval answers text init_jobs
        ≡ launched (
            finished (end_launch quiet_env true (pos 100) (some i) (deliver quiet_env.pending t'))))
eval-show_line_example =
    eval-show_line answers quoted_bar (quoted_bar ∷ []) true init_jobs quoted_bar-IsCommand
      (quoted_bar-IsCommand, tt) (omega arith) tt stages_start init_jobs-IsTable init_jobs-HasRoom

parseline-take_example :
    Words.parseline (show_pieces quoted_bar)
    ≡ take (max_args - 1) (Phase2.parseline (show_pieces quoted_bar))
parseline-take_example = parseline-take (show_pieces quoted_bar)
