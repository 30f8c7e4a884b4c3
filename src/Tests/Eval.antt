-- ===== src/Tests/Eval.antt =====
-- The loop of `main` of sp_prj2/phase3/myshell.c on a short input.
use system_programming.Base.{List, [], ◌∷◌, pos, none, ◌≡◌, refl, true}
use system_programming.Shell.Text.{newline, is_space}
use system_programming.Shell.Words.{is_quote}
use system_programming.Shell.Jobs.{Table, init_jobs, job_at}
use system_programming.Shell.Eval.{Round, Answers, line, read_error, main_loop, prompting}
use system_programming.Shell.Eval.Sound.{SessionKeeps, main_loop-IsTable}
use system_programming.Tests.Data.{quiet_env, parent_stage}

abbrev answers : Answers
answers = record { env = quiet_env; stages = λ _. parent_stage (pos 100) none }

-- `ls &` and an interrupted read; then the shell prompts again, with the job in its table.
abbrev rounds : List Round
rounds =
    record { idle = []; input = line (b'l' ∷ b's' ∷ 32 ∷ b'&' ∷ newline ∷ []); answers = answers }
    ∷ record { idle = []; input = read_error; answers = answers }
    ∷ []

rounds_prompt :
    (t : Table) × (main_loop rounds init_jobs ≡ prompting t)
    × ((job_at t.jobs 0).used ≡ true)
    × (t.next_jid ≡ 2)
unfolding main_loop is_space is_quote init_jobs
rounds_prompt = (_, refl, refl, refl)

main_loop-IsTable_example : SessionKeeps (main_loop rounds init_jobs)
main_loop-IsTable_example = main_loop-IsTable rounds
