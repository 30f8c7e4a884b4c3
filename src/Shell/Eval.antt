-- ===== src/Shell/Eval.antt =====
-- `eval` and the loop of `main` of sp_prj2/phase3/myshell.c. What the kernel answers while a line is
-- evaluated comes with the line.
pub mod Sound
pub mod Runs
use system_programming.Base.{
  Bool, List, Option, [], false, length, none, some, suc, true, ℕ, ◌+◌, ◌∷◌,
}
use system_programming.Shell.Text.{Text, normalize_jobcmd}
use system_programming.Shell.Words.{parseline}
use system_programming.Shell.Line.{Line, parse_line}
use system_programming.Shell.Jobs.{Table}
use system_programming.Shell.Signals.{Report}
use system_programming.Shell.Wait.{Outcome, returned, asleep, deliver}
use system_programming.Shell.Builtins.{
  Env, Message, parse_error, Effect, said, Command, exits, handled, external, builtin_command,
}
use system_programming.Shell.Launch.{
  Stage, Image, Launched, Ending, finished, became, launch_pipeline,
}

-- What the kernel answers to one line; `stages` are its answers in the turns of `launch_pipeline`.
pub record Answers : Type 0 where
  pub env : Env
  pub stages : ℕ → Stage

-- What one line came to in this process.
pub data Evaluated : Type 0 where
  exit_shell : Evaluated
  effect : Effect → Evaluated
  launched : Ending → Evaluated

-- The segments with the answers in their turns, from turn `k`.
unfoldable pub with_stages : (ℕ → Stage) → ℕ → List Text → List (Text × Stage)
with_stages stages k [] = []
with_stages stages k (segment ∷ rest) = (segment, stages k) ∷ with_stages stages (k + 1) rest

-- `launch_pipeline(segments, nseg, bg, jobcmd)`
unfoldable pub launch_line : Answers → Text → Line → Table → Evaluated
unfolding with_stages launch_pipeline normalize_jobcmd
launch_line answers cmdline line t = launched (
    launch_pipeline answers.env (with_stages answers.stages 0 line.segments) line.bg
      (normalize_jobcmd cmdline) t)

abbrev pub nothing : Table → Evaluated
nothing t = effect (record { outcome = returned t; kills = []; messages = [] })

abbrev head_arg : List Text → Option Text
head_arg [] = none
head_arg (arg ∷ _) = some arg

-- `if (builtin_command(argv)) return;`, and what follows it.
unfoldable pub after_builtin : Command → Evaluated → Evaluated
after_builtin exits next = exit_shell
after_builtin (handled e) next = effect e
after_builtin external next = next

-- The branch of a line with one segment; `next` is the call behind it.
unfoldable pub eval_one : Answers → List Text → Evaluated → Table → Evaluated
unfolding after_builtin builtin_command
eval_one answers [] next t = nothing t
eval_one answers (name ∷ args) next t =
    after_builtin (builtin_command answers.env name (head_arg args) t) next

unfoldable pub eval_line : Answers → Text → Line → Table → Evaluated
unfolding eval_one launch_line parseline
eval_line answers cmdline line t = elim line.segments [
  | [] ↦ nothing t
  | segment ∷ rest ↦ elim rest [
    | [] ↦ eval_one answers (parseline segment) (launch_line answers cmdline line t) t
    | _ ↦ launch_line answers cmdline line t
  ]
]

unfoldable pub eval : Answers → Text → Table → Evaluated
unfolding parse_line eval_line
eval answers cmdline t = elim (parse_line cmdline) [
  | none ↦ effect (said parse_error t)
  | some line ↦ eval_line answers cmdline line t
]

-- What `fgets` came to: a line, the end of the input, or an error such as EINTR, after which the
-- shell prompts anew.
pub data Input : Type 0 where
  line : Text → Input
  end_of_input : Input
  read_error : Input

-- One turn of the loop of `main`. SIGCHLD comes in at the prompt with the reports `idle`.
pub record Round : Type 0 where
  pub idle : List Report
  pub input : Input
  pub answers : Answers

-- Where the process is after a number of rounds: at the prompt, past `exit(0)`, asleep in a wait
-- that no signal ends, or another program.
pub data Session : Type 0 where
  prompting : Table → Session
  left : Session
  stuck : Table → Session
  replaced_by : Image → Session

abbrev pub after_outcome : Outcome → (Table → Session) → Session
after_outcome (returned t) next = next t
after_outcome (asleep t) next = stuck t

abbrev pub after_ending : Ending → (Table → Session) → Session
after_ending (finished l) next = after_outcome l.outcome next
after_ending (became image) next = replaced_by image

-- What `eval` came to, and the rest of the rounds.
unfoldable pub after_eval : Evaluated → (Table → Session) → Session
after_eval exit_shell next = left
after_eval (effect e) next = after_outcome e.outcome next
after_eval (launched ending) next = after_ending ending next

unfoldable pub main_round : Input → Answers → (Table → Session) → Table → Session
unfolding eval after_eval
main_round end_of_input answers next t = left
main_round read_error answers next t = next t
main_round (line cmdline) answers next t = after_eval (eval answers cmdline t) next

-- The loop of `main` over the rounds to come.
unfoldable pub main_loop : List Round → Table → Session
unfolding main_round deliver
main_loop [] t = prompting t
main_loop (round ∷ rounds) t =
    main_round round.input round.answers (main_loop rounds) (deliver round.idle t)
