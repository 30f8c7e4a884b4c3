-- ===== src/Phase2.antt =====
-- sp_prj2/phase2/myshell.c: a shell that runs pipelines. `fork` returns in two processes, and the
-- model follows either: where it returns 0 the rest is what the child does.
pub mod Words
pub mod Pipes
pub mod Bound
use mathlib.Core.Option
use system_programming.Base.{
  ℕ, zero, suc, ℤ, pos, negsuc, Bool, ◌||◌, Option, none, some, List, [], ◌∷◌, ◌==◌, ◌==ℤ◌,
  if◌then◌else◌, is_positive, length, ltb, take, ◌++◌,
}
use system_programming.Shell.Text.{Text, cut_line, skip_space, contains}
use system_programming.Shell.Words.{read_arg}
use system_programming.Shell.Builtins.{same_text}
use system_programming.Tokens.{tokens}

abbrev pub max_cmds : ℕ
max_cmds = 16

abbrev pub bar : ℕ
bar = b'|'

-- One turn of the loop of `parseline` behind the blanks; `next` is the rest of the loop.
unfoldable pub parse_turn : (Text → Option (List Text)) → Text → Option (List Text)
unfolding read_arg
parse_turn next [] = some []
parse_turn next (c ∷ q) = let (arg, r) = read_arg c q in Option.map (λ args. arg ∷ args) (next r)

-- The loop on fuel: `none` means that the fuel ran out.
unfoldable pub parse_args : ℕ → Text → Option (List Text)
unfolding parse_turn skip_space
parse_args zero p = none
parse_args (suc k) p = parse_turn (parse_args k) (skip_space p)

-- What the loop stores, one after the other.
unfoldable pub parseline : Text → List Text
unfolding parse_args cut_line
parseline buf = let line = cut_line buf in Option.get_or (parse_args (suc (length line)) line) []

abbrev pub max_args : ℕ
max_args = 128

-- `char *argv[MAXARGS]`, with the NULL behind the last argument. The loop does not test the bound:
-- `none` is a store behind the array, and what follows it is undefined.
unfoldable pub argv_of : Text → Option (List Text)
unfolding parseline
argv_of buf = let argv = parseline buf in if ltb (length argv) max_args then some argv else none

-- What the kernel answers to one process: `cd`, `execvp`, and the `waitpid` for a single command.
pub record Answers : Type 0 where
  pub chdir_ok : Text → Bool
  pub exec_ok : Bool
  pub waitpid : ℤ

-- What it answers to one call of `run_pipe`: whether `Pipe` succeeds, which is not tested, and what
-- `fd` holds behind it, a pipe's ends only where it did; the two results of `Fork`, and whether the
-- call of `dup2` in each child succeeds; and the results of the two calls of `Waitpid`.
pub record Forks : Type 0 where
  pub ends : ℕ × ℕ
  pub left : ℤ
  pub right : ℤ
  pub pipe_ok : Bool
  pub left_dup : Bool
  pub right_dup : Bool
  pub waits : ℤ × ℤ

-- The lines that a process prints in its error output.
pub data Notice : Type 0 where
  no_argument chdir_failed pipe_failed fork_failed wait_failed : Notice

-- The line that `Fork` prints for its result.
unfoldable pub fork_notices : ℤ → List Notice
fork_notices (pos n) = []
fork_notices (negsuc n) = fork_failed ∷ []

-- The line that `Waitpid` prints for its result.
unfoldable pub wait_notices : ℤ → List Notice
wait_notices (pos n) = []
wait_notices (negsuc n) = wait_failed ∷ []

-- The line that `Pipe` prints.
unfoldable pub open_notices : Bool → List Notice
open_notices ok = if ok then [] else pipe_failed ∷ []

-- What the shell process prints in one call of `run_pipe`.
unfoldable pub pipe_notices : Forks → List Notice
unfolding fork_notices wait_notices open_notices
pipe_notices f =
    open_notices f.pipe_ok
    ++ (fork_notices f.left
        ++ (fork_notices f.right ++ (wait_notices f.waits.0 ++ wait_notices f.waits.1)))

pub data Command : Type 0 where
  exits : Command
  handled : Option Text → List Notice → Command
  external : Command

unfoldable pub change_directory : (Text → Bool) → List Text → Command
change_directory chdir_ok [] = handled none (no_argument ∷ [])
change_directory chdir_ok (dir ∷ _) =
    if chdir_ok dir then handled (some dir) [] else handled none (chdir_failed ∷ [])

-- A command that was handled comes with the directory that it went to, and what it printed.
unfoldable pub builtin_command : (Text → Bool) → Text → List Text → Command
unfolding change_directory same_text
builtin_command chdir_ok name args =
    if same_text name (b'c' ∷ b'd' ∷ [])
    then change_directory chdir_ok args
    else if same_text name (b'e' ∷ b'x' ∷ b'i' ∷ b't' ∷ [])
    then exits
    else external

-- The standard input and output of a process, where they were redirected.
pub record Streams : Type 0 where
  pub input : Option ℕ
  pub output : Option ℕ

pub record Image : Type 0 where
  pub streams : Streams
  pub argv : List Text

-- Where a process is behind `eval` or `run_pipe`: back at the prompt, with the directory that it
-- went to, the processes that `Waitpid` returned, and what it printed; past `exit`; another program;
-- or past a store behind `argv`.
pub data Ending : Type 0 where
  prompt : Option Text → List ℤ → List Notice → Ending
  exited : Ending
  became : Image → Ending
  overrun : Ending

-- `Execvp`, and the exit behind it where it returns.
unfoldable pub execvp : Answers → Streams → List Text → Ending
execvp answers streams argv =
    if answers.exec_ok then became (record { streams = streams; argv = argv }) else exited

-- The body that a process of a pipeline runs for its command: every way but `execvp` exits.
unfoldable pub command_body : Answers → Streams → List Text → Ending
unfolding builtin_command execvp
command_body answers streams [] = exited
command_body answers streams (name ∷ args) = elim (builtin_command answers.chdir_ok name args) [
  | external ↦
      if answers.exec_ok then became (record { streams = streams; argv = name ∷ args }) else exited
  | _ ↦ exited
]

unfoldable pub run_command : Answers → Streams → Text → Ending
unfolding command_body argv_of
run_command answers streams c = elim (argv_of c) [
  | none ↦ overrun
  | some argv ↦ command_body answers streams argv
]

-- `dup2(fd[0], STDIN_FILENO)` and `dup2(fd[1], STDOUT_FILENO)`
abbrev pub redirect_input : Forks → Streams → Streams
redirect_input f streams = if f.right_dup then record streams { input = some f.ends.0 } else streams

abbrev pub redirect_output : Forks → Streams → Streams
redirect_output f streams =
    if f.left_dup then record streams { output = some f.ends.1 } else streams

-- `exit(0)` behind the call of `run_pipe` in the right child.
unfoldable pub then_exit : Ending → Ending
then_exit (prompt dir waited notices) = exited
then_exit exited = exited
then_exit (became image) = became image
then_exit overrun = overrun

-- The process that a call of `Waitpid` has waited for, by its result.
abbrev pub reaped : ℤ → List ℤ
reaped pid = if is_positive pid then pid ∷ [] else []

-- `k` counts the calls; `forks k` are the answers to the k-th.
unfoldable pub run_pipe : Answers → (ℕ → Forks) → ℕ → Streams → List Text → Ending
unfolding run_command then_exit pipe_notices
run_pipe answers forks k streams [] = prompt none [] []
run_pipe answers forks k streams (c ∷ []) = run_command answers streams c
run_pipe answers forks k streams (c ∷ d ∷ cmds) =
    let more = run_pipe answers forks (suc k) (redirect_input (forks k) streams) (d ∷ cmds) in
    if (forks k).left ==ℤ pos 0
    then run_command answers (redirect_output (forks k) streams) c
    else if (forks k).right ==ℤ pos 0
    then then_exit more
    else prompt none (reaped (forks k).waits.0 ++ reaped (forks k).waits.1) (pipe_notices (forks k))

-- The first `MAXCMDS` stretches between bars; bars in quotes count, and the rest is dropped.
unfoldable pub split_bars : Text → List Text
unfolding tokens
split_bars buf = take max_cmds (tokens (λ c. c == bar) buf)

abbrev pub shell_streams : Streams
shell_streams = record { input = none; output = none }

-- `Fork` of a command without a bar: `own` is its result.
unfoldable pub run_one : Answers → ℤ → List Text → Ending
unfolding execvp fork_notices wait_notices
run_one answers own argv =
    if own ==ℤ pos 0
    then execvp answers shell_streams argv
    else prompt none (reaped answers.waitpid) (fork_notices own ++ wait_notices answers.waitpid)

unfoldable pub after_builtin : Command → Ending → Ending
after_builtin exits next = exited
after_builtin (handled dir notices) next = prompt dir [] notices
after_builtin external next = next

unfoldable pub eval_argv : Answers → ℤ → List Text → Ending
unfolding builtin_command run_one after_builtin
eval_argv answers own [] = prompt none [] []
eval_argv answers own (name ∷ args) =
    after_builtin (builtin_command answers.chdir_ok name args) (run_one answers own (name ∷ args))

-- `own` is the result of `Fork` for a line without a bar.
unfoldable pub eval : Answers → (ℕ → Forks) → ℤ → Text → Ending
unfolding run_pipe split_bars eval_argv argv_of
eval answers forks own cmdline =
    if contains bar cmdline
    then run_pipe answers forks 0 shell_streams (split_bars cmdline)
    else elim (argv_of cmdline) [ none ↦ overrun | some argv ↦ eval_argv answers own argv ]

-- What `fgets` read, and whether it came to the end of the input doing so: a last line without a
-- newline is then left unread.
pub record Input : Type 0 where
  pub line : Text
  pub at_end : Bool
  pub answers : Answers
  pub forks : ℕ → Forks
  pub own : ℤ

pub data Session : Type 0 where
  prompting : Session
  left_shell : Session
  replaced_by : Image → Session
  undefined : Session

unfoldable pub after_eval : Ending → Session → Session
after_eval (prompt dir waited notices) next = next
after_eval exited next = left_shell
after_eval (became image) next = replaced_by image
after_eval overrun next = undefined

unfoldable pub main_loop : List Input → Session
unfolding eval after_eval
main_loop [] = prompting
main_loop (input ∷ inputs) =
    let rest =
      after_eval (eval input.answers input.forks input.own input.line) (main_loop inputs) in
    if input.at_end then left_shell else rest
