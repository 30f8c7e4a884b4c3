-- ===== src/Phase1.antt =====
-- sp_prj2/phase1/myshell.c: a shell that runs one command a line.
pub mod Runs
use system_programming.Base.{
  ℕ, ℤ, pos, negsuc, Bool, ◌||◌, Option, none, some, List, [], ◌∷◌, ◌==◌, ◌==ℤ◌, if◌then◌else◌,
  is_positive, length, ltb,
}
use system_programming.Shell.Text.{Text, cut_line}
use system_programming.Shell.Builtins.{same_text}
use system_programming.Tokens.{tokens}

-- The delimiters `" \t"`.
unfoldable pub is_blank : ℕ → Bool
is_blank c = (c == 32) || (c == 9)

abbrev pub max_args : ℕ
max_args = 128

-- What the loop stores, one after the other.
unfoldable pub parseline : Text → List Text
unfolding tokens is_blank cut_line
parseline buf = tokens is_blank (cut_line buf)

-- `char *argv[MAXARGS]`, with the NULL behind the last argument. The loop does not test the bound:
-- `none` is a store behind the array, and what follows it is undefined.
unfoldable pub argv_of : Text → Option (List Text)
unfolding parseline
argv_of buf = let argv = parseline buf in if ltb (length argv) max_args then some argv else none

pub data Notice : Type 0 where
  no_argument chdir_failed fork_failed exec_failed wait_failed : Notice

-- What a line that was evaluated has done: the lines printed, the directory gone to, and the
-- process that `Waitpid` was called for.
pub record Done : Type 0 where
  pub notices : List Notice
  pub moved : Option Text
  pub waited : Option ℤ

abbrev pub nothing : Done
nothing = record { notices = []; moved = none; waited = none }

-- What the kernel answers.
pub record Answers : Type 0 where
  pub chdir_ok : Text → Bool
  pub fork : ℤ
  pub exec_ok : Bool
  pub waitpid : ℤ

pub data Command : Type 0 where
  exits : Command
  handled : Done → Command
  external : Command

unfoldable pub change_directory : (Text → Bool) → List Text → Done
change_directory chdir_ok [] = record nothing { notices = no_argument ∷ [] }
change_directory chdir_ok (dir ∷ _) =
    if chdir_ok dir
    then record nothing { moved = some dir }
    else record nothing { notices = chdir_failed ∷ [] }

-- `name` is `argv[0]`, and `args` are the arguments behind it.
unfoldable pub builtin_command : (Text → Bool) → Text → List Text → Command
unfolding change_directory same_text
builtin_command chdir_ok name args =
    if same_text name (b'c' ∷ b'd' ∷ [])
    then handled (change_directory chdir_ok args)
    else if same_text name (b'e' ∷ b'x' ∷ b'i' ∷ b't' ∷ [])
    then exits
    else external

-- Where this process is behind `eval`: at the prompt, past `exit`, another program, or past a store
-- behind `argv`.
pub data Evaluated : Type 0 where
  prompt : Done → Evaluated
  exited : List Notice → Evaluated
  became : List Text → Evaluated
  overrun : Evaluated

-- The line that `Fork` prints for its result.
unfoldable pub fork_notices : ℤ → List Notice
fork_notices (pos n) = []
fork_notices (negsuc n) = fork_failed ∷ []

-- The line that `Waitpid` prints for its result.
unfoldable pub wait_notices : ℤ → List Notice
wait_notices (pos n) = []
wait_notices (negsuc n) = wait_failed ∷ []

-- `Execvp`, and `exit (1)` behind it where it returns.
unfoldable pub execvp : Bool → List Text → Evaluated
execvp exec_ok argv = if exec_ok then became argv else exited (exec_failed ∷ [])

-- What follows `Fork`: 0 is the child, and a negative number an error.
unfoldable pub run : Answers → List Text → Evaluated
unfolding fork_notices wait_notices execvp
run answers argv =
    if answers.fork ==ℤ pos 0
    then execvp answers.exec_ok argv
    else if is_positive answers.fork
    then prompt
        (record nothing { waited = some answers.fork; notices = wait_notices answers.waitpid })
    else prompt (record nothing { notices = fork_notices answers.fork })

unfoldable pub after_builtin : Command → Evaluated → Evaluated
after_builtin exits next = exited []
after_builtin (handled done) next = prompt done
after_builtin external next = next

unfoldable pub eval_argv : Answers → List Text → Evaluated
unfolding builtin_command run after_builtin
eval_argv answers [] = prompt nothing
eval_argv answers (name ∷ args) =
    after_builtin (builtin_command answers.chdir_ok name args) (run answers (name ∷ args))

unfoldable pub eval : Answers → Text → Evaluated
unfolding argv_of eval_argv
eval answers cmdline = elim (argv_of cmdline) [
  | none ↦ overrun
  | some argv ↦ eval_argv answers argv
]

-- What `fgets` read, and whether it came to the end of the input doing so: a last line without a
-- newline is then left unread.
pub record Input : Type 0 where
  pub line : Text
  pub at_end : Bool
  pub answers : Answers

-- Where the shell is after a number of lines, with what it did at each.
pub data Session : Type 0 where
  prompting : List Done → Session
  left : List Done → Session
  replaced_by : List Text → Session
  undefined : Session

abbrev pub note : Done → Session → Session
note done (prompting ds) = prompting (done ∷ ds)
note done (left ds) = left (done ∷ ds)
note done (replaced_by argv) = replaced_by argv
note done undefined = undefined

unfoldable pub after_eval : Evaluated → Session → Session
after_eval (prompt done) next = note done next
after_eval (exited notices) next = left []
after_eval (became argv) next = replaced_by argv
after_eval overrun next = undefined

unfoldable pub main_loop : List Input → Session
unfolding eval after_eval
main_loop [] = prompting []
main_loop (input ∷ inputs) =
    let rest = after_eval (eval input.answers input.line) (main_loop inputs) in
    if input.at_end then left [] else rest
