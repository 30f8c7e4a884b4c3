-- ===== src/Tests/Phases.antt =====
-- The shells of sp_prj2/phase1/myshell.c and sp_prj2/phase2/myshell.c at concrete lines.
use system_programming.Base.{
  ℕ, ℤ, pos, Bool, true, false, All, none, some, List, [], ◌∷◌, ◌++◌, ◌≡◌, arith, ◌⊎◌, inr, refl,
  map,
}
use system_programming.Shell.Text.{Text, newline, is_space}
use system_programming.Shell.Words.{is_quote}
use system_programming.Shell.Words.RoundTrip.{Arg, bare, quoted, IsArg, show_args, value}
use system_programming.Tokens.Laws.{spaced}
use system_programming.Phase1
use system_programming.Phase1.Runs.{IsWord, eval-separate}
use system_programming.Phase2
use system_programming.Phase2.{Forks}
use system_programming.Phase2.Words.{parseline-show_args_any}
use system_programming.Phase2.Pipes.{eval-became, eval-waits, streams_of}
use system_programming.Tests.Data.{cat, ls}

abbrev answers : Phase1.Answers
answers = record { chdir_ok = λ _. true; fork = pos 0; exec_ok = true; waitpid = pos 7 }

ls-IsWord : IsWord ls
unfolding Phase1.is_blank
ls-IsWord = record { token = record { nonempty = refl; clean = refl }; no_newline = refl }

cat-IsWord : IsWord cat
unfolding Phase1.is_blank
cat-IsWord = record { token = record { nonempty = refl; clean = refl }; no_newline = refl }

ls_external : Phase1.builtin_command answers.chdir_ok ls (cat ∷ []) ≡ Phase1.external
unfolding Phase1.builtin_command
ls_external = refl

eval-separate_example :
    let at = λ (fork : ℤ) (found : Bool).
      Phase1.eval
        (record answers { fork = fork; exec_ok = found })
        (spaced 32 (ls ∷ cat ∷ []) ++ newline ∷ []) in
    (at (pos 7) true
      ≡ Phase1.prompt
          (record Phase1.nothing { waited = some (pos 7); notices = Phase1.wait_notices (pos 7) }))
    × (at (pos 0) true ≡ Phase1.became (ls ∷ cat ∷ []))
    × (at (pos 0) false ≡ Phase1.exited (Phase1.exec_failed ∷ []))
eval-separate_example =
    eval-separate answers ls (cat ∷ []) (pos 7) (ls-IsWord, (cat-IsWord, tt)) (omega arith)
      ls_external refl

abbrev two_args : List Arg
two_args = bare b'l' (b's' ∷ []) ∷ quoted 39 (b'a' ∷ 32 ∷ b'b' ∷ []) ∷ []

two_args_read : All IsArg two_args
unfolding is_space is_quote
two_args_read = ((refl, refl), ((refl, refl, refl), tt))

parseline-show_args_any_example :
    Phase2.argv_of (show_args two_args ++ newline ∷ []) ≡ some (map value two_args)
parseline-show_args_any_example = parseline-show_args_any two_args two_args_read

abbrev pipe_answers : Phase2.Answers
pipe_answers = record { chdir_ok = λ _. true; exec_ok = true; waitpid = pos 7 }

-- `ls|cat`
abbrev piped : Text
piped = b'l' ∷ b's' ∷ b'|' ∷ b'c' ∷ b'a' ∷ b't' ∷ 10 ∷ []

abbrev cat_line : Text
cat_line = b'c' ∷ b'a' ∷ b't' ∷ 10 ∷ []

piped_split : Phase2.split_bars piped ≡ ls ∷ cat_line ∷ []
unfolding Phase2.split_bars
piped_split = refl

cat_line_read : Phase2.argv_of cat_line ≡ some (cat ∷ [])
unfolding Phase2.argv_of Phase2.parseline is_space is_quote
cat_line_read = refl

cat_external : Phase2.builtin_command pipe_answers.chdir_ok cat [] ≡ Phase2.external
unfolding Phase2.builtin_command
cat_external = refl

-- The process of `cat` is the right child of the first call.
abbrev cat_forks : ℕ → Forks
cat_forks _ = record {
  ends = (3, 4);
  left = pos 100;
  right = pos 0;
  pipe_ok = true;
  left_dup = true;
  right_dup = true;
  waits = (pos 100, pos 101);
}

eval-became_example :
    Phase2.eval pipe_answers cat_forks (pos 0) piped
    ≡ Phase2.became (record { streams = streams_of (some 3) none; argv = cat ∷ [] })
eval-became_example =
    eval-became pipe_answers cat_forks (pos 0) piped (ls ∷ []) cat_line [] none cat [] refl
      piped_split (refl, refl, refl, refl, tt) refl cat_line_read cat_external refl

abbrev shell_forks : ℕ → Forks
shell_forks _ = record {
  ends = (3, 4);
  left = pos 100;
  right = pos 101;
  pipe_ok = true;
  left_dup = true;
  right_dup = true;
  waits = (pos 101, pos 100);
}

eval-waits_example :
    (waited : List ℤ) × (Phase2.eval pipe_answers shell_forks (pos 0) piped
      ≡ Phase2.prompt none waited (Phase2.open_notices true))
    × ((waited ≡ pos 100 ∷ pos 101 ∷ []) ⊎ (waited ≡ pos 101 ∷ pos 100 ∷ []))
eval-waits_example =
    eval-waits pipe_answers shell_forks (pos 0) piped ls cat_line [] refl piped_split refl refl
      (inr (refl, refl))

-- `ls|`
abbrev open_ended : Text
open_ended = b'l' ∷ b's' ∷ b'|' ∷ []
