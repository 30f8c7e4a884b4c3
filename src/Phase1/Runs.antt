-- ===== src/Phase1/Runs.antt =====
-- What a line does in the shell of sp_prj2/phase1/myshell.c.
use system_programming.Base.{
  positive-ne_zero, ℤ, pos, Bool, true, false, All, List, [], ◌∷◌, ◌++◌, ◌≡◌, ◌<◌, arith, length,
  ltb, refl, some, ap, ◌∙◌, is_positive,
}
use system_programming.Shell.Text.{Text, newline, contains}
use system_programming.Shell.Find.{cut_line-newline, contains-append}
use system_programming.Tokens.{tokens}
use system_programming.Tokens.Laws.{IsToken, spaced, tokens-spaced}
use system_programming.Phase1.{
  wait_notices, is_blank, parseline, argv_of, max_args, Answers, prompt, exited, became, nothing,
  exec_failed, eval, eval_argv, run, execvp, external, builtin_command, after_builtin,
}

-- A word that `parseline` reads as one argument.
pub record IsWord (w : Text) : Type 0 where
  pub token : IsToken is_blank w
  pub no_newline : contains newline w ≡ false

tokens_of : (ws : List Text) → All IsWord ws → All (IsToken is_blank) ws
tokens_of [] h = tt
tokens_of (w ∷ ws) h = (h.0.token, tokens_of ws h.1)

spaced-no_newline : (ws : List Text) → All IsWord ws → contains newline (spaced 32 ws) ≡ false
spaced-no_newline [] h = refl
spaced-no_newline (w ∷ []) h = h.0.no_newline
spaced-no_newline (w ∷ v ∷ ws) h =
    contains-append newline w (32 ∷ spaced 32 (v ∷ ws)) h.0.no_newline
      (spaced-no_newline (v ∷ ws) h.1)

-- Words with a blank between each two and the newline behind them are read back as the arguments, if
-- `argv` has room for them.
pub argv_of-spaced :
    (ws : List Text)
    → All IsWord ws
    → length ws < max_args
    → argv_of (spaced 32 ws ++ newline ∷ []) ≡ some ws
unfolding argv_of parseline
argv_of-spaced ws h room =
    let read =
      ap (tokens is_blank) (cut_line-newline (spaced 32 ws) [] (spaced-no_newline ws h))
      ∙ tokens-spaced is_blank 32 ws (unfold is_blank in refl) (tokens_of ws h) in
    let fits : ltb (length ws) max_args ≡ true = ground arith in rw (read, fits)

-- A line of words, a blank between each two and the newline behind them, for which `argv` has room and
-- whose first names no built-in command, with a process id `pid` from `fork`: the shell calls
-- `Waitpid` for exactly that process, prints a line only if the wait fails, and prompts again, the
-- child becomes the program with the words as its arguments, and a child whose program is not found
-- exits.
pub eval-separate :
    (answers : Answers) (name : Text) (args : List Text) (pid : ℤ)
    → All IsWord (name ∷ args)
    → length (name ∷ args) < max_args
    → builtin_command answers.chdir_ok name args ≡ external
    → is_positive pid ≡ true
    → let at = λ (fork : ℤ) (found : Bool).
      eval
        (record answers { fork = fork; exec_ok = found })
        (spaced 32 (name ∷ args) ++ newline ∷ []) in
      (at pid answers.exec_ok
        ≡ prompt (record nothing { waited = some pid; notices = wait_notices answers.waitpid }))
      × (at (pos 0) true ≡ became (name ∷ args))
      × (at (pos 0) false ≡ exited (exec_failed ∷ []))
unfolding eval eval_argv run execvp after_builtin
eval-separate answers name args pid h room plain real =
    let e = argv_of-spaced (name ∷ args) h room in
    (rw (e, eval, plain, positive-ne_zero pid real, real), rw (e, eval, plain), rw (e, eval, plain))
