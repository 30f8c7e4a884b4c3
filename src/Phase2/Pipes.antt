-- ===== src/Phase2/Pipes.antt =====
-- Which process of a pipeline runs which command, and which pipes it reads and writes, in
-- sp_prj2/phase2/myshell.c.
use system_programming.Base.{
  positive-ne_zero, ℕ, suc, ℤ, pos, true, false, Option, none, some, List, [], ◌∷◌, ◌++◌, ◌≡◌, ap,
  is_positive, ◌==ℤ◌, negsuc, ◌⊎◌, inl, inr, append-nil, refl,
}
use system_programming.Shell.Text.{Text, contains}
use system_programming.Phase2.{
  bar, Answers, Forks, external, builtin_command, Streams, prompt, became, command_body, execvp,
  then_exit, run_command, argv_of, run_pipe, split_bars, pipe_notices, open_notices, fork_notices,
  wait_notices, eval,
}

-- The process is the right child of every call before the one for its own command; in each the pipe
-- could be made, and `dup2` took its read end.
abbrev pub Descends : (ℕ → Forks) → ℕ → List Text → Type 0
Descends forks k [] = Unit {0}
Descends forks k (c ∷ cmds) =
    (((forks k).left ==ℤ pos 0) ≡ false)
    × ((forks k).right ≡ pos 0)
    × ((forks k).pipe_ok ≡ true)
    × ((forks k).right_dup ≡ true)
    × Descends forks (suc k) cmds

abbrev pub level : ℕ → List Text → ℕ
level k [] = k
level k (c ∷ cmds) = level (suc k) cmds

-- The input behind the commands before: the read end of the last pipe.
abbrev pub input_after : (ℕ → Forks) → ℕ → Option ℕ → List Text → Option ℕ
input_after forks k input [] = input
input_after forks k input (c ∷ cmds) = input_after forks (suc k) (some (forks k).ends.0) cmds

-- The last command writes where the shell does, and any other, in the left child of its call, to
-- its own pipe, which could be made and whose write end `dup2` took.
abbrev pub OwnOutput : Forks → List Text → Option ℕ → Type 0
OwnOutput f [] output = output ≡ none
OwnOutput f (d ∷ cmds) output =
    (f.left ≡ pos 0) × (output ≡ some f.ends.1) × (f.pipe_ok ≡ true) × (f.left_dup ≡ true)

abbrev pub streams_of : Option ℕ → Option ℕ → Streams
streams_of input output = record { input = input; output = output }

-- The two results are the two ids, in either order.
abbrev pub IsEither : ℤ × ℤ → ℤ → ℤ → Type 0
IsEither waits a b = ((waits.0 ≡ a) × (waits.1 ≡ b)) ⊎ ((waits.0 ≡ b) × (waits.1 ≡ a))

-- A fork that succeeds and a wait that returns a process print nothing.
fork-quiet : (pid : ℤ) → is_positive pid ≡ true → fork_notices pid ≡ []
unfolding fork_notices
fork-quiet (pos n) h = refl
fork-quiet (negsuc n) h = cc

wait-quiet : (pid : ℤ) → is_positive pid ≡ true → wait_notices pid ≡ []
unfolding wait_notices
wait-quiet (pos n) h = refl
wait-quiet (negsuc n) h = cc

pipe_notices-quiet :
    (f : Forks)
    → is_positive f.left ≡ true
    → is_positive f.right ≡ true
    → is_positive f.waits.0 ≡ true
    → is_positive f.waits.1 ≡ true
    → pipe_notices f ≡ open_notices f.pipe_ok
unfolding pipe_notices
pipe_notices-quiet f l r a b =
    rw (fork-quiet f.left l, fork-quiet f.right r, wait-quiet f.waits.0 a, wait-quiet f.waits.1 b)
      (append-nil (open_notices f.pipe_ok))

either-positive :
    (f : Forks)
    → is_positive f.left ≡ true
    → is_positive f.right ≡ true
    → IsEither f.waits f.left f.right
    → (is_positive f.waits.0 ≡ true) × (is_positive f.waits.1 ≡ true)
either-positive f l r (inl (e, g)) = (rw e l, rw g r)
either-positive f l r (inr (e, g)) = (rw e r, rw g l)

either_list :
    (waits : ℤ × ℤ) (a b : ℤ)
    → IsEither waits a b
    → (waits.0 ∷ waits.1 ∷ [] ≡ a ∷ b ∷ []) ⊎ (waits.0 ∷ waits.1 ∷ [] ≡ b ∷ a ∷ [])
either_list waits a b (inl (e, g)) = inl (rw (e, g))
either_list waits a b (inr (e, g)) = inr (rw (e, g))

module _ (answers : Answers) (forks : ℕ → Forks) where
  command_body-image :
      (streams : Streams) (argv : List Text) (name : Text) (args : List Text)
      → argv ≡ name ∷ args
      → builtin_command answers.chdir_ok name args ≡ external
      → answers.exec_ok ≡ true
      → command_body answers streams argv
        ≡ became (record { streams = streams; argv = name ∷ args })
  unfolding command_body execvp
  command_body-image streams argv name args e plain found = rw (e, command_body, plain, found)

  run_command-image :
      (streams : Streams) (c name : Text) (args : List Text)
      → argv_of c ≡ some (name ∷ args)
      → builtin_command answers.chdir_ok name args ≡ external
      → answers.exec_ok ≡ true
      → run_command answers streams c ≡ became (record { streams = streams; argv = name ∷ args })
  unfolding run_command
  run_command-image streams c name args e plain found =
      rw (e, run_command) (command_body-image streams (name ∷ args) name args refl plain found)

  run_pipe-here :
      (k : ℕ) (input output : Option ℕ) (c : Text) (after : List Text) (name : Text)
      (args : List Text)
      → OwnOutput (forks k) after output
      → argv_of c ≡ some (name ∷ args)
      → builtin_command answers.chdir_ok name args ≡ external
      → answers.exec_ok ≡ true
      → run_pipe answers forks k (streams_of input none) (c ∷ after)
        ≡ became (record { streams = streams_of input output; argv = name ∷ args })
  unfolding run_pipe
  run_pipe-here k input output c [] name args own e plain found =
      rw own (run_command-image (streams_of input none) c name args e plain found)
  run_pipe-here k input output c (d ∷ after) name args own e plain found =
      rw (own.0, own.1, own.3)
        (run_command-image (streams_of input (some (forks k).ends.1)) c name args e plain found)

  run_pipe-became :
      (k : ℕ) (input output : Option ℕ) (before : List Text) (c : Text) (after : List Text)
      (name : Text) (args : List Text)
      → Descends forks k before
      → OwnOutput (forks (level k before)) after output
      → argv_of c ≡ some (name ∷ args)
      → builtin_command answers.chdir_ok name args ≡ external
      → answers.exec_ok ≡ true
      → run_pipe answers forks k (streams_of input none) (before ++ c ∷ after)
        ≡ became (record {
          streams = streams_of (input_after forks k input before) output;
          argv = name ∷ args;
        })
  unfolding run_pipe then_exit
  run_pipe-became k input output [] c after name args path own e plain found =
      run_pipe-here k input output c after name args own e plain found
  run_pipe-became k input output (b ∷ []) c after name args path own e plain found =
      rw (path.0, path.1, path.3)
        (ap then_exit (
          run_pipe-became (suc k) (some (forks k).ends.0) output [] c after name args path.4 own e
            plain found))
  run_pipe-became k input output (b ∷ b' ∷ before) c after name args path own e plain found =
      rw (path.0, path.1, path.3)
        (ap then_exit (
          run_pipe-became (suc k) (some (forks k).ends.0) output (b' ∷ before) c after name args
            path.4 own e plain found))

  -- A line with bars: the process for the command `c` of its stretches, which was forked as the right
  -- child of every call before and, unless `c` is the last, as the left child of its own, becomes the
  -- program of that command, if `argv` has room for its arguments, `execvp` finds it and it is not a
  -- built-in one. If in those calls the pipes could be made and `dup2` took their ends, it reads the
  -- pipe of the call before and writes the pipe of its own; the first reads and the last writes where
  -- the shell does.
  pub eval-became :
      (own : ℤ) (cmdline : Text) (before : List Text) (c : Text) (after : List Text)
      (output : Option ℕ) (name : Text) (args : List Text)
      → contains bar cmdline ≡ true
      → split_bars cmdline ≡ before ++ c ∷ after
      → Descends forks 0 before
      → OwnOutput (forks (level 0 before)) after output
      → argv_of c ≡ some (name ∷ args)
      → builtin_command answers.chdir_ok name args ≡ external
      → answers.exec_ok ≡ true
      → eval answers forks own cmdline
        ≡ became (record {
          streams = streams_of (input_after forks 0 none before) output;
          argv = name ∷ args;
        })
  unfolding eval
  eval-became own cmdline before c after output name args barred split path out e plain found =
      rw (barred, split)
        (run_pipe-became 0 none output before c after name args path out e plain found)

  -- The shell itself, at a line with bars that has at least two stretches, where both forks succeed
  -- and the two calls of `Waitpid` for any child return the two children, in either order: it comes
  -- back to the prompt having waited for both, has not changed its directory, and has printed a line
  -- only if `Pipe` failed.
  pub eval-waits :
      (own : ℤ) (cmdline c d : Text) (cmds : List Text)
      → contains bar cmdline ≡ true
      → split_bars cmdline ≡ c ∷ d ∷ cmds
      → is_positive (forks 0).left ≡ true
      → is_positive (forks 0).right ≡ true
      → IsEither (forks 0).waits (forks 0).left (forks 0).right
      → (waited : List ℤ) × (eval answers forks own cmdline
          ≡ prompt none waited (open_notices (forks 0).pipe_ok))
        × ((waited ≡ (forks 0).left ∷ (forks 0).right ∷ [])
            ⊎ (waited ≡ (forks 0).right ∷ (forks 0).left ∷ []))
  unfolding eval run_pipe
  eval-waits own cmdline c d cmds barred split l r either =
      let (a, b) = either-positive (forks 0) l r either in
      (
        (forks 0).waits.0 ∷ (forks 0).waits.1 ∷ [],
        rw (
          barred,
          split,
          positive-ne_zero (forks 0).left l,
          positive-ne_zero (forks 0).right r,
          a,
          b,
          pipe_notices-quiet (forks 0) l r a b,
        ),
        either_list (forks 0).waits (forks 0).left (forks 0).right either,
      )
