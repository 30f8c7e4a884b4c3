-- ===== src/Shell/System.antt =====
-- The wrappers of the system calls in sp_prj2/phase3/myshell.c, and the lines that `unix_error` prints
-- in one turn of `launch_pipeline`.
use system_programming.Base.{
  ℕ, ℤ, pos, negsuc, Bool, true, false, Option, none, some, List, [], ◌∷◌, ◌++◌, ◌==ℤ◌, ◌≡◌,
  if◌then◌else◌, is_positive, positive-ne_zero,
}
use system_programming.Shell.Launch.{Stage}

pub data Failure : Type 0 where
  fork_failed execvp_failed waitpid_failed pipe_failed : Failure

-- A wrapper returns what the call returned, and prints a line where that is an error.
unfoldable pub fork : ℤ → ℤ × List Failure
fork (pos n) = (pos n, [])
fork (negsuc n) = (negsuc n, fork_failed ∷ [])

-- It comes back only where no program was found.
unfoldable pub execvp : Bool → List Failure
execvp ok = if ok then [] else execvp_failed ∷ []

-- No line is printed where there is no child left, `errno == ECHILD`.
unfoldable pub waitpid : Bool → ℤ → ℤ × List Failure
waitpid no_child (pos n) = (pos n, [])
waitpid no_child (negsuc n) = (negsuc n, (if no_child then [] else waitpid_failed ∷ []))

-- `none` is -1.
unfoldable pub pipe : Option (ℕ × ℕ) → Option (ℕ × ℕ) × List Failure
pipe none = (none, pipe_failed ∷ [])
pipe (some fd) = (some fd, [])

-- The lines behind `fork`, in the process that it returned in.
unfoldable pub fork_failures : Stage → List Failure
unfolding fork execvp
fork_failures stage =
    (fork stage.fork).1 ++ (if stage.fork ==ℤ pos 0 then execvp stage.exec_ok else [])

-- The last segment gets no pipe; where a pipe fails the turn ends.
unfoldable pub turn_failures : Bool → Stage → List Failure
unfolding pipe fork_failures
turn_failures true stage = fork_failures stage
turn_failures false stage = elim (pipe stage.pipe).0 [
  | none ↦ (pipe stage.pipe).1
  | some fd ↦ fork_failures stage
]

fork_failures-none :
    (p : ℤ) (ok : Bool)
    → is_positive p ≡ true
    → (fork p).1 ++ (if p ==ℤ pos 0 then execvp ok else []) ≡ []
unfolding fork
fork_failures-none (pos n) ok real = rw (positive-ne_zero (pos n) real)
fork_failures-none (negsuc n) ok real = cc

-- In the shell a turn prints nothing if its calls succeed.
pub turn_failures-none :
    (last : Bool) (stage : Stage) (fd : ℕ × ℕ)
    → stage.pipe ≡ some fd
    → is_positive stage.fork ≡ true
    → turn_failures last stage ≡ []
unfolding turn_failures fork_failures pipe
turn_failures-none true stage fd e real = fork_failures-none stage.fork stage.exec_ok real
turn_failures-none false stage fd e real =
    rw (e, pipe) (fork_failures-none stage.fork stage.exec_ok real)
