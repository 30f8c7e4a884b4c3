-- ===== src/Shell/Handlers.antt =====
-- Which signals the shell of sp_prj2/phase3/myshell.c catches, and when: `install_signal_handlers`,
-- `block_sigchld` and `restore_sigmask`.
use system_programming.Base.{
  Bool, true, false, Option, none, some, List, ◌≡◌, refl, if◌then◌else◌, Bool-cases, inl, inr,
}
use system_programming.Shell.Jobs.{Table}
use system_programming.Shell.Signals.{
  Report, Kill, sigchld_handler, sigint_handler, sigtstp_handler,
}

pub data Number : Type 0 where
  chld intr tstp quit : Number

-- A handler is given what `waitpid` will report; it may change the table and send a signal.
pub data Action : Type 0 where
  by_default ignored : Action
  handled_by : (List Report → Table → Table × Option Kill) → Action

abbrev pub on_sigchld : List Report → Table → Table × Option Kill
unfolding sigchld_handler
on_sigchld reports t = (sigchld_handler reports t, none)

abbrev pub on_sigint : List Report → Table → Table × Option Kill
unfolding sigint_handler
on_sigint reports t = (t, sigint_handler t)

abbrev pub on_sigtstp : List Report → Table → Table × Option Kill
unfolding sigtstp_handler
on_sigtstp reports t = (t, sigtstp_handler t)

unfoldable pub install_signal_handlers : (Number → Action) → Number → Action
install_signal_handlers actions chld = handled_by on_sigchld
install_signal_handlers actions intr = handled_by on_sigint
install_signal_handlers actions tstp = handled_by on_sigtstp
install_signal_handlers actions quit = ignored

-- The signals that are blocked.
abbrev pub Mask : Type 0
Mask = Number → Bool

-- The new mask, and the one before, which is stored for `restore_sigmask`.
unfoldable pub block_sigchld : Mask → Mask × Mask
block_sigchld mask = (block, mask)
  where
    block : Mask
    block chld = true
    block intr = mask intr
    block tstp = mask tstp
    block quit = mask quit

unfoldable pub restore_sigmask : Mask → Mask → Mask
restore_sigmask prev mask = prev

-- What a signal does to the table, and what it sends: `none` where the process would end by the
-- signal's default action. A signal that is blocked does nothing yet.
unfoldable pub on_signal :
    (Number → Action) → Mask → Number → List Report → Table → Option (Table × Option Kill)
on_signal actions mask n reports t = if mask n then some (t, none) else elim (actions n) [
  | by_default ↦ none
  | ignored ↦ some (t, none)
  | handled_by f ↦ some (f reports t)
]

installed_some :
    (actions : Number → Action) (mask : Mask) (n : Number) (reports : List Report) (t : Table)
    → (r : Table × Option Kill) × (on_signal (install_signal_handlers actions) mask n reports t
        ≡ some r)
unfolding on_signal install_signal_handlers
installed_some actions mask n reports t = elim (Bool-cases (mask n)) [
  | inl y ↦ ((t, none), rw y)
  | inr m ↦ caught n m
]
  where
    caught :
        (n : Number)
        → mask n ≡ false
        → (r : Table × Option Kill) × (on_signal (install_signal_handlers actions) mask n reports t
            ≡ some r)
    caught chld m = (on_sigchld reports t, rw m)
    caught intr m = (on_sigint reports t, rw m)
    caught tstp m = (on_sigtstp reports t, rw m)
    caught quit m = ((t, none), rw m)

-- With the handlers installed, none of the four signals ends the shell, whatever is blocked; and
-- while SIGCHLD is blocked no report of a process changes the table.
pub on_signal-installed :
    (actions : Number → Action) (mask : Mask) (n : Number) (reports : List Report) (t : Table)
    → (r : Table × Option Kill) × (on_signal (install_signal_handlers actions) mask n reports t
        ≡ some r)
      × (on_signal (install_signal_handlers actions) (block_sigchld mask).0 chld reports t
          ≡ some (t, none))
unfolding on_signal block_sigchld
on_signal-installed actions mask n reports t =
    let (r, e) = installed_some actions mask n reports t in (r, e, refl)
