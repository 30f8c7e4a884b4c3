-- ===== src/Shell/Wait.antt =====
-- `wait_for_foreground` of sp_prj2/phase3/myshell.c against a schedule of signals. SIGCHLD is not
-- blocked here, so reports arrive either between the test of `fg_pgid` and `sigsuspend`, where they
-- do not end the sleep that follows, or during it.
pub mod Ends
pub mod Asleep
use system_programming.Base.{List, [], if◌then◌else◌, ℤ, ◌==ℤ◌, ◌∷◌}
use system_programming.Shell.Jobs.{Table}
use system_programming.Shell.Signals.{Report, sigchld_handler}

-- The reports of one turn of the loop. A signal other than SIGCHLD wakes the shell with none.
pub record Turn : Type 0 where
  pub before : List Report
  pub during : List Report

-- The wait is over, or the shell sleeps in `sigsuspend` with no signal to come.
pub data Outcome : Type 0 where
  returned : Table → Outcome
  asleep : Table → Outcome

-- A delivery of SIGCHLD runs the handler; without a report there was none.
unfoldable pub deliver : List Report → Table → Table
unfolding sigchld_handler
deliver [] t = t
deliver (r ∷ reports) t = sigchld_handler (r ∷ reports) t

-- `while (fg_pgid == pgid) sigsuspend(&empty);`; `last` are the reports that come before the last
-- sleep of the schedule.
unfoldable pub wait_for_foreground : ℤ → List Turn → List Report → Table → Outcome
unfolding deliver
wait_for_foreground pgid [] last t =
    if t.fg_pgid ==ℤ pgid then asleep (deliver last t) else returned t
wait_for_foreground pgid (turn ∷ schedule) last t =
    let rest =
      wait_for_foreground pgid schedule last (deliver turn.during (deliver turn.before t)) in
    if t.fg_pgid ==ℤ pgid then rest else returned t
