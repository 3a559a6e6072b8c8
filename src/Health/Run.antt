-- ===== src/Health/Run.antt =====
-- `Run` of internal/health/checker.go: a round of checks at the start, and one at every tick until the
-- context ends.
pub mod Laws
pub mod Fresh
use ciallo.Common.{List, [], ◌∷◌, if◌then◌else◌, Option}
use ciallo.Go.Errors.{Error}
use ciallo.Go.Time.{Time}
use ciallo.Health.{BackendTarget, Checker}
use ciallo.Health.Round.{check_once}

-- What the checks of a round answer, and the times that it reads.
pub record Round : Type 0 where
  pub check : BackendTarget → Option Error
  pub clock : BackendTarget → Time × Time

-- The ticks before the end of the context.
pub run_ticks : Checker → List Round → Checker
run_ticks c [] = c
run_ticks c (r ∷ rs) = run_ticks (check_once r.check r.clock c) rs

unfoldable pub run : Checker → Round → List Round → Checker
run c start ticks =
    if c.options.enabled then run_ticks (check_once start.check start.clock c) ticks else c
