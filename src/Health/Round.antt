-- ===== src/Health/Round.antt =====
-- `CheckOnce` of internal/health/checker.go: one round of checks over all backends. The outcome of a
-- check and the clock's readings while it is recorded are functions of the target.
pub mod Laws
pub mod Keeps
use ciallo.Common.{
  ℕ, Bytes, List, [], ◌∷◌, Bool, true, false, ◌&&◌, ◌||◌, not, if◌then◌else◌, Option, none, some,
  ltb, ◌==◌, nat_eq, bytes_eq,
}
use ciallo.Common.Dict.{Dict}
use ciallo.Common.Sort.{bytes_less}
use ciallo.Go.Errors.{Error}
use ciallo.Go.Time.{Time}
use ciallo.Health.{Options, BackendTarget, Entry, Checker, record_failure, record_success}

pub insert_target : BackendTarget → List BackendTarget → List BackendTarget
insert_target t [] = t ∷ []
insert_target t (u ∷ us) =
    let rest = insert_target t us in
    if bytes_less u.backend.addr t.backend.addr then u ∷ rest else t ∷ u ∷ us

-- `targets`: the targets of the map in the order of their addresses.
pub sorted_targets : Dict Bytes Entry → List BackendTarget
sorted_targets [] = []
sorted_targets ((_, e) ∷ m) = insert_target e.target (sorted_targets m)

-- The record of one outcome.
abbrev pub record_result : Checker → Bytes → Option Error → Time × Time → Checker
record_result c backend none (now, _) = record_success c backend now
record_result c backend (some e) (now, now') = record_failure c backend (some e) now now'

module _ (check : BackendTarget → Option Error) (clock : BackendTarget → Time × Time) where
  abbrev pub record_outcome : Checker → BackendTarget → Checker
  record_outcome c t = record_result c t.backend.addr (check t) (clock t)

  pub check_targets : Checker → List BackendTarget → Checker
  check_targets c [] = c
  check_targets c (t ∷ ts) = check_targets (record_outcome c t) ts

  -- `CheckOnce`
  pub check_once : Checker → Checker
  check_once c = if c.options.enabled then check_targets c (sorted_targets c.entries) else c
