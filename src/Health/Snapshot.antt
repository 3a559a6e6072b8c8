-- ===== src/Health/Snapshot.antt =====
-- `Snapshot` and `MetricsSnapshot` of internal/health/checker.go. The clock is read once for each
-- entry: it is a function of the entry's address. `none` is a nil checker.
pub mod Laws
use ciallo.Common.{
  ℕ, ◌+◌, Bytes, List, [], ◌∷◌, Bool, true, false, ◌&&◌, ◌||◌, not, if◌then◌else◌, Option, none,
  some,
}
use ciallo.Common.Dict.{Dict}
use ciallo.Common.Sort.{bytes_less, sort_by}
use ciallo.Go.Errors.{Error}
use ciallo.Go.Time.{Time}
use ciallo.Health.{Entry, Checker, is_circuit_open}

pub record BackendStatus : Type 0 where
  pub backend : Bytes
  pub probe_host : Bytes
  pub healthy : Bool
  pub circuit_open : Bool
  pub circuit_open_until : Time
  pub last_checked : Time
  pub last_error : Option Error
  pub consecutive_fails : ℕ
  pub consecutive_oks : ℕ
  pub check_successes : ℕ
  pub check_failures : ℕ
  pub circuit_trips : ℕ

-- `statusLocked`
abbrev pub status_locked : Entry → Time → BackendStatus
status_locked e now = record {
  backend = e.target.backend.addr;
  probe_host = e.target.probe_host;
  healthy = e.healthy;
  circuit_open = is_circuit_open e now;
  circuit_open_until = e.circuit_open_until;
  last_checked = e.last_checked;
  last_error = e.last_error;
  consecutive_fails = e.consecutive_fails;
  consecutive_oks = e.consecutive_oks;
  check_successes = e.check_successes;
  check_failures = e.check_failures;
  circuit_trips = e.circuit_trips;
}

pub record Snapshot : Type 0 where
  pub enabled : Bool
  pub total : ℕ
  pub healthy : ℕ
  pub unhealthy : ℕ
  pub backends : List BackendStatus

abbrev pub is_well : BackendStatus → Bool
is_well s = s.healthy && not s.circuit_open

-- The body of the loop.
abbrev add_status : Snapshot → BackendStatus → Snapshot
add_status s status = record s {
  backends = status ∷ s.backends;
  total = s.total + 1;
  healthy = if is_well status then s.healthy + 1 else s.healthy;
  unhealthy = if is_well status then s.unhealthy else s.unhealthy + 1;
}

abbrev empty_snapshot : Bool → Snapshot
empty_snapshot enabled = record {
  enabled = enabled;
  total = 0;
  healthy = 0;
  unhealthy = 0;
  backends = [];
}

abbrev pub status_less : BackendStatus → BackendStatus → Bool
status_less a b = bytes_less a.backend b.backend

module _ (clock : Bytes → Time) where
  pub add_statuses : Dict Bytes Entry → Snapshot → Snapshot
  add_statuses [] s = s
  add_statuses ((_, e) ∷ m) s =
      add_statuses m (add_status s (status_locked e (clock e.target.backend.addr)))

  pub snapshot_on : Checker → Snapshot
  snapshot_on c =
      let s = add_statuses c.entries (empty_snapshot c.options.enabled) in
      record s { backends = sort_by status_less s.backends }

  -- `Snapshot`
  unfoldable pub snapshot : Option Checker → Snapshot
  snapshot none = empty_snapshot false
  snapshot (some c) = snapshot_on c

pub record HealthBackend : Type 0 where
  pub backend : Bytes
  pub healthy : Bool
  pub circuit_open : Bool
  pub check_successes : ℕ
  pub check_failures : ℕ
  pub circuit_trips : ℕ

pub record HealthSnapshot : Type 0 where
  pub enabled : Bool
  pub total : ℕ
  pub healthy : ℕ
  pub unhealthy : ℕ
  pub backends : List HealthBackend

abbrev health_backend : BackendStatus → HealthBackend
health_backend s = record {
  backend = s.backend;
  healthy = s.healthy;
  circuit_open = s.circuit_open;
  check_successes = s.check_successes;
  check_failures = s.check_failures;
  circuit_trips = s.circuit_trips;
}

pub health_backends : List BackendStatus → List HealthBackend
health_backends [] = []
health_backends (s ∷ ss) = health_backend s ∷ health_backends ss

-- `MetricsSnapshot`
pub metrics_snapshot : (Bytes → Time) → Option Checker → HealthSnapshot
metrics_snapshot clock c =
    let s = snapshot clock c in
    record {
      enabled = s.enabled;
      total = s.total;
      healthy = s.healthy;
      unhealthy = s.unhealthy;
      backends = health_backends s.backends;
    }
