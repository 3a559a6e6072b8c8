-- ===== src/Health.antt =====
-- internal/health/checker.go. Every method holds the mutex for its whole body, so a method is one
-- step; the times that it reads are arguments. A nil checker is treated with its callers.
pub mod Laws
pub mod Run
pub mod Runs
pub mod Tests
pub mod Round
pub mod Targets
pub mod Snapshot
use ciallo.Common.{
  ℕ, ◌+◌, ◌*◌, Bytes, List, [], ◌∷◌, ◌++◌, Bool, true, false, ◌&&◌, ◌||◌, not, if◌then◌else◌,
  Option, none, some, bytes_eq, ◌==◌, ltb,
}
use ciallo.Common.Int.{ℤ, pos, leb_ℤ}
use ciallo.Common.Dict.{Dict, lookup, insert}
use ciallo.Go.Defaults.{is_blank, or_text, default_if_zero}
use ciallo.Go.Errors.{Error, ok, err}
use ciallo.Go.HostPort.{split_host_port}
use ciallo.Go.Time.{Time, Duration, zero_time, is_zero, before, add, second}
use ciallo.Mcproto.Host.{normalize_host}
use ciallo.Proxy.Types.{Backend, Route, HealthStatus}

pub record Options : Type 0 where
  pub enabled : Bool
  pub interval : Duration
  pub timeout : Duration
  pub failure_threshold : ℤ
  pub success_threshold : ℤ
  pub probe_protocol : ℤ
  pub probe_host : Bytes
  pub circuit_breaker_ttl : Duration

pub record BackendTarget : Type 0 where
  pub backend : Backend
  pub probe_host : Bytes

-- `LastError` is the error's text; here it is the error, `none` for the empty text.
pub record Entry : Type 0 where
  pub target : BackendTarget
  pub healthy : Bool
  pub consecutive_fails : ℕ
  pub consecutive_oks : ℕ
  pub circuit_open_until : Time
  pub last_checked : Time
  pub last_error : Option Error
  pub check_successes : ℕ
  pub check_failures : ℕ
  pub circuit_trips : ℕ

pub record Checker : Type 0 where
  pub options : Options
  pub entries : Dict Bytes Entry

-- `fallbackProbeHost`
unfoldable pub fallback_probe_host : Bytes → Bytes → Bytes
fallback_probe_host configured addr =
    or_text configured
      (elim (split_host_port addr) [ ok (host, _) ↦ or_text host addr | err _ ↦ addr ])

abbrev pub new_entry : BackendTarget → Entry
new_entry target = record {
  target = target;
  healthy = true;
  consecutive_fails = 0;
  consecutive_oks = 0;
  circuit_open_until = zero_time;
  last_checked = zero_time;
  last_error = none;
  check_successes = 0;
  check_failures = 0;
  circuit_trips = 0;
}

abbrev pub with_default : Options → Options
with_default o = record o {
  interval = default_if_zero o.interval (pos (10 * second));
  timeout = default_if_zero o.timeout (pos (3 * second));
  failure_threshold = default_if_zero o.failure_threshold (pos 2);
  success_threshold = default_if_zero o.success_threshold (pos 1);
  probe_protocol = default_if_zero o.probe_protocol (pos 772);
  circuit_breaker_ttl = default_if_zero o.circuit_breaker_ttl (pos (30 * second));
}

abbrev pub insert_if_new : Bytes → Entry → Dict Bytes Entry → Dict Bytes Entry
insert_if_new addr e m = elim (lookup addr m) [ none ↦ insert addr e m | some _ ↦ m ]

-- The loop of `New` over the targets.
pub add_targets : Options → List BackendTarget → Dict Bytes Entry → Dict Bytes Entry
add_targets o [] m = m
add_targets o (t ∷ ts) m =
    let addr = t.backend.addr in
    let host = or_text t.probe_host (fallback_probe_host o.probe_host addr) in
    add_targets o ts (
      if is_blank addr
      then m
      else insert_if_new addr (new_entry (record t { probe_host = host })) m)

unfoldable pub new_checker : Options → List BackendTarget → Checker
new_checker o targets = record {
  options = with_default o;
  entries = add_targets (with_default o) targets [];
}

-- `add` of `BuildTargets`: the first target of an address keeps its place.
pub add_target : List BackendTarget → Backend → Bytes → Bytes → List BackendTarget
add_target [] backend host probe_host =
    record { backend = backend; probe_host = or_text host probe_host } ∷ []
add_target (t ∷ ts) backend host probe_host =
    if backend.addr == t.backend.addr
    then record t { probe_host = or_text t.probe_host host } ∷ ts
    else t ∷ add_target ts backend host probe_host

abbrev pub add_unless_blank : List BackendTarget → Backend → Bytes → Bytes → List BackendTarget
add_unless_blank ts backend host probe_host =
    if is_blank backend.addr then ts else add_target ts backend host probe_host

module _ (lower : ℕ → ℕ) where
  abbrev pub first_host : List Bytes → Bytes
  first_host [] = []
  first_host (host ∷ _) = normalize_host lower host

  pub route_targets : List Route → Bytes → List BackendTarget → List BackendTarget
  route_targets [] probe_host ts = ts
  route_targets (r ∷ rs) probe_host ts =
      route_targets rs probe_host (add_unless_blank ts r.backend (first_host r.hosts) probe_host)

  -- `BuildTargets`
  pub build_targets : List Route → Option Backend → Bytes → List BackendTarget
  build_targets routes def probe_host =
      let ts = route_targets routes probe_host [] in
      elim def [ none ↦ ts | some b ↦ add_unless_blank ts b probe_host probe_host ]

-- The entry of a backend that the checker has not seen yet.
abbrev pub entry_or_new : Bytes → Option Entry → Entry
entry_or_new backend none = new_entry (record {
  backend = record { name = backend; addr = backend; status_cache = none };
  probe_host = [];
})
entry_or_new backend (some e) = e

-- The body of `RecordFailure`, which reads the clock for the check and once more for the circuit.
pub fail_entry : Options → Entry → Option Error → Time → Time → Entry
fail_entry o e error now now' =
    let fails = e.consecutive_fails + 1 in
    let trips = leb_ℤ o.failure_threshold (pos fails) in
    record e {
      last_checked = now;
      last_error = error;
      consecutive_fails = fails;
      consecutive_oks = 0;
      check_failures = e.check_failures + 1;
      healthy = if trips then false else e.healthy;
      circuit_open_until = if trips then add now' o.circuit_breaker_ttl else e.circuit_open_until;
      circuit_trips = if trips then e.circuit_trips + 1 else e.circuit_trips;
    }

-- The body of `RecordSuccess`.
pub succeed_entry : Options → Entry → Time → Entry
succeed_entry o e now =
    let oks = e.consecutive_oks + 1 in
    let recovers = leb_ℤ o.success_threshold (pos oks) in
    record e {
      last_checked = now;
      last_error = none;
      consecutive_oks = oks;
      consecutive_fails = 0;
      check_successes = e.check_successes + 1;
      healthy = if recovers then true else e.healthy;
      circuit_open_until = if recovers then zero_time else e.circuit_open_until;
    }

pub record_failure : Checker → Bytes → Option Error → Time → Time → Checker
record_failure c backend error now now' =
    let e = entry_or_new backend (lookup backend c.entries) in
    if c.options.enabled
    then record c { entries = insert backend (fail_entry c.options e error now now') c.entries }
    else c

pub record_success : Checker → Bytes → Time → Checker
record_success c backend now =
    let e = entry_or_new backend (lookup backend c.entries) in
    if c.options.enabled
    then record c { entries = insert backend (succeed_entry c.options e now) c.entries }
    else c

pub is_circuit_open : Entry → Time → Bool
is_circuit_open e now = not (is_zero e.circuit_open_until) && before now e.circuit_open_until

-- `Status`, over `BackendStatus` and `statusLocked`.
abbrev status_of : Option Entry → Time → HealthStatus
status_of none now = record { healthy = true; circuit_open = false }
status_of (some e) now = record { healthy = e.healthy; circuit_open = is_circuit_open e now }

pub status : Checker → Backend → Time → HealthStatus
status c backend now = status_of (lookup backend.addr c.entries) now

unfoldable pub is_unhealthy : Checker → Backend → Time → Bool
is_unhealthy c backend now =
    let s = status c backend now in c.options.enabled && (not s.healthy || s.circuit_open)
