-- ===== src/Metrics/Prometheus.antt =====
-- `WritePrometheus` of internal/metrics/metrics.go: the text of a snapshot, a line at a time. `none`
-- is a nil recorder, which writes as a new one.
pub mod Lines
pub mod Laws
pub mod Tests
use mathlib.Core.List.{map}
use ciallo.Common.{
  ℕ, Bytes, List, [], ◌∷◌, ◌++◌, Bool, true, false, not, ◌||◌, if◌then◌else◌, Option, none, some,
}
use ciallo.Go.Text.{codes, decimal}
use ciallo.Health.Snapshot.{HealthSnapshot, HealthBackend}
use ciallo.Metrics.{Recorder, new_recorder}
use ciallo.Metrics.Labels.{sanitize_label_value, quote}
use ciallo.Metrics.Snapshot.{
  StatusSample, LoginSample, BackendSample, Fail2banSample, BreakerSample, Snapshot, snapshot,
}

-- `%q` of a sanitized value.
abbrev pub label : Bytes → Bytes
label value = quote (sanitize_label_value value)

pub status_line : StatusSample → Bytes
status_line s =
    codes "ciallo_status_requests_total{route="
    ++ label s.route
    ++ codes ",backend="
    ++ label s.backend
    ++ codes ",cache_result="
    ++ label s.cache_result
    ++ codes ",fallback_used="
    ++ label s.fallback_used
    ++ codes "} "
    ++ decimal s.value

pub login_line : LoginSample → Bytes
login_line s =
    codes "ciallo_login_requests_total{route="
    ++ label s.route
    ++ codes ",backend="
    ++ label s.backend
    ++ codes ",fail2ban_action="
    ++ label s.fail2ban_action
    ++ codes "} "
    ++ decimal s.value

pub dial_error_line : BackendSample → Bytes
dial_error_line s =
    codes "ciallo_backend_dial_errors_total{route="
    ++ label s.route
    ++ codes ",backend="
    ++ label s.backend
    ++ codes "} "
    ++ decimal s.value

pub block_line : Fail2banSample → Bytes
block_line s =
    codes "ciallo_fail2ban_blocks_total{route="
    ++ label s.route
    ++ codes ",kind="
    ++ label s.kind
    ++ codes "} "
    ++ decimal s.value

pub breaker_line : BreakerSample → Bytes
breaker_line s =
    codes "ciallo_status_circuit_breaker_total{backend="
    ++ label s.backend
    ++ codes "} "
    ++ decimal s.value

abbrev pub health_state : HealthBackend → Bytes
health_state s = if not s.healthy || s.circuit_open then codes "unhealthy" else codes "healthy"

pub health_line : HealthBackend → Bytes
health_line s =
    codes "ciallo_backend_health{backend="
    ++ label s.backend
    ++ codes ",state="
    ++ quote (health_state s)
    ++ codes "} 1"

pub check_line : HealthBackend → Bytes → ℕ → Bytes
check_line s result n =
    codes "ciallo_backend_health_checks_total{backend="
    ++ label s.backend
    ++ codes ",result="
    ++ quote result
    ++ codes "} "
    ++ decimal n

-- Two lines for each backend.
pub check_lines : List HealthBackend → List Bytes
unfolding check_line
check_lines [] = []
check_lines (s ∷ ss) =
    check_line s (codes "success") s.check_successes
    ∷ check_line s (codes "failure") s.check_failures
    ∷ check_lines ss

abbrev pub status_head : Bytes → List Bytes
status_head active =
    codes "# HELP ciallo_active_connections Current active client connections."
    ∷ codes "# TYPE ciallo_active_connections gauge"
    ∷ (codes "ciallo_active_connections " ++ active)
    ∷ codes "# HELP ciallo_status_requests_total Total status requests handled by the proxy."
    ∷ codes "# TYPE ciallo_status_requests_total counter"
    ∷ []

abbrev pub login_head : List Bytes
login_head =
    codes "# HELP ciallo_login_requests_total Total login connections handled by the proxy."
    ∷ codes "# TYPE ciallo_login_requests_total counter"
    ∷ []

abbrev pub dial_error_head : List Bytes
dial_error_head =
    codes "# HELP ciallo_backend_dial_errors_total Total backend dial failures."
    ∷ codes "# TYPE ciallo_backend_dial_errors_total counter"
    ∷ []

abbrev pub block_head : List Bytes
block_head =
    codes "# HELP ciallo_fail2ban_blocks_total Total fail2ban blocks."
    ∷ codes "# TYPE ciallo_fail2ban_blocks_total counter"
    ∷ []

abbrev pub breaker_head : List Bytes
breaker_head =
    codes
      "# HELP ciallo_status_circuit_breaker_total Total status requests short-circuited because a backend is unhealthy."
    ∷ codes "# TYPE ciallo_status_circuit_breaker_total counter"
    ∷ []

abbrev pub health_head : List Bytes
health_head =
    codes "# HELP ciallo_backend_health Backend health state, 1 for current state."
    ∷ codes "# TYPE ciallo_backend_health gauge"
    ∷ []

abbrev pub check_head : List Bytes
check_head =
    codes "# HELP ciallo_backend_health_checks_total Total backend health checks."
    ∷ codes "# TYPE ciallo_backend_health_checks_total counter"
    ∷ []

pub lines_of : Snapshot → List Bytes
lines_of s =
    status_head (decimal s.active_connections)
    ++ map status_line s.status
    ++ login_head
    ++ map login_line s.login
    ++ dial_error_head
    ++ map dial_error_line s.backend_dial_errors
    ++ block_head
    ++ map block_line s.fail2ban_blocks
    ++ breaker_head
    ++ map breaker_line s.status_breakers
    ++ health_head
    ++ map health_line s.health.backends
    ++ check_head
    ++ check_lines s.health.backends

-- `strings.Join(lines, "\n")`
pub join_lines : List Bytes → Bytes
join_lines [] = []
join_lines (l ∷ []) = l
join_lines (l ∷ m ∷ ms) = l ++ b'\n' ∷ join_lines (m ∷ ms)

abbrev pub or_new : Option Recorder → Recorder
or_new none = new_recorder
or_new (some r) = r

-- A new recorder has no source of health.
abbrev empty_health : HealthSnapshot
empty_health = record { enabled = false; total = 0; healthy = 0; unhealthy = 0; backends = [] }

abbrev pub health_of : Option Recorder → HealthSnapshot → HealthSnapshot
health_of none health = empty_health
health_of (some _) health = health

-- `WritePrometheus`, which writes the whole text at once.
pub write_prometheus : Option Recorder → HealthSnapshot → Bytes
write_prometheus r health =
    join_lines (lines_of (snapshot (or_new r) (health_of r health))) ++ b'\n' ∷ []
