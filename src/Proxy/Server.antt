-- ===== src/Proxy/Server.antt =====
-- The state of internal/proxy/server.go and the small methods that its handlers share. A collaborator
-- that may be nil is an option; deadlines are part of what a connection's reader does.
pub mod Gauge
pub mod Login
pub mod Status
pub mod Conn
pub mod Lifecycle
pub mod Tests
use ciallo.Common.{
  ℕ, ◌+◌, ◌*◌, Bytes, List, [], ◌∷◌, ◌++◌, Bool, true, false, ◌&&◌, ◌||◌, not, if◌then◌else◌,
  Option, none, some,
}
use ciallo.Common.Int.{ℤ, pos, ltb_ℤ}
use ciallo.Go.Errors.{Error, Result, ok, err}
use ciallo.Go.HostPort.{split_host_port}
use ciallo.Go.Json.{Json}
use ciallo.Go.Strings.{contains}
use ciallo.Go.Text.{codes, decimal_int32}
use ciallo.Go.Time.{Time, Duration, second, minute}
use ciallo.Go.Writer.{Writer}
use ciallo.Mcproto.Host.{normalize_host}
use ciallo.Mcproto.Handshake.{Handshake}
use ciallo.Mcproto.Status.{FallbackStatusOptions}
use ciallo.Cache.{Entries}
use ciallo.Fail2ban.{Guard}
use ciallo.Go.Defaults.{is_blank, default_if_zero}
use ciallo.Health.{Checker, is_unhealthy}
use ciallo.Proxy.Types.{Backend}
use ciallo.Proxy.Router.{StaticRouter}
use ciallo.Proxy.Pipe.{PipeStats}

pub record Options : Type 0 where
  pub handshake_timeout : Duration
  pub backend_dial_timeout : Duration
  pub idle_timeout : Duration
  pub shutdown_timeout : Duration
  pub max_handshake_size : ℤ
  pub max_status_response_size : ℤ
  pub status_cache_enabled : Bool
  pub status_cache_ttl : Duration
  pub motd_cache_enabled : Bool
  pub motd_fallback_ttl : Duration
  pub status_fallback_when_unhealthy : Bool
  pub status_fallback : FallbackStatusOptions

-- "disabled", "miss", "hit" and "fallback".
pub data CacheResult : Type 0 where
  disabled miss hit fallback : CacheResult

-- "none", "ip_banned", "player_banned", "record_failure" and "record_success".
pub data Fail2banAction : Type 0 where
  untouched banned_ip banned_player failure_recorded success_recorded : Fail2banAction

-- The calls of a `MetricsRecorder`.
pub data MetricCall : Type 0 where
  inc_active_connections dec_active_connections : MetricCall
  record_status : Bytes → Bytes → CacheResult → Bool → MetricCall
  record_login : Bytes → Bytes → Fail2banAction → MetricCall
  record_backend_dial_error : Bytes → Bytes → MetricCall
  record_fail2ban_block : Bytes → Bytes → MetricCall
  record_status_circuit_breaker : Bytes → MetricCall

-- `metrics` holds the calls made so far.
pub record Server : Type 0 where
  pub options : Options
  pub router : StaticRouter
  pub cache : Option Entries
  pub guard : Option Guard
  pub health : Option Checker
  pub metrics : Option (List MetricCall)

-- The defaults of `NewServerWithGuard`.
unfoldable pub server_options : Options → Options
server_options o = record o {
  handshake_timeout = default_if_zero o.handshake_timeout (pos (3 * second));
  backend_dial_timeout = default_if_zero o.backend_dial_timeout (pos (3 * second));
  idle_timeout = default_if_zero o.idle_timeout (pos (10 * minute));
  shutdown_timeout = default_if_zero o.shutdown_timeout (pos (10 * second));
  max_handshake_size = default_if_zero o.max_handshake_size (pos 65536);
  max_status_response_size = default_if_zero o.max_status_response_size (pos 262144);
  status_cache_ttl = default_if_zero o.status_cache_ttl (pos (5 * second));
  motd_fallback_ttl = default_if_zero o.motd_fallback_ttl (pos (5 * minute));
}

-- `NewServerWithGuard`
abbrev pub new_server_with_guard :
    Options
    → StaticRouter
    → Option Entries
    → Option Guard
    → Option Checker
    → Option (List MetricCall)
    → Server
new_server_with_guard o router cache guard health metrics = record {
  options = server_options o;
  router = router;
  cache = cache;
  guard = guard;
  health = health;
  metrics = metrics;
}

abbrev pub add_call : Option (List MetricCall) → MetricCall → Option (List MetricCall)
add_call none call = none
add_call (some calls) call = some (calls ++ (call ∷ []))

-- A call on `s.options.Metrics`, if there is one.
abbrev pub record_metric : Server → MetricCall → Server
record_metric s call = record s { metrics = add_call s.metrics call }

-- A backend's connection as the handlers leave it.
pub record BackendEnd : Type 0 where
  pub out : Writer
  pub closed : Bool

abbrev pub route_key : Backend → Bytes
route_key backend = if is_blank backend.name then backend.addr else backend.name

-- `remoteIP`, of the text of the remote address.
unfoldable pub remote_ip : Bytes → Bytes
remote_ip remote_addr = elim (split_host_port remote_addr) [
  | ok (host, _) ↦ host
  | err _ ↦ remote_addr
]

abbrev and_setting : Option Bool → Bool → Bool
and_setting none b = b
and_setting (some setting) b = b && setting

pub status_cache_enabled : Server → Backend → Bool
status_cache_enabled s backend = and_setting backend.status_cache s.options.status_cache_enabled

pub motd_fallback_ttl : Server → Duration
motd_fallback_ttl s =
    if not s.options.motd_cache_enabled then pos 0 else s.options.motd_fallback_ttl

abbrev with_health : Option Checker → (Checker → Bool) → Bool
with_health none f = false
with_health (some c) f = f c

-- The condition on which the status path does not dial.
pub short_circuits : Server → Backend → Time → Bool
short_circuits s backend now =
    s.options.status_fallback_when_unhealthy
    && with_health s.health (λ c. is_unhealthy c backend now)

-- The key `addr|host|protocol` of the status cache.
unfoldable pub cache_key : (ℕ → ℕ) → Backend → Handshake → Bytes
cache_key lower backend h =
    backend.addr
    ++ (codes "|"
        ++ (normalize_host lower h.server_address
            ++ (codes "|" ++ decimal_int32 h.protocol_version)))
