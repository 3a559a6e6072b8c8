-- ===== src/Main.antt =====
-- cmd/mcproxy/main.go: how the program's parts are made of the settings, and how it ends. The state of
-- every part is the one before the first connection. The server and the management server hold the same
-- guard and the same checker.
pub mod Laws
pub mod Signals
pub mod Tests
use ciallo.Common.{
  ℕ, Bytes, List, [], ◌∷◌, Bool, true, false, ◌||◌, if◌then◌else◌, Option, none, some,
}
use ciallo.Common.Int.{ℤ}
use ciallo.Go.Errors.{Error, Result, ok, err, context_canceled}
use ciallo.Go.Text.{codes}
use ciallo.Go.Time.{Time}
use ciallo.Cache.{new_status_cache}
use ciallo.Config.{Config}
use ciallo.Config.Backends.{route_backends, default_backend_config, backends}
use ciallo.Fail2ban.{Guard, new_guard}
use ciallo.Fail2ban as Fail2ban
use ciallo.Health.{Checker, new_checker, build_targets}
use ciallo.Health as Health
use ciallo.Health.Snapshot.{metrics_snapshot}
use ciallo.Logging.{Logger, new_logger}
use ciallo.Management.{new_with_health}
use ciallo.Management as Management
use ciallo.Metrics.{new_recorder}
use ciallo.Metrics.Prometheus.{write_prometheus}
use ciallo.Pool.{Pool, new_pool}
use ciallo.Proxy.Types.{Backend}
use ciallo.Proxy.Router.{StaticRouter, new_static_router}
use ciallo.Proxy.Dialer.{NetDialer, Attempt, Outcome, warm}
use ciallo.Proxy.Server.{Server, new_server_with_guard}
use ciallo.Proxy.Server as Proxy
use ciallo.Proxy.Server.Lifecycle.{is_listener_closed}

abbrev pub version : Bytes
version = codes "v0.0.6"

-- The options of each part.
abbrev pub health_options : Config → Health.Options
health_options c = record {
  enabled = c.backend_health.enabled;
  interval = c.backend_health.interval;
  timeout = c.backend_health.timeout;
  failure_threshold = c.backend_health.failure_threshold;
  success_threshold = c.backend_health.success_threshold;
  probe_protocol = c.backend_health.probe_protocol;
  probe_host = c.backend_health.probe_host;
  circuit_breaker_ttl = c.backend_health.circuit_breaker_ttl;
}

abbrev pub fail2ban_options : Config → Fail2ban.Options
fail2ban_options c = record {
  enabled = c.fail2ban.enabled;
  max_failures = c.fail2ban.max_failures;
  window = c.fail2ban.window;
  ban_duration = c.fail2ban.ban_duration;
  early_disconnect = c.fail2ban.early_disconnect;
}

abbrev pub proxy_options : Config → Proxy.Options
proxy_options c = record {
  handshake_timeout = c.timeouts.handshake;
  backend_dial_timeout = c.timeouts.backend_dial;
  idle_timeout = c.timeouts.idle;
  shutdown_timeout = c.timeouts.shutdown;
  max_handshake_size = c.max_handshake_size;
  max_status_response_size = c.max_status_response_size;
  status_cache_enabled = c.status_cache.enabled;
  status_cache_ttl = c.status_cache.ttl;
  motd_cache_enabled = c.motd_cache.enabled;
  motd_fallback_ttl = c.motd_cache.fallback_ttl;
  status_fallback_when_unhealthy = c.backend_health.status_fallback_when_unhealthy;
  status_fallback = record {
    version_name = c.status_fallback.version_name;
    players_max = c.status_fallback.players_max;
  };
}

abbrev management_options : Config → Management.Options
management_options c = record {
  enabled = c.management.enabled;
  address = c.management.address;
  version = version;
}

abbrev conn_pool : Config → Option Pool
conn_pool c =
    if c.pool.enabled
    then some (
        new_pool (record {
          max_idle_per_backend = c.pool.max_idle_per_backend;
          idle_timeout = c.pool.idle_timeout;
        }))
    else none

attempts : (Backend → Attempt) → List Backend → List (Backend × Attempt)
attempts attempt [] = []
attempts attempt (b ∷ bs) = (b, attempt b) ∷ attempts attempt bs

-- The dialer, warmed if there is a pool.
abbrev new_dialer : Config → (Backend → Attempt) → Outcome
new_dialer c attempt =
    let d : NetDialer = record { timeout = c.timeouts.backend_dial; pool = conn_pool c } in
    if c.pool.enabled
    then warm d (attempts attempt (backends c))
    else record { dialer = d; opened = []; closes = [] }

pub record Program : Type 0 where
  pub server : Server
  pub dialer : NetDialer
  pub checker : Checker
  pub management : Management.Server

module _ (lower : ℕ → ℕ) (clock : Bytes → Time) (attempt : Backend → Attempt) where
  abbrev new_health : Config → Checker
  new_health c = new_checker (health_options c) (
      build_targets lower (route_backends c) (default_backend_config c) c.backend_health.probe_host)

  pub wire : Config → Program
  unfolding attempts
  wire c =
      let router = new_static_router lower (route_backends c) (default_backend_config c) in
      let guard = new_guard (fail2ban_options c) in
      let checker = new_health c in
      record {
        server =
            new_server_with_guard (proxy_options c) router (some new_status_cache) (some guard)
              (some checker) (some []);
        dialer = (new_dialer c attempt).dialer;
        checker = checker;
        management =
            new_with_health (management_options c) (some guard)
              (some (write_prometheus (some new_recorder) (metrics_snapshot clock (some checker))))
              (some false) (some checker);
      }

-- What ends the program: a signal, with the result of `Shutdown`, or the server, with the result of
-- `ListenAndServe`.
pub data Ending : Type 0 where
  signalled server_ended : Option Error → Ending

abbrev is_context_canceled : Error → Bool
is_context_canceled context_canceled = true
is_context_canceled _ = false

abbrev pub ending_code : Ending → ℕ
ending_code (signalled none) = 0
ending_code (signalled (some _)) = 1
ending_code (server_ended none) = 0
ending_code (server_ended (some e)) = if is_listener_closed e || is_context_canceled e then 0 else 1

abbrev logged_code : Result Logger → Ending → ℕ
logged_code (err _) ending = 1
logged_code (ok _) ending = ending_code ending

abbrev loaded_code : (ℕ → ℕ) → Result Config → Ending → ℕ
loaded_code lower (err _) ending = 1
loaded_code lower (ok cfg) ending = logged_code (new_logger lower cfg.logging) ending

-- The exit code of `main`, with the flag for the version.
pub exit_code : (ℕ → ℕ) → Bool → Result Config → Ending → ℕ
exit_code lower show_version loaded ending =
    if show_version then 0 else loaded_code lower loaded ending
