-- ===== src/Config/Defaults.antt =====
-- `Default` and `ApplyDefaults` of internal/config/config.go.
pub mod Laws
use ciallo.Common.{◌*◌, Bytes, [], true, false}
use ciallo.Common.Int.{ℤ, pos}
use ciallo.Go.Defaults.{or_text, default_if_zero}
use ciallo.Go.Text.{codes}
use ciallo.Go.Time.{second, minute}
use ciallo.Config.{
  Config, Timeouts, StatusCacheConfig, MotdCacheConfig, StatusFallback, BackendHealth,
  Fail2BanConfig, ManagementConfig, PoolConfig, LoggingConfig, LoggingFileConfig,
}

abbrev pub default_max_handshake_size : ℤ
default_max_handshake_size = pos (64 * 1024)

abbrev pub default_max_status_response_size : ℤ
default_max_status_response_size = pos (256 * 1024)

-- `Default`, a struct at a time.
abbrev pub default_timeouts : Timeouts
default_timeouts = record {
  handshake = pos (3 * second);
  backend_dial = pos (3 * second);
  idle = pos (10 * minute);
  shutdown = pos (10 * second);
}

abbrev pub default_backend_health : BackendHealth
default_backend_health = record {
  enabled = true;
  interval = pos (10 * second);
  timeout = pos (3 * second);
  failure_threshold = pos 2;
  success_threshold = pos 1;
  probe_protocol = pos 772;
  probe_host = [];
  circuit_breaker_ttl = pos (30 * second);
  status_fallback_when_unhealthy = true;
}

abbrev pub default_fail2ban : Fail2BanConfig
default_fail2ban = record {
  enabled = false;
  max_failures = pos 5;
  window = pos minute;
  ban_duration = pos (10 * minute);
  early_disconnect = pos (5 * second);
}

abbrev pub default_logging : LoggingConfig
default_logging = record {
  level = codes "info";
  format = codes "text";
  output = codes "stdout";
  file = record {
    path = [];
    max_size_mb = pos 100;
    max_backups = pos 7;
    max_age_days = pos 14;
    compress = true;
  };
  add_source = false;
}

abbrev pub default : Config
default = record {
  listen = codes ":25565";
  timeouts = default_timeouts;
  status_cache = record { enabled = true; ttl = pos (5 * second) };
  motd_cache = record { enabled = true; fallback_ttl = pos (5 * minute) };
  status_fallback = record { version_name = codes "ciallo fallback"; players_max = pos 0 };
  backend_health = default_backend_health;
  fail2ban = default_fail2ban;
  management = record { enabled = false; address = codes "127.0.0.1:25575" };
  pool = record { enabled = false; max_idle_per_backend = pos 8; idle_timeout = pos (30 * second) };
  routes = [];
  default_backend = [];
  logging = default_logging;
  max_handshake_size = default_max_handshake_size;
  max_status_response_size = default_max_status_response_size;
}

-- `ApplyDefaults`, a struct at a time.
abbrev pub apply_timeouts : Timeouts → Timeouts
apply_timeouts t = record {
  handshake = default_if_zero t.handshake default_timeouts.handshake;
  backend_dial = default_if_zero t.backend_dial default_timeouts.backend_dial;
  idle = default_if_zero t.idle default_timeouts.idle;
  shutdown = default_if_zero t.shutdown default_timeouts.shutdown;
}

abbrev pub apply_backend_health : BackendHealth → BackendHealth
apply_backend_health h =
    let d = default_backend_health in
    record h {
      interval = default_if_zero h.interval d.interval;
      timeout = default_if_zero h.timeout d.timeout;
      failure_threshold = default_if_zero h.failure_threshold d.failure_threshold;
      success_threshold = default_if_zero h.success_threshold d.success_threshold;
      probe_protocol = default_if_zero h.probe_protocol d.probe_protocol;
      circuit_breaker_ttl = default_if_zero h.circuit_breaker_ttl d.circuit_breaker_ttl;
    }

abbrev pub apply_fail2ban : Fail2BanConfig → Fail2BanConfig
apply_fail2ban f =
    let d = default_fail2ban in
    record f {
      max_failures = default_if_zero f.max_failures d.max_failures;
      window = default_if_zero f.window d.window;
      ban_duration = default_if_zero f.ban_duration d.ban_duration;
      early_disconnect = default_if_zero f.early_disconnect d.early_disconnect;
    }

abbrev pub apply_pool : PoolConfig → PoolConfig
apply_pool p = record p {
  max_idle_per_backend = default_if_zero p.max_idle_per_backend default.pool.max_idle_per_backend;
  idle_timeout = default_if_zero p.idle_timeout default.pool.idle_timeout;
}

abbrev pub apply_logging_file : LoggingFileConfig → LoggingFileConfig
apply_logging_file f =
    let d = default_logging.file in
    record f {
      max_size_mb = default_if_zero f.max_size_mb d.max_size_mb;
      max_backups = default_if_zero f.max_backups d.max_backups;
      max_age_days = default_if_zero f.max_age_days d.max_age_days;
    }

abbrev pub apply_logging : LoggingConfig → LoggingConfig
apply_logging l = record l {
  level = or_text l.level default_logging.level;
  format = or_text l.format default_logging.format;
  output = or_text l.output default_logging.output;
  file = apply_logging_file l.file;
}

unfoldable pub apply_defaults : Config → Config
apply_defaults c = record c {
  listen = or_text c.listen default.listen;
  timeouts = apply_timeouts c.timeouts;
  status_cache = record (c.status_cache) {
    ttl = default_if_zero c.status_cache.ttl default.status_cache.ttl;
  };
  motd_cache = record (c.motd_cache) {
    fallback_ttl = default_if_zero c.motd_cache.fallback_ttl default.motd_cache.fallback_ttl;
  };
  status_fallback = record (c.status_fallback) {
    version_name = or_text c.status_fallback.version_name default.status_fallback.version_name;
  };
  backend_health = apply_backend_health c.backend_health;
  fail2ban = apply_fail2ban c.fail2ban;
  management = record (c.management) {
    address = or_text c.management.address default.management.address;
  };
  pool = apply_pool c.pool;
  logging = apply_logging c.logging;
  max_handshake_size = default_if_zero c.max_handshake_size default.max_handshake_size;
  max_status_response_size =
      default_if_zero c.max_status_response_size default.max_status_response_size;
}
