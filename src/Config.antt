-- ===== src/Config.antt =====
-- The settings of internal/config/config.go. A setting that is missing has Go's zero value.
pub mod Defaults
pub mod Validate
pub mod Backends
pub mod Load
pub mod Routing
pub mod Tests
use ciallo.Common.{Bytes, List, Bool, Option}
use ciallo.Common.Int.{ℤ}
use ciallo.Go.Time.{Duration}

pub record Timeouts : Type 0 where
  pub handshake : Duration
  pub backend_dial : Duration
  pub idle : Duration
  pub shutdown : Duration

pub record StatusCacheConfig : Type 0 where
  pub enabled : Bool
  pub ttl : Duration

pub record MotdCacheConfig : Type 0 where
  pub enabled : Bool
  pub fallback_ttl : Duration

pub record StatusFallback : Type 0 where
  pub version_name : Bytes
  pub players_max : ℤ

pub record BackendHealth : Type 0 where
  pub enabled : Bool
  pub interval : Duration
  pub timeout : Duration
  pub failure_threshold : ℤ
  pub success_threshold : ℤ
  pub probe_protocol : ℤ
  pub probe_host : Bytes
  pub circuit_breaker_ttl : Duration
  pub status_fallback_when_unhealthy : Bool

pub record Fail2BanConfig : Type 0 where
  pub enabled : Bool
  pub max_failures : ℤ
  pub window : Duration
  pub ban_duration : Duration
  pub early_disconnect : Duration

pub record ManagementConfig : Type 0 where
  pub enabled : Bool
  pub address : Bytes

pub record PoolConfig : Type 0 where
  pub enabled : Bool
  pub max_idle_per_backend : ℤ
  pub idle_timeout : Duration

-- `StatusCache` is a pointer to a Boolean, nil for the global setting.
pub record RouteConfig : Type 0 where
  pub hosts : List Bytes
  pub backend : Bytes
  pub status_cache : Option Bool

pub record LoggingFileConfig : Type 0 where
  pub path : Bytes
  pub max_size_mb : ℤ
  pub max_backups : ℤ
  pub max_age_days : ℤ
  pub compress : Bool

pub record LoggingConfig : Type 0 where
  pub level : Bytes
  pub format : Bytes
  pub output : Bytes
  pub file : LoggingFileConfig
  pub add_source : Bool

pub record Config : Type 0 where
  pub listen : Bytes
  pub timeouts : Timeouts
  pub status_cache : StatusCacheConfig
  pub motd_cache : MotdCacheConfig
  pub status_fallback : StatusFallback
  pub backend_health : BackendHealth
  pub fail2ban : Fail2BanConfig
  pub management : ManagementConfig
  pub pool : PoolConfig
  pub routes : List RouteConfig
  pub default_backend : Bytes
  pub logging : LoggingConfig
  pub max_handshake_size : ℤ
  pub max_status_response_size : ℤ
