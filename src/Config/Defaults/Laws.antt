-- ===== src/Config/Defaults/Laws.antt =====
-- The defaults of internal/config/config.go on settings that may have them already.
use ciallo.Common.{◌≡◌, refl, Bytes, [], ◌∷◌, arith, Bool-cases, inl, inr}
use ciallo.Common.Int.{ℤ}
use ciallo.Go.Defaults.{or_text, default_if_zero, is_zero_int}
use ciallo.Config.{
  Config, Timeouts, BackendHealth, Fail2BanConfig, PoolConfig, LoggingConfig, LoggingFileConfig,
}
use ciallo.Config.Defaults.{
  default, default_timeouts, default_backend_health, default_fail2ban, default_logging,
  apply_timeouts, apply_backend_health, apply_fail2ban, apply_pool, apply_logging,
  apply_logging_file, apply_defaults,
}

text_twice : (s d : Bytes) → or_text (or_text s d) d ≡ or_text s d
text_twice [] [] = refl
text_twice [] (b ∷ bs) = refl
text_twice (b ∷ bs) d = refl

int_twice : (x d : ℤ) → default_if_zero (default_if_zero x d) d ≡ default_if_zero x d
int_twice x d = elim (Bool-cases (is_zero_int x)) [
  | inl zero ↦ rw (zero) (ground arith)
  | inr other ↦ rw (other, other) refl
]

apply_timeouts-twice : (t : Timeouts) → apply_timeouts (apply_timeouts t) ≡ apply_timeouts t
apply_timeouts-twice t = λ i. record {
  handshake = int_twice t.handshake default_timeouts.handshake i;
  backend_dial = int_twice t.backend_dial default_timeouts.backend_dial i;
  idle = int_twice t.idle default_timeouts.idle i;
  shutdown = int_twice t.shutdown default_timeouts.shutdown i;
}

apply_backend_health-twice :
    (h : BackendHealth) → apply_backend_health (apply_backend_health h) ≡ apply_backend_health h
apply_backend_health-twice h =
    let d = default_backend_health in
    λ i. record h {
      interval = int_twice h.interval d.interval i;
      timeout = int_twice h.timeout d.timeout i;
      failure_threshold = int_twice h.failure_threshold d.failure_threshold i;
      success_threshold = int_twice h.success_threshold d.success_threshold i;
      probe_protocol = int_twice h.probe_protocol d.probe_protocol i;
      circuit_breaker_ttl = int_twice h.circuit_breaker_ttl d.circuit_breaker_ttl i;
    }

apply_fail2ban-twice : (f : Fail2BanConfig) → apply_fail2ban (apply_fail2ban f) ≡ apply_fail2ban f
apply_fail2ban-twice f =
    let d = default_fail2ban in
    λ i. record f {
      max_failures = int_twice f.max_failures d.max_failures i;
      window = int_twice f.window d.window i;
      ban_duration = int_twice f.ban_duration d.ban_duration i;
      early_disconnect = int_twice f.early_disconnect d.early_disconnect i;
    }

apply_pool-twice : (p : PoolConfig) → apply_pool (apply_pool p) ≡ apply_pool p
apply_pool-twice p = λ i. record p {
  max_idle_per_backend = int_twice p.max_idle_per_backend default.pool.max_idle_per_backend i;
  idle_timeout = int_twice p.idle_timeout default.pool.idle_timeout i;
}

apply_logging_file-twice :
    (f : LoggingFileConfig) → apply_logging_file (apply_logging_file f) ≡ apply_logging_file f
apply_logging_file-twice f =
    let d = default_logging.file in
    λ i. record f {
      max_size_mb = int_twice f.max_size_mb d.max_size_mb i;
      max_backups = int_twice f.max_backups d.max_backups i;
      max_age_days = int_twice f.max_age_days d.max_age_days i;
    }

apply_logging-twice : (l : LoggingConfig) → apply_logging (apply_logging l) ≡ apply_logging l
apply_logging-twice l = λ i. record l {
  level = text_twice l.level default_logging.level i;
  format = text_twice l.format default_logging.format i;
  output = text_twice l.output default_logging.output i;
  file = apply_logging_file-twice l.file i;
}

-- Applying the defaults to settings that have them already changes nothing.
pub apply_defaults-twice : (c : Config) → apply_defaults (apply_defaults c) ≡ apply_defaults c
unfolding apply_defaults
apply_defaults-twice c = λ i. record c {
  listen = text_twice c.listen default.listen i;
  timeouts = apply_timeouts-twice c.timeouts i;
  status_cache = record (c.status_cache) {
    ttl = int_twice c.status_cache.ttl default.status_cache.ttl i;
  };
  motd_cache = record (c.motd_cache) {
    fallback_ttl = int_twice c.motd_cache.fallback_ttl default.motd_cache.fallback_ttl i;
  };
  status_fallback = record (c.status_fallback) {
    version_name = text_twice c.status_fallback.version_name default.status_fallback.version_name i;
  };
  backend_health = apply_backend_health-twice c.backend_health i;
  fail2ban = apply_fail2ban-twice c.fail2ban i;
  management = record (c.management) {
    address = text_twice c.management.address default.management.address i;
  };
  pool = apply_pool-twice c.pool i;
  logging = apply_logging-twice c.logging i;
  max_handshake_size = int_twice c.max_handshake_size default.max_handshake_size i;
  max_status_response_size =
      int_twice c.max_status_response_size default.max_status_response_size i;
}
