-- ===== src/Metrics.antt =====
-- internal/metrics/metrics.go: the counters of a `Recorder` and the calls that raise them. Every
-- method holds the mutex for its whole body. The struct of a counter's key is the tuple of its
-- fields, and a string that the server takes from a fixed list is a constructor with its text here.
pub mod Laws
pub mod Labels
pub mod Snapshot
pub mod Prometheus
pub mod Tests
use ciallo.Common.{
  ℕ, ◌+◌, ◌-◌, ◌<◌, Bytes, List, [], ◌∷◌, Bool, true, false, if◌then◌else◌, Option, none, some, Eq,
  ltb, bytes_eq, pair_eq,
}
use ciallo.Common.Dict.{Dict, lookup, insert}
use ciallo.Go.Strings.{trim_space}
use ciallo.Go.Text.{codes}
use ciallo.Proxy.Server.{CacheResult, Fail2banAction, MetricCall}

abbrev pub StatusKey : Type 0
StatusKey = Bytes × (Bytes × (Bytes × Bytes))

abbrev pub LoginKey : Type 0
LoginKey = Bytes × (Bytes × Bytes)

abbrev pub PairKey : Type 0
PairKey = Bytes × Bytes

pub record Recorder : Type 0 where
  pub active_connections : ℕ
  pub status_total : Dict StatusKey ℕ
  pub login_total : Dict LoginKey ℕ
  pub backend_dial_errors : Dict PairKey ℕ
  pub fail2ban_blocks : Dict PairKey ℕ
  pub status_breakers : Dict Bytes ℕ

-- `New`
abbrev pub new_recorder : Recorder
new_recorder = record {
  active_connections = 0;
  status_total = [];
  login_total = [];
  backend_dial_errors = [];
  fail2ban_blocks = [];
  status_breakers = [];
}

abbrev or_zero : Option ℕ → ℕ
or_zero none = 0
or_zero (some n) = n

-- `m[k]` and `m[k]++`
module _ {ℓ} {K : Type ℓ} ⦃e : Eq K⦄ where
  abbrev pub count_of : K → Dict K ℕ → ℕ
  count_of k m = or_zero (lookup k m)

  abbrev pub bump : K → Dict K ℕ → Dict K ℕ
  bump k m = insert k (count_of k m + 1) m

abbrev is_empty : Bytes → Bool
is_empty [] = true
is_empty (_ ∷ _) = false

-- `valueOrUnknown`
abbrev pub value_or_unknown : Bytes → Bytes
value_or_unknown value = if is_empty (trim_space value) then codes "unknown" else value

abbrev pub cache_result_text : CacheResult → Bytes
cache_result_text CacheResult.disabled = codes "disabled"
cache_result_text CacheResult.miss = codes "miss"
cache_result_text CacheResult.hit = codes "hit"
cache_result_text CacheResult.fallback = codes "fallback"

abbrev pub action_text : Fail2banAction → Bytes
action_text Fail2banAction.untouched = codes "none"
action_text Fail2banAction.banned_ip = codes "ip_banned"
action_text Fail2banAction.banned_player = codes "player_banned"
action_text Fail2banAction.failure_recorded = codes "record_failure"
action_text Fail2banAction.success_recorded = codes "record_success"

-- `strconv.FormatBool`
abbrev bool_text : Bool → Bytes
bool_text true = codes "true"
bool_text false = codes "false"

abbrev pub status_key : Bytes → Bytes → CacheResult → Bool → StatusKey
status_key route backend result used =
    (route, (backend, (value_or_unknown (cache_result_text result), bool_text used)))

abbrev pub login_key : Bytes → Bytes → Fail2banAction → LoginKey
login_key route backend action = (route, (backend, value_or_unknown (action_text action)))

-- The methods of the recorder, one for each call.
unfoldable pub apply : Recorder → MetricCall → Recorder
apply r MetricCall.inc_active_connections = record r {
  active_connections = r.active_connections + 1;
}
apply r MetricCall.dec_active_connections = record r {
  active_connections =
      if ltb 0 r.active_connections then r.active_connections - 1 else r.active_connections;
}
apply r (MetricCall.record_status route backend result used) = record r {
  status_total = bump (status_key route backend result used) r.status_total;
}
apply r (MetricCall.record_login route backend action) = record r {
  login_total = bump (login_key route backend action) r.login_total;
}
apply r (MetricCall.record_backend_dial_error route backend) = record r {
  backend_dial_errors = bump (route, backend) r.backend_dial_errors;
}
apply r (MetricCall.record_fail2ban_block route kind) = record r {
  fail2ban_blocks = bump (route, value_or_unknown kind) r.fail2ban_blocks;
}
apply r (MetricCall.record_status_circuit_breaker backend) = record r {
  status_breakers = bump (value_or_unknown backend) r.status_breakers;
}

unfoldable pub apply_all : Recorder → List MetricCall → Recorder
apply_all r [] = r
apply_all r (call ∷ calls) = apply_all (apply r call) calls
