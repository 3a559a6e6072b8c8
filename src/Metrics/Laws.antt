-- ===== src/Metrics/Laws.antt =====
-- The counters of internal/metrics/metrics.go against the list of the calls.
use ciallo.Common.{
  ℕ, ◌+◌, ◌≡◌, Bytes, List, [], ◌∷◌, if◌then◌else◌, Option, none, some, Eq, bytes_eq, pair_eq, ◌==◌,
}
use ciallo.Common.Dict.{Dict}
use ciallo.Proxy.Server.{MetricCall}
use ciallo.Metrics.{
  StatusKey, LoginKey, PairKey, Recorder, bump, value_or_unknown, status_key, login_key,
}

module _ {ℓ} {K : Type ℓ} ⦃e : Eq K⦄ where
  -- How many of the calls have the key.
  pub occurrences : (MetricCall → Option K) → K → List MetricCall → ℕ
  occurrences key k [] = 0
  occurrences key k (call ∷ calls) =
      let rest = occurrences key k calls in
      elim (key call) [ none ↦ rest | some j ↦ if k == j then rest + 1 else rest ]

  abbrev pub bump_some : Option K → Dict K ℕ → Dict K ℕ
  bump_some none m = m
  bump_some (some k) m = bump k m

  abbrev pub hit_once : Option K → K → ℕ
  hit_once none k = 0
  hit_once (some j) k = if k == j then 1 else 0

  -- A counter that a fold of calls raises at the calls' keys.
  pub fold : (MetricCall → Option K) → Dict K ℕ → List MetricCall → Dict K ℕ
  fold key m [] = m
  fold key m (call ∷ calls) = fold key (bump_some (key call) m) calls

-- The keys of the calls.
abbrev pub status_key_of : MetricCall → Option StatusKey
status_key_of (MetricCall.record_status route backend result used) =
    some (status_key route backend result used)
status_key_of _ = none

abbrev pub login_key_of : MetricCall → Option LoginKey
login_key_of (MetricCall.record_login route backend action) = some (login_key route backend action)
login_key_of _ = none

abbrev pub dial_error_key_of : MetricCall → Option PairKey
dial_error_key_of (MetricCall.record_backend_dial_error route backend) = some (route, backend)
dial_error_key_of _ = none

abbrev pub block_key_of : MetricCall → Option PairKey
block_key_of (MetricCall.record_fail2ban_block route kind) = some (route, value_or_unknown kind)
block_key_of _ = none

abbrev pub breaker_key_of : MetricCall → Option Bytes
breaker_key_of (MetricCall.record_status_circuit_breaker backend) = some (value_or_unknown backend)
breaker_key_of _ = none

-- What one call does to each counter.
abbrev Raises : Recorder → MetricCall → Recorder → Type 0
Raises r call r' =
    (r'.status_total ≡ bump_some (status_key_of call) r.status_total)
    × (r'.login_total ≡ bump_some (login_key_of call) r.login_total)
    × (r'.backend_dial_errors ≡ bump_some (dial_error_key_of call) r.backend_dial_errors)
    × (r'.fail2ban_blocks ≡ bump_some (block_key_of call) r.fail2ban_blocks)
    × (r'.status_breakers ≡ bump_some (breaker_key_of call) r.status_breakers)

abbrev Folds : Recorder → List MetricCall → Recorder → Type 0
Folds r calls r' =
    (r'.status_total ≡ fold status_key_of r.status_total calls)
    × (r'.login_total ≡ fold login_key_of r.login_total calls)
    × (r'.backend_dial_errors ≡ fold dial_error_key_of r.backend_dial_errors calls)
    × (r'.fail2ban_blocks ≡ fold block_key_of r.fail2ban_blocks calls)
    × (r'.status_breakers ≡ fold breaker_key_of r.status_breakers calls)
