-- ===== src/Metrics/Snapshot.antt =====
-- `snapshot` of internal/metrics/metrics.go: the counters as sorted lists of samples. The source of
-- health has already been asked: its snapshot is an argument. A key is the tuple of its fields.
use mathlib.Core.List.{map}
use ciallo.Common.{ℕ, ◌≡◌, Bytes, List, ◌++◌, Bool}
use ciallo.Common.Dict.{Dict}
use ciallo.Common.Sort.{bytes_less, sort_by, sum_of}
use ciallo.Health.Snapshot.{HealthSnapshot}
use ciallo.Metrics.{Recorder, StatusKey, LoginKey, PairKey}

pub record StatusSample : Type 0 where
  pub route : Bytes
  pub backend : Bytes
  pub cache_result : Bytes
  pub fallback_used : Bytes
  pub value : ℕ

pub record LoginSample : Type 0 where
  pub route : Bytes
  pub backend : Bytes
  pub fail2ban_action : Bytes
  pub value : ℕ

pub record BackendSample : Type 0 where
  pub route : Bytes
  pub backend : Bytes
  pub value : ℕ

pub record Fail2banSample : Type 0 where
  pub route : Bytes
  pub kind : Bytes
  pub value : ℕ

pub record BreakerSample : Type 0 where
  pub backend : Bytes
  pub value : ℕ

pub record Snapshot : Type 0 where
  pub active_connections : ℕ
  pub status : List StatusSample
  pub login : List LoginSample
  pub backend_dial_errors : List BackendSample
  pub fail2ban_blocks : List Fail2banSample
  pub status_breakers : List BreakerSample
  pub health : HealthSnapshot

abbrev pub status_sample : StatusKey × ℕ → StatusSample
status_sample ((route, (backend, (result, used))), n) = record {
  route = route;
  backend = backend;
  cache_result = result;
  fallback_used = used;
  value = n;
}

abbrev pub login_sample : LoginKey × ℕ → LoginSample
login_sample ((route, (backend, action)), n) = record {
  route = route;
  backend = backend;
  fail2ban_action = action;
  value = n;
}

abbrev pub backend_sample : PairKey × ℕ → BackendSample
backend_sample ((route, backend), n) = record { route = route; backend = backend; value = n }

abbrev pub fail2ban_sample : PairKey × ℕ → Fail2banSample
fail2ban_sample ((route, kind), n) = record { route = route; kind = kind; value = n }

abbrev pub breaker_sample : Bytes × ℕ → BreakerSample
breaker_sample (backend, n) = record { backend = backend; value = n }

-- The texts by which the lists are sorted.
abbrev pub status_text : StatusSample → Bytes
status_text s = s.route ++ (s.backend ++ (s.cache_result ++ s.fallback_used))

abbrev pub login_text : LoginSample → Bytes
login_text s = s.route ++ (s.backend ++ s.fail2ban_action)

abbrev pub backend_text : BackendSample → Bytes
backend_text s = s.route ++ s.backend

abbrev pub fail2ban_text : Fail2banSample → Bytes
fail2ban_text s = s.route ++ s.kind

abbrev pub breaker_text : BreakerSample → Bytes
breaker_text s = s.backend

module _ {S : Type 0} (text : S → Bytes) where
  abbrev pub text_less : S → S → Bool
  text_less a b = bytes_less (text a) (text b)

  -- A counter's entries as samples, sorted.
  pub samples_of : {K : Type 0} → (K × ℕ → S) → Dict K ℕ → List S
  samples_of f m = sort_by text_less (map f m)

pub snapshot : Recorder → HealthSnapshot → Snapshot
snapshot r health = record {
  active_connections = r.active_connections;
  status = samples_of status_text status_sample r.status_total;
  login = samples_of login_text login_sample r.login_total;
  backend_dial_errors = samples_of backend_text backend_sample r.backend_dial_errors;
  fail2ban_blocks = samples_of fail2ban_text fail2ban_sample r.fail2ban_blocks;
  status_breakers = samples_of breaker_text breaker_sample r.status_breakers;
  health = health;
}

-- The list of a counter has the sample of each entry of its map and no other, as often.
abbrev pub Lists : {K S : Type 0} → (K × ℕ → S) → Dict K ℕ → List S → Type 0
Lists {S} f m samples = (g : S → ℕ) → sum_of g samples ≡ sum_of (λ e. g (f e)) m
