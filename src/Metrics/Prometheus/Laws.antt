-- ===== src/Metrics/Prometheus/Laws.antt =====
-- The text of `WritePrometheus` of internal/metrics/metrics.go as a reader sees it who cuts it at the
-- newlines.
use mathlib.Core.List.{map}
use ciallo.Common.{
  ℕ, ◌≡◌, refl, Bytes, List, [], ◌∷◌, ◌++◌, Bool, true, false, not, ◌||◌, if◌then◌else◌, Option,
  nat_eq, ℕ_discrete, All, All-append,
}
use ciallo.Go.Text.{codes, decimal, is_line}
use ciallo.Health.Snapshot.{HealthSnapshot, HealthBackend}
use ciallo.Metrics.{Recorder}
use ciallo.Metrics.Labels.{quote}
use ciallo.Metrics.Snapshot.{
  StatusSample, LoginSample, BackendSample, Fail2banSample, BreakerSample, Snapshot, snapshot,
}
use ciallo.Metrics.Prometheus.{
  status_line, login_line, dial_error_line, block_line, breaker_line, health_state, health_line,
  check_line, check_lines, status_head, login_head, dial_error_head, block_head, breaker_head,
  health_head, check_head, lines_of, join_lines, or_new, health_of, write_prometheus,
}
use ciallo.Metrics.Prometheus.Lines.{Line, split_lines, split_lines-join, literal, lit, lab, num}

status_line-Line : (s : StatusSample) → Line (status_line s)
unfolding status_line is_line
status_line-Line s =
    let route = lab (literal (codes "ciallo_status_requests_total{route=") refl) s.route in
    let backend = lab (lit route (codes ",backend=") refl) s.backend in
    let result = lab (lit backend (codes ",cache_result=") refl) s.cache_result in
    let used = lab (lit result (codes ",fallback_used=") refl) s.fallback_used in
    num (lit used (codes "} ") refl) s.value

login_line-Line : (s : LoginSample) → Line (login_line s)
unfolding login_line is_line
login_line-Line s =
    let route = lab (literal (codes "ciallo_login_requests_total{route=") refl) s.route in
    let backend = lab (lit route (codes ",backend=") refl) s.backend in
    let action = lab (lit backend (codes ",fail2ban_action=") refl) s.fail2ban_action in
    num (lit action (codes "} ") refl) s.value

dial_error_line-Line : (s : BackendSample) → Line (dial_error_line s)
unfolding dial_error_line is_line
dial_error_line-Line s =
    let route = lab (literal (codes "ciallo_backend_dial_errors_total{route=") refl) s.route in
    let backend = lab (lit route (codes ",backend=") refl) s.backend in
    num (lit backend (codes "} ") refl) s.value

block_line-Line : (s : Fail2banSample) → Line (block_line s)
unfolding block_line is_line
block_line-Line s =
    let route = lab (literal (codes "ciallo_fail2ban_blocks_total{route=") refl) s.route in
    let kind = lab (lit route (codes ",kind=") refl) s.kind in
    num (lit kind (codes "} ") refl) s.value

breaker_line-Line : (s : BreakerSample) → Line (breaker_line s)
unfolding breaker_line is_line
breaker_line-Line s =
    let backend =
      lab (literal (codes "ciallo_status_circuit_breaker_total{backend=") refl) s.backend in
    num (lit backend (codes "} ") refl) s.value

state_line : (b : Bool) → is_line (quote (if b then codes "unhealthy" else codes "healthy")) ≡ true
unfolding is_line quote ℕ_discrete
state_line true = refl
state_line false = refl

health_line-Line : (s : HealthBackend) → Line (health_line s)
unfolding health_line is_line
health_line-Line s =
    let backend = lab (literal (codes "ciallo_backend_health{backend=") refl) s.backend in
    let state =
      lit (lit backend (codes ",state=") refl) (quote (health_state s))
        (state_line (not s.healthy || s.circuit_open)) in
    lit state (codes "} 1") refl

check_line-Line :
    (s : HealthBackend) (result : Bytes) (n : ℕ)
    → is_line (quote result) ≡ true
    → Line (check_line s result n)
unfolding check_line is_line
check_line-Line s result n h =
    let backend =
      lab (literal (codes "ciallo_backend_health_checks_total{backend=") refl) s.backend in
    let outcome = lit (lit backend (codes ",result=") refl) (quote result) h in
    num (lit outcome (codes "} ") refl) n

check_lines-Line : (ss : List HealthBackend) → All Line (check_lines ss)
unfolding check_lines is_line quote ℕ_discrete
check_lines-Line [] = tt
check_lines-Line (s ∷ ss) = (
  check_line-Line s (codes "success") s.check_successes refl,
  (check_line-Line s (codes "failure") s.check_failures refl, check_lines-Line ss),
)

map-Line :
    {S : Type 0} (f : S → Bytes) → ((s : S) → Line (f s)) → (ss : List S) → All Line (map f ss)
map-Line f h [] = tt
map-Line f h (s ∷ ss) = (h s, map-Line f h ss)

-- Two literals above the samples.
two : (s t : Bytes) → is_line s ≡ true → is_line t ≡ true → All Line (s ∷ t ∷ [])
two s t h k = (literal s h, (literal t k, tt))

status_head-Line : (n : ℕ) → All Line (status_head (decimal n))
unfolding is_line
status_head-Line n = (
  literal _ refl,
  (literal _ refl, (num (literal (codes "ciallo_active_connections ") refl) n, two _ _ refl refl)),
)

record Lines (ls : List Bytes) : Type 0 where
  lines : All Line ls

-- Lines behind lines.
module _ {acc : List Bytes} (h : Lines acc) where
  block : (xs : List Bytes) → All Line xs → Lines (acc ++ xs)
  block xs k = record { lines = All-append Line acc xs h.lines k }

  mapped :
      {S : Type 0} (f : S → Bytes)
      → ((s : S) → Line (f s))
      → (ss : List S) → Lines (acc ++ map f ss)
  mapped f k ss = block (map f ss) (map-Line f k ss)

lines_of-Line : (s : Snapshot) → All Line (lines_of s)
unfolding lines_of is_line
lines_of-Line s =
    let head : Lines (status_head (decimal s.active_connections)) = record {
      lines = status_head-Line s.active_connections;
    } in
    let status = mapped head status_line status_line-Line s.status in
    let login =
      mapped (block status login_head (two _ _ refl refl)) login_line login_line-Line s.login in
    let errors =
      mapped (block login dial_error_head (two _ _ refl refl)) dial_error_line dial_error_line-Line
        s.backend_dial_errors in
    let blocks =
      mapped (block errors block_head (two _ _ refl refl)) block_line block_line-Line
        s.fail2ban_blocks in
    let breakers =
      mapped (block blocks breaker_head (two _ _ refl refl)) breaker_line breaker_line-Line
        s.status_breakers in
    let health =
      mapped (block breakers health_head (two _ _ refl refl)) health_line health_line-Line
        s.health.backends in
    let checks = block health check_head (two _ _ refl refl) in
    (block checks (check_lines s.health.backends) (check_lines-Line s.health.backends)).lines

text-lines : (s : Snapshot) → split_lines (join_lines (lines_of s) ++ b'\n' ∷ []) ≡ lines_of s
unfolding lines_of
text-lines s = let (first, rest) = lines_of-Line s in split_lines-join _ _ first rest

-- Cut at its newlines, the text has exactly the lines that are meant, each of which is one sample or
-- one comment: no route, backend or other text that a counter was raised with adds a line, ends
-- one early, or breaks one. This holds of a nil recorder too.
pub split_lines-write_prometheus :
    (r : Option Recorder) (health : HealthSnapshot)
    → split_lines (write_prometheus r health) ≡ lines_of (snapshot (or_new r) (health_of r health))
unfolding write_prometheus
split_lines-write_prometheus r health = text-lines (snapshot (or_new r) (health_of r health))
