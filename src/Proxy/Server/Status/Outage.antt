-- ===== src/Proxy/Server/Status/Outage.antt =====
-- What the status handler does while the health checker counts a backend as unhealthy.
use ciallo.Common.{
  ℕ, ◌≡◌, refl, ◌∙◌, true, false, none, some, Option-cases, inl, inr, arith, length, bytes_eq,
}
use ciallo.Common.Int.{pos, ◌≤ℤ◌}
use ciallo.Common.Dict.{lookup}
use ciallo.Go.Errors.{Result, ok, err}
use ciallo.Go.Json.{Json}
use ciallo.Go.Reader.{Reader}
use ciallo.Go.Time.{Time}
use ciallo.Mcproto.Packet.{Packet, read_packet}
use ciallo.Health.{Entry, Checker, status, is_unhealthy}
use ciallo.Health.Runs.{Failures, fail_calls, fail_calls-Has, outage_starts}
use ciallo.Proxy.Types.{Backend}
use ciallo.Proxy.Server.{Server, short_circuits}
use ciallo.Proxy.Server.Status.{StatusCall, handle_status}
use ciallo.Proxy.Server.Status.Laws.{Asks, handle_status-Asks}

bad_status :
    (c : Checker) (backend : Backend) (now : Time)
    → c.options.enabled ≡ true
    → (status c backend now).healthy ≡ false
    → is_unhealthy c backend now ≡ true
unfolding is_unhealthy
bad_status c backend now on bad = rw (bad, on) refl

-- Enough failed checks in a row make the proxy short-circuit the backend.
outage_short-circuits :
    (s : Server) (backend : Backend) (now : Time) (e : Entry) (fs : Failures) (c : Checker)
    → s.options.status_fallback_when_unhealthy ≡ true
    → s.health ≡ some (fail_calls backend.addr fs c)
    → c.options.enabled ≡ true
    → lookup backend.addr c.entries ≡ some e
    → e.healthy ≡ true
    → e.consecutive_fails ≡ 0
    → pos 1 ≤ℤ c.options.failure_threshold
    → c.options.failure_threshold ≤ℤ pos (length fs)
    → short_circuits s backend now ≡ true
unfolding short_circuits
outage_short-circuits s backend now e fs c shield same on found good nofails f many =
    let bad : (status (fail_calls backend.addr fs c) backend now).healthy ≡ false =
      outage_starts backend e fs c now on found good nofails f ∙ (ground arith) in
    let on' : (fail_calls backend.addr fs c).options.enabled ≡ true =
      let (_, kept) = fail_calls-Has backend.addr c.options e fs c on (found, refl) in rw kept on in
    rw (shield, same) (bad_status (fail_calls backend.addr fs c) backend now on' bad)

module _ (json : Json) (lower : ℕ → ℕ) where
  Asks-healthy :
      (s : Server) (c : StatusCall) (read : Result (Packet × Reader))
      → Asks json lower s c read
      → short_circuits s c.backend c.times.health_read ≡ false
  Asks-healthy s c (err e) h = absurd h
  Asks-healthy s c (ok (request, client)) (_, _, healthy) = healthy

  -- The shield: with the fallback for unhealthy backends on, no status request reaches a backend after
  -- `FailureThreshold` failed checks in a row of it, at whatever time it comes, whatever the client
  -- sends and the cache holds.
  pub outage_shields :
      (s : Server) (c : StatusCall) (e : Entry) (fs : Failures) (checker : Checker)
      → s.options.status_fallback_when_unhealthy ≡ true
      → s.health ≡ some (fail_calls c.backend.addr fs checker)
      → checker.options.enabled ≡ true
      → lookup c.backend.addr checker.entries ≡ some e
      → e.healthy ≡ true
      → e.consecutive_fails ≡ 0
      → pos 1 ≤ℤ checker.options.failure_threshold
      → checker.options.failure_threshold ≤ℤ pos (length fs)
      → (handle_status json lower s c).backend_end ≡ none
  outage_shields s c e fs checker shield same on found good nofails f many =
      let broken =
        outage_short-circuits s c.backend c.times.health_read e fs checker shield same on found good
          nofails f many in
      elim (Option-cases (handle_status json lower s c).backend_end) [
        | inl offline ↦ offline
        | inr (b, online) ↦
            let healthy =
              Asks-healthy s c (read_packet c.client s.options.max_handshake_size)
                (handle_status-Asks json lower s c b online) in
            cc
      ]
