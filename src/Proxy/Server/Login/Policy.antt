-- ===== src/Proxy/Server/Login/Policy.antt =====
-- Who gets through to the backend.
use ciallo.Common.{
  ℕ, ◌+◌, ◌≡◌, refl, List, ◌∷◌, Bool, true, false, Option, none, some, arith, length,
}
use ciallo.Common.Int.{pos, ◌≤ℤ◌}
use ciallo.Common.Dict.{lookup}
use ciallo.Go.Errors.{Result, ok, err, ip_banned}
use ciallo.Go.Reader.{Reader}
use ciallo.Go.Text.{codes}
use ciallo.Go.Time.{Time, zero_time, is_zero, before, add}
use ciallo.Mcproto.Packet.{Packet}
use ciallo.Mcproto.Login.{parse_login_start}
use ciallo.Fail2ban.{Guard, is_banned, is_off, key_of, key_eq}
use ciallo.Fail2ban.Window.{record_failures, InWindow, last_time, ban_policy}
use ciallo.Proxy.Server.{Server}
use ciallo.Proxy.Server.Login.{LoginCall, or_blank, route_of, player_check, check_ip, handle_login}

module _ (lower : ℕ → ℕ) where
  abbrev pub ip_check : Server → LoginCall → Bool × Option Guard
  ip_check s c = is_banned lower s.guard (route_of c) (codes "ip") c.ip c.times.ip_check

  -- What the packet of the login start was, and that its player is not banned.
  abbrev pub Admits : Server → LoginCall → Result (Packet × Reader) → Type 0
  Admits s c (err e) = ⊥
  Admits s c (ok (p, _)) =
      (player_check lower (ip_check s c).1 (route_of c)
        (or_blank (parse_login_start p c.handshake.protocol_version)) c.times.player_check).0
      ≡ false

  check_ip-banned :
      (s : Server) (c : LoginCall) (checked : Bool × Option Guard)
      → checked.0 ≡ true
      → ((check_ip lower s c (route_of c) checked).error ≡ some ip_banned)
        × ((check_ip lower s c (route_of c) checked).backend_end ≡ none)
        × ((check_ip lower s c (route_of c) checked).client_out ≡ c.client_out)
  check_ip-banned s c (true, g) h = (refl, refl, refl)
  check_ip-banned s c (false, g) h = cc

  -- The lockout, from the guard to the connection: after at least `MaxFailures` failures of an address
  -- within one window on a key that had no entry, a login from it before the ban ends is refused
  -- without a dial and without an answer, whatever the client has sent.
  pub lockout :
      (s : Server) (c : LoginCall) (g : Guard) (t : Time) (ts : List Time)
      → s.guard ≡ some (record_failures lower (route_of c) (codes "ip") c.ip g (t ∷ ts))
      → is_off lower g c.ip ≡ false
      → lookup (key_of lower (route_of c) (codes "ip") c.ip) g.entries ≡ none
      → is_zero t ≡ false
      → InWindow g.options t ts
      → g.options.max_failures ≤ℤ pos (1 + length ts)
      → zero_time ≤ℤ c.times.ip_check
      → before c.times.ip_check (add (last_time t ts) g.options.ban_duration) ≡ true
      → ((handle_login lower s c).error ≡ some ip_banned)
        × ((handle_login lower s c).backend_end ≡ none)
        × ((handle_login lower s c).client_out ≡ c.client_out)
  unfolding handle_login
  lockout s c g t ts same on new nz w many later now =
      let policy =
        ban_policy lower (route_of c) (codes "ip") c.ip c.ip g t ts c.times.ip_check on new nz w
          refl later in
      check_ip-banned s c (ip_check s c) (rw same (unfold is_banned in rw policy (ground arith)))
