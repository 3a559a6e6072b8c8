-- ===== src/Proxy/Server/Login/Replay.antt =====
-- What the backend and the client receive in a login that goes through.
use ciallo.Common.{
  ℕ, ◌≡◌, refl, sym, subst, Bytes, [], ◌++◌, Bool, true, false, Option, none, some, append_assoc,
}
use ciallo.Go.Errors.{Result, ok}
use ciallo.Go.Reader.{Reader}
use ciallo.Go.Writer.{Writer, open_writer, write_open}
use ciallo.Mcproto.Packet.{Packet, read_packet}
use ciallo.Mcproto.Login.{parse_login_start}
use ciallo.Fail2ban.{Guard}
use ciallo.Proxy.Pipe.{content, copy_with_idle_open}
use ciallo.Proxy.Server.{Server}
use ciallo.Proxy.Server.Login.{
  LoginCall, LoginRun, or_blank, route_of, player_check, check_player, check_ip, dial_login,
  pipe_login, admit_player, read_login, handle_login,
}
use ciallo.Proxy.Server.Login.Policy.{ip_check}

module _ (lower : ℕ → ℕ) where
  -- The run ended without an error, the backend's connection is closed after exactly these bytes, and
  -- the client was sent those of the backend.
  abbrev pub Relays : LoginCall → Bytes → Bytes → LoginRun → Type 0
  Relays c sent raw run =
      (run.error ≡ none)
      × (run.backend_end
          ≡ some (record {
            out = open_writer (c.handshake_packet.raw ++ (raw ++ content c.upstream));
            closed = true;
          }))
      × (run.client_out ≡ open_writer (sent ++ content c.downstream))

  dial_login-Relays :
      (s : Server) (c : LoginCall) (username : Bytes) (p : Packet) (sent : Bytes)
      → c.client_out ≡ open_writer sent
      → Relays c sent p.raw (dial_login lower s c (route_of c) username p (ok (open_writer [])))
  unfolding dial_login pipe_login
  dial_login-Relays s c username p sent no_fault =
      let hs : Bytes = c.handshake_packet.raw in
      rw
        (
          no_fault,
          write_open [] hs,
          write_open hs p.raw,
          copy_with_idle_open (hs ++ p.raw) c.upstream,
          copy_with_idle_open sent c.downstream,
          append_assoc hs p.raw (content c.upstream),
        )
        (refl, refl, refl)

  -- The checked answer of the guard for the player of a login start.
  abbrev pub player_checked : Server → LoginCall → Packet → Bool × Option Guard
  player_checked s c p =
      player_check lower (ip_check lower s c).1 (route_of c)
        (or_blank (parse_login_start p c.handshake.protocol_version)) c.times.player_check

  check_player-Relays :
      (s : Server) (c : LoginCall) (username : Bytes) (p : Packet) (sent : Bytes)
      (checked : Bool × Option Guard)
      → checked.0 ≡ false
      → c.dialed ≡ ok (open_writer [])
      → c.client_out ≡ open_writer sent
      → Relays c sent p.raw (check_player lower s c (route_of c) username p checked)
  check_player-Relays s c username p sent (true, g) h dialed no_fault = cc
  check_player-Relays s c username p sent (false, g) h dialed no_fault =
      subst
        (λ (d : Result Writer).
          Relays c sent p.raw
            (dial_login lower (record s { guard = g }) c (route_of c) username p d))
        (sym dialed) (dial_login-Relays (record s { guard = g }) c username p sent no_fault)

  check_ip-Relays :
      (s : Server) (c : LoginCall) (p : Packet) (r : Reader) (sent : Bytes)
      (checked : Bool × Option Guard)
      → ip_check lower s c ≡ checked
      → checked.0 ≡ false
      → read_packet c.client s.options.max_handshake_size ≡ ok (p, r)
      → (player_checked s c p).0 ≡ false
      → c.dialed ≡ ok (open_writer [])
      → c.client_out ≡ open_writer sent
      → Relays c sent p.raw (check_ip lower s c (route_of c) checked)
  unfolding read_login admit_player
  check_ip-Relays s c p r sent (true, g) same h read admitted dialed no_fault = cc
  check_ip-Relays s c p r sent (false, g) same h read admitted dialed no_fault =
      let username = or_blank (parse_login_start p c.handshake.protocol_version) in
      rw read (
        check_player-Relays (record s { guard = g }) c username p sent
          (player_check lower g (route_of c) username c.times.player_check) (rw same at admitted)
          dialed no_fault)

  -- An admitted login is transparent: where no write fails, the backend receives the handshake's and
  -- the login start's bytes as the client sent them and then all that the client goes on to send, the
  -- client receives all that the backend sends, and the handler ends without an error with the
  -- backend's connection closed.
  pub handle_login-Relays :
      (s : Server) (c : LoginCall) (p : Packet) (r : Reader) (sent : Bytes)
      → (ip_check lower s c).0 ≡ false
      → read_packet c.client s.options.max_handshake_size ≡ ok (p, r)
      → (player_checked s c p).0 ≡ false
      → c.dialed ≡ ok (open_writer [])
      → c.client_out ≡ open_writer sent
      → Relays c sent p.raw (handle_login lower s c)
  unfolding handle_login
  handle_login-Relays s c p r sent h read admitted dialed no_fault =
      check_ip-Relays s c p r sent (ip_check lower s c) refl h read admitted dialed no_fault
