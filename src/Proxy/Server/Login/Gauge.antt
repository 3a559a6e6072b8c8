-- ===== src/Proxy/Server/Login/Gauge.antt =====
-- The gauge of active connections in `handleLogin` of internal/proxy/server.go.
use ciallo.Common.{ℕ, refl, Bytes, Bool, true, false, Option, none, some}
use ciallo.Go.Errors.{Error, Result, ok, err}
use ciallo.Go.Reader.{Reader}
use ciallo.Go.Text.{codes}
use ciallo.Go.Writer.{Writer, write}
use ciallo.Mcproto.Packet.{Packet, read_packet}
use ciallo.Mcproto.Login.{parse_login_start}
use ciallo.Fail2ban.{Guard, is_banned}
use ciallo.Proxy.Server.{Server, MetricCall}
use ciallo.Proxy.Server.Gauge.{Extends}
use ciallo.Proxy.Server.Login.{
  LoginCall, LoginRun, or_blank, route_of, player_check, check_player, check_ip, replay_first,
  replay_second, pipe_login, dial_login, admit_player, read_login, handle_login,
}

module _ (lower : ℕ → ℕ) where
  -- The run leaves the gauge of the server that it began with.
  abbrev pub KeepsGauge : Server → LoginRun → Type 0
  KeepsGauge s run = Extends s.metrics run.server.metrics

  replay_second-KeepsGauge :
      (s : Server) (c : LoginCall) (route username : Bytes) (sent : Option Error × Writer)
      → KeepsGauge s (replay_second lower s c route username sent)
  unfolding pipe_login
  replay_second-KeepsGauge s c route username (some e, out) = Extends.same
  replay_second-KeepsGauge s c route username (none, out) = Extends.same

  replay_first-KeepsGauge :
      (s : Server) (c : LoginCall) (route username : Bytes) (p : Packet)
      (sent : Option Error × Writer)
      → KeepsGauge s (replay_first lower s c route username p sent)
  replay_first-KeepsGauge s c route username p (some e, out) = Extends.same
  replay_first-KeepsGauge s c route username p (none, out) =
      replay_second-KeepsGauge s c route username (write out p.raw)

  dial_login-KeepsGauge :
      (s : Server) (c : LoginCall) (route username : Bytes) (p : Packet) (dialed : Result Writer)
      → KeepsGauge s (dial_login lower s c route username p dialed)
  unfolding dial_login
  dial_login-KeepsGauge s c route username p (err e) =
      Extends.adds (MetricCall.record_backend_dial_error route c.backend.addr) refl Extends.same
  dial_login-KeepsGauge s c route username p (ok out) =
      replay_first-KeepsGauge s c route username p (write out c.handshake_packet.raw)

  check_player-KeepsGauge :
      (s : Server) (c : LoginCall) (route username : Bytes) (p : Packet)
      (checked : Bool × Option Guard)
      → KeepsGauge s (check_player lower s c route username p checked)
  check_player-KeepsGauge s c route username p (true, g) = Extends.same
  check_player-KeepsGauge s c route username p (false, g) =
      dial_login-KeepsGauge (record s { guard = g }) c route username p c.dialed

  read_login-KeepsGauge :
      (s : Server) (c : LoginCall) (route : Bytes) (read : Result (Packet × Reader))
      → KeepsGauge s (read_login lower s c route read)
  unfolding read_login admit_player
  read_login-KeepsGauge s c route (err e) = Extends.same
  read_login-KeepsGauge s c route (ok (p, r)) =
      let username = or_blank (parse_login_start p c.handshake.protocol_version) in
      check_player-KeepsGauge s c route username p
        (player_check lower s.guard route username c.times.player_check)

  check_ip-KeepsGauge :
      (s : Server) (c : LoginCall) (route : Bytes) (checked : Bool × Option Guard)
      → KeepsGauge s (check_ip lower s c route checked)
  check_ip-KeepsGauge s c route (true, g) = Extends.same
  check_ip-KeepsGauge s c route (false, g) =
      read_login-KeepsGauge (record s { guard = g }) c route
        (read_packet c.client s.options.max_handshake_size)

  pub handle_login-KeepsGauge : (s : Server) (c : LoginCall) → KeepsGauge s (handle_login lower s c)
  unfolding handle_login
  handle_login-KeepsGauge s c =
      check_ip-KeepsGauge s c (route_of c)
        (is_banned lower s.guard (route_of c) (codes "ip") c.ip c.times.ip_check)
