-- ===== src/Proxy/Server/Login.antt =====
-- `handleLogin` of internal/proxy/server.go, cut at the points where it can return.
pub mod Policy
pub mod Gauge
pub mod Replay
use ciallo.Common.{
  ℕ, Bytes, List, [], ◌∷◌, Bool, true, false, ◌&&◌, not, if◌then◌else◌, Option, none, some, ◌==◌,
  nat_eq,
}
use ciallo.Common.Int.{ℤ, pos, leb_ℤ, ltb_ℤ}
use ciallo.Go.Errors.{
  Error, Result, ok, err, ip_banned, player_banned, read_login_start, backend_dial,
  replay_handshake, replay_login_start,
}
use ciallo.Go.Reader.{Reader}
use ciallo.Go.Text.{codes}
use ciallo.Go.Time.{Time, sub}
use ciallo.Go.Writer.{Writer, write}
use ciallo.Mcproto.Packet.{Packet, read_packet, write_packet}
use ciallo.Mcproto.Handshake.{Handshake}
use ciallo.Mcproto.Login.{parse_login_start, build_login_disconnect}
use ciallo.Fail2ban.{Guard, is_enabled, early_disconnect, is_banned, record_failure, record_success}
use ciallo.Go.Defaults.{is_blank}
use ciallo.Proxy.Types.{Backend}
use ciallo.Proxy.Pipe.{PipeStats, Reads, copy_with_idle}
use ciallo.Proxy.Server.{
  Server, BackendEnd, Fail2banAction, MetricCall, untouched, banned_ip, banned_player,
  failure_recorded, success_recorded, record_metric, route_key,
}

-- The clock's readings, by the step that reads it.
pub record LoginTimes : Type 0 where
  pub ip_check : Time
  pub player_check : Time
  pub login_observed : Time
  pub replay_failed : Time
  pub piping : Time
  pub piped : Time
  pub ip_record : Time
  pub player_record : Time

-- What the handler is given: its arguments and what the network does. `upstream` and `downstream` are
-- what `ProxyBidirectional` reads from the client and from the backend.
pub record LoginCall : Type 0 where
  pub backend : Backend
  pub route : Bytes
  pub handshake : Handshake
  pub handshake_packet : Packet
  pub ip : Bytes
  pub client : Reader
  pub client_out : Writer
  pub dialed : Result Writer
  pub upstream : Reads
  pub downstream : Reads
  pub times : LoginTimes

pub record LoginResult : Type 0 where
  pub stats : PipeStats
  pub username : Bytes
  pub fail2ban_action : Fail2banAction

-- What the handler returns and leaves; `backend_end` is `none` if it did not dial or the dial failed.
pub record LoginRun : Type 0 where
  pub server : Server
  pub result : LoginResult
  pub error : Option Error
  pub client_out : Writer
  pub backend_end : Option BackendEnd

abbrev no_stats : PipeStats
no_stats = record { client_to_backend = 0; backend_to_client = 0 }

abbrev result_of : Bytes → Fail2banAction → LoginResult
result_of username action = record {
  stats = no_stats;
  username = username;
  fail2ban_action = action;
}

-- `return result, err`
abbrev return_error : Server → LoginResult → Error → Writer → Option BackendEnd → LoginRun
return_error s result e client_out backend_end = record {
  server = s;
  result = result;
  error = some e;
  client_out = client_out;
  backend_end = backend_end;
}

abbrev closed_end : Writer → Option BackendEnd
closed_end out = some (record { out = out; closed = true })

abbrev pub or_blank : Result Bytes → Bytes
or_blank (ok username) = username
or_blank (err e) = []

abbrev pub route_of : LoginCall → Bytes
route_of c = if is_blank c.route then route_key c.backend else c.route

module _ (lower : ℕ → ℕ) where
  -- `recordLoginFailure`, with the time of each record.
  unfoldable pub record_login_failure :
      Option Guard → Bytes → Bytes → Bytes → Time → Time → Option Guard
  record_login_failure g route ip username now now' =
      let g1 = (record_failure lower g route (codes "ip") ip now).1 in
      if is_blank username
      then g1
      else (record_failure lower g1 route (codes "player") username now').1

  -- The record of a success at the end of `handleLogin`.
  unfoldable pub record_login_success : Option Guard → Bytes → Bytes → Bytes → Option Guard
  record_login_success g route ip username =
      let g1 = record_success lower g route (codes "ip") ip in
      if is_blank username then g1 else record_success lower g1 route (codes "player") username

  -- `recordEarlyLoginFailure`
  unfoldable pub record_early_login_failure :
      Option Guard → Time → Bytes → Bytes → Bytes → LoginTimes → Option Guard
  record_early_login_failure g start route ip username t =
      if not (is_enabled g)
      then g
      else (if ltb_ℤ (early_disconnect g) (sub t.replay_failed start)
          then g
          else record_login_failure g route ip username t.ip_record t.player_record)

  -- `shouldRecordFailure`
  unfoldable pub should_record_failure : Option Guard → Time → Time → PipeStats → Bool
  should_record_failure g start now stats =
      is_enabled g && leb_ℤ (sub now start) (early_disconnect g) && stats.backend_to_client == 0

  -- After both replays: the pipe and the record of its outcome.
  pub pipe_login : Server → LoginCall → Bytes → Bytes → Writer → LoginRun
  pipe_login s c route username out =
      let t = c.times in
      let (up, out') = copy_with_idle out c.upstream in
      let (down, client_out') = copy_with_idle c.client_out c.downstream in
      let stats : PipeStats = record { client_to_backend = up; backend_to_client = down } in
      let failed = should_record_failure s.guard t.piping t.piped stats in
      record {
        server = record s {
          guard =
              if failed
              then record_login_failure s.guard route c.ip username t.ip_record t.player_record
              else record_login_success s.guard route c.ip username;
        };
        result = record {
          stats = stats;
          username = username;
          fail2ban_action = if failed then failure_recorded else success_recorded;
        };
        error = none;
        client_out = client_out';
        backend_end = closed_end out';
      }

  -- A replay that failed.
  abbrev replay_fails : Server → LoginCall → Bytes → Bytes → Writer → Error → LoginRun
  replay_fails s c route username out e =
      return_error
        (record s {
          guard =
              record_early_login_failure s.guard c.times.login_observed route c.ip username c.times;
        })
        (result_of username failure_recorded) e c.client_out (closed_end out)

  abbrev pub replay_second : Server → LoginCall → Bytes → Bytes → Option Error × Writer → LoginRun
  replay_second s c route username (some e, out) =
      replay_fails s c route username out (replay_login_start e)
  replay_second s c route username (none, out) = pipe_login s c route username out

  abbrev pub replay_first :
      Server → LoginCall → Bytes → Bytes → Packet → Option Error × Writer → LoginRun
  replay_first s c route username login_start (some e, out) =
      replay_fails s c route username out (replay_handshake e)
  replay_first s c route username login_start (none, out) =
      replay_second s c route username (write out login_start.raw)

  -- From the dial on.
  pub dial_login : Server → LoginCall → Bytes → Bytes → Packet → Result Writer → LoginRun
  dial_login s c route username login_start (err e) =
      return_error (record_metric s (MetricCall.record_backend_dial_error route c.backend.addr))
        (result_of username untouched) (backend_dial e) c.client_out none
  dial_login s c route username login_start (ok out) =
      replay_first s c route username login_start (write out c.handshake_packet.raw)

  -- `username != "" && s.isBanned(route, "player", username)`
  abbrev pub player_check : Option Guard → Bytes → Bytes → Time → Bool × Option Guard
  player_check g route username now =
      if is_blank username
      then (false, g)
      else is_banned lower g route (codes "player") username now

  -- From the player's check on.
  abbrev pub check_player :
      Server → LoginCall → Bytes → Bytes → Packet → Bool × Option Guard → LoginRun
  check_player s c route username login_start (true, g) =
      return_error (record s { guard = g }) (result_of username banned_player) player_banned
        (write_packet c.client_out
          (build_login_disconnect (codes "{\"text\":\"Temporarily banned by proxy\"}"))).1
        none
  check_player s c route username login_start (false, g) =
      dial_login (record s { guard = g }) c route username login_start c.dialed

  pub admit_player : Server → LoginCall → Bytes → Bytes → Packet → LoginRun
  admit_player s c route username login_start =
      check_player s c route username login_start
        (player_check s.guard route username c.times.player_check)

  -- From the read of the login start on.
  pub read_login : Server → LoginCall → Bytes → Result (Packet × Reader) → LoginRun
  read_login s c route (err e) =
      return_error s (result_of [] untouched) (read_login_start e) c.client_out none
  read_login s c route (ok (p, _)) =
      admit_player s c route (or_blank (parse_login_start p c.handshake.protocol_version)) p

  abbrev pub check_ip : Server → LoginCall → Bytes → Bool × Option Guard → LoginRun
  check_ip s c route (true, g) =
      return_error (record s { guard = g }) (result_of [] banned_ip) ip_banned c.client_out none
  check_ip s c route (false, g) =
      read_login (record s { guard = g }) c route
        (read_packet c.client s.options.max_handshake_size)

  -- `handleLogin`
  pub handle_login : Server → LoginCall → LoginRun
  handle_login s c =
      let route = route_of c in
      check_ip s c route (is_banned lower s.guard route (codes "ip") c.ip c.times.ip_check)
