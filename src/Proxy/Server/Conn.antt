-- ===== src/Proxy/Server/Conn.antt =====
-- `handleConn` of internal/proxy/server.go: one client's connection from its handshake on.
pub mod Laws
pub mod Gauge
use ciallo.Common.{
  ℕ, Bytes, List, [], ◌∷◌, ◌++◌, Bool, true, false, if◌then◌else◌, Option, none, some, ◌==◌, nat_eq,
}
use ciallo.Go.Errors.{Error, Result, ok, err}
use ciallo.Go.Json.{Json}
use ciallo.Go.Reader.{Reader}
use ciallo.Go.Text.{codes}
use ciallo.Go.Writer.{Writer}
use ciallo.Mcproto.Host.{normalize_host}
use ciallo.Mcproto.Packet.{Packet}
use ciallo.Mcproto.Handshake.{Handshake, read_handshake, next_state_status, next_state_login}
use ciallo.Proxy.Types.{Backend}
use ciallo.Proxy.Router.{resolve}
use ciallo.Proxy.Pipe.{Reads}
use ciallo.Proxy.Server.{Server, BackendEnd, MetricCall, Fail2banAction, record_metric, remote_ip}
use ciallo.Proxy.Server.Login.{LoginCall, LoginResult, LoginRun, LoginTimes, handle_login}
use ciallo.Proxy.Server.Status.{
  StatusCall, StatusResult, StatusRun, StatusTimes, BackendConn, handle_status,
}

-- A client's connection, and what the network and the clock do while it is served.
pub record ConnCall : Type 0 where
  pub remote_addr : Bytes
  pub client : Reader
  pub client_out : Writer
  pub dialed : Result BackendConn
  pub upstream : Reads
  pub downstream : Reads
  pub login_times : LoginTimes
  pub status_times : StatusTimes

-- How the handler ended; it logs this and returns nothing.
pub data ConnEnd : Type 0 where
  bad_handshake : Error → ConnEnd
  route_not_found : Bytes → ConnEnd
  status_ended : StatusResult → Option Error → ConnEnd
  login_ended : LoginResult → Option Error → ConnEnd
  unsupported_state : ConnEnd

pub record ConnRun : Type 0 where
  pub server : Server
  pub ended : ConnEnd
  pub client_out : Writer
  pub backend_end : Option BackendEnd

abbrev pub login_dial : Result BackendConn → Result Writer
login_dial (ok conn) = ok conn.out
login_dial (err e) = err e

abbrev pub status_call : ConnCall → Backend → Handshake → Packet → Reader → StatusCall
status_call c backend h p client = record {
  backend = backend;
  handshake = h;
  handshake_packet = p;
  client = client;
  client_out = c.client_out;
  dialed = c.dialed;
  times = c.status_times;
}

abbrev pub login_call : ConnCall → Backend → Bytes → Handshake → Packet → Reader → LoginCall
login_call c backend host h p client = record {
  backend = backend;
  route = host;
  handshake = h;
  handshake_packet = p;
  ip = remote_ip c.remote_addr;
  client = client;
  client_out = c.client_out;
  dialed = login_dial c.dialed;
  upstream = c.upstream;
  downstream = c.downstream;
  times = c.login_times;
}

-- The metrics after a login: its record, and one more for a ban that stopped it.
abbrev pub record_block : Server → Bytes → Fail2banAction → Server
record_block s host Fail2banAction.banned_ip =
    record_metric s (MetricCall.record_fail2ban_block host (codes "ip"))
record_block s host Fail2banAction.banned_player =
    record_metric s (MetricCall.record_fail2ban_block host (codes "player"))
record_block s host _ = s

abbrev pub end_status : Bytes → Backend → StatusRun → ConnRun
end_status host backend run = record {
  server =
      record_metric run.server (
        MetricCall.record_status host backend.addr run.result.cache_result
          run.result.fallback_used);
  ended = ConnEnd.status_ended run.result run.error;
  client_out = run.client_out;
  backend_end = run.backend_end;
}

abbrev pub end_login : Bytes → Backend → LoginRun → ConnRun
end_login host backend run = record {
  server =
      record_block
        (record_metric run.server
          (MetricCall.record_login host backend.addr run.result.fail2ban_action))
        host run.result.fail2ban_action;
  ended = ConnEnd.login_ended run.result run.error;
  client_out = run.client_out;
  backend_end = run.backend_end;
}

abbrev pub ends_with : Server → ConnCall → ConnEnd → ConnRun
ends_with s c ended = record {
  server = s;
  ended = ended;
  client_out = c.client_out;
  backend_end = none;
}

module _ (json : Json) (lower : ℕ → ℕ) where
  -- The switch over the next state.
  pub dispatch : Server → ConnCall → Bytes → Backend → Handshake → Packet → Reader → ConnRun
  dispatch s c host backend h p client =
      if h.next_state == next_state_status
      then end_status host backend (handle_status json lower s (status_call c backend h p client))
      else (if h.next_state == next_state_login
          then end_login host backend (handle_login lower s (login_call c backend host h p client))
          else ends_with s c ConnEnd.unsupported_state)

  -- With the route of the host.
  pub serve_route :
      Server → ConnCall → Bytes → Option Backend → Handshake → Packet → Reader → ConnRun
  serve_route s c host none h p client = ends_with s c (ConnEnd.route_not_found host)
  serve_route s c host (some backend) h p client = dispatch s c host backend h p client

  -- With the handshake that was read.
  pub serve : Server → ConnCall → Result (Handshake × Packet × Reader) → ConnRun
  serve s c (err e) = ends_with s c (ConnEnd.bad_handshake e)
  serve s c (ok (h, p, client)) =
      let host = normalize_host lower h.server_address in
      serve_route s c host (resolve lower s.router host) h p client

  abbrev count_out : ConnRun → ConnRun
  count_out run = record run { server = record_metric run.server MetricCall.dec_active_connections }

  -- `handleConn`
  pub handle_conn : Server → ConnCall → ConnRun
  handle_conn s c = count_out (
      serve (record_metric s MetricCall.inc_active_connections) c
        (read_handshake c.client s.options.max_handshake_size))
