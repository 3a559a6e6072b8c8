-- ===== src/Proxy/Tests.antt =====
-- A proxy with one route, a client that logs in and clients that ask for the status.
use ciallo.Common.{
  ◌+◌, ℕ, ◌≡◌, refl, Bytes, List, [], ◌∷◌, ◌++◌, arith, true, ℕ_discrete, none, some, bytes_eq,
  nat_eq,
}
use ciallo.Common.Int.{pos, ◌+ℤ◌, ◌-ℤ◌}
use ciallo.Common.Dict.{lookup}
use ciallo.Go.Errors.{ok, eof, ip_banned}
use ciallo.Go.Json.{Json}
use ciallo.Go.Reader.{Reader}
use ciallo.Go.Text.{codes}
use ciallo.Go.Time.{sub}
use ciallo.Go.Writer.{open_writer}
use ciallo.Mcproto.Host.{normalize_host, cut_nul, strip_port}
use ciallo.Mcproto.Packet.{Packet}
use ciallo.Mcproto.Handshake.{Handshake, read_handshake}
use ciallo.Fail2ban.{Guard, normalize, key_eq}
use ciallo.Fail2ban.Window.{record_failures}
use ciallo.Proxy.Types.{Backend, Route}
use ciallo.Proxy.Router.{or_default, new_static_router, resolve}
use ciallo.Proxy.Router.Laws.{last_serving, resolve-last_serving}
use ciallo.Proxy.Pipe.{Reads, content}
use ciallo.Proxy.Server.{Options, Server, BackendEnd, MetricCall, record_metric}
use ciallo.Proxy.Server.Login.Policy.{ip_check, lockout}
use ciallo.Proxy.Server.Login.{LoginCall, LoginTimes, handle_login}
use ciallo.Proxy.Server.Status.{StatusTimes}
use ciallo.Proxy.Server.Conn.{ConnCall, serve, handle_conn}
use ciallo.Proxy.Server.Conn.Gauge.{gauge, handle_conn-gauge}
use ciallo.Proxy.Server.Conn.Laws.{login_of}

abbrev pub no_table : ℕ → ℕ
no_table r = r

abbrev pub json : Json
json = record {
  unmarshal_fields = λ document. some ((codes "description", document) ∷ []);
  marshal_status = λ version protocol players description. ok description;
}

abbrev pub backend : Backend
backend = record { name = codes "b"; addr = codes "b:1"; status_cache = none }

-- The reads of a pipe.
abbrev reads : Reads
reads = Reads.more (1 ∷ 2 ∷ []) (Reads.last (3 ∷ 4 ∷ []) eof)

abbrev routes : List Route
routes = record { hosts = codes "A" ∷ []; backend = backend } ∷ []

normal_host : normalize_host no_table (codes "A") ≡ codes "a"
unfolding normalize_host cut_nul strip_port ciallo.Go.Strings.trim_space ciallo.Go.Strings.to_lower
    ciallo.Go.Strings.index_byte ciallo.Go.Strings.last_index_byte ciallo.Go.Strings.trim_suffix
    ciallo.Go.Strings.trim_prefix ciallo.Go.Strings.has_prefix ciallo.Go.Strings.has_suffix
    ciallo.Go.HostPort.split_host_port ciallo.Go.Utf8.runes ciallo.Go.Utf8.decode_rune
    ciallo.Go.Utf8.encode_rune ℕ_discrete bytes_eq
normal_host = refl

resolve-last_serving_example :
    resolve no_table (new_static_router no_table routes none) (codes "A")
    ≡ or_default (last_serving no_table (normalize_host no_table (codes "A")) routes) none
resolve-last_serving_example =
    resolve-last_serving no_table routes none (codes "A") (λ e. let n = normal_host in cc)

abbrev pub options : Options
options = record {
  handshake_timeout = pos 3;
  backend_dial_timeout = pos 3;
  idle_timeout = pos 600;
  shutdown_timeout = pos 10;
  max_handshake_size = pos 65536;
  max_status_response_size = pos 262144;
  status_cache_enabled = true;
  status_cache_ttl = pos 5;
  motd_cache_enabled = true;
  motd_fallback_ttl = pos 300;
  status_fallback_when_unhealthy = true;
  status_fallback = record { version_name = []; players_max = pos 0 };
}

abbrev pub server : Server
server = record {
  options = options;
  router = record { routes = []; default_backend = some backend };
  cache = some [];
  guard = none;
  health = none;
  metrics = some [];
}

abbrev login_times : LoginTimes
login_times = record {
  ip_check = pos 100;
  player_check = pos 100;
  login_observed = pos 100;
  replay_failed = pos 100;
  piping = pos 100;
  piped = pos 100;
  ip_record = pos 100;
  player_record = pos 100;
}

abbrev pub status_times : StatusTimes
status_times = record {
  cache_read = pos 100;
  cache_evict = pos 100;
  health_read = pos 100;
  fallback_read = pos 100;
  health_record = pos 100;
  circuit_record = pos 100;
  cache_write = pos 100;
}

-- Protocol 4, the host "a", port 1 and the next state 2; then a login start of "s".
abbrev pub handshake : Handshake
handshake = record {
  protocol_version = 4;
  server_address = codes "a";
  server_port = 1;
  next_state = 2;
}

abbrev pub handshake_packet : Packet
handshake_packet = record {
  id = 0;
  body = 4 ∷ 1 ∷ 97 ∷ 0 ∷ 1 ∷ 2 ∷ [];
  payload = 0 ∷ 4 ∷ 1 ∷ 97 ∷ 0 ∷ 1 ∷ 2 ∷ [];
  raw = 7 ∷ 0 ∷ 4 ∷ 1 ∷ 97 ∷ 0 ∷ 1 ∷ 2 ∷ [];
}

abbrev login_packet : Packet
login_packet = record {
  id = 0;
  body = 1 ∷ 115 ∷ [];
  payload = 0 ∷ 1 ∷ 115 ∷ [];
  raw = 3 ∷ 0 ∷ 1 ∷ 115 ∷ [];
}

abbrev pub reader : Bytes → Reader
reader b = record { pending = b; stop = eof }

abbrev client : Reader
client = reader (login_packet.raw ++ (9 ∷ []))

abbrev call : ConnCall
call = record {
  remote_addr = codes "1:2";
  client = reader (handshake_packet.raw ++ client.pending);
  client_out = open_writer [];
  dialed = ok (record { answers = reader []; out = open_writer [] });
  upstream = reads;
  downstream = reads;
  login_times = login_times;
  status_times = status_times;
}

abbrev login_call : LoginCall
login_call = login_of json no_table call handshake handshake_packet client backend

abbrev login_end : BackendEnd
login_end = record {
  out = open_writer (handshake_packet.raw ++ (login_packet.raw ++ content reads));
  closed = true;
}

-- A guard of two failures, and the address of the client failing twice.
abbrev guard : Guard
guard = record {
  options = record {
    enabled = true;
    max_failures = pos 2;
    window = pos 60;
    ban_duration = pos 600;
    early_disconnect = pos 5;
  };
  entries = [];
}

abbrev address : Bytes
address = codes "1"

remote : ciallo.Proxy.Server.remote_ip (codes "1:2") ≡ address
unfolding ciallo.Proxy.Server.remote_ip ciallo.Go.HostPort.split_host_port
    ciallo.Go.Strings.index_byte ciallo.Go.Strings.last_index_byte ℕ_discrete
remote = refl

abbrev locked_call : LoginCall
locked_call = record login_call { ip = address; route = codes "a" }

abbrev locked : Server
locked = record server {
  guard =
      some (record_failures no_table (codes "a") (codes "ip") address guard (pos 50 ∷ pos 60 ∷ []));
}

normal_address : normalize no_table address ≡ address
unfolding normalize ciallo.Go.Strings.trim_space ciallo.Go.Strings.to_lower ciallo.Go.Utf8.runes
    ciallo.Go.Utf8.decode_rune ciallo.Go.Utf8.encode_rune
normal_address = refl

lockout_example :
    ((handle_login no_table locked locked_call).error ≡ some ip_banned)
    × ((handle_login no_table locked locked_call).backend_end ≡ none)
    × ((handle_login no_table locked locked_call).client_out ≡ open_writer [])
unfolding lookup sub ◌-ℤ◌ ◌+ℤ◌
lockout_example =
    lockout no_table locked locked_call guard (pos 50) (pos 60 ∷ []) refl (rw normal_address refl)
      refl refl (omega arith, tt) (omega arith) (omega arith) refl

handle_conn-gauge_example :
    let s1 = record_metric server MetricCall.inc_active_connections in
    let read = read_handshake call.client (pos 65536) in
    (gauge (serve json no_table s1 call read).server.metrics ≡ gauge (some []) + 1)
    × (gauge (handle_conn json no_table server call).server.metrics ≡ gauge (some []))
handle_conn-gauge_example = handle_conn-gauge json no_table server call [] refl
