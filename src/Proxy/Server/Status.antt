-- ===== src/Proxy/Server/Status.antt =====
-- `handleStatus` of internal/proxy/server.go, cut at the points where it can return.
pub mod Laws
pub mod Exchange
pub mod Repeats
pub mod Outage
pub mod Gauge
use ciallo.Common.{
  ℕ, Bytes, List, [], ◌∷◌, Bool, true, false, ◌&&◌, ◌||◌, not, if◌then◌else◌, Option, none, some,
  ◌==◌, nat_eq,
}
use ciallo.Common.Int.{ℤ, pos}
use ciallo.Go.Errors.{
  Error, Result, ok, err, read_status_request, unexpected_status_request, backend_unhealthy,
  backend_dial, replay_handshake, replay_status_request, read_status_response,
  unexpected_status_response,
}
use ciallo.Go.Json.{Json}
use ciallo.Go.Reader.{Reader}
use ciallo.Go.Time.{Time}
use ciallo.Go.Writer.{Writer, write}
use ciallo.Mcproto.Host.{normalize_host}
use ciallo.Mcproto.Packet.{Packet, read_packet}
use ciallo.Mcproto.Handshake.{Handshake}
use ciallo.Mcproto.Status.{
  build_pong, status_request_packet_id, status_response_packet_id, status_ping_packet_id,
}
use ciallo.Cache.{Entries}
use ciallo.Health.{Checker}
use ciallo.Proxy.Types.{Backend}
use ciallo.Proxy.Server.{
  Options, Server, BackendEnd, CacheResult, MetricCall, disabled, miss, hit, fallback,
  record_metric, status_cache_enabled, motd_fallback_ttl, short_circuits, cache_key,
}

-- The clock's readings, by the step that reads it.
pub record StatusTimes : Type 0 where
  pub cache_read : Time
  pub cache_evict : Time
  pub health_read : Time
  pub fallback_read : Time
  pub health_record : Time
  pub circuit_record : Time
  pub cache_write : Time

-- A dialed backend: what it answers, and the way its writes end.
pub record BackendConn : Type 0 where
  pub answers : Reader
  pub out : Writer

pub record StatusCall : Type 0 where
  pub backend : Backend
  pub handshake : Handshake
  pub handshake_packet : Packet
  pub client : Reader
  pub client_out : Writer
  pub dialed : Result BackendConn
  pub times : StatusTimes

pub record StatusResult : Type 0 where
  pub cache_result : CacheResult
  pub fallback_used : Bool
  pub pong_handled : Bool

-- `backend_end` is `none` if the handler did not dial or the dial failed.
pub record StatusRun : Type 0 where
  pub server : Server
  pub result : StatusResult
  pub error : Option Error
  pub client_out : Writer
  pub backend_end : Option BackendEnd

-- What a ping handler returns, with the connections that it wrote.
pub record PingRun : Type 0 where
  pub handled : Bool
  pub failure : Option Error
  pub client_out : Writer
  pub backend_out : Option Writer

abbrev pub ping_ends : Bool → Option Error → Writer → Option Writer → PingRun
ping_ends handled failure client_out backend_out = record {
  handled = handled;
  failure = failure;
  client_out = client_out;
  backend_out = backend_out;
}

-- `_, err = client.Write(…); return err == nil, err`
abbrev pub pong_sent : Option Error × Writer → Option Writer → PingRun
pong_sent (none, out) b = ping_ends true none out b
pong_sent (some e, out) b = ping_ends false (some e) out b

abbrev pub answer_pong : Writer → Result Packet → PingRun
answer_pong out (err e) = ping_ends false (some e) out none
answer_pong out (ok pong) = pong_sent (write out pong.raw) none

abbrev pub cached_ping : Writer → Result (Packet × Reader) → PingRun
cached_ping out (err e) = ping_ends false none out none
cached_ping out (ok (ping, _)) =
    if ping.id == status_ping_packet_id
    then answer_pong out (build_pong ping.body)
    else ping_ends false none out none

-- `handleCachedPing`
pub handle_cached_ping : Options → Reader → Writer → PingRun
handle_cached_ping o client out = cached_ping out (read_packet client o.max_handshake_size)

abbrev relay_pong : Writer → Writer → Result (Packet × Reader) → PingRun
relay_pong out backend_out (err e) = ping_ends false (some e) out (some backend_out)
relay_pong out backend_out (ok (pong, _)) = pong_sent (write out pong.raw) (some backend_out)

abbrev relay_ping : Options → Writer → Reader → Option Error × Writer → PingRun
relay_ping o out answers (some e, backend_out) = ping_ends false (some e) out (some backend_out)
relay_ping o out answers (none, backend_out) =
    relay_pong out backend_out (read_packet answers o.max_handshake_size)

abbrev read_ping : Options → Writer → Reader → Writer → Result (Packet × Reader) → PingRun
read_ping o out answers backend_out (err e) = ping_ends false none out (some backend_out)
read_ping o out answers backend_out (ok (ping, _)) =
    relay_ping o out answers (write backend_out ping.raw)

-- `proxyStatusPing`
unfoldable pub proxy_status_ping : Options → Reader → Writer → Reader → Writer → PingRun
proxy_status_ping o client out answers backend_out =
    read_ping o out answers backend_out (read_packet client o.max_handshake_size)

-- `return result, err`, where the handler has answered nothing.
abbrev pub stopped : Server → CacheResult → Error → Writer → Option BackendEnd → StatusRun
stopped s cache_result e client_out backend_end = record {
  server = s;
  result = record { cache_result = cache_result; fallback_used = false; pong_handled = false };
  error = some e;
  client_out = client_out;
  backend_end = backend_end;
}

abbrev closed_end : Writer → Option BackendEnd
closed_end out = some (record { out = out; closed = true })

abbrev closed_ends : Option Writer → Option BackendEnd
closed_ends none = none
closed_ends (some out) = closed_end out

-- A backend's end, unless the ping went to it.
abbrev after_ping : Option BackendEnd → Option Writer → Option BackendEnd
after_ping backend_end none = backend_end
after_ping backend_end (some out) = closed_end out

-- The end of a run that has answered: it returns what its ping handler does.
abbrev pub answered : Server → CacheResult → Bool → Option BackendEnd → PingRun → StatusRun
answered s cache_result fallback_used backend_end ping = record {
  server = s;
  result = record {
    cache_result = cache_result;
    fallback_used = fallback_used;
    pong_handled = ping.handled;
  };
  error = ping.failure;
  client_out = ping.client_out;
  backend_end = after_ping backend_end ping.backend_out;
}

-- `client.Write(raw)`, and the proxy's own answer to the ping after it.
abbrev pub answer :
    Server → CacheResult → Bool → Reader → Option BackendEnd → Option Error × Writer → StatusRun
answer s cache_result used client backend_end (some e, out) = record {
  server = s;
  result = record { cache_result = cache_result; fallback_used = used; pong_handled = false };
  error = some e;
  client_out = out;
  backend_end = backend_end;
}
answer s cache_result used client backend_end (none, out) =
    answered s cache_result used backend_end (handle_cached_ping s.options client out)

abbrev health_with : (Checker → Checker) → Server → Server
health_with f s = record s { health = elim s.health [ none ↦ none | some c ↦ some (f c) ] }

abbrev pub health_failure : Server → Bytes → Error → StatusTimes → Server
health_failure s addr e t =
    health_with (λ c. ciallo.Health.record_failure c addr (some e) t.health_record t.circuit_record)
      s

abbrev pub health_success : Server → Bytes → StatusTimes → Server
health_success s addr t = health_with (λ c. ciallo.Health.record_success c addr t.health_record) s

abbrev pub cache_state : Bool → CacheResult
cache_state enabled = if enabled then miss else disabled

abbrev pub found_in :
    Option Entries → (Entries → Option Bytes × Entries) → Option Bytes × Option Entries
found_in none f = (none, none)
found_in (some m) f = let (raw, m') = f m in (raw, some m')

module _ (json : Json) (lower : ℕ → ℕ) where
  abbrev pub key_of : StatusCall → Bytes
  key_of c = cache_key lower c.backend c.handshake

  -- `statusFallback`
  unfoldable pub status_fallback : Server → Bytes → ℕ → Bool → Time → Option Bytes × Option Entries
  status_fallback s key protocol cache_enabled now =
      if not cache_enabled || not s.options.motd_cache_enabled
      then (none, s.cache)
      else found_in s.cache (λ m.
        ciallo.Cache.get_fallback_with_options json m key protocol s.options.status_fallback now)

  -- Answers with the fallback if there is one; otherwise the run ends with the error.
  abbrev pub or_stop :
      Server → StatusCall → Bool → Error → Reader → Option BackendEnd → Option Bytes → StatusRun
  or_stop s c enabled e client backend_end none =
      stopped s (cache_state enabled) e c.client_out backend_end
  or_stop s c enabled e client backend_end (some raw) =
      answer s fallback true client backend_end (write c.client_out raw)

  pub fall_back : Server → StatusCall → Bool → Error → Reader → Option BackendEnd → StatusRun
  fall_back s c enabled e client backend_end =
      let (raw, cache') =
        status_fallback s (key_of c) c.handshake.protocol_version enabled c.times.fallback_read in
      or_stop (record s { cache = cache' }) c enabled e client backend_end raw

  abbrev pub stored : Server → StatusCall → Bool → Bytes → Server
  stored s c enabled raw = record s {
    cache = elim s.cache [
      | none ↦ none
      | some m ↦ some (
          if enabled
          then ciallo.Cache.set_with_fallback json m (key_of c) raw s.options.status_cache_ttl
              (motd_fallback_ttl s) c.times.cache_write
          else m)
    ];
  }

  -- After the response was written to the client.
  abbrev pub respond :
      Server
      → StatusCall
      → Bool
      → Reader
      → Reader
      → Writer
      → Packet
      → Option Error × Writer
      → StatusRun
  respond s c enabled client answers out response (some e, client_out) = record {
    server = s;
    result = record {
      cache_result = cache_state enabled;
      fallback_used = false;
      pong_handled = false;
    };
    error = some e;
    client_out = client_out;
    backend_end = closed_end out;
  }
  respond s c enabled client answers out response (none, client_out) =
      answered (stored s c enabled response.raw) (cache_state enabled) false (closed_end out)
        (proxy_status_ping s.options client client_out answers out)

  -- From the read of the response on.
  unfoldable pub take_response :
      Server → StatusCall → Bool → Reader → Writer → Result (Packet × Reader) → StatusRun
  take_response s c enabled client out (err e) =
      fall_back (health_failure s c.backend.addr e c.times) c enabled (read_status_response e)
        client (closed_end out)
  take_response s c enabled client out (ok (response, answers)) =
      if response.id == status_response_packet_id
      then respond (health_success s c.backend.addr c.times) c enabled client answers out response
          (write c.client_out response.raw)
      else stopped
          (health_failure s c.backend.addr (unexpected_status_response response.id) c.times)
          (cache_state enabled) (unexpected_status_response response.id) c.client_out
          (closed_end out)

  abbrev pub replay_second :
      Server → StatusCall → Bool → Reader → Reader → Option Error × Writer → StatusRun
  replay_second s c enabled client answers (some e, out) =
      stopped (health_failure s c.backend.addr e c.times) (cache_state enabled)
        (replay_status_request e) c.client_out (closed_end out)
  replay_second s c enabled client answers (none, out) =
      take_response s c enabled client out (read_packet answers s.options.max_status_response_size)

  abbrev pub replay_first :
      Server → StatusCall → Bool → Packet → Reader → Reader → Option Error × Writer → StatusRun
  replay_first s c enabled request client answers (some e, out) =
      stopped (health_failure s c.backend.addr e c.times) (cache_state enabled) (replay_handshake e)
        c.client_out (closed_end out)
  replay_first s c enabled request client answers (none, out) =
      replay_second s c enabled client answers (write out request.raw)

  -- From the dial on.
  unfoldable pub dial_status :
      Server → StatusCall → Bool → Packet → Reader → Result BackendConn → StatusRun
  dial_status s c enabled request client (err e) =
      let s1 = record_metric s (
        MetricCall.record_backend_dial_error (normalize_host lower c.handshake.server_address)
          c.backend.addr) in
      fall_back (health_failure s1 c.backend.addr e c.times) c enabled (backend_dial e) client none
  dial_status s c enabled request client (ok conn) =
      replay_first s c enabled request client conn.answers (write conn.out c.handshake_packet.raw)

  -- After the cache had no answer.
  unfoldable pub ask_backend : Server → StatusCall → Bool → Packet → Reader → StatusRun
  ask_backend s c enabled request client =
      if short_circuits s c.backend c.times.health_read
      then fall_back (record_metric s (MetricCall.record_status_circuit_breaker c.backend.addr)) c
          enabled backend_unhealthy client none
      else dial_status s c enabled request client c.dialed

  -- With what the cache gave.
  unfoldable pub use_cache :
      Server → StatusCall → Bool → Packet → Reader → Option Bytes × Option Entries → StatusRun
  use_cache s c enabled request client (some raw, m) =
      answer (record s { cache = m }) hit false client none (write c.client_out raw)
  use_cache s c enabled request client (none, m) =
      ask_backend (record s { cache = m }) c enabled request client

  unfoldable pub read_cache : Server → StatusCall → Option Bytes × Option Entries
  read_cache s c =
      if status_cache_enabled s c.backend
      then found_in s.cache
          (λ m. ciallo.Cache.get_fresh m (key_of c) c.times.cache_read c.times.cache_evict)
      else (none, s.cache)

  -- From the read of the status request on.
  unfoldable pub read_request : Server → StatusCall → Result (Packet × Reader) → StatusRun
  read_request s c (err e) = stopped s disabled (read_status_request e) c.client_out none
  read_request s c (ok (request, client)) =
      if request.id == status_request_packet_id
      then use_cache s c (status_cache_enabled s c.backend) request client (read_cache s c)
      else stopped s disabled (unexpected_status_request request.id) c.client_out none

  -- `handleStatus`
  unfoldable pub handle_status : Server → StatusCall → StatusRun
  handle_status s c = read_request s c (read_packet c.client s.options.max_handshake_size)
