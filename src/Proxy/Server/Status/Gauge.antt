-- ===== src/Proxy/Server/Status/Gauge.antt =====
-- The gauge of active connections in `handleStatus` of internal/proxy/server.go.
use ciallo.Common.{
  ℕ, refl, Bytes, Bool, true, false, Option, none, some, if◌then◌else◌, ◌==◌, nat_eq,
}
use ciallo.Go.Errors.{Error, Result, ok, err, backend_unhealthy, backend_dial, read_status_response}
use ciallo.Go.Json.{Json}
use ciallo.Go.Reader.{Reader}
use ciallo.Go.Writer.{Writer, write}
use ciallo.Mcproto.Host.{normalize_host}
use ciallo.Mcproto.Packet.{Packet, read_packet}
use ciallo.Mcproto.Status.{status_request_packet_id, status_response_packet_id}
use ciallo.Cache.{Entries}
use ciallo.Proxy.Server.{
  Server, BackendEnd, CacheResult, MetricCall, hit, fallback, record_metric, short_circuits,
  status_cache_enabled,
}
use ciallo.Proxy.Server.Gauge.{Extends, Extends-trans}
use ciallo.Proxy.Server.Status.{
  StatusCall, StatusRun, BackendConn, answer, or_stop, fall_back, status_fallback, key_of, respond,
  take_response, replay_second, replay_first, dial_status, ask_backend, use_cache, read_cache,
  read_request, handle_status, health_failure, health_success,
}

abbrev pub KeepsGauge : Server → StatusRun → Type 0
KeepsGauge s run = Extends s.metrics run.server.metrics

KeepsGauge-if :
    (s : Server) (b : Bool) (x y : StatusRun)
    → KeepsGauge s x
    → KeepsGauge s y
    → KeepsGauge s (if b then x else y)
KeepsGauge-if s true x y hx hy = hx
KeepsGauge-if s false x y hx hy = hy

answer-KeepsGauge :
    (s : Server) (cache_result : CacheResult) (used : Bool) (client : Reader)
    (b : Option BackendEnd) (sent : Option Error × Writer)
    → KeepsGauge s (answer s cache_result used client b sent)
answer-KeepsGauge s cache_result used client b (some e, out) = Extends.same
answer-KeepsGauge s cache_result used client b (none, out) = Extends.same

module _ (json : Json) (lower : ℕ → ℕ) where
  or_stop-KeepsGauge :
      (s : Server) (c : StatusCall) (enabled : Bool) (e : Error) (client : Reader)
      (b : Option BackendEnd) (raw : Option Bytes)
      → KeepsGauge s (or_stop json lower s c enabled e client b raw)
  or_stop-KeepsGauge s c enabled e client b none = Extends.same
  or_stop-KeepsGauge s c enabled e client b (some raw) =
      answer-KeepsGauge s fallback true client b (write c.client_out raw)

  fall_back-KeepsGauge :
      (s : Server) (c : StatusCall) (enabled : Bool) (e : Error) (client : Reader)
      (b : Option BackendEnd)
      → KeepsGauge s (fall_back json lower s c enabled e client b)
  unfolding fall_back
  fall_back-KeepsGauge s c enabled e client b =
      let found =
        status_fallback json lower s (key_of json lower c) c.handshake.protocol_version enabled
          c.times.fallback_read in
      or_stop-KeepsGauge (record s { cache = found.1 }) c enabled e client b found.0

  respond-KeepsGauge :
      (s : Server) (c : StatusCall) (enabled : Bool) (client answers : Reader) (out : Writer)
      (response : Packet) (sent : Option Error × Writer)
      → KeepsGauge s (respond json lower s c enabled client answers out response sent)
  respond-KeepsGauge s c enabled client answers out response (some e, client_out) = Extends.same
  respond-KeepsGauge s c enabled client answers out response (none, client_out) = Extends.same

  take_response-KeepsGauge :
      (s : Server) (c : StatusCall) (enabled : Bool) (client : Reader) (out : Writer)
      (read : Result (Packet × Reader))
      → KeepsGauge s (take_response json lower s c enabled client out read)
  unfolding take_response
  take_response-KeepsGauge s c enabled client out (err e) =
      fall_back-KeepsGauge (health_failure s c.backend.addr e c.times) c enabled
        (read_status_response e) client (some (record { out = out; closed = true }))
  take_response-KeepsGauge s c enabled client out (ok (response, answers)) =
      KeepsGauge-if s (response.id == status_response_packet_id) _ _
        (respond-KeepsGauge (health_success s c.backend.addr c.times) c enabled client answers out
          response (write c.client_out response.raw))
        Extends.same

  replay_second-KeepsGauge :
      (s : Server) (c : StatusCall) (enabled : Bool) (client answers : Reader)
      (sent : Option Error × Writer)
      → KeepsGauge s (replay_second json lower s c enabled client answers sent)
  replay_second-KeepsGauge s c enabled client answers (some e, out) = Extends.same
  replay_second-KeepsGauge s c enabled client answers (none, out) =
      take_response-KeepsGauge s c enabled client out
        (read_packet answers s.options.max_status_response_size)

  replay_first-KeepsGauge :
      (s : Server) (c : StatusCall) (enabled : Bool) (request : Packet) (client answers : Reader)
      (sent : Option Error × Writer)
      → KeepsGauge s (replay_first json lower s c enabled request client answers sent)
  replay_first-KeepsGauge s c enabled request client answers (some e, out) = Extends.same
  replay_first-KeepsGauge s c enabled request client answers (none, out) =
      replay_second-KeepsGauge s c enabled client answers (write out request.raw)

  dial_status-KeepsGauge :
      (s : Server) (c : StatusCall) (enabled : Bool) (request : Packet) (client : Reader)
      (dialed : Result BackendConn)
      → KeepsGauge s (dial_status json lower s c enabled request client dialed)
  unfolding dial_status
  dial_status-KeepsGauge s c enabled request client (err e) =
      let call =
        MetricCall.record_backend_dial_error (normalize_host lower c.handshake.server_address)
          c.backend.addr in
      Extends-trans (Extends.adds call refl Extends.same) (
        fall_back-KeepsGauge (health_failure (record_metric s call) c.backend.addr e c.times) c
          enabled (backend_dial e) client none)
  dial_status-KeepsGauge s c enabled request client (ok conn) =
      replay_first-KeepsGauge s c enabled request client conn.answers
        (write conn.out c.handshake_packet.raw)

  ask_backend-KeepsGauge :
      (s : Server) (c : StatusCall) (enabled : Bool) (request : Packet) (client : Reader)
      → KeepsGauge s (ask_backend json lower s c enabled request client)
  unfolding ask_backend
  ask_backend-KeepsGauge s c enabled request client =
      let call = MetricCall.record_status_circuit_breaker c.backend.addr in
      KeepsGauge-if s (short_circuits s c.backend c.times.health_read) _ _
        (Extends-trans (Extends.adds call refl Extends.same)
          (fall_back-KeepsGauge (record_metric s call) c enabled backend_unhealthy client none))
        (dial_status-KeepsGauge s c enabled request client c.dialed)

  use_cache-KeepsGauge :
      (s : Server) (c : StatusCall) (enabled : Bool) (request : Packet) (client : Reader)
      (found : Option Bytes × Option Entries)
      → KeepsGauge s (use_cache json lower s c enabled request client found)
  unfolding use_cache
  use_cache-KeepsGauge s c enabled request client (some raw, m) =
      answer-KeepsGauge (record s { cache = m }) hit false client none (write c.client_out raw)
  use_cache-KeepsGauge s c enabled request client (none, m) =
      ask_backend-KeepsGauge (record s { cache = m }) c enabled request client

  read_request-KeepsGauge :
      (s : Server) (c : StatusCall) (read : Result (Packet × Reader))
      → KeepsGauge s (read_request json lower s c read)
  unfolding read_request
  read_request-KeepsGauge s c (err e) = Extends.same
  read_request-KeepsGauge s c (ok (request, client)) =
      KeepsGauge-if s (request.id == status_request_packet_id) _ _
        (use_cache-KeepsGauge s c (status_cache_enabled s c.backend) request client
          (read_cache json lower s c))
        Extends.same

  pub handle_status-KeepsGauge :
      (s : Server) (c : StatusCall) → KeepsGauge s (handle_status json lower s c)
  unfolding handle_status
  handle_status-KeepsGauge s c =
      read_request-KeepsGauge s c (read_packet c.client s.options.max_handshake_size)
