-- ===== src/Proxy/Server/Status/Laws.antt =====
-- When the status handler dials, and what it sends and stores.
use ciallo.Common.{
  ℕ, ◌≡◌, refl, Bytes, Bool, true, false, if◌then◌else◌, Option, none, some, Bool-cases, inl, inr,
  ◌==◌, bytes_eq, nat_eq,
}
use ciallo.Go.Errors.{Error, Result, ok, err, backend_unhealthy}
use ciallo.Go.Json.{Json}
use ciallo.Go.Reader.{Reader}
use ciallo.Go.Writer.{Writer, write}
use ciallo.Mcproto.Packet.{Packet, read_packet}
use ciallo.Mcproto.Status.{status_request_packet_id, status_ping_packet_id, build_pong}
use ciallo.Cache.{Entries}
use ciallo.Proxy.Server.{
  Options, Server, BackendEnd, CacheResult, hit, fallback, short_circuits, status_cache_enabled,
  record_metric, MetricCall,
}
use ciallo.Proxy.Server.Status.{
  StatusCall, StatusRun, pong_sent, answer_pong, cached_ping, key_of, handle_cached_ping, answer,
  or_stop, fall_back, status_fallback, dial_status, ask_backend, use_cache, read_cache,
  read_request, handle_status,
}

-- A run without a connection to a backend.
abbrev pub Offline : StatusRun → Type 0
Offline run = run.backend_end ≡ none

pong_sent-offline : (sent : Option Error × Writer) → (pong_sent sent none).backend_out ≡ none
pong_sent-offline (none, out) = refl
pong_sent-offline (some e, out) = refl

answer_pong-offline :
    (out : Writer) (pong : Result Packet) → (answer_pong out pong).backend_out ≡ none
answer_pong-offline out (err e) = refl
answer_pong-offline out (ok pong) = pong_sent-offline (write out pong.raw)

cached_ping-offline :
    (out : Writer) (read : Result (Packet × Reader)) → (cached_ping out read).backend_out ≡ none
cached_ping-offline out (err e) = refl
cached_ping-offline out (ok (ping, r)) = elim (Bool-cases (ping.id == status_ping_packet_id)) [
  | inl t ↦ rw t (answer_pong-offline out (build_pong ping.body))
  | inr f ↦ rw f refl
]

handle_cached_ping-offline :
    (o : Options) (client : Reader) (out : Writer)
    → (handle_cached_ping o client out).backend_out ≡ none
unfolding handle_cached_ping
handle_cached_ping-offline o client out =
    cached_ping-offline out (read_packet client o.max_handshake_size)

answer-Offline :
    (s : Server) (cache_result : CacheResult) (used : Bool) (client : Reader)
    (sent : Option Error × Writer)
    → Offline (answer s cache_result used client none sent)
answer-Offline s cache_result used client (some e, out) = refl
answer-Offline s cache_result used client (none, out) =
    rw (handle_cached_ping-offline s.options client out) refl

module _ (json : Json) (lower : ℕ → ℕ) where
  or_stop-Offline :
      (s : Server) (c : StatusCall) (enabled : Bool) (e : Error) (client : Reader)
      (raw : Option Bytes)
      → Offline (or_stop json lower s c enabled e client none raw)
  or_stop-Offline s c enabled e client none = refl
  or_stop-Offline s c enabled e client (some raw) =
      answer-Offline s fallback true client (write c.client_out raw)

  fall_back-Offline :
      (s : Server) (c : StatusCall) (enabled : Bool) (e : Error) (client : Reader)
      → Offline (fall_back json lower s c enabled e client none)
  unfolding fall_back
  fall_back-Offline s c enabled e client =
      let found =
        status_fallback json lower s (key_of json lower c) c.handshake.protocol_version enabled
          c.times.fallback_read in
      or_stop-Offline (record s { cache = found.1 }) c enabled e client found.0

  if_Online :
      (b : Bool) (x y : StatusRun) (e : BackendEnd)
      → Offline x
      → (if b then x else y).backend_end ≡ some e
      → b ≡ false
  if_Online true x y e h online = cc
  if_Online false x y e h online = refl

  ask_backend-Online :
      (s : Server) (c : StatusCall) (enabled : Bool) (request : Packet) (client : Reader)
      (b : BackendEnd)
      → (ask_backend json lower s c enabled request client).backend_end ≡ some b
      → short_circuits s c.backend c.times.health_read ≡ false
  unfolding ask_backend
  ask_backend-Online s c enabled request client b h =
      let broken = record_metric s (MetricCall.record_status_circuit_breaker c.backend.addr) in
      if_Online (short_circuits s c.backend c.times.health_read)
        (fall_back json lower broken c enabled backend_unhealthy client none)
        (dial_status json lower s c enabled request client c.dialed) b
        (fall_back-Offline broken c enabled backend_unhealthy client) h

  use_cache-Online :
      (s : Server) (c : StatusCall) (enabled : Bool) (request : Packet) (client : Reader)
      (found : Option Bytes × Option Entries) (b : BackendEnd)
      → (use_cache json lower s c enabled request client found).backend_end ≡ some b
      → (found.0 ≡ none) × (short_circuits s c.backend c.times.health_read ≡ false)
  unfolding use_cache short_circuits
  use_cache-Online s c enabled request client (some raw, m) b h =
      let offline =
        answer-Offline (record s { cache = m }) hit false client (write c.client_out raw) in
      cc
  use_cache-Online s c enabled request client (none, m) b h =
      (refl, ask_backend-Online (record s { cache = m }) c enabled request client b h)

  -- What holds of the packet that was read if the handler asks the backend.
  abbrev pub Asks : Server → StatusCall → Result (Packet × Reader) → Type 0
  Asks s c (err e) = ⊥
  Asks s c (ok (request, _)) =
      ((request.id == status_request_packet_id) ≡ true)
      × ((read_cache json lower s c).0 ≡ none)
      × (short_circuits s c.backend c.times.health_read ≡ false)

  read_request-Online :
      (s : Server) (c : StatusCall) (read : Result (Packet × Reader)) (b : BackendEnd)
      → (read_request json lower s c read).backend_end ≡ some b
      → Asks s c read
  unfolding read_request
  read_request-Online s c (err e) b h = cc
  read_request-Online s c (ok (request, client)) b h =
      elim (Bool-cases (request.id == status_request_packet_id)) [
        | inl t ↦
            let (missed, healthy) =
              use_cache-Online s c (status_cache_enabled s c.backend) request client
                (read_cache json lower s c) b (rw t at h) in
            (t, missed, healthy)
        | inr f ↦ let stopped_run = rw f at h in cc
      ]

  -- The handler has a connection to the backend only if the client sent a status request, the cache
  -- had no fresh answer, and the backend is not one that the proxy answers for while it is unhealthy.
  pub handle_status-Asks :
      (s : Server) (c : StatusCall) (b : BackendEnd)
      → (handle_status json lower s c).backend_end ≡ some b
      → Asks s c (read_packet c.client s.options.max_handshake_size)
  unfolding handle_status
  handle_status-Asks s c b h =
      read_request-Online s c (read_packet c.client s.options.max_handshake_size) b h
