-- ===== src/Proxy/Server/Status/Repeats.antt =====
-- An exchange that the backend answers, and the same answer out of the cache after it.
use ciallo.Common.{
  ℕ, ◌≡◌, refl, sym, ap, subst, ◌∙◌, Bytes, [], ◌++◌, Bool, true, false, Option, none, some, ◌==◌,
  bytes_eq, nat_eq,
}
use ciallo.Common.Int.{pos, ◌<ℤ◌, ◌≤ℤ◌}
use ciallo.Go.Errors.{Error, Result, ok}
use ciallo.Go.Json.{Json}
use ciallo.Go.Reader.{Reader}
use ciallo.Go.Time.{add}
use ciallo.Go.Writer.{open_writer, write_open}
use ciallo.Mcproto.Packet.{Packet, read_packet, new_packet}
use ciallo.Mcproto.Status.{
  status_request_packet_id, status_response_packet_id, status_pong_packet_id, build_ping,
}
use ciallo.Cache.{Entries}
use ciallo.Cache.Laws.{get_fresh-set}
use ciallo.Proxy.Types.{Backend}
use ciallo.Proxy.Server.{Server, hit, short_circuits, status_cache_enabled, motd_fallback_ttl}
use ciallo.Proxy.Server.Status.{
  StatusCall, StatusRun, BackendConn, proxy_status_ping, answered, dial_status, take_response,
  ask_backend, use_cache, read_cache, read_request, handle_status, key_of, stored, health_success,
  cache_state,
}
use ciallo.Proxy.Server.Status.Exchange.{read_request-accepts, handle_status-hit}

module _ (json : Json) (lower : ℕ → ℕ) where
  -- A backend's answer, from the read of the response on.
  dial_status-responds :
      (s : Server) (c : StatusCall) (enabled : Bool) (request response : Packet)
      (client answers answers' : Reader) (sent : Bytes)
      → read_packet answers s.options.max_status_response_size ≡ ok (response, answers')
      → (response.id == status_response_packet_id) ≡ true
      → c.client_out ≡ open_writer sent
      → let forwarded : Bytes = c.handshake_packet.raw ++ request.raw in
        dial_status json lower s c enabled request client
          (ok (record { answers = answers; out = open_writer [] }))
        ≡ answered
            (stored json lower (health_success s c.backend.addr c.times) c enabled response.raw)
            (cache_state enabled)
            false
            (some (record { out = open_writer forwarded; closed = true }))
            (proxy_status_ping s.options client
              (open_writer (sent ++ response.raw))
              answers'
              (open_writer forwarded))
  unfolding dial_status take_response
  dial_status-responds s c enabled request response client answers answers' sent reply id no_fault =
      rw
        (
          write_open [] c.handshake_packet.raw,
          write_open c.handshake_packet.raw request.raw,
          reply,
          id,
          no_fault,
          write_open sent response.raw,
        )
        refl

  ask_backend-dials :
      (s : Server) (c : StatusCall) (enabled : Bool) (request : Packet) (client : Reader)
      → short_circuits s c.backend c.times.health_read ≡ false
      → ask_backend json lower s c enabled request client
        ≡ dial_status json lower s c enabled request client c.dialed
  unfolding ask_backend
  ask_backend-dials s c enabled request client healthy = rw healthy refl

  -- The server that an answered request leaves.
  abbrev pub after_answer : Server → StatusCall → Entries → Bytes → Server
  after_answer s c m raw =
      stored json lower (health_success (record s { cache = some m }) c.backend.addr c.times) c true
        raw

  pub handle_status-stores :
      (s : Server) (c : StatusCall) (m : Entries) (request response : Packet)
      (client answers answers' : Reader) (sent : Bytes)
      → read_packet c.client s.options.max_handshake_size ≡ ok (request, client)
      → (request.id == status_request_packet_id) ≡ true
      → status_cache_enabled s c.backend ≡ true
      → read_cache json lower s c ≡ (none, some m)
      → short_circuits s c.backend c.times.health_read ≡ false
      → c.dialed ≡ ok (record { answers = answers; out = open_writer [] })
      → read_packet answers s.options.max_status_response_size ≡ ok (response, answers')
      → (response.id == status_response_packet_id) ≡ true
      → c.client_out ≡ open_writer sent
      → (handle_status json lower s c).server ≡ after_answer s c m response.raw
  unfolding handle_status use_cache short_circuits
  handle_status-stores s c m request response client answers answers' sent read id on missed healthy
        dialed reply id' no_fault =
      let s1 : Server = record s { cache = some m } in
      let run1 =
        ap (λ (x : Result (Packet × Reader)). read_request json lower s c x) read
        ∙ read_request-accepts json lower s c request client id
        ∙ ap
            (λ (x : Option Bytes × Option Entries).
              use_cache json lower s c (status_cache_enabled s c.backend) request client x)
            missed
        ∙ ask_backend-dials s1 c (status_cache_enabled s c.backend) request client healthy
        ∙ ap
            (λ (d : Result BackendConn).
              dial_status json lower s1 c (status_cache_enabled s c.backend) request client d)
            dialed
        ∙ dial_status-responds s1 c (status_cache_enabled s c.backend) request response client
            answers answers' sent reply id' no_fault in
      ap (λ (run : StatusRun). run.server) run1
      ∙ ap
          (λ (enabled : Bool).
            stored json lower (health_success s1 c.backend.addr c.times) c enabled response.raw)
          on

  after_answer-hits :
      (s : Server) (c c' : StatusCall) (m : Entries) (raw : Bytes)
      → status_cache_enabled s c.backend ≡ true
      → key_of json lower c' ≡ key_of json lower c
      → pos 0 <ℤ s.options.status_cache_ttl
      → c'.times.cache_read <ℤ add c.times.cache_write s.options.status_cache_ttl
      → c'.backend ≡ c.backend
      → let s' = after_answer s c m raw in read_cache json lower s' c' ≡ (some raw, s'.cache)
  unfolding read_cache status_cache_enabled motd_fallback_ttl
  after_answer-hits s c c' m raw on same ttl soon backend =
      let hits =
        get_fresh-set json m (key_of json lower c) raw s.options.status_cache_ttl
          (motd_fallback_ttl s) c.times.cache_write ttl c'.times.cache_read c'.times.cache_evict
          soon in
      let on' : status_cache_enabled s c'.backend ≡ true =
        ap (λ (b : Backend). status_cache_enabled s b) backend ∙ on in
      rw (on', same, hits) refl

  -- One answer of the backend serves the clients after it: a request that misses and that the backend
  -- answers stores the answer, so a second client of the same key that sends a request and a ping before
  -- the TTL is over receives the same bytes from the cache, with its own pong and without a dial.
  pub handle_status-repeats :
      (s : Server) (c c' : StatusCall) (m : Entries) (request response : Packet)
      (client answers answers' : Reader) (sent rest sent' : Bytes) (v : ℕ) (stop : Error)
      → read_packet c.client s.options.max_handshake_size ≡ ok (request, client)
      → (request.id == status_request_packet_id) ≡ true
      → status_cache_enabled s c.backend ≡ true
      → read_cache json lower s c ≡ (none, some m)
      → short_circuits s c.backend c.times.health_read ≡ false
      → c.dialed ≡ ok (record { answers = answers; out = open_writer [] })
      → read_packet answers s.options.max_status_response_size ≡ ok (response, answers')
      → (response.id == status_response_packet_id) ≡ true
      → c.client_out ≡ open_writer sent
      → key_of json lower c' ≡ key_of json lower c
      → pos 0 <ℤ s.options.status_cache_ttl
      → c'.times.cache_read <ℤ add c.times.cache_write s.options.status_cache_ttl
      → c'.backend ≡ c.backend
      → c'.client ≡ record {
        pending = (new_packet status_request_packet_id []).raw ++ ((build_ping v).raw ++ rest);
        stop = stop;
      }
      → c'.client_out ≡ open_writer sent'
      → pos 9 ≤ℤ s.options.max_handshake_size
      → let s' = (handle_status json lower s c).server in
        handle_status json lower s' c' ≡ record {
          server = s';
          result = record { cache_result = hit; fallback_used = false; pong_handled = true };
          error = none;
          client_out = open_writer (
              (sent' ++ response.raw)
              ++ (new_packet status_pong_packet_id (build_ping v).body).raw);
          backend_end = none;
        }
  handle_status-repeats s c c' m request response client answers answers' sent rest sent' v stop
        read id on missed healthy dialed reply id' no_fault same ttl soon backend sends no_fault'
        fits =
      let stored_run =
        handle_status-stores s c m request response client answers answers' sent read id on missed
          healthy dialed reply id' no_fault in
      let s' = after_answer s c m response.raw in
      subst
        (λ (x : Server). handle_status json lower x c' ≡ record {
          server = x;
          result = record { cache_result = hit; fallback_used = false; pong_handled = true };
          error = none;
          client_out = open_writer (
              (sent' ++ response.raw)
              ++ (new_packet status_pong_packet_id (build_ping v).body).raw);
          backend_end = none;
        })
        (sym stored_run)
        (handle_status-hit json lower s' c' s'.cache response.raw v rest sent' stop
          (after_answer-hits s c c' m response.raw on same ttl soon backend) sends no_fault' fits)
