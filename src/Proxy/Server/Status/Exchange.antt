-- ===== src/Proxy/Server/Status/Exchange.antt =====
-- A whole exchange that the cache answers.
use ciallo.Common.{
  ℕ, ◌+◌, ◌≡◌, ◌<◌, refl, ap, ◌∙◌, Bytes, [], ◌++◌, Bool, true, false, Option, none, some, arith,
  ◌==◌, bytes_eq, nat_eq, length, length-append, ℕ_discrete,
}
use ciallo.Common.Int.{ℤ, pos, ◌≤ℤ◌}
use ciallo.Go.Errors.{Error, Result, ok}
use ciallo.Go.Json.{Json}
use ciallo.Go.Reader.{Reader}
use ciallo.Go.Writer.{write, open_writer, write_open}
use ciallo.Mcproto.Packet.{Packet, read_packet, new_packet}
use ciallo.Mcproto.Packet.Read.{read_packet-new}
use ciallo.Mcproto.VarInt.{encode_var_int}
use ciallo.Mcproto.Status.{
  status_request_packet_id, status_ping_packet_id, status_pong_packet_id, build_pong, build_ping,
}
use ciallo.Cache.{Entries}
use ciallo.Proxy.Server.{Options, Server, hit, status_cache_enabled}
use ciallo.Proxy.Server.Status.{
  StatusCall, handle_cached_ping, use_cache, read_cache, read_request, handle_status,
}

-- A ping that follows an answer of the proxy's own is answered with its eight bytes.
one_byte : (id : ℕ) → id < 128 → length (encode_var_int id) ≡ 1
unfolding encode_var_int
one_byte id h = ground arith

-- A short packet keeps every limit of the handlers.
read_packet_small :
    (id : ℕ) (body rest : Bytes) (stop : Error) (max_len : ℤ)
    → id < 128
    → length body < 128
    → pos (1 + length body) ≤ℤ max_len
    → read_packet (record { pending = (new_packet id body).raw ++ rest; stop = stop }) max_len
      ≡ ok (new_packet id body, record { pending = rest; stop = stop })
read_packet_small id body rest stop max_len hid hbody fits =
    let size : length (new_packet id body).payload ≡ 1 + length body =
      unfold new_packet in omega (arith, length-append (encode_var_int id) body, one_byte id hid) in
    read_packet-new id body rest stop max_len (omega arith) (omega (arith, size))
      (omega (arith, size))

handle_cached_ping-ping :
    (o : Options) (v : ℕ) (rest sent : Bytes) (stop : Error)
    → pos 9 ≤ℤ o.max_handshake_size
    → let pong = new_packet status_pong_packet_id (build_ping v).body in
      handle_cached_ping o
        (record { pending = (build_ping v).raw ++ rest; stop = stop })
        (open_writer sent)
      ≡ record {
        handled = true;
        failure = none;
        client_out = open_writer (sent ++ pong.raw);
        backend_out = none;
      }
unfolding handle_cached_ping ℕ_discrete write
handle_cached_ping-ping o v rest sent stop fits =
    let body : Bytes = (build_ping v).body in
    let eight : length body ≡ 8 = unfold build_ping new_packet in refl in
    let ping : build_ping v ≡ new_packet status_ping_packet_id body =
      unfold build_ping new_packet in refl in
    let arrives =
      read_packet_small status_ping_packet_id body rest stop o.max_handshake_size (omega arith)
        (omega (arith, eight)) (omega (arith, eight)) in
    rw (ping, arrives) (unfold new_packet build_ping build_pong in refl)

module _ (json : Json) (lower : ℕ → ℕ) where
  use_cache-hit :
      (s : Server) (c : StatusCall) (enabled : Bool) (request : Packet) (m : Option Entries)
      (raw : Bytes) (v : ℕ) (rest sent : Bytes) (stop : Error)
      → c.client_out ≡ open_writer sent
      → pos 9 ≤ℤ s.options.max_handshake_size
      → let pong = new_packet status_pong_packet_id (build_ping v).body in
        use_cache json lower s c enabled request
          (record { pending = (build_ping v).raw ++ rest; stop = stop })
          (some raw, m)
        ≡ record {
          server = record s { cache = m };
          result = record { cache_result = hit; fallback_used = false; pong_handled = true };
          error = none;
          client_out = open_writer ((sent ++ raw) ++ pong.raw);
          backend_end = none;
        }
  unfolding use_cache
  use_cache-hit s c enabled request m raw v rest sent stop no_fault fits =
      rw
        (
          no_fault,
          write_open sent raw,
          handle_cached_ping-ping s.options v rest (sent ++ raw) stop fits,
        )
        refl

  pub read_request-accepts :
      (s : Server) (c : StatusCall) (request : Packet) (client : Reader)
      → (request.id == status_request_packet_id) ≡ true
      → read_request json lower s c (ok (request, client))
        ≡ use_cache json lower s c
            (status_cache_enabled s c.backend)
            request
            client
            (read_cache json lower s c)
  unfolding read_request
  read_request-accepts s c request client is_request = rw is_request refl

  -- A client that sends a status request and a ping while the cache holds a fresh answer receives that
  -- answer and the pong of its ping, byte for byte, and no backend is dialed.
  pub handle_status-hit :
      (s : Server) (c : StatusCall) (m : Option Entries) (raw : Bytes) (v : ℕ) (rest sent : Bytes)
      (stop : Error)
      → read_cache json lower s c ≡ (some raw, m)
      → c.client ≡ record {
        pending = (new_packet status_request_packet_id []).raw ++ ((build_ping v).raw ++ rest);
        stop = stop;
      }
      → c.client_out ≡ open_writer sent
      → pos 9 ≤ℤ s.options.max_handshake_size
      → handle_status json lower s c ≡ record {
        server = record s { cache = m };
        result = record { cache_result = hit; fallback_used = false; pong_handled = true };
        error = none;
        client_out =
            open_writer
              ((sent ++ raw) ++ (new_packet status_pong_packet_id (build_ping v).body).raw);
        backend_end = none;
      }
  unfolding handle_status
  handle_status-hit s c m raw v rest sent stop cached sends no_fault fits =
      let arrives =
        read_packet_small status_request_packet_id [] ((build_ping v).raw ++ rest) stop
          s.options.max_handshake_size (omega arith) (omega arith) (omega (arith, fits)) in
      let request : Packet = new_packet status_request_packet_id [] in
      let is_request : (request.id == status_request_packet_id) ≡ true =
        unfold new_packet ℕ_discrete in refl in
      let client : Reader = record { pending = (build_ping v).raw ++ rest; stop = stop } in
      let enabled = status_cache_enabled s c.backend in
      ap (λ (r : Reader). read_request json lower s c (read_packet r s.options.max_handshake_size))
        sends
      ∙ ap (λ (x : Result (Packet × Reader)). read_request json lower s c x) arrives
      ∙ read_request-accepts s c request client is_request
      ∙ ap
          (λ (x : Option Bytes × Option Entries). use_cache json lower s c enabled request client x)
          cached
      ∙ use_cache-hit s c enabled request m raw v rest sent stop no_fault fits
