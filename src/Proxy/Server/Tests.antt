-- ===== src/Proxy/Server/Tests.antt =====
-- Status exchanges: an answer of the backend, the same answer out of the cache, and an outage.
use ciallo.Common.{
  ◌≡◌, refl, [], ◌∷◌, ◌++◌, arith, true, false, ℕ_discrete, Option, none, some, bytes_eq, nat_eq,
  ==-refl,
}
use ciallo.Common.Int.{pos, ◌+ℤ◌}
use ciallo.Common.Dict.{lookup}
use ciallo.Go.Errors.{ok, eof}
use ciallo.Go.Reader.{read_full}
use ciallo.Go.Text.{codes}
use ciallo.Go.Writer.{Writer, open_writer}
use ciallo.Mcproto.VarInt.{read_var_int, check_packet_length}
use ciallo.Mcproto.Packet.{Packet, read_packet, new_packet}
use ciallo.Mcproto.Status.{status_request_packet_id, status_pong_packet_id, build_ping}
use ciallo.Cache.{Entry, get_fresh}
use ciallo.Health.{Entry as HealthEntry, Checker, new_entry}
use ciallo.Health.Runs.{Failures, fail_calls}
use ciallo.Proxy.Server.{Server, BackendEnd, CacheResult, hit}
use ciallo.Proxy.Server.Status.{
  StatusCall, read_cache, read_request, use_cache, ask_backend, dial_status, take_response,
  proxy_status_ping, handle_status, key_of,
}
use ciallo.Proxy.Server.Status.Laws.{Asks, handle_status-Asks}
use ciallo.Proxy.Server.Status.Repeats.{handle_status-repeats}
use ciallo.Proxy.Server.Status.Outage.{outage_shields}
use ciallo.Proxy.Tests.{
  no_table, json, backend, server, status_times, reader, handshake, handshake_packet,
}

abbrev request : Packet
request = record { id = 0; body = []; payload = 0 ∷ []; raw = 1 ∷ 0 ∷ [] }

abbrev response : Packet
response = record {
  id = 0;
  body = 1 ∷ 120 ∷ [];
  payload = 0 ∷ 1 ∷ 120 ∷ [];
  raw = 3 ∷ 0 ∷ 1 ∷ 120 ∷ [];
}

-- A client that only asks.
abbrev first : StatusCall
first = record {
  backend = backend;
  handshake = handshake;
  handshake_packet = handshake_packet;
  client = reader request.raw;
  client_out = open_writer [];
  dialed = ok (record { answers = reader response.raw; out = open_writer [] });
  times = status_times;
}

-- One that asks and pings.
abbrev second : StatusCall
second = record first {
  client = reader ((new_packet status_request_packet_id []).raw ++ ((build_ping 77).raw ++ []));
}

request_reads : read_packet first.client (pos 65536) ≡ ok (request, reader [])
unfolding read_packet read_var_int check_packet_length read_full ℕ_discrete
request_reads = refl

response_reads : read_packet (reader response.raw) (pos 262144) ≡ ok (response, reader [])
unfolding read_packet read_var_int check_packet_length read_full ℕ_discrete
response_reads = refl

cache_misses : read_cache json no_table server first ≡ (none, some [])
unfolding read_cache get_fresh lookup ciallo.Cache.finish_get_fresh
    ciallo.Proxy.Server.status_cache_enabled
cache_misses = refl

handle_status-repeats_example :
    let s = (handle_status json no_table server first).server in
    handle_status json no_table s second ≡ record {
      server = s;
      result = record { cache_result = hit; fallback_used = false; pong_handled = true };
      error = none;
      client_out =
          open_writer
            (([] ++ response.raw) ++ (new_packet status_pong_packet_id (build_ping 77).body).raw);
      backend_end = none;
    }
unfolding ciallo.Proxy.Server.status_cache_enabled ciallo.Proxy.Server.short_circuits ℕ_discrete
    ◌+ℤ◌
handle_status-repeats_example =
    handle_status-repeats json no_table server first second [] request response (reader [])
      (reader response.raw) (reader []) [] [] [] 77 eof request_reads refl refl cache_misses refl
      refl response_reads refl refl refl (omega arith) (omega arith) refl refl refl (omega arith)

-- The cache with an answer that is fresh until 200.
abbrev fresh : Entry
fresh = record { response = response.raw; motd = []; fresh_until = pos 200; stale_until = pos 200 }

abbrev cached : Server
cached = record server { cache = some ((key_of json no_table second, fresh) ∷ []) }

cache_hits : read_cache json no_table cached second ≡ (some response.raw, cached.cache)
unfolding read_cache get_fresh lookup ciallo.Cache.finish_get_fresh
    ciallo.Proxy.Server.status_cache_enabled
cache_hits = rw (==-refl (key_of json no_table second)) refl

-- A server whose checker has seen two failed checks in a row, with a threshold of two.
abbrev entry : HealthEntry
entry = new_entry (record { backend = backend; probe_host = [] })

abbrev checker : Checker
checker = record {
  options = record {
    enabled = true;
    interval = pos 10;
    timeout = pos 3;
    failure_threshold = pos 2;
    success_threshold = pos 1;
    probe_protocol = pos 772;
    probe_host = [];
    circuit_breaker_ttl = pos 30;
  };
  entries = (codes "b:1", entry) ∷ [];
}

abbrev two_failures : Failures
two_failures = (some eof, (pos 1, pos 2)) ∷ (some eof, (pos 11, pos 12)) ∷ []

abbrev down : Server
down = record server { health = some (fail_calls (codes "b:1") two_failures checker) }

outage_shields_example : (handle_status json no_table down first).backend_end ≡ none
unfolding lookup ℕ_discrete bytes_eq
outage_shields_example =
    outage_shields json no_table down first entry two_failures checker refl refl refl refl refl refl
      (omega arith) (omega arith)

-- The same exchange as the first of `handle_status-repeats`, up to the dial.
abbrev online : Option BackendEnd
online = (handle_status json no_table server first).backend_end

first_dials :
    online
    ≡ some (record { out = open_writer (handshake_packet.raw ++ request.raw); closed = true })
unfolding handle_status read_request use_cache ask_backend dial_status take_response
    proxy_status_ping ciallo.Go.Writer.write read_cache get_fresh lookup
    ciallo.Cache.finish_get_fresh ciallo.Proxy.Server.status_cache_enabled
    ciallo.Proxy.Server.short_circuits read_packet read_var_int check_packet_length read_full
    ℕ_discrete
first_dials = refl

handle_status-Asks_example : Asks json no_table server first (read_packet first.client (pos 65536))
handle_status-Asks_example =
    handle_status-Asks json no_table server first
      (record { out = open_writer (handshake_packet.raw ++ request.raw); closed = true })
      first_dials
