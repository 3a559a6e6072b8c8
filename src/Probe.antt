-- ===== src/Probe.antt =====
-- internal/probe/probe.go, and `ProbeCheck` of internal/health/checker.go. The dial, the JSON decoder and
-- printer are inputs; the clock's part of a result is left out. A connection is a writer and a reader.
pub mod Description
pub mod Laws
pub mod Tests
use ciallo.Common.{
  ℕ, ◌+◌, ◌-◌, ◌*◌, ◌%◌, ◌^◌, ◌≡◌, Bytes, List, [], ◌∷◌, ◌++◌, Bool, true, false, if◌then◌else◌,
  Option, none, some, ◌==◌, nat_eq, length,
}
use ciallo.Common.Int.{ℤ, pos, negsuc}
use ciallo.Go.Defaults.{is_blank, or_text, default_if_zero}
use ciallo.Go.Errors.{
  Error, Result, ok, err, wrap, ◌>>=◌, host_required, connect_failed, write_handshake_failed,
  write_status_request_failed, parse_status_failed, read_status_response,
}
use ciallo.Go.Reader.{Reader}
use ciallo.Go.Writer.{Writer}
use ciallo.Go.Time.{Duration, second}
use ciallo.Go.HostPort.{join_host_port}
use ciallo.Go.Strings.{trim_space}
use ciallo.Go.Text.{decimal}
use ciallo.Mcproto.VarInt.{max_packet_length}
use ciallo.Mcproto.Packet.{Packet, read_packet, write_packet, new_packet}
use ciallo.Mcproto.Handshake.{build_handshake, next_state_status}
use ciallo.Mcproto.Status.{status_request_packet_id, parse_status_json}
use ciallo.Health as Health
use ciallo.Probe.Description.{Value, Fields, flatten}

-- The protocol version is the bit pattern of an int32.
abbrev pub default_protocol_version : ℕ
default_protocol_version = 772

pub record Options : Type 0 where
  pub addr : Bytes
  pub host : Bytes
  pub port : ℕ
  pub protocol_version : ℕ
  pub timeout : Duration
  pub max_response_size : ℤ

-- `Result`, without the time that the run took.
pub record Probed : Type 0 where
  pub addr : Bytes
  pub host : Bytes
  pub protocol : ℕ
  pub version : Option Fields
  pub players : Option Fields
  pub description : Bytes
  pub raw_json_length : ℕ

-- The struct into which the status is decoded.
pub record Root : Type 0 where
  pub version : Option Fields
  pub players : Option Fields
  pub description : Value

abbrev or_number : ℕ → ℕ → ℕ
or_number n d = if n == 0 then d else n

-- The defaults of `Run`.
pub with_defaults : Options → Options
with_defaults o = record o {
  port = or_number o.port 25565;
  protocol_version = or_number o.protocol_version default_protocol_version;
  timeout = default_if_zero o.timeout (pos (5 * second));
  addr = or_text o.addr (join_host_port o.host (decimal (or_number o.port 25565)));
  max_response_size = default_if_zero o.max_response_size (pos max_packet_length);
}

-- What a run returns, and the connection's end as it leaves it.
pub record Ran : Type 0 where
  pub result : Result Probed
  pub out : Option Writer

module _ (unmarshal : Bytes → Result Root) (marshal : Fields → Bytes) where
  -- `parseStatus`
  pub parse_status : Options → Bytes → Result Probed
  parse_status o raw = do
    root ← wrap parse_status_failed (unmarshal raw)
    ok (record {
      addr = o.addr;
      host = o.host;
      protocol = o.protocol_version;
      version = root.version;
      players = root.players;
      description = flatten marshal root.description;
      raw_json_length = length raw;
    })

  pub read_answer : Options → Reader → Result Probed
  read_answer o r = do
    (response, _) ← wrap read_status_response (read_packet r o.max_response_size)
    status_json ← parse_status_json response
    parse_status o status_json

  abbrev after_request : Options → Reader → Option Error × Writer → Ran
  after_request o r (some e, w) = record {
    result = err (write_status_request_failed e);
    out = some w;
  }
  after_request o r (none, w) = record { result = read_answer o r; out = some w }

  abbrev after_handshake : Options → Reader → Option Error × Writer → Ran
  after_handshake o r (some e, w) = record { result = err (write_handshake_failed e); out = some w }
  after_handshake o r (none, w) =
      after_request o r (write_packet w (new_packet status_request_packet_id []))

  abbrev talk : Options → Result (Writer × Reader) → Ran
  talk o (err e) = record { result = err (connect_failed e); out = none }
  talk o (ok (w, r)) =
      after_handshake o r
        (write_packet w (build_handshake o.protocol_version o.host o.port next_state_status))

  -- `Run`; the dial is a function of the address.
  unfoldable pub run : Options → (Bytes → Result (Writer × Reader)) → Ran
  run options dial =
      let o = with_defaults options in
      if is_blank (trim_space options.host)
      then record { result = err host_required; out = none }
      else talk o (dial o.addr)

  abbrev error_of : Result Probed → Option Error
  error_of (ok _) = none
  error_of (err e) = some e

  -- The bits of an int32.
  abbrev int32_bits : ℤ → ℕ
  int32_bits (pos n) = n % 2 ^ 32
  int32_bits (negsuc n) = 2 ^ 32 - 1 - n % 2 ^ 32

  -- `ProbeCheck` of internal/health/checker.go: the check of a backend is a run against it.
  pub probe_check :
      (Bytes → Result (Writer × Reader)) → Health.BackendTarget → Health.Options → Option Error
  probe_check dial target o =
      error_of
        (run
          (record {
            addr = target.backend.addr;
            host = target.probe_host;
            port = 25565;
            protocol_version = int32_bits o.probe_protocol;
            timeout = o.timeout;
            max_response_size = pos 0;
          })
          dial).result
