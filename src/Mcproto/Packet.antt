-- ===== src/Mcproto/Packet.antt =====
-- internal/mcproto/packet.go
pub mod Read
pub mod Write
use ciallo.Common.{
  ℕ, ◌%◌, ◌^◌, Bytes, [], ◌∷◌, ◌++◌, ltb, if◌then◌else◌, length, drop, Option, none, some, Bool,
  true, false,
}
use ciallo.Common.Int.{ℤ}
use ciallo.Go.Errors.{Error, Result, ok, err, ◌>>=◌, ◌>>◌, wrap, read_packet_id, unexpected_eof}
use ciallo.Go.Reader.{Reader, bytes_reader, read_full}
use ciallo.Go.Writer.{Writer, write}
use ciallo.Mcproto.VarInt.{read_var_int, encode_var_int, check_packet_length}

-- Go's `Data` is `body` here.
pub record Packet : Type 0 where
  pub id : ℕ
  pub body : Bytes
  pub payload : Bytes
  pub raw : Bytes

-- `int32(n)` of a length.
abbrev pub to_int32 : ℕ → ℕ
to_int32 n = n % 2 ^ 32

-- The packet of a payload, past the bytes of its id.
abbrev pub cut_packet : Bytes → Bytes → ℕ → Bytes → Result Packet
cut_packet len_raw payload id id_raw =
    if ltb (length payload) (length id_raw)
    then err unexpected_eof
    else ok (record {
      id = id;
      body = drop (length id_raw) payload;
      payload = payload;
      raw = len_raw ++ payload;
    })

-- `ReadPacket`, and the reader behind the packet. No caller reads on after an error.
unfoldable pub read_packet : Reader → ℤ → Result (Packet × Reader)
read_packet r max_len = do
  (len, len_raw, r1) ← read_var_int r
  check_packet_length len max_len
  (payload, r2) ← read_full len r1
  (id, id_raw, _) ← wrap read_packet_id (read_var_int (bytes_reader payload))
  p ← cut_packet len_raw payload id id_raw
  ok (p, r2)

unfoldable pub new_packet : ℕ → Bytes → Packet
new_packet id body =
    let payload = encode_var_int id ++ body in
    record {
      id = id;
      body = body;
      payload = payload;
      raw = encode_var_int (to_int32 (length payload)) ++ payload;
    }

abbrev is_empty : Bytes → Bool
is_empty [] = true
is_empty (_ ∷ _) = false

-- The payload that `WritePacket` frames, where the packet has no raw form.
abbrev pub framed_payload : Packet → Bytes
framed_payload p = if is_empty p.payload then encode_var_int p.id ++ p.body else p.payload

-- The second write happens only after the first.
abbrev pub and_write : Option Error × Writer → Bytes → Option Error × Writer
and_write (none, w) b = write w b
and_write (some e, w) b = (some e, w)

pub write_packet : Writer → Packet → Option Error × Writer
write_packet w p =
    if is_empty p.raw
    then (let payload = framed_payload p in
        and_write (write w (encode_var_int (to_int32 (length payload)))) payload)
    else write w p.raw
