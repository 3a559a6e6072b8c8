-- ===== src/Mcproto/Packet/Write.antt =====
-- Writing packets of internal/mcproto/packet.go.
use ciallo.Common.{
  ℕ, ◌≤◌, ◌≡◌, refl, Bytes, [], ◌∷◌, ◌++◌, append_assoc, length, length-append, arith, take, none,
  some, Option, List, false,
}
use ciallo.Go.Errors.{Error}
use ciallo.Go.Writer.{write, open_writer, write_open}
use ciallo.Mcproto.VarInt.{IsInt32, encode_var_int}
use ciallo.Mcproto.VarInt.Encode.{encode_var_int-groups, groups, length-groups}
use ciallo.Mcproto.Packet.{new_packet, write_packet, to_int32, is_empty}

some_byte-is_empty : (b : Bytes) → 1 ≤ length b → is_empty b ≡ false
some_byte-is_empty [] h = absurd (omega arith)
some_byte-is_empty (x ∷ b) h = refl

encode_var_int-is_empty :
    (v : ℕ) (rest : Bytes) → IsInt32 v → is_empty (encode_var_int v ++ rest) ≡ false
encode_var_int-is_empty v rest h = rw (encode_var_int-groups v h) (
    some_byte-is_empty (groups 4 v ++ rest)
      (omega (arith, length-append (groups 4 v) rest, length-groups 4 v)))

-- `WritePacket` sends the same bytes for a packet that `NewPacket` built and for one that has only
-- its id and data: the raw form, behind what was sent before.
pub write_packet-new :
    (sent : Bytes) (id : ℕ) (body : Bytes)
    → IsInt32 id
    → (write_packet (open_writer sent) (new_packet id body)
        ≡ (none, open_writer (sent ++ (new_packet id body).raw)))
      × (write_packet (open_writer sent) (record { id = id; body = body; payload = []; raw = [] })
          ≡ (none, open_writer (sent ++ (new_packet id body).raw)))
unfolding write_packet new_packet
write_packet-new sent id body h =
    let payload : Bytes = encode_var_int id ++ body in
    let header : Bytes = encode_var_int (to_int32 (length payload)) in
    (
      rw (
        encode_var_int-is_empty (to_int32 (length payload)) payload (omega arith),
        write_open sent (header ++ payload),
      ),
      rw (
        write_open sent header,
        write_open (sent ++ header) payload,
        append_assoc sent header payload,
      ),
    )

-- A failed write ends `WritePacket` with its error: of a packet without a raw form nothing more
-- is sent than the part of the length that went out.
pub write_packet_fault :
    (sent : Bytes) (n : ℕ) (e : Error) (faults : List (Option (ℕ × Error))) (id : ℕ) (body : Bytes)
    → let payload : Bytes = encode_var_int id ++ body in
      write_packet
        (record { sent = sent; faults = some (n, e) ∷ faults })
        (record { id = id; body = body; payload = []; raw = [] })
      ≡ (
        some e,
        record {
          sent = sent ++ take n (encode_var_int (to_int32 (length payload)));
          faults = faults;
        },
      )
unfolding write_packet write
write_packet_fault sent n e faults id body = refl
