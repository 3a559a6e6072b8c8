-- ===== src/Mcproto/Packet/Read.antt =====
-- Reading packets of internal/mcproto/packet.go: any input, and what `new_packet` makes.
use ciallo.Common.{
  ℕ, ◌+◌, ◌≤◌, ◌<◌, ◌^◌, ◌≡◌, ap, ◌∙◌, Bytes, ◌++◌, append_assoc, length, length-append,
  drop-length, arith,
}
use ciallo.Common.Int.{ℤ, pos, ◌≤ℤ◌}
use ciallo.Go.Errors.{
  Error, ok, wrap, read_packet_id, wrap-eq-ok, Ensures, Ensures-ok, Ensures-bind, returns, eof,
}
use ciallo.Go.Reader.{Reader, bytes_reader, read_full, read_full-append, read_full-cut}
use ciallo.Mcproto.VarInt.{IsInt32, read_var_int, encode_var_int, check_packet_length}
use ciallo.Mcproto.VarInt.Decode.{read_var_int-Takes}
use ciallo.Mcproto.VarInt.RoundTrip.{read_var_int-encode}
use ciallo.Mcproto.Packet.{Packet, read_packet, new_packet, to_int32, cut_packet}

-- A length that fits both an int32 and the limit passes.
pub check_packet_length-ok :
    (len : ℕ) (max_len : ℤ)
    → len < 2 ^ 31
    → pos len ≤ℤ max_len
    → check_packet_length len max_len ≡ ok tt
unfolding check_packet_length
check_packet_length-ok len max_len h k = ground arith

check_packet_length-inv :
    (len : ℕ) (max_len : ℤ)
    → check_packet_length len max_len ≡ ok tt
    → (len < 2 ^ 31) × (pos len ≤ℤ max_len)
unfolding check_packet_length
check_packet_length-inv len max_len e = ground arith

pub cut_packet-append :
    (len_raw id_raw body : Bytes) (id : ℕ)
    → cut_packet len_raw (id_raw ++ body) id id_raw
      ≡ ok (record {
        id = id;
        body = body;
        payload = id_raw ++ body;
        raw = len_raw ++ (id_raw ++ body);
      })
cut_packet-append len_raw id_raw body id =
    ground (arith, length-append id_raw body, drop-length id_raw body)

-- `ReadPacket` reads back what `NewPacket` built, and leaves what follows it in the stream,
-- where the payload fits an int32 and the limit.
pub read_packet-new :
    (id : ℕ) (body rest : Bytes) (stop : Error) (max_len : ℤ)
    → IsInt32 id
    → length (new_packet id body).payload < 2 ^ 31
    → pos (length (new_packet id body).payload) ≤ℤ max_len
    → read_packet (record { pending = (new_packet id body).raw ++ rest; stop = stop }) max_len
      ≡ ok (new_packet id body, record { pending = rest; stop = stop })
unfolding read_packet new_packet
read_packet-new id body rest stop max_len hid small fits =
    let payload : Bytes = encode_var_int id ++ body in
    let e : to_int32 (length payload) ≡ length payload = omega arith in
    rw (
      e,
      append_assoc (encode_var_int (length payload)) payload rest,
      read_var_int-encode (length payload) (payload ++ rest) stop (omega arith),
      check_packet_length-ok (length payload) max_len small fits,
      read_full-append payload rest stop,
      read_var_int-encode id body eof hid,
      cut_packet-append (encode_var_int (length payload)) (encode_var_int id) body id,
    )

-- What a packet that was read says of the input.
pub record Packs (r : Reader) (max_len : ℤ) (p : Packet) (r' : Reader) : Type 0 where
  pub cut : p.raw ++ r'.pending ≡ r.pending
  pub same_stop : r'.stop ≡ r.stop
  pub id_in_range : IsInt32 p.id
  pub within : pos (length p.payload) ≤ℤ max_len
  pub header : length p.raw ≤ length p.payload + 5
  pub some_id : length p.body < length p.payload

-- The packet's own parts.
cut_packet-parts :
    (len_raw payload id_raw tail : Bytes) (id : ℕ) (p : Packet)
    → id_raw ++ tail ≡ payload
    → cut_packet len_raw payload id id_raw ≡ ok p
    → (p.id ≡ id) × (p.payload ≡ payload) × (p.raw ≡ len_raw ++ payload) × (p.body ≡ tail)
cut_packet-parts len_raw payload id_raw tail id p e h = ground (arith, drop-length id_raw tail)

module _ (r : Reader) (max_len : ℤ) (len : ℕ) (len_raw : Bytes) (r1 : Reader) (payload : Bytes)
    (r2 : Reader) (id : ℕ) (id_raw : Bytes) (r3 : Reader) (p : Packet)
    (e1 : read_var_int r ≡ ok (len, len_raw, r1)) (e2 : check_packet_length len max_len ≡ ok tt)
    (e3 : read_full len r1 ≡ ok (payload, r2))
    (e4 : read_var_int (bytes_reader payload) ≡ ok (id, id_raw, r3))
    (e5 : cut_packet len_raw payload id id_raw ≡ ok p) where
  read_steps-Packs : Packs r max_len p r2
  read_steps-Packs =
      let t = read_var_int-Takes r len len_raw r1 e1 in
      let (fits, within) = check_packet_length-inv len max_len e2 in
      let (whole, size, stop) = read_full-cut len r1 payload r2 e3 in
      let u = read_var_int-Takes (bytes_reader payload) id id_raw r3 e4 in
      let (id', payload', raw', body') =
        cut_packet-parts len_raw payload id_raw r3.pending id p u.cut e5 in
      record {
        cut = rw (raw', append_assoc len_raw payload r2.pending, whole) t.cut;
        same_stop = stop ∙ t.same_stop;
        id_in_range = rw id' u.in_range;
        within = rw (payload', size) within;
        header = rw (raw', payload') (omega (arith, length-append len_raw payload, t.few_bytes));
        some_id =
            rw (payload', body')
              (omega (arith, u.some_byte, ap length u.cut, length-append id_raw r3.pending));
      }

-- A successful `ReadPacket` consumes exactly the bytes that `Raw` then holds, so that replaying
-- `Raw` replays the input; the payload lies within the limit and holds the id, and the packet is at
-- most five bytes longer than its payload.
pub read_packet-Packs :
    (r : Reader) (max_len : ℤ) (p : Packet) (r' : Reader)
    → read_packet r max_len ≡ ok (p, r')
    → Packs r max_len p r'
read_packet-Packs r max_len p r' e = Ensures-ok {P = λ t. Packs r max_len t.0 t.1} (steps) e
  where
    steps : Ensures (λ t. Packs r max_len t.0 t.1) (read_packet r max_len)
    steps =
        unfold read_packet in
        Ensures-bind (read_var_int r) _ λ (len, len_raw, r1) e1.
          Ensures-bind (check_packet_length len max_len) _ λ _ e2.
            Ensures-bind (read_full len r1) _ λ (payload, r2) e3.
              Ensures-bind (wrap read_packet_id (read_var_int (bytes_reader payload))) _
                λ (id, id_raw, r3) e4. Ensures-bind (cut_packet len_raw payload id id_raw) _ λ q e5.
                  returns (
                    read_steps-Packs r max_len len len_raw r1 payload r2 id id_raw r3 q e1 e2 e3
                      (wrap-eq-ok read_packet_id (read_var_int (bytes_reader payload)) e4) e5)
