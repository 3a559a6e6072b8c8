-- ===== src/Mcproto/VarInt.antt =====
-- internal/mcproto/varint.go. An int32 is its bit pattern, a number below 2 ^ 32.
pub mod Encode
pub mod Decode
pub mod RoundTrip
pub mod Shortest
use mathlib.Core.WellFounded.{Acc}
use ciallo.Common.{
  ℕ, ◌+◌, ◌-◌, ◌*◌, ◌/◌, ◌%◌, ◌^◌, ◌<◌, Bytes, [], ◌∷◌, ◌++◌, ltb, leb, if◌then◌else◌, ◌==◌, nat_eq,
  length, dite, dec_lt, bit_and, bit_or, arith, Bool,
}
use ciallo.Common.Int.{ℤ, pos, ltb_ℤ}
use ciallo.Common.Order.{lt_wf}
use ciallo.Go.Errors.{
  Error, Result, ok, err, varint_too_long, negative_packet_length, packet_too_long,
}
use ciallo.Go.Reader.{Reader}

abbrev pub max_var_int_bytes : ℕ
max_var_int_bytes = 5

abbrev pub max_packet_length : ℕ
max_packet_length = 2 ^ 21 - 1

abbrev pub IsByte : ℕ → Type 0
IsByte b = b < 256

abbrev pub IsInt32 : ℕ → Type 0
IsInt32 v = v < 2 ^ 32

-- `v < 0` of an int32.
abbrev pub is_negative : ℕ → Bool
is_negative v = leb (2 ^ 31) v

-- `value << (7 * numRead)` of an int32; from the sixth byte on every bit is shifted out.
abbrev pub shifted : ℕ → ℕ → ℕ
shifted value num_read = value * 2 ^ (7 * num_read) % 2 ^ 32

-- The loop of `ReadVarInt` on the bytes that the reader still delivers. `io.ReadFull` of one byte
-- gives the reader's own error when none is left.
pub read_loop : Bytes → Error → ℕ → ℕ → Bytes → Result (ℕ × Bytes × Reader)
read_loop [] stop num_read result raw = err stop
read_loop (b ∷ rest) stop num_read result raw =
    let result' = bit_or result (shifted (bit_and b 0x7f) num_read) in
    let raw' = raw ++ (b ∷ []) in
    let more = read_loop rest stop (num_read + 1) result' raw' in
    if ltb max_var_int_bytes (num_read + 1)
    then err varint_too_long
    else (if bit_and b 0x80 == 0
        then ok (result', raw', record { pending = rest; stop = stop })
        else more)

-- The value, the bytes that were read, and the reader behind them.
unfoldable pub read_var_int : Reader → Result (ℕ × Bytes × Reader)
unfolding read_loop
read_var_int r = read_loop r.pending r.stop 0 0 []

group_shrinks : (u : ℕ) → 0 < u / 128 * 128 → u / 128 < u
group_shrinks u h = omega arith

-- `u &^ 0x7F` is `u / 128 * 128`; the loop goes on while that is not 0.
pub encode_loop : (u : ℕ) → Acc ◌<◌ u → Bytes → Bytes
encode_loop u (Acc.intro _ smaller) out =
    dite (dec_lt 0 (u / 128 * 128))
      (λ more.
        encode_loop (u / 128) (smaller _ (group_shrinks u more))
          (out ++ (bit_or (u % 128) 0x80 ∷ [])))
      (λ _. out ++ (u % 256 ∷ []))

unfoldable pub encode_var_int : ℕ → Bytes
unfolding encode_loop group_shrinks lt_wf dec_lt
encode_var_int value = encode_loop value (lt_wf.apply value) []

pub var_int_size : ℕ → ℕ
var_int_size value = length (encode_var_int value)

-- `CheckPacketLength`; `maxLen` is an int and may be negative.
unfoldable pub check_packet_length : ℕ → ℤ → Result (Unit {0})
check_packet_length len max_len =
    if is_negative len
    then err (negative_packet_length len)
    else (if ltb_ℤ max_len (pos len) then err (packet_too_long len max_len) else ok tt)
