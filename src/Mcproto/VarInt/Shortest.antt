-- ===== src/Mcproto/VarInt/Shortest.antt =====
-- The length of `encode_var_int` against other forms of a number (internal/mcproto/varint.go).
use native.Mathlib.Nat.{pow-suc}
use ciallo.Common.{
  ℕ, zero, suc, ◌+◌, ◌-◌, ◌*◌, ◌%◌, ◌^◌, ◌≤◌, ◌<◌, ◌≡◌, refl, Bytes, [], ◌∷◌, ◌++◌, length,
  length-append, bit_and, bit_or, arith,
}
use ciallo.Common.Bits.{low_bits}
use ciallo.Common.BitOr.{bit_or-lt}
use ciallo.Go.Errors.{Error, ok}
use ciallo.Go.Reader.{Reader}
use ciallo.Mcproto.VarInt.{IsByte, shifted, read_loop, read_var_int, var_int_size}
use ciallo.Mcproto.VarInt.Encode.{encode_var_int-groups, length-groups-le}
use ciallo.Mcproto.VarInt.Decode.{read_var_int-Takes}
use ciallo.Mcproto.VarInt.RoundTrip.{next_shift, below_next}
use ciallo.Common.{All}

seven_bits : (j : ℕ) → 2 ^ (7 * j) ≡ 128 ^ j
seven_bits zero = refl
seven_bits (suc j) =
    let e : 7 * suc j ≡ 7 * (j + 1) = omega arith in
    rw e (omega (arith, next_shift j, seven_bits j, pow-suc 128 j))

merged_below :
    (acc b n : ℕ)
    → b < 256
    → acc < 2 ^ (7 * n)
    → bit_or acc (shifted (bit_and b 0x7f) n) < 2 ^ (7 * (n + 1))
merged_below acc b n hb ha =
    let below = below_next acc (b % 128) n ha (omega arith) in
    rw (low_bits b hb)
      (bit_or-lt (7 * (n + 1)) acc (shifted (b % 128) n) (omega arith) (omega arith))

-- After `n` bytes at most 7 * n bits are set.
read_loop-below :
    (bs : Bytes) (stop : Error) (n acc : ℕ) (raw : Bytes) (v : ℕ) (raw' : Bytes) (r : Reader)
    → All IsByte bs
    → length raw ≡ n
    → acc < 2 ^ (7 * n)
    → read_loop bs stop n acc raw ≡ ok (v, raw', r)
    → v < 2 ^ (7 * length raw')
unfolding read_loop
read_loop-below [] stop n acc raw v raw' r hb hn ha e = cc
read_loop-below (b ∷ bs) stop n acc raw v raw' r (hb, hbs) hn ha e =
    let acc' : ℕ = bit_or acc (shifted (bit_and b 0x7f) n) in
    let len : length (raw ++ (b ∷ [])) ≡ n + 1 = omega (arith, length-append raw (b ∷ [])) in
    ground (
      arith,
      len,
      merged_below acc b n hb ha,
      read_loop-below bs stop (n + 1) acc' (raw ++ (b ∷ [])) v raw' r hbs len,
    )

-- `VarIntSize` is least: whatever bytes `ReadVarInt` took for a number, the encoding that
-- `EncodeVarInt` writes for that number is no longer.
pub var_int_size_least :
    (r : Reader) (v : ℕ) (raw : Bytes) (r' : Reader)
    → All IsByte r.pending
    → read_var_int r ≡ ok (v, raw, r')
    → var_int_size v ≤ length raw
unfolding var_int_size
var_int_size_least r v raw r' hb e =
    let t = read_var_int-Takes r v raw r' e in
    let below : v < 2 ^ (7 * length raw) =
      unfold read_var_int in
      read_loop-below r.pending r.stop 0 0 [] v raw r' hb refl (omega arith) e in
    let j : ℕ = length raw - 1 in
    let len : length raw ≡ suc j = omega (arith, t.some_byte) in
    let fits : v < 128 ^ suc j = rw (len, seven_bits (suc j)) at below in
    rw (encode_var_int-groups v t.in_range, len) (length-groups-le 4 j v fits)
