-- ===== src/Mcproto/VarInt/RoundTrip.antt =====
-- `read_var_int` on what `encode_var_int` wrote (internal/mcproto/varint.go).
use native.Mathlib.Nat.{div-add-mod}
use native.Mathlib.Numerals.{towards_suc}
use ciallo.Common.{
  ℕ, zero, suc, ◌+◌, ◌*◌, ◌/◌, ◌%◌, ◌^◌, ◌≤◌, ◌<◌, ◌≡◌, ap, ◌∙◌, Bytes, [], ◌∷◌, ◌++◌, append_assoc,
  append-nil, bit_and, bit_or, arith, ltb, ltb→lt, Bool-cases, inl, inr,
}
use ciallo.Common.Bits.{low_bits}
use ciallo.Common.BitOr.{bit_or_shifted}
use ciallo.Go.Errors.{Error, ok}
use ciallo.Mcproto.VarInt.{IsInt32, shifted, read_loop, read_var_int, encode_var_int}
use ciallo.Mcproto.VarInt.Encode.{groups, encode_var_int-groups}
use ciallo.Mcproto.VarInt.Decode.{marked_step, last_step}

-- The shift of the next byte.
shift_seven : (s : ℕ) → 2 ^ (s + 7) ≡ 128 * 2 ^ s
shift_seven s = simp towards_suc (omega arith)

pub next_shift : (n : ℕ) → 2 ^ (7 * (n + 1)) ≡ 128 * 2 ^ (7 * n)
next_shift n = let e : 7 * (n + 1) ≡ 7 * n + 7 = omega arith in rw e (shift_seven (7 * n))

-- `result |= value << (7 * numRead)` adds, where the value lies above the bits that were read.
add_group :
    (acc g n : ℕ)
    → acc < 2 ^ (7 * n)
    → acc + g * 2 ^ (7 * n) < 2 ^ 32
    → bit_or acc (shifted g n) ≡ acc + g * 2 ^ (7 * n)
add_group acc g n ha fits =
    let e : shifted g n ≡ g * 2 ^ (7 * n) = omega arith in rw e (bit_or_shifted (7 * n) acc g ha)

-- The lowest group of `v` and the rest of it, both in place.
split_group : (v n : ℕ) → v * 2 ^ (7 * n) ≡ v % 128 * 2 ^ (7 * n) + v / 128 * 2 ^ (7 * (n + 1))
split_group v n = omega (
  arith,
  ap (λ (t : ℕ). t * 2 ^ (7 * n)) (div-add-mod v 128),
  ap (λ (t : ℕ). v / 128 * t) (next_shift n),
)

-- A group of seven bits leaves the sum below the next shift.
pub below_next :
    (acc g n : ℕ) → acc < 2 ^ (7 * n) → g < 128 → acc + g * 2 ^ (7 * n) < 2 ^ (7 * (n + 1))
below_next acc g n ha hg = rw next_shift (grind arith)

module _ (acc n : ℕ) (raw rest : Bytes) (stop : Error) (hn : n < 5) (ha : acc < 2 ^ (7 * n)) where
  ends_here :
      (v : ℕ)
      → v < 128
      → acc + v * 2 ^ (7 * n) < 2 ^ 32
      → read_loop (v ∷ rest) stop n acc raw
        ≡ ok (acc + v * 2 ^ (7 * n), raw ++ (v ∷ []), record { pending = rest; stop = stop })
  ends_here v hv fits =
      let e : bit_and v 0x7f ≡ v = omega (arith, low_bits v (omega arith)) in
      last_step v rest stop n acc raw hv hn ∙ rw (e, add_group acc v n ha fits)

  goes_on :
      (g : ℕ)
      → g < 128
      → acc + g * 2 ^ (7 * n) < 2 ^ 32
      → read_loop ((g + 128) ∷ rest) stop n acc raw
        ≡ read_loop rest stop (n + 1) (acc + g * 2 ^ (7 * n)) (raw ++ ((g + 128) ∷ []))
  goes_on g hg fits =
      let e : bit_and (g + 128) 0x7f ≡ g = omega (arith, low_bits (g + 128) (omega arith)) in
      marked_step (g + 128) rest stop n acc raw (omega arith) hn ∙ rw (e, add_group acc g n ha fits)

-- The state of `read_loop` in the middle of a number: `v` is still to come.
read_loop-groups :
    (k v n acc : ℕ) (raw rest : Bytes) (stop : Error)
    → v < 128 ^ suc k
    → n + k ≤ 4
    → acc < 2 ^ (7 * n)
    → acc + v * 2 ^ (7 * n) < 2 ^ 32
    → read_loop (groups k v ++ rest) stop n acc raw
      ≡ ok (acc + v * 2 ^ (7 * n), raw ++ groups k v, record { pending = rest; stop = stop })
unfolding groups
read_loop-groups zero v n acc raw rest stop hv hn ha fits =
    ends_here acc n raw rest stop (omega arith) ha v (omega arith) fits
read_loop-groups (suc k) v n acc raw rest stop hv hn ha fits = elim (Bool-cases (ltb v 128)) [
  | inl small ↦
      rw small (ends_here acc n raw rest stop (omega arith) ha v (ltb→lt v 128 small) fits)
  | inr large ↦
      let byte : Bytes = (v % 128 + 128) ∷ [] in
      let more : Bytes = groups k (v / 128) in
      let acc' : ℕ = acc + v % 128 * 2 ^ (7 * n) in
      let split = split_group v n in
      let all : acc' + v / 128 * 2 ^ (7 * (n + 1)) ≡ acc + v * 2 ^ (7 * n) = omega arith in
      rw large (
        goes_on acc n raw (more ++ rest) stop (omega arith) ha (v % 128) (omega arith) (omega arith)
        ∙ read_loop-groups k (v / 128) (n + 1) acc' (raw ++ byte) rest stop (omega arith)
            (omega arith) (below_next acc (v % 128) n ha (omega arith)) (omega arith)
        ∙ rw (all, append_assoc raw byte more))
]

-- `ReadVarInt` reads back every int32 that `EncodeVarInt` wrote, from any reader that begins with
-- the encoding: it reports the bytes of the encoding and leaves all that follows.
pub read_var_int-encode :
    (v : ℕ) (rest : Bytes) (stop : Error)
    → IsInt32 v
    → read_var_int (record { pending = encode_var_int v ++ rest; stop = stop })
      ≡ ok (v, encode_var_int v, record { pending = rest; stop = stop })
unfolding read_var_int
read_var_int-encode v rest stop h =
    let e : 0 + v * 2 ^ (7 * 0) ≡ v = omega arith in
    rw (encode_var_int-groups v h) (
      read_loop-groups 4 v 0 0 [] rest stop (omega arith) (omega arith) (omega arith) (omega arith)
      ∙ rw e)

-- The same where nothing follows.
pub read_var_int-encode_last :
    (v : ℕ) (stop : Error)
    → IsInt32 v
    → read_var_int (record { pending = encode_var_int v; stop = stop })
      ≡ ok (v, encode_var_int v, record { pending = []; stop = stop })
read_var_int-encode_last v stop h = rw append-nil at (read_var_int-encode v [] stop h)
