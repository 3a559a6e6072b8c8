-- ===== src/Go/Utf8.antt =====
-- `unicode/utf8` and `range` over a string.
use ciallo.Common.{
  ℕ, zero, suc, ◌+◌, ◌*◌, ◌/◌, ◌%◌, Bytes, List, [], ◌∷◌, Bool, true, false, ◌&&◌, ltb, leb,
  if◌then◌else◌, length, drop, nat_eq,
}

abbrev pub rune_error : ℕ
rune_error = 0xfffd

-- One decoded rune: its code point and width, and whether the bytes were a valid encoding.
pub record Rune : Type 0 where
  pub point : ℕ
  pub width : ℕ
  pub valid : Bool

invalid_byte : Rune
invalid_byte = record { point = rune_error; width = 1; valid = false }

in_range : ℕ → ℕ → ℕ → Bool
in_range lo hi b = leb lo b && leb b hi

two_bytes : ℕ → Bytes → Rune
unfolding invalid_byte in_range
two_bytes b0 [] = invalid_byte
two_bytes b0 (b1 ∷ _) =
    if in_range 0x80 0xbf b1
    then record { point = b0 % 32 * 64 + b1 % 64; width = 2; valid = true }
    else invalid_byte

-- The second byte of a three-byte form is narrowed, against overlong forms and surrogates.
three_bytes : ℕ → Bytes → Rune
unfolding invalid_byte in_range
three_bytes b0 (b1 ∷ b2 ∷ _) =
    let lo = if ltb b0 0xe1 then 0xa0 else 0x80 in
    let hi = if leb 0xed b0 && leb b0 0xed then 0x9f else 0xbf in
    if in_range lo hi b1 && in_range 0x80 0xbf b2
    then record { point = b0 % 16 * 4096 + b1 % 64 * 64 + b2 % 64; width = 3; valid = true }
    else invalid_byte
three_bytes b0 _ = invalid_byte

four_bytes : ℕ → Bytes → Rune
unfolding invalid_byte in_range
four_bytes b0 (b1 ∷ b2 ∷ b3 ∷ _) =
    let lo = if ltb b0 0xf1 then 0x90 else 0x80 in
    let hi = if ltb 0xf3 b0 then 0x8f else 0xbf in
    if in_range lo hi b1 && in_range 0x80 0xbf b2 && in_range 0x80 0xbf b3
    then record {
      point = b0 % 8 * 262144 + b1 % 64 * 4096 + b2 % 64 * 64 + b3 % 64;
      width = 4;
      valid = true;
    }
    else invalid_byte
four_bytes b0 _ = invalid_byte

-- `utf8.DecodeRune` on the bytes `b0 ∷ bs`.
unfoldable pub decode_rune : ℕ → Bytes → Rune
unfolding invalid_byte two_bytes three_bytes four_bytes
decode_rune b0 bs =
    if ltb b0 0x80
    then record { point = b0; width = 1; valid = true }
    else (if ltb b0 0xc2
        then invalid_byte
        else (if ltb b0 0xe0
            then two_bytes b0 bs
            else (if ltb b0 0xf0
                then three_bytes b0 bs
                else (if ltb b0 0xf5 then four_bytes b0 bs else invalid_byte))))

-- The runes of a string, with fuel for the number of runes; each takes a byte at least.
runes_fuel : ℕ → Bytes → List Rune
unfolding decode_rune
runes_fuel zero bs = []
runes_fuel (suc n) [] = []
runes_fuel (suc n) (b ∷ bs) = let r = decode_rune b bs in r ∷ runes_fuel n (drop r.width (b ∷ bs))

-- `for _, r := range s`
unfoldable pub runes : Bytes → List Rune
unfolding runes_fuel
runes s = runes_fuel (length s) s

all_valid : List Rune → Bool
all_valid [] = true
all_valid (r ∷ rs) = r.valid && all_valid rs

-- `utf8.Valid`
unfoldable pub is_valid : Bytes → Bool
unfolding runes all_valid
is_valid s = all_valid (runes s)

-- `utf8.AppendRune`
unfoldable pub encode_rune : ℕ → Bytes
encode_rune r =
    if ltb r 0x80
    then r ∷ []
    else (if ltb r 0x800
        then (0xc0 + r / 64) ∷ (0x80 + r % 64) ∷ []
        else (if ltb r 0x10000
            then (if leb 0xd800 r && leb r 0xdfff
                then 0xef ∷ 0xbf ∷ 0xbd ∷ []
                else (0xe0 + r / 4096) ∷ (0x80 + r / 64 % 64) ∷ (0x80 + r % 64) ∷ [])
            else (if ltb 0x10ffff r
                then 0xef ∷ 0xbf ∷ 0xbd ∷ []
                else (0xf0 + r / 262144)
                  ∷ (0x80 + r / 4096 % 64)
                  ∷ (0x80 + r / 64 % 64)
                  ∷ (0x80 + r % 64)
                  ∷ [])))
