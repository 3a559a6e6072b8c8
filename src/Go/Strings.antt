-- ===== src/Go/Strings.antt =====
-- `strings`, on Go's strings as bytes. The table behind `unicode.ToLower` is no part of the
-- program: it is the parameter `lower`, a map of the code points from 0x80 on.
pub mod Laws
use mathlib.Core.List.{map, reverse, flat_map}
use ciallo.Common.{
  ℕ, zero, suc, ◌+◌, ◌-◌, Bytes, [], ◌∷◌, Bool, true, false, ◌&&◌, ◌||◌, ltb, leb, if◌then◌else◌,
  length, take, drop, ◌==◌, nat_eq, Option, none, some,
}
use ciallo.Go.Utf8.{runes, encode_rune}

-- `unicode.IsSpace` below 0x80.
is_space : ℕ → Bool
is_space b = (leb 9 b && leb b 13) || (leb 32 b && leb b 32)

-- The spaces of two and three bytes: U+0085, U+00A0, U+1680, U+2000 to U+200A, U+2028, U+2029,
-- U+202F, U+205F and U+3000.
is_space2 : ℕ → ℕ → Bool
is_space2 b0 b1 = b0 == 0xc2 && (b1 == 0x85 || b1 == 0xa0)

is_space3 : ℕ → ℕ → ℕ → Bool
is_space3 b0 b1 b2 =
    (b0 == 0xe1 && b1 == 0x9a && b2 == 0x80)
    || (b0 == 0xe2 && b1 == 0x80 && (leb 0x80 b2 && leb b2 0x8a))
    || (b0 == 0xe2 && b1 == 0x80 && (b2 == 0xa8 || b2 == 0xa9 || b2 == 0xaf))
    || (b0 == 0xe2 && b1 == 0x81 && b2 == 0x9f)
    || (b0 == 0xe3 && b1 == 0x80 && b2 == 0x80)

-- The width of the space that a string begins with, or 0.
space_width : Bytes → ℕ
unfolding is_space is_space2 is_space3
space_width [] = 0
space_width (a ∷ []) = if is_space a then 1 else 0
space_width (a ∷ b ∷ []) = if is_space a then 1 else (if is_space2 a b then 2 else 0)
space_width (a ∷ b ∷ c ∷ _) =
    if is_space a then 1 else (if is_space2 a b then 2 else (if is_space3 a b c then 3 else 0))

-- The same at the end of a string, which is given reversed.
space_width_back : Bytes → ℕ
unfolding is_space is_space2 is_space3
space_width_back [] = 0
space_width_back (a ∷ []) = if is_space a then 1 else 0
space_width_back (a ∷ b ∷ []) = if is_space a then 1 else (if is_space2 b a then 2 else 0)
space_width_back (a ∷ b ∷ c ∷ _) =
    if is_space a then 1 else (if is_space2 b a then 2 else (if is_space3 c b a then 3 else 0))

-- Drops while the width is positive; every round drops a byte, so the length is fuel enough.
drop_spaces : (Bytes → ℕ) → ℕ → Bytes → Bytes
drop_spaces width zero s = s
drop_spaces width (suc n) s =
    let rest = drop_spaces width n (drop (width s) s) in if ltb 0 (width s) then rest else s

-- `strings.TrimSpace`
unfoldable pub trim_space : Bytes → Bytes
unfolding drop_spaces space_width space_width_back
trim_space s =
    let left = drop_spaces space_width (length s) s in
    reverse (drop_spaces space_width_back (length left) (reverse left))

abbrev pub lower_ascii : ℕ → ℕ
lower_ascii b = if leb 65 b && leb b 90 then b + 32 else b

is_ascii : Bytes → Bool
is_ascii [] = true
is_ascii (b ∷ bs) = ltb b 0x80 && is_ascii bs

-- `strings.ToLower`
unfoldable pub to_lower : (ℕ → ℕ) → Bytes → Bytes
unfolding is_ascii
to_lower lower s =
    let lower_rune = λ (r : ℕ). if ltb r 0x80 then lower_ascii r else lower r in
    if is_ascii s
    then map lower_ascii s
    else flat_map (λ r. encode_rune (lower_rune r.point)) (runes s)

-- `strings.IndexByte` and `strings.LastIndexByte`; `none` is -1.
unfoldable pub index_byte : Bytes → ℕ → Option ℕ
index_byte [] c = none
index_byte (b ∷ bs) c =
    let rest = index_byte bs c in
    if b == c then some 0 else elim rest [ none ↦ none | some i ↦ some (suc i) ]

unfoldable pub last_index_byte : Bytes → ℕ → Option ℕ
last_index_byte [] c = none
last_index_byte (b ∷ bs) c = elim (last_index_byte bs c) [
  | some i ↦ some (suc i)
  | none ↦ if b == c then some 0 else none
]

-- `strings.HasPrefix`
unfoldable pub has_prefix : Bytes → Bytes → Bool
has_prefix s [] = true
has_prefix [] (_ ∷ _) = false
has_prefix (b ∷ bs) (p ∷ ps) = b == p && has_prefix bs ps

unfoldable pub has_suffix : Bytes → Bytes → Bool
unfolding has_prefix
has_suffix s p = has_prefix (reverse s) (reverse p)

unfoldable pub trim_prefix : Bytes → Bytes → Bytes
unfolding has_prefix
trim_prefix s p = if has_prefix s p then drop (length p) s else s

unfoldable pub trim_suffix : Bytes → Bytes → Bytes
unfolding has_suffix
trim_suffix s p = if has_suffix s p then take (length s - length p) s else s

-- `strings.Contains`
unfoldable pub contains : Bytes → Bytes → Bool
unfolding has_prefix
contains [] p = has_prefix [] p
contains (b ∷ bs) p = has_prefix (b ∷ bs) p || contains bs p
