-- ===== src/Go/Defaults.antt =====
-- Go's zero values: the tests `s == ""`, `n == 0` and `n <= 0`, and the assignments of a default
-- to a field that has its zero value.
use ciallo.Common.{Bytes, [], ◌∷◌, Bool, true, false, if◌then◌else◌, ltb}
use ciallo.Common.Int.{ℤ, pos, negsuc, leb_ℤ}

abbrev pub is_blank : Bytes → Bool
is_blank [] = true
is_blank (_ ∷ _) = false

-- `if s == "" { s = other }`
abbrev pub or_text : Bytes → Bytes → Bytes
or_text [] other = other
or_text (b ∷ bs) other = b ∷ bs

abbrev pub is_zero_int : ℤ → Bool
is_zero_int (pos n) = if ltb 0 n then false else true
is_zero_int (negsuc n) = false

-- `if x == 0 { x = d }`
abbrev pub default_if_zero : ℤ → ℤ → ℤ
default_if_zero x d = if is_zero_int x then d else x

-- `x <= 0`
abbrev pub is_not_positive : ℤ → Bool
is_not_positive x = leb_ℤ x (pos 0)
