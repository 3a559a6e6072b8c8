-- ===== src/Go/Text.antt =====
-- Text literals as bytes, and numbers in decimal.
use Prim.Native.Char.{code}
use Prim.Native.String.{String}
use mathlib.Core.WellFounded.{Acc}
use ciallo.Common.{
  ℕ, ◌+◌, ◌-◌, ◌/◌, ◌%◌, ◌^◌, ◌<◌, Bytes, [], ◌∷◌, ltb, if◌then◌else◌, dite, dec_lt, arith, Bool,
  true, ◌&&◌, ◌≡◌, refl,
}
use ciallo.Common.Order.{lt_wf}

-- The bytes of an ASCII literal. `String` has its own `[]` and `∷`.
abbrev pub codes : String → Bytes
codes String.[] = []
codes (String.◌∷◌ c s) = code c ∷ codes s

digit : ℕ → ℕ
digit d = if ltb d 10 then 48 + d else 87 + d

ten_shrinks : (n : ℕ) → 0 < n / 10 → n / 10 < n
ten_shrinks n h = omega arith

-- The decimal digits of `n`, in front of `out`.
decimal_onto : (n : ℕ) → Acc ◌<◌ n → Bytes → Bytes
unfolding digit
decimal_onto n (Acc.intro _ smaller) out =
    dite (dec_lt 0 (n / 10))
      (λ more. decimal_onto (n / 10) (smaller _ (ten_shrinks n more)) (digit (n % 10) ∷ out))
      (λ _. digit (n % 10) ∷ out)

-- `%d` of a number that is not negative.
pub decimal : ℕ → Bytes
unfolding decimal_onto ten_shrinks lt_wf dec_lt
decimal n = decimal_onto n (lt_wf.apply n) []

-- `%d` of an int32, by its bit pattern.
unfoldable pub decimal_int32 : ℕ → Bytes
unfolding decimal
decimal_int32 w = if ltb w (2 ^ 31) then decimal w else 45 ∷ decimal (2 ^ 32 - w)

-- Every byte is above a newline.
unfoldable pub is_line : Bytes → Bool
is_line [] = true
is_line (b ∷ bs) = ltb 10 b && is_line bs

dite-is_line :
    {P : Type 0} (d : Dec P) (x : P → Bytes) (y : ¬ P → Bytes)
    → ((p : P) → is_line (x p) ≡ true)
    → ((n : ¬ P) → is_line (y n) ≡ true)
    → is_line (dite d x y) ≡ true
dite-is_line (yes p) x y hx hy = hx p
dite-is_line (no n) x y hx hy = hy n

decimal_onto-is_line :
    (n : ℕ) (a : Acc ◌<◌ n) (out : Bytes)
    → is_line out ≡ true
    → is_line (decimal_onto n a out) ≡ true
unfolding decimal_onto
decimal_onto-is_line n (Acc.intro _ smaller) out h =
    let above : is_line (digit (n % 10) ∷ out) ≡ true = unfold digit is_line in ground (arith, h) in
    dite-is_line (dec_lt 0 (n / 10)) _ _
      (λ more.
        decimal_onto-is_line (n / 10) (smaller _ (ten_shrinks n more)) (digit (n % 10) ∷ out) above)
      (λ _. above)

pub decimal-is_line : (n : ℕ) → is_line (decimal n) ≡ true
unfolding decimal is_line
decimal-is_line n = decimal_onto-is_line n (lt_wf.apply n) [] refl
