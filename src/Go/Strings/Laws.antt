-- ===== src/Go/Strings/Laws.antt =====
-- `strings.TrimSpace` on texts of printable ASCII without a space.
use mathlib.Core.List.{reverse, reverse-cons, reverse-reverse}
use ciallo.Common.{
  ℕ, zero, suc, ◌≡◌, refl, ap, ◌∙◌, Bytes, [], ◌∷◌, ◌++◌, Bool, true, ◌&&◌, leb, length, arith,
  nat_eq,
}
use ciallo.Go.Strings.{
  trim_space, drop_spaces, space_width, space_width_back, is_space, is_space2, is_space3,
}

-- From `!` to `~`.
abbrev pub is_graphic : ℕ → Bool
is_graphic b = leb 33 b && leb b 126

unfoldable pub all_graphic : Bytes → Bool
all_graphic [] = true
all_graphic (b ∷ bs) = is_graphic b && all_graphic bs

all_graphic-append : (s t : Bytes) → all_graphic (s ++ t) ≡ (all_graphic s && all_graphic t)
unfolding all_graphic
all_graphic-append [] t = refl
all_graphic-append (b ∷ s) t = ground (arith, all_graphic-append s t)

all_graphic-reverse : (s : Bytes) → all_graphic s ≡ true → all_graphic (reverse s) ≡ true
unfolding all_graphic
all_graphic-reverse [] h = refl
all_graphic-reverse (b ∷ s) h =
    ap all_graphic (reverse-cons b s)
    ∙ ground (arith, all_graphic-append (reverse s) (b ∷ []), all_graphic-reverse s)

space_width-graphic : (s : Bytes) → all_graphic s ≡ true → space_width s ≡ 0
unfolding space_width is_space is_space2 is_space3 all_graphic
space_width-graphic [] h = refl
space_width-graphic (a ∷ []) h = ground arith
space_width-graphic (a ∷ b ∷ []) h = ground arith
space_width-graphic (a ∷ b ∷ c ∷ _) h = ground arith

space_width_back-graphic : (s : Bytes) → all_graphic s ≡ true → space_width_back s ≡ 0
unfolding space_width_back is_space is_space2 is_space3 all_graphic
space_width_back-graphic [] h = refl
space_width_back-graphic (a ∷ []) h = ground arith
space_width_back-graphic (a ∷ b ∷ []) h = ground arith
space_width_back-graphic (a ∷ b ∷ c ∷ _) h = ground arith

drop_spaces-none : (width : Bytes → ℕ) (n : ℕ) (s : Bytes) → width s ≡ 0 → drop_spaces width n s ≡ s
unfolding drop_spaces
drop_spaces-none width zero s h = refl
drop_spaces-none width (suc n) s h = rw h refl

pub trim_space-graphic : (s : Bytes) → all_graphic s ≡ true → trim_space s ≡ s
unfolding trim_space
trim_space-graphic s h =
    let back = all_graphic-reverse s h in
    rw
      (
        drop_spaces-none space_width (length s) s (space_width-graphic s h),
        drop_spaces-none space_width_back (length s) (reverse s)
            (space_width_back-graphic (reverse s) back),
      )
      (reverse-reverse s)
