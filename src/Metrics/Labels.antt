-- ===== src/Metrics/Labels.antt =====
-- `sanitizeLabelValue` of internal/metrics/metrics.go, and `%q` of what it returns.
use ciallo.Common.{
  ℕ, zero, suc, ◌≤◌, ◌≡◌, refl, Bytes, [], ◌∷◌, ◌++◌, Bool, true, false, ◌&&◌, ◌||◌, if◌then◌else◌,
  ltb, leb, ◌==◌, nat_eq, length, take, arith, Bool-cases, inl, inr, ℕ_discrete, length-take,
}
use ciallo.Go.Defaults.{is_blank}
use ciallo.Go.Strings.{trim_space}
use ciallo.Go.Strings.Laws.{all_graphic, trim_space-graphic}
use ciallo.Go.Text.{codes}

-- `[A-Za-z0-9_.:/@-]`
pub is_label_byte : ℕ → Bool
is_label_byte b =
    (leb b'A' b && leb b b'Z')
    || (leb b'a' b && leb b b'z')
    || (leb b'0' b && leb b b'9')
    || (b == b'_' || b == b'.' || b == b':' || b == b'/' || b == b'@' || b == b'-')

-- `labelCleaner.ReplaceAllString(value, "_")`, where every run of other bytes becomes one `_`. A
-- character beyond ASCII is a run of such bytes. The flag is set inside a run.
pub clean_label : Bool → Bytes → Bytes
clean_label in_run [] = []
clean_label in_run (b ∷ bs) =
    let same = clean_label false bs in
    let replaced = clean_label true bs in
    if is_label_byte b then b ∷ same else (if in_run then replaced else b'_' ∷ replaced)

abbrev cut_label : Bytes → Bytes
cut_label value = if ltb 160 (length value) then take 160 value else value

-- `sanitizeLabelValue`
pub sanitize_label_value : Bytes → Bytes
sanitize_label_value value =
    let trimmed = trim_space value in
    if is_blank trimmed then codes "unknown" else cut_label (clean_label false trimmed)

-- `%q` of printable ASCII.
escape : Bytes → Bytes
escape [] = []
escape (b ∷ bs) =
    let rest = escape bs in if b == b'"' || b == b'\\' then b'\\' ∷ b ∷ rest else b ∷ rest

unfoldable pub quote : Bytes → Bytes
unfolding escape
quote s = b'"' ∷ (escape s ++ (b'"' ∷ []))

pub all_label : Bytes → Bool
unfolding is_label_byte
all_label [] = true
all_label (b ∷ bs) = is_label_byte b && all_label bs

clean_label-all_label : (r : Bool) (s : Bytes) → all_label (clean_label r s) ≡ true
unfolding clean_label is_label_byte all_label ℕ_discrete
clean_label-all_label r [] = refl
clean_label-all_label r (b ∷ bs) =
    let same = clean_label-all_label false bs in
    let replaced = clean_label-all_label true bs in
    elim (Bool-cases (is_label_byte b)) [
      | inl label ↦ rw label (rw label same)
      | inr other ↦ rw other (elim (Bool-cases r) [
        | inl inside ↦ rw inside replaced
        | inr outside ↦ rw outside replaced
      ])
    ]

clean_label-filled : (s : Bytes) → is_blank s ≡ false → is_blank (clean_label false s) ≡ false
unfolding clean_label
clean_label-filled [] h = cc
clean_label-filled (b ∷ bs) h = ground arith

-- Nothing is left to replace.
clean_label-clean : (s : Bytes) → all_label s ≡ true → clean_label false s ≡ s
unfolding clean_label all_label
clean_label-clean [] h = refl
clean_label-clean (b ∷ bs) h = ground (arith, clean_label-clean bs)

take-all_label : (n : ℕ) (s : Bytes) → all_label s ≡ true → all_label (take n s) ≡ true
unfolding all_label
take-all_label zero s h = refl
take-all_label (suc n) [] h = refl
take-all_label (suc n) (b ∷ bs) h = ground (arith, take-all_label n bs)

escape-all_label : (s : Bytes) → all_label s ≡ true → escape s ≡ s
unfolding escape all_label is_label_byte
escape-all_label [] h = refl
escape-all_label (b ∷ bs) h = ground (arith, escape-all_label bs)

pub all_label-graphic : (s : Bytes) → all_label s ≡ true → all_graphic s ≡ true
unfolding all_label is_label_byte all_graphic
all_label-graphic [] h = refl
all_label-graphic (b ∷ bs) h = ground (arith, all_label-graphic bs)

-- What a label may be.
pub record IsLabel (s : Bytes) : Type 0 where
  pub plain : all_label s ≡ true
  pub filled : is_blank s ≡ false
  pub short : length s ≤ 160

cut_label-IsLabel : (s : Bytes) → all_label s ≡ true → is_blank s ≡ false → IsLabel (cut_label s)
cut_label-IsLabel [] p f = cc
cut_label-IsLabel (b ∷ bs) p f = elim (Bool-cases (ltb 160 (length (b ∷ bs)))) [
  | inl long ↦ rw long (record {
    plain = take-all_label 160 (b ∷ bs) p;
    filled = refl;
    short = omega (arith, length-take 160 (b ∷ bs));
  })
  | inr short ↦ rw short (record { plain = p; filled = f; short = ground arith })
]

pub sanitize_label_value-IsLabel : (value : Bytes) → IsLabel (sanitize_label_value value)
unfolding sanitize_label_value
sanitize_label_value-IsLabel value =
    let trimmed = trim_space value in
    elim (Bool-cases (is_blank trimmed)) [
      | inl blank ↦ rw blank (record {
        plain = unfold all_label is_label_byte in refl;
        filled = refl;
        short = omega arith;
      })
      | inr filled ↦ rw filled (
          cut_label-IsLabel (clean_label false trimmed) (clean_label-all_label false trimmed)
            (clean_label-filled trimmed filled))
    ]

sanitize-IsLabel : (s : Bytes) → IsLabel s → sanitize_label_value s ≡ s
unfolding sanitize_label_value
sanitize-IsLabel s l =
    let not_long : ltb 160 (length s) ≡ false = let e = l.short in ground arith in
    rw
      (
        trim_space-graphic s (all_label-graphic s l.plain),
        l.filled,
        clean_label-clean s l.plain,
        not_long,
      )
      refl

-- A label's value is not empty, has at most 160 bytes, and all of them are letters, digits and
-- `_.:/@-`, whatever the text was; so `%q` only puts quotes around it; and sanitizing it once more
-- changes nothing.
pub sanitize_label_value-Labels :
    (value : Bytes)
    → let s = sanitize_label_value value in
      IsLabel s × (quote s ≡ b'"' ∷ (s ++ b'"' ∷ [])) × (sanitize_label_value s ≡ s)
unfolding quote
sanitize_label_value-Labels value =
    let s = sanitize_label_value value in
    let l = sanitize_label_value-IsLabel value in
    (l, rw (escape-all_label s l.plain) refl, sanitize-IsLabel s l)
