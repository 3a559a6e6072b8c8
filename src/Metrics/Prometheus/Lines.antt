-- ===== src/Metrics/Prometheus/Lines.antt =====
-- Lines of the text that internal/metrics/metrics.go writes: how they are cut at the newlines, and how
-- one is put together.
use ciallo.Common.{
  ℕ, ◌≡◌, refl, ap, ◌∙◌, Bytes, List, [], ◌∷◌, ◌++◌, append_assoc, true, if◌then◌else◌, ◌==◌,
  nat_eq, arith, All,
}
use ciallo.Go.Strings.Laws.{all_graphic}
use ciallo.Go.Text.{decimal, is_line, decimal-is_line}
use ciallo.Metrics.Labels.{
  sanitize_label_value, all_label, all_label-graphic, sanitize_label_value-Labels,
}
use ciallo.Metrics.Prometheus.{label, join_lines}

pub record Line (s : Bytes) : Type 0 where
  pub plain : is_line s ≡ true

-- A byte in front of the first line.
abbrev onto_first : ℕ → List Bytes → List Bytes
onto_first b [] = (b ∷ []) ∷ []
onto_first b (l ∷ ls) = (b ∷ l) ∷ ls

-- The lines of a text, each of which a newline ends.
pub split_lines : Bytes → List Bytes
split_lines [] = []
split_lines (b ∷ bs) =
    let rest = split_lines bs in if b == b'\n' then [] ∷ rest else onto_first b rest

-- A literal, whose bytes are looked at by evaluation.
pub literal : (s : Bytes) → is_line s ≡ true → Line s
literal s h = record { plain = h }

tail_Line : (b : ℕ) (s : Bytes) → Line (b ∷ s) → Line s
unfolding is_line
tail_Line b s h = let e = h.plain in record { plain = ground arith }

split-Line : (l rest : Bytes) → Line l → split_lines (l ++ b'\n' ∷ rest) ≡ l ∷ split_lines rest
unfolding split_lines is_line
split-Line [] rest h = ground arith
split-Line (b ∷ l) rest h =
    let e = h.plain in let ih = split-Line l rest (tail_Line b l h) in ground arith

pub split_lines-join :
    (ls : List Bytes) (l : Bytes)
    → Line l
    → All Line ls
    → split_lines (join_lines (l ∷ ls) ++ b'\n' ∷ []) ≡ l ∷ ls
unfolding join_lines split_lines
split_lines-join [] l h hs = split-Line l [] h
split_lines-join (m ∷ ms) l h (hm, hs) =
    rw (append_assoc l (b'\n' ∷ join_lines (m ∷ ms)) (b'\n' ∷ []))
      (split-Line l _ h ∙ ap (◌∷◌ l) (split_lines-join ms m hm hs))

piece : (s t : Bytes) → Line s → Line t → Line (s ++ t)
unfolding is_line
piece [] t h k = k
piece (b ∷ s) t h k =
    let e = h.plain in
    let rest = (piece s t (tail_Line b s h) k).plain in record { plain = ground arith }

graphic_plain : (s : Bytes) → all_graphic s ≡ true → is_line s ≡ true
unfolding all_graphic is_line
graphic_plain [] h = refl
graphic_plain (b ∷ bs) h = ground (arith, graphic_plain bs)

all_label-Line : (s : Bytes) → all_label s ≡ true → Line s
all_label-Line s h = record { plain = graphic_plain s (all_label-graphic s h) }

quoted-Line : (s : Bytes) → Line s → Line (b'"' ∷ (s ++ b'"' ∷ []))
unfolding is_line
quoted-Line s h = piece (b'"' ∷ []) _ (literal _ refl) (piece s (b'"' ∷ []) h (literal _ refl))

pub label-Line : (value : Bytes) → Line (label value)
label-Line value =
    let (l, q, _) = sanitize_label_value-Labels value in
    rw q (quoted-Line (sanitize_label_value value) (all_label-Line _ l.plain))

-- A line from the left to the right: a literal, a label or a number behind what has been written.
module _ {acc : Bytes} (h : Line acc) where
  pub lit : (text : Bytes) → is_line text ≡ true → Line (acc ++ text)
  lit text k = piece acc text h (literal text k)

  pub lab : (value : Bytes) → Line (acc ++ label value)
  lab value = piece acc (label value) h (label-Line value)

  pub num : (n : ℕ) → Line (acc ++ decimal n)
  num n = piece acc (decimal n) h (literal (decimal n) (decimal-is_line n))
