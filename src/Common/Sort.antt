-- ===== src/Common/Sort.antt =====
-- `sort.Slice` as an insertion sort, by any order; and the order of Go's strings. The order of
-- elements that the comparison does not tell apart is left open by Go.
use Prim.Native.Nat.{ℕ, ◌+◌}
use mathlib.Core.Path.{◌≡◌, refl}
use mathlib.Core.Logic.{inl, inr}
use mathlib.Core.Bool.{Bool, true, false, ◌&&◌, ◌||◌}
use mathlib.Core.List.{List, [], ◌∷◌}
use native.Mathlib.Omega.{arith}
use ciallo.Common.Tests.{if◌then◌else◌, ltb, Bool-cases}
use ciallo.Common.Equality.{Bytes, ◌==◌, nat_eq}

-- `<` of strings.
unfoldable pub bytes_less : Bytes → Bytes → Bool
bytes_less [] [] = false
bytes_less [] (_ ∷ _) = true
bytes_less (_ ∷ _) [] = false
bytes_less (x ∷ xs) (y ∷ ys) = let rest = bytes_less xs ys in ltb x y || (x == y && rest)

pub bytes_less-asymmetric : (s t : Bytes) → bytes_less s t ≡ true → bytes_less t s ≡ false
unfolding bytes_less
bytes_less-asymmetric [] [] h = refl
bytes_less-asymmetric [] (_ ∷ _) h = refl
bytes_less-asymmetric (_ ∷ _) [] h = cc
bytes_less-asymmetric (x ∷ xs) (y ∷ ys) h = ground (arith, bytes_less-asymmetric xs ys)

module _ {ℓ} {A : Type ℓ} (less : A → A → Bool) where
  insert_by : A → List A → List A
  insert_by x [] = x ∷ []
  insert_by x (y ∷ ys) = let rest = insert_by x ys in if less y x then y ∷ rest else x ∷ y ∷ ys

  pub sort_by : List A → List A
  unfolding insert_by
  sort_by [] = []
  sort_by (x ∷ xs) = insert_by x (sort_by xs)

module _ {ℓ} {A : Type ℓ} where
  -- The sum of a measure over a list; with a measure into 0 and 1, how many elements pass a test.
  unfoldable pub sum_of : (A → ℕ) → List A → ℕ
  sum_of f [] = 0
  sum_of f (x ∷ xs) = f x + sum_of f xs

  sum_of-insert_by :
      (less : A → A → Bool) (f : A → ℕ) (x : A) (xs : List A)
      → sum_of f (insert_by less x xs) ≡ f x + sum_of f xs
  unfolding insert_by sum_of
  sum_of-insert_by less f x [] = refl
  sum_of-insert_by less f x (y ∷ ys) = ground (arith, sum_of-insert_by less f x ys)

  -- Sorting changes no sum, so no element is lost or doubled.
  pub sum_of-sort_by :
      (less : A → A → Bool) (f : A → ℕ) (xs : List A) → sum_of f (sort_by less xs) ≡ sum_of f xs
  unfolding sort_by sum_of
  sum_of-sort_by less f [] = refl
  sum_of-sort_by less f (x ∷ xs) =
      omega (arith, sum_of-insert_by less f x (sort_by less xs), sum_of-sort_by less f xs)

  -- No element is less than the one before it.
  unfoldable pub IsSorted : (A → A → Bool) → List A → Type 0
  IsSorted less [] = Unit
  IsSorted less (x ∷ []) = Unit
  IsSorted less (x ∷ y ∷ ys) = (less y x ≡ false) × IsSorted less (y ∷ ys)

  IsSorted-insert_after :
      (less : A → A → Bool) (y x : A) (ys : List A)
      → less y x ≡ true
      → less x y ≡ false
      → IsSorted less (y ∷ ys)
      → IsSorted less (insert_by less x ys)
      → IsSorted less (y ∷ insert_by less x ys)
  unfolding IsSorted insert_by
  IsSorted-insert_after less y x [] h k s t = (k, tt)
  IsSorted-insert_after less y x (z ∷ zs) h k (a, s) t = elim (Bool-cases (less z x)) [
    | inl before ↦ rw before (a, rw before at t)
    | inr after ↦ rw after (k, rw after at t)
  ]

  IsSorted-tail :
      (less : A → A → Bool) (y : A) (ys : List A) → IsSorted less (y ∷ ys) → IsSorted less ys
  unfolding IsSorted
  IsSorted-tail less y [] s = tt
  IsSorted-tail less y (z ∷ zs) (a, s) = s

  insert_by-IsSorted :
      (less : A → A → Bool)
      → ((a b : A) → less a b ≡ true → less b a ≡ false)
      → (x : A) (xs : List A) → IsSorted less xs
      → IsSorted less (insert_by less x xs)
  unfolding IsSorted insert_by
  insert_by-IsSorted less asym x [] s = tt
  insert_by-IsSorted less asym x (y ∷ ys) s = elim (Bool-cases (less y x)) [
    | inl before ↦
        let t = insert_by-IsSorted less asym x ys (IsSorted-tail less y ys s) in
        rw before (IsSorted-insert_after less y x ys before (asym y x before) s t)
    | inr after ↦ rw after (after, s)
  ]

  pub sort_by-IsSorted :
      (less : A → A → Bool)
      → ((a b : A) → less a b ≡ true → less b a ≡ false)
      → (xs : List A) → IsSorted less (sort_by less xs)
  unfolding sort_by IsSorted
  sort_by-IsSorted less asym [] = tt
  sort_by-IsSorted less asym (x ∷ xs) =
      insert_by-IsSorted less asym x (sort_by less xs) (sort_by-IsSorted less asym xs)
