-- ===== src/Common/Equality.antt =====
-- Go's `==` on comparable values, and map keys: an interface whose instances decide equality.
use Prim.Native.Nat.{ℕ}
use mathlib.Core.Path.{◌≡◌, refl, ap}
use mathlib.Core.Logic.{ite, dite}
use mathlib.Core.Bool.{Bool, true, false}
use mathlib.Core.List.{List, [], ◌∷◌}
use native.Mathlib.Decide.{ℕ_discrete}
use native.Mathlib.Omega.{arith}

-- A byte slice or a string: Go's strings are sequences of bytes.
abbrev pub Bytes : Type 0
Bytes = List ℕ

pub record Eq {ℓ} (A : Type ℓ) : Type ℓ where
  pub dec : Discrete A

infix 50 ◌==◌
abbrev pub ◌==◌ {ℓ} : {A : Type ℓ} ⦃e : Eq A⦄ → A → A → Bool
◌==◌ ⦃e⦄ a b = ite (e.dec a b) true false

pub ==-refl {ℓ} : {A : Type ℓ} ⦃e : Eq A⦄ (a : A) → (a == a) ≡ true
==-refl a = ground arith

-- Equality by an injection into a type that has it, such as a struct's fields.
module _ {ℓ κ} {A : Type ℓ} {B : Type κ} where
  unfoldable pub eq_by : (f : A → B) → ((a b : A) → f a ≡ f b → a ≡ b) → Eq B → Eq A
  eq_by f inj e = record {
    dec = λ a b. dite (e.dec (f a) (f b)) (λ p. yes (inj a b p)) (λ n. no (λ p. n (ap f p)));
  }

module _ {ℓ κ} {A : Type ℓ} {B : Type κ} ⦃a : Eq A⦄ ⦃b : Eq B⦄ where
  pair_dec : Discrete (A × B)
  pair_dec (x, y) (x', y') =
      dite (a.dec x x')
        (λ p. dite (b.dec y y') (λ q. yes (λ i. (p i, q i))) (λ n. no (λ q. n (ap (λ t. t.1) q))))
        (λ n. no (λ q. n (ap (λ t. t.0) q)))

  instance unfoldable pub pair_eq : Eq (A × B)
  unfolding pair_dec
  pair_eq = record { dec = pair_dec }

instance abbrev pub nat_eq : Eq ℕ
nat_eq = record { dec = ℕ_discrete }

bytes_dec : Discrete Bytes
bytes_dec [] [] = yes refl
bytes_dec [] (y ∷ ys) = no (λ p. cc)
bytes_dec (x ∷ xs) [] = no (λ p. cc)
bytes_dec (x ∷ xs) (y ∷ ys) =
    dite (ℕ_discrete x y) (λ p. dite (bytes_dec xs ys) (λ q. yes (cc)) (λ n. no (λ q. n (cc))))
      (λ n. no (λ q. n (cc)))

instance unfoldable pub bytes_eq : Eq Bytes
unfolding bytes_dec ℕ_discrete
bytes_eq = record { dec = bytes_dec }
