-- ===== src/Base/Equality.antt =====
-- Rust's `==` on keys: numbers, names and paths, whose equality is decided.
use Prim.Native.Nat.{ℕ}
use Prim.Native.String.{String}
use mathlib.Core.Path.{◌≡◌, refl, ap₂}
use mathlib.Core.Logic.{ite, dite}
use mathlib.Core.Bool.{Bool, true, false, Bool-discrete}
use mathlib.Core.List.{List, [], ◌∷◌}
use native.Mathlib.Decide.{ℕ_discrete}
use text.Mathlib.Text
use text.Mathlib.TextEquality.{eq_iff}

pub record Eq {ℓ} (A : Type ℓ) : Type ℓ where
  pub dec : Discrete A

module _ {ℓ} {A : Type ℓ} ⦃e : Eq A⦄ where
  infix 50 ◌==◌
  abbrev pub ◌==◌ : A → A → Bool
  a == b = ite (e.dec a b) true false

  pub cons-injective-head : (x y : A) (xs ys : List A) → (x ∷ xs) ≡ (y ∷ ys) → x ≡ y
  cons-injective-head x y xs ys h = cc

  pub cons-injective-tail : (x y : A) (xs ys : List A) → (x ∷ xs) ≡ (y ∷ ys) → xs ≡ ys
  cons-injective-tail x y xs ys h = cc

  pub nil-ne-cons : (y : A) (ys : List A) → ¬ ([] ≡ y ∷ ys)
  nil-ne-cons y ys h = cc

  pub cons-ne-nil : (y : A) (ys : List A) → ¬ (y ∷ ys ≡ [])
  cons-ne-nil y ys h = cc

  list_dec : Discrete (List A)
  list_dec [] [] = yes refl
  list_dec [] (y ∷ ys) = no (nil-ne-cons y ys)
  list_dec (x ∷ xs) [] = no (cons-ne-nil x xs)
  list_dec (x ∷ xs) (y ∷ ys) =
      dite (e.dec x y)
        (λ p.
          dite (list_dec xs ys) (λ q. yes (ap₂ ◌∷◌ p q))
            (λ n. no (λ h. n (cons-injective-tail x y xs ys h))))
        (λ n. no (λ h. n (cons-injective-head x y xs ys h)))

  instance unfoldable pub list_eq : Eq (List A)
  unfolding list_dec
  list_eq = record { dec = list_dec }

instance unfoldable pub nat_eq : Eq ℕ
unfolding ℕ_discrete
nat_eq = record { dec = ℕ_discrete }

instance unfoldable pub string_eq : Eq String
string_eq = record {
  dec = λ s t.
      dite (Bool-discrete (Text.◌==◌ s t) true) (λ same. yes ((eq_iff s t).0 same))
        (λ differ. no (λ p. differ ((eq_iff s t).1 p)));
}
