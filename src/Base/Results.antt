-- ===== src/Base/Results.antt =====
-- `Result<T, E>` and code that reads and writes a state and may return early by `?`. The state
-- comes back after an error too: what was written stays written.
use mathlib.Core.Path.{◌≡◌, refl, ap}
use mathlib.Core.Logic.{◌⊎◌, inl, inr}
use mathlib.Core.Option.{Option, none, some}
use shell_canvas_drive_bridg.Base.Tests.{if◌then◌else◌}
use mathlib.Core.Bool.{Bool}

pub data Result (E A : Type 0) : Type 0 where
  ok : A → Result E A
  err : E → Result E A

abbrev pub map_err : {E F A : Type 0} → (E → F) → Result E A → Result F A
map_err f (ok a) = ok a
map_err f (err e) = err (f e)

abbrev pub ok_or : {E A : Type 0} → Option A → E → Result E A
ok_or none e = err e
ok_or (some a) e = ok a

abbrev pub then_result : {E A B : Type 0} → Result E A → (A → Result E B) → Result E B
then_result (ok a) f = f a
then_result (err e) f = err e

abbrev pub Action : Type 0 → Type 0 → Type 0 → Type 0
Action W E A = W → Result E A × W

module _ {W E : Type 0} where
  abbrev pub pure : {A : Type 0} → A → Action W E A
  pure a w = (ok a, w)

  abbrev pub raise : {A : Type 0} → E → Action W E A
  raise e w = (err e, w)

  abbrev pub lift : {A : Type 0} → Result E A → Action W E A
  lift r w = (r, w)

  abbrev pub gets : {A : Type 0} → (W → A) → Action W E A
  gets f w = (ok (f w), w)

  abbrev pub modify : (W → W) → Action W E (Unit {0})
  modify f w = (ok tt, f w)

  abbrev pub raise_if : Bool → E → Action W E (Unit {0})
  raise_if b e w = (if b then err e else ok tt, w)

  infixl 5 ◌>>=◌ ◌>>◌
  abbrev pub ◌>>=◌ : {A B : Type 0} → Action W E A → (A → Action W E B) → Action W E B
  ◌>>=◌ m f w = let (r, w') = m w in elim r [ ok a ↦ f a w' | err e ↦ (err e, w') ]

  abbrev pub ◌>>◌ : {A B : Type 0} → Action W E A → Action W E B → Action W E B
  m >> k = m >>= λ _. k

pub Result-cases :
    {E A : Type 0} (r : Result E A) → ((e : E) × (r ≡ err e)) ⊎ ((a : A) × (r ≡ ok a))
Result-cases (err e) = inl (e, refl)
Result-cases (ok a) = inr (a, refl)

module _ {W E A B : Type 0} (P : Result E B × W → Type 0) (f : A → Action W E B) where
  step_cases :
      (r : Result E A × W)
      → ((e : E) → r.0 ≡ err e → P (err e, r.1))
      → ((a : A) → r.0 ≡ ok a → P (f a r.1))
      → P (elim r.0 [ ok a ↦ f a r.1 | err e ↦ (err e, r.1) ])
  step_cases (ok a, w) failed went_on = went_on a refl
  step_cases (err e, w) failed went_on = failed e refl

  -- What holds after a step that failed, and after the rest when it did not, holds of the whole.
  pub bind_cases :
      (m : Action W E A) (w : W)
      → ((e : E) → (m w).0 ≡ err e → P (err e, (m w).1))
      → ((a : A) → (m w).0 ≡ ok a → P (f a (m w).1))
      → P ((m >>= f) w)
  bind_cases m w = step_cases (m w)

-- The two ways a step goes.
module _ {W E A B : Type 0} (m : Action W E A) (f : A → Action W E B) (w : W) where
  abbrev after : Result E A × W → Result E B × W
  after r = elim r.0 [ ok a ↦ f a r.1 | err e ↦ (err e, r.1) ]

  pub bind_ok : {a : A} {w' : W} → m w ≡ (ok a, w') → (m >>= f) w ≡ f a w'
  bind_ok e = ap after e

  pub bind_err : {e : E} {w' : W} → m w ≡ (err e, w') → (m >>= f) w ≡ (err e, w')
  bind_err e = ap after e
