-- ===== src/Base/Bits.antt =====
-- `&` and `|` of machine words at variables: the laws of masks that the attribute code relies on.
use Prim.Native.Nat.{
  ℕ, zero, suc, ◌+◌, ◌*◌, ◌/◌, ◌%◌, ◌≤◌, min, max, digits, bit_and, bit_or, bit_and-bitwise,
  bit_or-bitwise,
}
use mathlib.Core.Path.{◌≡◌, refl}
use native.Mathlib.Omega.{arith}

-- A recursion on digits, once its fuel suffices, no longer depends on it.
module _ (rest : ℕ → ℕ) (digit : ℕ → ℕ → ℕ) where
  same_digits :
      (fuel more a b : ℕ)
      → a ≤ fuel
      → a ≤ more
      → digits rest digit fuel a b ≡ digits rest digit more a b
  same_digits zero zero a b h k = refl
  same_digits zero (suc more) zero b h k = refl
  same_digits zero (suc more) (suc a) b h k = absurd (omega arith)
  same_digits (suc fuel) zero zero b h k = refl
  same_digits (suc fuel) zero (suc a) b h k = absurd (omega arith)
  same_digits (suc fuel) (suc more) zero b h k = refl
  same_digits (suc fuel) (suc more) (suc a) b h k =
      omega (arith, same_digits fuel more (suc a / 2) (b / 2) (omega arith) (omega arith))

-- The lowest digit of `a & b` and of `a | b`, and what stands above it.
pub and_digit : (a b : ℕ) → bit_and a b ≡ bit_and (a / 2) (b / 2) * 2 + min (a % 2) (b % 2)
and_digit zero b = omega (arith, bit_and-bitwise zero b, bit_and-bitwise zero (b / 2))
and_digit (suc a) b = omega (
  arith,
  bit_and-bitwise (suc a) b,
  bit_and-bitwise (suc a / 2) (b / 2),
  same_digits (λ y. 0) min a (suc a / 2) (suc a / 2) (b / 2) (omega arith) (omega arith),
)

pub or_digit : (a b : ℕ) → bit_or a b ≡ bit_or (a / 2) (b / 2) * 2 + max (a % 2) (b % 2)
or_digit zero b = omega (arith, bit_or-bitwise zero b, bit_or-bitwise zero (b / 2))
or_digit (suc a) b = omega (
  arith,
  bit_or-bitwise (suc a) b,
  bit_or-bitwise (suc a / 2) (b / 2),
  same_digits (λ y. y) max a (suc a / 2) (suc a / 2) (b / 2) (omega arith) (omega arith),
)

zero-and : (b : ℕ) → bit_and 0 b ≡ 0
zero-and b = bit_and-bitwise 0 b

zero-or : (b : ℕ) → bit_or 0 b ≡ b
zero-or b = bit_or-bitwise 0 b

and_half : (a b : ℕ) → bit_and a b / 2 ≡ bit_and (a / 2) (b / 2)
and_half a b = omega (arith, and_digit a b)

and_low : (a b : ℕ) → bit_and a b % 2 ≡ min (a % 2) (b % 2)
and_low a b = omega (arith, and_digit a b)

or_half : (a b : ℕ) → bit_or a b / 2 ≡ bit_or (a / 2) (b / 2)
or_half a b = omega (arith, or_digit a b)

or_low : (a b : ℕ) → bit_or a b % 2 ≡ max (a % 2) (b % 2)
or_low a b = omega (arith, or_digit a b)

and_assoc_below : (n c a b : ℕ) → c ≤ n → bit_and (bit_and c a) b ≡ bit_and c (bit_and a b)
and_assoc_below zero zero a b h = rw (zero-and, zero-and, zero-and)
and_assoc_below zero (suc c) a b h = absurd (omega arith)
and_assoc_below (suc n) c a b h =
    let left = rw (and_half c a, and_low c a) at (and_digit (bit_and c a) b) in
    let right = rw (and_half a b, and_low a b) at (and_digit c (bit_and a b)) in
    omega (arith, left, right, and_assoc_below n (c / 2) (a / 2) (b / 2) (omega arith))

-- Two masks in a row are the mask of what they share.
pub and_assoc : (c a b : ℕ) → bit_and (bit_and c a) b ≡ bit_and c (bit_and a b)
and_assoc c a b = and_assoc_below c c a b (omega arith)

and_or_below : (n c a b : ℕ) → c ≤ n → bit_and (bit_or c a) b ≡ bit_or (bit_and c b) (bit_and a b)
and_or_below zero zero a b h = rw (zero-or, zero-and, zero-or)
and_or_below zero (suc c) a b h = absurd (omega arith)
and_or_below (suc n) c a b h =
    let left = rw (or_half c a, or_low c a) at (and_digit (bit_or c a) b) in
    let right =
      rw (and_half c b, and_low c b, and_half a b, and_low a b) at
        (or_digit (bit_and c b) (bit_and a b)) in
    omega (arith, left, right, and_or_below n (c / 2) (a / 2) (b / 2) (omega arith))

-- A mask distributes over `|`.
pub and_or : (c a b : ℕ) → bit_and (bit_or c a) b ≡ bit_or (bit_and c b) (bit_and a b)
and_or c a b = and_or_below c c a b (omega arith)

and_zero_below : (n a : ℕ) → a ≤ n → bit_and a 0 ≡ 0
and_zero_below zero zero h = zero-and 0
and_zero_below zero (suc a) h = absurd (omega arith)
and_zero_below (suc n) a h = omega (arith, and_digit a 0, and_zero_below n (a / 2) (omega arith))

pub and_zero : (a : ℕ) → bit_and a 0 ≡ 0
and_zero a = and_zero_below a a (omega arith)

or_zero_below : (n a : ℕ) → a ≤ n → bit_or a 0 ≡ a
or_zero_below zero zero h = zero-or 0
or_zero_below zero (suc a) h = absurd (omega arith)
or_zero_below (suc n) a h = omega (arith, or_digit a 0, or_zero_below n (a / 2) (omega arith))

pub or_zero : (a : ℕ) → bit_or a 0 ≡ a
or_zero a = or_zero_below a a (omega arith)

le_or_below : (n a b : ℕ) → a ≤ n → (a ≤ bit_or a b) × (b ≤ bit_or a b)
le_or_below zero zero b h = omega (arith, zero-or b)
le_or_below zero (suc a) b h = absurd (omega arith)
le_or_below (suc n) a b h = omega (arith, or_digit a b, le_or_below n (a / 2) (b / 2) (omega arith))

-- `|` clears no bit, so the result is at least as large as either side.
pub le_or : (a b : ℕ) → (a ≤ bit_or a b) × (b ≤ bit_or a b)
le_or a b = le_or_below a a b (omega arith)

and_le_below : (n a b : ℕ) → a ≤ n → (bit_and a b ≤ a) × (bit_and a b ≤ b)
and_le_below zero zero b h = omega (arith, zero-and b)
and_le_below zero (suc a) b h = absurd (omega arith)
and_le_below (suc n) a b h =
    omega (arith, and_digit a b, and_le_below n (a / 2) (b / 2) (omega arith))

pub and_le : (a b : ℕ) → (bit_and a b ≤ a) × (bit_and a b ≤ b)
and_le a b = and_le_below a a b (omega arith)
