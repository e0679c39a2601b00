-- ===== src/Windows/Drives/Free.antt =====
-- src/windows_drives.rs: a letter that is said to be free is free.
use shell_canvas_drive_bridg.Base.{
  ℕ, zero, suc, ◌≡◌, refl, sym, ap, ◌∙◌, ◌+◌, ◌-◌, ◌*◌, ◌/◌, ◌%◌, ◌^◌, ◌<◌, bit_and, false, List,
  [], ◌∷◌, ok, arith,
}
use shell_canvas_drive_bridg.Base.Bits.{and_digit, and_zero}
use shell_canvas_drive_bridg.Windows.Drives.{
  WnetStatus, DriveTables, is_remembered, is_drive, is_in_use, reserved,
}

-- The binary digit of a number at a place, from the lowest on.
abbrev pub digit_at : ℕ → ℕ → ℕ
digit_at zero m = m % 2
digit_at (suc n) m = digit_at n (m / 2)

and_double : (m x : ℕ) → bit_and m (2 * x) ≡ 2 * bit_and (m / 2) x
and_double m x =
    let halved : (2 * x) / 2 ≡ x = omega arith in
    let rest : bit_and (m / 2) ((2 * x) / 2) ≡ bit_and (m / 2) x = ap (bit_and (m / 2)) halved in
    omega (arith, and_digit m (2 * x), rest)

scaled : (d x y : ℕ) → y ≡ 2 * x → d * y ≡ 2 * (d * x)
scaled d x y e = ap (λ z. d * z) e ∙ omega arith

and_power : (n m : ℕ) → bit_and m (2 ^ n) ≡ digit_at n m * 2 ^ n
and_power zero m = omega (arith, and_digit m 1, and_zero (m / 2))
and_power (suc n) m =
    let doubled : 2 ^ suc n ≡ 2 * 2 ^ n = omega arith in
    ap (bit_and m) doubled
    ∙ (and_double m (2 ^ n)
        ∙ (ap (λ z. 2 * z) (and_power n (m / 2))
            ∙ sym (scaled (digit_at n (m / 2)) (2 ^ n) (2 ^ suc n) doubled)))

positive : (n : ℕ) → 0 < 2 ^ n
positive zero = omega arith
positive (suc n) = omega (arith, positive n)

factor_zero : (d x : ℕ) → 0 < x → d * x ≡ 0 → d ≡ 0
factor_zero zero x p e = refl
factor_zero (suc d) x p e = absurd (omega (arith, p, e))

remembered_free : (s : WnetStatus) → is_remembered s ≡ ok false → s ≡ WnetStatus.not_connected
unfolding is_remembered
remembered_free s e = ground (arith, e)

unused : (n m : ℕ) → is_in_use m (65 + n) ≡ false → digit_at n m ≡ 0
unfolding is_in_use
unused n m e =
    let place : (65 + n) - 65 ≡ n = omega arith in
    let masked : bit_and m (2 ^ ((65 + n) - 65)) ≡ 0 = ground (arith, e) in
    factor_zero (digit_at n m) (2 ^ n) (positive n)
      (sym (and_power n m) ∙ (ap (λ k. bit_and m (2 ^ k)) (sym place) ∙ masked))

-- A letter that `reserved` says is free is one of `A:` to `Z:`, no drive of the machine has it, and
-- Windows has no connection for it, not even one that is out of reach.
pub reserved_free :
    (W : DriveTables) (target : List ℕ)
    → reserved W target ≡ ok false
    → (n : ℕ) × ((n < 26)
        × ((target ≡ (65 + n) ∷ 58 ∷ [])
            × ((digit_at n W.mask ≡ 0) × (W.connection target ≡ WnetStatus.not_connected))))
unfolding reserved is_drive
reserved_free W (letter ∷ colon ∷ []) e =
    let n = letter - 65 in
    let place : letter ≡ 65 + n = ground (arith, e) in
    let end : colon ≡ 58 = ground (arith, e) in
    let idle : is_in_use W.mask letter ≡ false = ground (arith, e) in
    (
      n,
      (
        ground (arith, e),
        (
          cc (place, end),
          (
            unused n W.mask (sym (ap (is_in_use W.mask) place) ∙ idle),
            remembered_free (W.connection (letter ∷ colon ∷ [])) (ground (arith, e)),
          ),
        ),
      ),
    )
reserved_free W (letter ∷ colon ∷ x ∷ rest) e = absurd (ground (arith, e))
reserved_free W (letter ∷ []) e = absurd (ground (arith, e))
reserved_free W [] e = absurd (ground (arith, e))
