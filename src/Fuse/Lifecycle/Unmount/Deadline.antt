-- ===== src/Fuse/Lifecycle/Unmount/Deadline.antt =====
-- src/fuse.rs, `ordinary_unmount`: it ends, and succeeds only when the helper has.
use shell_canvas_drive_bridg.Base.{
  ℕ, zero, suc, ◌+◌, ◌*◌, ◌≤◌, ◌<◌, ◌≡◌, ◌⊎◌, inl, inr, refl, sym, ap, subst, ◌∙◌, true, Option,
  some, Option-cases, Bool-cases, Result-cases, String, ok, err, leb, arith,
}
use shell_canvas_drive_bridg.Fuse.Lifecycle.Unmount.{
  System, ExitStatus, UnmountError, Outcome, await, confirmed, give_up, find_helper, start_helper,
  ordinary_unmount, helpers, patience, pause,
}

-- The clock does not run backwards, and a sleep lasts as long as it says.
pub record Ticks (U : System) : Type 0 where
  pub steady : (c : U.Child) (w : U.World) → U.now w ≤ U.now (U.try_wait c w).1
  pub slept : (n : ℕ) (w : U.World) → U.now w + n ≤ U.now (U.sleep n w)

-- The status of a process that has ended well, as `try_wait` hands it over.
abbrev pub Confirms : (U : System) → U.World → Type 0
Confirms U w' =
    (child : U.Child) × (w : U.World) × (s : ExitStatus) × (U.try_wait child w ≡ (ok (some s), w'))
    × (s.success ≡ true)

module _ (U : System) where
  abbrev pub Ends : Option (Outcome U) → Type 0
  Ends o = (x : Outcome U) × (o ≡ some x)

  abbrev IsConfirmed : Option (Outcome U) → Type 0
  IsConfirmed (some (ok _, w)) = Confirms U w
  IsConfirmed _ = Unit {0}

  -- A round of the loop ends it, or comes before the deadline and is followed by the next one.
  abbrev Round : ℕ → ℕ → U.Child → U.World → Type 0
  Round fuel deadline child w =
      let w' = (U.try_wait child w).1 in
      ((x : Outcome U) × (await U (suc fuel) deadline child w ≡ some x) × IsConfirmed (some x))
      ⊎ ((U.now w' < deadline)
          × (await U (suc fuel) deadline child w ≡ await U fuel deadline child (U.sleep pause w')))

  ended :
      (child : U.Child) (w : U.World) (s : ExitStatus)
      → (U.try_wait child w).0 ≡ ok (some s)
      → IsConfirmed (some (confirmed U s, (U.try_wait child w).1))
  ended child w s e = elim (Bool-cases s.success) [
    | inl good ↦ rw (good, confirmed) (child, w, s, ap (λ v. (v, (U.try_wait child w).1)) e, good)
    | inr bad ↦ rw (bad, confirmed) tt
  ]

  round : (fuel deadline : ℕ) (child : U.Child) (w : U.World) → Round fuel deadline child w
  unfolding await
  round fuel deadline child w =
      let w' = (U.try_wait child w).1 in
      elim (Result-cases (U.try_wait child w).0) [
        | inl (e, bad) ↦ inl ((err (UnmountError.wait_failed e), w'), ground (arith, bad), tt)
        | inr (o, good) ↦ elim (Option-cases o) [
          | inr (s, over) ↦
              inl (
                (confirmed U s, w'),
                ground (arith, good, over),
                ended child w s (good ∙ ap ok over),
              )
          | inl running ↦ elim (Bool-cases (leb deadline (U.now w'))) [
            | inl past ↦ inl (give_up U child w', ground (arith, good, running, past), tt)
            | inr early ↦ inr (ground (arith, early), ground (arith, good, running, early))
          ]
        ]
      ]

  await-IsConfirmed :
      (fuel deadline : ℕ) (child : U.Child) (w : U.World)
      → IsConfirmed (await U fuel deadline child w)
  unfolding await
  await-IsConfirmed zero deadline child w = tt
  await-IsConfirmed (suc fuel) deadline child w = elim (round fuel deadline child w) [
    | inl (x, ends, good) ↦ subst IsConfirmed (sym ends) good
    | inr (early, next) ↦
        subst IsConfirmed (sym next)
          (await-IsConfirmed fuel deadline child (U.sleep pause (U.try_wait child w).1))
  ]

  unmount-IsConfirmed :
      (fuel : ℕ) (target : String) (w : U.World) → IsConfirmed (ordinary_unmount U fuel target w)
  unfolding ordinary_unmount
  unmount-IsConfirmed fuel target w = elim (Option-cases (find_helper U helpers w)) [
    | inl absent ↦ rw (absent, ordinary_unmount) tt
    | inr (helper, found) ↦
        let w' = (start_helper U helper target w).1 in
        elim (Result-cases (start_helper U helper target w).0) [
          | inl (e, bad) ↦ rw (found, ordinary_unmount) (rw (bad, ordinary_unmount) tt)
          | inr (child, good) ↦
              rw (found, ordinary_unmount)
                (rw (good, ordinary_unmount)
                  (await-IsConfirmed fuel (U.now w' + patience) child w'))
        ]
  ]

  -- A detach succeeds only on the word of the system: the helper has ended with success, and that
  -- was the last thing that happened.
  pub ordinary_unmount_ok :
      (fuel : ℕ) (target : String) (w w' : U.World)
      → ordinary_unmount U fuel target w ≡ some (ok tt, w')
      → Confirms U w'
  ordinary_unmount_ok fuel target w w' e = subst IsConfirmed e (unmount-IsConfirmed fuel target w)

  module _ (T : Ticks U) where
    -- The deadline is passed after as many pauses as there is fuel left.
    await-Ends :
        (fuel deadline : ℕ) (child : U.Child) (w : U.World)
        → deadline ≤ U.now w + fuel * pause
        → Ends (await U (suc fuel) deadline child w)
    await-Ends zero deadline child w late = elim (round 0 deadline child w) [
      | inl (x, ends, good) ↦ (x, ends)
      | inr (early, next) ↦ absurd (omega (arith, late, early, T.steady child w))
    ]
    await-Ends (suc fuel) deadline child w late = elim (round (suc fuel) deadline child w) [
      | inl (x, ends, good) ↦ (x, ends)
      | inr (early, next) ↦
          let v = U.sleep pause (U.try_wait child w).1 in
          let (x, done) =
            await-Ends fuel deadline child v
              (omega (arith, late, T.steady child w, T.slept pause (U.try_wait child w).1)) in
          (x, next ∙ done)
    ]

    -- A detach ends within 301 rounds of the loop, whatever the helper does: the clock passes the
    -- deadline by then.
    pub ordinary_unmount-Ends :
        (target : String) (w : U.World) → Ends (ordinary_unmount U 301 target w)
    unfolding ordinary_unmount
    ordinary_unmount-Ends target w = elim (Option-cases (find_helper U helpers w)) [
      | inl absent ↦ ((err UnmountError.no_helper, w), ground (arith, absent))
      | inr (helper, found) ↦
          let w' = (start_helper U helper target w).1 in
          elim (Result-cases (start_helper U helper target w).0) [
            | inl (e, bad) ↦ ((err e, w'), ground (arith, found, bad))
            | inr (child, good) ↦
                let (x, done) = await-Ends 300 (U.now w' + patience) child w' (omega arith) in
                let reached : ordinary_unmount U 301 target w
                    ≡ await U 301 (U.now w' + patience) child w' =
                  rw (found, ordinary_unmount) (rw (good, ordinary_unmount) refl) in
                (x, reached ∙ done)
          ]
    ]
