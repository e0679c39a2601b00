-- ===== src/Windows/Handles/Rename.antt =====
-- src/windows_handles.rs, `OpenHandles::rename`: the planned changes and their publication.
use shell_canvas_drive_bridg.Base.{
  ℕ, ◌≡◌, refl, inl, inr, Bool, true, false, some, List, [], ◌∷◌, ◌++◌, ok, arith, eqb,
  if◌then◌else◌, length, drop, starts_with, Option-cases, Bool-cases, Result-cases, nat_eq,
  string_eq, list_eq,
}
use shell_canvas_drive_bridg.Base.Dict
use shell_canvas_drive_bridg.Base.Dict.{Dict}
use shell_canvas_drive_bridg.Sdk.Paths.{children, children-append}
use shell_canvas_drive_bridg.Sdk.{Sdk, IsLawful, MountPath}
use shell_canvas_drive_bridg.Windows.Handles.{OpenHandle, upgrade, set_path, publish, plan}

-- Where a descriptor stands after a rename.
abbrev pub target : MountPath → MountPath → MountPath → MountPath
target from to p = to ++ drop (length from) p

abbrev pub renamed : MountPath → MountPath → OpenHandle → OpenHandle
renamed from to h = if starts_with h.path from then set_path (target from to h.path) h else h

abbrev pub registered : ℕ → List ℕ → Bool
registered id [] = false
registered id (r ∷ rs) = if eqb id r then true else registered id rs

-- The path that a change sets is the one that the descriptor stood for.
module _ (from to : MountPath) (live : Dict ℕ OpenHandle) where
  abbrev Fits : List (ℕ × MountPath) → Type 0
  Fits [] = Unit {0}
  Fits ((id, p) ∷ changes) =
      ((h : OpenHandle)
        → Dict.lookup id live ≡ some h
        → (starts_with h.path from ≡ true) × (p ≡ target from to h.path))
      × Fits changes

  abbrev covers : ℕ → List (ℕ × MountPath) → Bool
  covers id [] = false
  covers id ((j, p) ∷ changes) = if eqb id j then true else covers id changes

  -- A descriptor that stands at its new place stays there.
  publish_settled :
      (changes : List (ℕ × MountPath)) (acc : Dict ℕ OpenHandle) (id : ℕ) (h : OpenHandle)
      → Fits changes
      → Dict.lookup id live ≡ some h
      → Dict.lookup id acc ≡ some (renamed from to h)
      → Dict.lookup id (publish changes acc) ≡ some (renamed from to h)
  unfolding publish
  publish_settled [] acc id h f e s = s
  publish_settled ((j, p) ∷ changes) acc id h f e s = elim (Option-cases (Dict.lookup j acc)) [
    | inl gone ↦ rw (gone, publish) (publish_settled changes acc id h f.1 e s)
    | inr (k, found) ↦
        rw (found, publish)
          (publish_settled changes (Dict.insert j (set_path p k) acc) id h f.1 e
            (ground (arith, Dict.lookup-insert id j (set_path p k) acc, f.0 h)))
  ]

  -- One that has still to move moves if a change names it, and stays otherwise.
  pub publish_pending :
      (changes : List (ℕ × MountPath)) (acc : Dict ℕ OpenHandle) (id : ℕ) (h : OpenHandle)
      → Fits changes
      → Dict.lookup id live ≡ some h
      → Dict.lookup id acc ≡ some h
      → Dict.lookup id (publish changes acc)
        ≡ some (if covers id changes then renamed from to h else h)
  unfolding publish
  publish_pending [] acc id h f e s = s
  publish_pending ((j, p) ∷ changes) acc id h f e s = elim (Option-cases (Dict.lookup j acc)) [
    | inl gone ↦ rw (gone, publish) (ground (arith, publish_pending changes acc id h f.1 e s))
    | inr (k, found) ↦ elim (Bool-cases (eqb id j)) [
      | inr other ↦
          rw (found, publish)
            (rw other (
              publish_pending changes (Dict.insert j (set_path p k) acc) id h f.1 e
                (ground (arith, Dict.lookup-insert id j (set_path p k) acc))))
      | inl same ↦
          rw (found, publish)
            (rw same (
              publish_settled changes (Dict.insert j (set_path p k) acc) id h f.1 e
                (ground (arith, Dict.lookup-insert id j (set_path p k) acc, f.0 h))))
    ]
  ]

module _ (S : Sdk) (L : IsLawful S) (from to : MountPath) (live : Dict ℕ OpenHandle) where
  -- The plan for a descriptor at or below `from`, and for the ones after it.
  plan_cons :
      (id : ℕ) (h : OpenHandle) (hs : List (ℕ × OpenHandle)) (changes : List (ℕ × MountPath))
      → starts_with h.path from ≡ true
      → plan S from to ((id, h) ∷ hs) ≡ ok changes
      → (rest : List (ℕ × MountPath)) × (plan S from to hs ≡ ok rest)
        × (changes ≡ (id, target from to h.path) ∷ rest)
  unfolding plan
  plan_cons id h hs changes below e =
      elim (Result-cases (children S to (drop (length from) h.path))) [
        | inl (x, bad) ↦ absurd (ground arith)
        | inr (p, good) ↦ elim (Result-cases (plan S from to hs)) [
          | inl (x, bad) ↦ absurd (ground arith)
          | inr (rest, more) ↦ (
            rest,
            more,
            ground (arith, children-append S L to (drop (length from) h.path) p good),
          )
        ]
      ]

  plan_apart :
      (id : ℕ) (h : OpenHandle) (hs : List (ℕ × OpenHandle))
      → starts_with h.path from ≡ false
      → plan S from to ((id, h) ∷ hs) ≡ plan S from to hs
  unfolding plan
  plan_apart id h hs apart = rw apart refl

  plan_nil : plan S from to [] ≡ ok []
  unfolding plan
  plan_nil = refl

  pub plan-Fits :
      (refs : List ℕ) (changes : List (ℕ × MountPath))
      → plan S from to (upgrade live refs) ≡ ok changes
      → Fits from to live changes
        × ((id : ℕ) (h : OpenHandle)
            → Dict.lookup id live ≡ some h
            → covers from to live id changes
              ≡ (if starts_with h.path from then registered id refs else false))
  unfolding upgrade
  plan-Fits [] [] e = (tt, λ id h s. ground arith)
  plan-Fits [] (c ∷ changes) e = absurd (ground (arith, plan_nil))
  plan-Fits (r ∷ refs) changes e = elim (Option-cases (Dict.lookup r live)) [
    | inl gone ↦
        let more = plan-Fits refs changes (ground arith) in
        (more.0, λ id h s. ground (arith, more.1 id h s))
    | inr (h, found) ↦ elim (Bool-cases (starts_with h.path from)) [
      | inr apart ↦
          let more =
            plan-Fits refs changes (ground (arith, plan_apart r h (upgrade live refs) apart)) in
          (more.0, λ id k s. ground (arith, more.1 id k s))
      | inl below ↦
          let (rest, tail, whole) =
            plan_cons r h (upgrade live refs) changes below (ground arith) in
          let more = plan-Fits refs rest tail in
          rw whole
            ((λ k s. (ground arith, ground arith), more.0), λ id k s. ground (arith, more.1 id k s))
    ]
  ]
