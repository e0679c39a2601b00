-- ===== src/Windows/Handles/Renamed.antt =====
-- src/windows_handles.rs, `OpenHandles::register` and `OpenHandles::rename` on the whole registry.
use shell_canvas_drive_bridg.Base.{
  ℕ, ◌≡◌, refl, inl, inr, true, some, List, [], ◌∷◌, ◌++◌, ok, err, arith, eqb, if◌then◌else◌,
  Option-cases, Result-cases, nat_eq, string_eq, list_eq,
}
use shell_canvas_drive_bridg.Base.Dict
use shell_canvas_drive_bridg.Base.Dict.{Dict}
use shell_canvas_drive_bridg.Sdk.{Sdk, IsLawful, FsError, FsResult, MountPath}
use shell_canvas_drive_bridg.Windows.Handles.{
  OpenHandle, OpenHandles, retain, register, upgrade, plan, rename,
}
use shell_canvas_drive_bridg.Windows.Handles.Rename.{
  renamed, registered, publish_pending, plan-Fits,
}

-- Every descriptor that is alive is one the registry can reach.
abbrev pub IsRegistered : OpenHandles → Type 0
IsRegistered t =
    (id : ℕ) (h : OpenHandle) → Dict.lookup id t.live ≡ some h → registered id t.refs ≡ true

-- The references that `retain` drops belong to no live descriptor.
pub registered-retain :
    (live : Dict ℕ OpenHandle) (refs : List ℕ) (id : ℕ) (h : OpenHandle)
    → Dict.lookup id live ≡ some h
    → registered id (retain live refs) ≡ registered id refs
unfolding retain
registered-retain live [] id h e = refl
registered-retain live (r ∷ refs) id h e = elim (Option-cases (Dict.lookup r live)) [
  | inl gone ↦ rw gone (ground (arith, registered-retain live refs id h e))
  | inr (k, found) ↦ rw found (ground (arith, registered-retain live refs id h e))
]

registered-append :
    (refs : List ℕ) (id r : ℕ)
    → registered id (refs ++ (r ∷ [])) ≡ (if eqb id r then true else registered id refs)
registered-append [] id r = refl
registered-append (s ∷ refs) id r = ground (arith, registered-append refs id r)

-- Opening a descriptor keeps every live descriptor within the registry's reach.
pub register-IsRegistered :
    (id : ℕ) (h : OpenHandle) (t : OpenHandles) → IsRegistered t → IsRegistered (register id h t)
unfolding register
register-IsRegistered id h t R j k e =
    let live = Dict.insert id h t.live in
    ground (
      arith,
      registered-append (retain live t.refs) j id,
      registered-retain live t.refs j k e,
      Dict.lookup-insert j id h t.live,
      R j k,
    )

module _ (S : Sdk) (L : IsLawful S) (from to : MountPath) where
  rename_lem :
      (provider : S.Remote → FsResult (Unit {0}) × S.Remote) (t : OpenHandles) (r : S.Remote)
      → IsRegistered t
      → let (v, t', r') = rename S from to provider (t, r) in
        ((e : FsError) → v ≡ err e → t'.live ≡ t.live)
        × (v ≡ ok tt
            → (id : ℕ) (h : OpenHandle) → Dict.lookup id t.live ≡ some h
            → Dict.lookup id t'.live ≡ some (renamed from to h))
  unfolding rename
  rename_lem provider t r R =
      elim (Result-cases (plan S from to (upgrade t.live (retain t.live t.refs)))) [
        | inl (x, bad) ↦ rw (bad, rename) (λ e s. refl, λ s. ground arith)
        | inr (changes, good) ↦ elim (Result-cases (provider r).0) [
          | inl (x, bad) ↦ rw (good, bad, rename) (λ e s. refl, λ s. ground arith)
          | inr (v, fine) ↦
              rw (good, fine, rename)
                (
                  λ e s. ground arith,
                  λ s id h f.
                      let (fits, covers) =
                        plan-Fits S L from to t.live (retain t.live t.refs) changes good in
                      ground (
                        arith,
                        publish_pending from to t.live changes t.live id h fits f f,
                        covers id h f,
                        registered-retain t.live t.refs id h f,
                        R id h f,
                      ),
                )
        ]
      ]

  -- In a registry that reaches every live descriptor, after a rename that succeeds, every live
  -- descriptor at or below `from` reads its path below `to`, and every other one keeps its path.
  pub rename-renamed :
      (provider : S.Remote → FsResult (Unit {0}) × S.Remote) (t : OpenHandles) (r : S.Remote)
      (id : ℕ) (h : OpenHandle)
      → IsRegistered t
      → (rename S from to provider (t, r)).0 ≡ ok tt
      → Dict.lookup id t.live ≡ some h
      → Dict.lookup id (rename S from to provider (t, r)).1.live ≡ some (renamed from to h)
  rename-renamed provider t r id h R done found = (rename_lem provider t r R).1 done id h found

  -- In a registry that reaches every live descriptor, after a rename that fails, in the provider
  -- or before it is asked, no descriptor has changed.
  pub rename_failed :
      (provider : S.Remote → FsResult (Unit {0}) × S.Remote) (t : OpenHandles) (r : S.Remote)
      (e : FsError)
      → IsRegistered t
      → (rename S from to provider (t, r)).0 ≡ err e
      → (rename S from to provider (t, r)).1.live ≡ t.live
  rename_failed provider t r e R failed = (rename_lem provider t r R).0 e failed
