-- ===== src/Fuse/Handles/Moves.antt =====
-- src/fuse.rs, `Fs::rename`: cursors move to other paths and keep their streams.
use shell_canvas_drive_bridg.Base.{
  ℕ, ◌≡◌, refl, ap, ◌∙◌, some, List, [], ◌∷◌, ◌⊎◌, lift, ◌>>◌, bind_cases, Bool-cases, Result-cases,
  inl, inr, arith, nat_eq, string_eq, list_eq, starts_with,
}
use shell_canvas_drive_bridg.Base.Dict
use shell_canvas_drive_bridg.Base.Dict.{Dict}
use shell_canvas_drive_bridg.Sdk.{Sdk, MountPath}
use shell_canvas_drive_bridg.Fuse.Inodes.{State, Directory, update_node, retire_path}
use shell_canvas_drive_bridg.Fuse.Rename.{
  relocate, move_path, move_paths, move_dirs, moved, rename_state,
}
use shell_canvas_drive_bridg.Fuse.Handles.Steps.{
  SameHandles, SameHandles-trans, untouched, retire_path-SameHandles,
}

move_path-SameHandles :
    (old : MountPath) (id : ℕ) (new : MountPath) (s : State)
    → SameHandles s (move_path old id new s).1
unfolding move_path update_node
move_path-SameHandles old id new s =
    untouched s (move_path old id new s).1 (ground arith) (ground arith)

-- A rename moves cursors to other paths, and leaves them their streams.
module _ (S : Sdk) (from to : MountPath) where
  abbrev after : Dict ℕ Directory → Dict ℕ Directory
  after ds = (move_dirs S from to ds).1

  -- The first entry after the move, and the others: all of them moved, or none.
  abbrev Moves : ℕ → Directory → Dict ℕ Directory → Type 0
  Moves h d ds =
      (e : Directory) × (e.remote ≡ d.remote)
      × ((after ((h, d) ∷ ds) ≡ (h, e) ∷ ds) ⊎ (after ((h, d) ∷ ds) ≡ (h, e) ∷ after ds))

  move_first : (h : ℕ) (d : Directory) (ds : Dict ℕ Directory) → Moves h d ds
  unfolding move_dirs
  move_first h d ds = elim (Bool-cases (starts_with d.path from)) [
    | inr apart ↦ (d, refl, inr (ground (arith, apart)))
    | inl below ↦ elim (Result-cases (relocate S from to d.path)) [
      | inl (x, bad) ↦ (d, refl, inl (ground (arith, below, bad)))
      | inr (new, good) ↦ (record d { path = new }, refl, inr (ground (arith, below, good)))
    ]
  ]

  streams_stay :
      (ds : Dict ℕ Directory) (k : ℕ) (d : Directory)
      → Dict.lookup k ds ≡ some d
      → (e : Directory) × (Dict.lookup k (after ds) ≡ some e) × (e.remote ≡ d.remote)
  unfolding Dict.lookup
  streams_stay [] k d at = absurd (cc)
  streams_stay ((h, x) ∷ ds) k d at =
      let (y, same, how) = move_first h x ds in
      elim (nat_eq.dec k h) [
        | yes e ↦
            let found : x ≡ d = ground (arith, at, e) in
            (
              y,
              elim how [ inl m ↦ ground (arith, m, e) | inr m ↦ ground (arith, m, e) ],
              same ∙ ap (λ z. z.remote) found,
            )
        | no ne ↦
            let found : Dict.lookup k ds ≡ some d = ground (arith, at, ne) in
            elim how [
              | inl m ↦ (d, ground (arith, m, ne, found), refl)
              | inr m ↦
                  let (z, kept, is) = streams_stay ds k d found in
                  (z, ground (arith, m, ne, kept), is)
            ]
      ]

  keys_stay :
      (ds : Dict ℕ Directory) (k : ℕ) (e : Directory)
      → Dict.lookup k (after ds) ≡ some e
      → (d : Directory) × (Dict.lookup k ds ≡ some d)
  unfolding Dict.lookup move_dirs
  keys_stay [] k e at = absurd (cc)
  keys_stay ((h, x) ∷ ds) k e at =
      let (y, same, how) = move_first h x ds in
      elim (nat_eq.dec k h) [
        | yes same_key ↦ (x, ground (arith, same_key))
        | no ne ↦ elim how [
          | inl m ↦ (e, ground (arith, m, ne, at))
          | inr m ↦
              let (z, kept) = keys_stay ds k e (ground (arith, m, ne, at)) in
              (z, ground (arith, ne, kept))
        ]
      ]

  move_paths-SameHandles :
      (l : List (MountPath × ℕ)) (s : State) → SameHandles s (move_paths S from to l s).1
  unfolding move_paths
  move_paths-SameHandles [] s = untouched s s refl refl
  move_paths-SameHandles ((old, id) ∷ l) s =
      bind_cases (λ r. SameHandles s r.1) (λ new. move_path old id new >> move_paths S from to l)
        (lift (relocate S from to old)) s (λ _ _. untouched s s refl refl)
        (λ new _.
          let first = move_path-SameHandles old id new s in
          bind_cases (λ r. SameHandles s r.1) (λ _. move_paths S from to l) (move_path old id new) s
            (λ _ _. first)
            (λ _ _. SameHandles-trans first (move_paths-SameHandles l (move_path old id new s).1)))

  move_dirs-SameHandles : (s : State) → SameHandles s (record s { dirs = after s.dirs })
  move_dirs-SameHandles s = record {
    files = refl;
    streams = streams_stay s.dirs;
    keys = keys_stay s.dirs;
  }

  pub rename_state-SameHandles : (s : State) → SameHandles s (rename_state S from to s).1
  unfolding rename_state
  rename_state-SameHandles s =
      let t = retire_path to s in
      let (r, u) = move_paths S from to (moved from t.paths) t in
      let sofar : SameHandles s u =
        SameHandles-trans (retire_path-SameHandles to s)
          (move_paths-SameHandles (moved from t.paths) t) in
      elim (Result-cases r) [
        | inl (e, bad) ↦ rw (bad, rename_state) sofar
        | inr (x, good) ↦
            rw (good, rename_state) (SameHandles-trans sofar (move_dirs-SameHandles u))
      ]
