-- ===== src/Fuse/Rename/Success.antt =====
-- src/fuse.rs, `Fs::rename`: when the loops over paths and open directories run to their end.
use shell_canvas_drive_bridg.Base.{
  ℕ, ◌⊎◌, ◌≡◌, ◌≢◌, refl, ◌∙◌, inl, inr, some, List, [], ◌∷◌, ◌++◌, String, Result, ok, arith,
  starts_with, Bool-cases, nat_eq, string_eq, list_eq, length, drop, zero, suc, if◌then◌else◌, ◌==◌,
}
use shell_canvas_drive_bridg.Base.Dict
use shell_canvas_drive_bridg.Base.Dict.{Dict}
use shell_canvas_drive_bridg.Sdk.{Sdk, IsLawful, MountPath, root}
use shell_canvas_drive_bridg.Sdk.Paths.{AreNames, children-AreNames}
use shell_canvas_drive_bridg.Fuse.Attributes.{Errno}
use shell_canvas_drive_bridg.Fuse.Inodes.{
  State, Directory, node_path, retire_path, collect, modify_node, update_node,
}
use shell_canvas_drive_bridg.Fuse.Inodes.Invariant.{IsSound, retire_path-IsSound}
use shell_canvas_drive_bridg.Fuse.Rename.{
  moved, move_path, relocate, move_paths, move_dirs, rename_state,
}
use shell_canvas_drive_bridg.Fuse.Rename.Tables.{
  Movable, move_path-Movable, moved-Movable, lookup-tail,
}
use shell_canvas_drive_bridg.Fuse.Rename.Entries.{lookup-retire_path}

decide_path : (p q : MountPath) → (p ≡ q) ⊎ (p ≢ q)
decide_path p q = elim (Bool-cases (p == q)) [
  | inl same ↦ inl (ground arith)
  | inr other ↦ inr (λ e. ground arith)
]

-- Every known path, and that of every open directory, consists of names that the SDK accepts.
module _ (S : Sdk) where
  abbrev pub AllNamed : List (MountPath × ℕ) → Type 0
  AllNamed [] = Unit {0}
  AllNamed ((p, id) ∷ l) = AreNames S p × AllNamed l

  abbrev pub AllOpenNamed : Dict ℕ Directory → Type 0
  AllOpenNamed [] = Unit {0}
  AllOpenNamed ((h, d) ∷ ds) = AreNames S d.path × AllOpenNamed ds

  pub record IsNamed (s : State) : Type 0 where
    pub known : (p : MountPath) (id : ℕ) → Dict.lookup p s.paths ≡ some id → AreNames S p
    pub opened : AllOpenNamed s.dirs

  pub lookup-AreNames :
      (d : Dict MountPath ℕ) (p : MountPath) (id : ℕ)
      → AllNamed d
      → Dict.lookup p d ≡ some id
      → AreNames S p
  unfolding Dict.lookup
  lookup-AreNames [] p id a e = absurd (cc)
  lookup-AreNames ((q, j) ∷ d) p id a e = elim (decide_path p q) [
    | inl same ↦ rw same a.0
    | inr other ↦ lookup-AreNames d p id a.1 (ground (arith, other))
  ]

  drop-AreNames : (n : ℕ) (p : List String) → AreNames S p → AreNames S (drop n p)
  drop-AreNames zero p a = a
  drop-AreNames (suc n) [] a = tt
  drop-AreNames (suc n) (m ∷ p) a = drop-AreNames n p a.1

  moved-AllNamed :
      (from : MountPath) (d : Dict MountPath ℕ)
      → Dict.NodupKeys d
      → ((q : MountPath) (j : ℕ) → Dict.lookup q d ≡ some j → AreNames S q)
      → AllNamed (moved from d)
  unfolding moved Dict.lookup
  moved-AllNamed from [] u h = tt
  moved-AllNamed from ((p, id) ∷ d) u h =
      let rest : AllNamed (moved from d) =
        moved-AllNamed from d u.1 (λ q k e. h q k (lookup-tail p q id k d u.0 e)) in
      let mine : AreNames S p = h p id (ground arith) in
      elim (Bool-cases (starts_with p from)) [
        | inl below ↦ rw (below, moved) (mine, rest)
        | inr apart ↦ rw (apart, moved) rest
      ]

move_path_ok :
    (old : MountPath) (id : ℕ) (new : MountPath) (s : State)
    → node_path (Dict.lookup id s.nodes) ≡ some old
    → move_path old id new s ≡ (ok tt, (move_path old id new s).1)
unfolding move_path update_node
move_path_ok old id new s at_old = ground arith

move_path-dirs :
    (old : MountPath) (id : ℕ) (new : MountPath) (s : State)
    → (move_path old id new s).1.dirs ≡ s.dirs
unfolding move_path update_node
move_path-dirs old id new s = ground arith

retire_path-dirs : (p : MountPath) (s : State) → (retire_path p s).dirs ≡ s.dirs
unfolding retire_path collect modify_node
retire_path-dirs p s = ground arith

-- An open directory after a rename.
abbrev pub moved_dir : MountPath → MountPath → Directory → Directory
moved_dir from to d =
    if starts_with d.path from then record d { path = to ++ drop (length from) d.path } else d

abbrev pub moved_dirs : MountPath → MountPath → Dict ℕ Directory → Dict ℕ Directory
moved_dirs from to [] = []
moved_dirs from to ((h, d) ∷ ds) = (h, moved_dir from to d) ∷ moved_dirs from to ds

module _ (S : Sdk) (L : IsLawful S) (from to : MountPath) where
  relocate_ok :
      (old : MountPath)
      → AreNames S old
      → relocate S from to old ≡ ok (to ++ drop (length from) old)
  unfolding relocate
  relocate_ok old a =
      rw (children-AreNames S L to (drop (length from) old) (drop-AreNames S (length from) old a))
        refl

  move_paths_ok :
      (l : List (MountPath × ℕ)) (s : State)
      → Movable s l
      → AllNamed S l
      → (◌≡◌ {A = Result Errno (Unit {0})} (move_paths S from to l s).0 (ok tt))
        × ((move_paths S from to l s).1.dirs ≡ s.dirs)
  unfolding move_paths move_path update_node Dict.lookup
  move_paths_ok [] s m a = (refl, refl)
  move_paths_ok ((old, id) ∷ l) s m a =
      let new = to ++ drop (length from) old in
      let u = (move_path old id new s).1 in
      let more = move_paths_ok l u (move_path-Movable old id new s l m.2 m.3) a.1 in
      rw (relocate_ok old a.0, move_paths)
        (rw (move_path_ok old id new s m.0) (more.0, more.1 ∙ move_path-dirs old id new s))

  move_dirs_ok :
      (ds : Dict ℕ Directory)
      → AllOpenNamed S ds
      → move_dirs S from to ds ≡ (ok tt, moved_dirs from to ds)
  unfolding move_dirs
  move_dirs_ok [] a = refl
  move_dirs_ok ((h, d) ∷ ds) a = ground (arith, relocate_ok d.path a.0, move_dirs_ok ds a.1)

  -- In consistent tables whose known paths and open directories have names that the SDK accepts,
  -- the part of a rename that follows the provider's confirmation runs to its end, between any two
  -- paths other than the root, and every open directory at or below `from` has its path at or
  -- below `to` afterwards.
  pub rename_state_ok :
      (s : State)
      → IsSound s
      → IsNamed S s
      → from ≢ root
      → to ≢ root
      → ((rename_state S from to s).0 ≡ ok tt)
        × ((rename_state S from to s).1.dirs ≡ moved_dirs from to s.dirs)
  unfolding rename_state
  rename_state_ok s v n ne ne' =
      let t = retire_path to s in
      let w = retire_path-IsSound to s ne' v in
      let named : (q : MountPath) (j : ℕ) → Dict.lookup q t.paths ≡ some j → AreNames S q =
        λ q j e. n.known q j (ground (arith, lookup-retire_path q to s)) in
      let z =
        move_paths_ok (moved from t.paths) t (moved-Movable from t t.paths ne w.distinct w.named)
          (moved-AllNamed S from t.paths w.distinct named) in
      let same = z.1 ∙ retire_path-dirs to s in
      rw (z.0, rename_state) (rw same (ground (arith, move_dirs_ok s.dirs n.opened)))
