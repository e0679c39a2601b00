-- ===== src/Fuse/Rename/Tables.antt =====
-- src/fuse.rs, `Fs::rename`: the consistency of the tables, at the end of the loop or at an error.
use shell_canvas_drive_bridg.Base.{
  ℕ, ◌≡◌, ◌≢◌, refl, inl, inr, true, some, none, List, [], ◌∷◌, ◌++◌, ok, arith, starts_with,
  Option-cases, Result-cases, bind_cases, ◌>>◌, lift, nat_eq, string_eq, list_eq, length, drop,
}
use shell_canvas_drive_bridg.Base.Dict
use shell_canvas_drive_bridg.Base.Dict.{Dict}
use shell_canvas_drive_bridg.Sdk.{Sdk, IsLawful, MountPath, root}
use shell_canvas_drive_bridg.Sdk.Paths.{children, children-append}
use shell_canvas_drive_bridg.Fuse.Inodes
use shell_canvas_drive_bridg.Fuse.Inodes.{State, Node, node_path, modify_node, update_node}
use shell_canvas_drive_bridg.Fuse.Inodes.Invariant.{IsSound, retire_path-IsSound}
use shell_canvas_drive_bridg.Fuse.Rename.{moved, move_path, relocate, move_paths, rename_state}

-- What the loop relies on of the entries that it has still to move: each inode is at its old path,
-- which is not the root, and no inode comes twice.
abbrev pub Absent : ℕ → List (MountPath × ℕ) → Type 0
Absent id [] = Unit {0}
Absent id ((p, j) ∷ l) = (j ≢ id) × Absent id l

abbrev pub Movable : State → List (MountPath × ℕ) → Type 0
Movable s [] = Unit {0}
Movable s ((p, id) ∷ l) =
    (node_path (Dict.lookup id s.nodes) ≡ some p) × (p ≢ root) × Absent id l × Movable s l

move_path-IsSound :
    (old : MountPath) (id : ℕ) (new : MountPath) (s : State)
    → node_path (Dict.lookup id s.nodes) ≡ some old
    → old ≢ root
    → new ≢ root
    → IsSound s
    → IsSound (move_path old id new s).1
unfolding move_path update_node
move_path-IsSound old id new s at_old ne ne' v = elim (Option-cases (Dict.lookup id s.nodes)) [
  | inl e ↦ ground arith
  | inr (n, e) ↦
      rw (e, update_node)
        (record {
          named = λ q j h. ground (
            arith,
            Dict.lookup-insert q new id (Dict.erase old s.paths),
            Dict.lookup-erase q old s.paths,
            Dict.lookup-insert j id (record n { path = some new }) s.nodes,
            v.named q j,
          );
          bounded = λ j h.
              ground (
                arith,
                Dict.lookup-insert j id (record n { path = some new }) s.nodes,
                v.bounded j,
              );
          rooted = ground (
            arith,
            Dict.lookup-insert root new id (Dict.erase old s.paths),
            Dict.lookup-erase root old s.paths,
            v.rooted,
          );
          distinct =
              Dict.insert-NodupKeys new id (Dict.erase old s.paths)
                (Dict.erase-NodupKeys old s.paths v.distinct);
          root_only = λ j h. ground (
            arith,
            Dict.lookup-insert j id (record n { path = some new }) s.nodes,
            v.root_only j,
          );
        })
]

move_path-nodes :
    (old : MountPath) (id : ℕ) (new : MountPath) (s : State) (j : ℕ)
    → j ≢ id
    → Dict.lookup j (move_path old id new s).1.nodes ≡ Dict.lookup j s.nodes
unfolding move_path update_node
move_path-nodes old id new s j ne = elim (Option-cases (Dict.lookup id s.nodes)) [
  | inl e ↦ ground arith
  | inr (n, e) ↦
      rw (e, update_node)
        (ground (arith, Dict.lookup-insert j id (record n { path = some new }) s.nodes))
]

pub move_path-Movable :
    (old : MountPath) (id : ℕ) (new : MountPath) (s : State) (l : List (MountPath × ℕ))
    → Absent id l
    → Movable s l
    → Movable (move_path old id new s).1 l
move_path-Movable old id new s [] a m = tt
move_path-Movable old id new s ((p, j) ∷ l) a m = (
  rw (move_path-nodes old id new s j a.0) m.0,
  m.1,
  m.2,
  move_path-Movable old id new s l a.1 m.3,
)

module _ (S : Sdk) (L : IsLawful S) where
  pub relocate-append :
      (from to old new : MountPath)
      → relocate S from to old ≡ ok new
      → new ≡ to ++ drop (length from) old
  unfolding relocate
  relocate-append from to old new h = elim (Result-cases (children S to (drop (length from) old))) [
    | inl (e, c) ↦ ground arith
    | inr (t, c) ↦ ground (arith, children-append S L to (drop (length from) old) t c)
  ]

append-ne-root : (p q : MountPath) → p ≢ root → p ++ q ≢ root
append-ne-root [] q h = absurd (h refl)
append-ne-root (n ∷ p) q h = λ e. cc

starts_with-ne-root : (p from : MountPath) → from ≢ root → starts_with p from ≡ true → p ≢ root
unfolding starts_with
starts_with-ne-root [] [] ne h = absurd (ne refl)
starts_with-ne-root [] (n ∷ from) ne h = absurd (ground arith)
starts_with-ne-root (m ∷ p) from ne h = λ e. cc

-- A pair at the head of a dict without double keys hides no other.
pub lookup-tail :
    (p q : MountPath) (id j : ℕ) (d : Dict MountPath ℕ)
    → Dict.lookup p d ≡ none
    → Dict.lookup q d ≡ some j
    → Dict.lookup q ((p, id) ∷ d) ≡ some j
unfolding Dict.lookup
lookup-tail p q id j d fresh h = ground arith

moved-Absent :
    (from : MountPath) (id : ℕ) (d : Dict MountPath ℕ)
    → Dict.NodupKeys d
    → ((q : MountPath) (j : ℕ) → Dict.lookup q d ≡ some j → j ≢ id)
    → Absent id (moved from d)
unfolding moved Dict.lookup
moved-Absent from id [] u h = tt
moved-Absent from id ((p, j) ∷ d) u h =
    let rest : Absent id (moved from d) =
      moved-Absent from id d u.1 (λ q k e. h q k (lookup-tail p q j k d u.0 e)) in
    ground (arith, rest, h p j)

pub moved-Movable :
    (from : MountPath) (s : State) (d : Dict MountPath ℕ)
    → from ≢ root
    → Dict.NodupKeys d
    → ((q : MountPath) (j : ℕ)
        → Dict.lookup q d ≡ some j
        → node_path (Dict.lookup j s.nodes) ≡ some q)
    → Movable s (moved from d)
unfolding moved Dict.lookup
moved-Movable from s [] ne u h = tt
moved-Movable from s ((p, id) ∷ d) ne u h =
    let rest : Movable s (moved from d) =
      moved-Movable from s d ne u.1 (λ q k e. h q k (lookup-tail p q id k d u.0 e)) in
    let apart : Absent id (moved from d) =
      moved-Absent from id d u.1
        (λ q k e same. ground (arith, h p id, h q k (lookup-tail p q id k d u.0 e))) in
    ground (arith, rest, apart, h p id, starts_with-ne-root p from ne)

module _ (S : Sdk) (L : IsLawful S) where
  pub move_paths-IsSound :
      (from to : MountPath) (l : List (MountPath × ℕ)) (s : State)
      → to ≢ root
      → Movable s l
      → IsSound s
      → IsSound (move_paths S from to l s).1
  unfolding move_paths
  move_paths-IsSound from to [] s ne m v = v
  move_paths-IsSound from to ((old, id) ∷ l) s ne m v =
      bind_cases (λ r. IsSound r.1) (λ new. move_path old id new >> move_paths S from to l)
        (lift (relocate S from to old)) s (λ x e. v)
        (λ new e.
          let ne' : new ≢ root =
            rw (relocate-append S L from to old new e) (append-ne-root to _ ne) in
          bind_cases (λ r. IsSound r.1) (λ u. move_paths S from to l) (move_path old id new) s
            (λ x r. move_path-IsSound old id new s m.0 m.1 ne' v)
            (λ u r.
              move_paths-IsSound from to l _ ne (move_path-Movable old id new s l m.2 m.3)
                (move_path-IsSound old id new s m.0 m.1 ne' v)))

  -- The tables stay consistent through a rename, whichever paths are known below its source or
  -- its target and also when it stops half way.
  pub rename_state-IsSound :
      (from to : MountPath) (s : State)
      → from ≢ root
      → to ≢ root
      → IsSound s
      → IsSound (rename_state S from to s).1
  unfolding rename_state
  rename_state-IsSound from to s ne ne' v =
      let t = Inodes.retire_path to s in
      let w : IsSound t = retire_path-IsSound to s ne' v in
      let m : Movable t (moved from t.paths) = moved-Movable from t t.paths ne w.distinct w.named in
      let z : IsSound (move_paths S from to (moved from t.paths) t).1 =
        move_paths-IsSound from to (moved from t.paths) t ne' m w in
      elim (Result-cases (move_paths S from to (moved from t.paths) t).0) [
        | inl (x, r) ↦ rw (r, rename_state) z
        | inr (u, r) ↦
            rw (r, rename_state)
              (record {
                named = z.named;
                bounded = z.bounded;
                rooted = z.rooted;
                distinct = z.distinct;
                root_only = z.root_only;
              })
      ]
