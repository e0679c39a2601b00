-- ===== src/Fuse/Rename/Entries.antt =====
-- src/fuse.rs, `Fs::rename`: the entries that are moved, and the paths that are retired.
use shell_canvas_drive_bridg.Base.{
  ℕ, ◌≡◌, refl, inl, inr, true, false, none, [], ◌∷◌, ◌++◌, arith, starts_with, Option-cases,
  nat_eq, string_eq, list_eq, if◌then◌else◌, ◌==◌,
}
use shell_canvas_drive_bridg.Base.Dict
use shell_canvas_drive_bridg.Base.Dict.{Dict}
use shell_canvas_drive_bridg.Sdk.{MountPath}
use shell_canvas_drive_bridg.Fuse.Inodes
use shell_canvas_drive_bridg.Fuse.Inodes.{State, Node, node_path, retire_path, collect, modify_node}
use shell_canvas_drive_bridg.Fuse.Rename.{moved, move_path}

-- Of two paths with a common extension, one is at or below the other.
pub starts_with_common :
    (to q from : MountPath)
    → starts_with (to ++ q) from ≡ true
    → starts_with to from ≡ false
    → starts_with from to ≡ true
unfolding starts_with
starts_with_common [] q from h apart = refl
starts_with_common (m ∷ to) q [] h apart = absurd (ground arith)
starts_with_common (m ∷ to) q (n ∷ from) h apart = ground (arith, starts_with_common to q from)

pub append_cancel : (p q r : MountPath) → p ++ q ≡ p ++ r → q ≡ r
append_cancel [] q r e = e
append_cancel (n ∷ p) q r e = append_cancel p q r (cc)

pub lookup-moved :
    (from p : MountPath) (d : Dict MountPath ℕ)
    → Dict.lookup p (moved from d) ≡ (if starts_with p from then Dict.lookup p d else none)
unfolding moved Dict.lookup
lookup-moved from p [] = ground arith
lookup-moved from p ((j, id) ∷ d) = ground (arith, lookup-moved from p d)

pub moved-NodupKeys :
    (from : MountPath) (d : Dict MountPath ℕ) → Dict.NodupKeys d → Dict.NodupKeys (moved from d)
unfolding moved
moved-NodupKeys from [] u = tt
moved-NodupKeys from ((j, id) ∷ d) u =
    ground (arith, lookup-moved from j d, moved-NodupKeys from d u.1)

-- A retired path is forgotten, and no other.
pub lookup-retire_path :
    (q p : MountPath) (s : State)
    → Dict.lookup q (retire_path p s).paths ≡ (if q == p then none else Dict.lookup q s.paths)
unfolding retire_path collect modify_node
lookup-retire_path q p s = elim (Option-cases (Dict.lookup p s.paths)) [
  | inl gone ↦ rw (gone, retire_path) (ground arith)
  | inr (id, known) ↦ elim (Option-cases (Dict.lookup id s.nodes)) [
    | inl e ↦ rw (known, retire_path) (ground (arith, Dict.lookup-erase q p s.paths))
    | inr (n, e) ↦
        rw (known, retire_path)
          (ground (
            arith,
            Dict.lookup-erase q p s.paths,
            Dict.lookup-insert id id (record n { path = none }) s.nodes,
          ))
  ]
]

pub move_path-paths :
    (old : MountPath) (id : ℕ) (new : MountPath) (s : State)
    → (move_path old id new s).1.paths ≡ Dict.insert new id (Dict.erase old s.paths)
unfolding move_path Inodes.update_node
move_path-paths old id new s = ground arith
