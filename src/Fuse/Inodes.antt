-- ===== src/Fuse/Inodes.antt =====
-- src/fuse.rs, `struct State`: inode numbers, the paths they stand for and the references that
-- keep them alive.
pub mod Invariant
pub mod Lifetime
pub mod Lookup
pub mod Recreated
use shell_canvas_drive_bridg.Base.{
  ℕ, ◌+◌, ◌-◌, ◌%◌, ◌^◌, Bool, false, ◌&&◌, ◌||◌, not, Option, none, some, List, [], ◌∷◌, ok, err,
  Action, pure, ◌>>=◌, ◌>>◌, ltb, eqb, if◌then◌else◌, nat_eq, string_eq, list_eq,
}
use shell_canvas_drive_bridg.Base.Dict
use shell_canvas_drive_bridg.Base.Dict.{Dict}
use shell_canvas_drive_bridg.Sdk.{MountPath, root, FsDirectoryEntry}
use shell_canvas_drive_bridg.Fuse.Attributes.{Errno, eoverflow, estale}

pub record Node : Type 0 where
  pub path : Option MountPath
  pub lookups : ℕ
  pub opens : ℕ

abbrev pub node_path : Option Node → Option MountPath
node_path none = none
node_path (some n) = n.path

-- An open directory: its remote stream, if one is open, and what was read ahead of it.
pub record Directory : Type 0 where
  pub ino : ℕ
  pub path : MountPath
  pub remote : Option ℕ
  pub offset : ℕ
  pub pending : List FsDirectoryEntry
  pub eof : Bool

pub record State : Type 0 where
  pub next : ℕ
  pub nodes : Dict ℕ Node
  pub paths : Dict MountPath ℕ
  pub files : Dict ℕ ℕ
  pub dirs : Dict ℕ Directory

-- `State::new`
abbrev pub new : State
new = record {
  next = 1;
  nodes = (1, record { path = some root; lookups = 1; opens = 0 }) ∷ [];
  paths = (root, 1) ∷ [];
  files = [];
  dirs = [];
}

-- The inode number of a path: the known one, or the next one.
unfoldable pub register : MountPath → Action State Errno ℕ
register path s = elim (Dict.lookup path s.paths) [
  | some id ↦ (ok id, s)
  | none ↦
      if ltb (s.next + 1) (2 ^ 64)
      then (
        ok (s.next + 1),
        record s {
          next = s.next + 1;
          nodes =
              Dict.insert (s.next + 1) (record { path = some path; lookups = 0; opens = 0 })
                s.nodes;
          paths = Dict.insert path (s.next + 1) s.paths;
        },
      )
      else (err eoverflow, s)
]

-- `nodes.get_mut(&id).ok_or(ESTALE)?`, then an update in place.
unfoldable pub update_node : ℕ → (Node → Node) → Action State Errno (Unit {0})
update_node id f s = elim (Dict.lookup id s.nodes) [
  | none ↦ (err estale, s)
  | some n ↦ (ok tt, record s { nodes = Dict.insert id (f n) s.nodes })
]

-- `lookups += 1`, `opens += 1`: 64 bits, and the release build wraps.
abbrev pub count_lookup : Node → Node
count_lookup n = record n { lookups = (n.lookups + 1) % 2 ^ 64 }

abbrev pub count_open : Node → Node
count_open n = record n { opens = (n.opens + 1) % 2 ^ 64 }

unfoldable pub lookup : MountPath → Action State Errno ℕ
lookup path = do id ← register path; update_node id count_lookup; pure id

abbrev pub is_unreferenced : Option Node → Bool
is_unreferenced none = false
is_unreferenced (some n) = eqb n.lookups 0 && eqb n.opens 0

-- `nodes.remove(&id).and_then(|node| node.path)`, then the path goes too.
abbrev pub forget_path : Option Node → Dict MountPath ℕ → Dict MountPath ℕ
forget_path none d = d
forget_path (some n) d = elim n.path [ none ↦ d | some p ↦ Dict.erase p d ]

unfoldable pub collect : ℕ → State → State
collect id s = if eqb id 1 || not (is_unreferenced (Dict.lookup id s.nodes)) then s else record s {
  nodes = Dict.erase id s.nodes;
  paths = forget_path (Dict.lookup id s.nodes) s.paths;
}

-- `if let Some(node) = nodes.get_mut(&id)`, then an update in place.
unfoldable pub modify_node : ℕ → (Node → Node) → State → State
modify_node id f s = elim (Dict.lookup id s.nodes) [
  | none ↦ s
  | some n ↦ record s { nodes = Dict.insert id (f n) s.nodes }
]

unfoldable pub retire_path : MountPath → State → State
retire_path path s = elim (Dict.lookup path s.paths) [
  | none ↦ s
  | some id ↦ collect id (
      modify_node id (λ n. record n { path = none }) (record s { paths = Dict.erase path s.paths }))
]

-- `-` on ℕ stops at 0, as `saturating_sub` does.
unfoldable pub forget : ℕ → ℕ → State → State
forget id count s = collect id (modify_node id (λ n. record n { lookups = n.lookups - count }) s)

unfoldable pub release : ℕ → State → State
release id s = collect id (modify_node id (λ n. record n { opens = n.opens - 1 }) s)
