-- ===== src/Tests/Fuse.antt =====
-- Runs of the FUSE backend: sessions, inodes and renames.
use shell_canvas_drive_bridg.Base.{
  ℕ, ◌≡◌, ◌≢◌, refl, false, none, some, [], ◌∷◌, String, ok, arith, starts_with, nat_eq, string_eq,
  list_eq,
}
use shell_canvas_drive_bridg.Base.Dict
use shell_canvas_drive_bridg.Sdk.{root, MountPath, Value, FsKind, FsMetadata}
use shell_canvas_drive_bridg.Sdk.Paths.{children}
use shell_canvas_drive_bridg.Sdk.Scripted.{scripted, scripted-IsLawful, script}
use shell_canvas_drive_bridg.Fuse.Attributes.{linux}
use shell_canvas_drive_bridg.Fuse.Inodes
use shell_canvas_drive_bridg.Fuse.Inodes.{State, Node, Directory, node_path}
use shell_canvas_drive_bridg.Fuse.Inodes.Invariant.{IsSound, lookup-IsSound}
use shell_canvas_drive_bridg.Fuse.Inodes.Lifetime.{survivor, references-lifetime}
use shell_canvas_drive_bridg.Fuse.Inodes.Recreated.{recreated_path}
use shell_canvas_drive_bridg.Fuse.Session.{Fs}
use shell_canvas_drive_bridg.Fuse.Directories.{fresh}
use shell_canvas_drive_bridg.Fuse.Rename.{
  rename_state, move_paths, move_path, moved, move_dirs, relocate,
}
use shell_canvas_drive_bridg.Fuse.Rename.Subtree.{rename_state_moved, rename_state_outside}
use shell_canvas_drive_bridg.Fuse.Rename.Success.{
  AllNamed, IsNamed, lookup-AreNames, moved_dirs, rename_state_ok,
}
use shell_canvas_drive_bridg.Fuse.Names
use shell_canvas_drive_bridg.Fuse.Requests.{Step, Reach, mounted}
use shell_canvas_drive_bridg.Fuse.Sound.Session.{session-IsSound, mounted-IsSound}
use shell_canvas_drive_bridg.Tests.Memory.{buffer}

abbrev folder : FsMetadata
folder = record {
  kind = FsKind.directory;
  size = 0;
  accessed = none;
  modified = none;
  permissions = none;
}

abbrev start : Fs scripted
start = mounted scripted (script (ok (Value.metadata folder) ∷ [])) 1000 1000

abbrev looked_up : Fs scripted
looked_up = (Names.lookup scripted 1 (some "a") start).1

abbrev session_end : Fs scripted
session_end = Names.forget scripted 2 1 looked_up

-- A lookup that the provider answers, and a forget.
session-IsSound_example : IsSound session_end.state
session-IsSound_example =
    session-IsSound scripted scripted-IsLawful buffer linux
      (script (ok (Value.metadata folder) ∷ [])) 1000 1000 session_end
      (Reach.next {t = looked_up} (Reach.next {t = start} Reach.here (Step.lookup 1 (some "a")))
        (Step.forget 2 1))

-- Three known paths: `a`, `a/x` and `c`.
abbrev tree : State
tree =
    (Inodes.lookup ("c" ∷ [])
      (Inodes.lookup ("a" ∷ "x" ∷ []) (Inodes.lookup ("a" ∷ []) Inodes.new).1).1).1

tree-IsSound : IsSound tree
tree-IsSound = lookup-IsSound ("c" ∷ []) _ (
    lookup-IsSound ("a" ∷ "x" ∷ []) _ (
      lookup-IsSound ("a" ∷ []) Inodes.new
        (mounted-IsSound scripted scripted-IsLawful (script []) 0 0)))

abbrev path_a : MountPath
path_a = "a" ∷ []

abbrev path_b : MountPath
path_b = "b" ∷ []

abbrev path_c : MountPath
path_c = "c" ∷ []

not_below : starts_with path_a path_b ≡ false
unfolding starts_with list_eq string_eq
not_below = refl

not_above : starts_with path_b path_a ≡ false
unfolding starts_with list_eq string_eq
not_above = refl

abbrev renamed_tree : State
renamed_tree = (rename_state scripted path_a path_b tree).1

renames : (rename_state scripted path_a path_b tree).0 ≡ ok tt
unfolding rename_state move_paths move_path moved move_dirs relocate children Inodes.lookup
    Inodes.register Inodes.update_node Inodes.retire_path Inodes.collect Inodes.modify_node
    Dict.lookup Dict.insert Dict.erase starts_with list_eq nat_eq string_eq
renames = refl

knows : Dict.lookup ("a" ∷ "x" ∷ []) tree.paths ≡ some 3
unfolding Inodes.lookup Inodes.register Inodes.update_node Dict.lookup Dict.insert Dict.erase
    list_eq nat_eq string_eq
knows = refl

not_root : (n : String) → (n ∷ []) ≢ root
not_root n e = cc

rename_state_moved_example :
    (Dict.lookup ("b" ∷ "x" ∷ []) renamed_tree.paths ≡ some 3)
    × (node_path (Dict.lookup 3 renamed_tree.nodes) ≡ some ("b" ∷ "x" ∷ []))
    × (Dict.lookup ("a" ∷ "x" ∷ []) renamed_tree.paths ≡ none)
rename_state_moved_example =
    rename_state_moved scripted scripted-IsLawful path_a path_b not_below not_above tree ("x" ∷ [])
      3 tree-IsSound (not_root "a") (not_root "b") renames knows

outside : (starts_with path_c path_a ≡ false) × (starts_with path_c path_b ≡ false)
unfolding starts_with list_eq string_eq
outside = (refl, refl)

rename_state_outside_example : Dict.lookup path_c renamed_tree.paths ≡ Dict.lookup path_c tree.paths
rename_state_outside_example =
    rename_state_outside scripted scripted-IsLawful path_a path_b not_below not_above tree path_c
      tree-IsSound (not_root "a") (not_root "b") renames outside.0 outside.1

-- The same tree with `a` open as a directory.
abbrev open_tree : State
open_tree = record tree { dirs = (9, fresh 2 path_a 9) ∷ [] }

open_tree-IsSound : IsSound open_tree
open_tree-IsSound = record {
  named = tree-IsSound.named;
  bounded = tree-IsSound.bounded;
  rooted = tree-IsSound.rooted;
  distinct = tree-IsSound.distinct;
  root_only = tree-IsSound.root_only;
}

tree-AllNamed : AllNamed scripted tree.paths
unfolding Inodes.lookup Inodes.register Inodes.update_node Dict.lookup Dict.insert Dict.erase
    list_eq nat_eq string_eq
tree-AllNamed = ((refl, tt), ((refl, (refl, tt)), ((refl, tt), (tt, tt))))

open_tree-IsNamed : IsNamed scripted open_tree
unfolding string_eq
open_tree-IsNamed = record {
  known = λ p id e. lookup-AreNames scripted tree.paths p id tree-AllNamed e;
  opened = ((refl, tt), tt);
}

rename_state_ok_example :
    ((rename_state scripted path_a path_b open_tree).0 ≡ ok tt)
    × ((rename_state scripted path_a path_b open_tree).1.dirs
        ≡ moved_dirs path_a path_b open_tree.dirs)
rename_state_ok_example =
    rename_state_ok scripted scripted-IsLawful path_a path_b open_tree open_tree-IsSound
      open_tree-IsNamed (not_root "a") (not_root "b")

-- Inode 2, with three lookups and one open reference.
abbrev used_node : Node
used_node = record { path = some path_a; lookups = 3; opens = 1 }

abbrev used : State
used = record {
  next = 2;
  nodes = (2, used_node) ∷ (1, record { path = some root; lookups = 1; opens = 0 }) ∷ [];
  paths = (path_a, 2) ∷ (root, 1) ∷ [];
  files = [];
  dirs = [];
}

found_used : Dict.lookup 2 used.nodes ≡ some used_node
unfolding Dict.lookup nat_eq
found_used = refl

references-lifetime_example :
    (Dict.lookup 2 (Inodes.forget 2 3 used).nodes ≡ survivor (record used_node { lookups = 0 }))
    × (Dict.lookup 2 (Inodes.release 2 used).nodes ≡ survivor (record used_node { opens = 0 }))
    × (Dict.lookup 1 (Inodes.forget 2 3 used).nodes ≡ Dict.lookup 1 used.nodes)
    × (Dict.lookup 1 (Inodes.release 2 used).nodes ≡ Dict.lookup 1 used.nodes)
references-lifetime_example =
    references-lifetime 2 3 1 used_node used (ground arith) found_used (ground arith)

abbrev recreated : State
recreated = (Inodes.lookup path_a (Inodes.retire_path path_a tree)).1

recreates : Inodes.lookup path_a (Inodes.retire_path path_a tree) ≡ (ok 5, recreated)
unfolding Inodes.lookup Inodes.register Inodes.update_node Inodes.retire_path Inodes.collect
    Inodes.modify_node Dict.lookup Dict.insert Dict.erase list_eq nat_eq string_eq
recreates = refl

knows_a : Dict.lookup path_a tree.paths ≡ some 2
unfolding Inodes.lookup Inodes.register Inodes.update_node Dict.lookup Dict.insert Dict.erase
    list_eq nat_eq string_eq
knows_a = refl

recreated_path_example :
    (◌≢◌ {A = ℕ} 5 2)
    × (Dict.lookup path_a recreated.paths ≡ some 5)
    × (Dict.lookup path_a (Inodes.forget 2 1 recreated).paths ≡ some 5)
    × (Dict.lookup path_a (Inodes.release 2 recreated).paths ≡ some 5)
recreated_path_example = recreated_path path_a tree recreated 2 5 1 tree-IsSound knows_a recreates
