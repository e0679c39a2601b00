-- ===== src/Fuse/Rename.antt =====
-- src/fuse.rs, `Fs::rename`: what happens to the tables of paths and open directories once the
-- provider has renamed.
pub mod Tables
pub mod Entries
pub mod Loop
pub mod Subtree
pub mod Success
use shell_canvas_drive_bridg.Base.{
  ℕ, some, List, [], ◌∷◌, String, Result, ok, err, map_err, then_result, Action, pure, lift, ◌>>=◌,
  ◌>>◌, if◌then◌else◌, length, drop, starts_with, nat_eq, string_eq, list_eq,
}
use shell_canvas_drive_bridg.Base.Dict
use shell_canvas_drive_bridg.Base.Dict.{Dict}
use shell_canvas_drive_bridg.Sdk.{Sdk, MountPath, FsResult}
use shell_canvas_drive_bridg.Sdk.Paths.{children}
use shell_canvas_drive_bridg.Fuse.Attributes.{Errno, errno}
use shell_canvas_drive_bridg.Fuse.Inodes
use shell_canvas_drive_bridg.Fuse.Inodes.{State, Directory, update_node}

-- The entries of `state.paths` at or below `from`.
unfoldable pub moved : MountPath → Dict MountPath ℕ → List (MountPath × ℕ)
moved from [] = []
moved from ((p, id) ∷ d) =
    let rest = moved from d in if starts_with p from then (p, id) ∷ rest else rest

unfoldable pub move_path : MountPath → ℕ → MountPath → Action State Errno (Unit {0})
move_path old id new s =
    update_node id (λ n. record n { path = some new })
      (record s { paths = Dict.insert new id (Dict.erase old s.paths) })

module _ (S : Sdk) where
  -- The path below `to` that `old` has below `from`.
  unfoldable pub relocate : MountPath → MountPath → MountPath → Result Errno MountPath
  relocate from to old = map_err errno (children S to (drop (length from) old))

  unfoldable pub move_paths :
      MountPath → MountPath → List (MountPath × ℕ) → Action State Errno (Unit {0})
  move_paths from to [] = pure tt
  move_paths from to ((old, id) ∷ rest) = do
    new ← lift (relocate from to old)
    move_path old id new
    move_paths from to rest

  -- `for directory in state.dirs.values_mut()`: an error leaves the later ones as they were.
  unfoldable pub move_dirs :
      MountPath → MountPath → Dict ℕ Directory → Result Errno (Unit {0}) × Dict ℕ Directory
  move_dirs from to [] = (ok tt, [])
  move_dirs from to ((h, d) ∷ ds) =
      let (r, ds') = move_dirs from to ds in
      if starts_with d.path from
      then elim (relocate from to d.path) [
        | err e ↦ (err e, (h, d) ∷ ds)
        | ok new ↦ (r, (h, record d { path = new }) ∷ ds')
      ]
      else (r, (h, d) ∷ ds')

  -- What `rename` does to the tables once the provider has renamed.
  unfoldable pub rename_state : MountPath → MountPath → Action State Errno (Unit {0})
  rename_state from to s =
      let t = Inodes.retire_path to s in
      let (r, u) = move_paths from to (moved from t.paths) t in
      elim r [
        | err e ↦ (err e, u)
        | ok _ ↦ let (r', ds) = move_dirs from to u.dirs in (r', record u { dirs = ds })
      ]
