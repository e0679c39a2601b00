-- ===== src/Windows/Volume/Paths.antt =====
-- src/windows.rs and src/windows_handles.rs, in a history of the volume: the paths of open contexts.
use shell_canvas_drive_bridg.Base.{
  ℕ, ◌≡◌, refl, sym, ap, ◌∙◌, Bool, some, List, [], ◌∷◌, ◌++◌, ok, arith, if◌then◌else◌,
  starts_with, inl, inr, Option-cases, nat_eq, string_eq, list_eq,
}
use shell_canvas_drive_bridg.Base.Dict
use shell_canvas_drive_bridg.Sdk.{Sdk, IsLawful, MountPath, FsCapabilities}
use shell_canvas_drive_bridg.Windows.Names.{WideName, path}
use shell_canvas_drive_bridg.Windows.Handles
use shell_canvas_drive_bridg.Windows.Handles.{OpenHandle, OpenHandles}
use shell_canvas_drive_bridg.Windows.Handles.Rename.{renamed, target}
use shell_canvas_drive_bridg.Windows.Handles.Renamed.{rename-renamed}
use shell_canvas_drive_bridg.Windows.Contexts.{Context, Fs, context_path, path_of}
use shell_canvas_drive_bridg.Windows.Namespace.{rename, rename_paths, send_rename}
use shell_canvas_drive_bridg.Windows.Volume.{Volume, WinFsp, Reach, started}
use shell_canvas_drive_bridg.Windows.Volume.Registry.{Alive}
use shell_canvas_drive_bridg.Windows.Volume.History.{history-IsSound}

Alive-descriptor :
    (t : OpenHandles) (newer older : List Context) (c : Context)
    → Alive t (newer ++ (c ∷ older))
    → (h : OpenHandle) × (Dict.lookup c.tracked t.live ≡ some h)
Alive-descriptor t [] older c (a, _) = elim (Option-cases (Dict.lookup c.tracked t.live)) [
  | inl gone ↦ absurd (ground (arith, gone, a))
  | inr found ↦ found
]
Alive-descriptor t (x ∷ newer) older c (_, a) = Alive-descriptor t newer older c a

-- Where a path stands after a rename.
abbrev pub moved_path : MountPath → MountPath → MountPath → MountPath
moved_path from to p = if starts_with p from then target from to p else p

renamed-path :
    (from to : MountPath) (h : OpenHandle) → (renamed from to h).path ≡ moved_path from to h.path
renamed-path from to h = ground arith

module _ (S : Sdk) where
  path_found :
      (id : ℕ) (t : OpenHandles) (h : OpenHandle)
      → Dict.lookup id t.live ≡ some h
      → path_of S id t ≡ ok h.path
  path_found id t h e = rw (e, path_of) refl

  rename_done :
      (old new : WideName) (replace : Bool) (fs : Fs S) (from to : MountPath)
      → path S old ≡ ok from
      → path S new ≡ ok to
      → rename S old new replace fs ≡ rename_paths S from to replace fs
  unfolding rename
  rename_done old new replace fs from to a b = rw (b, a) refl

  paths-handles :
      (from to : MountPath) (replace : Bool) (fs : Fs S)
      → (rename_paths S from to replace fs).1.handles
        ≡ (Handles.rename S from to (send_rename S from to replace) (fs.handles, fs.remote)).1
  unfolding rename_paths
  paths-handles from to replace fs = refl

  paths_ok :
      (from to : MountPath) (replace : Bool) (fs : Fs S)
      → (rename_paths S from to replace fs).0 ≡ ok tt
      → (Handles.rename S from to (send_rename S from to replace) (fs.handles, fs.remote)).0 ≡ ok tt
  unfolding rename_paths
  paths_ok from to replace fs e = ground arith

  module _ (L : IsLawful S) (W : WinFsp) where
    -- In every history every open context has a path, and after a rename that succeeds it has the
    -- path that the rename moves the old one to.
    pub rename-context_path :
        (r : S.Remote) (caps : FsCapabilities) (v : Volume S) (newer older : List Context)
        (c : Context) (old new : WideName) (from to : MountPath) (replace : Bool)
        → Reach S W (started S r caps) v
        → v.contexts ≡ newer ++ (c ∷ older)
        → path S old ≡ ok from
        → path S new ≡ ok to
        → (rename S old new replace v.fs).0 ≡ ok tt
        → (p : MountPath) × (context_path S c v.fs ≡ (ok p, v.fs))
          × ((context_path S c (rename S old new replace v.fs).1).0 ≡ ok (moved_path from to p))
    rename-context_path r caps v newer older c old new from to replace run at a b done =
        let m = (history-IsSound S W r caps v run).1 in
        let (h, found) = Alive-descriptor v.fs.handles newer older c (rw at at m.alive) in
        let same = rename_done old new replace v.fs from to a b in
        let done' = paths_ok from to replace v.fs (ap (λ x. x.0) (sym same) ∙ done) in
        let found' =
          rename-renamed S L from to (send_rename S from to replace) v.fs.handles v.fs.remote
            c.tracked h m.reached done' found in
        let here = paths-handles from to replace v.fs in
        let after =
          (Handles.rename S from to (send_rename S from to replace)
            (v.fs.handles, v.fs.remote)).1 in
        (
          h.path,
          ap (λ o. (o, v.fs)) (path_found c.tracked v.fs.handles h found),
          ap (λ x. path_of S c.tracked x.1.handles) same
              ∙ ap (path_of S c.tracked) here
              ∙ path_found c.tracked after (renamed from to h) found'
              ∙ ap ok (renamed-path from to h),
        )
