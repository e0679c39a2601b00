-- ===== src/Windows/Volume/History.antt =====
-- src/windows.rs: what every history of a volume keeps.
use shell_canvas_drive_bridg.Base.{
  ◌≡◌, refl, sym, subst, Bool, List, ◌∷◌, ◌++◌, Action, lift, ◌>>=◌, bind_cases, nat_eq, string_eq,
  list_eq,
}
use shell_canvas_drive_bridg.Base.Dict
use shell_canvas_drive_bridg.Sdk.{Sdk, MountPath, FsCapabilities}
use shell_canvas_drive_bridg.Windows.Status.{NtStatus}
use shell_canvas_drive_bridg.Windows.Names.{WideName, path}
use shell_canvas_drive_bridg.Windows.Contexts.{Context, Fs}
use shell_canvas_drive_bridg.Windows.Opening
use shell_canvas_drive_bridg.Windows.Namespace
use shell_canvas_drive_bridg.Windows.Steady
use shell_canvas_drive_bridg.Windows.Steady.Changes
use shell_canvas_drive_bridg.Windows.Steady.{Tables, tables, Steady}
use shell_canvas_drive_bridg.Windows.Steady.Listing.{read_directory-tables}
use shell_canvas_drive_bridg.Windows.Volume.{Volume, WinFsp, Query, Step, Reach, started}
use shell_canvas_drive_bridg.Windows.Volume.Moved.{rename-Moved, Moved-IsMatched}
use shell_canvas_drive_bridg.Windows.Volume.Sound.{Fits, IsFit, drop_context-Fits, directory-Fits}
use shell_canvas_drive_bridg.Windows.Volume.Opened.{
  IsSound, open_entry-IsSound, create-IsSound, turn-Fits,
}

module _ (S : Sdk) where
  rename_paths-Fits :
      (from to : MountPath) (replace : Bool) (fs : Fs S) (cs : List Context)
      → Fits 0 fs cs
      → Fits 0 (Namespace.rename_paths S from to replace fs).1 cs
  unfolding Namespace.rename_paths
  rename_paths-Fits from to replace fs cs v =
      let moved =
        rename-Moved S from to (Namespace.send_rename S from to replace) fs.handles fs.remote in
      (v.0, Moved-IsMatched fs.handles _ fs.next cs moved v.1)

  rename-Fits :
      (old new : WideName) (replace : Bool) (fs : Fs S) (cs : List Context)
      → Fits 0 fs cs
      → Fits 0 (Namespace.rename S old new replace fs).1 cs
  unfolding Namespace.rename
  rename-Fits old new replace fs cs v =
      let after : MountPath → Action (Fs S) NtStatus (Unit {0}) =
        λ to. lift (path S old) >>= λ from. Namespace.rename_paths S from to replace in
      bind_cases (λ r. Fits 0 r.1 cs) after (lift (path S new)) fs (λ _ _. v)
        (λ to _.
          bind_cases (λ r. Fits 0 r.1 cs) (λ from. Namespace.rename_paths S from to replace)
            (lift (path S old)) fs (λ _ _. v) (λ from _. rename_paths-Fits from to replace fs cs v))

  -- A callback that leaves the gate and the registry alone.
  same : {t t' : Tables} (cs : List Context) → t' ≡ t → IsFit 0 t cs → IsFit 0 t' cs
  same cs e v = subst (λ t. IsFit 0 t cs) (sym e) v

  module _ (W : WinFsp) where
    pub Query-tables : {fs t : Fs S} → Query S W fs t → tables t ≡ tables fs
    Query-tables {fs} (Query.get_security_by_name name) =
        Changes.get_security_by_name-Steady S name fs
    Query-tables {fs} (Query.get_file_info c) = Steady.get_file_info-Steady S c fs
    Query-tables {fs} (Query.read c size offset) = Steady.read-Steady S c size offset fs
    Query-tables {fs} (Query.write c bytes offset eof constrained) =
        Steady.write-Steady S c bytes offset eof constrained fs
    Query-tables {fs} (Query.flush c) = Steady.flush-Steady S c fs
    Query-tables {fs} (Query.set_file_size c size allocation) =
        Steady.set_file_size-Steady S c size allocation fs
    Query-tables {fs} (Query.overwrite c requested replace) =
        Changes.overwrite-Steady S c requested replace fs
    Query-tables {fs} (Query.set_basic_info c requested created access written changed) =
        Changes.set_basic_info-Steady S c requested created access written changed fs
    Query-tables {fs} (Query.set_delete c delete) = Changes.set_delete-Steady S c delete fs
    Query-tables {fs} (Query.cleanup c name flags) =
        Changes.cleanup-tables S W.status_text c name flags fs
    Query-tables {fs} Query.get_volume_info = Changes.get_volume_info-Steady S fs

    pub Step-IsSound : {v w : Volume S} → Step S W v w → IsSound v → IsSound w
    unfolding Opening.close
    Step-IsSound {v = v} (Step.query q) s = same v.contexts (Query-tables q) s
    Step-IsSound {v = v} (Step.open_entry name options access) s =
        open_entry-IsSound S name options access v.fs v.contexts s
    Step-IsSound {v = v} (Step.create name options access requested) s =
        create-IsSound S name options access requested v.fs v.contexts s
    Step-IsSound {v = v} (Step.close newer older c at) s =
        drop_context-Fits S c newer older v.fs (rw at at s)
    Step-IsSound {v = v} (Step.rename old new replace) s =
        rename-Fits old new replace v.fs v.contexts s
    Step-IsSound {v = v} (Step.read_directory {t} {d} newer older c fuel marker b r at e) s =
        directory-Fits S c d newer older t (
          same (newer ++ (c ∷ older))
            (read_directory-tables S W.buffer fuel c marker b v.fs r d t e) (rw at at s))
    Step-IsSound {v = v} Step.turn s = turn-Fits S W.gate_text v.fs v.contexts s

    pub Reach-IsSound : {v w : Volume S} → Reach S W v w → IsSound v → IsSound w
    Reach-IsSound Reach.here s = s
    Reach-IsSound (Reach.next r st) s = Step-IsSound st (Reach-IsSound r s)

    -- In every history of a volume the gate's count is that of the open contexts that block a
    -- detach, a shut gate means that there is none, every open context has its descriptor with its
    -- remote file, and the registry of descriptors has no other and can reach each.
    pub history-IsSound :
        (r : S.Remote) (caps : FsCapabilities) (v : Volume S)
        → Reach S W (started S r caps) v
        → IsSound v
    unfolding Dict.lookup
    history-IsSound r caps v run = Reach-IsSound run (
      record { counted = refl; sound = refl; shut = λ e. refl },
      record { ordered = tt; alive = tt; owned = λ id f e. cc; reached = λ id h e. cc },
    )
