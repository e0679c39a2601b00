-- ===== src/Fuse/Handles/Streams.antt =====
-- src/fuse.rs: the handlers on directories. Every stream that they open is closed by a rewind or
-- with the directory.
use shell_canvas_drive_bridg.Base.{
  ℕ, ◌≡◌, ◌≤◌, refl, sym, subst, false, some, ok, err, map_err, Action, pure, lift, ◌>>=◌, ◌>>◌,
  bind_cases, bind_ok, bind_err, Bool-cases, Option-cases, inl, inr, arith, nat_eq,
}
use shell_canvas_drive_bridg.Base.Dict
use shell_canvas_drive_bridg.Base.Dict.{Dict}
use shell_canvas_drive_bridg.Sdk.{Sdk, Operation, Value, FsResult, MountPath}
use shell_canvas_drive_bridg.Sdk.Handles.{Handles}
use shell_canvas_drive_bridg.Fuse.Attributes.{Errno, errno, eio}
use shell_canvas_drive_bridg.Fuse.Inodes
use shell_canvas_drive_bridg.Fuse.Inodes.{State, Directory, node_path, update_node, count_open}
use shell_canvas_drive_bridg.Fuse.Session.{Fs, locked, call, path, as_handle}
use shell_canvas_drive_bridg.Fuse.Cursor.{close_stream}
use shell_canvas_drive_bridg.Fuse.Directories
use shell_canvas_drive_bridg.Fuse.Directories.{
  record_dir, take_dir, close_dir, finish_dir, fresh, insert_dir, put_stream, filled,
}
use shell_canvas_drive_bridg.Fuse.Handles.{
  Spare, IsHeld, Holds, new_stream, open_stream-IsHeld, insert_dir-IsHeld,
}
use shell_canvas_drive_bridg.Fuse.Handles.Steps.{
  same-IsHeld, update_node-SameHandles, release-SameHandles, path-Keeps, Keeps-locked,
}
use shell_canvas_drive_bridg.Fuse.Handles.Files.{path_ok, path_same}
use shell_canvas_drive_bridg.Fuse.Handles.Cursors.{take-IsHeld}

count_known :
    (ino : ℕ) (p : MountPath) (s : State)
    → node_path (Dict.lookup ino s.nodes) ≡ some p
    → (update_node ino count_open s).0 ≡ ok tt
unfolding update_node
count_known ino p s at = ground (arith, at)

module _ {S : Sdk} (H : Handles S) where
  record_dir-Holds :
      (ino : ℕ) (p : MountPath) (h : ℕ) (fs : Fs S)
      → fs.poisoned ≡ false
      → node_path (Dict.lookup ino fs.state.nodes) ≡ some p
      → h ≤ H.issued fs.remote
      → Holds H (Spare.stream h) fs
      → Holds H Spare.nothing (locked S (record_dir ino p h) fs).1
  unfolding record_dir
  record_dir-Holds ino p h fs unlocked at issued v =
      let s = fs.state in
      let w =
        same-IsHeld H (Spare.stream h) s (update_node ino count_open s).1
          (update_node-SameHandles ino count_open s) v in
      let counted = count_known ino p s at in
      let whole : locked S (record_dir ino p h) fs ≡ (
        ok tt,
        record fs { state = insert_dir h (fresh ino p h) (update_node ino count_open s).1 },
      ) =
        ground (arith, unlocked, counted) in
      subst (λ r. Holds H Spare.nothing r.1) (sym whole)
        (insert_dir-IsHeld H h (fresh ino p h) refl issued w)

  abbrev recorded : ℕ → MountPath → Value → Action (Fs S) Errno ℕ
  recorded ino p v = do h ← lift (as_handle v); locked S (record_dir ino p h); pure h

  replied-Holds :
      (ino : ℕ) (p : MountPath) (v : FsResult Value) (fs : Fs S)
      → fs.poisoned ≡ false
      → node_path (Dict.lookup ino fs.state.nodes) ≡ some p
      → ((h : ℕ) → v ≡ ok (Value.handle h) → h ≤ H.issued fs.remote)
      → Holds H (new_stream H v) fs
      → Holds H Spare.nothing (((λ t. (map_err errno v, t)) >>= recorded ino p) fs).1
  replied-Holds ino p (err e) fs unlocked at issued v = v
  replied-Holds ino p (ok (Value.handle h)) fs unlocked at issued v =
      let w = record_dir-Holds ino p h fs unlocked at (issued h refl) v in
      bind_cases (λ r. Holds H Spare.nothing r.1) (λ _. pure h) (locked S (record_dir ino p h)) fs
        (λ _ _. w) (λ _ _. w)
  replied-Holds ino p (ok _) fs unlocked at issued v = v

  pub opendir-Holds :
      (ino : ℕ) (fs : Fs S)
      → Holds H Spare.nothing fs
      → Holds H Spare.nothing (Directories.opendir S ino fs).1
  unfolding Directories.opendir call
  opendir-Holds ino fs v =
      bind_cases (λ r. Holds H Spare.nothing r.1)
        (λ p. call S (Operation.open_directory p) >>= recorded ino p) (path S ino) fs
        (λ _ _. path-Keeps H Spare.nothing ino fs v)
        (λ p e. rw (path_same S ino fs) (opened p (path_ok S ino fs p e)))
    where
      opened :
          (p : MountPath)
          → (fs.poisoned ≡ false) × (node_path (Dict.lookup ino fs.state.nodes) ≡ some p)
          → Holds H Spare.nothing ((call S (Operation.open_directory p) >>= recorded ino p) fs).1
      opened p (unlocked, at) =
          let (reply, r) = S.call (Operation.open_directory p) fs.remote in
          replied-Holds ino p reply (record fs { remote = r }) unlocked at
            (λ h e. (H.fresh p fs.remote h e).1) (open_stream-IsHeld H v p)

  finish_dir-Holds :
      (d : Directory) (fs : Fs S)
      → IsHeld H Spare.nothing (close_stream S d.remote fs.remote).1 fs.state.files fs.state.dirs
      → Holds H Spare.nothing (finish_dir S d fs).1
  unfolding finish_dir close_dir
  finish_dir-Holds d fs v =
      let (r, rem) = close_stream S d.remote fs.remote in
      let closed = record fs { remote = rem } in
      let m = locked S (λ s. (ok tt, Inodes.release d.ino s)) in
      let w =
        Keeps-locked H Spare.nothing (λ s. (ok tt, Inodes.release d.ino s))
          (release-SameHandles d.ino) closed v in
      bind_cases (λ x. Holds H Spare.nothing x.1) (λ _ t. (r, t)) m closed (λ _ _. w) (λ _ _. w)

  pub releasedir-Holds :
      (fh : ℕ) (fs : Fs S)
      → Holds H Spare.nothing fs
      → Holds H Spare.nothing (Directories.releasedir S fh fs).1
  unfolding Directories.releasedir take_dir
  releasedir-Holds fh fs v = elim (Option-cases (Dict.lookup fh fs.state.dirs)) [
    | inl absent ↦
        let stays : (locked S (take_dir fh) fs).1 ≡ fs = ground (arith, absent) in
        bind_cases (λ r. Holds H Spare.nothing r.1) (finish_dir S) (locked S (take_dir fh)) fs
          (λ _ _. subst (Holds H Spare.nothing) (sym stays) v)
          (λ d e. absurd (ground (arith, absent, e)))
    | inr (d, found) ↦ elim (Bool-cases fs.poisoned) [
      | inl locked_out ↦
          let stops : locked S (take_dir fh) fs ≡ (err eio, fs) = ground (arith, locked_out) in
          subst (λ r. Holds H Spare.nothing r.1)
            (sym (bind_err (locked S (take_dir fh)) (finish_dir S) fs stops)) v
      | inr free ↦
          let taken = record fs {
            state = record fs.state { dirs = Dict.erase fh fs.state.dirs };
          } in
          let takes : locked S (take_dir fh) fs ≡ (ok d, taken) = ground (arith, free, found) in
          subst (λ r. Holds H Spare.nothing r.1)
            (sym (bind_ok (locked S (take_dir fh)) (finish_dir S) fs takes))
            (finish_dir-Holds d taken (take-IsHeld H fs.state.dirs fh d fs.remote found v))
    ]
  ]
