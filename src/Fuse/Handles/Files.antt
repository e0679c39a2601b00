-- ===== src/Fuse/Handles/Files.antt =====
-- src/fuse.rs: a file that is opened gets into the table, and a file that is released is closed.
use shell_canvas_drive_bridg.Base.{
  ℕ, ◌≡◌, refl, false, some, ok, err, map_err, ok_or, Action, pure, lift, ◌>>=◌, ◌>>◌, bind_cases,
  Bool-cases, inl, inr, arith, nat_eq,
}
use shell_canvas_drive_bridg.Base.Dict
use shell_canvas_drive_bridg.Sdk.{Sdk, Operation, Value, FsResult, MountPath, FsOpenOptions}
use shell_canvas_drive_bridg.Sdk.Handles.{Handles}
use shell_canvas_drive_bridg.Fuse.Attributes.{Errno, errno, Libc, options, eilseq}
use shell_canvas_drive_bridg.Fuse.Inodes
use shell_canvas_drive_bridg.Fuse.Inodes.{State, node_path, update_node, count_open}
use shell_canvas_drive_bridg.Fuse.Session.{
  Fs, OsName, locked, call, path, child, lookup_path, open_file, record_open, as_handle,
}
use shell_canvas_drive_bridg.Fuse.Files
use shell_canvas_drive_bridg.Fuse.Files.{settle, close_on_error, is_panic, mask}
use shell_canvas_drive_bridg.Fuse.Handles.{
  Spare, Holds, new_file, open_file-IsHeld, release-IsHeld, insert_file-IsHeld, quiet-IsHeld,
}
use shell_canvas_drive_bridg.Fuse.Handles.Steps.{
  same-IsHeld, update_node-SameHandles, release-SameHandles, path-Keeps,
}

module _ (S : Sdk) where
  pub path_ok :
      (ino : ℕ) (fs : Fs S) (p : MountPath)
      → (path S ino fs).0 ≡ ok p
      → (fs.poisoned ≡ false) × (node_path (Dict.lookup ino fs.state.nodes) ≡ some p)
  unfolding path
  path_ok ino fs p e = (ground (arith, e), ground (arith, e))

  pub path_same : (ino : ℕ) (fs : Fs S) → (path S ino fs).1 ≡ fs
  unfolding path
  path_same ino fs = ground arith

  pub child_unlocked :
      (ino : ℕ) (name : OsName) (fs : Fs S) (p : MountPath)
      → (child S ino name fs).0 ≡ ok p
      → (child S ino name fs).1.poisoned ≡ false
  unfolding child
  child_unlocked ino name fs p =
      bind_cases (λ r. r.0 ≡ ok p → r.1.poisoned ≡ false)
        (λ q. lift (ok_or name eilseq) >>= λ n. lift (map_err errno (S.child q n))) (path S ino) fs
        (λ x _ e. absurd (cc)) (λ q e. rw (path_same ino fs) (named q ((path_ok ino fs q e).0)))
    where
      named :
          (q : MountPath)
          → fs.poisoned ≡ false
          → ((lift (ok_or name eilseq) >>= λ n. lift (map_err errno (S.child q n))) fs).0 ≡ ok p
          → ((lift (ok_or name eilseq) >>= λ n. lift (map_err errno (S.child q n))) fs).1.poisoned
            ≡ false
      named q u = ground (arith, u)

  pub call_unlocked : (op : Operation) (fs : Fs S) → (call S op fs).1.poisoned ≡ fs.poisoned
  unfolding call
  call_unlocked op fs = refl

  pub lookup_path_unlocked :
      (p : MountPath) (fs : Fs S) → fs.poisoned ≡ false → (lookup_path S p fs).1.poisoned ≡ false
  unfolding lookup_path call
  lookup_path_unlocked p fs u = ground (arith, u)

module _ {S : Sdk} (H : Handles S) where
  pub record_open-Holds :
      (h ino : ℕ) (fs : Fs S)
      → fs.poisoned ≡ false
      → Holds H (Spare.file h) fs
      → Holds H Spare.nothing (locked S (record_open h ino) fs).1
  unfolding record_open
  record_open-Holds h ino fs unlocked v =
      let s = record fs.state { files = Dict.insert h ino fs.state.files } in
      rw unlocked (
        same-IsHeld H Spare.nothing s (update_node ino count_open s).1
          (update_node-SameHandles ino count_open s) (insert_file-IsHeld H h ino v))

  abbrev kept : ℕ → Value → Action (Fs S) Errno ℕ
  kept ino v = do h ← lift (as_handle v); locked S (record_open h ino); pure h

  -- What `open_file` does with a reply.
  replied-Holds :
      (ino : ℕ) (v : FsResult Value) (fs : Fs S)
      → fs.poisoned ≡ false
      → Holds H (new_file H v) fs
      → Holds H Spare.nothing (((λ t. (map_err errno v, t)) >>= kept ino) fs).1
  replied-Holds ino (err e) fs unlocked v = v
  replied-Holds ino (ok (Value.handle h)) fs unlocked v =
      let m = locked S (record_open h ino) in
      let recorded = record_open-Holds h ino fs unlocked v in
      bind_cases (λ r. Holds H Spare.nothing r.1) (λ _. pure h) m fs (λ _ _. recorded)
        (λ _ _. recorded)
  replied-Holds ino (ok _) fs unlocked v = v

  open_file-Holds :
      (ino : ℕ) (p : MountPath) (o : FsOpenOptions) (fs : Fs S)
      → fs.poisoned ≡ false
      → Holds H Spare.nothing fs
      → Holds H Spare.nothing (open_file S ino p o fs).1
  unfolding open_file call
  open_file-Holds ino p o fs unlocked v =
      let (reply, r) = S.call (Operation.open_file p o) fs.remote in
      replied-Holds ino reply (record fs { remote = r }) unlocked (open_file-IsHeld H v p o)

  pub open_node-Holds :
      (c : Libc) (ino flags : ℕ) (fs : Fs S)
      → Holds H Spare.nothing fs
      → Holds H Spare.nothing (Files.open_node S c ino flags fs).1
  unfolding Files.open_node
  open_node-Holds c ino flags fs v =
      bind_cases (λ r. Holds H Spare.nothing r.1) (λ p. open_file S ino p (options c flags false))
        (path S ino) fs (λ _ _. path-Keeps H Spare.nothing ino fs v)
        (λ p e.
          open_file-Holds ino p (options c flags false) (path S ino fs).1
            (rw (path_same S ino fs) (path_ok S ino fs p e).0)
            (path-Keeps H Spare.nothing ino fs v))

  pub release-Holds :
      (ino fh : ℕ) (fs : Fs S)
      → Holds H Spare.nothing fs
      → Holds H Spare.nothing (Files.release S ino fh fs).1
  unfolding Files.release call
  release-Holds ino fh fs v = elim (Bool-cases fs.poisoned) [
    | inl e ↦ rw e (quiet-IsHeld H (Operation.close fh) refl refl v)
    | inr e ↦
        let s = record fs.state { files = Dict.erase fh fs.state.files } in
        rw e (
          same-IsHeld H Spare.nothing s (Inodes.release ino s) (release-SameHandles ino s)
            (release-IsHeld H fh v))
  ]
