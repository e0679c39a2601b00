-- ===== src/Fuse/Sound/Handlers.antt =====
-- src/fuse.rs: the handlers on names, attributes and files, and the consistency of the tables.
use shell_canvas_drive_bridg.Base.{
  arith, ℕ, ◌≡◌, Option, none, some, Result, ok, err, Action, nat_eq, string_eq, list_eq,
}
use shell_canvas_drive_bridg.Sdk.{Sdk, Operation, MountPath, FsSetMetadata}
use shell_canvas_drive_bridg.Fuse.Attributes.{Errno, FileAttr, Libc, SystemTime}
use shell_canvas_drive_bridg.Fuse.Inodes
use shell_canvas_drive_bridg.Fuse.Inodes.{State, Directory, count_open, update_node}
use shell_canvas_drive_bridg.Fuse.Inodes.Invariant.{IsSound, forget-IsSound}
use shell_canvas_drive_bridg.Fuse.Session.{Fs, OsName}
use shell_canvas_drive_bridg.Fuse.Files
use shell_canvas_drive_bridg.Fuse.Files.{settle, close_on_error, mask}
use shell_canvas_drive_bridg.Fuse.Names
use shell_canvas_drive_bridg.Fuse.Names.{Changes, set_operation, is_foreign}
use shell_canvas_drive_bridg.Fuse.Sound.{
  Keeps, Keeps-bind, Keeps-lift, Keeps-pure, Keeps-gets, Keeps-raise_if, when_locked-IsSound,
  call-Keeps, path-Keeps, child-Keeps, metadata-Keeps, lookup_path-Keeps, record_open-Keeps,
  open_file-Keeps,
}

-- The tables of open files and directories do not enter the invariant.
pub same_tables :
    (s t : State) → t.next ≡ s.next → t.nodes ≡ s.nodes → t.paths ≡ s.paths → IsSound s → IsSound t
same_tables s t a b c v = record {
  named = λ p id h. rw b (v.named p id (rw (← c) h));
  bounded = λ id h. rw b (v.bounded id (rw (← a) h));
  rooted = rw c v.rooted;
  distinct = rw c v.distinct;
  root_only = λ id h. v.root_only id (rw (← b) h);
}

module _ (S : Sdk) where
  ruleset steps = (
    Keeps-bind, Keeps-lift, Keeps-pure, Keeps-gets, Keeps-raise_if, call-Keeps, path-Keeps,
    child-Keeps,
  )

  pub lookup-Keeps : (parent : ℕ) (name : OsName) → Keeps (Names.lookup S parent name)
  unfolding Names.lookup
  lookup-Keeps parent name = search (steps, lookup_path-Keeps)

  pub forget-Keeps :
      (ino count : ℕ) (fs : Fs S) → IsSound fs.state → IsSound (Names.forget S ino count fs).state
  unfolding Names.forget
  forget-Keeps ino count fs v =
      when_locked-IsSound (Inodes.forget ino count) fs (forget-IsSound ino count) v

  pub getattr-Keeps : (ino : ℕ) (fh : Option ℕ) → Keeps (Names.getattr S ino fh)
  unfolding Names.getattr
  getattr-Keeps ino fh = metadata-Keeps S ino fh

  set_operation-Keeps :
      (ino : ℕ) (fh : Option ℕ) (m : FsSetMetadata) → Keeps (set_operation S ino fh m)
  unfolding set_operation
  set_operation-Keeps ino none m = search steps
  set_operation-Keeps ino (some h) m = Keeps-pure (Operation.set_file_metadata h m)

  pub setattr-Keeps :
      (clock : SystemTime) (ino : ℕ) (c : Changes) (fh : Option ℕ)
      → Keeps (Names.setattr S clock ino c fh)
  unfolding Names.setattr
  setattr-Keeps clock ino c fh = search (steps, set_operation-Keeps, metadata-Keeps) depth 10

  pub open_node-Keeps : (c : Libc) (ino flags : ℕ) → Keeps (Files.open_node S c ino flags)
  unfolding Files.open_node
  open_node-Keeps c ino flags = search (steps, open_file-Keeps)

  settle-Keeps : (h : ℕ) (p : MountPath) (perm : ℕ) → Keeps (settle S h p perm)
  unfolding settle
  settle-Keeps h p perm = search (steps, lookup_path-Keeps, record_open-Keeps) depth 8

  closing-Keeps :
      (h : ℕ) (m : Action (Fs S) Errno (FileAttr × ℕ))
      → Keeps m
      → Keeps (λ fs. close_on_error S h (m fs))
  unfolding close_on_error
  closing-Keeps h m k fs v = go (m fs) (k fs v)
    where
      go :
          (r : Result Errno (FileAttr × ℕ) × Fs S)
          → IsSound r.1.state
          → IsSound (close_on_error S h r).1.state
      go (ok a, fs') v' = v'
      go (err e, fs') v' = ground (arith, v', call-Keeps S (Operation.close h) fs' v')

  pub create-Keeps :
      (c : Libc) (parent : ℕ) (name : OsName) (mode umask flags : ℕ)
      → Keeps (Files.create S c parent name mode umask flags)
  unfolding Files.create
  create-Keeps c parent name mode umask flags = search (steps, closing-Keeps, settle-Keeps) depth 9

  pub mkdir-Keeps :
      (parent : ℕ) (name : OsName) (mode umask : ℕ) → Keeps (Names.mkdir S parent name mode umask)
  unfolding Names.mkdir
  mkdir-Keeps parent name mode umask = search (steps, lookup_path-Keeps) depth 8

  pub statfs-Keeps : (ino : ℕ) → Keeps (Names.statfs S ino)
  unfolding Names.statfs
  statfs-Keeps ino = search steps depth 8

  pub flush-Keeps : (fh : ℕ) → Keeps (Files.flush S fh)
  unfolding Files.flush
  flush-Keeps fh = call-Keeps S (Operation.flush fh)
