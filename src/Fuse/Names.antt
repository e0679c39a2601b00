-- ===== src/Fuse/Names.antt =====
-- src/fuse.rs: the handlers on names and attributes, `rename` with its tables among them.
use shell_canvas_drive_bridg.Base.{
  ℕ, ◌-◌, ◌^◌, min, bit_and, Bool, true, false, not, ◌||◌, Option, none, some, Action, pure, lift,
  gets, raise_if, ◌>>=◌, ◌>>◌, eqb, if◌then◌else◌, ◌==◌, nat_eq, string_eq, list_eq,
}
use shell_canvas_drive_bridg.Sdk.{Sdk, Operation, FsSetMetadata, FsSpace, MountPath, no_changes}
use shell_canvas_drive_bridg.Fuse.Attributes.{
  Errno, eopnotsupp, FileAttr, SystemTime, TimeOrNow, seconds,
}
use shell_canvas_drive_bridg.Fuse.Inodes
use shell_canvas_drive_bridg.Fuse.Inodes.{State, Node, Directory, update_node}
use shell_canvas_drive_bridg.Fuse.Session.{
  Fs, OsName, locked, when_locked, call, path, child, metadata, lookup_path, remove, as_space,
}
use shell_canvas_drive_bridg.Fuse.Files.{mask}
use shell_canvas_drive_bridg.Fuse.Rename.{rename_state}

-- `uid.is_some_and(|u| u != self.uid)`
abbrev pub differs : Option ℕ → ℕ → Bool
differs none own = false
differs (some u) own = not (eqb u own)

-- The arguments of `setattr` that the handler reads.
pub record Changes : Type 0 where
  pub mode : Option ℕ
  pub uid : Option ℕ
  pub gid : Option ℕ
  pub size : Option ℕ
  pub atime : Option TimeOrNow
  pub mtime : Option TimeOrNow
  pub flags : Option ℕ

pub record Statfs : Type 0 where
  pub blocks : ℕ
  pub bfree : ℕ
  pub bavail : ℕ
  pub files : ℕ
  pub ffree : ℕ
  pub bsize : ℕ
  pub namelen : ℕ
  pub frsize : ℕ

-- `x.min(u32::MAX as u64) as u32`
abbrev pub clamp32 : ℕ → ℕ
clamp32 x = min x (2 ^ 32 - 1)

abbrev pub statfs_reply : FsSpace → Statfs
statfs_reply s = record {
  blocks = s.blocks;
  bfree = s.blocks_free;
  bavail = s.blocks_available;
  files = s.files;
  ffree = s.files_free;
  bsize = clamp32 s.block_size;
  namelen = clamp32 s.name_max;
  frsize = clamp32 s.block_size;
}

module _ (S : Sdk) where
  unfoldable pub lookup : ℕ → OsName → Action (Fs S) Errno FileAttr
  lookup parent name = do p ← child S parent name; lookup_path S p

  unfoldable pub forget : ℕ → ℕ → Fs S → Fs S
  forget ino count = when_locked S (Inodes.forget ino count)

  unfoldable pub getattr : ℕ → Option ℕ → Action (Fs S) Errno FileAttr
  getattr ino fh = metadata S ino fh

  -- By handle if there is one, and otherwise by path.
  unfoldable pub set_operation : ℕ → Option ℕ → FsSetMetadata → Action (Fs S) Errno Operation
  set_operation ino (some fh) m = pure (Operation.set_file_metadata fh m)
  set_operation ino none m = do p ← path S ino; pure (Operation.set_metadata p m)

  abbrev pub is_foreign : Changes → Fs S → Bool
  is_foreign c fs = differs c.uid fs.uid || differs c.gid fs.gid || differs c.flags 0

  unfoldable pub setattr : SystemTime → ℕ → Changes → Option ℕ → Action (Fs S) Errno FileAttr
  setattr clock ino c fh = do
    foreign ← gets (is_foreign c)
    raise_if foreign eopnotsupp
    op ← set_operation ino fh (record {
      size = c.size;
      accessed = seconds clock c.atime;
      modified = seconds clock c.mtime;
      permissions = c.mode;
    })
    call S op
    metadata S ino fh

  unfoldable pub mkdir : ℕ → OsName → ℕ → ℕ → Action (Fs S) Errno FileAttr
  mkdir parent name mode umask = do
    p ← child S parent name
    call S (Operation.mkdir p)
    call S (Operation.set_metadata p (record no_changes { permissions = some (mask mode umask) }))
    lookup_path S p

  unfoldable pub unlink : ℕ → OsName → Action (Fs S) Errno (Unit {0})
  unlink parent name = remove S parent name false

  unfoldable pub rmdir : ℕ → OsName → Action (Fs S) Errno (Unit {0})
  rmdir parent name = remove S parent name true

  -- Once the provider has renamed, the tables follow, unless the two paths are the same.
  unfoldable pub rename_paths : MountPath → MountPath → Bool → Action (Fs S) Errno (Unit {0})
  rename_paths from to replace = do
    call S (Operation.rename from to replace)
    if from == to then pure tt else locked S (rename_state S from to)

  -- Bit 0 of the flags is `RENAME_NOREPLACE`; all others are refused.
  unfoldable pub rename : ℕ → OsName → ℕ → OsName → ℕ → Action (Fs S) Errno (Unit {0})
  rename parent name newparent newname flags = do
    raise_if (not (eqb (bit_and flags 0xffff_fffe) 0)) eopnotsupp
    from ← child S parent name
    to ← child S newparent newname
    rename_paths from to (eqb (bit_and flags 1) 0)

  unfoldable pub statfs : ℕ → Action (Fs S) Errno Statfs
  statfs ino = do
    p ← path S ino
    v ← call S (Operation.space p)
    s ← lift (as_space v)
    pure (statfs_reply s)
