-- ===== src/Fuse/Attributes.antt =====
-- src/fuse.rs: error numbers, file attributes, open flags and times, as the kernel sees them.
use shell_canvas_drive_bridg.Base.{
  ℕ, ◌+◌, ◌-◌, ◌/◌, ◌%◌, ◌^◌, bit_and, Bool, not, ◌||◌, Option, none, some, Result, ok, err,
  then_result, leb, eqb, if◌then◌else◌,
}
use shell_canvas_drive_bridg.Sdk.{
  FsError, FsErrorKind, FsKind, FsMetadata, FsCreate, FsOpenOptions, is_directory_kind,
}

-- The `Errno` constants that the backend replies with. `panicked` is none of them: the handler has
-- panicked, everything that it calls or that called it is left, and the kernel gets no reply.
pub data Errno : Type 0 where
  enoent eacces eexist enotdir eisdir enotempty einval eopnotsupp erofs : Errno
  enotconn etimedout eio eoverflow estale eilseq ebadf : Errno
  panicked : Errno

abbrev pub errno_of_kind : FsErrorKind → Errno
errno_of_kind FsErrorKind.not_found = enoent
errno_of_kind FsErrorKind.permission_denied = eacces
errno_of_kind FsErrorKind.already_exists = eexist
errno_of_kind FsErrorKind.not_directory = enotdir
errno_of_kind FsErrorKind.is_directory = eisdir
errno_of_kind FsErrorKind.not_empty = enotempty
errno_of_kind FsErrorKind.invalid_input = einval
errno_of_kind FsErrorKind.unsupported = eopnotsupp
errno_of_kind FsErrorKind.read_only = erofs
errno_of_kind FsErrorKind.offline = enotconn
errno_of_kind FsErrorKind.timed_out = etimedout
errno_of_kind FsErrorKind.io = eio

abbrev pub errno : FsError → Errno
errno e = errno_of_kind e.kind

pub data FileType : Type 0 where
  directory symlink regular_file : FileType

abbrev pub kind : FsKind → FileType
kind FsKind.directory = FileType.directory
kind FsKind.symlink = FileType.symlink
kind _ = regular_file

-- A `SystemTime` in whole seconds, the precision that the code reads and writes.
pub data SystemTime : Type 0 where
  before_epoch : SystemTime
  since_epoch : ℕ → SystemTime

pub record FileAttr : Type 0 where
  pub ino : ℕ
  pub size : ℕ
  pub blocks : ℕ
  pub atime : SystemTime
  pub mtime : SystemTime
  pub ctime : SystemTime
  pub crtime : SystemTime
  pub kind : FileType
  pub perm : ℕ
  pub nlink : ℕ
  pub uid : ℕ
  pub gid : ℕ
  pub rdev : ℕ
  pub blksize : ℕ
  pub flags : ℕ

abbrev pub unwrap_or {ℓ} : {A : Type ℓ} → Option A → A → A
unwrap_or none d = d
unwrap_or (some a) d = a

-- `u64::div_ceil`
abbrev pub div_ceil : ℕ → ℕ → ℕ
div_ceil a b = (a + (b - 1)) / b

-- `UNIX_EPOCH + Duration::from_secs(..)` panics beyond the greatest i64.
unfoldable pub system_time : Option ℕ → Result Errno SystemTime
system_time t =
    let s = unwrap_or t 0 in if leb s (2 ^ 63 - 1) then ok (since_epoch s) else err panicked

abbrev pub attr_at : ℕ → FsMetadata → ℕ → ℕ → SystemTime → SystemTime → FileAttr
attr_at ino m uid gid modified accessed = record {
  ino = ino;
  size = m.size;
  blocks = div_ceil m.size 512;
  atime = accessed;
  mtime = modified;
  ctime = modified;
  crtime = modified;
  kind = kind m.kind;
  perm =
      bit_and (unwrap_or m.permissions (if is_directory_kind m.kind then 0o700 else 0o600)) 0o777
      % 2 ^ 16;
  nlink = if is_directory_kind m.kind then 2 else 1;
  uid = uid;
  gid = gid;
  rdev = 0;
  blksize = 4096;
  flags = 0;
}

unfoldable pub attr : ℕ → FsMetadata → ℕ → ℕ → Result Errno FileAttr
attr ino m uid gid = then_result (system_time m.modified) (λ modified.
    then_result (system_time m.accessed) (λ accessed. ok (attr_at ino m uid gid modified accessed)))

-- The platform's constants for open flags, from the libc crate.
pub record Libc : Type 0 where
  pub o_accmode : ℕ
  pub o_rdonly : ℕ
  pub o_wronly : ℕ
  pub o_excl : ℕ
  pub o_trunc : ℕ

abbrev pub linux : Libc
linux = record { o_accmode = 3; o_rdonly = 0; o_wronly = 1; o_excl = 0o200; o_trunc = 0o1000 }

unfoldable pub options : Libc → ℕ → Bool → FsOpenOptions
options c flags create =
    let mode = bit_and flags c.o_accmode in
    record {
      read = not (eqb mode c.o_wronly);
      write = not (eqb mode c.o_rdonly) || create;
      create =
          if not create
          then FsCreate.open_existing
          else if not (eqb (bit_and flags c.o_excl) 0)
          then FsCreate.create_new
          else FsCreate.open_or_create;
      truncate = not (eqb (bit_and flags c.o_trunc) 0);
    }

pub data TimeOrNow : Type 0 where
  specific_time : SystemTime → TimeOrNow
  now : TimeOrNow

abbrev pub secs_since_epoch : SystemTime → Option ℕ
secs_since_epoch before_epoch = none
secs_since_epoch (since_epoch s) = some s

-- `clock` is what `SystemTime::now()` returns.
unfoldable pub seconds : SystemTime → Option TimeOrNow → Option ℕ
seconds clock none = none
seconds clock (some (specific_time t)) = secs_since_epoch t
seconds clock (some now) = secs_since_epoch clock
