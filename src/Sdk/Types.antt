-- ===== src/Sdk/Types.antt =====
-- vendor/filesystem-sdk/src: the values that cross the boundary between the bridge and the SDK.
use shell_canvas_drive_bridg.Base.{ℕ, ◌*◌, Bool, Option, none, List, [], String, Result}

pub data FsErrorKind : Type 0 where
  not_found permission_denied already_exists not_directory is_directory not_empty : FsErrorKind
  invalid_input unsupported read_only offline timed_out io : FsErrorKind

pub record FsError : Type 0 where
  pub kind : FsErrorKind
  pub message : String

abbrev pub FsResult : Type 0 → Type 0
FsResult A = Result FsError A

-- A path is its components below the granted root.
abbrev pub MountPath : Type 0
MountPath = List String

-- `MountPath::root`
abbrev pub root : MountPath
root = []

-- `MOUNT_IO_CHUNK`
abbrev pub mount_io_chunk : ℕ
mount_io_chunk = 32 * 1024

pub data FsKind : Type 0 where
  file directory symlink other : FsKind

abbrev pub is_directory_kind : FsKind → Bool
is_directory_kind FsKind.directory = Bool.true
is_directory_kind _ = Bool.false

abbrev pub is_file_kind : FsKind → Bool
is_file_kind FsKind.file = Bool.true
is_file_kind _ = Bool.false

pub record FsMetadata : Type 0 where
  pub kind : FsKind
  pub size : ℕ
  pub accessed : Option ℕ
  pub modified : Option ℕ
  pub permissions : Option ℕ

pub record FsDirectoryEntry : Type 0 where
  pub name : String
  pub metadata : FsMetadata

pub record FsSpace : Type 0 where
  pub block_size : ℕ
  pub blocks : ℕ
  pub blocks_free : ℕ
  pub blocks_available : ℕ
  pub files : ℕ
  pub files_free : ℕ
  pub name_max : ℕ

pub record FsCapabilities : Type 0 where
  pub writable : Bool
  pub atomic_replace : Bool
  pub durable_flush : Bool

pub data FsCreate : Type 0 where
  open_existing create_new open_or_create : FsCreate

pub record FsOpenOptions : Type 0 where
  pub read : Bool
  pub write : Bool
  pub create : FsCreate
  pub truncate : Bool

pub record FsSetMetadata : Type 0 where
  pub size : Option ℕ
  pub accessed : Option ℕ
  pub modified : Option ℕ
  pub permissions : Option ℕ

-- `FsSetMetadata::default()`
abbrev pub no_changes : FsSetMetadata
no_changes = record { size = none; accessed = none; modified = none; permissions = none }

pub data BridgeDirective : Type 0 where
  go_on detach : BridgeDirective

pub data BridgeEvent : Type 0 where
  ready detached : BridgeEvent
  detach_failed warning : String → BridgeEvent

pub data Operation : Type 0 where
  poll capabilities : Operation
  report : BridgeEvent → Operation
  space metadata open_directory mkdir : MountPath → Operation
  open_file : MountPath → FsOpenOptions → Operation
  read_directory close_directory file_metadata flush close : ℕ → Operation
  read : ℕ → ℕ → ℕ → Operation
  write : ℕ → ℕ → List ℕ → Operation
  set_file_metadata : ℕ → FsSetMetadata → Operation
  set_metadata : MountPath → FsSetMetadata → Operation
  remove : MountPath → Bool → Operation
  rename : MountPath → MountPath → Bool → Operation

pub data Value : Type 0 where
  directive : BridgeDirective → Value
  capabilities : FsCapabilities → Value
  space : FsSpace → Value
  metadata : FsMetadata → Value
  handle : ℕ → Value
  entries : List FsDirectoryEntry → Value
  bytes : List ℕ → Value
  unit : Value
