-- ===== src/Fuse/Session.antt =====
-- src/fuse.rs, `struct Fs` and its helpers: the lock on the state, calls over the pipe, paths of
-- inodes. Each handler runs to its end before the next one starts.
use shell_canvas_drive_bridg.Base.{
  ℕ, Bool, Option, none, some, String, Result, ok, err, map_err, ok_or, Action, pure, lift, gets,
  ◌>>=◌, ◌>>◌, if◌then◌else◌, is_some, nat_eq,
}
use shell_canvas_drive_bridg.Base.Dict
use shell_canvas_drive_bridg.Sdk.{
  Sdk, Operation, Value, MountPath, FsMetadata, FsOpenOptions, FsSpace,
}
use shell_canvas_drive_bridg.Fuse.Attributes.{Errno, errno, eio, estale, eilseq, FileAttr, attr}
use shell_canvas_drive_bridg.Fuse.Inodes
use shell_canvas_drive_bridg.Fuse.Inodes.{node_path, State, Node, update_node, count_open}

-- `poisoned`: a panic under the lock has made the state unusable.
pub record Fs (S : Sdk) : Type 0 where
  pub remote : S.Remote
  pub state : State
  pub poisoned : Bool
  pub uid : ℕ
  pub gid : ℕ

-- The reply that an operation must have; any other is an I/O error.
abbrev pub as_handle : Value → Result Errno ℕ
as_handle (Value.handle h) = ok h
as_handle _ = err eio

abbrev pub as_metadata : Value → Result Errno FsMetadata
as_metadata (Value.metadata m) = ok m
as_metadata _ = err eio

abbrev pub as_space : Value → Result Errno FsSpace
as_space (Value.space s) = ok s
as_space _ = err eio

-- A name from the kernel; `none` stands for bytes that are not UTF-8.
abbrev pub OsName : Type 0
OsName = Option String

abbrev pub path_of : ℕ → Action State Errno MountPath
path_of ino s = (ok_or (node_path (Dict.lookup ino s.nodes)) estale, s)

-- `state.files.insert(handle, ino)`, then one more open reference on the inode.
unfoldable pub record_open : ℕ → ℕ → Action State Errno (Unit {0})
record_open handle ino s =
    update_node ino count_open (record s { files = Dict.insert handle ino s.files })

module _ (S : Sdk) where
  -- Code that runs under `self.state()?`.
  abbrev pub locked : {A : Type 0} → Action State Errno A → Action (Fs S) Errno A
  locked m fs =
      if fs.poisoned then (err eio, fs) else let (r, s) = m fs.state in (r, record fs { state = s })

  -- `if let Ok(mut state) = self.state()`: nothing happens when the lock is poisoned.
  abbrev pub when_locked : (State → State) → Fs S → Fs S
  when_locked f fs = if fs.poisoned then fs else record fs { state = f fs.state }

  unfoldable pub call : Operation → Action (Fs S) Errno Value
  call op fs = let (v, r) = S.call op fs.remote in (map_err errno v, record fs { remote = r })

  unfoldable pub path : ℕ → Action (Fs S) Errno MountPath
  path ino = locked (path_of ino)

  unfoldable pub child : ℕ → OsName → Action (Fs S) Errno MountPath
  child ino name = do p ← path ino; n ← lift (ok_or name eilseq); lift (map_err errno (S.child p n))

  -- The handle, if it is one that `open` or `create` has handed out.
  abbrev pub open_handle : Option ℕ → Fs S → Option ℕ
  open_handle none fs = none
  open_handle (some h) fs =
      if fs.poisoned then none else if is_some (Dict.lookup h fs.state.files) then some h else none

  unfoldable pub metadata_operation : ℕ → Option ℕ → Action (Fs S) Errno Operation
  metadata_operation ino (some h) = pure (Operation.file_metadata h)
  metadata_operation ino none = do p ← path ino; pure (Operation.metadata p)

  -- `attr` with the owner of the session, which may panic.
  abbrev pub as_attr : ℕ → FsMetadata → Action (Fs S) Errno FileAttr
  as_attr ino m fs = (attr ino m fs.uid fs.gid, fs)

  unfoldable pub metadata : ℕ → Option ℕ → Action (Fs S) Errno FileAttr
  metadata ino handle = do
    h ← gets (open_handle handle)
    op ← metadata_operation ino h
    v ← call op
    m ← lift (as_metadata v)
    as_attr ino m

  unfoldable pub lookup_path : MountPath → Action (Fs S) Errno FileAttr
  lookup_path p = do
    v ← call (Operation.metadata p)
    m ← lift (as_metadata v)
    ino ← locked (Inodes.lookup p)
    as_attr ino m

  unfoldable pub open_file : ℕ → MountPath → FsOpenOptions → Action (Fs S) Errno ℕ
  open_file ino p o = do
    v ← call (Operation.open_file p o)
    handle ← lift (as_handle v)
    locked (record_open handle ino)
    pure handle

  unfoldable pub remove : ℕ → OsName → Bool → Action (Fs S) Errno (Unit {0})
  remove ino name directory = do
    p ← child ino name
    call (Operation.remove p directory)
    locked (λ s. (ok tt, Inodes.retire_path p s))
