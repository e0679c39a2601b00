-- ===== src/Windows/Contexts.antt =====
-- src/windows.rs, `struct Fs` and `struct Context` with their helpers: open files and directories,
-- and calls over the pipe. The host runs one callback at a time, and none panics under a lock.
use Prim.Native.String
use mathlib.Core.Option
use shell_canvas_drive_bridg.Base.{
  ℕ, suc, Bool, true, false, not, ◌&&◌, ◌||◌, Option, none, some, List, [], String, Result, ok, err,
  map_err, Action, pure, lift, raise_if, ◌>>=◌, if◌then◌else◌, nat_eq,
}
use shell_canvas_drive_bridg.Base.Dict
use shell_canvas_drive_bridg.Sdk.{
  Sdk, Operation, Value, MountPath, FsMetadata, FsCapabilities, FsCreate, FsDirectoryEntry,
  FsOpenOptions, BridgeEvent,
}
use shell_canvas_drive_bridg.Windows.Status.{NtStatus, failure, invalid}
use shell_canvas_drive_bridg.Windows.Attributes.{has}
use shell_canvas_drive_bridg.Windows.Gate.{MountGate, enter, drop_guard}
use shell_canvas_drive_bridg.Windows.Handles.{OpenHandle, OpenHandles, register, blocks_detach}

pub record Directory : Type 0 where
  pub handle : Option ℕ
  pub pending : List FsDirectoryEntry
  pub last : Option String
  pub eof : Bool

-- `guard`: whether it holds an `OpenGuard`. `tracked` identifies its descriptor in the registry,
-- where the shared cell of its path stands.
pub record Context : Type 0 where
  pub guard : Bool
  pub tracked : ℕ
  pub file : Option ℕ
  pub directory : Directory
  pub is_dir : Bool

-- `next` is the identity of the next descriptor that is allocated.
pub record Fs (S : Sdk) : Type 0 where
  pub remote : S.Remote
  pub warned_change_time : Bool
  pub handles : OpenHandles
  pub gate : MountGate
  pub caps : FsCapabilities
  pub next : ℕ

abbrev pub unread : Directory
unread = record { handle = none; pending = []; last = none; eof = false }

-- The reply that an operation must have; any other is an invalid parameter.
abbrev pub as_metadata : Value → Result NtStatus FsMetadata
as_metadata (Value.metadata m) = ok m
as_metadata _ = err invalid

abbrev pub as_handle : Value → Result NtStatus ℕ
as_handle (Value.handle h) = ok h
as_handle _ = err invalid

abbrev pub opens_existing : FsCreate → Bool
opens_existing FsCreate.open_existing = true
opens_existing _ = false

-- `access & (0x2 | 0x4) != 0`
abbrev pub requested_write : ℕ → Bool
requested_write access = has access 0x6

-- Metadata and namespace contexts need no remote handle: a directory, or an existing file without
-- any of `0x1 | 0x2 | 0x4 | 0x10 | 0x100`.
unfoldable pub needs_no_handle : Bool → FsCreate → ℕ → Bool
needs_no_handle is_dir create access = is_dir || (opens_existing create && not (has access 0x117))

unfoldable pub open_options : ℕ → FsCreate → FsOpenOptions
open_options access create = record {
  read = has access 0x1 || not (requested_write access);
  write = requested_write access || not (opens_existing create);
  create = create;
  truncate = false;
}

module _ (S : Sdk) where
  unfoldable pub call : Operation → Action (Fs S) NtStatus Value
  call op fs = let (v, r) = S.call op fs.remote in (map_err failure v, record fs { remote = r })

  -- The reply to the report is dropped.
  unfoldable pub warn : String → Fs S → Fs S
  warn message fs = record fs {
    remote = (S.call (Operation.report (BridgeEvent.warning message)) fs.remote).1;
  }

  -- The shared cell; the registry has one for every live context.
  abbrev pub path_of : ℕ → OpenHandles → Result NtStatus MountPath
  path_of id t = elim (Dict.lookup id t.live) [
    | none ↦ err NtStatus.internal_error
    | some h ↦ ok h.path
  ]

  abbrev pub context_path : Context → Action (Fs S) NtStatus MountPath
  context_path c fs = (path_of c.tracked fs.handles, fs)

  -- By the file's handle, or else by the path of the context.
  unfoldable pub metadata_reply : Option ℕ → Context → Action (Fs S) NtStatus Value
  metadata_reply (some h) c = call (Operation.file_metadata h)
  metadata_reply none c = do p ← context_path c; call (Operation.metadata p)

  unfoldable pub metadata : Context → Action (Fs S) NtStatus FsMetadata
  metadata c = do v ← metadata_reply c.file c; lift (as_metadata v)

  unfoldable pub path_metadata : MountPath → Action (Fs S) NtStatus FsMetadata
  path_metadata p = do v ← call (Operation.metadata p); lift (as_metadata v)

  abbrev pub require_writable : Action (Fs S) NtStatus (Unit {0})
  require_writable fs = raise_if (not fs.caps.writable) NtStatus.media_write_protected fs

  -- `gate.enter()`; success hands out an `OpenGuard`.
  unfoldable pub enter_gate : Action (Fs S) NtStatus (Unit {0})
  enter_gate fs =
      let (v, g) = enter fs.gate in
      elim v [
        | ok _ ↦ (ok tt, record fs { gate = g })
        | err _ ↦ (err NtStatus.device_not_connected, record fs { gate = g })
      ]

  abbrev pub leave_gate : Fs S → Fs S
  leave_gate fs = record fs { gate = drop_guard fs.gate }

  -- A guard that goes out of scope on an early return.
  unfoldable pub release_on_error :
      {A : Type 0} → Result NtStatus A × Fs S → Result NtStatus A × Fs S
  release_on_error (ok a, fs) = (ok a, fs)
  release_on_error (err e, fs) = (err e, leave_gate fs)

  unfoldable pub open_handle : MountPath → ℕ → FsCreate → Bool → Action (Fs S) NtStatus (Option ℕ)
  open_handle p access create is_dir =
      if needs_no_handle is_dir create access then pure none else (do
        v ← call (Operation.open_file p (open_options access create))
        h ← lift (as_handle v)
        pure (some h))

  -- A new descriptor in the registry. The guard stays in the context or is dropped.
  unfoldable pub track : MountPath → ℕ → FsCreate → Bool → Option ℕ → Fs S → Context × Fs S
  track p access create is_dir file fs =
      let blocks = blocks_detach is_dir access in
      let context : Context = record {
        guard = blocks;
        tracked = fs.next;
        file = file;
        directory = unread;
        is_dir = is_dir;
      } in
      let descriptor : OpenHandle = record {
        path = p;
        file = file;
        writable = requested_write access || not (opens_existing create);
      } in
      (
        context,
        record fs {
          handles = register fs.next descriptor fs.handles;
          gate = if blocks then fs.gate else drop_guard fs.gate;
          next = suc fs.next;
        },
      )

  abbrev pub tracked_context :
      MountPath → ℕ → FsCreate → Bool → Option ℕ → Action (Fs S) NtStatus Context
  tracked_context p access create is_dir file fs =
      let (c, fs') = track p access create is_dir file fs in (ok c, fs')

  -- `open_context`, which owns the guard of its caller.
  unfoldable pub open_context : MountPath → ℕ → FsCreate → Bool → Action (Fs S) NtStatus Context
  open_context p access create is_dir fs =
      release_on_error
        ((open_handle p access create is_dir >>= tracked_context p access create is_dir) fs)

  -- A close in `drop`: a failure is reported and goes no further.
  unfoldable pub close_quietly : String → Option Operation → Fs S → Fs S
  close_quietly message none fs = fs
  close_quietly message (some op) fs =
      let (v, r) = S.call op fs.remote in
      let sent = record fs { remote = r } in
      elim v [ ok _ ↦ sent | err e ↦ warn (String.◌++◌ message e.message) sent ]

  -- `Drop for Context`: the file, then the directory.
  unfoldable pub close_remotes : Context → Fs S → Fs S
  close_remotes c fs =
      let closed =
        close_quietly "Remote file close was not confirmed: " (Option.map Operation.close c.file)
          fs in
      close_quietly "Remote directory close was not confirmed: "
        (Option.map Operation.close_directory c.directory.handle) closed

  -- The fields go after that: the guard, and with the last strong reference the descriptor.
  unfoldable pub drop_context : Context → Fs S → Fs S
  drop_context c fs =
      let fs' = close_remotes c fs in
      record fs' {
        gate = if c.guard then drop_guard fs'.gate else fs'.gate;
        handles = record fs'.handles { live = Dict.erase c.tracked fs'.handles.live };
      }
