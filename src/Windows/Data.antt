-- ===== src/Windows/Data.antt =====
-- src/windows.rs: the callbacks on the data of an open file.
pub mod Reading
pub mod Writing
pub mod Modes
use shell_canvas_drive_bridg.Base.{
  ℕ, ◌-◌, ◌%◌, ◌^◌, min, Bool, Option, none, some, List, [], Result, ok, err, map_err, ok_or,
  Action, pure, lift, ◌>>=◌, ◌>>◌, ltb, if◌then◌else◌, length, take,
}
use shell_canvas_drive_bridg.Sdk.{
  Sdk, Operation, FsResult, Value, FsSetMetadata, no_changes, mount_io_chunk,
}
use shell_canvas_drive_bridg.Transfer.{read_loop, write_loop, chunks}
use shell_canvas_drive_bridg.Windows.Status.{NtStatus, failure, invalid}
use shell_canvas_drive_bridg.Windows.Info.{FileInfo, fill}
use shell_canvas_drive_bridg.Windows.Handles
use shell_canvas_drive_bridg.Windows.Contexts.{Context, Fs, call, metadata}

-- `map(|_| ())`
abbrev pub no_value : FsResult Value → FsResult (Unit {0})
no_value (ok _) = ok tt
no_value (err e) = err e

module _ (S : Sdk) where
  unfoldable pub get_file_info : Context → Action (Fs S) NtStatus FileInfo
  get_file_info context = do m ← metadata S context; pure (fill m)

  -- The bytes that are put at the front of a buffer of `size` bytes, and their number as a `u32`.
  unfoldable pub read : Context → ℕ → ℕ → Action (Fs S) NtStatus (List ℕ × ℕ)
  read context size offset = do
    handle ← lift (ok_or context.file invalid)
    got ← read_loop (call S) invalid invalid size handle offset size []
    pure (got, length got % 2 ^ 32)

  -- Where a write goes: at the end of a file of `size` bytes, if `eof` asks for it.
  abbrev pub write_offset : Bool → ℕ → ℕ → ℕ
  write_offset eof size offset = if eof then size else offset

  -- A constrained write does not extend the file; `-` stops at 0, as `saturating_sub` does.
  abbrev pub write_length : Bool → ℕ → ℕ → ℕ → ℕ
  write_length constrained size offset wanted =
      if constrained then min wanted (size - offset) else wanted

  unfoldable pub write_at : Context → ℕ → ℕ → List ℕ → Action (Fs S) NtStatus (ℕ × FileInfo)
  write_at context handle at bytes = do
    done ← write_loop (call S) invalid invalid handle at 0 (chunks mount_io_chunk bytes)
    after ← metadata S context
    pure (done % 2 ^ 32, fill after)

  unfoldable pub write : Context → List ℕ → ℕ → Bool → Bool → Action (Fs S) NtStatus (ℕ × FileInfo)
  write context buffer offset eof constrained = do
    handle ← lift (ok_or context.file invalid)
    m ← metadata S context
    let at = write_offset eof m.size offset
    write_at context handle at (take (write_length constrained m.size at (length buffer)) buffer)

  abbrev pub send_flush : ℕ → S.Remote → FsResult (Unit {0}) × S.Remote
  send_flush handle r = let (v, r') = S.call (Operation.flush handle) r in (no_value v, r')

  unfoldable pub flush_volume : Action (Fs S) NtStatus (Unit {0})
  flush_volume fs =
      let (v, r) = Handles.flush S send_flush fs.handles fs.remote in
      (map_err failure v, record fs { remote = r })

  unfoldable pub flush_file : Option ℕ → Action (Fs S) NtStatus (Unit {0})
  flush_file none = pure tt
  flush_file (some handle) = do call S (Operation.flush handle); pure tt

  -- Without a context it is the whole volume, and no information is filled in.
  unfoldable pub flush : Option Context → Action (Fs S) NtStatus (Option FileInfo)
  flush (some context) = do flush_file context.file; m ← metadata S context; pure (some (fill m))
  flush none = do flush_volume; pure none

  -- An allocation that is not below the size changes nothing.
  unfoldable pub must_resize : Context → ℕ → Bool → Action (Fs S) NtStatus Bool
  must_resize context size allocation =
      if allocation then (metadata S context >>= λ m. pure (ltb size m.size)) else pure Bool.true

  unfoldable pub set_file_size : Context → ℕ → Bool → Action (Fs S) NtStatus FileInfo
  set_file_size context size allocation = do
    handle ← lift (ok_or context.file invalid)
    resize ← must_resize context size allocation
    if resize
        then call S (Operation.set_file_metadata handle (record no_changes { size = some size }))
          >> pure tt
        else pure tt
    m ← metadata S context
    pure (fill m)
