-- ===== src/Windows/Metadata.antt =====
-- src/windows.rs: the callbacks on the metadata of a file and of the volume.
pub mod Refused
use shell_canvas_drive_bridg.Base.{
  ℕ, ◌*◌, ◌-◌, ◌^◌, min, bit_or, Bool, true, false, not, ◌&&◌, ◌||◌, Option, none, some, Result, ok,
  err, map_err, ok_or, Action, pure, lift, ◌>>=◌, ◌>>◌, eqb, if◌then◌else◌, is_some, String,
}
use shell_canvas_drive_bridg.Sdk.{
  Sdk, Operation, Value, FsMetadata, FsSpace, FsSetMetadata, no_changes, root,
}
use shell_canvas_drive_bridg.Windows.Status.{NtStatus, failure, invalid}
use shell_canvas_drive_bridg.Windows.Names.{WideName, path}
use shell_canvas_drive_bridg.Windows.Info.{FileInfo, fill}
use shell_canvas_drive_bridg.Windows.Attributes.{attributes, creation_attributes, permissions}
use shell_canvas_drive_bridg.Windows.Times.{unix_seconds, validate_unsupported_times}
use shell_canvas_drive_bridg.Windows.Contexts.{
  Context, Fs, call, warn, context_path, metadata, path_metadata, require_writable,
}

pub record FileSecurity : Type 0 where
  pub reparse : Bool
  pub sz_security_descriptor : ℕ
  pub attributes : ℕ

-- `info.set_volume_label` has a constant.
pub record VolumeInfo : Type 0 where
  pub total_size : ℕ
  pub free_size : ℕ
  pub volume_label : String

abbrev pub as_space : Value → Result NtStatus FsSpace
as_space (Value.space s) = ok s
as_space _ = err invalid

abbrev pub saturating_mul : ℕ → ℕ → ℕ
saturating_mul a b = min (a * b) (2 ^ 64 - 1)

-- A change time that comes with another time is left out, with a warning.
unfoldable pub omits_change_time : ℕ → ℕ → ℕ → Bool
omits_change_time access write changed =
    not (eqb changed 0) && (not (eqb access 0) || not (eqb write 0))

abbrev pub changes_something : FsSetMetadata → Bool
changes_something c = is_some c.accessed || is_some c.modified || is_some c.permissions

abbrev pub change_time_omitted : String
change_time_omitted =
    "Metadata-change time is unavailable on this remote filesystem. Requested access/modification times were preserved; change time was omitted."

module _ (S : Sdk) where
  unfoldable pub get_security_by_name : WideName → Action (Fs S) NtStatus FileSecurity
  get_security_by_name name = do
    p ← lift (path S name)
    m ← path_metadata S p
    pure (record { reparse = false; sz_security_descriptor = 0; attributes = attributes m })

  -- `requested_attributes |= attributes(&meta)`
  abbrev pub wanted_attributes : Bool → FsMetadata → ℕ → ℕ
  wanted_attributes replace m requested =
      if replace then requested else bit_or requested (attributes m)

  -- What `overwrite` asks for, once all of it is known to be possible.
  unfoldable pub overwrite_changes : Context → ℕ → Bool → Action (Fs S) NtStatus (ℕ × FsSetMetadata)
  overwrite_changes context requested replace_attributes = do
    require_writable S
    m ← metadata S context
    kept ← lift (map_err failure (creation_attributes requested false))
    changed ← lift (map_err failure (permissions m (wanted_attributes replace_attributes m kept)))
    handle ← lift (ok_or context.file invalid)
    pure (handle, record no_changes { size = some 0; permissions = changed })

  unfoldable pub overwrite : Context → ℕ → Bool → Action (Fs S) NtStatus FileInfo
  overwrite context requested replace_attributes = do
    (handle, changes) ← overwrite_changes context requested replace_attributes
    call S (Operation.set_file_metadata handle changes)
    after ← metadata S context
    pure (fill after)

  -- What `set_basic_info` asks for, once all of it is known to be representable.
  unfoldable pub basic_changes : Context → ℕ → ℕ → ℕ → ℕ → ℕ → Action (Fs S) NtStatus FsSetMetadata
  basic_changes context requested created access write changed = do
    let unset = if omits_change_time access write changed then 0 else changed
    lift (map_err failure (validate_unsupported_times created unset))
    accessed ← lift (map_err failure (unix_seconds access))
    modified ← lift (map_err failure (unix_seconds write))
    m ← metadata S context
    mode ← lift (map_err failure (permissions m requested))
    pure (record no_changes { accessed = accessed; modified = modified; permissions = mode })

  -- By the file's handle, or else by the path of the context.
  unfoldable pub send_changes :
      Option ℕ → Context → FsSetMetadata → Action (Fs S) NtStatus (Unit {0})
  send_changes (some handle) context changes = do
    call S (Operation.set_file_metadata handle changes)
    pure tt
  send_changes none context changes = do
    p ← context_path S context
    call S (Operation.set_metadata p changes)
    pure tt

  unfoldable pub apply_changes : Context → FsSetMetadata → Action (Fs S) NtStatus (Unit {0})
  apply_changes context changes =
      if changes_something changes
      then require_writable S >> send_changes context.file context changes
      else pure tt

  -- The first omission is reported, the later ones are not.
  unfoldable pub warn_once : Bool → Fs S → Fs S
  warn_once omitted fs =
      let swapped = record fs { warned_change_time = true } in
      if omitted
      then (if fs.warned_change_time then swapped else warn S change_time_omitted swapped)
      else fs

  unfoldable pub confirm : Bool → FsMetadata → Action (Fs S) NtStatus FileInfo
  confirm omitted m fs = (ok (fill m), warn_once omitted fs)

  unfoldable pub set_basic_info : Context → ℕ → ℕ → ℕ → ℕ → ℕ → Action (Fs S) NtStatus FileInfo
  set_basic_info context requested created access write changed = do
    changes ← basic_changes context requested created access write changed
    apply_changes context changes
    m ← metadata S context
    confirm (omits_change_time access write changed) m

  unfoldable pub get_volume_info : Action (Fs S) NtStatus VolumeInfo
  get_volume_info = do
    v ← call S (Operation.space root)
    stats ← lift (as_space v)
    pure (record {
      total_size = saturating_mul stats.blocks stats.block_size;
      free_size = saturating_mul stats.blocks_available stats.block_size;
      volume_label = "ShellCanvas";
    })
