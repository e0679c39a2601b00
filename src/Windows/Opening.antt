-- ===== src/Windows/Opening.antt =====
-- src/windows.rs: the callbacks that make and end a context, `open`, `create` and `close`.
use shell_canvas_drive_bridg.Base.{
  ℕ, not, ◌&&◌, Option, none, some, Result, ok, err, map_err, ok_or, Action, pure, raise_if, lift,
  ◌>>=◌, ◌>>◌, if◌then◌else◌, String,
}
use shell_canvas_drive_bridg.Sdk.{
  Sdk, Operation, FsCreate, FsMetadata, MountPath, is_directory_kind, no_changes,
}
use shell_canvas_drive_bridg.Windows.Status.{NtStatus, failure, invalid}
use shell_canvas_drive_bridg.Windows.Names.{WideName, path}
use shell_canvas_drive_bridg.Windows.Info.{FileInfo, fill}
use shell_canvas_drive_bridg.Windows.Attributes.{has, creation_attributes, permissions}
use shell_canvas_drive_bridg.Windows.Contexts.{
  Context, Fs, call, warn, metadata, path_metadata, enter_gate, release_on_error, open_context,
  require_writable, drop_context,
}

abbrev pub unconfirmed : String
unconfirmed =
    "A new remote entry was created but its initial metadata could not be confirmed. Inspect the destination before retrying."

module _ (S : Sdk) where
  -- Code that holds the guard of its callback.
  abbrev pub guarded : {A : Type 0} → Action (Fs S) NtStatus A → Action (Fs S) NtStatus A
  guarded m fs = release_on_error S (m fs)

  -- `open` between the gate and `open_context`: the path of the name, and what is there. The
  -- options are `FILE_DIRECTORY_FILE`, 1, and `FILE_NON_DIRECTORY_FILE`, 0x40.
  unfoldable pub find_entry : WideName → ℕ → Action (Fs S) NtStatus (MountPath × FsMetadata)
  find_entry name options = do
    p ← lift (path S name)
    m ← path_metadata S p
    let is_dir = is_directory_kind m.kind
    raise_if (has options 1 && not is_dir) NtStatus.not_a_directory
    raise_if (has options 0x40 && is_dir) NtStatus.file_is_a_directory
    pure (p, m)

  unfoldable pub open_entry : WideName → ℕ → ℕ → Action (Fs S) NtStatus (Context × FileInfo)
  open_entry name options access = do
    enter_gate S
    (p, m) ← guarded (find_entry name options)
    context ← open_context S p access FsCreate.open_existing (is_directory_kind m.kind)
    pure (context, fill m)

  -- `create` between the gate and `open_context`.
  unfoldable pub make_entry : WideName → ℕ → ℕ → Action (Fs S) NtStatus (MountPath × ℕ)
  make_entry name options requested = do
    p ← lift (path S name)
    attributes ← lift (map_err failure (creation_attributes requested (has options 1)))
    if has options 1
        then call S (Operation.mkdir p) >> pure (p, attributes)
        else pure (p, attributes)

  -- The permissions of a new entry, if its attributes differ from what was asked for.
  unfoldable pub set_permissions : Context → Option ℕ → Action (Fs S) NtStatus (Unit {0})
  set_permissions context none = pure tt
  set_permissions context (some permissions) = do
    handle ← lift (ok_or context.file invalid)
    call S
        (Operation.set_file_metadata handle (record no_changes { permissions = some permissions }))
    pure tt

  unfoldable pub initialize : Context → ℕ → Action (Fs S) NtStatus FileInfo
  initialize context requested = do
    meta ← metadata S context
    changed ← lift (map_err failure (permissions meta requested))
    set_permissions context changed
    meta ← metadata S context
    pure (fill meta)

  -- A new entry whose metadata is not confirmed stays, and its context goes.
  unfoldable pub abandon_on_error :
      Context → Result NtStatus FileInfo × Fs S → Result NtStatus (Context × FileInfo) × Fs S
  abandon_on_error context (ok info, fs) = (ok (context, info), fs)
  abandon_on_error context (err e, fs) = (err e, drop_context S context (warn S unconfirmed fs))

  unfoldable pub fill_new : Context → ℕ → Action (Fs S) NtStatus (Context × FileInfo)
  fill_new context requested fs = abandon_on_error context (initialize context requested fs)

  unfoldable pub create : WideName → ℕ → ℕ → ℕ → Action (Fs S) NtStatus (Context × FileInfo)
  create name options access requested = do
    require_writable S
    enter_gate S
    (p, attributes) ← guarded (make_entry name options requested)
    context ← open_context S p access FsCreate.create_new (has options 1)
    fill_new context attributes

  unfoldable pub close : Context → Fs S → Fs S
  close context = drop_context S context
