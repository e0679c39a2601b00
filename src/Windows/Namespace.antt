-- ===== src/Windows/Namespace.antt =====
-- src/windows.rs: the callbacks that rename and delete.
use Prim.Native.String
use shell_canvas_drive_bridg.Base.{
  ℕ, Bool, true, false, not, Option, none, some, [], ◌∷◌, String, ok, err, map_err, Action, pure,
  lift, raise_if, ◌>>=◌, ◌>>◌, if◌then◌else◌,
}
use shell_canvas_drive_bridg.Sdk.{Sdk, Operation, FsResult, Value, MountPath}
use shell_canvas_drive_bridg.Windows.Status.{NtStatus, failure}
use shell_canvas_drive_bridg.Windows.Names.{WideName, path}
use shell_canvas_drive_bridg.Windows.Attributes.{has}
use shell_canvas_drive_bridg.Windows.Handles
use shell_canvas_drive_bridg.Windows.Contexts.{
  Context, Fs, call, warn, as_handle, context_path, require_writable,
}
use shell_canvas_drive_bridg.Windows.Data.{no_value}

-- `components().is_empty()`
abbrev pub is_root : MountPath → Bool
is_root [] = true
is_root (_ ∷ _) = false

-- `matches!(entries, Value::Entries(ref entries) if entries.is_empty())`
abbrev pub is_empty_page : Value → Bool
is_empty_page (Value.entries []) = true
is_empty_page _ = false

module _ (S : Sdk) where
  abbrev pub send_rename : MountPath → MountPath → Bool → S.Remote → FsResult (Unit {0}) × S.Remote
  send_rename from to replace r =
      let (v, r') = S.call (Operation.rename from to replace) r in (no_value v, r')

  unfoldable pub rename_paths : MountPath → MountPath → Bool → Action (Fs S) NtStatus (Unit {0})
  rename_paths from to replace fs =
      let (v, t, r) =
        Handles.rename S from to (send_rename from to replace) (fs.handles, fs.remote) in
      (map_err failure v, record fs { handles = t; remote = r })

  unfoldable pub rename : WideName → WideName → Bool → Action (Fs S) NtStatus (Unit {0})
  rename old new replace = do
    to ← lift (path S new)
    from ← lift (path S old)
    rename_paths from to replace

  -- A directory is empty if its first page is; its remote handle is closed before that is judged,
  -- and the reply to the close is dropped.
  unfoldable pub check_empty : MountPath → Action (Fs S) NtStatus (Unit {0})
  check_empty p = do
    v ← call S (Operation.open_directory p)
    handle ← lift (as_handle v)
    entries ← λ fs.
        let (page, read) = call S (Operation.read_directory handle) fs in
        (page, (call S (Operation.close_directory handle) read).1)
    raise_if (not (is_empty_page entries)) NtStatus.directory_not_empty

  unfoldable pub set_delete : Context → Bool → Action (Fs S) NtStatus (Unit {0})
  set_delete context false = pure tt
  set_delete context true = do
    require_writable S
    p ← context_path S context
    raise_if (is_root p) NtStatus.access_denied
    if context.is_dir then (context_path S context >>= check_empty) else pure tt

  -- The name that the kernel gives, or else the path of the context.
  abbrev pub cleanup_target : Context → Option WideName → Action (Fs S) NtStatus MountPath
  cleanup_target context (some name) = lift (path S name)
  cleanup_target context none = context_path S context

  -- `describe` is the text of an error of the WinFsp library.
  module _ (describe : NtStatus → String) where
    unfoldable pub delete_or_warn : MountPath → Bool → Fs S → Fs S
    delete_or_warn p is_dir fs =
        let (v, fs') = call S (Operation.remove p is_dir) fs in
        elim v [
          | ok _ ↦ fs'
          | err e ↦
              warn S (String.◌++◌ "Remote deletion failed during Windows cleanup: " (describe e))
                fs'
        ]

    unfoldable pub cleanup : Context → Option WideName → ℕ → Fs S → Fs S
    cleanup context name flags fs =
        let (target, fs') = cleanup_target context name fs in
        if has flags 1
        then elim target [ err _ ↦ fs' | ok p ↦ delete_or_warn p context.is_dir fs' ]
        else fs
