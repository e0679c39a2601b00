-- ===== src/Windows/Steady/Changes.antt =====
-- src/windows.rs: the callbacks for metadata and deletion leave the tables alone.
use shell_canvas_drive_bridg.Base.{
  ℕ, ◌≡◌, refl, Bool, true, false, Option, none, some, String, arith,
}
use shell_canvas_drive_bridg.Sdk.{Sdk, Operation, MountPath, FsSetMetadata, FsMetadata}
use shell_canvas_drive_bridg.Windows.Status.{NtStatus}
use shell_canvas_drive_bridg.Windows.Names.{WideName}
use shell_canvas_drive_bridg.Windows.Contexts.{Context, Fs, call, warn, require_writable}
use shell_canvas_drive_bridg.Windows.Metadata
use shell_canvas_drive_bridg.Windows.Namespace
use shell_canvas_drive_bridg.Windows.Steady.{
  tables, Steady, Steady-bind, Steady-lift, Steady-pure, Steady-raise_if, Steady-if, call-Steady,
  context_path-Steady, metadata-Steady, path_metadata-Steady,
}

module _ (S : Sdk) where
  ruleset steps = (
    Steady-bind, Steady-lift, Steady-pure, Steady-raise_if, Steady-if, call-Steady,
    context_path-Steady,
  )

  pub get_security_by_name-Steady :
      (name : WideName) → Steady (Metadata.get_security_by_name S name)
  unfolding Metadata.get_security_by_name
  get_security_by_name-Steady name = search (steps, path_metadata-Steady)

  pub writable-Steady : Steady (require_writable S)
  writable-Steady fs = refl

  overwrite_changes-Steady :
      (c : Context) (requested : ℕ) (replace : Bool)
      → Steady (Metadata.overwrite_changes S c requested replace)
  unfolding Metadata.overwrite_changes
  overwrite_changes-Steady c requested replace =
      search (steps, metadata-Steady, writable-Steady) depth 12

  pub overwrite-Steady :
      (c : Context) (requested : ℕ) (replace : Bool)
      → Steady (Metadata.overwrite S c requested replace)
  unfolding Metadata.overwrite
  overwrite-Steady c requested replace =
      search (steps, metadata-Steady, overwrite_changes-Steady) depth 8

  pub changes-Steady :
      (c : Context) (requested created access write changed : ℕ)
      → Steady (Metadata.basic_changes S c requested created access write changed)
  unfolding Metadata.basic_changes
  changes-Steady c requested created access write changed = search (steps, metadata-Steady) depth 12

  send-Steady :
      (o : Option ℕ) (c : Context) (m : FsSetMetadata) → Steady (Metadata.send_changes S o c m)
  unfolding Metadata.send_changes
  send-Steady none c m = search steps
  send-Steady (some h) c m = search steps

  apply-Steady : (c : Context) (m : FsSetMetadata) → Steady (Metadata.apply_changes S c m)
  unfolding Metadata.apply_changes
  apply-Steady c m = search (steps, writable-Steady, send-Steady) depth 8

  warn_once-tables :
      (omitted : Bool) (fs : Fs S) → tables (Metadata.warn_once S omitted fs) ≡ tables fs
  unfolding Metadata.warn_once warn
  warn_once-tables omitted fs = ground arith

  confirm-Steady : (omitted : Bool) (m : FsMetadata) → Steady (Metadata.confirm S omitted m)
  unfolding Metadata.confirm
  confirm-Steady omitted m fs = warn_once-tables omitted fs

  pub set_basic_info-Steady :
      (c : Context) (requested created access write changed : ℕ)
      → Steady (Metadata.set_basic_info S c requested created access write changed)
  unfolding Metadata.set_basic_info
  set_basic_info-Steady c requested created access write changed =
      search (steps, metadata-Steady, changes-Steady, apply-Steady, confirm-Steady) depth 10

  pub get_volume_info-Steady : Steady (Metadata.get_volume_info S)
  unfolding Metadata.get_volume_info
  get_volume_info-Steady = search steps

  page-Steady :
      (h : ℕ)
      → Steady (λ fs.
        let (page, read) = call S (Operation.read_directory h) fs in
        (page, (call S (Operation.close_directory h) read).1))
  unfolding call
  page-Steady h fs = refl

  empty-Steady : (p : MountPath) → Steady (Namespace.check_empty S p)
  unfolding Namespace.check_empty
  empty-Steady p = search (steps, page-Steady) depth 8

  pub set_delete-Steady : (c : Context) (delete : Bool) → Steady (Namespace.set_delete S c delete)
  unfolding Namespace.set_delete
  set_delete-Steady c false = Steady-pure tt
  set_delete-Steady c true = search (steps, writable-Steady, empty-Steady) depth 10

  module _ (text : NtStatus → String) where
    pub cleanup-tables :
        (c : Context) (name : Option WideName) (flags : ℕ) (fs : Fs S)
        → tables (Namespace.cleanup S text c name flags fs) ≡ tables fs
    unfolding Namespace.cleanup Namespace.delete_or_warn call warn
    cleanup-tables c none flags fs = ground arith
    cleanup-tables c (some name) flags fs = ground arith
