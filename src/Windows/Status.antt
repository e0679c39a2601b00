-- ===== src/Windows/Status.antt =====
-- src/windows.rs, `failure` and `invalid`: the status codes that the backend returns.
use shell_canvas_drive_bridg.Base.{ℕ}
use shell_canvas_drive_bridg.Sdk.{FsError, FsErrorKind}

-- `FspError`. `other` is any further code, of the WinFsp library.
pub data NtStatus : Type 0 where
  object_name_not_found access_denied object_name_collision not_a_directory : NtStatus
  file_is_a_directory directory_not_empty object_name_invalid not_supported : NtStatus
  media_write_protected device_not_connected io_timeout io_device_error : NtStatus
  invalid_parameter internal_error : NtStatus
  other : ℕ → NtStatus

unfoldable pub status_of_kind : FsErrorKind → NtStatus
status_of_kind FsErrorKind.not_found = NtStatus.object_name_not_found
status_of_kind FsErrorKind.permission_denied = NtStatus.access_denied
status_of_kind FsErrorKind.already_exists = NtStatus.object_name_collision
status_of_kind FsErrorKind.not_directory = NtStatus.not_a_directory
status_of_kind FsErrorKind.is_directory = NtStatus.file_is_a_directory
status_of_kind FsErrorKind.not_empty = NtStatus.directory_not_empty
status_of_kind FsErrorKind.invalid_input = NtStatus.object_name_invalid
status_of_kind FsErrorKind.unsupported = NtStatus.not_supported
status_of_kind FsErrorKind.read_only = NtStatus.media_write_protected
status_of_kind FsErrorKind.offline = NtStatus.device_not_connected
status_of_kind FsErrorKind.timed_out = NtStatus.io_timeout
status_of_kind FsErrorKind.io = NtStatus.io_device_error

unfoldable pub failure : FsError → NtStatus
unfolding status_of_kind
failure e = status_of_kind e.kind

abbrev pub invalid : NtStatus
invalid = NtStatus.invalid_parameter
