-- ===== src/Windows/Attributes.antt =====
-- src/windows_attributes.rs: Windows file attributes over POSIX permission bits.
pub mod ReadOnly
pub mod Refused
use shell_canvas_drive_bridg.Base.{
  ℕ, bit_and, bit_or, Bool, true, false, not, ◌&&◌, Option, none, some, String, Result, ok, err,
  ok_or, then_result, eqb, if◌then◌else◌,
}
use shell_canvas_drive_bridg.Sdk.{
  FsError, FsErrorKind, FsKind, FsMetadata, FsResult, is_directory_kind, is_file_kind,
}

abbrev pub readonly : ℕ
readonly = 0x1

abbrev pub directory : ℕ
directory = 0x10

abbrev pub normal : ℕ
normal = 0x80

abbrev pub unsupported : String → FsError
unsupported message = record { kind = FsErrorKind.unsupported; message = message }

-- `x & mask != 0`
abbrev pub has : ℕ → ℕ → Bool
has x bits = not (eqb (bit_and x bits) 0)

-- `!(READONLY | DIRECTORY | NORMAL)` on 32 bits.
abbrev pub unknown_attributes : ℕ
unknown_attributes = 0xffff_ff6e

unfoldable pub validate_attributes : ℕ → FsResult (Unit {0})
validate_attributes requested =
    if has requested unknown_attributes
    then err (
        unsupported
          "This provider cannot persist Windows hidden, system, archive or other DOS attributes")
    else ok tt

-- `!0x20` on 32 bits drops the archive bit.
unfoldable pub creation_attributes : ℕ → Bool → FsResult ℕ
creation_attributes requested is_directory =
    let kept = bit_and requested 0xffff_ffdf in
    then_result (validate_attributes kept) (λ _.
      if is_directory && has kept readonly
      then err (unsupported "Read-only creation is supported only for regular files")
      else ok kept)

-- No write bit of `0o222` is set.
abbrev pub is_write_protected : Option ℕ → Bool
is_write_protected none = false
is_write_protected (some p) = eqb (bit_and p 0o222) 0

unfoldable pub attributes : FsMetadata → ℕ
attributes m =
    if is_directory_kind m.kind
    then directory
    else if is_file_kind m.kind && is_write_protected m.permissions
    then readonly
    else normal

-- `readonly == (attributes(meta) & READONLY != 0)`
abbrev pub same_flag : Bool → Bool → Bool
same_flag true b = b
same_flag false b = not b

-- `!0o222` on 32 bits.
abbrev pub not_write_bits : ℕ
not_write_bits = 0xffff_ff6d

unfoldable pub change_permissions : Bool → ℕ → FsResult (Option ℕ)
change_permissions read_only current =
    if has current 0o7000
    then err (unsupported "Change special Unix permissions on the remote host")
    else ok (some (if read_only then bit_and current not_write_bits else bit_or current 0o200))

unfoldable pub permissions : FsMetadata → ℕ → FsResult (Option ℕ)
permissions m requested =
    if eqb requested 0xffff_ffff
    then ok none
    else then_result (validate_attributes requested) (λ _.
      if not (is_file_kind m.kind)
      then (if has requested readonly
          then err (unsupported "Read-only attribute changes are supported only for regular files")
          else ok none)
      else (if same_flag (has requested readonly) (has (attributes m) readonly)
          then ok none
          else then_result (ok_or m.permissions (unsupported "Remote permissions are unavailable"))
              (change_permissions (has requested readonly))))
