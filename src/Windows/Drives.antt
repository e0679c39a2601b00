-- ===== src/Windows/Drives.antt =====
-- src/windows_drives.rs: a drive letter is free if no drive uses it and Windows remembers no network
-- connection for it. What Windows answers is a parameter.
pub mod Free
use shell_canvas_drive_bridg.Base.{
  ℕ, ◌-◌, ◌^◌, ◌&&◌, bit_and, Bool, true, false, not, List, [], ◌∷◌, Result, ok, err, eqb, leb,
  if◌then◌else◌,
}

-- The statuses of `WNetGetConnectionW` that the code tells apart.
pub data WnetStatus : Type 0 where
  no_error more_data connection_unavail not_connected : WnetStatus
  other : ℕ → WnetStatus

pub data DriveError : Type 0 where
  letter_expected drives_unknown : DriveError
  connection_unknown : ℕ → DriveError

-- `GetLogicalDrives`, and `WNetGetConnectionW` by the bytes of the target.
pub record DriveTables : Type 0 where
  pub mask : ℕ
  pub connection : List ℕ → WnetStatus

unfoldable pub is_remembered : WnetStatus → Result DriveError Bool
is_remembered WnetStatus.no_error = ok true
is_remembered WnetStatus.more_data = ok true
is_remembered WnetStatus.connection_unavail = ok true
is_remembered WnetStatus.not_connected = ok false
is_remembered (WnetStatus.other e) = err (DriveError.connection_unknown e)

-- `value[0].is_ascii_uppercase() && value[1] == b':'`
unfoldable pub is_drive : ℕ → ℕ → Bool
is_drive letter colon = leb 65 letter && leb letter 90 && eqb colon 58

-- `mask & (1 << (value[0] - b'A')) != 0`
unfoldable pub is_in_use : ℕ → ℕ → Bool
is_in_use mask letter = not (eqb (bit_and mask (2 ^ (letter - 65))) 0)

unfoldable pub reserved : DriveTables → List ℕ → Result DriveError Bool
reserved W (letter ∷ colon ∷ []) =
    if not (is_drive letter colon)
    then err DriveError.letter_expected
    else if eqb W.mask 0
    then err DriveError.drives_unknown
    else if is_in_use W.mask letter
    then ok true
    else is_remembered (W.connection (letter ∷ colon ∷ []))
reserved W _ = err DriveError.letter_expected
