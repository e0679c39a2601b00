-- ===== src/Windows/Times.antt =====
-- src/windows_times.rs: Unix seconds and Windows file times, 100-nanosecond ticks since 1601.
pub mod Laws
use shell_canvas_drive_bridg.Base.{
  ℕ, ◌+◌, ◌-◌, ◌*◌, ◌/◌, ◌^◌, Bool, ◌||◌, not, Option, none, some, String, ok, err, ltb, leb, eqb,
  if◌then◌else◌,
}
use shell_canvas_drive_bridg.Sdk.{FsError, FsErrorKind, FsResult}

-- 1970-01-01 as a file time.
abbrev pub epoch : ℕ
epoch = 116_444_736_000_000_000

abbrev pub ticks_per_second : ℕ
ticks_per_second = 10_000_000

-- `i64::MAX`
abbrev pub max_filetime : ℕ
max_filetime = 2 ^ 63 - 1

abbrev pub unsupported : String → FsError
unsupported message = record { kind = FsErrorKind.unsupported; message = message }

abbrev pub and_then : Option ℕ → (ℕ → Option ℕ) → Option ℕ
and_then none f = none
and_then (some a) f = f a

abbrev pub checked : ℕ → Option ℕ
checked n = if ltb n (2 ^ 64) then some n else none

abbrev pub or_zero : Option ℕ → ℕ
or_zero none = 0
or_zero (some n) = n

unfoldable pub filetime : Option ℕ → ℕ
filetime seconds = or_zero (
    and_then
      (and_then (and_then seconds (λ s. checked (s * ticks_per_second))) (λ t. checked (t + epoch)))
      (λ t. if leb t max_filetime then some t else none))

unfoldable pub unix_seconds : ℕ → FsResult (Option ℕ)
unix_seconds time =
    if eqb time 0
    then ok none
    else if ltb time epoch || ltb max_filetime time
    then err (unsupported "Timestamp is outside the portable provider's Unix time range")
    else ok (some ((time - epoch) / ticks_per_second))

unfoldable pub validate_unsupported_times : ℕ → ℕ → FsResult (Unit {0})
validate_unsupported_times created changed =
    if not (eqb created 0) || not (eqb changed 0)
    then err (unsupported "This provider cannot set file creation or metadata-change time")
    else ok tt
