-- ===== src/Tests/Windows.antt =====
-- Runs of the Windows parts.
use shell_canvas_drive_bridg.Base.{
  ℕ, ◌+◌, ◌*◌, ◌<◌, ◌≤◌, ◌≡◌, ◌≢◌, refl, true, false, none, some, [], ◌∷◌, ok, err, arith,
  starts_with, nat_eq, string_eq, list_eq,
}
use shell_canvas_drive_bridg.Base.Dict
use shell_canvas_drive_bridg.Sdk.{MountPath, Operation, FsKind, FsMetadata, FsResult}
use shell_canvas_drive_bridg.Sdk.Paths.{children}
use shell_canvas_drive_bridg.Sdk.Scripted.{
  Script, scripted, scripted-IsLawful, script, offline_error,
}
use shell_canvas_drive_bridg.Windows.Drives.{
  DriveTables, WnetStatus, reserved, is_drive, is_in_use, is_remembered,
}
use shell_canvas_drive_bridg.Windows.Drives.Free.{digit_at, reserved_free}
use shell_canvas_drive_bridg.Windows.Attributes.{
  attributes, permissions, has, readonly, validate_attributes, change_permissions,
}
use shell_canvas_drive_bridg.Windows.Attributes.ReadOnly.{
  Tightens, applied, permissions-Tightens, permissions-attributes,
}
use shell_canvas_drive_bridg.Windows.Gate.{GateError, idle, enter, begin_detach}
use shell_canvas_drive_bridg.Windows.Gate.Session.{
  Attachment, Step, Reach, fresh, IsCounted, Reach-fresh, detach_final, begin_detach_busy,
}
use shell_canvas_drive_bridg.Windows.Times.{
  filetime, unix_seconds, epoch, ticks_per_second, max_filetime,
}
use shell_canvas_drive_bridg.Windows.Times.Laws.{
  filetime_exact, unix_seconds-filetime, unix_seconds_floor,
}
use shell_canvas_drive_bridg.Windows.Handles.{
  OpenHandle, OpenHandles, register, rename, flush, retain, upgrade, plan, publish,
}
use shell_canvas_drive_bridg.Windows.Handles.Rename.{renamed}
use shell_canvas_drive_bridg.Windows.Handles.Renamed.{
  IsRegistered, register-IsRegistered, rename-renamed, rename_failed,
}
use shell_canvas_drive_bridg.Windows.Handles.Flush.{flush_lem, flush_each, first_error, writers}

-- Two descriptors: one on `a/x` that writes, one on `c` that reads.
abbrev writer : OpenHandle
writer = record { path = "a" ∷ "x" ∷ []; file = some 10; writable = true }

abbrev reader : OpenHandle
reader = record { path = "c" ∷ []; file = some 11; writable = false }

abbrev none_open : OpenHandles
none_open = record { refs = []; live = [] }

none_open-IsRegistered : IsRegistered none_open
unfolding Dict.lookup
none_open-IsRegistered id h e = cc

abbrev one_open : OpenHandles
one_open = register 1 writer none_open

abbrev two_open : OpenHandles
two_open = register 2 reader one_open

one_open-IsRegistered : IsRegistered one_open
one_open-IsRegistered = register-IsRegistered 1 writer none_open none_open-IsRegistered

two_open-IsRegistered : IsRegistered two_open
two_open-IsRegistered = register-IsRegistered 2 reader one_open one_open-IsRegistered

abbrev path_a : MountPath
path_a = "a" ∷ []

abbrev path_b : MountPath
path_b = "b" ∷ []

abbrev confirm : Script → FsResult (Unit {0}) × Script
confirm s = (ok tt, s)

abbrev refuse : Script → FsResult (Unit {0}) × Script
refuse s = (err offline_error, s)

confirmed : (rename scripted path_a path_b confirm (two_open, script [])).0 ≡ ok tt
unfolding rename register retain upgrade plan publish children Dict.lookup Dict.insert Dict.erase
    starts_with list_eq nat_eq string_eq
confirmed = refl

refused : (rename scripted path_a path_b refuse (two_open, script [])).0 ≡ err offline_error
unfolding rename register retain upgrade plan publish children Dict.lookup Dict.insert Dict.erase
    starts_with list_eq nat_eq string_eq
refused = refl

found_writer : Dict.lookup 1 two_open.live ≡ some writer
unfolding register Dict.lookup Dict.insert Dict.erase nat_eq
found_writer = refl

rename-renamed_example :
    Dict.lookup 1 (rename scripted path_a path_b confirm (two_open, script [])).1.live
    ≡ some (renamed path_a path_b writer)
rename-renamed_example =
    rename-renamed scripted scripted-IsLawful path_a path_b confirm two_open (script []) 1 writer
      two_open-IsRegistered confirmed found_writer

rename_failed_example :
    (rename scripted path_a path_b refuse (two_open, script [])).1.live ≡ two_open.live
rename_failed_example =
    rename_failed scripted scripted-IsLawful path_a path_b refuse two_open (script []) offline_error
      two_open-IsRegistered refused

abbrev send_flush : ℕ → Script → FsResult (Unit {0}) × Script
send_flush id s = (err offline_error, record s { log = Operation.flush id ∷ s.log })

flush_lem_example : flush scripted send_flush two_open (script []) ≡ (
  first_error (flush_each send_flush (writers two_open.live two_open.refs) (script [])).0,
  (flush_each send_flush (writers two_open.live two_open.refs) (script [])).1,
)
flush_lem_example = flush_lem scripted send_flush two_open (script [])

-- One open, and a detach asked for in between.
abbrev entered : Attachment
entered = record { gate = (enter idle).1; guards = 1 }

abbrev kept_open : Attachment
kept_open = record entered { gate = (begin_detach entered.gate).1 }

enters_once : Step fresh entered
unfolding enter
enters_once = Step.enters

busy_history : Reach fresh kept_open
busy_history = Reach.next (Reach.next Reach.here enters_once) Step.detaches

kept_open-IsCounted : IsCounted kept_open
kept_open-IsCounted = Reach-fresh kept_open busy_history

kept_open_busy :
    (begin_detach kept_open.gate ≡ (err (GateError.busy 1), kept_open.gate))
    × (kept_open.gate.detaching ≡ false)
kept_open_busy = begin_detach_busy kept_open 0 busy_history refl

abbrev shut : Attachment
shut = record fresh { gate = (begin_detach fresh.gate).1 }

granted : (begin_detach fresh.gate).0 ≡ ok tt
unfolding begin_detach
granted = refl

-- An open that comes after the detach.
abbrev too_late : Attachment
too_late = record { gate = (enter shut.gate).1; guards = 0 }

refuses : Step shut too_late
unfolding enter begin_detach
refuses = Step.enters

shut_stays : (too_late.gate.detaching ≡ true) × ((enter too_late.gate).0 ≢ ok tt)
shut_stays = detach_final fresh too_late granted (Reach.next Reach.here refuses)

abbrev plain_file : FsMetadata
plain_file = record {
  kind = FsKind.file;
  size = 0;
  accessed = none;
  modified = none;
  permissions = some 0o644;
}

abbrev special_file : FsMetadata
special_file = record {
  kind = FsKind.file;
  size = 0;
  accessed = none;
  modified = none;
  permissions = some 0o4644;
}

protects : permissions plain_file readonly ≡ ok (some 0o444)
unfolding permissions validate_attributes change_permissions attributes
protects = refl

permissions-attributes_example :
    has (attributes (applied plain_file (some 0o444))) readonly ≡ has readonly readonly
permissions-attributes_example =
    permissions-attributes plain_file readonly (some 0o444) refl (ground arith) protects

tightened : Tightens 0o644 0o444
tightened = permissions-Tightens plain_file readonly 0o644 0o444 refl protects

unix_seconds-filetime_example :
    unix_seconds (filetime (some 1_700_000_000) + 5) ≡ ok (some 1_700_000_000)
unix_seconds-filetime_example = unix_seconds-filetime 1_700_000_000 5 (omega arith) (omega arith)

one_tick_late : unix_seconds (epoch + ticks_per_second + 1) ≡ ok (some 1)
unfolding unix_seconds
one_tick_late = refl

unix_seconds_floor_example :
    (filetime (some 1) ≤ epoch + ticks_per_second + 1)
    × (epoch + ticks_per_second + 1 < filetime (some 1) + ticks_per_second)
    × (epoch + ticks_per_second + 1 ≤ max_filetime)
unix_seconds_floor_example = unix_seconds_floor (epoch + ticks_per_second + 1) 1 one_tick_late

has_time : filetime (some 1) ≢ 0
unfolding filetime
has_time = ground arith

filetime_held :
    (s : ℕ) × (some 1 ≡ some s)
    × (filetime (some 1) ≡ s * ticks_per_second + epoch)
    × (filetime (some 1) ≤ max_filetime)
filetime_held = filetime_exact (some 1) has_time

-- The drives A and C, and no connections.
abbrev two_drives : DriveTables
two_drives = record { mask = 5; connection = λ t. WnetStatus.not_connected }

reserved_free_example :
    (n : ℕ) × ((n < 26)
      × (((66 ∷ 58 ∷ []) ≡ (65 + n) ∷ 58 ∷ [])
          × ((digit_at n 5 ≡ 0)
              × (two_drives.connection (66 ∷ 58 ∷ []) ≡ WnetStatus.not_connected))))
unfolding reserved is_drive is_in_use is_remembered
reserved_free_example = reserved_free two_drives (66 ∷ 58 ∷ []) refl
