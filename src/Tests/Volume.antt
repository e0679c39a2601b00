-- ===== src/Tests/Volume.antt =====
-- Runs of the WinFsp volume.
use shell_canvas_drive_bridg.Base.{
  ◌≡◌, ◌≢◌, refl, true, none, some, [], ◌∷◌, ok, err, arith, nat_eq, string_eq, list_eq,
}
use shell_canvas_drive_bridg.Sdk.{Operation, BridgeEvent}
use shell_canvas_drive_bridg.Sdk.Paths.{children}
use shell_canvas_drive_bridg.Tests.Disk.{
  disk, serve, three_files, fresh, one_open, to_one_open, disk-IsLawful, winfsp, writable,
}
use shell_canvas_drive_bridg.Windows.Names.{path, non_empty, split, trim_start}
use shell_canvas_drive_bridg.Windows.Names.Parsing.{path-spelled, spelled}
use shell_canvas_drive_bridg.Windows.Gate.{begin_detach, enter, drop_guard}
use shell_canvas_drive_bridg.Windows.Contexts.{
  enter_gate, release_on_error, path_metadata, call, open_context, open_handle, needs_no_handle,
  open_options, track,
}
use shell_canvas_drive_bridg.Windows.Handles.{blocks_detach}
use shell_canvas_drive_bridg.Windows.Opening.{open_entry, create, find_entry}
use shell_canvas_drive_bridg.Windows.Mount.{turn, obey, detach, report}
use shell_canvas_drive_bridg.Windows.Volume.{Volume, Step, Reach}
use shell_canvas_drive_bridg.Windows.Steady.{tables}
use shell_canvas_drive_bridg.Windows.Volume.Opened.{IsSound}
use shell_canvas_drive_bridg.Windows.Volume.Sound.{guards}
use shell_canvas_drive_bridg.Windows.Volume.History.{history-IsSound}
use shell_canvas_drive_bridg.Windows.Volume.Detached.{is_shut, shut_final}
use shell_canvas_drive_bridg.Windows.Volume.Turns.{detach_idle, detach_busy}
use shell_canvas_drive_bridg.Windows.Status.{NtStatus}

-- `\a\\b\`
path-spelled_example :
    path disk (some (spelled ("a" ∷ "" ∷ "b" ∷ "" ∷ [])))
    ≡ ok (non_empty ("a" ∷ "" ∷ "b" ∷ "" ∷ []))
unfolding non_empty string_eq
path-spelled_example =
    path-spelled disk disk-IsLawful ("a" ∷ "" ∷ "b" ∷ "" ∷ [])
      ((refl, tt), (tt, ((refl, tt), (tt, tt)))) (refl, (refl, tt))

history-IsSound_example : IsSound one_open
history-IsSound_example = history-IsSound disk winfsp three_files writable one_open to_one_open

-- A directive to detach, with nothing open.
abbrev detached : Volume disk
detached = record fresh { fs = (turn disk winfsp.gate_text fresh.fs).1 }

detached_shut : is_shut disk detached ≡ true
unfolding turn obey detach report begin_detach
detached_shut = refl

shut_final_example :
    (guards detached.contexts ≡ 0)
    × (open_entry disk (some "\\a") 0 3 detached.fs
        ≡ (err NtStatus.device_not_connected, detached.fs))
    × (create disk (some "\\a") 0 3 0 detached.fs
        ≡ (err NtStatus.device_not_connected, detached.fs))
unfolding turn obey detach report begin_detach
shut_final_example =
    shut_final disk winfsp three_files writable detached detached (some "\\a") 0 3 0
      (Reach.next {t = fresh} Reach.here Step.turn) detached_shut Reach.here

detach_idle_example :
    ((turn disk winfsp.gate_text fresh.fs).0 ≡ some (ok tt))
    × ((turn disk winfsp.gate_text fresh.fs).1.gate.detaching ≡ true)
detach_idle_example = detach_idle disk winfsp three_files writable fresh Reach.here refl refl

one_guard : guards one_open.contexts ≡ 1
unfolding open_entry enter_gate enter release_on_error find_entry path trim_start split non_empty
    children path_metadata call open_context open_handle needs_no_handle open_options track
    blocks_detach string_eq nat_eq drop_guard
one_guard = refl

one_open_guard : guards one_open.contexts ≢ 0
one_open_guard e = absurd (omega (arith, one_guard, e))

detach_busy_example :
    let refusal =
      serve
        (Operation.report (BridgeEvent.detach_failed "busy"))
        (serve Operation.poll one_open.fs.remote).1 in
    let (o, fs) = turn disk winfsp.gate_text one_open.fs in
    (fs.remote ≡ refusal.1) × (tables fs ≡ tables one_open.fs) × (o ≡ none)
detach_busy_example =
    detach_busy disk winfsp three_files writable one_open to_one_open refl one_open_guard
