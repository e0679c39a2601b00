-- ===== src/Tests/Mounting.antt =====
-- Runs of the two backends from the start, and of the command line.
use shell_canvas_drive_bridg.Base.{◌≡◌, ◌∷◌, [], refl, true, false, some, ok, String, string_eq}
use shell_canvas_drive_bridg.Sdk.{Value, BridgeDirective}
use shell_canvas_drive_bridg.Sdk.Scripted.{scripted, script}
use shell_canvas_drive_bridg.Main.{Command, command}
use shell_canvas_drive_bridg.Fuse.Lifecycle.{
  Mount, report, join_session, finish, detach, obey, turn, turns,
}
use shell_canvas_drive_bridg.Fuse.Lifecycle.Start.{
  Mounter, IsVacant, IsMounted, check_target, mount, report_ready, start, run, run_ok,
}
use shell_canvas_drive_bridg.Fuse.Lifecycle.Ending.{IsDetached}
use shell_canvas_drive_bridg.Windows.Gate.{GateError}
use shell_canvas_drive_bridg.Windows.Drives.{
  WnetStatus, reserved, is_drive, is_in_use, is_remembered,
}
use shell_canvas_drive_bridg.Windows.Mount
use shell_canvas_drive_bridg.Windows.Mount.Start
use shell_canvas_drive_bridg.Windows.Mount.Start.{
  Machine, Attachment, IsAttached, find_runtime, prepare, check_letter, mount_letter, attach,
  attach_ok,
}
use shell_canvas_drive_bridg.Tests.Lifecycle.{obedient}
use shell_canvas_drive_bridg.Tests.Disk.{writable}

abbrev empty_folder : Mounter obedient
empty_folder = record {
  is_absolute = λ t. true;
  is_dir = λ t w. true;
  is_vacant = λ t w. ok true;
  spawn_mount = λ t o w. (ok tt, w);
  drop = λ w. w;
}

abbrev before : Mount scripted obedient
before = record {
  remote = script (
      ok Value.unit
      ∷ ok (Value.directive BridgeDirective.go_on)
      ∷ ok (Value.directive BridgeDirective.detach)
      ∷ ok Value.unit
      ∷ []);
  world = false;
}

abbrev after : Mount scripted obedient
after = (run scripted obedient empty_folder 5 writable "/mnt" before).1

ends_well : run scripted obedient empty_folder 5 writable "/mnt" before ≡ (some (ok tt), after)
unfolding run start check_target mount report_ready turns turn obey detach finish join_session
    report
ends_well = refl

run_ok_example :
    IsVacant scripted obedient empty_folder "/mnt" before.world
    × ((b : Mount scripted obedient) × IsMounted scripted obedient empty_folder writable "/mnt"
          before b
        × (turns scripted obedient 5 b ≡ (some (ok tt), after)))
    × IsDetached scripted obedient after
run_ok_example = run_ok scripted obedient empty_folder 5 writable "/mnt" before after ends_well

-- A machine with the drives A and C; the world is the letter that is mounted.
abbrev machine : Machine
machine = record {
  World = String;
  Key = String;
  open_key = λ k w. ok k;
  get_string = λ k n w. ok "C:\\WinFsp\\";
  aarch64 = false;
  join = λ d n. n;
  is_absolute = λ p. true;
  load_library = λ p w. (ok tt, w);
  init = λ w. (ok tt, w);
  new_host = λ p w. (ok tt, w);
  drives = λ w. record { mask = 5; connection = λ t. WnetStatus.not_connected };
  text = λ t. some (66 ∷ 58 ∷ []);
  mount = λ t w. (ok tt, t);
  start = λ w. (ok tt, w);
}

abbrev idle : Attachment scripted machine
idle = record { world = ""; fs = Mount.mounted scripted (script (ok Value.unit ∷ [])) writable }

abbrev describe : GateError → String
describe e = "busy"

attach_ok_example :
    (w : String) × IsAttached scripted machine "B:" w
      (attach scripted machine describe "B:" idle).1.world
unfolding attach prepare find_runtime mount_letter check_letter reserved is_drive is_in_use
    is_remembered Start.report_ready Mount.report
attach_ok_example = attach_ok scripted machine describe "B:" idle refl

mounts : command ("bridge" ∷ "--mount" ∷ "B:" ∷ []) ≡ Command.mount "B:"
unfolding command string_eq
mounts = refl

wants_target : command ("bridge" ∷ "--mount" ∷ []) ≡ Command.usage
unfolding command string_eq
wants_target = refl
