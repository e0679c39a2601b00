-- ===== src/Tests/Lifecycle.antt =====
-- A run of the polling loop of the FUSE backend.
use shell_canvas_drive_bridg.Base.{Bool, ◌≡◌, refl, true, false, some, [], ◌∷◌, ok}
use shell_canvas_drive_bridg.Sdk.{BridgeDirective, Value}
use shell_canvas_drive_bridg.Sdk.Scripted.{scripted, script}
use shell_canvas_drive_bridg.Fuse.Lifecycle.{
  Host, Mount, report, join_session, finish, detach, obey, turn, turns,
}
use shell_canvas_drive_bridg.Fuse.Lifecycle.Ending.{IsDetached, turns-IsDetached}

-- A mount that the unmount helper takes down at once.
abbrev pub obedient : Host
obedient = record {
  World = Bool;
  is_finished = λ w. (w, w);
  join = λ w. (ok tt, w);
  unmount = λ w. (ok tt, true);
}

abbrev attached : Mount scripted obedient
attached = record {
  remote = script (
      ok (Value.directive BridgeDirective.go_on)
      ∷ ok (Value.directive BridgeDirective.detach)
      ∷ ok Value.unit
      ∷ []);
  world = false;
}

ends_well : (turns scripted obedient 5 attached).0 ≡ some (ok tt)
unfolding turns turn obey detach finish join_session report
ends_well = refl

attached_detaches : IsDetached scripted obedient (turns scripted obedient 5 attached).1
attached_detaches = turns-IsDetached scripted obedient 5 attached ends_well
