-- ===== src/Windows/Sends/Queries.antt =====
-- src/windows.rs: the callbacks that neither open nor remove anything, and a turn of the loop of
-- `run`, as steps of the volume.
use shell_canvas_drive_bridg.Base.{
  ◌≡◌, refl, Bool, true, false, String, arith, inl, inr, Result-cases,
}
use shell_canvas_drive_bridg.Sdk.{Sdk, IsStable, Operation, BridgeEvent}
use shell_canvas_drive_bridg.Windows.Gate.{GateError, begin_detach}
use shell_canvas_drive_bridg.Windows.Contexts.{Fs}
use shell_canvas_drive_bridg.Windows.Mount.{turn, obey, detach, report}
use shell_canvas_drive_bridg.Windows.Volume.{WinFsp, Query}
use shell_canvas_drive_bridg.Windows.Sends.Ordinary.{ordinary}
use shell_canvas_drive_bridg.Windows.Sends.Callbacks

module _ (S : Sdk) (describe : GateError → String) (I : S.Remote → Type 0)
    (stable : IsStable S ordinary I) where
  detach-kept : (fs : Fs S) → I fs.remote → I (detach S describe fs).1.remote
  unfolding detach report
  detach-kept fs i = elim (Result-cases (begin_detach fs.gate).0) [
    | inr (u, granted) ↦
        rw (granted, detach, report)
          (stable (Operation.report BridgeEvent.detached) fs.remote refl i)
    | inl (e, busy) ↦
        let event = BridgeEvent.detach_failed (describe e) in
        ground (arith, busy, stable (Operation.report event) fs.remote refl i)
  ]

  pub turn-kept : (fs : Fs S) → I fs.remote → I (turn S describe fs).1.remote
  unfolding turn obey
  turn-kept fs i =
      let polled = stable Operation.poll fs.remote refl i in
      let r = (S.call Operation.poll fs.remote).1 in
      ground (arith, polled, detach-kept (record fs { remote = r }) polled)

module _ (S : Sdk) (W : WinFsp) where
  abbrev pub is_ordinary : {fs t : Fs S} → Query S W fs t → Bool
  is_ordinary (Query.cleanup c name flags) = false
  is_ordinary (Query.set_delete c delete) = false
  is_ordinary _ = true

  module _ (I : S.Remote → Type 0) (stable : IsStable S ordinary I) where
    pub ordinary-kept :
        {fs t : Fs S} (q : Query S W fs t) → is_ordinary q ≡ true → I fs.remote → I t.remote
    ordinary-kept {fs} (Query.get_security_by_name name) e i =
        Callbacks.get_security_by_name-Keeps S name I stable fs i
    ordinary-kept {fs} (Query.get_file_info c) e i = Callbacks.get_file_info-Keeps S c I stable fs i
    ordinary-kept {fs} (Query.read c size offset) e i =
        Callbacks.read-Keeps S c size offset I stable fs i
    ordinary-kept {fs} (Query.write c bytes offset eof constrained) e i =
        Callbacks.write-Keeps S c bytes offset eof constrained I stable fs i
    ordinary-kept {fs} (Query.flush c) e i = Callbacks.flush-Keeps S c I stable fs i
    ordinary-kept {fs} (Query.set_file_size c size allocation) e i =
        Callbacks.set_file_size-Keeps S c size allocation I stable fs i
    ordinary-kept {fs} (Query.overwrite c requested replace) e i =
        Callbacks.overwrite-Keeps S c requested replace I stable fs i
    ordinary-kept {fs} (Query.set_basic_info c requested created access written changed) e i =
        Callbacks.set_basic_info-Keeps S c requested created access written changed I stable fs i
    ordinary-kept {fs} Query.get_volume_info e i = Callbacks.get_volume_info-Keeps S I stable fs i
    ordinary-kept (Query.set_delete c delete) e i = absurd (ground (arith, e))
    ordinary-kept (Query.cleanup c name flags) e i = absurd (ground (arith, e))
