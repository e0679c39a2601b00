-- ===== src/Windows/Mount.antt =====
-- src/windows.rs, `run` from the mount on: once a second the bridge polls the provider for a
-- directive, and a detach is granted by the gate. A callback of the host may run between two turns.
pub mod Start
use shell_canvas_drive_bridg.Base.{false, Option, none, some, [], String, Result, ok, err, Action}
use shell_canvas_drive_bridg.Sdk.{
  Sdk, Operation, Value, FsError, FsResult, FsCapabilities, BridgeDirective, BridgeEvent,
}
use shell_canvas_drive_bridg.Windows.Gate.{GateError, idle, begin_detach}
use shell_canvas_drive_bridg.Windows.Contexts.{Fs}

-- The errors that `run` returns from the loop.
pub data Failure : Type 0 where
  report_failed connection_lost : FsError → Failure
  invalid_reply : Failure

-- A report must have arrived.
abbrev pub reported : FsResult Value → Result Failure (Unit {0})
reported (ok _) = ok tt
reported (err e) = err (report_failed e)

-- A report that has failed ends the loop.
abbrev pub unless_sent : Result Failure (Unit {0}) → Option (Result Failure (Unit {0}))
unless_sent (err e) = some (err e)
unless_sent (ok _) = none

module _ (S : Sdk) where
  -- The file system that `run` hands to the host.
  abbrev pub mounted : S.Remote → FsCapabilities → Fs S
  mounted r caps = record {
    remote = r;
    warned_change_time = false;
    handles = record { refs = []; live = [] };
    gate = idle;
    caps = caps;
    next = 0;
  }

  -- `describe` is the text of the gate's refusals.
  module _ (describe : GateError → String) where
    unfoldable pub report : BridgeEvent → Action (Fs S) Failure (Unit {0})
    report event fs =
        let (v, r) = S.call (Operation.report event) fs.remote in
        (reported v, record fs { remote = r })

    -- `none` stays in the loop. When it ends, the host is unmounted and stopped first.
    abbrev pub Turn : Type 0
    Turn = Option (Result Failure (Unit {0})) × Fs S

    abbrev pub ends : Result Failure (Unit {0}) × Fs S → Turn
    ends (v, fs) = (some v, fs)

    abbrev pub goes_on : Result Failure (Unit {0}) × Fs S → Turn
    goes_on (v, fs) = (unless_sent v, fs)

    unfoldable pub detach : Fs S → Turn
    detach fs =
        let (v, g) = begin_detach fs.gate in
        let asked = record fs { gate = g } in
        elim v [
          | ok _ ↦ ends (report BridgeEvent.detached asked)
          | err e ↦ goes_on (report (BridgeEvent.detach_failed (describe e)) asked)
        ]

    unfoldable pub obey : FsResult Value → Fs S → Turn
    obey (ok (Value.directive BridgeDirective.go_on)) fs = (none, fs)
    obey (ok (Value.directive BridgeDirective.detach)) fs = detach fs
    obey (err e) fs = (some (err (connection_lost e)), fs)
    obey _ fs = (some (err invalid_reply), fs)

    unfoldable pub turn : Fs S → Turn
    turn fs = let (v, r) = S.call Operation.poll fs.remote in obey v (record fs { remote = r })
