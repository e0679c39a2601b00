-- ===== src/Windows/Volume/Turns.antt =====
-- src/windows.rs, the loop of `run`, in a history of the volume: how a directive to detach goes.
use shell_canvas_drive_bridg.Base.{ℕ, ◌+◌, ◌≡◌, ◌≢◌, subst, true, some, ok, err, arith}
use shell_canvas_drive_bridg.Sdk.{
  Sdk, Operation, Value, FsCapabilities, BridgeDirective, BridgeEvent,
}
use shell_canvas_drive_bridg.Windows.Gate.{GateError, MountGate, begin_detach}
use shell_canvas_drive_bridg.Windows.Mount.{reported, unless_sent, report, detach, obey, turn}
use shell_canvas_drive_bridg.Windows.Steady.{tables}
use shell_canvas_drive_bridg.Windows.Volume.{Volume, WinFsp, Reach, started}
use shell_canvas_drive_bridg.Windows.Volume.Sound.{guards, IsCounted}
use shell_canvas_drive_bridg.Windows.Volume.History.{history-IsSound}

idle_gate :
    (g : MountGate) (n : ℕ)
    → IsCounted g n
    → n ≡ 0
    → begin_detach g ≡ (ok tt, record g { detaching = true })
unfolding begin_detach
idle_gate g n v e = ground (arith, v.counted, v.sound)

busy_gate :
    (g : MountGate) (n : ℕ) → IsCounted g n → n ≢ 0 → begin_detach g ≡ (err (GateError.busy n), g)
unfolding begin_detach
busy_gate g n v e = ground (arith, v.counted, v.sound)

module _ (S : Sdk) (W : WinFsp) (r : S.Remote) (caps : FsCapabilities) (v : Volume S) where
  -- In every history, a directive to detach that finds no blocking context open ends the loop with
  -- the reply to the report, and shuts the gate.
  pub detach_idle :
      Reach S W (started S r caps) v
      → (S.call Operation.poll v.fs.remote).0 ≡ ok (Value.directive BridgeDirective.detach)
      → guards v.contexts ≡ 0
      → let polled = (S.call Operation.poll v.fs.remote).1 in
        let (o, fs') = turn S W.gate_text v.fs in
        (o ≡ some (reported (S.call (Operation.report BridgeEvent.detached) polled).0))
        × (fs'.gate.detaching ≡ true)
  unfolding turn obey detach report
  detach_idle run asked idle =
      let s = history-IsSound S W r caps v run in
      let granted = idle_gate v.fs.gate (0 + guards v.contexts) s.0 (omega (arith, idle)) in
      (ground (arith, asked, granted), ground (arith, asked, granted))

  -- In every history, a directive to detach that finds blocking contexts open reports how many there
  -- are and changes neither the gate nor the registry; the loop goes on unless the report fails.
  pub detach_busy :
      Reach S W (started S r caps) v
      → (S.call Operation.poll v.fs.remote).0 ≡ ok (Value.directive BridgeDirective.detach)
      → guards v.contexts ≢ 0
      → let polled = (S.call Operation.poll v.fs.remote).1 in
        let refusal =
          S.call
            (Operation.report
              (BridgeEvent.detach_failed (W.gate_text (GateError.busy (guards v.contexts)))))
            polled in
        let (o, fs') = turn S W.gate_text v.fs in
        (fs'.remote ≡ refusal.1)
        × (tables fs' ≡ tables v.fs)
        × (o ≡ unless_sent (reported refusal.0))
  unfolding turn obey detach report
  detach_busy run asked busy =
      let s = history-IsSound S W r caps v run in
      let count : 0 + guards v.contexts ≡ guards v.contexts = omega arith in
      let counted = subst (IsCounted v.fs.gate) count s.0 in
      let refused = busy_gate v.fs.gate (guards v.contexts) counted busy in
      (
        ground (arith, asked, refused),
        ground (arith, asked, refused),
        ground (arith, asked, refused),
      )
