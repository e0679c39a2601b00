-- ===== src/Windows/Gate.antt =====
-- src/mount_gate.rs: the gate that counts open handles and shuts when the drive is detached.
pub mod Session
use shell_canvas_drive_bridg.Base.{
  ℕ, ◌+◌, ◌-◌, ◌^◌, Bool, true, false, not, Result, ok, err, Action, ltb, eqb, if◌then◌else◌,
}

-- The messages; `busy` carries the number of handles that its text names.
pub data GateError : Type 0 where
  unavailable being_detached too_many : GateError
  busy : ℕ → GateError

-- `poisoned`: a panic under the lock.
pub record MountGate : Type 0 where
  pub handles : ℕ
  pub detaching : Bool
  pub poisoned : Bool

-- `MountGate::default()`
abbrev pub idle : MountGate
idle = record { handles = 0; detaching = false; poisoned = false }

-- Success hands out an `OpenGuard`.
unfoldable pub enter : Action MountGate GateError (Unit {0})
enter g =
    if g.poisoned
    then (err unavailable, g)
    else if g.detaching
    then (err being_detached, g)
    else if ltb (g.handles + 1) (2 ^ 64)
    then (ok tt, record g { handles = g.handles + 1 })
    else (err too_many, g)

unfoldable pub begin_detach : Action MountGate GateError (Unit {0})
begin_detach g =
    if g.poisoned
    then (err unavailable, g)
    else if not (eqb g.handles 0)
    then (err (busy g.handles), g)
    else (ok tt, record g { detaching = true })

-- `OpenGuard::drop`; `-` stops at 0, as `saturating_sub` does.
unfoldable pub drop_guard : MountGate → MountGate
drop_guard g = if g.poisoned then g else record g { handles = g.handles - 1 }
