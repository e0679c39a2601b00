-- ===== src/Fuse/Lifecycle.antt =====
-- src/fuse.rs, `run` from the mount on: once a second the bridge looks whether the mount is gone
-- and polls the provider for a directive.
pub mod Ending
pub mod Start
pub mod Unmount
use shell_canvas_drive_bridg.Base.{
  ℕ, zero, suc, ◌≡◌, refl, sym, ap, ◌∙◌, inl, inr, Bool, true, false, Option, none, some, String,
  Result, ok, err, map_err, Action, arith, ◌>>=◌, ◌>>◌, pure, lift, if◌then◌else◌, Result-cases,
  bind_cases,
}
use shell_canvas_drive_bridg.Sdk.{
  Sdk, Operation, Value, FsError, FsResult, BridgeDirective, BridgeEvent,
}

-- The mounted session of the fuser crate, and the system's unmount helper (`ordinary_unmount`).
pub record Host : Type 1 where
  pub World : Type 0
  pub is_finished : World → Bool × World
  pub join : World → Result String (Unit {0}) × World
  pub unmount : World → Result String (Unit {0}) × World

-- The errors that `run` returns.
pub data Failure : Type 0 where
  call_failed : FsError → Failure
  join_failed : String → Failure
  connection_lost : FsError → Failure
  invalid_reply : Failure

module _ (S : Sdk) (U : Host) where
  pub record Mount : Type 0 where
    pub remote : S.Remote
    pub world : U.World

  unfoldable pub report : BridgeEvent → Action Mount Failure (Unit {0})
  report event m =
      let (v, r) = S.call (Operation.report event) m.remote in
      (elim v [ err e ↦ err (call_failed e) | ok _ ↦ ok tt ], record m { remote = r })

  unfoldable pub join_session : Action Mount Failure (Unit {0})
  join_session m = let (v, w) = U.join m.world in (map_err join_failed v, record m { world = w })

  unfoldable pub finish : Action Mount Failure (Unit {0})
  finish = do join_session; report BridgeEvent.detached

  -- `none` stays in the loop.
  abbrev pub Turn : Type 0
  Turn = Option (Result Failure (Unit {0})) × Mount

  abbrev pub ends : Result Failure (Unit {0}) × Mount → Turn
  ends (v, m) = (some v, m)

  abbrev pub goes_on : Result Failure (Unit {0}) × Mount → Turn
  goes_on (err e, m) = (some (err e), m)
  goes_on (ok _, m) = (none, m)

  -- A mount that is in use is kept, and the refusal is reported.
  unfoldable pub detach : Mount → Turn
  detach m =
      let (v, w) = U.unmount m.world in
      elim v [
        | ok _ ↦ ends (finish (record m { world = w }))
        | err message ↦
            goes_on (report (BridgeEvent.detach_failed message) (record m { world = w }))
      ]

  unfoldable pub obey : FsResult Value → Mount → Turn
  obey (ok (Value.directive BridgeDirective.go_on)) m = (none, m)
  obey (ok (Value.directive BridgeDirective.detach)) m = detach m
  obey (err e) m = (some (err (connection_lost e)), m)
  obey _ m = (some (err invalid_reply), m)

  unfoldable pub turn : Mount → Turn
  turn m =
      let (done, w) = U.is_finished m.world in
      elim done [
        | true ↦ ends (finish (record m { world = w }))
        | false ↦
            let (v, r) = S.call Operation.poll m.remote in obey v (record { remote = r; world = w })
      ]

  -- A number of turns; `none` means that the mount is still up after them.
  unfoldable pub turns : ℕ → Mount → Turn
  turns zero m = (none, m)
  turns (suc n) m = let (o, m') = turn m in elim o [ some v ↦ (some v, m') | none ↦ turns n m' ]
