-- ===== src/Fuse/Lifecycle/Ending.antt =====
-- src/fuse.rs, `run`: how its loop comes to an end.
use shell_canvas_drive_bridg.Base.{
  ℕ, zero, suc, ◌≡◌, refl, sym, ap, ◌∙◌, inl, inr, some, String, Result, ok, err, map_err, arith,
  Result-cases, Option-cases, Bool-cases, bind_cases,
}
use shell_canvas_drive_bridg.Sdk.{Sdk, Operation, Value, FsResult, BridgeDirective, BridgeEvent}
use shell_canvas_drive_bridg.Fuse.Lifecycle.{
  Host, Failure, join_failed, Mount, Turn, report, join_session, finish, ends, goes_on, detach,
  obey, turn, turns,
}

module _ (S : Sdk) (U : Host) where
  -- The session has been joined, and the last thing the provider has taken is the report of it.
  pub record IsDetached (m : Mount S U) : Type 0 where
    pub before : U.World
    pub joined : U.join before ≡ (ok tt, m.world)
    pub last : S.Remote
    pub reply : Value
    pub reported : S.call (Operation.report BridgeEvent.detached) last ≡ (ok reply, m.remote)

  report_ok :
      (e : BridgeEvent) (m : Mount S U)
      → (report S U e m).0 ≡ ok tt
      → (v : Value) × (S.call (Operation.report e) m.remote ≡ (ok v, (report S U e m).1.remote))
        × ((report S U e m).1.world ≡ m.world)
  unfolding report
  report_ok e m h = elim (Result-cases (S.call (Operation.report e) m.remote).0) [
    | inl (x, bad) ↦ absurd (ground (arith, bad))
    | inr (v, good) ↦ (v, ap (λ o. (o, (S.call (Operation.report e) m.remote).1)) good, refl)
  ]

  joined_well :
      (v : Result String (Unit {0})) {u : Unit {0}} → map_err join_failed v ≡ ok u → v ≡ ok tt
  joined_well (ok tt) h = refl
  joined_well (err e) h = cc

  finish-IsDetached : (m : Mount S U) → (finish S U m).0 ≡ ok tt → IsDetached (finish S U m).1
  unfolding finish join_session
  finish-IsDetached m =
      bind_cases (λ o. o.0 ≡ ok tt → IsDetached o.1) (λ _. report S U BridgeEvent.detached)
        (join_session S U) m (λ e bad h. absurd (ground arith))
        (λ _ good h.
          let m' = (join_session S U m).1 in
          let (v, sent, same) = report_ok BridgeEvent.detached m' h in
          record {
            before = m.world;
            joined =
                ap (λ v. (v, (U.join m.world).1)) (joined_well (U.join m.world).0 good)
                ∙ ap (λ w. (ok tt, w)) (sym same);
            last = m'.remote;
            reply = v;
            reported = sent;
          })

  abbrev Ends : Turn S U → Type 0
  Ends t = t.0 ≡ some (ok tt) → IsDetached t.1

  ends-Ends :
      (o : Result Failure (Unit {0}) × Mount S U)
      → (o.0 ≡ ok tt → IsDetached o.1)
      → Ends (ends S U o)
  ends-Ends (v, m) k h = k (ground arith)

  goes_on-Ends : (o : Result Failure (Unit {0}) × Mount S U) → Ends (goes_on S U o)
  goes_on-Ends (ok _, m) h = absurd (ground arith)
  goes_on-Ends (err e, m) h = absurd (ground arith)

  detach-Ends : (m : Mount S U) → Ends (detach S U m)
  unfolding detach
  detach-Ends m = elim (Result-cases (U.unmount m.world).0) [
    | inl (e, bad) ↦ rw (bad, detach) (goes_on-Ends _)
    | inr (_, good) ↦ rw (good, detach) (ends-Ends _ (finish-IsDetached _))
  ]

  obey-Ends : (v : FsResult Value) (m : Mount S U) → Ends (obey S U v m)
  unfolding obey
  obey-Ends (ok (Value.directive BridgeDirective.go_on)) m h = absurd (ground arith)
  obey-Ends (ok (Value.directive BridgeDirective.detach)) m h = detach-Ends m h
  obey-Ends (err e) m h = absurd (ground arith)
  obey-Ends _ m h = absurd (ground arith)

  turn-Ends : (m : Mount S U) → Ends (turn S U m)
  unfolding turn
  turn-Ends m = elim (Bool-cases (U.is_finished m.world).0) [
    | inl done ↦ rw (done, turn) (ends-Ends _ (finish-IsDetached _))
    | inr up ↦ rw (up, turn) (obey-Ends _ _)
  ]

  turns-Ends : (n : ℕ) (m : Mount S U) → Ends (turns S U n m)
  unfolding turns
  turns-Ends zero m = λ h. absurd (ground arith)
  turns-Ends (suc n) m = elim (Option-cases (turn S U m).0) [
    | inl going ↦ rw (going, turns) (turns-Ends n (turn S U m).1)
    | inr (v, over) ↦ rw (over, turns) (λ h. turn-Ends m (over ∙ h))
  ]

  -- When the bridge ends without an error, however long it has run and whatever was asked of it,
  -- the session has been joined, and the last message to the provider was the report that the
  -- mount is detached, which the provider has taken.
  pub turns-IsDetached :
      (n : ℕ) (m : Mount S U) → (turns S U n m).0 ≡ some (ok tt) → IsDetached (turns S U n m).1
  turns-IsDetached n m h = turns-Ends n m h
