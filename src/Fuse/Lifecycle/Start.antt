-- ===== src/Fuse/Lifecycle/Start.antt =====
-- src/fuse.rs, `run` as a whole: the target is checked and mounted, and then the loop runs. The
-- file system that is handed to the mount is `mounted` of Requests.
use shell_canvas_drive_bridg.Base.{
  ℕ, ◌≡◌, ◌∙◌, refl, ap, subst, Bool, true, ◌&&◌, Option, none, some, List, [], ◌∷◌, String, Result,
  ok, err, map_err, Action, ◌>>◌, arith, if◌then◌else◌, Result-cases, inl, inr, bind_cases,
}
use shell_canvas_drive_bridg.Sdk.{Sdk, Operation, Value, FsCapabilities, BridgeEvent}
use shell_canvas_drive_bridg.Fuse.Lifecycle.{Host, Failure, Mount, report, turns}
use shell_canvas_drive_bridg.Fuse.Lifecycle.Ending.{IsDetached, turns-IsDetached}

pub data MountOption : Type 0 where
  fs_name : String → MountOption
  no_dev no_suid read_write read_only : MountOption

pub data StartError : Type 0 where
  empty_directory_expected : StartError
  local_error : String → StartError
  ended : Failure → StartError

-- Local paths, and the mount of the fuser crate; `drop` ends a session that nobody joins.
pub record Mounter (U : Host) : Type 1 where
  pub is_absolute : String → Bool
  pub is_dir : String → U.World → Bool
  -- `read_dir()?.next().is_none()`
  pub is_vacant : String → U.World → Result String Bool
  pub spawn_mount : String → List MountOption → U.World → Result String (Unit {0}) × U.World
  pub drop : U.World → U.World

abbrev pub mount_options : FsCapabilities → List MountOption
mount_options caps =
    MountOption.fs_name "ShellCanvas"
    ∷ MountOption.no_dev
    ∷ MountOption.no_suid
    ∷ (if caps.writable then MountOption.read_write else MountOption.read_only)
    ∷ []

module _ (S : Sdk) (U : Host) (P : Mounter U) where
  -- `read_dir` is asked only about a directory that is named in full.
  unfoldable pub check_target : String → U.World → Result StartError (Unit {0})
  check_target target w =
      if P.is_absolute target && P.is_dir target w
      then elim (P.is_vacant target w) [
        | err e ↦ err (local_error e)
        | ok vacant ↦ if vacant then ok tt else err empty_directory_expected
      ]
      else err empty_directory_expected

  unfoldable pub mount : FsCapabilities → String → Action (Mount S U) StartError (Unit {0})
  mount caps target m =
      let (v, w) = P.spawn_mount target (mount_options caps) m.world in
      (map_err local_error v, record m { world = w })

  -- A session whose mount cannot be reported is dropped.
  unfoldable pub report_ready : Action (Mount S U) StartError (Unit {0})
  report_ready m =
      let (v, m') = report S U BridgeEvent.ready m in
      elim v [ ok _ ↦ (ok tt, m') | err e ↦ (err (ended e), record m' { world = P.drop m'.world }) ]

  unfoldable pub start : FsCapabilities → String → Action (Mount S U) StartError (Unit {0})
  start caps target = do λ m. (check_target target m.world, m); mount caps target; report_ready

  abbrev pub looped :
      Option (Result Failure (Unit {0})) × Mount S U
      → Option (Result StartError (Unit {0})) × Mount S U
  looped (none, m) = (none, m)
  looped (some v, m) = (some (map_err ended v), m)

  -- `none`: the mount is still up after the given number of turns.
  unfoldable pub run :
      ℕ → FsCapabilities → String → Mount S U → Option (Result StartError (Unit {0})) × Mount S U
  run n caps target m =
      let (v, m') = start caps target m in
      elim v [ err e ↦ (some (err e), m') | ok _ ↦ looped (turns S U n m') ]

  -- The target is an empty directory that is named in full.
  pub record IsVacant (target : String) (w : U.World) : Type 0 where
    pub absolute : P.is_absolute target ≡ true
    pub directory : P.is_dir target w ≡ true
    pub vacant : P.is_vacant target w ≡ ok true

  check_target_ok :
      (target : String) (w : U.World) → check_target target w ≡ ok tt → IsVacant target w
  unfolding check_target
  check_target_ok target w e = record {
    absolute = ground (arith, e);
    directory = ground (arith, e);
    vacant = ground (arith, e);
  }

  -- A mount that has succeeded, and the report of it that the provider has taken: from `m` to `b`.
  pub record IsMounted (caps : FsCapabilities) (target : String) (m b : Mount S U) : Type 0 where
    pub spawned : P.spawn_mount target (mount_options caps) m.world ≡ (ok tt, b.world)
    pub reply : Value
    pub answered : S.call (Operation.report BridgeEvent.ready) m.remote ≡ (ok reply, b.remote)

  mounted_well :
      (v : Result String (Unit {0})) {u : Unit {0}} → map_err local_error v ≡ ok u → v ≡ ok tt
  mounted_well (ok tt) h = refl
  mounted_well (err e) h = cc

  report_ready_ok :
      (m : Mount S U)
      → (report_ready m).0 ≡ ok tt
      → let b = (report_ready m).1 in
        (v : Value) × (S.call (Operation.report BridgeEvent.ready) m.remote ≡ (ok v, b.remote))
        × (m.world ≡ b.world)
  unfolding report_ready report
  report_ready_ok m h =
      elim (Result-cases (S.call (Operation.report BridgeEvent.ready) m.remote).0) [
        | inl (x, bad) ↦ absurd (ground (arith, bad))
        | inr (v, good) ↦ (
          v,
          ap (λ x. (x, (S.call (Operation.report BridgeEvent.ready) m.remote).1)) good
              ∙ ground (arith, good),
          ground (arith, good),
        )
      ]

  mounting_ok :
      (caps : FsCapabilities) (target : String) (m : Mount S U)
      → ((mount caps target >> report_ready) m).0 ≡ ok tt
      → IsMounted caps target m ((mount caps target >> report_ready) m).1
  unfolding mount
  mounting_ok caps target m =
      bind_cases (λ r. r.0 ≡ ok tt → IsMounted caps target m r.1) (λ _. report_ready)
        (mount caps target) m (λ e bad h. absurd (cc))
        (λ u good h.
          let (v, w) = P.spawn_mount target (mount_options caps) m.world in
          let taken = report_ready_ok (record m { world = w }) h in
          record {
            spawned = ap (λ x. (x, w)) (mounted_well v good) ∙ ap (λ x. (ok tt, x)) taken.2;
            reply = taken.0;
            answered = taken.1;
          })

  start_ok :
      (caps : FsCapabilities) (target : String) (m : Mount S U)
      → (start caps target m).0 ≡ ok tt
      → IsVacant target m.world × IsMounted caps target m (start caps target m).1
  unfolding start
  start_ok caps target m =
      bind_cases (λ r. r.0 ≡ ok tt → IsVacant target m.world × IsMounted caps target m r.1)
        (λ _. mount caps target >> report_ready) (λ x. (check_target target x.world, x)) m
        (λ e _ h. absurd (cc))
        (λ u good h. (check_target_ok target m.world good, mounting_ok caps target m h))

  looped_ok :
      (t : Option (Result Failure (Unit {0})) × Mount S U) (m' : Mount S U)
      → looped t ≡ (some (ok tt), m')
      → (t.0 ≡ some (ok tt)) × (t.1 ≡ m')
  looped_ok (none, m) m' e = absurd (ground (arith, e))
  looped_ok (some (err x), m) m' e = absurd (ground (arith, e))
  looped_ok (some (ok tt), m) m' e = (refl, ap (λ p. p.1) e)

  -- A run that ends well found the target an empty directory that is named in full, and mounted onto
  -- it with the options of the capabilities; the report of that was taken, and the turns went on from
  -- there. It has joined the session, and the last thing that the provider has taken is the report of
  -- it.
  pub run_ok :
      (n : ℕ) (caps : FsCapabilities) (target : String) (m m' : Mount S U)
      → run n caps target m ≡ (some (ok tt), m')
      → IsVacant target m.world
        × ((b : Mount S U) × IsMounted caps target m b × (turns S U n b ≡ (some (ok tt), m')))
        × IsDetached S U m'
  unfolding run
  run_ok n caps target m m' e = elim (Result-cases (start caps target m).0) [
    | inl (x, bad) ↦ absurd (ground (arith, e, bad))
    | inr (u, good) ↦
        let began = (start caps target m).1 in
        let reached : looped (turns S U n began) ≡ (some (ok tt), m') = ground (arith, e, good) in
        let (done, same) = looped_ok (turns S U n began) m' reached in
        (
          (start_ok caps target m good).0,
          (
            began,
            (start_ok caps target m good).1,
            ap (λ v. (v, (turns S U n began).1)) done ∙ ap (λ t. (some (ok tt), t)) same,
          ),
          subst (IsDetached S U) same (turns-IsDetached S U n began done),
        )
  ]
