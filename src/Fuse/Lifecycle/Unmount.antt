-- ===== src/Fuse/Lifecycle/Unmount.antt =====
-- src/fuse.rs, `ordinary_unmount` on Linux: the unmount helper is started and waited for, up to a
-- deadline. Times are in milliseconds.
pub mod Deadline
use shell_canvas_drive_bridg.Base.{
  ℕ, zero, suc, ◌+◌, Bool, true, false, Option, none, some, List, [], ◌∷◌, String, Result, ok, err,
  map_err, leb, if◌then◌else◌,
}

-- How a process has ended, and what `Display` says of it.
pub record ExitStatus : Type 0 where
  pub success : Bool
  pub text : String

-- The operating system: files, processes, the clock.
pub record System : Type 1 where
  pub World : Type 0
  pub Child : Type 0
  pub is_file : String → World → Bool
  pub spawn : String → List String → World → Result String Child × World
  pub try_wait : Child → World → Result String (Option ExitStatus) × World
  pub kill : Child → World → World
  -- a thread that waits for the process
  pub reap : Child → World → World
  pub now : World → ℕ
  pub sleep : ℕ → World → World

pub data UnmountError : Type 0 where
  no_helper timed_out : UnmountError
  not_started wait_failed not_confirmed : String → UnmountError

abbrev pub helpers : List String
helpers =
    "/usr/bin/fusermount3" ∷ "/bin/fusermount3" ∷ "/usr/bin/fusermount" ∷ "/bin/fusermount" ∷ []

abbrev pub patience : ℕ
patience = 15000

abbrev pub pause : ℕ
pause = 50

module _ (U : System) where
  -- `.into_iter().find(..)`
  unfoldable pub find_helper : List String → U.World → Option String
  find_helper [] w = none
  find_helper (p ∷ ps) w = let rest = find_helper ps w in if U.is_file p w then some p else rest

  abbrev pub Outcome : Type 0
  Outcome = Result UnmountError (Unit {0}) × U.World

  -- A helper that is late is killed, and left to a thread.
  abbrev pub give_up : U.Child → U.World → Outcome
  give_up child w = (err UnmountError.timed_out, U.reap child (U.kill child w))

  abbrev pub confirmed : ExitStatus → Result UnmountError (Unit {0})
  confirmed s = if s.success then ok tt else err (UnmountError.not_confirmed s.text)

  -- The loop. `none` means that the fuel ran out.
  unfoldable pub await : ℕ → ℕ → U.Child → U.World → Option Outcome
  await zero deadline child w = none
  await (suc fuel) deadline child w =
      let (v, w') = U.try_wait child w in
      elim v [
        | err e ↦ some (err (UnmountError.wait_failed e), w')
        | ok o ↦ elim o [
          | some s ↦ some (confirmed s, w')
          | none ↦ elim (leb deadline (U.now w')) [
            | true ↦ some (give_up child w')
            | false ↦ await fuel deadline child (U.sleep pause w')
          ]
        ]
      ]

  unfoldable pub start_helper : String → String → U.World → Result UnmountError U.Child × U.World
  start_helper helper target w =
      let (v, w') = U.spawn helper ("-u" ∷ "--" ∷ target ∷ []) w in
      (map_err UnmountError.not_started v, w')

  unfoldable pub ordinary_unmount : ℕ → String → U.World → Option Outcome
  ordinary_unmount fuel target w = elim (find_helper helpers w) [
    | none ↦ some (err UnmountError.no_helper, w)
    | some helper ↦
        let (v, w') = start_helper helper target w in
        elim v [ err e ↦ some (err e, w') | ok child ↦ await fuel (U.now w' + patience) child w' ]
  ]
