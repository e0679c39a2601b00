-- ===== src/Main.antt =====
-- src/main.rs: the command line. The texts that are printed are left out, and the backend of the
-- platform is a parameter.
use shell_canvas_drive_bridg.Base.{
  List, [], ◌∷◌, String, Result, ok, err, map_err, Action, pure, raise, lift, ◌>>=◌, ◌==◌, ◌||◌,
  string_eq, if◌then◌else◌,
}
use shell_canvas_drive_bridg.Sdk.{Sdk, Operation, Value, FsError, FsCapabilities}
use shell_canvas_drive_bridg.Probe

-- What the arguments ask for, the program's own name being the first of them.
pub data Command : Type 0 where
  version licenses help verify_transport usage : Command
  mount : String → Command

unfoldable pub command : List String → Command
command (program ∷ flag ∷ []) =
    if flag == "--version"
    then version
    else if flag == "--licenses"
    then licenses
    else if flag == "--help" || flag == "-h"
    then help
    else if flag == "--verify-transport"
    then verify_transport
    else usage
command (program ∷ flag ∷ target ∷ []) = if flag == "--mount" then mount target else usage
command _ = usage

-- `E` are the errors of the backend.
pub data Failure (E : Type 0) : Type 0 where
  wrong_usage invalid_capabilities : Failure E
  call_failed : FsError → Failure E
  probe_failed : Probe.Failure → Failure E
  backend_failed : E → Failure E

abbrev pub as_capabilities : {E : Type 0} → Value → Result (Failure E) FsCapabilities
as_capabilities (Value.capabilities c) = ok c
as_capabilities _ = err invalid_capabilities

module _ (S : Sdk) {E : Type 0}
    (backend : FsCapabilities → String → Action S.Remote E (Unit {0})) where
  abbrev pub Program : Type 0 → Type 0
  Program A = Action S.Remote (Failure E) A

  abbrev pub within : {F A : Type 0} → (F → Failure E) → Action S.Remote F A → Program A
  within wrap m r = let (v, r') = m r in (map_err wrap v, r')

  unfoldable pub run_mount : String → Program (Unit {0})
  run_mount target = do
    v ← within call_failed (S.call Operation.capabilities)
    caps ← lift (as_capabilities v)
    within backend_failed (backend caps target)

  unfoldable pub run_command : Command → Program (Unit {0})
  run_command version = pure tt
  run_command licenses = pure tt
  run_command help = pure tt
  run_command verify_transport = within probe_failed (Probe.run S)
  run_command (mount target) = run_mount target
  run_command usage = raise wrong_usage

  unfoldable pub main : List String → Program (Unit {0})
  main args = run_command (command args)
