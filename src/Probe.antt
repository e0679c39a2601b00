-- ===== src/Probe.antt =====
-- src/probe.rs: the transport test, which makes a file in a disposable folder, uses it, renames it
-- and removes it. What is printed at the end is left out.
pub mod Phases
pub mod Footprint
use shell_canvas_drive_bridg.Base.{
  ℕ, ◌+◌, ◌^◌, Bool, true, false, not, some, List, [], ◌∷◌, Result, ok, err, map_err, Action, lift,
  pure, raise_if, ◌>>=◌, ◌>>◌, list_eq, nat_eq, ◌==◌, eqb, if◌then◌else◌,
}
use shell_canvas_drive_bridg.Sdk.{
  Sdk, Operation, Value, FsError, FsResult, FsCapabilities, FsCreate, FsOpenOptions, FsSetMetadata,
  MountPath, root, no_changes,
}

-- An error of the provider, or the message of a check that fails.
pub data Failure : Type 0 where
  refused : FsError → Failure
  grant_required handle_expected bytes_differ metadata_differs closed_accepted : Failure

-- `b"pipe roundtrip"`
abbrev pub pipe_roundtrip : List ℕ
pipe_roundtrip =
    112 ∷ 105 ∷ 112 ∷ 101 ∷ 32 ∷ 114 ∷ 111 ∷ 117 ∷ 110 ∷ 100 ∷ 116 ∷ 114 ∷ 105 ∷ 112 ∷ []

-- Beyond what 32 bits can address.
abbrev pub far_offset : ℕ
far_offset = 2 ^ 32 + 19

abbrev pub new_file : FsOpenOptions
new_file = record { read = true; write = true; create = FsCreate.create_new; truncate = false }

unfoldable pub is_writable : Value → Bool
is_writable (Value.capabilities c) = c.writable
is_writable _ = false

unfoldable pub as_handle : Value → Result Failure ℕ
as_handle (Value.handle h) = ok h
as_handle _ = err Failure.handle_expected

unfoldable pub is_data : List ℕ → Value → Bool
is_data expected (Value.bytes got) = got == expected
is_data expected _ = false

unfoldable pub has_size : ℕ → Value → Bool
has_size n (Value.metadata m) = eqb m.size n
has_size n _ = false

-- `ensure!(reply.is_err(), ..)`
unfoldable pub must_fail : FsResult Value → Result Failure (Unit {0})
must_fail (ok _) = err Failure.closed_accepted
must_fail (err _) = ok tt

module _ (S : Sdk) where
  abbrev pub Probe : Type 0 → Type 0
  Probe A = Action S.Remote Failure A

  unfoldable pub ask : Operation → Probe Value
  ask op r = let (v, r') = S.call op r in (map_err Failure.refused v, r')

  unfoldable pub ask_refused : Operation → Probe (Unit {0})
  ask_refused op r = let (v, r') = S.call op r in (must_fail v, r')

  -- The new file, if the grant is a writable one.
  unfoldable pub make_file : MountPath → Probe ℕ
  make_file p = do
    c ← ask Operation.capabilities
    raise_if (not (is_writable c)) Failure.grant_required
    v ← ask (Operation.open_file p new_file)
    lift (as_handle v)

  -- What is written can be read back, past the first 4 GiB.
  unfoldable pub round_trip : ℕ → Probe (Unit {0})
  round_trip handle = do
    ask (Operation.write handle far_offset pipe_roundtrip)
    ask (Operation.flush handle)
    got ← ask (Operation.read handle far_offset 14)
    raise_if (not (is_data pipe_roundtrip got)) Failure.bytes_differ
    ask (Operation.set_file_metadata handle (record no_changes { size = some 12 }))
    pure tt

  -- The open file follows the rename, and a handle that is closed is refused.
  unfoldable pub move_and_close : ℕ → MountPath → MountPath → Probe (Unit {0})
  move_and_close handle p destination = do
    ask (Operation.rename p destination false)
    m ← ask (Operation.file_metadata handle)
    raise_if (not (has_size 12 m)) Failure.metadata_differs
    ask (Operation.close handle)
    ask_refused (Operation.read handle 0 1)
    ask (Operation.remove destination false)
    pure tt

  unfoldable pub run : Probe (Unit {0})
  run = do
    p ← lift (map_err Failure.refused (S.child root "bridge-test.txt"))
    handle ← make_file p
    round_trip handle
    destination ← lift (map_err Failure.refused (S.child root "renamed.txt"))
    move_and_close handle p destination
