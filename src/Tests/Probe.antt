-- ===== src/Tests/Probe.antt =====
-- A run of the transport test.
use shell_canvas_drive_bridg.Base.{
  ◌≡◌, refl, ap, ◌∙◌, Option, none, some, [], ◌∷◌, ok, err, list_eq, string_eq, nat_eq,
}
use shell_canvas_drive_bridg.Sdk.{Sdk, IsLawful, Operation, Value, FsResult}
use shell_canvas_drive_bridg.Sdk.Scripted.{
  Script, scripted, scripted-IsLawful, script, append_name, offline_error,
}
use shell_canvas_drive_bridg.Tests.Disk.{writable, file_of_size}
use shell_canvas_drive_bridg.Probe.{
  pipe_roundtrip, ask, ask_refused, is_writable, as_handle, is_data, has_size, must_fail, make_file,
  round_trip, move_and_close, run,
}
use shell_canvas_drive_bridg.Probe.Phases.{Phase, untouched, gone, next, Follows, Ends}
use shell_canvas_drive_bridg.Probe.Footprint.{run_within}

-- The replies of a provider that works.
abbrev working : Script
working = script (
    ok (Value.capabilities writable)
    ∷ ok (Value.handle 3)
    ∷ ok Value.unit
    ∷ ok Value.unit
    ∷ ok (Value.bytes pipe_roundtrip)
    ∷ ok Value.unit
    ∷ ok Value.unit
    ∷ ok (Value.metadata (file_of_size 12))
    ∷ ok Value.unit
    ∷ err offline_error
    ∷ ok Value.unit
    ∷ [])

run_passes : (run scripted working).0 ≡ ok tt
unfolding run make_file round_trip move_and_close ask ask_refused is_writable as_handle is_data
    has_size must_fail list_eq string_eq nat_eq
run_passes = refl

-- A provider with the same replies that keeps the phase of the entry.
record Watched : Type 0 where
  pub script : Script
  pub phase : Option Phase

abbrev onward : Option Phase → Operation → FsResult Value → Option Phase
onward none op v = none
onward (some p) op v = next p op v

abbrev watch : Operation → Watched → FsResult Value × Watched
watch op r =
    let (v, s) = scripted.call op r.script in
    (v, record { script = s; phase = onward r.phase op v })

abbrev watched : Sdk
watched = record { Remote = Watched; call = watch; child = append_name }

watched-IsLawful : IsLawful watched
watched-IsLawful = record {
  child_appends = scripted-IsLawful.child_appends;
  child_uniform = scripted-IsLawful.child_uniform;
}

abbrev Seen : Phase → Watched → Type 0
Seen p r = r.phase ≡ some p

seen : Follows watched Seen
seen p q op r e i = ap (λ o. onward o op (scripted.call op r.script).0) i ∙ e

run_within_example :
    let (v, r) = run watched (record { script = working; phase = some untouched }) in
    Ends watched Seen (λ _. gone) v r
run_within_example =
    run_within watched Seen seen watched-IsLawful
      (record { script = working; phase = some untouched }) refl
