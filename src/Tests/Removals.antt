-- ===== src/Tests/Removals.antt =====
-- Runs of the WinFsp volume against a provider that logs what it is asked.
use shell_canvas_drive_bridg.Base.{
  ◌≡◌, ◌⊎◌, inl, inr, arith, refl, true, false, some, [], ◌∷◌, ok, err,
}
use shell_canvas_drive_bridg.Sdk.{Value}
use shell_canvas_drive_bridg.Sdk.Scripted.{scripted, script}
use shell_canvas_drive_bridg.Tests.Disk.{winfsp, writable, file_of_size}
use shell_canvas_drive_bridg.Windows.Opening.{create}
use shell_canvas_drive_bridg.Windows.Volume.{Volume, Step, started, accept}
use shell_canvas_drive_bridg.Tests.Logs.{IsWithin, scripted-IsStable}
use shell_canvas_drive_bridg.Windows.Contexts.{Context, Fs, unread, metadata, metadata_reply, call}
use shell_canvas_drive_bridg.Windows.Status.{NtStatus}
use shell_canvas_drive_bridg.Windows.Metadata.{set_basic_info, overwrite}
use shell_canvas_drive_bridg.Windows.Metadata.Refused.{
  only_asks, set_basic_info_refused, set_basic_info_read_only, overwrite_refused, Obstacle,
}
use shell_canvas_drive_bridg.Windows.Attributes.{attributes}
use shell_canvas_drive_bridg.Windows.Attributes.Refused.{RefusedAttributes}
use shell_canvas_drive_bridg.Windows.Sends.Contexts.{keeps_entries}
use shell_canvas_drive_bridg.Windows.Sends.Steps.{step_kept}

-- The new file is opened, and then its metadata cannot be read.
abbrev unlucky : Volume scripted
unlucky = started scripted (script (ok (Value.handle 4) ∷ [])) writable

abbrev after_create : Volume scripted
after_create = accept scripted [] (create scripted (some "\\a") 0 3 0 unlucky.fs)

step_kept_example : IsWithin keeps_entries after_create.fs.remote
step_kept_example =
    step_kept scripted winfsp (IsWithin keeps_entries) (scripted-IsStable keeps_entries) unlucky
      after_create (Step.create (some "\\a") 0 3 0) refl refl

abbrev opened : Context
opened = record { guard = true; tracked = 0; file = some 5; directory = unread; is_dir = false }

-- A provider that has the metadata of the file.
abbrev known : Fs scripted
known = (started scripted (script (ok (Value.metadata (file_of_size 3)) ∷ [])) writable).fs

-- The same on a read-only volume.
abbrev frozen : Fs scripted
frozen = record known { caps = record writable { writable = false } }

has_metadata : (metadata scripted opened known).0 ≡ ok (file_of_size 3)
unfolding metadata metadata_reply call
has_metadata = refl

-- The mode of the file is not known, so it cannot be made read-only.
cannot_protect : RefusedAttributes (file_of_size 3) 1
unfolding attributes
cannot_protect = (ground arith, inr (inr (refl, refl, inl refl)))

set_basic_info_refused_example :
    let (v, t) = set_basic_info scripted opened 1 0 0 0 0 known in
    (v ≡ err NtStatus.not_supported) × ((t ≡ known) ⊎ (t ≡ (metadata scripted opened known).1))
set_basic_info_refused_example =
    set_basic_info_refused scripted opened 1 0 0 0 0 known
      (inr (file_of_size 3, has_metadata, cannot_protect))

set_basic_info_read_only_example :
    IsWithin only_asks (set_basic_info scripted opened 0 0 116444736010000000 0 0 frozen).1.remote
set_basic_info_read_only_example =
    set_basic_info_read_only scripted (IsWithin only_asks) (scripted-IsStable only_asks) opened 0 0
      116444736010000000 0 0 frozen refl refl

overwrite_refused_example :
    overwrite scripted opened 1 true known
    ≡ (err NtStatus.not_supported, (metadata scripted opened known).1)
overwrite_refused_example =
    overwrite_refused scripted opened 1 true known NtStatus.not_supported
      (metadata scripted opened known).1
      (Obstacle.unsettable (file_of_size 3) refl has_metadata cannot_protect)
