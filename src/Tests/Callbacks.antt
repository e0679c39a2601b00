-- ===== src/Tests/Callbacks.antt =====
-- Runs of the callbacks on an open context of a WinFsp volume.
use shell_canvas_drive_bridg.Base.{
  ℕ, ◌^◌, ◌%◌, ◌≡◌, refl, inl, true, false, none, some, [], ◌∷◌, ◌++◌, ok, arith, length, take,
  drop, nat_eq, string_eq, list_eq, starts_with,
}
use shell_canvas_drive_bridg.Base.Dict
use shell_canvas_drive_bridg.Sdk.{FsMetadata, MountPath}
use shell_canvas_drive_bridg.Sdk.Paths.{children}
use shell_canvas_drive_bridg.Transfer.Writing.{overwrite}
use shell_canvas_drive_bridg.Tests.Memory.{file_named}
use shell_canvas_drive_bridg.Tests.Disk.{
  disk, three_files, fresh, one_open, to_one_open, disk-IsLawful, disk-Serves, disk-Stores,
  disk-Tells, disk-Lists, two_names, winfsp, writable,
}
use shell_canvas_drive_bridg.Windows.Names.{path, non_empty, split, trim_start}
use shell_canvas_drive_bridg.Windows.Info.{fill}
use shell_canvas_drive_bridg.Windows.Gate.{enter, drop_guard}
use shell_canvas_drive_bridg.Windows.Handles
use shell_canvas_drive_bridg.Windows.Handles.{
  blocks_detach, register, retain, upgrade, plan, publish,
}
use shell_canvas_drive_bridg.Windows.Contexts.{
  Context, Fs, enter_gate, release_on_error, path_metadata, call, open_context, open_handle,
  needs_no_handle, open_options, track, unread, context_path, path_of,
}
use shell_canvas_drive_bridg.Windows.Opening.{open_entry, find_entry}
use shell_canvas_drive_bridg.Windows.Data
use shell_canvas_drive_bridg.Windows.Data.Reading.{read_context}
use shell_canvas_drive_bridg.Windows.Data.Writing.{write_context}
use shell_canvas_drive_bridg.Windows.Data.Modes.{write_appends, write_constrained}
use shell_canvas_drive_bridg.Windows.Namespace.{rename, rename_paths}
use shell_canvas_drive_bridg.Windows.Listing.{read_directory}
use shell_canvas_drive_bridg.Windows.Listing.Complete.{Gives, give}
use shell_canvas_drive_bridg.Windows.Listing.Markers.{list_continues, list_restarts, starting}
use shell_canvas_drive_bridg.Windows.Volume.Paths.{rename-context_path, moved_path}

abbrev opened : Context
opened = record { guard = true; tracked = 0; file = some 5; directory = unread; is_dir = false }

its_context : one_open.contexts ≡ [] ++ (opened ∷ [])
unfolding open_entry enter_gate enter release_on_error find_entry path trim_start split non_empty
    children path_metadata call open_context open_handle needs_no_handle open_options track
    blocks_detach string_eq nat_eq drop_guard
its_context = refl

path_a : path disk (some "\\a") ≡ ok ("a" ∷ [])
unfolding path trim_start split non_empty children string_eq
path_a = refl

path_b : path disk (some "\\b") ≡ ok ("b" ∷ [])
unfolding path trim_start split non_empty children string_eq
path_b = refl

renames : (rename disk (some "\\a") (some "\\b") false one_open.fs).0 ≡ ok tt
unfolding open_entry enter_gate enter release_on_error find_entry path trim_start split non_empty
    children path_metadata call open_context open_handle needs_no_handle open_options track
    blocks_detach string_eq nat_eq list_eq drop_guard rename rename_paths Handles.rename register
    retain upgrade plan publish Dict.lookup Dict.insert starts_with
renames = refl

rename-context_path_example :
    (p : MountPath) × (context_path disk opened one_open.fs ≡ (ok p, one_open.fs))
    × ((context_path disk opened (rename disk (some "\\a") (some "\\b") false one_open.fs).1).0
        ≡ ok (moved_path ("a" ∷ []) ("b" ∷ []) p))
rename-context_path_example =
    rename-context_path disk disk-IsLawful winfsp three_files writable one_open [] [] opened
      (some "\\a") (some "\\b") ("a" ∷ []) ("b" ∷ []) false to_one_open its_context path_a path_b
      renames

read_context_example :
    let got = take 3 (drop 1 three_files.content) in
    ((Data.read disk opened 3 1 fresh.fs).0 ≡ ok (got, length got % 2 ^ 32))
    × ((Data.read disk opened 3 1 fresh.fs).1.remote.content ≡ three_files.content)
read_context_example =
    read_context disk 5 three_files.content (λ r. r.content ≡ three_files.content)
      (disk-Serves three_files.content) opened 3 1 fresh.fs refl (omega arith) refl

-- A constrained write of three bytes, of which two fit.
write_context_example :
    let (v, fs) = Data.write disk opened (1 ∷ 2 ∷ 3 ∷ []) 3 false true fresh.fs in
    (m : FsMetadata) × (v ≡ ok (2, fill m))
    × (m.size ≡ length (overwrite 3 (1 ∷ 2 ∷ []) three_files.content))
    × (fs.remote.content ≡ overwrite 3 (1 ∷ 2 ∷ []) three_files.content)
write_context_example =
    write_context disk 5 (λ r. r.content) disk-Stores disk-Tells opened (1 ∷ 2 ∷ 3 ∷ []) 3 false
      true fresh.fs refl (omega arith) (omega arith)

appended :
    let (v, fs) = Data.write disk opened (1 ∷ 2 ∷ []) 0 true false fresh.fs in
    (fs.remote.content ≡ three_files.content ++ (1 ∷ 2 ∷ []))
    × ((m : FsMetadata) × (v ≡ ok (2, fill m)))
appended =
    write_appends disk 5 (λ r. r.content) disk-Stores disk-Tells opened refl (1 ∷ 2 ∷ []) 0 fresh.fs
      (omega arith) (omega arith)

write_constrained_example :
    let (v, fs) = Data.write disk opened (1 ∷ 2 ∷ 3 ∷ []) 3 false true fresh.fs in
    (length fs.remote.content ≡ 5)
    × ((n : ℕ) × (m : FsMetadata) × (v ≡ ok (n, fill m)) × (m.size ≡ 5))
write_constrained_example =
    write_constrained disk 5 (λ r. r.content) disk-Stores disk-Tells opened refl (1 ∷ 2 ∷ 3 ∷ []) 3
      fresh.fs (omega arith) false (omega arith)

-- A listing after its first entry.
abbrev listing : Context
listing = record opened {
  directory = record {
    handle = some 7;
    pending = file_named "q" ∷ [];
    last = some "p";
    eof = false;
  };
}

abbrev half_read : Fs disk
half_read = record fresh.fs { remote = record { content = []; listing = file_named "r" ∷ [] } }

list_continues_example :
    Gives disk 7
      (λ es r. r.listing ≡ es)
      disk-Lists
      two_names
      (some "p")
      (read_directory disk two_names 9 listing (some (some "p")) [] half_read)
      (give two_names (file_named "q" ∷ file_named "r" ∷ []) (some "p") [])
list_continues_example =
    list_continues disk 7 (λ es r. r.listing ≡ es) disk-Lists two_names 9 listing (some "p") "p" []
      half_read (file_named "q" ∷ file_named "r" ∷ [])
      (record {
        opened = refl;
        ahead = file_named "r" ∷ [];
        next = refl;
        sends = refl;
        ended = λ e. ground arith;
      })
      refl refl (omega arith)

its_path : path_of disk 0 one_open.fs.handles ≡ ok ("a" ∷ [])
unfolding open_entry enter_gate enter release_on_error find_entry path trim_start split non_empty
    children path_metadata call open_context open_handle needs_no_handle open_options track
    blocks_detach string_eq nat_eq drop_guard register Dict.lookup Dict.insert
its_path = refl

lists : one_open.fs.remote.listing ≡ three_files.listing
unfolding open_entry enter_gate enter release_on_error find_entry path trim_start split non_empty
    children path_metadata call open_context open_handle needs_no_handle open_options track
    blocks_detach string_eq nat_eq drop_guard
lists = refl

-- From the entry after `p`.
list_restarts_example :
    Gives disk 7
      (λ es r. r.listing ≡ es)
      disk-Lists
      two_names
      (some "p")
      (read_directory disk two_names 9 opened (some (some "p")) [] one_open.fs)
      (give two_names (starting (some "p") three_files.listing) none [])
list_restarts_example =
    list_restarts disk 7 (λ es r. r.listing ≡ es) disk-Lists two_names 9 opened (some (some "p"))
      (some "p") [] one_open.fs ("a" ∷ []) one_open.fs.remote one_open.fs.remote three_files.listing
      refl (inl refl) its_path refl refl lists (omega arith)
