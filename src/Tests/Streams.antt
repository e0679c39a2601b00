-- ===== src/Tests/Streams.antt =====
-- Runs of the FUSE backend: the data of files, and directory streams.
use shell_canvas_drive_bridg.Base.{
  ◌≡◌, refl, false, some, List, [], ◌∷◌, ok, err, arith, take, drop, nat_eq, string_eq, list_eq,
}
use shell_canvas_drive_bridg.Base.Dict
use shell_canvas_drive_bridg.Sdk.{root, FsDirectoryEntry}
use shell_canvas_drive_bridg.Sdk.Scripted.{scripted, script}
use shell_canvas_drive_bridg.Fuse.Attributes.{enotconn}
use shell_canvas_drive_bridg.Fuse.Inodes
use shell_canvas_drive_bridg.Fuse.Inodes.{State, Node, Directory, node_path}
use shell_canvas_drive_bridg.Fuse.Session.{Fs}
use shell_canvas_drive_bridg.Fuse.Cursor.{Stream, prepare, cleared, open_stream}
use shell_canvas_drive_bridg.Fuse.Cursor.Listing.{At, deliver}
use shell_canvas_drive_bridg.Fuse.Cursor.Rewind.{Prepared, prepare_ok, prepare_failed}
use shell_canvas_drive_bridg.Fuse.Cursor.Reply.{readdir_lem}
use shell_canvas_drive_bridg.Fuse.Directories.{fresh, put_stream, readdir}
use shell_canvas_drive_bridg.Fuse.Files
use shell_canvas_drive_bridg.Fuse.Files.Reading.{read_lem}
use shell_canvas_drive_bridg.Transfer.Writing.{overwrite}
use shell_canvas_drive_bridg.Fuse.Files.Writing.{write_lem}
use shell_canvas_drive_bridg.Tests.Memory.{
  memory, memory-Serves, memory-Stores, memory-Lists, buffer, file_named,
}

-- A directory that is open under handle 7, and the kernel's buffer for two entries.
abbrev full_listing : List FsDirectoryEntry
full_listing = file_named "p" ∷ file_named "q" ∷ file_named "r" ∷ []

abbrev browsing : Fs memory
browsing = record {
  remote = record { content = []; listing = full_listing };
  state = record Inodes.new { dirs = (7, fresh 1 root 7) ∷ [] };
  poisoned = false;
  uid = 0;
  gid = 0;
}

opened_dir : Dict.lookup 7 browsing.state.dirs ≡ some (fresh 1 root 7)
unfolding Dict.lookup nat_eq
opened_dir = refl

at_start :
    At memory 7
      (λ es r. r.listing ≡ es)
      (memory-Lists 7)
      full_listing
      (fresh 1 root 7)
      browsing.remote
at_start = record {
  opened = refl;
  ahead = full_listing;
  next = refl;
  sends = refl;
  ended = λ e. cc;
}

readdir_lem_example :
    (t : Stream memory) × (readdir memory buffer 9 7 1 browsing []
      ≡ some (ok tt, put_stream memory 7 browsing t, deliver buffer 1 (drop 1 full_listing) []))
    × At memory 7 (λ es r. r.listing ≡ es) (memory-Lists 7) full_listing t.0 t.1
readdir_lem_example =
    readdir_lem memory buffer 7 (λ es r. r.listing ≡ es) (memory-Lists 7) full_listing 9 7 1
      browsing [] (fresh 1 root 7) refl opened_dir at_start (omega arith) (omega arith)

-- What the kernel has got: the second and the third entry, under their cookies.
delivered : deliver buffer 1 (drop 1 full_listing) [] ≡ (2, "q") ∷ (3, "r") ∷ []
delivered = refl

abbrev five_bytes : Fs memory
five_bytes = record {
  remote = record { content = 10 ∷ 11 ∷ 12 ∷ 13 ∷ 14 ∷ []; listing = [] };
  state = Inodes.new;
  poisoned = false;
  uid = 0;
  gid = 0;
}

-- Replies of two bytes at most make up a read of three.
read_lem_example :
    ((Files.read memory 5 1 3 five_bytes).0 ≡ ok (take 3 (drop 1 five_bytes.remote.content)))
    × ((Files.read memory 5 1 3 five_bytes).1.remote.content ≡ five_bytes.remote.content)
read_lem_example =
    read_lem memory 5 five_bytes.remote.content (λ r. r.content ≡ five_bytes.remote.content)
      (memory-Serves 5 five_bytes.remote.content) 1 3 five_bytes (omega arith) refl

write_lem_example :
    ((Files.write memory 5 4 (20 ∷ 21 ∷ []) five_bytes).0 ≡ ok 2)
    × ((Files.write memory 5 4 (20 ∷ 21 ∷ []) five_bytes).1.remote.content
        ≡ overwrite 4 (20 ∷ 21 ∷ []) five_bytes.remote.content)
write_lem_example =
    write_lem memory 5 (λ r. r.content) (memory-Stores 5) 4 (20 ∷ 21 ∷ []) five_bytes (omega arith)
      (omega arith)

-- A cursor at the second entry, to be rewound.
abbrev advanced_dir : Directory
advanced_dir = record (fresh 1 root 3) { offset = 1; pending = file_named "q" ∷ [] }

rewinds : (prepare memory 0 (advanced_dir, browsing.remote)).0 ≡ ok tt
unfolding prepare open_stream
rewinds = refl

advanced_dir-Prepared :
    Prepared 0 advanced_dir (prepare memory 0 (advanced_dir, browsing.remote)).1.0
advanced_dir-Prepared = prepare_ok memory 0 advanced_dir browsing.remote rewinds

stops : (prepare scripted 0 (advanced_dir, script [])).0 ≡ err enotconn
unfolding prepare open_stream
stops = refl

stopped_cleared : (prepare scripted 0 (advanced_dir, script [])).1.0 ≡ cleared advanced_dir
stopped_cleared = prepare_failed scripted 0 advanced_dir (script []) enotconn stops
