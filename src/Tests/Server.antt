-- ===== src/Tests/Server.antt =====
-- A provider that hands out handles as `Server` does, and a session with it. Its root is an empty
-- directory, and it tells nothing about a file by its handle.
use shell_canvas_drive_bridg.Base.{
  ℕ, ◌≡◌, ◌≢◌, ◌≤◌, ◌<◌, ◌+◌, ◌⊎◌, inl, inr, refl, ap, Bool-cases, Bool, true, false, ◌||◌, List,
  [], ◌∷◌, some, ok, err, arith, eqb, if◌then◌else◌, nat_eq, string_eq, list_eq,
}
use shell_canvas_drive_bridg.Base.Dict
use shell_canvas_drive_bridg.Sdk.{Sdk, Operation, Value, FsKind, FsResult, MountPath}
use shell_canvas_drive_bridg.Tests.Disk.{file_of_size}
use shell_canvas_drive_bridg.Sdk.Handles.{Handles, opens_file, opens_stream}
use shell_canvas_drive_bridg.Sdk.Scripted.{append_name}
use shell_canvas_drive_bridg.Fuse.Attributes.{
  linux, panicked, attr, attr_at, system_time, since_epoch,
}
use shell_canvas_drive_bridg.Fuse.Session.{Fs}
use shell_canvas_drive_bridg.Fuse.Inodes
use shell_canvas_drive_bridg.Fuse.Session
use shell_canvas_drive_bridg.Fuse.Directories
use shell_canvas_drive_bridg.Fuse.Files
use shell_canvas_drive_bridg.Fuse.Requests.{Step, Reach, mounted}
use shell_canvas_drive_bridg.Fuse.Handles.{Listed, Streamed}
use shell_canvas_drive_bridg.Fuse.Handles.Session.{open_file-Listed, open_stream-Streamed}
use shell_canvas_drive_bridg.Tests.Memory.{buffer}

pub record Server : Type 0 where
  pub next : ℕ
  pub files : List ℕ
  pub streams : List ℕ

abbrev pub has : ℕ → List ℕ → Bool
has h [] = false
has h (k ∷ ks) = eqb h k || has h ks

abbrev pub without : ℕ → List ℕ → List ℕ
without h [] = []
without h (k ∷ ks) = let rest = without h ks in if eqb h k then rest else k ∷ rest

abbrev pub dispatch : Operation → Server → FsResult Value × Server
dispatch (Operation.open_file p o) s =
    (ok (Value.handle (s.next + 1)), record s { next = s.next + 1; files = (s.next + 1) ∷ s.files })
dispatch (Operation.open_directory p) s = (
  ok (Value.handle (s.next + 1)),
  record s { next = s.next + 1; streams = (s.next + 1) ∷ s.streams },
)
dispatch (Operation.close h) s = (ok Value.unit, record s { files = without h s.files })
dispatch (Operation.close_directory h) s =
    (ok Value.unit, record s { streams = without h s.streams })
dispatch (Operation.metadata []) s =
    (ok (Value.metadata (record (file_of_size 0) { kind = FsKind.directory })), s)
dispatch (Operation.metadata (_ ∷ _)) s = (ok (Value.metadata (file_of_size 3)), s)
dispatch (Operation.read_directory h) s = (ok (Value.entries []), s)
dispatch _ s = (ok Value.unit, s)

abbrev pub server : Sdk
server = record { Remote = Server; call = dispatch; child = append_name }

pub has-without : (h k : ℕ) (ks : List ℕ) → has k (without h ks) ≡ true → has k ks ≡ true
has-without h k [] e = e
has-without h k (j ∷ ks) e = ground (arith, e, has-without h k ks)

pub without-gone : (h k : ℕ) (ks : List ℕ) → has k (without h ks) ≡ true → k ≢ h
without-gone h k [] e = λ same. cc
without-gone h k (j ∷ ks) e = λ same. ground (arith, e, same, without-gone h k ks)

pub file_kept :
    (op : Operation) (r : Server) (h : ℕ)
    → opens_file op ≡ false
    → has h (dispatch op r).1.files ≡ true
    → has h r.files ≡ true
file_kept (Operation.open_file p o) r h q e = absurd (cc)
file_kept (Operation.open_directory p) r h q e = e
file_kept (Operation.close k) r h q e = has-without k h r.files e
file_kept (Operation.close_directory k) r h q e = e
file_kept (Operation.metadata []) r h q e = e
file_kept (Operation.metadata (_ ∷ _)) r h q e = e
file_kept _ r h q e = e

pub stream_kept :
    (op : Operation) (r : Server) (h : ℕ)
    → opens_stream op ≡ false
    → has h (dispatch op r).1.streams ≡ true
    → has h r.streams ≡ true
stream_kept (Operation.open_file p o) r h q e = e
stream_kept (Operation.open_directory p) r h q e = absurd (cc)
stream_kept (Operation.close k) r h q e = e
stream_kept (Operation.close_directory k) r h q e = has-without k h r.streams e
stream_kept (Operation.metadata []) r h q e = e
stream_kept (Operation.metadata (_ ∷ _)) r h q e = e
stream_kept _ r h q e = e

pub counted : (op : Operation) (r : Server) → r.next ≤ (dispatch op r).1.next
counted (Operation.open_file p o) r = omega arith
counted (Operation.open_directory p) r = omega arith
counted (Operation.close k) r = omega arith
counted (Operation.close_directory k) r = omega arith
counted (Operation.metadata []) r = omega arith
counted (Operation.metadata (_ ∷ _)) r = omega arith
counted _ r = omega arith

pub added :
    (h n : ℕ) (ks : List ℕ)
    → has h (n ∷ ks) ≡ true
    → (has h ks ≡ true) ⊎ (◌≡◌ {A = FsResult Value} (ok (Value.handle n)) (ok (Value.handle h)))
added h n ks e = elim (Bool-cases (eqb h n)) [
  | inl same ↦ inr (ap (λ (k : ℕ). ok (Value.handle k)) (ground (arith, same)))
  | inr other ↦ inl (ground (arith, e, other))
]

pub fresh :
    (p : MountPath) (r : Server) (h : ℕ)
    → ◌≡◌ {A = FsResult Value} (ok (Value.handle (r.next + 1))) (ok (Value.handle h))
    → (r.next < h) × (h ≤ r.next + 1)
fresh p r h e = ground (arith, e)

abbrev pub server-Handles : Handles server
server-Handles = record {
  FileOpen = λ r h. has h r.files ≡ true;
  StreamOpen = λ r h. has h r.streams ≡ true;
  issued = λ r. r.next;
  file_kept = file_kept;
  file_opened = λ p o r h e. added h (r.next + 1) r.files e;
  file_closed = λ h k r e. without-gone h k r.files e;
  stream_kept = stream_kept;
  stream_opened = λ p r h e. added h (r.next + 1) r.streams e;
  stream_closed = λ h k r e. without-gone h k r.streams e;
  counted = counted;
  fresh = fresh;
}

abbrev pub idle : Server
idle = record { next = 0; files = []; streams = [] }

pub none_open : (h : ℕ) → has h [] ≡ true → ⊥
none_open h e = cc

-- The root is opened as a directory and as a file, and the first of the two is released.
abbrev listing : Fs server
listing = (Directories.opendir server 1 (mounted server idle 1000 1000)).1

abbrev both : Fs server
both = (Files.open_node server linux 1 0 listing).1

abbrev closed : Fs server
closed = (Directories.releasedir server 1 both).1

abbrev to_closed : Reach server buffer linux (mounted server idle 1000 1000) closed
to_closed =
    Reach.next {t = both}
      (Reach.next {t = listing} (Reach.next Reach.here (Step.opendir 1)) (Step.open_node 1 0))
      (Step.releasedir 1)

-- A third request makes a file, which gets the handle 3.
abbrev made : Fs server
made = (Files.create server linux 1 (some "b") 0o644 0o22 1 closed).1

answered :
    (Files.create server linux 1 (some "b") 0o644 0o22 1 closed).0
    ≡ ok (attr_at 2 (file_of_size 3) 1000 1000 (since_epoch 0) (since_epoch 0), 3)
unfolding Directories.opendir Directories.releasedir Files.open_node Session.path Session.call
    Session.open_file Session.record_open Inodes.update_node Directories.record_dir
    Directories.take_dir Directories.finish_dir Directories.close_dir Inodes.release
    Inodes.modify_node Inodes.collect Files.create Files.settle Files.close_on_error Session.child
    Session.lookup_path Inodes.lookup Inodes.register attr system_time Dict.lookup Dict.insert
    Dict.erase nat_eq string_eq list_eq
answered = refl

create_returns : (Files.create server linux 1 (some "b") 0o644 0o22 1 closed).0 ≢ err panicked
create_returns h = ground (arith, answered, h)

open_file-Listed_example : Listed 3 made.state.files
unfolding Directories.opendir Directories.releasedir Files.open_node Session.path Session.call
    Session.open_file Session.record_open Inodes.update_node Directories.record_dir
    Directories.take_dir Directories.finish_dir Directories.close_dir Inodes.release
    Inodes.modify_node Inodes.collect Files.create Files.settle Files.close_on_error Session.child
    Session.lookup_path Inodes.lookup Inodes.register attr system_time Dict.lookup Dict.insert
    Dict.erase nat_eq string_eq list_eq
open_file-Listed_example =
    open_file-Listed server server-Handles buffer linux idle 1000 1000 none_open none_open made
      (Reach.next {t = closed} to_closed (Step.create 1 (some "b") 0o644 0o22 1)) 3
      (tt, create_returns) refl

open_stream-Streamed_example : Streamed 1 both.state.dirs
unfolding Directories.opendir Files.open_node Session.path Session.call Session.open_file
    Session.record_open Inodes.update_node Directories.record_dir Dict.lookup Dict.insert Dict.erase
    nat_eq
open_stream-Streamed_example =
    open_stream-Streamed server server-Handles buffer linux idle 1000 1000 none_open none_open both
      (Reach.next {t = listing} (Reach.next Reach.here (Step.opendir 1)) (Step.open_node 1 0)) 1
      refl
