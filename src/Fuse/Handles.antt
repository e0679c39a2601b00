-- ===== src/Fuse/Handles.antt =====
-- src/fuse.rs: the handles that the provider holds open, and the tables that account for them. A
-- handle that has just been opened, and is in no table yet, is the spare one.
pub mod Steps
pub mod Moves
pub mod Quiet
pub mod Files
pub mod Creation
pub mod Cursors
pub mod Readdir
pub mod Streams
pub mod Session
use shell_canvas_drive_bridg.Base.{
  ℕ, ◌≡◌, ◌≢◌, ◌≤◌, ◌<◌, ◌⊎◌, inl, inr, refl, sym, ap, ◌∙◌, Bool, true, false, Option, none, some,
  List, [], ◌∷◌, Result, ok, err, Action, arith, Bool-cases, nat_eq, Option-cases,
}
use shell_canvas_drive_bridg.Base.Dict
use shell_canvas_drive_bridg.Base.Dict.{Dict}
use shell_canvas_drive_bridg.Sdk.{Sdk, Operation, Value, FsResult, MountPath, FsOpenOptions}
use shell_canvas_drive_bridg.Sdk.Handles.{Handles, opens_file, opens_stream}
use shell_canvas_drive_bridg.Fuse.Inodes.{Directory, State}
use shell_canvas_drive_bridg.Fuse.Session.{Fs}

pub data Spare : Type 0 where
  nothing : Spare
  file stream : ℕ → Spare

abbrev pub Listed : ℕ → Dict ℕ ℕ → Type 0
Listed h files = (ino : ℕ) × (Dict.lookup h files ≡ some ino)

abbrev pub Streamed : ℕ → Dict ℕ Directory → Type 0
Streamed h dirs = (k : ℕ) × (d : Directory) × (Dict.lookup k dirs ≡ some d) × (d.remote ≡ some h)

insert-Listed :
    (k h ino : ℕ) (files : Dict ℕ ℕ) → Listed k files → Listed k (Dict.insert h ino files)
insert-Listed k h ino files l = elim (nat_eq.dec k h) [
  | yes e ↦ (ino, ground (arith, Dict.lookup-insert k h ino files))
  | no ne ↦ (l.0, Dict.lookup-insert_ne k h ino files ne ∙ l.1)
]

-- Another cursor goes in its own place, and has another stream.
insert-Streamed :
    (n h : ℕ) (d : Directory) (dirs : Dict ℕ Directory)
    → ((e : Directory) → Dict.lookup h dirs ≡ some e → e.remote ≢ some n)
    → Streamed n dirs
    → Streamed n (Dict.insert h d dirs)
insert-Streamed n h d dirs apart (k, e, at, is) = elim (nat_eq.dec k h) [
  | yes same ↦ absurd (apart e (ap (λ j. Dict.lookup j dirs) (sym same) ∙ at) is)
  | no ne ↦ (k, e, Dict.lookup-insert_ne k h d dirs ne ∙ at, is)
]

module _ {S : Sdk} (H : Handles S) where
  -- A file that the provider holds open is in `files`, a directory stream is that of a cursor in
  -- `dirs`, and no cursor stands under an identity that is yet to come.
  pub record IsHeld (o : Spare) (r : S.Remote) (files : Dict ℕ ℕ) (dirs : Dict ℕ Directory)
      : Type 0 where
    pub in_files : (h : ℕ) → H.FileOpen r h → (o ≡ Spare.file h) ⊎ Listed h files
    pub in_dirs : (h : ℕ) → H.StreamOpen r h → (o ≡ Spare.stream h) ⊎ Streamed h dirs
    pub known :
        (k : ℕ) (d : Directory)
        → Dict.lookup k dirs ≡ some d
        → (k ≤ H.issued r) × (o ≢ Spare.stream k)

  abbrev pub Holds : Spare → Fs S → Type 0
  Holds o fs = IsHeld o fs.remote fs.state.files fs.state.dirs

  module _ {o : Spare} {r : S.Remote} {files : Dict ℕ ℕ} {dirs : Dict ℕ Directory} where
    -- An operation that opens nothing.
    pub quiet-IsHeld :
        (op : Operation)
        → opens_file op ≡ false
        → opens_stream op ≡ false
        → IsHeld o r files dirs
        → IsHeld o (S.call op r).1 files dirs
    quiet-IsHeld op a b v = record {
      in_files = λ h k. v.in_files h (H.file_kept op r h a k);
      in_dirs = λ h k. v.in_dirs h (H.stream_kept op r h b k);
      known = λ k d e. let w = v.known k d e in (omega (arith, w.0, H.counted op r), w.1);
    }

  -- The file that a reply hands over.
  abbrev pub new_file : FsResult Value → Spare
  new_file (ok (Value.handle h)) = Spare.file h
  new_file _ = Spare.nothing

  abbrev pub new_stream : FsResult Value → Spare
  new_stream (ok (Value.handle h)) = Spare.stream h
  new_stream _ = Spare.nothing

  not_stream : (v : FsResult Value) (k : ℕ) → new_file v ≢ Spare.stream k
  not_stream (err e) k h = cc
  not_stream (ok (Value.handle n)) k h = cc
  not_stream (ok _) k h = cc

  handed_stream :
      (v : FsResult Value) (k : ℕ) → new_stream v ≡ Spare.stream k → v ≡ ok (Value.handle k)
  handed_stream (err e) k h = absurd (cc)
  handed_stream (ok (Value.handle n)) k h = ground arith
  handed_stream (ok _) k h = ground arith

  module _ {r : S.Remote} {files : Dict ℕ ℕ} {dirs : Dict ℕ Directory}
      (v : IsHeld Spare.nothing r files dirs) where
    pub kept_file : (h : ℕ) → H.FileOpen r h → Listed h files
    kept_file h k = elim (v.in_files h k) [ inl e ↦ absurd (cc) | inr e ↦ e ]

    pub kept_stream : (h : ℕ) → H.StreamOpen r h → Streamed h dirs
    kept_stream h k = elim (v.in_dirs h k) [ inl e ↦ absurd (cc) | inr e ↦ e ]

    pub open_file-IsHeld :
        (p : MountPath) (o : FsOpenOptions)
        → let (reply, r') = S.call (Operation.open_file p o) r in
          IsHeld (new_file reply) r' files dirs
    open_file-IsHeld p o = record {
      in_files = λ h k. elim (H.file_opened p o r h k) [
        | inl old ↦ inr (kept_file h old)
        | inr new ↦ inl (ap new_file new)
      ];
      in_dirs = λ h k. inr (kept_stream h (H.stream_kept (Operation.open_file p o) r h refl k));
      known = λ k d e. (
        omega (arith, (v.known k d e).0, H.counted (Operation.open_file p o) r),
        not_stream (S.call (Operation.open_file p o) r).0 k,
      );
    }

    pub open_stream-IsHeld :
        (p : MountPath)
        → let (reply, r') = S.call (Operation.open_directory p) r in
          IsHeld (new_stream reply) r' files dirs
    open_stream-IsHeld p = record {
      in_files = λ h k. inr (kept_file h (H.file_kept (Operation.open_directory p) r h refl k));
      in_dirs = λ h k. elim (H.stream_opened p r h k) [
        | inl old ↦ inr (kept_stream h old)
        | inr new ↦ inl (ap new_stream new)
      ];
      known = λ k d e. (
        omega (arith, (v.known k d e).0, H.counted (Operation.open_directory p) r),
        λ same.
            let new = H.fresh p r k (handed_stream _ k same) in
            omega (arith, (v.known k d e).0, new.0),
      );
    }

  module _ {r : S.Remote} {files : Dict ℕ ℕ} {dirs : Dict ℕ Directory} (h : ℕ) where
    -- A close releases the handle, whatever the reply.
    pub close-IsHeld :
        IsHeld (Spare.file h) r files dirs
        → IsHeld Spare.nothing (S.call (Operation.close h) r).1 files dirs
    close-IsHeld v =
        let op = Operation.close h in
        record {
          in_files = λ k open_. elim (v.in_files k (H.file_kept op r k refl open_)) [
            | inl same ↦ absurd (H.file_closed h k r open_ (ground arith))
            | inr listed ↦ inr listed
          ];
          in_dirs = λ k open_. elim (v.in_dirs k (H.stream_kept op r k refl open_)) [
            | inl e ↦ absurd (cc)
            | inr streamed ↦ inr streamed
          ];
          known = λ k d e. (omega (arith, (v.known k d e).0, H.counted op r), λ same. cc);
        }

    -- The file that has been released goes from the table.
    pub release-IsHeld :
        IsHeld Spare.nothing r files dirs
        → IsHeld Spare.nothing (S.call (Operation.close h) r).1 (Dict.erase h files) dirs
    release-IsHeld v =
        let op = Operation.close h in
        let w = quiet-IsHeld op refl refl v in
        record {
          in_files = λ k open_.
              let listed = kept_file w k open_ in
              inr (listed.0, Dict.lookup-erase_ne k h files (H.file_closed h k r open_) ∙ listed.1);
          in_dirs = w.in_dirs;
          known = w.known;
        }

    pub insert_file-IsHeld :
        (ino : ℕ)
        → IsHeld (Spare.file h) r files dirs
        → IsHeld Spare.nothing r (Dict.insert h ino files) dirs
    insert_file-IsHeld ino v = record {
      in_files = λ k open_. elim (v.in_files k open_) [
        | inl same ↦ inr (ino, ground (arith, Dict.lookup-insert k h ino files))
        | inr listed ↦ inr (insert-Listed k h ino files listed)
      ];
      in_dirs = λ k open_. elim (v.in_dirs k open_) [ inl e ↦ absurd (cc) | inr e ↦ inr e ];
      known = λ k d e. ((v.known k d e).0, λ same. cc);
    }

    pub insert_dir-IsHeld :
        (d : Directory)
        → d.remote ≡ some h
        → h ≤ H.issued r
        → IsHeld (Spare.stream h) r files dirs
        → IsHeld Spare.nothing r files (Dict.insert h d dirs)
    insert_dir-IsHeld d e issued v = record {
      in_files = λ k open_. elim (v.in_files k open_) [ inl e ↦ absurd (cc) | inr e ↦ inr e ];
      in_dirs = λ k open_. elim (v.in_dirs k open_) [
        | inl same ↦ inr (h, d, Dict.lookup-insert_self h d dirs, e ∙ ground arith)
        | inr streamed ↦
            inr (insert-Streamed k h d dirs (λ x at. absurd ((v.known h x at).1 refl)) streamed)
      ];
      known = λ k x at. (
        elim (Dict.inserted k h d x dirs at) [
          | inl same ↦ omega (arith, same.0)
          | inr old ↦ (v.known k x old).0
        ],
        λ same. cc,
      );
    }
