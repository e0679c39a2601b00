-- ===== src/Fuse/Handles/Session.antt =====
-- src/fuse.rs: whole sessions, and the handles that the provider holds open.
use shell_canvas_drive_bridg.Base.{ℕ, ◌≢◌, nat_eq, true, false, err, inl, inr}
use shell_canvas_drive_bridg.Base.Dict
use shell_canvas_drive_bridg.Sdk.{Sdk}
use shell_canvas_drive_bridg.Sdk.Handles.{Handles}
use shell_canvas_drive_bridg.Fuse.Attributes.{Libc, panicked}
use shell_canvas_drive_bridg.Fuse.Session.{Fs}
use shell_canvas_drive_bridg.Fuse.Cursor.{ReplyDirectory}
use shell_canvas_drive_bridg.Fuse.Names
use shell_canvas_drive_bridg.Fuse.Requests.{Step, Reach, mounted}
use shell_canvas_drive_bridg.Fuse.Handles.{Spare, Holds, Listed, Streamed, kept_file, kept_stream}
use shell_canvas_drive_bridg.Fuse.Handles.Steps.{remove-Keeps}
use shell_canvas_drive_bridg.Fuse.Handles.Quiet
use shell_canvas_drive_bridg.Fuse.Files
use shell_canvas_drive_bridg.Fuse.Handles.Files.{open_node-Holds, release-Holds}
use shell_canvas_drive_bridg.Fuse.Handles.Creation.{Returns, create-Holds}
use shell_canvas_drive_bridg.Fuse.Handles.Streams
use shell_canvas_drive_bridg.Fuse.Handles.Readdir.{readdir-Holds}

module _ (S : Sdk) (H : Handles S) (K : ReplyDirectory) (c : Libc) where
  -- No `create` panics, or no file is ever open.
  abbrev Calm : {fs t : Fs S} → Step S K c fs t → Type 0
  Calm {fs} (Step.create parent name mode umask flags) =
      Returns H (Files.create S c parent name mode umask flags fs).0
  Calm _ = Unit {0}

  Step-Holds :
      {fs t : Fs S} (st : Step S K c fs t)
      → Calm st
      → Holds H Spare.nothing fs
      → Holds H Spare.nothing t
  unfolding Names.unlink Names.rmdir
  Step-Holds {fs} (Step.lookup parent name) calm v =
      Quiet.lookup-Keeps H Spare.nothing parent name fs v
  Step-Holds {fs} (Step.forget ino count) calm v = Quiet.forget-Keeps H Spare.nothing ino count fs v
  Step-Holds {fs} (Step.getattr ino fh) calm v = Quiet.getattr-Keeps H Spare.nothing ino fh fs v
  Step-Holds {fs} (Step.setattr clock ino changes fh) calm v =
      Quiet.setattr-Keeps H Spare.nothing clock ino changes fh fs v
  Step-Holds {fs} (Step.open_node ino flags) calm v = open_node-Holds H c ino flags fs v
  Step-Holds {fs} (Step.create parent name mode umask flags) calm v =
      create-Holds H c parent name mode umask flags fs calm v
  Step-Holds {fs} (Step.read fh offset size) calm v =
      Quiet.read-Keeps H Spare.nothing fh offset size fs v
  Step-Holds {fs} (Step.write fh offset bytes) calm v =
      Quiet.write-Keeps H Spare.nothing fh offset bytes fs v
  Step-Holds {fs} (Step.flush fh) calm v = Quiet.flush-Keeps H Spare.nothing fh fs v
  Step-Holds {fs} (Step.release ino fh) calm v = release-Holds H ino fh fs v
  Step-Holds {fs} (Step.mkdir parent name mode umask) calm v =
      Quiet.mkdir-Keeps H Spare.nothing parent name mode umask fs v
  Step-Holds {fs} (Step.unlink parent name) calm v =
      remove-Keeps H Spare.nothing parent name false fs v
  Step-Holds {fs} (Step.rmdir parent name) calm v =
      remove-Keeps H Spare.nothing parent name true fs v
  Step-Holds {fs} (Step.rename parent name newparent newname flags) calm v =
      Quiet.rename-Keeps H Spare.nothing parent name newparent newname flags fs v
  Step-Holds {fs} (Step.opendir ino) calm v = Streams.opendir-Holds H ino fs v
  Step-Holds {fs} {t} (Step.readdir fuel fh offset b b' r e) calm v =
      readdir-Holds H K fuel fh offset fs t b b' r e v
  Step-Holds {fs} (Step.releasedir fh) calm v = Streams.releasedir-Holds H fh fs v
  Step-Holds {fs} (Step.statfs ino) calm v = Quiet.statfs-Keeps H Spare.nothing ino fs v

  abbrev AllCalm : {fs t : Fs S} → Reach S K c fs t → Type 0
  AllCalm Reach.here = Unit {0}
  AllCalm (Reach.next r st) = AllCalm r × Calm st

  Reach-Holds :
      {fs t : Fs S} (r : Reach S K c fs t)
      → AllCalm r
      → Holds H Spare.nothing fs
      → Holds H Spare.nothing t
  Reach-Holds Reach.here calm v = v
  Reach-Holds (Reach.next r st) calm v = Step-Holds st calm.1 (Reach-Holds r calm.0 v)

  mounted-Holds :
      (r : S.Remote) (uid gid : ℕ)
      → ((h : ℕ) → H.FileOpen r h → ⊥)
      → ((h : ℕ) → H.StreamOpen r h → ⊥)
      → Holds H Spare.nothing (mounted S r uid gid)
  unfolding Dict.lookup
  mounted-Holds r uid gid no_file no_stream = record {
    in_files = λ h open_. absurd (no_file h open_);
    in_dirs = λ h open_. absurd (no_stream h open_);
    known = λ k d at. absurd (cc);
  }

-- The same provider, of whose files no account is kept.
streams_only : {S : Sdk} → Handles S → Handles S
streams_only H = record H {
  FileOpen = λ r h. ⊥;
  file_kept = λ op r h a k. k;
  file_opened = λ p o r h k. absurd k;
  file_closed = λ h k r open_. absurd open_;
}

module _ (S : Sdk) (K : ReplyDirectory) (c : Libc) where
  -- No `create` of the session panics.
  abbrev pub CreatesReturn : {fs t : Fs S} → Reach S K c fs t → Type 0
  CreatesReturn Reach.here = Unit {0}
  CreatesReturn (Reach.next {t} r (Step.create parent name mode umask flags)) =
      CreatesReturn r × ((Files.create S c parent name mode umask flags t).0 ≢ err panicked)
  CreatesReturn (Reach.next r _) = CreatesReturn r

  module _ (H : Handles S) where
    returning : {fs t : Fs S} (r : Reach S K c fs t) → CreatesReturn r → AllCalm S H K c r
    returning Reach.here k = tt
    returning (Reach.next r (Step.create parent name mode umask flags)) k =
        (returning r k.0, inl k.1)
    returning (Reach.next r _) k = (returning r k, tt)

    unaccounted : {fs t : Fs S} (r : Reach S K c fs t) → AllCalm S (streams_only H) K c r
    unfolding streams_only
    unaccounted Reach.here = tt
    unaccounted (Reach.next r (Step.create parent name mode umask flags)) =
        (unaccounted r, inr (λ _ _ k. k))
    unaccounted (Reach.next r _) = (unaccounted r, tt)

module _ (S : Sdk) (H : Handles S) (K : ReplyDirectory) (c : Libc) (r : S.Remote) (uid gid : ℕ)
    (no_file : (h : ℕ) → H.FileOpen r h → ⊥) (no_stream : (h : ℕ) → H.StreamOpen r h → ⊥) (t : Fs S)
    (reached : Reach S K c (mounted S r uid gid) t) (h : ℕ) where
  -- In every session in which no `create` panics, of a provider that keeps its handles as the SDK's
  -- `Server` does and starts with no open file and no open stream, each file that it holds open
  -- stands in the table of open files.
  pub open_file-Listed :
      CreatesReturn S K c reached → H.FileOpen t.remote h → Listed h t.state.files
  open_file-Listed returns open_ =
      kept_file H
        (Reach-Holds S H K c reached (returning S K c H reached returns)
          (mounted-Holds S H K c r uid gid no_file no_stream))
        h open_

  -- In every session of a provider that keeps its handles as the SDK's `Server` does and starts
  -- with no open file and no open stream, each directory stream that it holds open is the current
  -- one of a cursor in the table of open directories: no rewind and no request that fails leaves
  -- one behind.
  pub open_stream-Streamed : H.StreamOpen t.remote h → Streamed h t.state.dirs
  unfolding streams_only
  open_stream-Streamed open_ =
      let L = streams_only H in
      kept_stream L
        (Reach-Holds S L K c reached (unaccounted S K c H reached)
          (mounted-Holds S L K c r uid gid (λ _ k. k) no_stream))
        h open_
