-- ===== src/Fuse/Sound/Session.antt =====
-- src/fuse.rs: `rename`, whole requests and whole sessions, and the consistency of the tables.
use shell_canvas_drive_bridg.Base.{
  ℕ, ◌≢◌, Bool, true, false, not, eqb, bit_and, Action, pure, raise_if, ◌>>=◌, Bool-cases, inl, inr,
  nat_eq, string_eq, list_eq, if◌then◌else◌, ◌==◌, arith,
}
use shell_canvas_drive_bridg.Base.Dict
use shell_canvas_drive_bridg.Sdk.{Sdk, IsLawful, Operation, MountPath, root}
use shell_canvas_drive_bridg.Fuse.Attributes.{Errno, Libc, eopnotsupp}
use shell_canvas_drive_bridg.Fuse.Inodes.Invariant.{IsSound}
use shell_canvas_drive_bridg.Fuse.Session.{Fs, OsName, locked, call, child}
use shell_canvas_drive_bridg.Fuse.Cursor.{ReplyDirectory}
use shell_canvas_drive_bridg.Fuse.Names
use shell_canvas_drive_bridg.Fuse.Names.{rename_paths}
use shell_canvas_drive_bridg.Fuse.Rename.{rename_state}
use shell_canvas_drive_bridg.Fuse.Rename.Tables.{rename_state-IsSound}
use shell_canvas_drive_bridg.Fuse.Requests.{Step, Reach, mounted}
use shell_canvas_drive_bridg.Fuse.Sound.{
  Keeps, Keeps-bind, Keeps-bind_ok, Keeps-raise_if, Keeps-locked, call-Keeps, child-Keeps,
  remove-Keeps, child-ne-root,
}
use shell_canvas_drive_bridg.Fuse.Sound.Handlers
use shell_canvas_drive_bridg.Fuse.Sound.Streams

module _ (S : Sdk) (L : IsLawful S) where
  update_tables-Keeps :
      (from to : MountPath)
      → from ≢ root
      → to ≢ root
      → Keeps {S = S} (if from == to then pure tt else locked S (rename_state S from to))
  update_tables-Keeps from to ne ne' fs v = elim (Bool-cases (from == to)) [
    | inl same ↦ rw same v
    | inr other ↦ rw other (
        Keeps-locked (rename_state S from to) (λ s. rename_state-IsSound S L from to s ne ne') fs v)
  ]

  rename_paths-Keeps :
      (from to : MountPath) (replace : Bool)
      → from ≢ root
      → to ≢ root
      → Keeps (rename_paths S from to replace)
  unfolding rename_paths
  rename_paths-Keeps from to replace ne ne' =
      Keeps-bind (call S (Operation.rename from to replace))
        (λ _. if from == to then pure tt else locked S (rename_state S from to)) (call-Keeps S _)
        (λ _. update_tables-Keeps from to ne ne')

  rename-Keeps :
      (parent : ℕ) (name : OsName) (newparent : ℕ) (newname : OsName) (flags : ℕ)
      → Keeps (Names.rename S parent name newparent newname flags)
  unfolding Names.rename
  rename-Keeps parent name newparent newname flags =
      Keeps-bind (raise_if (not (eqb (bit_and flags 0xffff_fffe) 0)) eopnotsupp)
        (λ _. child S parent name >>= both)
        (Keeps-raise_if (not (eqb (bit_and flags 0xffff_fffe) 0)) eopnotsupp)
        (λ _. Keeps-bind_ok (child S parent name) both (child-Keeps S parent name) (λ from fs e.
          Keeps-bind_ok (child S newparent newname) (λ to. rename_paths S from to replace)
            (child-Keeps S newparent newname)
            (λ to fs' e'.
              rename_paths-Keeps from to replace (child-ne-root S L parent name fs from e)
                (child-ne-root S L newparent newname fs' to e'))))
    where
      replace : Bool
      replace = eqb (bit_and flags 1) 0

      both : MountPath → Action (Fs S) Errno (Unit {0})
      both from = child S newparent newname >>= λ to. rename_paths S from to replace

  -- One request, whatever the provider replies.
  pub Step-IsSound :
      (K : ReplyDirectory) (c : Libc) {fs t : Fs S}
      → Step S K c fs t
      → IsSound fs.state
      → IsSound t.state
  unfolding Names.unlink Names.rmdir
  Step-IsSound K c {fs} (Step.lookup parent name) v = Handlers.lookup-Keeps S parent name fs v
  Step-IsSound K c {fs} (Step.forget ino count) v = Handlers.forget-Keeps S ino count fs v
  Step-IsSound K c {fs} (Step.getattr ino fh) v = Handlers.getattr-Keeps S ino fh fs v
  Step-IsSound K c {fs} (Step.setattr clock ino changes fh) v =
      Handlers.setattr-Keeps S clock ino changes fh fs v
  Step-IsSound K c {fs} (Step.open_node ino flags) v = Handlers.open_node-Keeps S c ino flags fs v
  Step-IsSound K c {fs} (Step.create parent name mode umask flags) v =
      Handlers.create-Keeps S c parent name mode umask flags fs v
  Step-IsSound K c {fs} (Step.read fh offset size) v = Streams.read-Keeps S fh offset size fs v
  Step-IsSound K c {fs} (Step.write fh offset bytes) v = Streams.write-Keeps S fh offset bytes fs v
  Step-IsSound K c {fs} (Step.flush fh) v = Handlers.flush-Keeps S fh fs v
  Step-IsSound K c {fs} (Step.release ino fh) v = Streams.release-Keeps S ino fh fs v
  Step-IsSound K c {fs} (Step.mkdir parent name mode umask) v =
      Handlers.mkdir-Keeps S parent name mode umask fs v
  Step-IsSound K c {fs} (Step.unlink parent name) v = remove-Keeps S L parent name false fs v
  Step-IsSound K c {fs} (Step.rmdir parent name) v = remove-Keeps S L parent name true fs v
  Step-IsSound K c {fs} (Step.rename parent name newparent newname flags) v =
      rename-Keeps parent name newparent newname flags fs v
  Step-IsSound K c {fs} (Step.opendir ino) v = Streams.opendir-Keeps S ino fs v
  Step-IsSound K c {fs} {t} (Step.readdir fuel fh offset b b' r e) v =
      Streams.readdir-IsSound S K fuel fh offset fs t b b' r e v
  Step-IsSound K c {fs} (Step.releasedir fh) v = Streams.releasedir-Keeps S fh fs v
  Step-IsSound K c {fs} (Step.statfs ino) v = Handlers.statfs-Keeps S ino fs v

  pub mounted-IsSound : (r : S.Remote) (uid gid : ℕ) → IsSound (mounted S r uid gid).state
  unfolding Dict.lookup
  mounted-IsSound r uid gid = record {
    named = λ p id h. ground arith;
    bounded = λ id h. ground arith;
    rooted = ground arith;
    distinct = ground arith;
    root_only = λ id h. ground arith;
  }

  Reach-IsSound :
      (K : ReplyDirectory) (c : Libc) {fs t : Fs S}
      → IsSound fs.state
      → Reach S K c fs t
      → IsSound t.state
  Reach-IsSound K c v Reach.here = v
  Reach-IsSound K c v (Reach.next r st) = Step-IsSound K c st (Reach-IsSound K c v r)

  -- In every session, from the mount on and whatever the provider replies to each operation, the
  -- tables are consistent: a known path leads to an inode of that path, no number beyond `next` is
  -- in use, inode 1 is the root and no other inode is, and no path is listed twice.
  pub session-IsSound :
      (K : ReplyDirectory) (c : Libc) (r : S.Remote) (uid gid : ℕ) (t : Fs S)
      → Reach S K c (mounted S r uid gid) t
      → IsSound t.state
  session-IsSound K c r uid gid t reached = Reach-IsSound K c (mounted-IsSound r uid gid) reached
