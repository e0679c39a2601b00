-- ===== src/Fuse/Requests.antt =====
-- src/fuse.rs, `impl Filesystem for Fs`: the session as a transition system. The kernel chooses
-- the requests and their order; one step is one handler, run to its end.
use shell_canvas_drive_bridg.Base.{ℕ, ◌≡◌, Bool, Option, some, List, Result}
use shell_canvas_drive_bridg.Sdk.{Sdk}
use shell_canvas_drive_bridg.Fuse.Attributes.{Errno, Libc, SystemTime}
use shell_canvas_drive_bridg.Fuse.Inodes
use shell_canvas_drive_bridg.Fuse.Session.{Fs, OsName}
use shell_canvas_drive_bridg.Fuse.Cursor.{ReplyDirectory}
use shell_canvas_drive_bridg.Fuse.Files
use shell_canvas_drive_bridg.Fuse.Names
use shell_canvas_drive_bridg.Fuse.Names.{Changes}
use shell_canvas_drive_bridg.Fuse.Directories

module _ (S : Sdk) (K : ReplyDirectory) (c : Libc) where
  pub data Step (fs : Fs S) : Fs S → Type 0 where
    lookup : (parent : ℕ) (name : OsName) → Step fs (Names.lookup S parent name fs).1
    forget : (ino count : ℕ) → Step fs (Names.forget S ino count fs)
    getattr : (ino : ℕ) (fh : Option ℕ) → Step fs (Names.getattr S ino fh fs).1
    setattr :
        (clock : SystemTime) (ino : ℕ) (changes : Changes) (fh : Option ℕ)
        → Step fs (Names.setattr S clock ino changes fh fs).1
    open_node : (ino flags : ℕ) → Step fs (Files.open_node S c ino flags fs).1
    create :
        (parent : ℕ) (name : OsName) (mode umask flags : ℕ)
        → Step fs (Files.create S c parent name mode umask flags fs).1
    read : (fh offset size : ℕ) → Step fs (Files.read S fh offset size fs).1
    write : (fh offset : ℕ) (bytes : List ℕ) → Step fs (Files.write S fh offset bytes fs).1
    flush : (fh : ℕ) → Step fs (Files.flush S fh fs).1
    release : (ino fh : ℕ) → Step fs (Files.release S ino fh fs).1
    mkdir :
        (parent : ℕ) (name : OsName) (mode umask : ℕ)
        → Step fs (Names.mkdir S parent name mode umask fs).1
    unlink : (parent : ℕ) (name : OsName) → Step fs (Names.unlink S parent name fs).1
    rmdir : (parent : ℕ) (name : OsName) → Step fs (Names.rmdir S parent name fs).1
    rename :
        (parent : ℕ) (name : OsName) (newparent : ℕ) (newname : OsName) (flags : ℕ)
        → Step fs (Names.rename S parent name newparent newname flags fs).1
    opendir : (ino : ℕ) → Step fs (Directories.opendir S ino fs).1
    readdir :
        {t : Fs S} (fuel fh offset : ℕ) (b b' : K.Buffer) (r : Result Errno (Unit {0}))
        → Directories.readdir S K fuel fh offset fs b ≡ some (r, t, b')
        → Step fs t
    releasedir : (fh : ℕ) → Step fs (Directories.releasedir S fh fs).1
    statfs : (ino : ℕ) → Step fs (Names.statfs S ino fs).1

  -- A session: any number of requests.
  pub data Reach (fs : Fs S) : Fs S → Type 0 where
    here : Reach fs fs
    next : {t u : Fs S} → Reach fs t → Step t u → Reach fs u

-- The session as `run` starts it.
abbrev pub mounted : (S : Sdk) → S.Remote → ℕ → ℕ → Fs S
mounted S r uid gid = record {
  remote = r;
  state = Inodes.new;
  poisoned = Bool.false;
  uid = uid;
  gid = gid;
}
