-- ===== src/Fuse/Cursor/Reply.antt =====
-- src/fuse.rs, `Fs::readdir`: what the kernel gets from a directory that is open.
use shell_canvas_drive_bridg.Base.{
  ℕ, ◌<◌, ◌≤◌, ◌≡◌, false, some, List, ok, arith, length, drop, length-drop, nat_eq,
}
use shell_canvas_drive_bridg.Base.Dict
use shell_canvas_drive_bridg.Sdk.{Sdk, FsDirectoryEntry}
use shell_canvas_drive_bridg.Fuse.Inodes.{Directory}
use shell_canvas_drive_bridg.Fuse.Session.{Fs}
use shell_canvas_drive_bridg.Fuse.Cursor.{ReplyDirectory, Stream}
use shell_canvas_drive_bridg.Sdk.Listings.{Lists}
use shell_canvas_drive_bridg.Fuse.Cursor.Listing.{At, deliver, fill-deliver}
use shell_canvas_drive_bridg.Fuse.Cursor.Rewind.{prepare_forward}
use shell_canvas_drive_bridg.Fuse.Directories.{readdir, put_stream}

module _ (S : Sdk) (K : ReplyDirectory) (h : ℕ) (I : List FsDirectoryEntry → S.Remote → Type 0)
    (V : Lists S h I) (es : List FsDirectoryEntry) where
  -- With a lock that is not poisoned, and a cursor that stands in a listing, at the cookie asked
  -- for or before it, `readdir` gives the kernel the entries after that cookie, in order and each
  -- under the next cookie, until they are over or the buffer is full. One round more than there
  -- are entries is enough, and the cursor that is put back stands in the same listing.
  pub readdir_lem :
      (fuel fh offset : ℕ) (fs : Fs S) (b : K.Buffer) (d : Directory)
      → fs.poisoned ≡ false
      → Dict.lookup fh fs.state.dirs ≡ some d
      → At S h I V es d fs.remote
      → d.offset ≤ offset
      → length es < fuel
      → (t : Stream S) × (readdir S K fuel fh offset fs b
          ≡ some (ok tt, put_stream S fh fs t, deliver K offset (drop offset es) b))
        × At S h I V es t.0 t.1
  unfolding readdir
  readdir_lem fuel fh offset fs b d sound found at reached enough =
      let (t, done, at') =
        fill-deliver S h I V es K offset fuel d fs.remote b at reached
          (omega (arith, length-drop d.offset es, enough)) in
      (t, ground (arith, prepare_forward S offset d fs.remote h at.opened reached, done), at')
