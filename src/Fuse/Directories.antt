-- ===== src/Fuse/Directories.antt =====
-- src/fuse.rs: the handlers on open directories.
use shell_canvas_drive_bridg.Base.{
  ℕ, false, Option, none, some, [], Result, ok, err, Action, pure, lift, ◌>>=◌, ◌>>◌, if◌then◌else◌,
  nat_eq,
}
use shell_canvas_drive_bridg.Base.Dict
use shell_canvas_drive_bridg.Sdk.{Sdk, Operation, Value, MountPath}
use shell_canvas_drive_bridg.Fuse.Attributes.{Errno, eio, ebadf}
use shell_canvas_drive_bridg.Fuse.Inodes
use shell_canvas_drive_bridg.Fuse.Inodes.{State, Directory, update_node, count_open}
use shell_canvas_drive_bridg.Fuse.Session.{Fs, locked, call, path, as_handle}
use shell_canvas_drive_bridg.Fuse.Cursor.{ReplyDirectory, Stream, prepare, fill, close_stream}

-- `state.dirs.insert` of a fresh cursor.
abbrev pub insert_dir : ℕ → Directory → State → State
insert_dir h d s = record s { dirs = Dict.insert h d s.dirs }

abbrev pub fresh : ℕ → MountPath → ℕ → Directory
fresh ino p h = record {
  ino = ino;
  path = p;
  remote = some h;
  offset = 0;
  pending = [];
  eof = false;
}

-- One more open reference on the inode, and the new cursor under its remote handle.
unfoldable pub record_dir : ℕ → MountPath → ℕ → Action State Errno (Unit {0})
record_dir ino p h = do update_node ino count_open; λ s. (ok tt, insert_dir h (fresh ino p h) s)

unfoldable pub take_dir : ℕ → Action State Errno Directory
take_dir h s = elim (Dict.lookup h s.dirs) [
  | none ↦ (err ebadf, s)
  | some d ↦ (ok d, record s { dirs = Dict.erase h s.dirs })
]

module _ (S : Sdk) where
  unfoldable pub opendir : ℕ → Action (Fs S) Errno ℕ
  opendir ino = do
    p ← path S ino
    v ← call S (Operation.open_directory p)
    h ← lift (as_handle v)
    locked S (record_dir ino p h)
    pure h

  -- The remote stream of a directory that has been taken out of the table.
  unfoldable pub close_dir : Directory → Action (Fs S) Errno Value
  close_dir d fs =
      let (r, rem) = close_stream S d.remote fs.remote in (r, record fs { remote = rem })

  -- The reply to the close is passed on after the inode's reference is gone.
  unfoldable pub finish_dir : Directory → Action (Fs S) Errno Value
  finish_dir d fs =
      let (r, fs') = close_dir d fs in
      (locked S (λ s. (ok tt, Inodes.release d.ino s)) >> λ fs''. (r, fs'')) fs'

  unfoldable pub releasedir : ℕ → Action (Fs S) Errno Value
  releasedir fh = do d ← locked S (take_dir fh); finish_dir d

  -- The cursor after the loop goes back into the table.
  abbrev pub put_stream : ℕ → Fs S → Stream S → Fs S
  put_stream fh fs (d, rem) = record fs { remote = rem; state = insert_dir fh d fs.state }

  module _ (K : ReplyDirectory) where
    abbrev pub Reply : Type 0
    Reply = Result Errno (Unit {0}) × Fs S × K.Buffer

    abbrev pub filled :
        ℕ → Fs S → Option (Result Errno (Unit {0}) × Stream S × K.Buffer) → Option Reply
    filled fh fs none = none
    filled fh fs (some (r, t, b)) = some (r, put_stream fh fs t, b)

    -- The lock is held throughout. `none` means that the fuel of the loop ran out.
    unfoldable pub readdir : ℕ → ℕ → ℕ → Fs S → K.Buffer → Option Reply
    readdir fuel fh offset fs b =
        if fs.poisoned then some (err eio, fs, b) else elim (Dict.lookup fh fs.state.dirs) [
          | none ↦ some (err ebadf, fs, b)
          | some d ↦
              let (r, t) = prepare S offset (d, fs.remote) in
              elim r [
                | err e ↦ some (err e, put_stream fh fs t, b)
                | ok _ ↦ filled fh fs (fill S K fuel offset t b)
              ]
        ]
