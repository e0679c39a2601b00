-- ===== src/Fuse/Sound/Streams.antt =====
-- src/fuse.rs: reading, writing, closing and listing, and the consistency of the tables.
use shell_canvas_drive_bridg.Base.{
  ℕ, suc, zero, ◌+◌, ◌≡◌, refl, subst, Option, none, some, List, [], ◌∷◌, ◌++◌, Result, ok, Action,
  Bool-cases, Option-cases, Result-cases, bind_cases, inl, inr, ltb, length, nat_eq, string_eq,
  list_eq,
}
use shell_canvas_drive_bridg.Base.Dict
use shell_canvas_drive_bridg.Sdk.{Sdk, Operation, MountPath}
use shell_canvas_drive_bridg.Fuse.Attributes.{Errno}
use shell_canvas_drive_bridg.Fuse.Inodes
use shell_canvas_drive_bridg.Fuse.Inodes.{State, Directory, count_open, update_node}
use shell_canvas_drive_bridg.Fuse.Inodes.Invariant.{IsSound, release-IsSound, update_node-IsSound}
use shell_canvas_drive_bridg.Fuse.Session.{Fs, locked, call}
use shell_canvas_drive_bridg.Fuse.Cursor.{ReplyDirectory, Stream, prepare}
use shell_canvas_drive_bridg.Fuse.Files
use shell_canvas_drive_bridg.Transfer.{continue_read, read_part, read_loop, write_loop}
use shell_canvas_drive_bridg.Fuse.Attributes.{eoverflow, eio}
use shell_canvas_drive_bridg.Fuse.Directories
use shell_canvas_drive_bridg.Fuse.Directories.{
  filled, finish_dir, put_stream, fresh, insert_dir, record_dir, take_dir, close_dir,
}
use shell_canvas_drive_bridg.Fuse.Sound.{
  Keeps, Keeps-bind, Keeps-lift, Keeps-pure, Keeps-raise_if, Keeps-locked, when_locked-IsSound,
  call-Keeps, path-Keeps,
}
use shell_canvas_drive_bridg.Fuse.Sound.Handlers.{same_tables}

module _ (S : Sdk) where
  ruleset steps = (Keeps-bind, Keeps-lift, Keeps-pure, Keeps-raise_if, call-Keeps, path-Keeps)

  read_part-Keeps :
      (fh offset size : ℕ) (got : List ℕ)
      → Keeps (read_part (call S) eoverflow eio fh offset size got)
  unfolding read_part
  read_part-Keeps fh offset size got = search steps

  continue_read-Keeps :
      (got : List ℕ) (go_on : List ℕ → Action (Fs S) Errno (List ℕ)) (part : List ℕ)
      → ((more : List ℕ) → Keeps (go_on more))
      → Keeps (continue_read (call S) eoverflow eio got go_on part)
  continue_read-Keeps got go_on [] h = Keeps-pure got
  continue_read-Keeps got go_on (b ∷ part) h = h (got ++ (b ∷ part))

  read_loop-Keeps :
      (fuel fh offset size : ℕ) (got : List ℕ)
      → Keeps (read_loop (call S) eoverflow eio fuel fh offset size got)
  unfolding read_loop
  read_loop-Keeps zero fh offset size got = Keeps-pure got
  read_loop-Keeps (suc fuel) fh offset size got = elim (Bool-cases (ltb (length got) size)) [
    | inl more ↦
        rw (more, read_loop)
          (Keeps-bind (read_part (call S) eoverflow eio fh offset size got)
            (continue_read (call S) eoverflow eio got
              (read_loop (call S) eoverflow eio fuel fh offset size))
            (read_part-Keeps fh offset size got)
            (λ part.
              continue_read-Keeps got (read_loop (call S) eoverflow eio fuel fh offset size) part
                (read_loop-Keeps fuel fh offset size)))
    | inr done ↦ rw (done, read_loop) (Keeps-pure got)
  ]

  pub read-Keeps : (fh offset size : ℕ) → Keeps (Files.read S fh offset size)
  unfolding Files.read
  read-Keeps fh offset size = read_loop-Keeps size fh offset size []

  pub write_loop-Keeps :
      (fh offset written : ℕ) (parts : List (List ℕ))
      → Keeps (write_loop (call S) eoverflow eio fh offset written parts)
  unfolding write_loop
  write_loop-Keeps fh offset written [] = Keeps-pure written
  write_loop-Keeps fh offset written (part ∷ parts) =
      search (steps, write_loop-Keeps fh offset (written + length part) parts)

  pub write-Keeps : (fh offset : ℕ) (bytes : List ℕ) → Keeps (Files.write S fh offset bytes)
  unfolding Files.write
  write-Keeps fh offset bytes = search (steps, write_loop-Keeps)

  pub release-Keeps : (ino fh : ℕ) → Keeps (Files.release S ino fh)
  unfolding Files.release
  release-Keeps ino fh fs v =
      when_locked-IsSound (λ s. Inodes.release ino (record s { files = Dict.erase fh s.files }))
        (call S (Operation.close fh) fs).1
        (λ s w.
          release-IsSound ino _
            (same_tables s (record s { files = Dict.erase fh s.files }) refl refl refl w))
        (call-Keeps S (Operation.close fh) fs v)

  record_dir-IsSound :
      (ino : ℕ) (p : MountPath) (h : ℕ) (s : State) → IsSound s → IsSound (record_dir ino p h s).1
  unfolding record_dir
  record_dir-IsSound ino p h s v =
      let w = update_node-IsSound ino count_open s (λ n. refl) v in
      bind_cases (λ r. IsSound r.1) (λ _ t. (ok tt, insert_dir h (fresh ino p h) t))
        (update_node ino count_open) s (λ e _. w)
        (λ u _.
          same_tables _ (insert_dir h (fresh ino p h) (update_node ino count_open s).1) refl refl
            refl w)

  pub opendir-Keeps : (ino : ℕ) → Keeps (Directories.opendir S ino)
  unfolding Directories.opendir
  opendir-Keeps ino = search (steps, Keeps-locked, record_dir-IsSound) depth 9

  take_dir-IsSound : (h : ℕ) (s : State) → IsSound s → IsSound (take_dir h s).1
  unfolding take_dir
  take_dir-IsSound h s v = elim (Option-cases (Dict.lookup h s.dirs)) [
    | inl e ↦ rw (e, take_dir) v
    | inr (d, e) ↦
        rw (e, take_dir) (same_tables s (record s { dirs = Dict.erase h s.dirs }) refl refl refl v)
  ]

  finish_dir-Keeps : (d : Directory) → Keeps (finish_dir S d)
  unfolding finish_dir close_dir
  finish_dir-Keeps d fs v =
      let (r, fs') = close_dir S d fs in
      bind_cases (λ x. IsSound x.1.state) (λ _ t. (r, t))
        (locked S (λ s. (ok tt, Inodes.release d.ino s))) fs' (λ e _. released d fs' v)
        (λ u _. released d fs' v)
    where
      released :
          (d : Directory) (fs : Fs S)
          → IsSound fs.state
          → IsSound (locked S (λ s. (ok tt, Inodes.release d.ino s)) fs).1.state
      released d fs v =
          Keeps-locked {S = S} (λ s. (ok tt, Inodes.release d.ino s)) (λ s. release-IsSound d.ino s)
            fs v

  pub releasedir-Keeps : (fh : ℕ) → Keeps (Directories.releasedir S fh)
  unfolding Directories.releasedir close_dir
  releasedir-Keeps fh =
      Keeps-bind (locked S (take_dir fh)) (finish_dir S)
        (Keeps-locked (take_dir fh) (take_dir-IsSound fh)) finish_dir-Keeps

  -- The cursor and the remote are all that a listing changes.
  put_stream-IsSound :
      (fh : ℕ) (fs : Fs S) (t : Stream S) → IsSound fs.state → IsSound (put_stream S fh fs t).state
  put_stream-IsSound fh fs (d, rem) v =
      same_tables fs.state (insert_dir fh d fs.state) refl refl refl v

  module _ (K : ReplyDirectory) where
    abbrev Listed : Option (Directories.Reply S K) → Type 0
    Listed none = Unit {0}
    Listed (some (r, t, b)) = IsSound t.state

    filled-Listed :
        (fh : ℕ) (fs : Fs S) (o : Option (Result Errno (Unit {0}) × Stream S × K.Buffer))
        → IsSound fs.state
        → Listed (filled S K fh fs o)
    filled-Listed fh fs none v = tt
    filled-Listed fh fs (some (r, t, b)) v = put_stream-IsSound fh fs t v

    readdir-Listed :
        (fuel fh offset : ℕ) (fs : Fs S) (b : K.Buffer)
        → IsSound fs.state
        → Listed (Directories.readdir S K fuel fh offset fs b)
    unfolding Directories.readdir
    readdir-Listed fuel fh offset fs b v = elim (Bool-cases fs.poisoned) [
      | inl e ↦ rw (e, Directories.readdir) v
      | inr e ↦
          rw (e, Directories.readdir)
            (elim (Option-cases (Dict.lookup fh fs.state.dirs)) [
              | inl absent ↦ rw (absent, Directories.readdir) v
              | inr (d, found) ↦
                  rw (found, Directories.readdir)
                    (elim (Result-cases (prepare S offset (d, fs.remote)).0) [
                      | inl (x, bad) ↦
                          rw (bad, Directories.readdir)
                            (put_stream-IsSound fh fs (prepare S offset (d, fs.remote)).1 v)
                      | inr (u, good) ↦ rw (good, Directories.readdir) (filled-Listed fh fs _ v)
                    ])
            ])
    ]

  pub readdir-IsSound :
      (K : ReplyDirectory) (fuel fh offset : ℕ) (fs t : Fs S) (b b' : K.Buffer)
      (r : Result Errno (Unit {0}))
      → Directories.readdir S K fuel fh offset fs b ≡ some (r, t, b')
      → IsSound fs.state
      → IsSound t.state
  readdir-IsSound K fuel fh offset fs t b b' r h v =
      subst (Listed K) h (readdir-Listed K fuel fh offset fs b v)
