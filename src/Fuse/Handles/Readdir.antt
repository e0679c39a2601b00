-- ===== src/Fuse/Handles/Readdir.antt =====
-- src/fuse.rs, `readdir`: a rewind closes the old stream before it opens another, and the loop keeps
-- the one that it has.
use shell_canvas_drive_bridg.Base.{
  ℕ, ◌≡◌, ◌≤◌, ◌+◌, zero, suc, refl, sym, subst, not, ◌&&◌, Option, none, some, ◌++◌, Result, ok,
  err, map_err, then_result, Bool-cases, Result-cases, Option-cases, inl, inr, arith, nat_eq, leb,
  is_some,
}
use shell_canvas_drive_bridg.Base.Dict
use shell_canvas_drive_bridg.Base.Dict.{Dict}
use shell_canvas_drive_bridg.Sdk.{Sdk, Operation, Value, FsResult}
use shell_canvas_drive_bridg.Sdk.Listings.{is_empty, list_cases}
use shell_canvas_drive_bridg.Sdk.Handles.{Handles}
use shell_canvas_drive_bridg.Fuse.Attributes.{Errno, errno}
use shell_canvas_drive_bridg.Fuse.Inodes.{Directory}
use shell_canvas_drive_bridg.Fuse.Session.{Fs, as_handle}
use shell_canvas_drive_bridg.Fuse.Cursor.{
  ReplyDirectory, Stream, cleared, close_stream, open_stream, prepare, refill, fill, offer,
  as_entries,
}
use shell_canvas_drive_bridg.Fuse.Directories
use shell_canvas_drive_bridg.Fuse.Directories.{put_stream, filled}
use shell_canvas_drive_bridg.Fuse.Handles.{
  Spare, IsHeld, Holds, new_stream, open_stream-IsHeld, quiet-IsHeld,
}
use shell_canvas_drive_bridg.Fuse.Handles.Cursors.{
  take-IsHeld, put_back-IsHeld, place-IsHeld, replace-IsHeld, close_stream-IsHeld,
}

module _ {S : Sdk} (H : Handles S) (fh : ℕ) (files : Dict ℕ ℕ) (dirs : Dict ℕ Directory) where
  -- The handles, with the cursor of a stream in its place.
  abbrev pub Carries : Stream S → Type 0
  Carries (d, r) = IsHeld H Spare.nothing r files (Dict.insert fh d dirs)

  -- The cursor and the remote after an open, by its reply.
  abbrev reopened : Directory → FsResult Value → S.Remote → Stream S
  reopened d v r = elim (then_result (map_err errno v) as_handle) [
    | err e ↦ (d, r)
    | ok h ↦ (record d { remote = some h }, r)
  ]

  place_reply :
      (d : Directory) (v : FsResult Value) (r : S.Remote)
      → fh ≤ H.issued r
      → IsHeld H (new_stream H v) r files (Dict.erase fh dirs)
      → Carries (reopened d v r)
  place_reply d (err e) r issued v =
      place-IsHeld H dirs fh d issued (λ h e. cc) (λ h e. absurd (cc)) v
  place_reply d (ok (Value.handle k)) r issued v =
      place-IsHeld H dirs fh (record d { remote = some k }) issued (λ h e. cc)
        (λ h e. ground (arith, e)) v
  place_reply d (ok _) r issued v =
      place-IsHeld H dirs fh d issued (λ h e. cc) (λ h e. absurd (cc)) v

  open_stream-Carries :
      (d : Directory) (r : S.Remote)
      → fh ≤ H.issued r
      → IsHeld H Spare.nothing r files (Dict.erase fh dirs)
      → Carries (open_stream S (d, r)).1
  unfolding open_stream
  open_stream-Carries d r issued v =
      let op = Operation.open_directory d.path in
      let (reply, r') = S.call op r in
      let same : (open_stream S (d, r)).1 ≡ reopened d reply r' = ground arith in
      subst Carries (sym same) (
        place_reply d reply r' (omega (arith, issued, H.counted op r))
          (open_stream-IsHeld H v d.path))

  prepare-Carries :
      (offset : ℕ) (d : Directory) (r : S.Remote)
      → Dict.lookup fh dirs ≡ some d
      → IsHeld H Spare.nothing r files dirs
      → Carries (prepare S offset (d, r)).1
  unfolding prepare
  prepare-Carries offset d r found v = elim (Bool-cases (is_some d.remote && leb d.offset offset)) [
    | inl ahead ↦
        let same : (prepare S offset (d, r)).1 ≡ (d, r) = ground (arith, ahead) in
        subst Carries (sym same) (put_back-IsHeld H dirs fh d found v)
    | inr behind ↦
        let r' = (close_stream S d.remote r).1 in
        let issued = ((close_stream-IsHeld H d.remote r v).known fh d found).0 in
        let taken = take-IsHeld H dirs fh d r found v in
        elim (Result-cases (close_stream S d.remote r).0) [
          | inl (e, bad) ↦
              let same : (prepare S offset (d, r)).1 ≡ (cleared d, r') =
                ground (arith, behind, bad) in
              subst Carries (sym same)
                (place-IsHeld H dirs fh (cleared d) issued (λ h x. cc) (λ h x. absurd (cc)) taken)
          | inr (u, good) ↦
              let same : (prepare S offset (d, r)).1 ≡ (open_stream S (cleared d, r')).1 =
                ground (arith, behind, good) in
              subst Carries (sym same) (open_stream-Carries (cleared d) r' issued taken)
        ]
  ]

  refill-Carries : (t : Stream S) → Carries t → Carries (refill S t).1
  unfolding refill
  refill-Carries (d, r) v = elim (Bool-cases (is_empty d.pending && not d.eof)) [
    | inr ahead ↦
        let same : (refill S (d, r)).1 ≡ (d, r) = ground (arith, ahead) in
        subst Carries (sym same) v
    | inl behind ↦ elim (Option-cases d.remote) [
      | inl closed ↦
          let same : (refill S (d, r)).1 ≡ (d, r) = ground (arith, behind, closed) in
          subst Carries (sym same) v
      | inr (h, open_) ↦
          let op = Operation.read_directory h in
          let (reply, r') = S.call op r in
          let asked = quiet-IsHeld H op refl refl v in
          elim (Result-cases (then_result (map_err errno reply) as_entries)) [
            | inl (e, bad) ↦
                let same : (refill S (d, r)).1 ≡ (d, r') = ground (arith, behind, open_, bad) in
                subst Carries (sym same) asked
            | inr (es, good) ↦
                let more = record d { eof = is_empty es; pending = d.pending ++ es } in
                let same : (refill S (d, r)).1 ≡ (more, r') = ground (arith, behind, open_, good) in
                subst Carries (sym same) (replace-IsHeld H dirs fh d more refl asked)
          ]
    ]
  ]

  module _ (K : ReplyDirectory) where
    abbrev Filled : Option (Result Errno (Unit {0}) × Stream S × K.Buffer) → Type 0
    Filled none = Unit {0}
    Filled (some (v, t, b)) = Carries t

    fill-Filled :
        (fuel offset : ℕ) (t : Stream S) (b : K.Buffer)
        → Carries t
        → Filled (fill S K fuel offset t b)
    unfolding fill
    fill-Filled zero offset t b v = tt
    fill-Filled (suc fuel) offset t b v =
        let (d, r) = (refill S t).1 in
        let w : Carries (d, r) = refill-Carries t v in
        elim (Result-cases (refill S t).0) [
          | inl (e, bad) ↦
              let stops : fill S K (suc fuel) offset t b ≡ some (err e, (d, r), b) =
                ground (arith, bad) in
              subst Filled (sym stops) w
          | inr (u, good) ↦ elim (list_cases d.pending) [
            | inl empty ↦
                let ends : fill S K (suc fuel) offset t b ≡ some (ok tt, (d, r), b) =
                  ground (arith, good, empty) in
                subst Filled (sym ends) w
            | inr (entry, rest, at) ↦
                let (b', full) = offer S K offset entry d b in
                let on = record d { pending = rest; offset = d.offset + 1 } in
                elim (Bool-cases full) [
                  | inl stop ↦
                      let ends : fill S K (suc fuel) offset t b ≡ some (ok tt, (d, r), b') =
                        ground (arith, good, at, stop) in
                      subst Filled (sym ends) w
                  | inr go_on ↦
                      let next : fill S K (suc fuel) offset t b ≡ fill S K fuel offset (on, r) b' =
                        ground (arith, good, at, go_on) in
                      subst Filled (sym next)
                        (fill-Filled fuel offset (on, r) b' (replace-IsHeld H dirs fh d on refl w))
                ]
          ]
        ]

module _ {S : Sdk} (H : Handles S) (K : ReplyDirectory) where
  abbrev Listed : Option (Directories.Reply S K) → Type 0
  Listed none = Unit {0}
  Listed (some (r, t, b)) = Holds H Spare.nothing t

  filled-Listed :
      (fh : ℕ) (fs : Fs S) (o : Option (Result Errno (Unit {0}) × Stream S × K.Buffer))
      → Filled H fh fs.state.files fs.state.dirs K o
      → Listed (filled S K fh fs o)
  filled-Listed fh fs none v = tt
  filled-Listed fh fs (some (r, t, b)) v = v

  readdir-Listed :
      (fuel fh offset : ℕ) (fs : Fs S) (b : K.Buffer)
      → Holds H Spare.nothing fs
      → Listed (Directories.readdir S K fuel fh offset fs b)
  unfolding Directories.readdir
  readdir-Listed fuel fh offset fs b v = elim (Bool-cases fs.poisoned) [
    | inl e ↦ rw (e, Directories.readdir) v
    | inr e ↦
        rw (e, Directories.readdir)
          (elim (Option-cases (Dict.lookup fh fs.state.dirs)) [
            | inl absent ↦ rw (absent, Directories.readdir) v
            | inr (d, found) ↦
                let w =
                  prepare-Carries H fh fs.state.files fs.state.dirs offset d fs.remote found v in
                rw (found, Directories.readdir)
                  (elim (Result-cases (prepare S offset (d, fs.remote)).0) [
                    | inl (x, bad) ↦ rw (bad, Directories.readdir) w
                    | inr (u, good) ↦
                        rw (good, Directories.readdir)
                          (filled-Listed fh fs _ (
                            fill-Filled H fh fs.state.files fs.state.dirs K fuel offset
                              (prepare S offset (d, fs.remote)).1 b w))
                  ])
          ])
  ]

  pub readdir-Holds :
      (fuel fh offset : ℕ) (fs t : Fs S) (b b' : K.Buffer) (r : Result Errno (Unit {0}))
      → Directories.readdir S K fuel fh offset fs b ≡ some (r, t, b')
      → Holds H Spare.nothing fs
      → Holds H Spare.nothing t
  readdir-Holds fuel fh offset fs t b b' r h v =
      subst Listed h (readdir-Listed fuel fh offset fs b v)
