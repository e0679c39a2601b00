-- ===== src/Fuse/Cursor/Rewind.antt =====
-- src/fuse.rs, `Directory::prepare`: the stream before and after.
use shell_canvas_drive_bridg.Base.{
  ℕ, ◌≤◌, ◌≡◌, ◌⊎◌, refl, true, ◌&&◌, some, arith, ok, err, then_result, leb, is_some, Bool-cases,
  Result-cases, inl, inr,
}
use shell_canvas_drive_bridg.Sdk.{Sdk, Operation}
use shell_canvas_drive_bridg.Fuse.Attributes.{Errno}
use shell_canvas_drive_bridg.Fuse.Inodes.{Directory}
use shell_canvas_drive_bridg.Fuse.Session.{as_handle}
use shell_canvas_drive_bridg.Fuse.Cursor.{prepare, open_stream, close_stream, cleared, remote_call}

-- What a successful `prepare` leaves: a stream that can reach the cookie, either the old one as it
-- stood or a new one from its start.
abbrev pub Prepared : ℕ → Directory → Directory → Type 0
Prepared offset d t =
    (is_some t.remote ≡ true)
    × (t.offset ≤ offset)
    × (t.ino ≡ d.ino)
    × (t.path ≡ d.path)
    × ((t ≡ d) ⊎ ((h : ℕ) × (t ≡ record (cleared d) { remote = some h })))

module _ (S : Sdk) where
  open_stream_lem :
      (d : Directory) (r : S.Remote)
      → ((e : Errno) × ((open_stream S (d, r)).0 ≡ err e) × ((open_stream S (d, r)).1.0 ≡ d))
        ⊎ ((h : ℕ) × ((open_stream S (d, r)).0 ≡ ok tt)
            × ((open_stream S (d, r)).1.0 ≡ record d { remote = some h }))
  unfolding open_stream
  open_stream_lem d r =
      elim (Result-cases
        (then_result (remote_call S (Operation.open_directory d.path) r).0 as_handle)) [
          | inl (e, bad) ↦ inl (e, ground (arith, bad), ground (arith, bad))
          | inr (h, good) ↦ inr (h, ground (arith, good), ground (arith, good))
        ]

  prepare_lem :
      (offset : ℕ) (d : Directory) (r : S.Remote)
      → ((prepare S offset (d, r)).0 ≡ ok tt → Prepared offset d (prepare S offset (d, r)).1.0)
        × ((e : Errno)
            → (prepare S offset (d, r)).0 ≡ err e
            → (prepare S offset (d, r)).1.0 ≡ cleared d)
  unfolding prepare
  prepare_lem offset d r = elim (Bool-cases (is_some d.remote && leb d.offset offset)) [
    | inl kept ↦
        rw (kept, prepare)
          (λ _. (ground arith, ground arith, refl, refl, inl refl), λ e h. ground arith)
    | inr rewound ↦ elim (Result-cases (close_stream S d.remote r).0) [
      | inl (e, bad) ↦ rw (rewound, bad, prepare) (λ h. ground arith, λ e h. refl)
      | inr (v, closed) ↦ elim (open_stream_lem (cleared d) (close_stream S d.remote r).1) [
        | inl (e, bad, same) ↦ rw (rewound, closed, prepare) (λ h. ground arith, λ e h. same)
        | inr (h, good, opened) ↦
            rw (rewound, closed, prepare)
              (λ _. rw opened (refl, ground arith, refl, refl, inr (h, refl)), λ e h. ground arith)
      ]
    ]
  ]

  -- After `prepare` succeeds there is a stream that can reach the cookie: the old one unchanged, if
  -- it could, and otherwise a new one at its start with nothing pending.
  pub prepare_ok :
      (offset : ℕ) (d : Directory) (r : S.Remote)
      → (prepare S offset (d, r)).0 ≡ ok tt
      → Prepared offset d (prepare S offset (d, r)).1.0
  prepare_ok offset d r done = (prepare_lem offset d r).0 done

  -- After `prepare` fails the cursor has no stream and nothing pending, and it stands at the start.
  pub prepare_failed :
      (offset : ℕ) (d : Directory) (r : S.Remote) (e : Errno)
      → (prepare S offset (d, r)).0 ≡ err e
      → (prepare S offset (d, r)).1.0 ≡ cleared d
  prepare_failed offset d r e failed = (prepare_lem offset d r).1 e failed

  -- A stream that can reach the cookie is not touched, and no request is sent.
  pub prepare_forward :
      (offset : ℕ) (d : Directory) (r : S.Remote) (h : ℕ)
      → d.remote ≡ some h
      → d.offset ≤ offset
      → prepare S offset (d, r) ≡ (ok tt, (d, r))
  unfolding prepare
  prepare_forward offset d r h opened reached = ground arith
