-- ===== src/Windows/Listing/Kept.antt =====
-- src/windows.rs, `read_directory`: what its reads and its reopening keep, it
-- keeps.
use shell_canvas_drive_bridg.Base.{
  ℕ, zero, suc, ◌≡◌, refl, ◌++◌, Bool, true, false, Option, some, List, [], ◌∷◌, String, Result,
  Action, arith, ◌>>=◌, bind_cases, lift, inl, inr, Bool-cases, Result-cases,
}
use shell_canvas_drive_bridg.Sdk.Listings.{is_empty}
use shell_canvas_drive_bridg.Sdk.{Sdk, Operation, FsDirectoryEntry}
use shell_canvas_drive_bridg.Windows.Status.{NtStatus}
use shell_canvas_drive_bridg.Windows.Names.{WideName}
use shell_canvas_drive_bridg.Windows.Info.{fill}
use shell_canvas_drive_bridg.Windows.Contexts
use shell_canvas_drive_bridg.Windows.Contexts.{Context, Fs, call, context_path, as_handle, unread}
use shell_canvas_drive_bridg.Windows.Listing.{
  DirBuffer, Stream, read_marker, with_directory, change_directory, reopen, fetch_page, position,
  next_page, is_seeking, Round, hand_out, take_entry, list_round, list_loop, read_directory,
}

module _ (S : Sdk) (Q : Stream S → Type 0)
    (read : (h : ℕ) (d : Contexts.Directory) (fs : Fs S)
      → Q (d, fs)
      → Q (d, (call S (Operation.read_directory h) fs).1))
    (moved : (d e : Contexts.Directory) (fs : Fs S) → d.handle ≡ e.handle → Q (d, fs) → Q (e, fs))
    (reopened : (c : Context) (t : Stream S) → Q t → Q (reopen S c t).1) where
  abbrev Keeps : {A : Type 0} → Action (Stream S) NtStatus A → Type 0
  Keeps m = (t : Stream S) → Q t → Q (m t).1

  Keeps-bind :
      {A B : Type 0} (m : Action (Stream S) NtStatus A) (f : A → Action (Stream S) NtStatus B)
      → Keeps m
      → ((a : A) → Keeps (f a))
      → Keeps (m >>= f)
  Keeps-bind m f k h t q = bind_cases (λ r. Q r.1) f m t (λ e _. k t q) (λ a _. h a (m t).1 (k t q))

  Keeps-lift : {A : Type 0} (r : Result NtStatus A) → Keeps (lift r)
  Keeps-lift r t q = q

  Keeps-read : (h : ℕ) → Keeps (with_directory S (call S (Operation.read_directory h)))
  Keeps-read h (d, fs) q = read h d fs q

  Keeps-filled :
      (es : List FsDirectoryEntry)
      → Keeps (change_directory S (λ d. record d { eof = is_empty es; pending = d.pending ++ es }))
  Keeps-filled es (d, fs) q = moved d _ fs refl q

  ruleset steps = (Keeps-bind, Keeps-lift, Keeps-read, Keeps-filled)

  position-Keeps : (c : Context) (marker : Option String) → Keeps (position S c marker)
  unfolding position
  position-Keeps c marker t q = ground (arith, q, reopened c t q)

  fetch_page-Keeps : (o : Option ℕ) → Keeps (fetch_page S o)
  unfolding fetch_page
  fetch_page-Keeps o = search steps depth 9

  next_page-Keeps : Keeps (next_page S)
  unfolding next_page
  next_page-Keeps t q = ground (arith, q, fetch_page-Keeps t.0.handle t q)

  module _ (K : DirBuffer) where
    -- A round ends the loop with what is kept, or goes on with it.
    abbrev IsCalm : Round S K → Type 0
    IsCalm (Round.stops (r, t)) = Q t
    IsCalm (Round.goes_on s t b) = Q t

    hand_out-IsCalm :
        (entry : FsDirectoryEntry) (rest : List FsDirectoryEntry) (t : Stream S) (b : K.Buffer)
        → Q t
        → IsCalm (hand_out S K entry rest t b)
    unfolding hand_out
    hand_out-IsCalm entry rest (d, fs) b q =
        let taken : Contexts.Directory = record d { pending = rest; last = some entry.name } in
        elim (Result-cases (K.dir_info (fill entry.metadata) entry.name)) [
          | inl (x, bad) ↦ rw (bad, hand_out) q
          | inr (info, good) ↦ elim (Bool-cases (K.append_to_buffer info b).0) [
            | inl fits ↦ rw (good, fits, hand_out) (moved d taken fs refl q)
            | inr full ↦ rw (good, full, hand_out) q
          ]
        ]

    take_entry-IsCalm :
        (marker : Option String) (seeking : Bool) (es : List FsDirectoryEntry) (t : Stream S)
        (b : K.Buffer)
        → Q t
        → IsCalm (take_entry S K marker seeking es t b)
    unfolding take_entry
    take_entry-IsCalm marker seeking [] t b q = q
    take_entry-IsCalm marker true (entry ∷ rest) (d, fs) b q =
        moved d (record d { pending = rest }) fs refl q
    take_entry-IsCalm marker false (entry ∷ rest) t b q = hand_out-IsCalm entry rest t b q

    list_round-IsCalm :
        (marker : Option String) (seeking : Bool) (t : Stream S) (b : K.Buffer)
        → Q t
        → IsCalm (list_round S K marker seeking t b)
    unfolding list_round
    list_round-IsCalm marker seeking t b q =
        let t' = (next_page S t).1 in
        elim (Result-cases (next_page S t).0) [
          | inl (x, bad) ↦ rw (bad, list_round) (next_page-Keeps t q)
          | inr (u, good) ↦
              rw (good, list_round)
                (take_entry-IsCalm marker seeking t'.0.pending t' b (next_page-Keeps t q))
        ]

    list_loop-kept :
        (fuel : ℕ) (marker : Option String) (seeking : Bool) (t : Stream S) (b : K.Buffer)
        (r : Result NtStatus K.Buffer) (t' : Stream S)
        → Q t
        → list_loop S K fuel marker seeking t b ≡ some (r, t')
        → Q t'
    unfolding list_loop
    list_loop-kept zero marker seeking t b r t' q e = absurd (ground (arith, e))
    list_loop-kept (suc fuel) marker seeking t b r t' q e =
        go (list_round S K marker seeking t b) (list_round-IsCalm marker seeking t b q) e
          (λ seeking t b. list_loop-kept fuel marker seeking t b r t')
      where
        go :
            (x : Round S K)
            → IsCalm x
            → elim x [
              | Round.stops l ↦ some l
              | Round.goes_on s u c ↦ list_loop S K fuel marker s u c
            ]
              ≡ some (r, t')
            → ((s : Bool) (u : Stream S) (c : K.Buffer)
                → Q u
                → list_loop S K fuel marker s u c ≡ some (r, t')
                → Q t')
            → Q t'
        go (Round.stops l) calm h more = ground (arith, calm)
        go (Round.goes_on s u c) calm h more = more s u c calm h

    pub read_directory-kept :
        (fuel : ℕ) (c : Context) (marker : Option WideName) (b : K.Buffer) (fs : Fs S)
        (r : Result NtStatus K.Buffer) (d : Contexts.Directory) (fs' : Fs S)
        → Q (c.directory, fs)
        → read_directory S K fuel c marker b fs ≡ some (r, (d, fs'))
        → Q (d, fs')
    unfolding read_directory
    read_directory-kept fuel c marker b fs r d fs' q e = elim (Result-cases (read_marker marker)) [
      | inl (x, bad) ↦ ground (arith, q)
      | inr (m, good) ↦
          let t = (position S c m (c.directory, fs)).1 in
          let q' = position-Keeps c m (c.directory, fs) q in
          elim (Result-cases (position S c m (c.directory, fs)).0) [
            | inl (x, bad) ↦ ground (arith, q')
            | inr (u, done) ↦
                list_loop-kept fuel m (is_seeking S m t.0) t b r (d, fs') q' (ground arith)
          ]
    ]
