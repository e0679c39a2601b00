-- ===== src/Windows/Listing/Markers.antt =====
-- src/windows.rs, `read_directory`: a listing that goes on, and one that starts again at a marker.
use shell_canvas_drive_bridg.Base.{
  ℕ, zero, suc, ◌<◌, ◌≡◌, refl, sym, ap, subst, true, false, not, Option, none, some, List, ◌∷◌,
  ◌++◌, String, ok, arith, length, Bool-cases, inl, inr, ◌==◌, string_eq, ◌⊎◌,
}
use shell_canvas_drive_bridg.Sdk.{Sdk, Operation, Value, FsDirectoryEntry, MountPath}
use shell_canvas_drive_bridg.Sdk.Listings.{Lists, list_cases}
use shell_canvas_drive_bridg.Windows.Names.{WideName}
use shell_canvas_drive_bridg.Windows.Contexts.{Context, Directory, Fs, call, path_of, unread}
use shell_canvas_drive_bridg.Windows.Listing.{
  DirBuffer, Stream, Listed, same_name, read_marker, close_stream, open_stream, reopen, position,
  is_seeking, take_entry, list_loop, list_from, read_directory,
}
use shell_canvas_drive_bridg.Windows.Listing.Complete.{
  give, entries_after, At, Gives, next_page_lem, loop_stops, loop_goes, taken, first_left,
  list_loop_lem,
}

-- Where a listing starts.
abbrev pub starting : Option String → List FsDirectoryEntry → List FsDirectoryEntry
starting none es = es
starting (some m) es = entries_after m es

module _ (S : Sdk) (h : ℕ) (I : List FsDirectoryEntry → S.Remote → Type 0) (V : Lists S h I)
    (K : DirBuffer) where
  module _ (m : String) where
    abbrev Found : Option (Listed S K) → List FsDirectoryEntry → Option String → K.Buffer → Type 0
    Found o es last b = Gives S h I V K (some m) o (give K es last b)

    seek_lem :
        (fuel : ℕ) (t : Stream S) (es : List FsDirectoryEntry) (b : K.Buffer)
        → At S h I V t es
        → length es < fuel
        → Found (list_loop S K fuel (some m) true t b) (entries_after m es) t.0.last b
    unfolding take_entry
    seek_lem zero t es b a enough = absurd (omega (arith, enough))
    seek_lem (suc fuel) t es b a enough =
        let (t', filled, kept, at, over) = next_page_lem S h I V t es a in
        elim (list_cases t'.0.pending) [
          | inl none_left ↦
              subst
                (λ l.
                  Found (list_loop S K (suc fuel) (some m) true t b) (entries_after m l) t.0.last b)
                (sym (over none_left))
                (
                  t',
                  loop_stops S h I V K (some m) true t t' b fuel filled
                      (ok (K.finalize_buffer b), t')
                      (ap (λ l. take_entry S K (some m) true l t' b) none_left),
                  kept,
                  subst (At S h I V t') (over none_left) at,
                )
          | inr (e, rest, p) ↦
              let split = first_left S h I V K (some m) t' e rest es at p in
              let shorter : length es ≡ suc (length (rest ++ at.ahead)) = ap length split in
              let u : Stream S = (record t'.0 { pending = rest }, t'.1) in
              let at' = taken S h I V K (some m) t' e rest es t'.0.last at in
              let goes =
                loop_goes S h I V K (some m) true t t' b fuel filled (not (e.name == m)) u b
                  (ap (λ l. take_entry S K (some m) true l t' b) p) in
              subst
                (λ l.
                  Found (list_loop S K (suc fuel) (some m) true t b) (entries_after m l) t.0.last b)
                (sym split)
                (subst (λ o. Found o (entries_after m (e ∷ (rest ++ at.ahead))) t.0.last b)
                  (sym goes)
                  (subst
                    (λ last.
                      Found (list_loop S K fuel (some m) (not (e.name == m)) u b)
                        (entries_after m (e ∷ (rest ++ at.ahead))) last b)
                    kept
                    (went fuel u e (rest ++ at.ahead) b at' (omega (arith, shorter, enough))
                      (seek_lem fuel u (rest ++ at.ahead) b at' (omega (arith, shorter, enough))))))
        ]
      where
        went :
            (fuel : ℕ) (u : Stream S) (e : FsDirectoryEntry) (es : List FsDirectoryEntry)
            (b : K.Buffer)
            → At S h I V u es
            → length es < fuel
            → Found (list_loop S K fuel (some m) true u b) (entries_after m es) u.0.last b
            → Found
                (list_loop S K fuel (some m) (not (e.name == m)) u b)
                (entries_after m (e ∷ es))
                u.0.last
                b
        went fuel u e es b at enough seek = elim (Bool-cases (e.name == m)) [
          | inl here ↦ rw here (list_loop_lem S h I V K (some m) fuel u es b at enough)
          | inr later ↦ rw later seek
        ]

  -- The loop, from the start that the marker asks for.
  started :
      (marker : Option String) (fuel : ℕ) (t : Stream S) (es : List FsDirectoryEntry) (b : K.Buffer)
      → At S h I V t es
      → t.0.last ≡ none
      → length es < fuel
      → Gives S h I V K marker
          (list_from S K fuel marker (ok tt, t) b)
          (give K (starting marker es) none b)
  started none fuel t es b at fresh enough =
      subst (λ last. Gives S h I V K none (list_loop S K fuel none false t b) (give K es last b))
        fresh (list_loop_lem S h I V K none fuel t es b at enough)
  started (some m) fuel t es b at fresh enough =
      let seeks : is_seeking S (some m) t.0 ≡ true =
        ap (λ last. not (same_name (some m) last)) fresh in
      subst
        (λ seeking.
          Gives S h I V K (some m) (list_loop S K fuel (some m) seeking t b)
            (give K (entries_after m es) none b))
        (sym seeks)
        (subst
          (λ last.
            Gives S h I V K (some m) (list_loop S K fuel (some m) true t b)
              (give K (entries_after m es) last b))
          fresh (seek_lem m fuel t es b at enough))

  -- The call goes on where the last one ended.
  continues :
      (fuel : ℕ) (c : Context) (name : WideName) (m : String) (b : K.Buffer) (fs : Fs S)
      → c.directory.handle ≡ some h
      → read_marker (some name) ≡ ok (some m)
      → c.directory.last ≡ some m
      → read_directory S K fuel c (some name) b fs
        ≡ list_loop S K fuel (some m) false (c.directory, fs) b
  unfolding read_directory position
  continues fuel c name m b fs opened read same = ground (arith, opened, read, same)

  -- In a listing under way, a call whose marker is the entry that was handed out last hands out the
  -- next entries, without asking the provider for the listing again: in order, until one does not
  -- fit or its name is refused. The entries left, and the last one, are kept for the next call.
  pub list_continues :
      (fuel : ℕ) (c : Context) (name : WideName) (m : String) (b : K.Buffer) (fs : Fs S)
      (es : List FsDirectoryEntry)
      → At S h I V (c.directory, fs) es
      → read_marker (some name) ≡ ok (some m)
      → c.directory.last ≡ some m
      → length es < fuel
      → Gives S h I V K (some m) (read_directory S K fuel c (some name) b fs) (give K es (some m) b)
  list_continues fuel c name m b fs es at read same enough =
      subst (λ o. Gives S h I V K (some m) o (give K es (some m) b))
        (sym (continues fuel c name m b fs at.opened read same))
        (subst
          (λ last.
            Gives S h I V K (some m) (list_loop S K fuel (some m) false (c.directory, fs) b)
              (give K es last b))
          same (list_loop_lem S h I V K (some m) fuel (c.directory, fs) es b at enough))

  -- The remote stream that is open goes, if there is one.
  abbrev pub Closes : Option ℕ → S.Remote → S.Remote → Type 0
  Closes none r r' = r' ≡ r
  Closes (some k) r r' = (v : Value) × (S.call (Operation.close_directory k) r ≡ (ok v, r'))

  closed :
      (o : Option ℕ) (d : Directory) (fs : Fs S) (r : S.Remote)
      → d.handle ≡ o
      → Closes o fs.remote r
      → close_stream S o (d, fs) ≡ (ok tt, (record d { handle = none }, record fs { remote = r }))
  unfolding close_stream call
  closed none d fs r e same = ground (arith, e, same)
  closed (some k) d fs r e (v, sent) = ground (arith, sent)

  reopened :
      (c : Context) (d : Directory) (fs : Fs S) (p : MountPath) (r r' : S.Remote)
      → path_of S c.tracked fs.handles ≡ ok p
      → Closes d.handle fs.remote r
      → S.call (Operation.open_directory p) r ≡ (ok (Value.handle h), r')
      → reopen S c (d, fs) ≡ (ok tt, (record unread { handle = some h }, record fs { remote = r' }))
  unfolding reopen open_stream call
  reopened c d fs p r r' path closes opens =
      ground (arith, path, opens, closed d.handle d fs r refl closes)

  restarts :
      (fuel : ℕ) (c : Context) (name : Option WideName) (marker : Option String) (b : K.Buffer)
      (fs : Fs S) (t : Stream S)
      → read_marker name ≡ ok marker
      → (c.directory.handle ≡ none) ⊎ (same_name marker c.directory.last ≡ false)
      → reopen S c (c.directory, fs) ≡ (ok tt, t)
      → read_directory S K fuel c name b fs ≡ list_from S K fuel marker (ok tt, t) b
  unfolding read_directory position
  restarts fuel c name marker b fs t read (inl unopened) opened =
      ground (arith, read, unopened, opened)
  restarts fuel c name marker b fs t read (inr differs) opened =
      ground (arith, read, differs, opened)

  -- Take a call with no listing under way, or whose marker is not the entry that was handed out last.
  -- If the path of the context is known, and the provider closes the old stream without an error,
  -- opens the directory and hands out its entries page by page, then the call hands out the entries
  -- after the marker: from the first one if there is no marker, and none if no entry has its name,
  -- until one does not fit or is refused. More rounds than entries are enough.
  pub list_restarts :
      (fuel : ℕ) (c : Context) (name : Option WideName) (marker : Option String) (b : K.Buffer)
      (fs : Fs S) (p : MountPath) (r r' : S.Remote) (es : List FsDirectoryEntry)
      → read_marker name ≡ ok marker
      → (c.directory.handle ≡ none) ⊎ (same_name marker c.directory.last ≡ false)
      → path_of S c.tracked fs.handles ≡ ok p
      → Closes c.directory.handle fs.remote r
      → S.call (Operation.open_directory p) r ≡ (ok (Value.handle h), r')
      → I es r'
      → length es < fuel
      → Gives S h I V K marker
          (read_directory S K fuel c name b fs)
          (give K (starting marker es) none b)
  list_restarts fuel c name marker b fs p r r' es read again path closes opens sends enough =
      let t : Stream S = (record unread { handle = some h }, record fs { remote = r' }) in
      let at : At S h I V t es = record {
        opened = refl;
        ahead = es;
        next = refl;
        sends = sends;
        ended = λ e. ground arith;
      } in
      subst (λ o. Gives S h I V K marker o (give K (starting marker es) none b))
        (sym (
          restarts fuel c name marker b fs t read again
            (reopened c c.directory fs p r r' path closes opens)))
        (started marker fuel t es b at refl enough)
