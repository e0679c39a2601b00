-- ===== src/Windows/Listing/Complete.antt =====
-- src/windows.rs, `read_directory`, against the listing of a directory.
use shell_canvas_drive_bridg.Base.{
  ℕ, zero, suc, ◌<◌, ◌≡◌, refl, sym, ap, subst, ◌∙◌, Bool, true, false, not, ◌&&◌, Option, some,
  List, [], ◌∷◌, ◌++◌, String, Result, ok, err, arith, length, Bool-cases, Result-cases, inl, inr,
  ◌==◌, if◌then◌else◌, string_eq,
}
use shell_canvas_drive_bridg.Sdk.{Sdk, Operation, FsDirectoryEntry}
use shell_canvas_drive_bridg.Sdk.Listings.{is_empty, Lists, empty_list, list_cases}
use shell_canvas_drive_bridg.Windows.Status.{NtStatus}
use shell_canvas_drive_bridg.Windows.Info.{fill}
use shell_canvas_drive_bridg.Windows.Contexts.{Fs, call}
use shell_canvas_drive_bridg.Windows.Listing.{
  DirBuffer, Stream, Listed, Round, fetch_page, next_page, hand_out, take_entry, list_round,
  list_loop,
}

-- What is put into the buffer: entries in order, until one does not fit or its name is refused.
-- Then the name of the last one that is in, and the entries that are left.
module _ (K : DirBuffer) where
  pub record Given : Type 0 where
    pub reply : Result NtStatus K.Buffer
    pub last : Option String
    pub left : List FsDirectoryEntry

  abbrev pub give : List FsDirectoryEntry → Option String → K.Buffer → Given
  give [] last b = record { reply = ok (K.finalize_buffer b); last = last; left = [] }
  give (e ∷ es) last b = elim (K.dir_info (fill e.metadata) e.name) [
    | err x ↦ record { reply = err x; last = last; left = e ∷ es }
    | ok info ↦
        let (fits, b') = K.append_to_buffer info b in
        let rest = give es (some e.name) b' in
        elim fits [ true ↦ rest | false ↦ record { reply = ok b'; last = last; left = e ∷ es } ]
  ]

-- The entries after the one with a name; none, if there is no such entry.
abbrev pub entries_after : String → List FsDirectoryEntry → List FsDirectoryEntry
entries_after m [] = []
entries_after m (e ∷ es) = let rest = entries_after m es in if e.name == m then es else rest

module _ (S : Sdk) (h : ℕ) (I : List FsDirectoryEntry → S.Remote → Type 0) (V : Lists S h I) where
  -- The entries `es` are still to be handed out: the pending ones, and then what the provider has
  -- still to send.
  pub record At (t : Stream S) (es : List FsDirectoryEntry) : Type 0 where
    pub opened : t.0.handle ≡ some h
    pub ahead : List FsDirectoryEntry
    pub next : es ≡ t.0.pending ++ ahead
    pub sends : I ahead t.1.remote
    pub ended : t.0.eof ≡ true → ahead ≡ []

  fetched : Fs S → Stream S → Stream S
  fetched fs (d, _) = (
    record d { eof = is_empty (V.page fs.remote); pending = d.pending ++ V.page fs.remote },
    record fs { remote = (S.call (Operation.read_directory h) fs.remote).1 },
  )

  fetch_page_lem :
      (t : Stream S) (es : List FsDirectoryEntry)
      → At t es
      → fetch_page S t.0.handle t ≡ (ok tt, fetched t.1 t)
  unfolding fetch_page call fetched
  fetch_page_lem t es a = ground (arith, a.opened, V.replies a.ahead t.1.remote a.sends)

  pub next_page_lem :
      (t : Stream S) (es : List FsDirectoryEntry)
      → At t es
      → (t' : Stream S) × (next_page S t ≡ (ok tt, t'))
        × (t'.0.last ≡ t.0.last)
        × At t' es
        × (t'.0.pending ≡ [] → es ≡ [])
  unfolding next_page fetched
  next_page_lem t es a = elim (Bool-cases (is_empty t.0.pending && not t.0.eof)) [
    | inr ready ↦
        (t, rw (ready, next_page) refl, refl, a, λ none_left. a.next ∙ ground (arith, a.ended))
    | inl dry ↦
        let emptied : t.0.pending ≡ [] = empty_list t.0.pending (ground arith) in
        let whole = V.splits a.ahead t.1.remote a.sends in
        let page = V.page t.1.remote in
        (
          fetched t.1 t,
          rw (dry, next_page) (fetch_page_lem t es a),
          refl,
          record {
            opened = a.opened;
            ahead = V.rest t.1.remote;
            next = a.next ∙ rw emptied whole;
            sends = V.stays a.ahead t.1.remote a.sends;
            ended = λ e. V.ends a.ahead t.1.remote a.sends (empty_list page e);
          },
          λ none_left.
              a.next ∙ rw emptied (whole ∙ ground (arith, V.ends a.ahead t.1.remote a.sends)),
        )
  ]

  module _ (K : DirBuffer) (marker : Option String) where
    -- The ways a round goes, once the next page is there.
    module _ (seeking : Bool) (t t' : Stream S) (b : K.Buffer) (fuel : ℕ)
        (filled : next_page S t ≡ (ok tt, t')) where
      round_lem :
          list_round S K marker seeking t b ≡ take_entry S K marker seeking t'.0.pending t' b
      unfolding list_round
      round_lem = ground (arith, filled)

      pub loop_stops :
          (l : Listed S K)
          → take_entry S K marker seeking t'.0.pending t' b ≡ Round.stops l
          → list_loop S K (suc fuel) marker seeking t b ≡ some l
      unfolding list_loop
      loop_stops l e = rw (round_lem, e, list_loop) refl

      pub loop_goes :
          (s : Bool) (u : Stream S) (c : K.Buffer)
          → take_entry S K marker seeking t'.0.pending t' b ≡ Round.goes_on s u c
          → list_loop S K (suc fuel) marker seeking t b ≡ list_loop S K fuel marker s u c
      unfolding list_loop
      loop_goes s u c e = rw (round_lem, e, list_loop) refl

    -- The loop has given out what `g` says.
    abbrev pub Gives : Option (Listed S K) → Given K → Type 0
    Gives o g = (t : Stream S) × (o ≡ some (g.reply, t)) × (t.0.last ≡ g.last) × At t g.left

    -- An entry is taken off the pending ones.
    pub taken :
        (t : Stream S) (e : FsDirectoryEntry) (rest es : List FsDirectoryEntry)
        (last : Option String) (a : At t es)
        → At (record t.0 { pending = rest; last = last }, t.1) (rest ++ a.ahead)
    taken t e rest es last a = record {
      opened = a.opened;
      ahead = a.ahead;
      next = refl;
      sends = a.sends;
      ended = a.ended;
    }

    -- What is left of the entries, by the pending ones.
    pub first_left :
        (t : Stream S) (e : FsDirectoryEntry) (rest es : List FsDirectoryEntry) (a : At t es)
        → t.0.pending ≡ e ∷ rest
        → es ≡ e ∷ (rest ++ a.ahead)
    first_left t e rest es a p = a.next ∙ ap (λ l. l ++ a.ahead) p

    -- An entry at the front: refused, not fitting, or handed out.
    given :
        (fuel : ℕ) (t t' u : Stream S) (b : K.Buffer) (e : FsDirectoryEntry)
        (rest es : List FsDirectoryEntry)
        → next_page S t ≡ (ok tt, t')
        → t'.0.pending ≡ e ∷ rest
        → t'.0.last ≡ t.0.last
        → At t' (e ∷ es)
        → u ≡ (record t'.0 { pending = rest; last = some e.name }, t'.1)
        → ((c : K.Buffer) → Gives (list_loop S K fuel marker false u c) (give K es (some e.name) c))
        → Gives (list_loop S K (suc fuel) marker false t b) (give K (e ∷ es) t.0.last b)
    unfolding take_entry hand_out
    given fuel t t' u b e rest es filled p kept at same more =
        let front : take_entry S K marker false t'.0.pending t' b ≡ hand_out S K e rest t' b =
          ap (λ l. take_entry S K marker false l t' b) p in
        elim (Result-cases (K.dir_info (fill e.metadata) e.name)) [
          | inl (x, bad) ↦
              rw (bad, give)
                (
                  t',
                  loop_stops false t t' b fuel filled (err x, t') (front ∙ rw (bad, hand_out) refl),
                  kept,
                  at,
                )
          | inr (info, good) ↦
              let c = (K.append_to_buffer info b).1 in
              elim (Bool-cases (K.append_to_buffer info b).0) [
                | inr full ↦
                    rw (good, full, give)
                      (
                        t',
                        loop_stops false t t' b fuel filled (ok c, t')
                            (front ∙ rw (good, full, hand_out) refl),
                        kept,
                        at,
                      )
                | inl fits ↦
                    rw (good, fits, give)
                      (subst (λ o. Gives o (give K es (some e.name) c))
                        (sym (
                          loop_goes false t t' b fuel filled false u c
                            (front ∙ rw (good, fits, hand_out, same) refl)))
                        (more c))
              ]
        ]

    pub list_loop_lem :
        (fuel : ℕ) (t : Stream S) (es : List FsDirectoryEntry) (b : K.Buffer)
        → At t es
        → length es < fuel
        → Gives (list_loop S K fuel marker false t b) (give K es t.0.last b)
    unfolding take_entry
    list_loop_lem zero t es b a enough = absurd (omega (arith, enough))
    list_loop_lem (suc fuel) t es b a enough =
        let (t', filled, kept, at, over) = next_page_lem t es a in
        elim (list_cases t'.0.pending) [
          | inl none_left ↦
              subst (λ l. Gives (list_loop S K (suc fuel) marker false t b) (give K l t.0.last b))
                (sym (over none_left))
                (
                  t',
                  loop_stops false t t' b fuel filled (ok (K.finalize_buffer b), t')
                      (ap (λ l. take_entry S K marker false l t' b) none_left),
                  kept,
                  subst (At t') (over none_left) at,
                )
          | inr (e, rest, p) ↦
              let split = first_left t' e rest es at p in
              let shorter : length es ≡ suc (length (rest ++ at.ahead)) = ap length split in
              let u : Stream S = (record t'.0 { pending = rest; last = some e.name }, t'.1) in
              subst (λ l. Gives (list_loop S K (suc fuel) marker false t b) (give K l t.0.last b))
                (sym split)
                (given fuel t t' u b e rest (rest ++ at.ahead) filled p kept
                  (subst (At t') split at) refl
                  (λ c.
                    list_loop_lem fuel u (rest ++ at.ahead) c (taken t' e rest es (some e.name) at)
                      (omega (arith, shorter, enough))))
        ]
