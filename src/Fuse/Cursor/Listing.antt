-- ===== src/Fuse/Cursor/Listing.antt =====
-- src/fuse.rs, the loop of `readdir`, against the listing of a directory.
use shell_canvas_drive_bridg.Base.{
  ℕ, zero, suc, ◌+◌, ◌-◌, ◌<◌, ◌≤◌, ◌≡◌, refl, sym, ap, ◌∙◌, true, false, not, ◌&&◌, some, List, [],
  ◌∷◌, ◌++◌, arith, ok, leb, if◌then◌else◌, length, drop, drop-add, Bool-cases, inl, inr,
}
use shell_canvas_drive_bridg.Sdk.{Sdk, Operation, FsDirectoryEntry}
use shell_canvas_drive_bridg.Sdk.Listings.{is_empty, Lists, empty_list, list_cases}
use shell_canvas_drive_bridg.Fuse.Attributes.{kind}
use shell_canvas_drive_bridg.Fuse.Inodes.{Directory}
use shell_canvas_drive_bridg.Fuse.Cursor.{Stream, ReplyDirectory, refill, fill, offer, remote_call}

-- The listing from its `k`-th entry on, given to the kernel until its buffer is full.
module _ (K : ReplyDirectory) where
  abbrev pub deliver : ℕ → List FsDirectoryEntry → K.Buffer → K.Buffer
  deliver k [] b = b
  deliver k (e ∷ es) b =
      let (b', full) = K.add (k + 1) (kind e.metadata.kind) e.name b in
      let rest = deliver (k + 1) es b' in if full then b' else rest

  -- The same from `offset` on, where the ones before are passed over.
  abbrev feed : ℕ → ℕ → List FsDirectoryEntry → K.Buffer → K.Buffer
  feed offset k [] b = b
  feed offset k (e ∷ es) b =
      let (b', full) =
        if leb offset k then K.add (k + 1) (kind e.metadata.kind) e.name b else (b, false) in
      let rest = feed offset (k + 1) es b' in if full then b' else rest

  feed-deliver :
      (offset k : ℕ) (es : List FsDirectoryEntry) (b : K.Buffer)
      → offset ≤ k
      → feed offset k es b ≡ deliver k es b
  feed-deliver offset k [] b h = refl
  feed-deliver offset k (e ∷ es) b h =
      let reached : leb offset k ≡ true = ground arith in
      rw reached (
        ap
          (λ rest.
            if (K.add (k + 1) (kind e.metadata.kind) e.name b).1
            then (K.add (k + 1) (kind e.metadata.kind) e.name b).0
            else rest)
          (feed-deliver offset (k + 1) es (K.add (k + 1) (kind e.metadata.kind) e.name b).0
            (omega (arith, h))))

  feed_skip :
      (offset n k : ℕ) (es : List FsDirectoryEntry) (b : K.Buffer)
      → offset ≡ k + n
      → feed offset k es b ≡ deliver offset (drop n es) b
  feed_skip offset zero k es b h =
      feed-deliver offset k es b (omega (arith, h)) ∙ ap (λ j. deliver j es b) (omega (arith, h))
  feed_skip offset (suc n) k [] b h = refl
  feed_skip offset (suc n) k (e ∷ es) b h =
      let early : leb offset k ≡ false = ground arith in
      rw early (feed_skip offset n (k + 1) es b (omega (arith, h)))

module _ (S : Sdk) (h : ℕ) (I : List FsDirectoryEntry → S.Remote → Type 0) (V : Lists S h I)
    (es : List FsDirectoryEntry) where
  -- The cursor stands at its offset in the listing: what is pending comes next, and then what the
  -- stream has still to send.
  pub record At (d : Directory) (r : S.Remote) : Type 0 where
    pub opened : d.remote ≡ some h
    pub ahead : List FsDirectoryEntry
    pub next : drop d.offset es ≡ d.pending ++ ahead
    pub sends : I ahead r
    pub ended : d.eof ≡ true → ahead ≡ []

  refill_lem :
      (d : Directory) (r : S.Remote)
      → At d r
      → (t : Stream S) × (refill S (d, r) ≡ (ok tt, t))
        × (t.0.offset ≡ d.offset)
        × At t.0 t.1
        × (t.0.pending ≡ [] → drop d.offset es ≡ [])
  unfolding refill
  refill_lem d r a = elim (Bool-cases (is_empty d.pending && not d.eof)) [
    | inr ready ↦
        ((d, r), rw (ready, refill) refl, refl, a, λ none_left. a.next ∙ ground (arith, a.ended))
    | inl dry ↦
        let emptied : d.pending ≡ [] = empty_list d.pending (ground arith) in
        let r' = (remote_call S (Operation.read_directory h) r).1 in
        let whole = V.splits a.ahead r a.sends in
        (
          (record d { eof = is_empty (V.page r); pending = d.pending ++ V.page r }, r'),
          ground (arith, a.opened, V.replies a.ahead r a.sends),
          refl,
          record {
            opened = a.opened;
            ahead = V.rest r;
            next = a.next ∙ rw emptied whole;
            sends = V.stays a.ahead r a.sends;
            ended = λ e. V.ends a.ahead r a.sends (empty_list (V.page r) e);
          },
          λ none_left. a.next ∙ rw emptied (whole ∙ ground (arith, V.ends a.ahead r a.sends)),
        )
  ]

  -- One entry handed over, or passed over.
  advanced :
      (d : Directory) (r : S.Remote) (e : FsDirectoryEntry) (rest : List FsDirectoryEntry)
      → d.pending ≡ e ∷ rest
      → At d r
      → At (record d { pending = rest; offset = d.offset + 1 }) r
  advanced d r e rest p a = record {
    opened = a.opened;
    ahead = a.ahead;
    next = drop-add d.offset 1 es ∙ rw a.next (rw p refl);
    sends = a.sends;
    ended = a.ended;
  }

  module _ (K : ReplyDirectory) (offset : ℕ) (fuel : ℕ) (d : Directory) (r : S.Remote)
      (t : Stream S) (b : K.Buffer) (filled : refill S (d, r) ≡ (ok tt, t)) where
    -- The ways a round of the loop goes.
    fill_end : t.0.pending ≡ [] → fill S K (suc fuel) offset (d, r) b ≡ some (ok tt, t, b)
    unfolding fill
    fill_end p = ground (arith, filled, p)

    fill_full :
        (e : FsDirectoryEntry) (rest : List FsDirectoryEntry)
        → t.0.pending ≡ e ∷ rest
        → (offer S K offset e t.0 b).1 ≡ true
        → fill S K (suc fuel) offset (d, r) b ≡ some (ok tt, t, (offer S K offset e t.0 b).0)
    unfolding fill
    fill_full e rest p full = ground (arith, filled, p, full)

    fill_next :
        (e : FsDirectoryEntry) (rest : List FsDirectoryEntry)
        → t.0.pending ≡ e ∷ rest
        → (offer S K offset e t.0 b).1 ≡ false
        → fill S K (suc fuel) offset (d, r) b
          ≡ fill S K fuel offset
              (record t.0 { pending = rest; offset = t.0.offset + 1 }, t.1)
              (offer S K offset e t.0 b).0
    unfolding fill
    fill_next e rest p room = ground (arith, filled, p, room)

  module _ (K : ReplyDirectory) (offset : ℕ) where
    feed_full :
        (u : Directory) (e : FsDirectoryEntry) (l : List FsDirectoryEntry) (b : K.Buffer)
        → (offer S K offset e u b).1 ≡ true
        → (offer S K offset e u b).0 ≡ feed K offset u.offset (e ∷ l) b
    feed_full u e l b full = rw full refl

    feed_next :
        (u : Directory) (e : FsDirectoryEntry) (l : List FsDirectoryEntry) (b : K.Buffer)
        → (offer S K offset e u b).1 ≡ false
        → feed K offset (u.offset + 1) l (offer S K offset e u b).0
          ≡ feed K offset u.offset (e ∷ l) b
    feed_next u e l b room = rw room refl

    fill_lem :
        (fuel : ℕ) (d : Directory) (r : S.Remote) (b : K.Buffer)
        → At d r
        → length (drop d.offset es) < fuel
        → (t : Stream S) × (fill S K fuel offset (d, r) b
            ≡ some (ok tt, t, feed K offset d.offset (drop d.offset es) b))
          × At t.0 t.1
    unfolding advanced
    fill_lem zero d r b a enough = absurd (omega (arith, enough))
    fill_lem (suc fuel) d r b a enough =
        let (t, filled, place, at, last) = refill_lem d r a in
        elim (list_cases t.0.pending) [
          | inl over ↦ (t, fill_end K offset fuel d r t b filled over ∙ rw (last over) refl, at)
          | inr (e, rest, p) ↦
              let now : drop d.offset es ≡ e ∷ (rest ++ at.ahead) =
                ap (λ k. drop k es) (sym place) ∙ at.next ∙ ap (λ l. l ++ at.ahead) p in
              let fed : feed K offset t.0.offset (e ∷ (rest ++ at.ahead)) b
                  ≡ feed K offset d.offset (drop d.offset es) b =
                ap (λ k. feed K offset k (e ∷ (rest ++ at.ahead)) b) place
                ∙ ap (λ l. feed K offset d.offset l b) (sym now) in
              elim (Bool-cases (offer S K offset e t.0 b).1) [
                | inl full ↦ (
                  t,
                  fill_full K offset fuel d r t b filled e rest p full
                      ∙ ap (λ c. some (ok tt, t, c))
                          (feed_full t.0 e (rest ++ at.ahead) b full ∙ fed),
                  at,
                )
                | inr room ↦
                    let u = record t.0 { pending = rest; offset = t.0.offset + 1 } in
                    let at' = advanced t.0 t.1 e rest p at in
                    let left : drop (t.0.offset + 1) es ≡ rest ++ at.ahead = at'.next in
                    let shorter : suc (length (rest ++ at.ahead)) ≡ length (drop d.offset es) =
                      ap length (sym now) in
                    let (t', done, at'') =
                      fill_lem fuel u t.1 (offer S K offset e t.0 b).0 at'
                        (rw left (omega (arith, shorter, enough))) in
                    (
                      t',
                      fill_next K offset fuel d r t b filled e rest p room
                          ∙ done
                          ∙ ap
                              (λ l. some (
                                ok tt,
                                t',
                                feed K offset (t.0.offset + 1) l (offer S K offset e t.0 b).0,
                              ))
                              left
                          ∙ ap (λ c. some (ok tt, t', c))
                              (feed_next t.0 e (rest ++ at.ahead) b room ∙ fed),
                      at'',
                    )
              ]
        ]

    -- What the kernel gets from a cursor that need not be rewound.
    pub fill-deliver :
        (fuel : ℕ) (d : Directory) (r : S.Remote) (b : K.Buffer)
        → At d r
        → d.offset ≤ offset
        → length (drop d.offset es) < fuel
        → (t : Stream S) × (fill S K fuel offset (d, r) b
            ≡ some (ok tt, t, deliver K offset (drop offset es) b))
          × At t.0 t.1
    fill-deliver fuel d r b a reached enough =
        let (t, done, at) = fill_lem fuel d r b a enough in
        let n = offset - d.offset in
        let sum : d.offset + n ≡ offset = omega (arith, reached) in
        (
          t,
          done
              ∙ ap (λ c. some (ok tt, t, c))
                  (feed_skip K offset n d.offset (drop d.offset es) b (sym sum)
                    ∙ ap (λ l. deliver K offset l b)
                        (sym (drop-add d.offset n es) ∙ ap (λ k. drop k es) sum)),
          at,
        )
