-- ===== src/Windows/Handles/Flush.antt =====
-- src/windows_handles.rs, `OpenHandles::flush`, against a list of the descriptors to flush.
use shell_canvas_drive_bridg.Base.{
  ℕ, ◌≡◌, refl, ◌∙◌, inl, inr, Option, none, some, List, [], ◌∷◌, ok, err, arith, if◌then◌else◌,
  Option-cases, Bool-cases, nat_eq,
}
use shell_canvas_drive_bridg.Base.Dict
use shell_canvas_drive_bridg.Base.Dict.{Dict}
use shell_canvas_drive_bridg.Sdk.{Sdk, FsError, FsResult}
use shell_canvas_drive_bridg.Windows.Handles.{
  OpenHandle, OpenHandles, upgrade, first, flush_loop, or_ok, flush,
}

-- The provider's handle that a flush has to reach, if the descriptor has one.
abbrev pub written : Option OpenHandle → Option ℕ
written none = none
written (some h) = if h.writable then h.file else none

-- The provider's handles that are open for writing.
abbrev pub writers : Dict ℕ OpenHandle → List ℕ → List ℕ
writers live [] = []
writers live (r ∷ refs) = elim (written (Dict.lookup r live)) [
  | none ↦ writers live refs
  | some id ↦ id ∷ writers live refs
]

module _ {R : Type 0} (send : ℕ → R → FsResult (Unit {0}) × R) where
  -- Each handle is flushed once, in order.
  abbrev pub flush_each : List ℕ → R → List (FsResult (Unit {0})) × R
  flush_each [] r = ([], r)
  flush_each (id ∷ ids) r =
      let (v, r') = send id r in let (vs, r'') = flush_each ids r' in (v ∷ vs, r'')

abbrev pub first_error : List (FsResult (Unit {0})) → FsResult (Unit {0})
first_error [] = ok tt
first_error (ok _ ∷ vs) = first_error vs
first_error (err e ∷ vs) = err e

module _ (S : Sdk) (send : ℕ → S.Remote → FsResult (Unit {0}) × S.Remote) where
  abbrev after : Option FsError → List (FsResult (Unit {0})) → FsResult (Unit {0})
  after none vs = first_error vs
  after (some e) vs = err e

  after-first :
      (error : Option FsError) (v : FsResult (Unit {0})) (vs : List (FsResult (Unit {0})))
      → after (first S error v) vs ≡ after error (v ∷ vs)
  after-first none (ok tt) vs = refl
  after-first none (err e) vs = refl
  after-first (some e) v vs = refl

  flush_loop_lem :
      (live : Dict ℕ OpenHandle) (refs : List ℕ) (error : Option FsError) (r : S.Remote)
      → let (error', r') = flush_loop S send (upgrade live refs) error r in
        let (vs, r'') = flush_each send (writers live refs) r in
        (or_ok S error' ≡ after error vs) × (r' ≡ r'')
  unfolding flush_loop upgrade
  flush_loop_lem live [] none r = (refl, refl)
  flush_loop_lem live [] (some e) r = (refl, refl)
  flush_loop_lem live (x ∷ refs) error r = elim (Option-cases (Dict.lookup x live)) [
    | inl gone ↦ rw (gone, upgrade, writers) (flush_loop_lem live refs error r)
    | inr (h, found) ↦ elim (Bool-cases h.writable) [
      | inr reader ↦
          rw (found, reader, flush_loop, upgrade, writers) (flush_loop_lem live refs error r)
      | inl writer ↦ elim (Option-cases h.file) [
        | inl folder ↦
            rw (found, writer, folder, flush_loop, upgrade, writers)
              (flush_loop_lem live refs error r)
        | inr (id, file) ↦
            let (v, r') = send id r in
            let more = flush_loop_lem live refs (first S error v) r' in
            rw (found, writer, file, flush_loop, upgrade, writers)
              (more.0 ∙ after-first error v (flush_each send (writers live refs) r').0, more.1)
      ]
    ]
  ]

  -- A flush of the volume flushes every descriptor that is open for writing, whatever the others
  -- answer, and reports the first error.
  pub flush_lem :
      (t : OpenHandles) (r : S.Remote)
      → let (vs, r') = flush_each send (writers t.live t.refs) r in
        flush S send t r ≡ (first_error vs, r')
  unfolding flush
  flush_lem t r = ground (arith, flush_loop_lem t.live t.refs none r)
