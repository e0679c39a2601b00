-- ===== src/Probe/Footprint.antt =====
-- src/probe.rs: what the probe touches.
use shell_canvas_drive_bridg.Base.{
  ℕ, String, ◌≡◌, refl, ap, ◌∙◌, false, not, Option, some, [], ◌∷◌, eqb, ok, map_err, lift, pure,
  raise_if, ◌>>=◌, ◌>>◌, bind_cases, list_eq, string_eq, arith, if◌then◌else◌,
}
use shell_canvas_drive_bridg.Sdk.{Sdk, IsLawful, Operation, Value, FsResult, MountPath, root}
use shell_canvas_drive_bridg.Probe.{
  Failure, Probe, ask, ask_refused, is_writable, has_size, as_handle, new_file, make_file,
  round_trip, move_and_close, run,
}
use shell_canvas_drive_bridg.Probe.Phases.{
  Phase, untouched, gone, created, moved, created_by, moved_by, removed_by, test_file, renamed_file,
  next, eqb_refl, Follows, Ends, Runs, Stays, Runs-bind, Stays-bind, Stays-pure, Stays-raise_if,
  ask-Runs, ask-Stays, ask_refused-Stays,
}

module _ (S : Sdk) (I : Phase → S.Remote → Type 0) (follows : Follows S I) where
  -- What uses the handle of the file leaves the file where it is.
  own : (p : Phase) (h : ℕ) (o : Option Phase) → (if eqb h h then some p else o) ≡ some p
  own p h o = rw (eqb_refl h) refl

  capabilities-Stays : Stays S I untouched (ask S Operation.capabilities)
  capabilities-Stays = ask-Stays S I follows untouched Operation.capabilities (λ v. refl)

  opened_handle : (v : Value) → Runs S I (created_by (ok v)) (lift (as_handle v)) created
  unfolding as_handle
  opened_handle (Value.handle h) r i = i
  opened_handle _ r i = (untouched, i)

  make_file-Runs : (p : MountPath) → p ≡ test_file → Runs S I untouched (make_file S p) created
  unfolding make_file list_eq string_eq
  make_file-Runs p e =
      let start : (v : FsResult Value)
          → next untouched (Operation.open_file p new_file) v ≡ some (created_by v) =
        λ v. ap (λ q. next untouched (Operation.open_file q new_file) v) e in
      let open_file : Runs S I untouched
          (ask S (Operation.open_file p new_file) >>= λ v. lift (as_handle v)) created =
        Runs-bind S I untouched (ask S (Operation.open_file p new_file)) (λ v. lift (as_handle v))
          (λ v. created_by (ok v)) created
          (ask-Runs S I follows untouched (Operation.open_file p new_file) created_by start)
          opened_handle in
      Runs-bind S I untouched (ask S Operation.capabilities)
        (λ c.
          raise_if (not (is_writable c)) Failure.grant_required
          >> (ask S (Operation.open_file p new_file) >>= λ v. lift (as_handle v)))
        (λ _. untouched) created capabilities-Stays
        (λ c.
          Runs-bind S I untouched (raise_if (not (is_writable c)) Failure.grant_required)
            (λ _. ask S (Operation.open_file p new_file) >>= λ v. lift (as_handle v))
            (λ _. untouched) created
            (Stays-raise_if S I untouched (not (is_writable c)) Failure.grant_required)
            (λ _. open_file))

  ruleset steps = (Stays-bind, Stays-pure, Stays-raise_if, ask-Stays, ask_refused-Stays)

  round_trip-Stays : (h : ℕ) → Stays S I (created h) (round_trip S h)
  unfolding round_trip
  round_trip-Stays h = search (steps, follows, own) depth 20

  -- What leaves the phase comes before what goes on from it.
  Stays-then :
      {A B : Type 0} (p : Phase) (m : Probe S A) (f : A → Probe S B) (post : B → Phase)
      → Stays S I p m
      → ((a : A) → Runs S I p (f a) post)
      → Runs S I p (m >>= f) post
  Stays-then p m f post k h = Runs-bind S I p m f (λ _. p) post k h

  removed-Runs :
      (h : ℕ) (q : MountPath)
      → q ≡ renamed_file
      → Runs S I (moved h) (ask S (Operation.remove q false) >> pure tt) (λ _. gone)
  unfolding list_eq string_eq
  removed-Runs h q e =
      Runs-bind S I (moved h) (ask S (Operation.remove q false)) (λ _. pure tt) (λ _. gone)
        (λ _. gone)
        (ask-Runs S I follows (moved h) (Operation.remove q false) (removed_by h)
          (λ v. ap (λ x. next (moved h) (Operation.remove x false) v) e))
        (λ _. Stays-pure S I gone tt)

  -- The open file after the rename.
  abbrev closing : ℕ → MountPath → Probe S (Unit {0})
  closing h q = do
    m ← ask S (Operation.file_metadata h)
    raise_if (not (has_size 12 m)) Failure.metadata_differs
    ask S (Operation.close h)
    ask_refused S (Operation.read h 0 1)
    ask S (Operation.remove q false)
    pure tt

  closing-Runs :
      (h : ℕ) (q : MountPath) → q ≡ renamed_file → Runs S I (moved h) (closing h q) (λ _. gone)
  closing-Runs h q e =
      let removes = removed-Runs h q e in
      search (Stays-then, Stays-raise_if, ask-Stays, ask_refused-Stays, follows, own, removes) depth
        20

  move_and_close-Runs :
      (h : ℕ) (p q : MountPath)
      → p ≡ test_file
      → q ≡ renamed_file
      → Runs S I (created h) (move_and_close S h p q) (λ _. gone)
  unfolding move_and_close list_eq string_eq
  move_and_close-Runs h p q a b =
      Runs-bind S I (created h) (ask S (Operation.rename p q false)) (λ _. closing h q)
        (λ _. moved h) (λ _. gone)
        (ask-Runs S I follows (created h) (Operation.rename p q false) (moved_by h) (λ v.
          ap (λ x. next (created h) (Operation.rename x q false) v) a
          ∙ ap (λ x. next (created h) (Operation.rename test_file x false) v) b))
        (λ _. closing-Runs h q b)

  -- `run` from the rename on, and from the new handle on.
  abbrev moved_on : MountPath → ℕ → Probe S (Unit {0})
  moved_on p h =
      lift (map_err Failure.refused (S.child root "renamed.txt")) >>= move_and_close S h p

  abbrev used : MountPath → ℕ → Probe S (Unit {0})
  used p h = round_trip S h >> moved_on p h

  module _ (law : IsLawful S) where
    child_own :
        (n : String) (p : MountPath) → map_err Failure.refused (S.child root n) ≡ ok p → p ≡ n ∷ []
    child_own n p e = law.child_appends root p n (ground (arith, e))

    after_child-Runs :
        {A : Type 0} (at : Phase) (n : String) (f : MountPath → Probe S A) (post : A → Phase)
        → ((p : MountPath) → p ≡ n ∷ [] → Runs S I at (f p) post)
        → Runs S I at (lift (map_err Failure.refused (S.child root n)) >>= f) post
    after_child-Runs at n f post k r i =
        bind_cases (λ x. Ends S I post x.0 x.1) f (lift (map_err Failure.refused (S.child root n)))
          r (λ _ _. (at, i)) (λ p e. k p (child_own n p e) r i)

    used-Runs :
        (p : MountPath) → p ≡ test_file → (h : ℕ) → Runs S I (created h) (used p h) (λ _. gone)
    used-Runs p e h =
        Stays-then (created h) (round_trip S h) (λ _. moved_on p h) (λ _. gone) (round_trip-Stays h)
          (λ _.
            after_child-Runs (created h) "renamed.txt" (move_and_close S h p) (λ _. gone)
              (λ q. move_and_close-Runs h p q e))

    -- The probe touches no entry but its own. It asks for the capabilities, and its other operations
    -- are those that the phases allow: the creation of a new `bridge-test.txt`, operations on the
    -- handle of that, its rename to an unused `renamed.txt`, and the removal of it after the rename
    -- has succeeded. What a provider, whose `child` appends a name, keeps under those from phase to
    -- phase, the probe keeps: it ends in some phase at an error, and with the file removed where it
    -- passes.
    pub run_within : (r : S.Remote) → I untouched r → Ends S I (λ _. gone) (run S r).0 (run S r).1
    unfolding run
    run_within r i =
        after_child-Runs untouched "bridge-test.txt" (λ p. make_file S p >>= used p) (λ _. gone)
          (λ p e.
            Runs-bind S I untouched (make_file S p) (used p) created (λ _. gone)
              (make_file-Runs p e) (used-Runs p e))
          r i
