-- ===== src/Probe/Phases.antt =====
-- src/probe.rs: the phases that the entry of the probe goes through, and runs from phase to phase.
use shell_canvas_drive_bridg.Base.{
  ℕ, ◌≡◌, sym, subst, Bool, true, false, not, ◌&&◌, Option, none, some, [], ◌∷◌, Result, ok, err,
  map_err, pure, raise_if, ◌>>=◌, bind_cases, list_eq, string_eq, ◌==◌, eqb, if◌then◌else◌, arith,
  Result-cases, inl, inr,
}
use shell_canvas_drive_bridg.Sdk.{Sdk, Operation, Value, FsResult, FsCreate, MountPath}
use shell_canvas_drive_bridg.Probe.{Failure, Probe, ask, ask_refused, must_fail}

abbrev pub test_file : MountPath
test_file = "bridge-test.txt" ∷ []

abbrev pub renamed_file : MountPath
renamed_file = "renamed.txt" ∷ []

abbrev is_create_new : FsCreate → Bool
is_create_new FsCreate.create_new = true
is_create_new _ = false

-- No file yet, a new `bridge-test.txt` under a handle, `renamed.txt` in its place, and none again.
pub data Phase : Type 0 where
  untouched gone : Phase
  created moved : ℕ → Phase

abbrev pub created_by : FsResult Value → Phase
created_by (ok (Value.handle h)) = created h
created_by _ = untouched

abbrev pub moved_by : ℕ → FsResult Value → Phase
moved_by h (ok _) = moved h
moved_by h (err _) = created h

abbrev pub removed_by : ℕ → FsResult Value → Phase
removed_by h (ok _) = gone
removed_by h (err _) = moved h

-- Operations on the open file `h`.
abbrev pub uses : ℕ → Operation → Bool
uses h (Operation.write k offset bytes) = eqb k h
uses h (Operation.read k offset size) = eqb k h
uses h (Operation.flush k) = eqb k h
uses h (Operation.set_file_metadata k changes) = eqb k h
uses h (Operation.file_metadata k) = eqb k h
uses h (Operation.close k) = eqb k h
uses h _ = false

abbrev pub start : Operation → FsResult Value → Option Phase
start Operation.capabilities v = some untouched
start (Operation.open_file p o) v =
    if p == test_file && is_create_new o.create && not o.truncate then some (created_by v) else none
start _ v = none

abbrev pub move : ℕ → Operation → FsResult Value → Option Phase
move h (Operation.rename p q replace) v =
    if p == test_file && q == renamed_file && not replace then some (moved_by h v) else none
move h _ v = none

abbrev pub remove : ℕ → Operation → FsResult Value → Option Phase
remove h (Operation.remove p directory) v =
    if p == renamed_file && not directory then some (removed_by h v) else none
remove h _ v = none

-- The phase after an operation and its reply; `none` says that the operation is out of place.
abbrev pub next : Phase → Operation → FsResult Value → Option Phase
next untouched op v = start op v
next (created h) op v = if uses h op then some (created h) else move h op v
next (moved h) op v = if uses h op then some (moved h) else remove h op v
next gone op v = none

pub eqb_refl : (h : ℕ) → eqb h h ≡ true
eqb_refl h = ground arith

module _ (S : Sdk) (I : Phase → S.Remote → Type 0) where
  -- `I` says of each phase what the provider keeps in it.
  abbrev pub Follows : Type 0
  Follows =
      (p q : Phase) (op : Operation) (r : S.Remote)
      → next p op (S.call op r).0 ≡ some q
      → I p r
      → I q (S.call op r).1

  -- A success ends in the phase of its value, an error in some phase.
  abbrev pub Ends : {A : Type 0} → (A → Phase) → Result Failure A → S.Remote → Type 0
  Ends post (ok a) r = I (post a) r
  Ends post (err e) r = (q : Phase) × I q r

  abbrev pub Runs : {A : Type 0} → Phase → Probe S A → (A → Phase) → Type 0
  Runs p m post = (r : S.Remote) → I p r → Ends post (m r).0 (m r).1

  abbrev pub Stays : {A : Type 0} → Phase → Probe S A → Type 0
  Stays p m = Runs p m (λ _. p)

  pub Runs-bind :
      {A B : Type 0} (p : Phase) (m : Probe S A) (f : A → Probe S B) (mid : A → Phase)
      (post : B → Phase)
      → Runs p m mid
      → ((a : A) → Runs (mid a) (f a) post)
      → Runs p (m >>= f) post
  Runs-bind p m f mid post k h r i =
      bind_cases (λ x. Ends post x.0 x.1) f m r
        (λ e bad. subst (λ v. Ends mid v (m r).1) bad (k r i))
        (λ a good. h a (m r).1 (subst (λ v. Ends mid v (m r).1) good (k r i)))

  pub Stays-bind :
      {A B : Type 0} (p : Phase) (m : Probe S A) (f : A → Probe S B)
      → Stays p m
      → ((a : A) → Stays p (f a))
      → Stays p (m >>= f)
  Stays-bind p m f k h = Runs-bind p m f (λ _. p) (λ _. p) k h

  pub Stays-pure : {A : Type 0} (p : Phase) (a : A) → Stays p (pure a)
  Stays-pure p a r i = i

  pub Stays-raise_if : (p : Phase) (b : Bool) (e : Failure) → Stays p (raise_if b e)
  Stays-raise_if p true e r i = (p, i)
  Stays-raise_if p false e r i = i

  module _ (follows : Follows) where
    pub ask-Runs :
        (p : Phase) (op : Operation) (to : FsResult Value → Phase)
        → ((v : FsResult Value) → next p op v ≡ some (to v))
        → Runs p (ask S op) (λ a. to (ok a))
    unfolding ask
    ask-Runs p op to k r i =
        let (v, r') = S.call op r in
        let there = follows p (to v) op r (k v) i in
        elim (Result-cases v) [
          | inl (e, bad) ↦
              subst (λ x. Ends (λ a. to (ok a)) (map_err Failure.refused x) r') (sym bad)
                (to v, there)
          | inr (a, good) ↦
              subst (λ x. Ends (λ b. to (ok b)) (map_err Failure.refused x) r') (sym good)
                (subst (λ x. I (to x) r') good there)
        ]

    pub ask-Stays :
        (p : Phase) (op : Operation)
        → ((v : FsResult Value) → next p op v ≡ some p)
        → Stays p (ask S op)
    ask-Stays p op k = ask-Runs p op (λ _. p) k

    pub ask_refused-Stays :
        (p : Phase) (op : Operation)
        → ((v : FsResult Value) → next p op v ≡ some p)
        → Stays p (ask_refused S op)
    unfolding ask_refused must_fail
    ask_refused-Stays p op k r i =
        let (v, r') = S.call op r in
        let there = follows p p op r (k v) i in
        elim (Result-cases v) [
          | inl (e, bad) ↦ subst (λ x. Ends (λ _. p) (must_fail x) r') (sym bad) there
          | inr (a, good) ↦ subst (λ x. Ends (λ _. p) (must_fail x) r') (sym good) (p, there)
        ]
