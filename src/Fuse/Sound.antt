-- ===== src/Fuse/Sound.antt =====
-- src/fuse.rs: the consistency of the tables through the steps that handlers are made of.
pub mod Handlers
pub mod Streams
pub mod Session
use shell_canvas_drive_bridg.Base.{
  ℕ, ◌≡◌, ◌≢◌, refl, Bool, true, false, Option, Result, Result-cases, none, some, List, [], ◌∷◌,
  ◌++◌, String, ok, err, map_err, ok_or, Action, pure, lift, gets, raise_if, ◌>>=◌, ◌>>◌,
  bind_cases, Bool-cases, inl, inr, arith, nat_eq, if◌then◌else◌,
}
use shell_canvas_drive_bridg.Base.Dict
use shell_canvas_drive_bridg.Sdk.{
  Sdk, FsMetadata, IsLawful, Operation, MountPath, root, FsOpenOptions,
}
use shell_canvas_drive_bridg.Fuse.Attributes.{Errno, errno, eilseq}
use shell_canvas_drive_bridg.Fuse.Inodes
use shell_canvas_drive_bridg.Fuse.Inodes.{State, retire_path, update_node, count_open}
use shell_canvas_drive_bridg.Fuse.Inodes.Invariant.{
  IsSound, lookup-IsSound, retire_path-IsSound, release-IsSound, forget-IsSound,
  update_node-IsSound,
}
use shell_canvas_drive_bridg.Fuse.Session.{
  as_attr, Fs, OsName, locked, when_locked, call, path, path_of, child, metadata,
  metadata_operation, open_handle, lookup_path, open_file, remove, record_open, as_handle,
  as_metadata,
}

module _ {S : Sdk} where
  abbrev pub Keeps : {A : Type 0} → Action (Fs S) Errno A → Type 0
  Keeps m = (fs : Fs S) → IsSound fs.state → IsSound (m fs).1.state

  pub Keeps-bind :
      {A B : Type 0} (m : Action (Fs S) Errno A) (f : A → Action (Fs S) Errno B)
      → Keeps m
      → ((a : A) → Keeps (f a))
      → Keeps (m >>= f)
  Keeps-bind m f k h fs v =
      bind_cases (λ r. IsSound r.1.state) f m fs (λ e _. k fs v) (λ a _. h a (m fs).1 (k fs v))

  -- The rest may use that the step has succeeded.
  pub Keeps-bind_ok :
      {A B : Type 0} (m : Action (Fs S) Errno A) (f : A → Action (Fs S) Errno B)
      → Keeps m
      → ((a : A) (fs : Fs S) → (m fs).0 ≡ ok a → Keeps (f a))
      → Keeps (m >>= f)
  Keeps-bind_ok m f k h fs v =
      bind_cases (λ r. IsSound r.1.state) f m fs (λ e _. k fs v) (λ a e. h a fs e (m fs).1 (k fs v))

  pub Keeps-lift : {A : Type 0} (r : Result Errno A) → Keeps (lift r)
  Keeps-lift r fs v = v

  pub Keeps-pure : {A : Type 0} (a : A) → Keeps (pure a)
  Keeps-pure a fs v = v

  pub Keeps-as_attr : (ino : ℕ) (m : FsMetadata) → Keeps (as_attr S ino m)
  Keeps-as_attr ino m fs v = v

  pub Keeps-gets : {A : Type 0} (f : Fs S → A) → Keeps (gets f)
  Keeps-gets f fs v = v

  pub Keeps-raise_if : (b : Bool) (e : Errno) → Keeps (raise_if b e)
  Keeps-raise_if b e fs v = v

  pub Keeps-locked :
      {A : Type 0} (m : Action State Errno A)
      → ((s : State) → IsSound s → IsSound (m s).1)
      → Keeps (locked S m)
  Keeps-locked m h fs v = elim (Bool-cases fs.poisoned) [
    | inl e ↦ rw e v
    | inr e ↦ rw e (h fs.state v)
  ]

  pub when_locked-IsSound :
      (f : State → State) (fs : Fs S)
      → ((s : State) → IsSound s → IsSound (f s))
      → IsSound fs.state
      → IsSound (when_locked S f fs).state
  when_locked-IsSound f fs h v = elim (Bool-cases fs.poisoned) [
    | inl e ↦ rw e v
    | inr e ↦ rw e (h fs.state v)
  ]

module _ (S : Sdk) where
  pub call-Keeps : (op : Operation) → Keeps (call S op)
  unfolding call
  call-Keeps op fs v = v

  pub path-Keeps : (ino : ℕ) → Keeps (path S ino)
  unfolding path
  path-Keeps ino = Keeps-locked (path_of ino) (λ s v. v)

  pub child-Keeps : (ino : ℕ) (name : OsName) → Keeps (child S ino name)
  unfolding child
  child-Keeps ino name = search (path-Keeps, Keeps-bind, Keeps-lift)

  metadata_operation-Keeps : (ino : ℕ) (h : Option ℕ) → Keeps (metadata_operation S ino h)
  unfolding metadata_operation
  metadata_operation-Keeps ino (some h) = Keeps-pure (Operation.file_metadata h)
  metadata_operation-Keeps ino none = search (path-Keeps, Keeps-bind, Keeps-pure)

  pub metadata-Keeps : (ino : ℕ) (h : Option ℕ) → Keeps (metadata S ino h)
  unfolding metadata
  metadata-Keeps ino h =
      search
        (metadata_operation-Keeps, call-Keeps, Keeps-bind, Keeps-lift, Keeps-gets, Keeps-as_attr)
        depth 8

  pub lookup_path-Keeps : (p : MountPath) → Keeps (lookup_path S p)
  unfolding lookup_path
  lookup_path-Keeps p =
      search
        (
          call-Keeps,
          Keeps-bind,
          Keeps-lift,
          Keeps-gets,
          Keeps-as_attr,
          Keeps-locked,
          λ (s : State) (v : IsSound s). lookup-IsSound p s v,
        )
        depth 8

  record_open-IsSound :
      (handle ino : ℕ) (s : State) → IsSound s → IsSound (record_open handle ino s).1
  unfolding record_open
  record_open-IsSound handle ino s v =
      update_node-IsSound ino count_open _ (λ n. refl)
        (record {
          named = v.named;
          bounded = v.bounded;
          rooted = v.rooted;
          distinct = v.distinct;
          root_only = v.root_only;
        })

  pub record_open-Keeps : (handle ino : ℕ) → Keeps (locked S (record_open handle ino))
  record_open-Keeps handle ino = Keeps-locked _ (record_open-IsSound handle ino)

  pub open_file-Keeps : (ino : ℕ) (p : MountPath) (o : FsOpenOptions) → Keeps (open_file S ino p o)
  unfolding open_file
  open_file-Keeps ino p o =
      search (call-Keeps, record_open-Keeps, Keeps-bind, Keeps-lift, Keeps-pure) depth 8

append-ne-root : (p : MountPath) (n : String) → p ++ (n ∷ []) ≢ root
append-ne-root [] n h = cc
append-ne-root (m ∷ p) n h = cc

module _ (S : Sdk) (L : IsLawful S) where
  named_child-ne-root :
      (q p : MountPath) (name : OsName) (fs : Fs S)
      → ((lift (ok_or name eilseq) >>= λ n. lift (map_err errno (S.child q n))) fs).0 ≡ ok p
      → p ≢ root
  named_child-ne-root q p none fs h = cc
  named_child-ne-root q p (some n) fs h = elim (Result-cases (S.child q n)) [
    | inl (e, c) ↦ ground arith
    | inr (t, c) ↦ ground (arith, L.child_appends q t n c, append-ne-root q n)
  ]

  -- The path of a child is not the root.
  pub child-ne-root :
      (ino : ℕ) (name : OsName) (fs : Fs S) (p : MountPath)
      → (child S ino name fs).0 ≡ ok p
      → p ≢ root
  unfolding child
  child-ne-root ino name fs p =
      bind_cases (λ r. r.0 ≡ ok p → p ≢ root)
        (λ q. lift (ok_or name eilseq) >>= λ n. lift (map_err errno (S.child q n))) (path S ino) fs
        (λ e _ h. cc) (λ q _. named_child-ne-root q p name _)

  remove_rest-Keeps :
      (p : MountPath) (directory : Bool)
      → p ≢ root
      → Keeps (call S (Operation.remove p directory) >> locked S (λ s. (ok tt, retire_path p s)))
  remove_rest-Keeps p directory ne =
      Keeps-bind (call S (Operation.remove p directory))
        (λ _. locked S (λ s. (ok tt, retire_path p s))) (call-Keeps S _)
        (λ _. Keeps-locked (λ s. (ok tt, retire_path p s)) (λ s v. retire_path-IsSound p s ne v))

  pub remove-Keeps :
      (ino : ℕ) (name : OsName) (directory : Bool) → Keeps (remove S ino name directory)
  unfolding remove
  remove-Keeps ino name directory =
      Keeps-bind_ok (child S ino name)
        (λ p. call S (Operation.remove p directory) >> locked S (λ s. (ok tt, retire_path p s)))
        (child-Keeps S ino name)
        (λ p fs e. remove_rest-Keeps p directory (child-ne-root ino name fs p e))
