-- ===== src/Fuse/Handles/Steps.antt =====
-- src/fuse.rs: the handles through the steps that handlers are made of.
use shell_canvas_drive_bridg.Base.{
  ℕ, ◌≡◌, refl, sym, ap, ◌∙◌, Bool, false, Option, none, some, Result, ok, Action, pure, lift, gets,
  raise_if, ◌>>=◌, bind_cases, Bool-cases, inl, inr, arith, nat_eq, string_eq, list_eq,
}
use shell_canvas_drive_bridg.Base.Dict
use shell_canvas_drive_bridg.Base.Dict.{Dict}
use shell_canvas_drive_bridg.Sdk.{Sdk, FsMetadata, Operation, MountPath}
use shell_canvas_drive_bridg.Sdk.Handles.{Handles, opens_file, opens_stream}
use shell_canvas_drive_bridg.Fuse.Attributes.{FileAttr, Errno}
use shell_canvas_drive_bridg.Fuse.Inodes
use shell_canvas_drive_bridg.Fuse.Inodes.{
  State, Node, Directory, update_node, collect, modify_node, register, retire_path,
}
use shell_canvas_drive_bridg.Fuse.Session.{
  as_attr, Fs, OsName, locked, when_locked, call, path, path_of, child, metadata,
  metadata_operation, lookup_path, remove, open_handle, as_metadata,
}
use shell_canvas_drive_bridg.Fuse.Handles.{Spare, IsHeld, Holds, quiet-IsHeld}

abbrev pub IsQuiet : Operation → Type 0
IsQuiet op = (opens_file op ≡ false) × (opens_stream op ≡ false)

-- What an update of the tables may do: the cursors keep their places and their streams.
pub record SameHandles (s t : State) : Type 0 where
  pub files : t.files ≡ s.files
  pub streams :
      (k : ℕ) (d : Directory)
      → Dict.lookup k s.dirs ≡ some d
      → (e : Directory) × (Dict.lookup k t.dirs ≡ some e) × (e.remote ≡ d.remote)
  pub keys :
      (k : ℕ) (e : Directory)
      → Dict.lookup k t.dirs ≡ some e
      → (d : Directory) × (Dict.lookup k s.dirs ≡ some d)

pub untouched : (s t : State) → t.files ≡ s.files → t.dirs ≡ s.dirs → SameHandles s t
untouched s t f g = record {
  files = f;
  streams = λ k d e. (d, ap (Dict.lookup k) g ∙ e, refl);
  keys = λ k d e. (d, ap (Dict.lookup k) (sym g) ∙ e);
}

pub SameHandles-trans : {s t u : State} → SameHandles s t → SameHandles t u → SameHandles s u
SameHandles-trans a b = record {
  files = b.files ∙ a.files;
  streams =
      λ k d at. let m = a.streams k d at in let n = b.streams k m.0 m.1 in (n.0, n.1, n.2 ∙ m.2);
  keys = λ k e at. let m = b.keys k e at in a.keys k m.0 m.1;
}

register-SameHandles : (p : MountPath) (s : State) → SameHandles s (register p s).1
unfolding register
register-SameHandles p s = untouched s (register p s).1 (ground arith) (ground arith)

pub update_node-SameHandles :
    (id : ℕ) (f : Node → Node) (s : State) → SameHandles s (update_node id f s).1
unfolding update_node
update_node-SameHandles id f s = untouched s (update_node id f s).1 (ground arith) (ground arith)

pub lookup-SameHandles : (p : MountPath) (s : State) → SameHandles s (Inodes.lookup p s).1
unfolding Inodes.lookup register update_node
lookup-SameHandles p s = untouched s (Inodes.lookup p s).1 (ground arith) (ground arith)

pub retire_path-SameHandles : (p : MountPath) (s : State) → SameHandles s (retire_path p s)
unfolding retire_path collect modify_node
retire_path-SameHandles p s = untouched s (retire_path p s) (ground arith) (ground arith)

pub forget-SameHandles : (id n : ℕ) (s : State) → SameHandles s (Inodes.forget id n s)
unfolding Inodes.forget collect modify_node
forget-SameHandles id n s = untouched s (Inodes.forget id n s) (ground arith) (ground arith)

pub release-SameHandles : (id : ℕ) (s : State) → SameHandles s (Inodes.release id s)
unfolding Inodes.release collect modify_node
release-SameHandles id s = untouched s (Inodes.release id s) (ground arith) (ground arith)

module _ {S : Sdk} (H : Handles S) (o : Spare) where
  pub same-IsHeld :
      {r : S.Remote} (s t : State)
      → SameHandles s t
      → IsHeld H o r s.files s.dirs
      → IsHeld H o r t.files t.dirs
  same-IsHeld s t m v = record {
    in_files = λ h k. elim (v.in_files h k) [
      | inl spare ↦ inl spare
      | inr (ino, e) ↦ inr (ino, ap (Dict.lookup h) m.files ∙ e)
    ];
    in_dirs = λ h k. elim (v.in_dirs h k) [
      | inl spare ↦ inl spare
      | inr (j, d, at, is) ↦ let kept = m.streams j d at in inr (j, kept.0, kept.1, kept.2 ∙ is)
    ];
    known = λ k e at. let old = m.keys k e at in v.known k old.0 old.1;
  }

  abbrev pub Keeps : {A : Type 0} → Action (Fs S) Errno A → Type 0
  Keeps m = (fs : Fs S) → Holds H o fs → Holds H o (m fs).1

  pub Keeps-bind :
      {A B : Type 0} (m : Action (Fs S) Errno A) (f : A → Action (Fs S) Errno B)
      → Keeps m
      → ((a : A) → Keeps (f a))
      → Keeps (m >>= f)
  Keeps-bind m f k h fs v =
      bind_cases (λ r. Holds H o r.1) f m fs (λ e _. k fs v) (λ a _. h a (m fs).1 (k fs v))

  -- The rest may use what is known of the value.
  pub Keeps-bind_if :
      {A B : Type 0} (Q : A → Type 0) (m : Action (Fs S) Errno A) (f : A → Action (Fs S) Errno B)
      → Keeps m
      → ((fs : Fs S) (a : A) → (m fs).0 ≡ ok a → Q a)
      → ((a : A) → Q a → Keeps (f a))
      → Keeps (m >>= f)
  Keeps-bind_if Q m f k q h fs v =
      bind_cases (λ r. Holds H o r.1) f m fs (λ e _. k fs v)
        (λ a e. h a (q fs a e) (m fs).1 (k fs v))

  pub Keeps-lift : {A : Type 0} (r : Result Errno A) → Keeps (lift r)
  Keeps-lift r fs v = v

  pub Keeps-pure : {A : Type 0} (a : A) → Keeps (pure a)
  Keeps-pure a fs v = v

  pub Keeps-as_attr : (ino : ℕ) (m : FsMetadata) → Keeps (as_attr S ino m)
  Keeps-as_attr ino m fs v = v

  pub Keeps-gets : {A : Type 0} (f : Fs S → A) → Keeps (gets f)
  Keeps-gets f fs v = v

  pub Keeps-raise_if : (b : Bool) (e : Errno) → Keeps (raise_if b e)
  Keeps-raise_if b e fs v = v

  pub Keeps-locked :
      {A : Type 0} (m : Action State Errno A)
      → ((s : State) → SameHandles s (m s).1)
      → Keeps (locked S m)
  Keeps-locked m h fs v = elim (Bool-cases fs.poisoned) [
    | inl e ↦ rw e v
    | inr e ↦ rw e (same-IsHeld fs.state (m fs.state).1 (h fs.state) v)
  ]

  pub when_locked-Holds :
      (f : State → State) (fs : Fs S)
      → ((s : State) → SameHandles s (f s))
      → Holds H o fs
      → Holds H o (when_locked S f fs)
  when_locked-Holds f fs h v = elim (Bool-cases fs.poisoned) [
    | inl e ↦ rw e v
    | inr e ↦ rw e (same-IsHeld fs.state (f fs.state) (h fs.state) v)
  ]

  pub call-Keeps :
      (op : Operation) → opens_file op ≡ false → opens_stream op ≡ false → Keeps (call S op)
  unfolding call
  call-Keeps op a b fs v = quiet-IsHeld H op a b v

  ruleset steps = (
    Keeps-bind, Keeps-lift, Keeps-pure, Keeps-gets, Keeps-as_attr, Keeps-raise_if, Keeps-locked,
    call-Keeps,
  )

  pub path-Keeps : (ino : ℕ) → Keeps (path S ino)
  unfolding path
  path-Keeps ino = Keeps-locked (path_of ino) (λ s. untouched s s refl refl)

  pub child-Keeps : (ino : ℕ) (name : OsName) → Keeps (child S ino name)
  unfolding child
  child-Keeps ino name = search (steps, path-Keeps)

  metadata_operation-Keeps : (ino : ℕ) (h : Option ℕ) → Keeps (metadata_operation S ino h)
  unfolding metadata_operation
  metadata_operation-Keeps ino (some h) = Keeps-pure (Operation.file_metadata h)
  metadata_operation-Keeps ino none = search (path-Keeps, steps)

  metadata_operation-IsQuiet :
      (ino : ℕ) (h : Option ℕ) (fs : Fs S) (op : Operation)
      → (metadata_operation S ino h fs).0 ≡ ok op
      → IsQuiet op
  unfolding metadata_operation
  metadata_operation-IsQuiet ino (some h) fs op = λ e. ground (arith, e)
  metadata_operation-IsQuiet ino none fs op =
      bind_cases (λ r. r.0 ≡ ok op → IsQuiet op) (λ p. pure (Operation.metadata p)) (path S ino) fs
        (λ x _ e. absurd (cc)) (λ p _ e. ground (arith, e))

  pub call_quiet-Keeps : (op : Operation) → IsQuiet op → Keeps (call S op)
  call_quiet-Keeps op q = call-Keeps op q.0 q.1

  pub metadata-Keeps : (ino : ℕ) (h : Option ℕ) → Keeps (metadata S ino h)
  unfolding metadata
  metadata-Keeps ino handle =
      Keeps-bind (gets (open_handle S handle)) (λ h. metadata_operation S ino h >>= asked)
        (Keeps-gets (open_handle S handle))
        (λ h.
          Keeps-bind_if IsQuiet (metadata_operation S ino h) asked (metadata_operation-Keeps ino h)
            (metadata_operation-IsQuiet ino h) (λ op q. search (steps, call_quiet-Keeps op q)))
    where
      asked : Operation → Action (Fs S) Errno FileAttr
      asked op = do v ← call S op; m ← lift (as_metadata v); as_attr S ino m

  pub lookup_path-Keeps : (p : MountPath) → Keeps (lookup_path S p)
  unfolding lookup_path
  lookup_path-Keeps p = search (steps, lookup-SameHandles) depth 9

  pub remove-Keeps :
      (ino : ℕ) (name : OsName) (directory : Bool) → Keeps (remove S ino name directory)
  unfolding remove
  remove-Keeps ino name directory = search (steps, child-Keeps, retire_path-SameHandles) depth 9
