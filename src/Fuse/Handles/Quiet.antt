-- ===== src/Fuse/Handles/Quiet.antt =====
-- src/fuse.rs: the handlers that neither open nor close anything at the provider.
use shell_canvas_drive_bridg.Base.{
  ℕ, ◌+◌, ◌≡◌, Bool, Option, none, some, List, [], ◌∷◌, ◌++◌, zero, suc, ok, Action, pure, ◌>>=◌,
  ◌>>◌, bind_cases, Bool-cases, inl, inr, arith, nat_eq, string_eq, list_eq, ltb, length,
  if◌then◌else◌, ◌==◌,
}
use shell_canvas_drive_bridg.Sdk.{Sdk, Operation, MountPath, FsSetMetadata}
use shell_canvas_drive_bridg.Sdk.Handles.{Handles}
use shell_canvas_drive_bridg.Transfer.{continue_read, read_part, read_loop, write_loop}
use shell_canvas_drive_bridg.Fuse.Attributes.{Errno, eio, eoverflow, SystemTime}
use shell_canvas_drive_bridg.Fuse.Inodes
use shell_canvas_drive_bridg.Fuse.Inodes.{State, Directory, update_node, retire_path}
use shell_canvas_drive_bridg.Fuse.Session.{Fs, OsName, locked, call, path, metadata}
use shell_canvas_drive_bridg.Fuse.Files
use shell_canvas_drive_bridg.Fuse.Names
use shell_canvas_drive_bridg.Fuse.Names.{Changes, set_operation, is_foreign, rename_paths}
use shell_canvas_drive_bridg.Fuse.Rename.{rename_state}
use shell_canvas_drive_bridg.Fuse.Handles.{Spare, Holds}
use shell_canvas_drive_bridg.Fuse.Handles.Moves.{rename_state-SameHandles}
use shell_canvas_drive_bridg.Fuse.Handles.Steps.{
  IsQuiet, forget-SameHandles, Keeps, Keeps-bind, Keeps-bind_if, Keeps-lift, Keeps-pure, Keeps-gets,
  Keeps-raise_if, Keeps-locked, call-Keeps, call_quiet-Keeps, path-Keeps, child-Keeps,
  metadata-Keeps, lookup_path-Keeps, when_locked-Holds,
}

module _ {S : Sdk} (H : Handles S) (o : Spare) where
  ruleset steps = (
    Keeps-bind, Keeps-lift, Keeps-pure, Keeps-gets, Keeps-raise_if, call-Keeps, path-Keeps,
    child-Keeps,
  )

  abbrev Stays : {A : Type 0} → Action (Fs S) Errno A → Type 0
  Stays m = Keeps H o m

  pub lookup-Keeps : (parent : ℕ) (name : OsName) → Stays (Names.lookup S parent name)
  unfolding Names.lookup
  lookup-Keeps parent name = search (steps, lookup_path-Keeps)

  pub forget-Keeps :
      (ino count : ℕ) (fs : Fs S) → Holds H o fs → Holds H o (Names.forget S ino count fs)
  unfolding Names.forget
  forget-Keeps ino count fs v =
      when_locked-Holds H o (Inodes.forget ino count) fs (forget-SameHandles ino count) v

  pub getattr-Keeps : (ino : ℕ) (fh : Option ℕ) → Stays (Names.getattr S ino fh)
  unfolding Names.getattr
  getattr-Keeps ino fh = metadata-Keeps H o ino fh

  set_operation-Keeps :
      (ino : ℕ) (fh : Option ℕ) (m : FsSetMetadata) → Stays (set_operation S ino fh m)
  unfolding set_operation
  set_operation-Keeps ino none m = search steps
  set_operation-Keeps ino (some h) m = Keeps-pure H o (Operation.set_file_metadata h m)

  set_operation-IsQuiet :
      (ino : ℕ) (fh : Option ℕ) (m : FsSetMetadata) (fs : Fs S) (op : Operation)
      → (set_operation S ino fh m fs).0 ≡ ok op
      → IsQuiet op
  unfolding set_operation
  set_operation-IsQuiet ino (some h) m fs op = λ e. ground (arith, e)
  set_operation-IsQuiet ino none m fs op =
      bind_cases (λ r. r.0 ≡ ok op → IsQuiet op) (λ p. pure (Operation.set_metadata p m))
        (path S ino) fs (λ x _ e. absurd (cc)) (λ p _ e. ground (arith, e))

  set_then-Keeps :
      (ino : ℕ) (fh : Option ℕ) (m : FsSetMetadata)
      → Stays (set_operation S ino fh m >>= λ op. call S op >> metadata S ino fh)
  set_then-Keeps ino fh m =
      Keeps-bind_if H o IsQuiet (set_operation S ino fh m) (λ op. call S op >> metadata S ino fh)
        (set_operation-Keeps ino fh m) (set_operation-IsQuiet ino fh m)
        (λ op q.
          Keeps-bind H o (call S op) (λ _. metadata S ino fh) (call_quiet-Keeps H o op q)
            (λ _. metadata-Keeps H o ino fh))

  pub setattr-Keeps :
      (clock : SystemTime) (ino : ℕ) (c : Changes) (fh : Option ℕ)
      → Stays (Names.setattr S clock ino c fh)
  unfolding Names.setattr
  setattr-Keeps clock ino c fh = search (steps, set_then-Keeps) depth 8

  pub mkdir-Keeps :
      (parent : ℕ) (name : OsName) (mode umask : ℕ) → Stays (Names.mkdir S parent name mode umask)
  unfolding Names.mkdir
  mkdir-Keeps parent name mode umask = search (steps, lookup_path-Keeps) depth 10

  pub statfs-Keeps : (ino : ℕ) → Stays (Names.statfs S ino)
  unfolding Names.statfs
  statfs-Keeps ino = search steps depth 8

  pub flush-Keeps : (fh : ℕ) → Stays (Files.flush S fh)
  unfolding Files.flush
  flush-Keeps fh = search steps

  read_part-Keeps :
      (fh offset size : ℕ) (got : List ℕ)
      → Stays (read_part (call S) eoverflow eio fh offset size got)
  unfolding read_part
  read_part-Keeps fh offset size got = search steps depth 8

  continue_read-Keeps :
      (got : List ℕ) (go_on : List ℕ → Action (Fs S) Errno (List ℕ)) (part : List ℕ)
      → ((more : List ℕ) → Stays (go_on more))
      → Stays (continue_read (call S) eoverflow eio got go_on part)
  continue_read-Keeps got go_on [] h = Keeps-pure H o got
  continue_read-Keeps got go_on (b ∷ part) h = h (got ++ (b ∷ part))

  read_loop-Keeps :
      (fuel fh offset size : ℕ) (got : List ℕ)
      → Stays (read_loop (call S) eoverflow eio fuel fh offset size got)
  unfolding read_loop
  read_loop-Keeps zero fh offset size got = Keeps-pure H o got
  read_loop-Keeps (suc fuel) fh offset size got = elim (Bool-cases (ltb (length got) size)) [
    | inl more ↦
        let go_on = read_loop (call S) eoverflow eio fuel fh offset size in
        rw (more, read_loop)
          (Keeps-bind H o (read_part (call S) eoverflow eio fh offset size got)
            (continue_read (call S) eoverflow eio got go_on) (read_part-Keeps fh offset size got)
            (λ part. continue_read-Keeps got go_on part (read_loop-Keeps fuel fh offset size)))
    | inr done ↦ rw (done, read_loop) (Keeps-pure H o got)
  ]

  pub read-Keeps : (fh offset size : ℕ) → Stays (Files.read S fh offset size)
  unfolding Files.read
  read-Keeps fh offset size = read_loop-Keeps size fh offset size []

  write_loop-Keeps :
      (fh offset written : ℕ) (parts : List (List ℕ))
      → Stays (write_loop (call S) eoverflow eio fh offset written parts)
  unfolding write_loop
  write_loop-Keeps fh offset written [] = Keeps-pure H o written
  write_loop-Keeps fh offset written (part ∷ parts) =
      search (steps, write_loop-Keeps fh offset (written + length part) parts) depth 8

  pub write-Keeps : (fh offset : ℕ) (bytes : List ℕ) → Stays (Files.write S fh offset bytes)
  unfolding Files.write
  write-Keeps fh offset bytes = search (steps, write_loop-Keeps)

  update_tables-Keeps :
      (from to : MountPath)
      → Stays (if from == to then pure tt else locked S (rename_state S from to))
  update_tables-Keeps from to fs v = elim (Bool-cases (from == to)) [
    | inl same ↦ rw same v
    | inr other ↦
        rw other
          (Keeps-locked H o (rename_state S from to) (rename_state-SameHandles S from to) fs v)
  ]

  rename_paths-Keeps :
      (from to : MountPath) (replace : Bool) → Stays (rename_paths S from to replace)
  unfolding rename_paths
  rename_paths-Keeps from to replace = search (steps, update_tables-Keeps) depth 8

  pub rename-Keeps :
      (parent : ℕ) (name : OsName) (newparent : ℕ) (newname : OsName) (flags : ℕ)
      → Stays (Names.rename S parent name newparent newname flags)
  unfolding Names.rename
  rename-Keeps parent name newparent newname flags = search (steps, rename_paths-Keeps) depth 10
