-- ===== src/Fuse/Handles/Creation.antt =====
-- src/fuse.rs, `create`: the new file gets into the table or is closed again, if nothing panics.
use shell_canvas_drive_bridg.Base.{
  ℕ, ◌≡◌, ◌≢◌, refl, ◌∙◌, true, false, some, Result, ok, err, map_err, Action, pure, lift, ◌>>=◌,
  ◌>>◌, bind_cases, Bool-cases, inl, inr, ◌⊎◌, arith, nat_eq,
}
use shell_canvas_drive_bridg.Sdk.{Sdk, Operation, Value, FsResult, MountPath, no_changes}
use shell_canvas_drive_bridg.Sdk.Handles.{Handles}
use shell_canvas_drive_bridg.Fuse.Attributes.{Errno, panicked, errno, FileAttr, Libc, options}
use shell_canvas_drive_bridg.Fuse.Session.{
  Fs, OsName, locked, call, child, lookup_path, record_open, as_handle,
}
use shell_canvas_drive_bridg.Fuse.Files
use shell_canvas_drive_bridg.Fuse.Files.{settle, close_on_error, is_panic, mask}
use shell_canvas_drive_bridg.Fuse.Handles.{
  Spare, Holds, new_file, open_file-IsHeld, close-IsHeld, quiet-IsHeld,
}
use shell_canvas_drive_bridg.Fuse.Handles.Steps.{call-Keeps, child-Keeps, lookup_path-Keeps}
use shell_canvas_drive_bridg.Fuse.Handles.Files.{
  child_unlocked, call_unlocked, lookup_path_unlocked, record_open-Holds,
}

module _ {S : Sdk} (H : Handles S) where
  -- Before the close on errors: on success the file is in the table.
  abbrev Settled : ℕ → Result Errno (FileAttr × ℕ) × Fs S → Type 0
  Settled h (ok _, fs) = Holds H Spare.nothing fs
  Settled h (err _, fs) = Holds H Spare.nothing fs ⊎ Holds H (Spare.file h) fs

  -- A result that is no panic. Where no file is ever open, a panic leaves none behind either.
  abbrev pub Returns : {A : Type 0} → Result Errno A → Type 0
  Returns v = (v ≢ err panicked) ⊎ ((r : S.Remote) (h : ℕ) → H.FileOpen r h → ⊥)

  no_spare :
      (h : ℕ) (fs : Fs S)
      → ((r : S.Remote) (h : ℕ) → H.FileOpen r h → ⊥)
      → Holds H (Spare.file h) fs
      → Holds H Spare.nothing fs
  no_spare h fs no_file v = record {
    in_files = λ k open_. absurd (no_file fs.remote k open_);
    in_dirs = λ k open_. elim (v.in_dirs k open_) [ inl e ↦ absurd (cc) | inr e ↦ inr e ];
    known = λ k d e. ((v.known k d e).0, λ same. cc);
  }

  panic_error : (e : Errno) → is_panic e ≡ true → e ≡ panicked
  panic_error panicked h = refl
  panic_error _ h = absurd (cc)

  close_on_error-Holds :
      (h : ℕ) (r : Result Errno (FileAttr × ℕ) × Fs S)
      → Settled h r
      → Returns (close_on_error S h r).0
      → Holds H Spare.nothing (close_on_error S h r).1
  unfolding close_on_error call
  close_on_error-Holds h (ok a, fs) v k = v
  close_on_error-Holds h (err e, fs) v k = elim (Bool-cases (is_panic e)) [
    | inl panics ↦
        rw (panics, close_on_error)
          (elim v [
            | inl held ↦ held
            | inr spare ↦ elim k [
              | inl fine ↦ absurd (fine (ground (arith, panics, panic_error e panics)))
              | inr no_file ↦ no_spare h fs no_file spare
            ]
          ])
    | inr returns ↦
        rw (returns, close_on_error)
          (elim v [
            | inl held ↦ quiet-IsHeld H (Operation.close h) refl refl held
            | inr spare ↦ close-IsHeld H h spare
          ])
  ]

  recorded-Settled :
      (h : ℕ) (a : FileAttr) (fs : Fs S)
      → fs.poisoned ≡ false
      → Holds H (Spare.file h) fs
      → Settled h ((locked S (record_open h a.ino) >> pure (a, h)) fs)
  recorded-Settled h a fs unlocked v =
      let recorded = record_open-Holds H h a.ino fs unlocked v in
      bind_cases (Settled h) (λ _. pure (a, h)) (locked S (record_open h a.ino)) fs
        (λ _ _. inl recorded) (λ _ _. recorded)

  settle-Settled :
      (h : ℕ) (p : MountPath) (perm : ℕ) (fs : Fs S)
      → fs.poisoned ≡ false
      → Holds H (Spare.file h) fs
      → Settled h (settle S h p perm fs)
  unfolding settle
  settle-Settled h p perm fs unlocked v =
      let op = Operation.set_file_metadata h (record no_changes { permissions = some perm }) in
      let rest : FileAttr → Action (Fs S) Errno (FileAttr × ℕ) =
        λ a. locked S (record_open h a.ino) >> pure (a, h) in
      let set = (call S op fs).1 in
      let free = call_unlocked S op fs ∙ unlocked in
      let sent = call-Keeps H (Spare.file h) op refl refl fs v in
      bind_cases (Settled h) (λ _. lookup_path S p >>= rest) (call S op) fs (λ _ _. inr sent)
        (λ _ _.
          let looked = lookup_path-Keeps H (Spare.file h) p set sent in
          bind_cases (Settled h) rest (lookup_path S p) set (λ _ _. inr looked)
            (λ a _.
              recorded-Settled h a (lookup_path S p set).1 (lookup_path_unlocked S p set free)
                looked))

  abbrev settled : MountPath → ℕ → Value → Action (Fs S) Errno (FileAttr × ℕ)
  settled p perm v = do h ← lift (as_handle v); λ fs. close_on_error S h (settle S h p perm fs)

  abbrev Safe : Result Errno (FileAttr × ℕ) × Fs S → Type 0
  Safe r = Returns r.0 → Holds H Spare.nothing r.1

  created-Safe :
      (p : MountPath) (perm : ℕ) (v : FsResult Value) (fs : Fs S)
      → fs.poisoned ≡ false
      → Holds H (new_file H v) fs
      → Safe (((λ t. (map_err errno v, t)) >>= settled p perm) fs)
  created-Safe p perm (err e) fs unlocked v k = v
  created-Safe p perm (ok (Value.handle h)) fs unlocked v k =
      close_on_error-Holds h (settle S h p perm fs) (settle-Settled h p perm fs unlocked v) k
  created-Safe p perm (ok _) fs unlocked v k = v

  pub create-Holds :
      (c : Libc) (parent : ℕ) (name : OsName) (mode umask flags : ℕ) (fs : Fs S)
      → Returns (Files.create S c parent name mode umask flags fs).0
      → Holds H Spare.nothing fs
      → Holds H Spare.nothing (Files.create S c parent name mode umask flags fs).1
  unfolding Files.create call
  create-Holds c parent name mode umask flags fs returns v =
      let perm = mask mode umask in
      let w = child-Keeps H Spare.nothing parent name fs v in
      let open_file : MountPath → Operation = λ p. Operation.open_file p (options c flags true) in
      bind_cases Safe (λ p. call S (open_file p) >>= settled p perm) (child S parent name) fs
        (λ _ _ _. w)
        (λ p e.
          let t = (child S parent name fs).1 in
          let (reply, r) = S.call (open_file p) t.remote in
          created-Safe p perm reply (record t { remote = r }) (child_unlocked S parent name fs p e)
            (open_file-IsHeld H w p (options c flags true)))
        returns
