-- ===== src/Windows/Steady.antt =====
-- src/windows.rs: the callbacks that leave the gate and the registry of descriptors alone. They talk
-- to the provider and read.
pub mod Changes
pub mod Listing
use shell_canvas_drive_bridg.Base.{
  ℕ, zero, suc, ◌≡◌, refl, ◌∙◌, Bool, true, false, Option, none, some, List, [], ◌∷◌, String,
  Result, ok, err, ◌++◌, ◌+◌, Action, pure, lift, raise_if, ◌>>=◌, ◌>>◌, bind_cases, if◌then◌else◌,
  ltb, length, inl, inr, Option-cases, Bool-cases, map_err, arith,
}
use shell_canvas_drive_bridg.Sdk.{
  FsCapabilities, Sdk, Operation, Value, MountPath, FsSetMetadata, FsMetadata, FsCreate,
}
use shell_canvas_drive_bridg.Transfer.{read_loop, read_part, continue_read, write_loop}
use shell_canvas_drive_bridg.Windows.Status.{NtStatus, invalid}
use shell_canvas_drive_bridg.Windows.Names.{WideName}
use shell_canvas_drive_bridg.Windows.Gate.{MountGate}
use shell_canvas_drive_bridg.Windows.Handles.{OpenHandles}
use shell_canvas_drive_bridg.Windows.Contexts.{
  Context, Fs, call, warn, context_path, metadata, metadata_reply, path_metadata, open_handle,
  close_quietly, require_writable,
}
use shell_canvas_drive_bridg.Windows.Opening
use shell_canvas_drive_bridg.Windows.Data
use shell_canvas_drive_bridg.Windows.Metadata
use shell_canvas_drive_bridg.Windows.Namespace

-- The gate, the registry, the next identity and what the provider is capable of.
abbrev pub Tables : Type 0
Tables = MountGate × OpenHandles × ℕ × FsCapabilities

module _ {S : Sdk} where
  abbrev pub tables : Fs S → Tables
  tables fs = (fs.gate, fs.handles, fs.next, fs.caps)

  abbrev pub Steady : {A : Type 0} → Action (Fs S) NtStatus A → Type 0
  Steady m = (fs : Fs S) → tables (m fs).1 ≡ tables fs

  pub Steady-bind :
      {A B : Type 0} (m : Action (Fs S) NtStatus A) (f : A → Action (Fs S) NtStatus B)
      → Steady m
      → ((a : A) → Steady (f a))
      → Steady (m >>= f)
  Steady-bind m f k h fs =
      bind_cases (λ r. tables r.1 ≡ tables fs) f m fs (λ e _. k fs) (λ a _. h a (m fs).1 ∙ k fs)

  pub Steady-lift : {A : Type 0} (r : Result NtStatus A) → Steady (lift r)
  Steady-lift r fs = refl

  pub Steady-pure : {A : Type 0} (a : A) → Steady (pure a)
  Steady-pure a fs = refl

  pub Steady-raise_if : (b : Bool) (e : NtStatus) → Steady (raise_if b e)
  Steady-raise_if b e fs = refl

  pub Steady-if :
      {A : Type 0} (b : Bool) (m n : Action (Fs S) NtStatus A)
      → Steady m
      → Steady n
      → Steady (if b then m else n)
  Steady-if true m n h k = h
  Steady-if false m n h k = k

  Steady-elim :
      {A : Type 0} (b : Bool) (m n : Action (Fs S) NtStatus A)
      → Steady m
      → Steady n
      → Steady (elim b [ false ↦ m | true ↦ n ])
  Steady-elim false m n h k = h
  Steady-elim true m n h k = k

module _ (S : Sdk) where
  pub call-Steady : (op : Operation) → Steady (call S op)
  unfolding call
  call-Steady op fs = refl

  pub warn-tables : (message : String) (fs : Fs S) → tables (warn S message fs) ≡ tables fs
  unfolding warn
  warn-tables message fs = refl

  pub context_path-Steady : (c : Context) → Steady (context_path S c)
  context_path-Steady c fs = refl

  ruleset steps = (
    Steady-bind, Steady-lift, Steady-pure, Steady-raise_if, Steady-if, call-Steady,
    context_path-Steady,
  )

  reply-Steady : (o : Option ℕ) (c : Context) → Steady (metadata_reply S o c)
  unfolding metadata_reply
  reply-Steady none c = search steps
  reply-Steady (some h) c = search steps

  pub metadata-Steady : (c : Context) → Steady (metadata S c)
  unfolding metadata
  metadata-Steady c = search (steps, reply-Steady)

  pub path_metadata-Steady : (p : MountPath) → Steady (path_metadata S p)
  unfolding path_metadata
  path_metadata-Steady p = search steps

  pub find_entry-Steady :
      (name : WideName) (options : ℕ) → Steady (Opening.find_entry S name options)
  unfolding Opening.find_entry
  find_entry-Steady name options = search (steps, path_metadata-Steady) depth 9

  pub make_entry-Steady :
      (name : WideName) (options requested : ℕ)
      → Steady (Opening.make_entry S name options requested)
  unfolding Opening.make_entry
  make_entry-Steady name options requested = search steps depth 9

  set_permissions-Steady : (c : Context) (o : Option ℕ) → Steady (Opening.set_permissions S c o)
  unfolding Opening.set_permissions
  set_permissions-Steady c none = search steps
  set_permissions-Steady c (some p) = search steps

  pub initialize-Steady : (c : Context) (requested : ℕ) → Steady (Opening.initialize S c requested)
  unfolding Opening.initialize
  initialize-Steady c requested = search (steps, metadata-Steady, set_permissions-Steady) depth 9

  pub open_handle-Steady :
      (p : MountPath) (access : ℕ) (create : FsCreate) (is_dir : Bool)
      → Steady (open_handle S p access create is_dir)
  unfolding open_handle
  open_handle-Steady p access create is_dir = search steps depth 8

  pub close_quietly-tables :
      (message : String) (op : Option Operation) (fs : Fs S)
      → tables (close_quietly S message op fs) ≡ tables fs
  unfolding close_quietly warn
  close_quietly-tables message none fs = refl
  close_quietly-tables message (some op) fs = ground arith

  pub get_file_info-Steady : (c : Context) → Steady (Data.get_file_info S c)
  unfolding Data.get_file_info
  get_file_info-Steady c = search (steps, metadata-Steady)

  part-Steady :
      (fh offset size : ℕ) (got : List ℕ)
      → Steady (read_part (call S) invalid invalid fh offset size got)
  unfolding read_part
  part-Steady fh offset size got = search steps depth 8

  continue-Steady :
      (got : List ℕ) (go_on : List ℕ → Action (Fs S) NtStatus (List ℕ)) (part : List ℕ)
      → ((more : List ℕ) → Steady (go_on more))
      → Steady (continue_read (call S) invalid invalid got go_on part)
  continue-Steady got go_on [] k = Steady-pure got
  continue-Steady got go_on (b ∷ part) k = k (got ++ (b ∷ part))

  loop-Steady :
      (fuel fh offset size : ℕ) (got : List ℕ)
      → Steady (read_loop (call S) invalid invalid fuel fh offset size got)
  unfolding read_loop
  loop-Steady zero fh offset size got = Steady-pure got
  loop-Steady (suc fuel) fh offset size got =
      let rest = read_loop (call S) invalid invalid fuel fh offset size in
      let round = read_part (call S) invalid invalid fh offset size got in
      Steady-elim (ltb (length got) size) (pure got)
        (round >>= continue_read (call S) invalid invalid got rest) (Steady-pure got)
        (Steady-bind round (continue_read (call S) invalid invalid got rest)
          (part-Steady fh offset size got)
          (λ part. continue-Steady got rest part (loop-Steady fuel fh offset size)))

  pub read-Steady : (c : Context) (size offset : ℕ) → Steady (Data.read S c size offset)
  unfolding Data.read
  read-Steady c size offset = search (steps, loop-Steady) depth 8

  written-Steady :
      (fh offset done : ℕ) (parts : List (List ℕ))
      → Steady (write_loop (call S) invalid invalid fh offset done parts)
  unfolding write_loop
  written-Steady fh offset done [] = Steady-pure done
  written-Steady fh offset done (part ∷ parts) =
      search (steps, written-Steady fh offset (done + length part) parts) depth 8

  write_at-Steady :
      (c : Context) (handle at : ℕ) (bytes : List ℕ) → Steady (Data.write_at S c handle at bytes)
  unfolding Data.write_at
  write_at-Steady c handle at bytes = search (steps, metadata-Steady, written-Steady) depth 10

  pub write-Steady :
      (c : Context) (bytes : List ℕ) (offset : ℕ) (eof constrained : Bool)
      → Steady (Data.write S c bytes offset eof constrained)
  unfolding Data.write
  write-Steady c bytes offset eof constrained =
      search (steps, metadata-Steady, write_at-Steady) depth 10

  flush_file-Steady : (o : Option ℕ) → Steady (Data.flush_file S o)
  unfolding Data.flush_file
  flush_file-Steady none = search steps
  flush_file-Steady (some h) = search steps

  flush_volume-Steady : Steady (Data.flush_volume S)
  unfolding Data.flush_volume
  flush_volume-Steady fs = refl

  pub flush-Steady : (c : Option Context) → Steady (Data.flush S c)
  unfolding Data.flush
  flush-Steady none = search (steps, flush_volume-Steady)
  flush-Steady (some c) = search (steps, metadata-Steady, flush_file-Steady) depth 8

  resize-Steady :
      (c : Context) (size : ℕ) (allocation : Bool) → Steady (Data.must_resize S c size allocation)
  unfolding Data.must_resize
  resize-Steady c size allocation = search (steps, metadata-Steady)

  pub set_file_size-Steady :
      (c : Context) (size : ℕ) (allocation : Bool) → Steady (Data.set_file_size S c size allocation)
  unfolding Data.set_file_size
  set_file_size-Steady c size allocation = search (steps, metadata-Steady, resize-Steady) depth 10
