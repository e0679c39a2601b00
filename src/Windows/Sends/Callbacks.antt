-- ===== src/Windows/Sends/Callbacks.antt =====
-- src/windows.rs: the callbacks on data and metadata, `get_volume_info` and `rename` neither open nor
-- remove anything at the provider.
use shell_canvas_drive_bridg.Base.{
  ℕ, zero, suc, refl, Bool, true, false, Option, none, some, List, [], ◌∷◌, ◌++◌, Action, pure,
  ◌>>=◌, ltb, length, ◌+◌, arith, Bool-cases, Option-cases, inl, inr,
}
use shell_canvas_drive_bridg.Sdk.{Sdk, Operation, MountPath, FsSetMetadata, FsMetadata, FsError}
use shell_canvas_drive_bridg.Transfer.{read_loop, read_part, continue_read, write_loop}
use shell_canvas_drive_bridg.Windows.Status.{NtStatus, invalid}
use shell_canvas_drive_bridg.Windows.Names.{WideName}
use shell_canvas_drive_bridg.Windows.Contexts.{Context, Fs, call}
use shell_canvas_drive_bridg.Windows.Handles
use shell_canvas_drive_bridg.Windows.Handles.{
  OpenHandle, OpenHandles, flush_loop, upgrade, first, plan, retain,
}
use shell_canvas_drive_bridg.Windows.Data
use shell_canvas_drive_bridg.Windows.Metadata
use shell_canvas_drive_bridg.Windows.Namespace
use shell_canvas_drive_bridg.Sdk.{IsStable}
use shell_canvas_drive_bridg.Windows.Sends.{sending, Sends-bind, Sends-pure}
use shell_canvas_drive_bridg.Windows.Sends.Ordinary.{
  ordinary, Keeps, warn-Keeps, metadata-Keeps, path_metadata-Keeps,
}

module _ (S : Sdk) where
  pub get_file_info-Keeps : (c : Context) → Keeps S (Data.get_file_info S c)
  unfolding Data.get_file_info
  get_file_info-Keeps c = search (sending, metadata-Keeps)

  part-Keeps :
      (fh offset size : ℕ) (got : List ℕ)
      → Keeps S (read_part (call S) invalid invalid fh offset size got)
  unfolding read_part
  part-Keeps fh offset size got = search sending depth 8

  continue-Keeps :
      (got : List ℕ) (go_on : List ℕ → Action (Fs S) NtStatus (List ℕ)) (part : List ℕ)
      → ((more : List ℕ) → Keeps S (go_on more))
      → Keeps S (continue_read (call S) invalid invalid got go_on part)
  continue-Keeps got go_on [] k = Sends-pure got
  continue-Keeps got go_on (b ∷ part) k = k (got ++ (b ∷ part))

  elim-Keeps :
      {A : Type 0} (b : Bool) (m n : Action (Fs S) NtStatus A)
      → Keeps S m
      → Keeps S n
      → Keeps S (elim b [ false ↦ m | true ↦ n ])
  elim-Keeps false m n h k = h
  elim-Keeps true m n h k = k

  loop-Keeps :
      (fuel fh offset size : ℕ) (got : List ℕ)
      → Keeps S (read_loop (call S) invalid invalid fuel fh offset size got)
  unfolding read_loop
  loop-Keeps zero fh offset size got = Sends-pure got
  loop-Keeps (suc fuel) fh offset size got =
      let rest = read_loop (call S) invalid invalid fuel fh offset size in
      let round = read_part (call S) invalid invalid fh offset size got in
      elim-Keeps (ltb (length got) size) (pure got)
        (round >>= continue_read (call S) invalid invalid got rest) (Sends-pure got)
        (Sends-bind round (continue_read (call S) invalid invalid got rest)
          (part-Keeps fh offset size got)
          (λ part. continue-Keeps got rest part (loop-Keeps fuel fh offset size)))

  pub read-Keeps : (c : Context) (size offset : ℕ) → Keeps S (Data.read S c size offset)
  unfolding Data.read
  read-Keeps c size offset = search (sending, loop-Keeps) depth 8

  written-Keeps :
      (fh offset done : ℕ) (parts : List (List ℕ))
      → Keeps S (write_loop (call S) invalid invalid fh offset done parts)
  unfolding write_loop
  written-Keeps fh offset done [] = Sends-pure done
  written-Keeps fh offset done (part ∷ parts) =
      search (sending, written-Keeps fh offset (done + length part) parts) depth 8

  write_at-Keeps :
      (c : Context) (handle at : ℕ) (bytes : List ℕ) → Keeps S (Data.write_at S c handle at bytes)
  unfolding Data.write_at
  write_at-Keeps c handle at bytes = search (sending, metadata-Keeps, written-Keeps) depth 10

  pub write-Keeps :
      (c : Context) (bytes : List ℕ) (offset : ℕ) (eof constrained : Bool)
      → Keeps S (Data.write S c bytes offset eof constrained)
  unfolding Data.write
  write-Keeps c bytes offset eof constrained =
      search (sending, metadata-Keeps, write_at-Keeps) depth 10

  flush_file-Keeps : (o : Option ℕ) → Keeps S (Data.flush_file S o)
  unfolding Data.flush_file
  flush_file-Keeps none = search sending
  flush_file-Keeps (some h) = search sending

  each-Keeps :
      (I : S.Remote → Type 0)
      → IsStable S ordinary I
      → (hs : List (ℕ × OpenHandle)) (e : Option FsError) (r : S.Remote) → I r
      → I (flush_loop S (Data.send_flush S) hs e r).1
  unfolding flush_loop
  each-Keeps I stable [] e r i = i
  each-Keeps I stable ((_, h) ∷ hs) e r i = elim (Bool-cases h.writable) [
    | inr reads ↦ rw (reads, flush_loop) (each-Keeps I stable hs e r i)
    | inl writes ↦ elim (Option-cases h.file) [
      | inl closed ↦ rw (writes, closed, flush_loop) (each-Keeps I stable hs e r i)
      | inr (id, opened) ↦
          let (v, r') = Data.send_flush S id r in
          rw (writes, opened, flush_loop)
            (each-Keeps I stable hs (first S e v) r' (stable (Operation.flush id) r refl i))
    ]
  ]

  flush_volume-Keeps : Keeps S (Data.flush_volume S)
  unfolding Data.flush_volume Handles.flush
  flush_volume-Keeps I stable fs i =
      each-Keeps I stable (upgrade fs.handles.live fs.handles.refs) none fs.remote i

  pub flush-Keeps : (c : Option Context) → Keeps S (Data.flush S c)
  unfolding Data.flush
  flush-Keeps none = search (sending, flush_volume-Keeps)
  flush-Keeps (some c) = search (sending, metadata-Keeps, flush_file-Keeps) depth 8

  resize-Keeps :
      (c : Context) (size : ℕ) (allocation : Bool) → Keeps S (Data.must_resize S c size allocation)
  unfolding Data.must_resize
  resize-Keeps c size allocation = search (sending, metadata-Keeps)

  pub set_file_size-Keeps :
      (c : Context) (size : ℕ) (allocation : Bool)
      → Keeps S (Data.set_file_size S c size allocation)
  unfolding Data.set_file_size
  set_file_size-Keeps c size allocation = search (sending, metadata-Keeps, resize-Keeps) depth 10

  pub get_security_by_name-Keeps :
      (name : WideName) → Keeps S (Metadata.get_security_by_name S name)
  unfolding Metadata.get_security_by_name
  get_security_by_name-Keeps name = search (sending, path_metadata-Keeps)

  overwrite_changes-Keeps :
      (c : Context) (requested : ℕ) (replace : Bool)
      → Keeps S (Metadata.overwrite_changes S c requested replace)
  unfolding Metadata.overwrite_changes
  overwrite_changes-Keeps c requested replace = search (sending, metadata-Keeps) depth 12

  pub overwrite-Keeps :
      (c : Context) (requested : ℕ) (replace : Bool)
      → Keeps S (Metadata.overwrite S c requested replace)
  unfolding Metadata.overwrite
  overwrite-Keeps c requested replace =
      search (sending, metadata-Keeps, overwrite_changes-Keeps) depth 8

  changes-Keeps :
      (c : Context) (requested created access write changed : ℕ)
      → Keeps S (Metadata.basic_changes S c requested created access write changed)
  unfolding Metadata.basic_changes
  changes-Keeps c requested created access write changed = search (sending, metadata-Keeps) depth 12

  send-Keeps :
      (o : Option ℕ) (c : Context) (m : FsSetMetadata) → Keeps S (Metadata.send_changes S o c m)
  unfolding Metadata.send_changes
  send-Keeps none c m = search sending
  send-Keeps (some h) c m = search sending

  apply-Keeps : (c : Context) (m : FsSetMetadata) → Keeps S (Metadata.apply_changes S c m)
  unfolding Metadata.apply_changes
  apply-Keeps c m = search (sending, send-Keeps) depth 8

  confirm-Keeps : (omitted : Bool) (m : FsMetadata) → Keeps S (Metadata.confirm S omitted m)
  unfolding Metadata.confirm Metadata.warn_once
  confirm-Keeps false m I stable fs i = i
  confirm-Keeps true m I stable fs i = elim (Bool-cases fs.warned_change_time) [
    | inl again ↦ rw (again, Metadata.confirm, Metadata.warn_once) i
    | inr once ↦
        rw (once, Metadata.confirm, Metadata.warn_once)
          (warn-Keeps S Metadata.change_time_omitted I stable
            (record fs { warned_change_time = true }) i)
  ]

  pub set_basic_info-Keeps :
      (c : Context) (requested created access write changed : ℕ)
      → Keeps S (Metadata.set_basic_info S c requested created access write changed)
  unfolding Metadata.set_basic_info
  set_basic_info-Keeps c requested created access write changed =
      search (sending, metadata-Keeps, changes-Keeps, apply-Keeps, confirm-Keeps) depth 10

  pub get_volume_info-Keeps : Keeps S (Metadata.get_volume_info S)
  unfolding Metadata.get_volume_info
  get_volume_info-Keeps = search sending

  rename_paths-Keeps :
      (from to : MountPath) (replace : Bool) → Keeps S (Namespace.rename_paths S from to replace)
  unfolding Namespace.rename_paths Handles.rename
  rename_paths-Keeps from to replace I stable fs i =
      let t = fs.handles in
      let sent = stable (Operation.rename from to replace) fs.remote refl i in
      ground (arith, i, sent)

  pub rename-Keeps :
      (old new : WideName) (replace : Bool) → Keeps S (Namespace.rename S old new replace)
  unfolding Namespace.rename
  rename-Keeps old new replace = search (sending, rename_paths-Keeps) depth 8
