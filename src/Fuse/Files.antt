-- ===== src/Fuse/Files.antt =====
-- src/fuse.rs: the handlers on open files. A reply is the value handed to it, or an error.
pub mod Reading
pub mod Writing
use Prim.Native.Nat.{bit_xor}
use shell_canvas_drive_bridg.Base.{
  ℕ, zero, suc, ◌+◌, ◌-◌, ◌%◌, ◌^◌, min, bit_and, Bool, true, false, some, List, [], ◌∷◌, ◌++◌,
  Result, ok, err, Action, pure, lift, ◌>>=◌, ◌>>◌, ltb, leb, if◌then◌else◌, length, take, drop,
  nat_eq,
}
use shell_canvas_drive_bridg.Base.Dict
use shell_canvas_drive_bridg.Sdk.{Sdk, Operation, Value, MountPath, no_changes, mount_io_chunk}
use shell_canvas_drive_bridg.Transfer.{read_loop, write_loop, chunks}
use shell_canvas_drive_bridg.Fuse.Attributes.{
  Errno, panicked, eio, eoverflow, FileAttr, Libc, options,
}
use shell_canvas_drive_bridg.Fuse.Inodes
use shell_canvas_drive_bridg.Fuse.Session.{
  Fs, OsName, locked, when_locked, call, path, child, lookup_path, open_file, record_open,
  as_handle,
}

-- `mode & !umask` on 32 bits.
abbrev pub mask : ℕ → ℕ → ℕ
mask mode umask = bit_and mode (bit_xor umask 0xffff_ffff)

abbrev pub is_panic : Errno → Bool
is_panic panicked = true
is_panic _ = false

module _ (S : Sdk) where
  unfoldable pub open_node : Libc → ℕ → ℕ → Action (Fs S) Errno ℕ
  open_node c ino flags = do p ← path S ino; open_file S ino p (options c flags false)

  -- What `create` does once the remote file is open.
  unfoldable pub settle : ℕ → MountPath → ℕ → Action (Fs S) Errno (FileAttr × ℕ)
  settle handle p permissions = do
    call S
        (Operation.set_file_metadata handle (record no_changes { permissions = some permissions }))
    a ← lookup_path S p
    locked S (record_open handle a.ino)
    pure (a, handle)

  -- A failure closes the remote file; the reply to that close is dropped. A panic goes past it.
  unfoldable pub close_on_error :
      ℕ → Result Errno (FileAttr × ℕ) × Fs S → Result Errno (FileAttr × ℕ) × Fs S
  close_on_error handle (ok a, fs) = (ok a, fs)
  close_on_error handle (err e, fs) =
      if is_panic e then (err e, fs) else (err e, (call S (Operation.close handle) fs).1)

  unfoldable pub create : Libc → ℕ → OsName → ℕ → ℕ → ℕ → Action (Fs S) Errno (FileAttr × ℕ)
  create c parent name mode umask flags = do
    p ← child S parent name
    v ← call S (Operation.open_file p (options c flags true))
    handle ← lift (as_handle v)
    λ fs. close_on_error handle (settle handle p (mask mode umask) fs)

  unfoldable pub read : ℕ → ℕ → ℕ → Action (Fs S) Errno (List ℕ)
  read fh offset size = read_loop (call S) eoverflow eio size fh offset size []

  -- `done as u32`
  unfoldable pub write : ℕ → ℕ → List ℕ → Action (Fs S) Errno ℕ
  write fh offset data_bytes = do
    written ← write_loop (call S) eoverflow eio fh offset 0 (chunks mount_io_chunk data_bytes)
    pure (written % 2 ^ 32)

  -- `flush` and `fsync`
  unfoldable pub flush : ℕ → Action (Fs S) Errno Value
  flush fh = call S (Operation.flush fh)

  -- The handle and the reference go whatever the close replies.
  unfoldable pub release : ℕ → ℕ → Action (Fs S) Errno Value
  release ino fh fs =
      let (v, fs') = call S (Operation.close fh) fs in
      (v, when_locked S (λ s. Inodes.release ino (record s { files = Dict.erase fh s.files })) fs')
