-- ===== src/Windows/Data/Writing.antt =====
-- src/windows.rs, `write`, against a file that a provider keeps.
use shell_canvas_drive_bridg.Base.{
  ℕ, ◌+◌, ◌%◌, ◌^◌, ◌<◌, ◌≡◌, refl, ap, ◌∙◌, Bool, some, List, ok, arith, length, take, map_err,
}
use shell_canvas_drive_bridg.Sdk.{Sdk, Operation, Value, FsMetadata, mount_io_chunk}
use shell_canvas_drive_bridg.Transfer.{chunks, write_loop}
use shell_canvas_drive_bridg.Transfer.Writing.{Stores, Stores-through, overwrite, write_all}
use shell_canvas_drive_bridg.Windows.Status.{failure, invalid}
use shell_canvas_drive_bridg.Windows.Info.{fill}
use shell_canvas_drive_bridg.Windows.Contexts.{Context, Fs, call, metadata, metadata_reply}
use shell_canvas_drive_bridg.Windows.Data
use shell_canvas_drive_bridg.Windows.Data.{write_offset, write_length}

-- Documented behaviour of a provider that tells the metadata of the file it keeps under a handle:
-- the size is that of the contents, and the question changes nothing.
pub record Tells (S : Sdk) (fh : ℕ) (contents : S.Remote → List ℕ) : Type 0 where
  pub meta : S.Remote → FsMetadata
  pub replies :
      (r : S.Remote) → (S.call (Operation.file_metadata fh) r).0 ≡ ok (Value.metadata (meta r))
  pub sized : (r : S.Remote) → (meta r).size ≡ length (contents r)
  pub keeps : (r : S.Remote) → contents (S.call (Operation.file_metadata fh) r).1 ≡ contents r

module _ (S : Sdk) (fh : ℕ) (contents : S.Remote → List ℕ) (V : Stores S.call fh contents)
    (T : Tells S fh contents) where
  call-Stores : Stores (call S) fh (λ fs. contents fs.remote)
  unfolding call
  call-Stores =
      Stores-through (λ fs. fs.remote) S.call (call S) (λ op fs v e. ap (map_err failure) e)
        (λ op fs. refl) fh contents V

  -- The state after the question for the metadata.
  abbrev asked : Fs S → Fs S
  asked fs = record fs { remote = (S.call (Operation.file_metadata fh) fs.remote).1 }

  told :
      (context : Context) (fs : Fs S)
      → context.file ≡ some fh
      → metadata S context fs ≡ (ok (T.meta fs.remote), asked fs)
  unfolding metadata metadata_reply call
  told context fs file = ground (arith, file, T.replies fs.remote)

  began :
      (context : Context) (buffer : List ℕ) (offset : ℕ) (eof constrained : Bool) (fs : Fs S)
      → context.file ≡ some fh
      → let size = (T.meta fs.remote).size in
        let at = write_offset S eof size offset in
        Data.write S context buffer offset eof constrained fs
        ≡ Data.write_at S context fh at
            (take (write_length S constrained size at (length buffer)) buffer)
            (asked fs)
  unfolding Data.write
  began context buffer offset eof constrained fs file = ground (arith, file, told context fs file)

  finished :
      (context : Context) (at : ℕ) (bytes : List ℕ) (fs fs' : Fs S)
      → context.file ≡ some fh
      → write_loop (call S) invalid invalid fh at 0 (chunks mount_io_chunk bytes) fs
        ≡ (ok (length bytes), fs')
      → length bytes < 2 ^ 32
      → Data.write_at S context fh at bytes fs
        ≡ (ok (length bytes, fill (T.meta fs'.remote)), asked fs')
  unfolding Data.write_at
  finished context at bytes fs fs' file done word =
      let small : length bytes % 2 ^ 32 ≡ length bytes = omega (arith, word) in
      ground (arith, done, told context fs' file, small)

  -- Against a provider that keeps a file, takes writes of at most a chunk and tells its size, a
  -- write of fewer than 2^32 bytes within the range of offsets goes to the end of the file if it is
  -- asked to, and otherwise to its offset; it takes the whole buffer, or, if it is constrained, as
  -- much of it as fits before the end of the file. It reports how many bytes it wrote and the new
  -- size of the file, which has them there and is otherwise as before.
  pub write_context :
      (context : Context) (buffer : List ℕ) (offset : ℕ) (eof constrained : Bool) (fs : Fs S)
      → context.file ≡ some fh
      → let size = length (contents fs.remote) in
        let at = write_offset S eof size offset in
        let bytes = take (write_length S constrained size at (length buffer)) buffer in
        at + length bytes < 2 ^ 64
        → length bytes < 2 ^ 32
        → let (v, fs') = Data.write S context buffer offset eof constrained fs in
          (m : FsMetadata) × (v ≡ ok (length bytes, fill m))
          × (m.size ≡ length (overwrite at bytes (contents fs.remote)))
          × (contents fs'.remote ≡ overwrite at bytes (contents fs.remote))
  write_context context buffer offset eof constrained fs file room word =
      let size = length (contents fs.remote) in
      let at = write_offset S eof size offset in
      let bytes = take (write_length S constrained size at (length buffer)) buffer in
      let loop = write_loop (call S) invalid invalid fh at 0 (chunks mount_io_chunk bytes) in
      let (sent, stored) =
        write_all (call S) invalid invalid fh (λ fs. contents fs.remote) call-Stores at bytes
          (asked fs) room in
      let fs' = (loop (asked fs)).1 in
      let now : contents fs'.remote ≡ overwrite at bytes (contents fs.remote) =
        stored ∙ ap (overwrite at bytes) (T.keeps fs.remote) in
      let whole =
        began context buffer offset eof constrained fs file
        ∙ ap
            (λ n.
              Data.write_at S context fh (write_offset S eof n offset)
                (take (write_length S constrained n (write_offset S eof n offset) (length buffer))
                  buffer)
                (asked fs))
            (T.sized fs.remote)
        ∙ finished context at bytes (asked fs) fs' file (ap (λ v. (v, fs')) sent) word in
      (
        T.meta fs'.remote,
        ap (λ x. x.0) whole,
        T.sized fs'.remote ∙ ap length now,
        ap (λ x. contents x.1.remote) whole ∙ T.keeps fs'.remote ∙ now,
      )
