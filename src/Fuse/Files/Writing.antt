-- ===== src/Fuse/Files/Writing.antt =====
-- src/fuse.rs, `Fs::write`, against a file that a provider keeps.
use shell_canvas_drive_bridg.Base.{
  ℕ, ◌+◌, ◌%◌, ◌^◌, ◌<◌, ◌≡◌, refl, ap, List, ok, arith, length, pure, bind_ok, map_err,
}
use shell_canvas_drive_bridg.Sdk.{Sdk, mount_io_chunk}
use shell_canvas_drive_bridg.Transfer.{chunks, write_loop}
use shell_canvas_drive_bridg.Transfer.Writing.{Stores, Stores-through, overwrite, write_all}
use shell_canvas_drive_bridg.Fuse.Attributes.{errno, eoverflow, eio}
use shell_canvas_drive_bridg.Fuse.Session.{Fs, call}
use shell_canvas_drive_bridg.Fuse.Files

module _ (S : Sdk) (fh : ℕ) (contents : S.Remote → List ℕ) (V : Stores S.call fh contents) where
  call-Stores : Stores (call S) fh (λ fs. contents fs.remote)
  unfolding call
  call-Stores =
      Stores-through (λ fs. fs.remote) S.call (call S) (λ op fs v e. ap (map_err errno) e)
        (λ op fs. refl) fh contents V

  -- Against a provider that keeps a file and takes writes of at most a chunk, a write of fewer
  -- than 2^32 bytes within the range of offsets reports that it wrote all of them, and the file
  -- then has them from `offset` on and is otherwise as before.
  pub write_lem :
      (offset : ℕ) (bytes : List ℕ) (fs : Fs S)
      → offset + length bytes < 2 ^ 64
      → length bytes < 2 ^ 32
      → ((Files.write S fh offset bytes fs).0 ≡ ok (length bytes))
        × (contents (Files.write S fh offset bytes fs).1.remote
            ≡ overwrite offset bytes (contents fs.remote))
  unfolding Files.write
  write_lem offset bytes fs room word =
      let loop = write_loop (call S) eoverflow eio fh offset 0 (chunks mount_io_chunk bytes) in
      let sent =
        write_all (call S) eoverflow eio fh (λ fs. contents fs.remote) call-Stores offset bytes fs
          room in
      let done : loop fs ≡ (ok (length bytes), (loop fs).1) = ap (λ v. (v, (loop fs).1)) sent.0 in
      rw (bind_ok loop (λ n. pure (n % 2 ^ 32)) fs done) (ap ok (omega (arith, word)), sent.1)
