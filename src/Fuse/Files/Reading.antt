-- ===== src/Fuse/Files/Reading.antt =====
-- src/fuse.rs, `Fs::read`, against a file that a provider serves.
use shell_canvas_drive_bridg.Base.{
  ℕ, ◌+◌, ◌^◌, ◌<◌, ◌≡◌, refl, ap, List, [], ok, arith, take, drop, map_err,
}
use shell_canvas_drive_bridg.Sdk.{Sdk}
use shell_canvas_drive_bridg.Transfer.Reading.{Serves, Serves-through, read_loop_lem}
use shell_canvas_drive_bridg.Fuse.Attributes.{errno, eoverflow, eio}
use shell_canvas_drive_bridg.Fuse.Session.{Fs, call}
use shell_canvas_drive_bridg.Fuse.Files

module _ (S : Sdk) (fh : ℕ) (content : List ℕ) (I : S.Remote → Type 0)
    (V : Serves S.call fh content I) where
  call-Serves : Serves (call S) fh content (λ fs. I fs.remote)
  unfolding call
  call-Serves =
      Serves-through (λ fs. fs.remote) S.call (call S) (λ op fs v e. ap (map_err errno) e)
        (λ op fs. refl) fh content I V

  -- Against a provider that serves a file, with replies that may be short but are empty only at
  -- its end, a read within the range of offsets returns the bytes of the file from `offset` on,
  -- `size` of them or up to its end.
  pub read_lem :
      (offset size : ℕ) (fs : Fs S)
      → offset + size < 2 ^ 64
      → I fs.remote
      → ((Files.read S fh offset size fs).0 ≡ ok (take size (drop offset content)))
        × I (Files.read S fh offset size fs).1.remote
  unfolding Files.read
  read_lem offset size fs room i =
      read_loop_lem (call S) eoverflow eio fh content (λ fs. I fs.remote) call-Serves offset size
        room size [] (drop offset content) fs i refl (omega arith) (omega arith)
