-- ===== src/Windows/Data/Reading.antt =====
-- src/windows.rs, `read`, against a file that a provider serves.
use shell_canvas_drive_bridg.Base.{
  ℕ, ◌+◌, ◌%◌, ◌^◌, ◌<◌, ◌≡◌, refl, ap, some, List, [], ok, arith, length, take, drop, map_err,
  pure, bind_ok,
}
use shell_canvas_drive_bridg.Sdk.{Sdk}
use shell_canvas_drive_bridg.Transfer.{read_loop}
use shell_canvas_drive_bridg.Transfer.Reading.{Serves, Serves-through, read_loop_lem}
use shell_canvas_drive_bridg.Windows.Status.{failure, invalid}
use shell_canvas_drive_bridg.Windows.Contexts.{Context, Fs, call}
use shell_canvas_drive_bridg.Windows.Data

module _ (S : Sdk) (fh : ℕ) (content : List ℕ) (I : S.Remote → Type 0)
    (V : Serves S.call fh content I) where
  call-Serves : Serves (call S) fh content (λ fs. I fs.remote)
  unfolding call
  call-Serves =
      Serves-through (λ fs. fs.remote) S.call (call S) (λ op fs v e. ap (map_err failure) e)
        (λ op fs. refl) fh content I V

  -- Against a provider that serves a file, with replies that may be short but are empty only at its
  -- end, a read on its context within the range of offsets fills the buffer with the bytes of the
  -- file from `offset` on, as many as fit or up to its end, and reports their number.
  pub read_context :
      (context : Context) (size offset : ℕ) (fs : Fs S)
      → context.file ≡ some fh
      → offset + size < 2 ^ 64
      → I fs.remote
      → let got = take size (drop offset content) in
        ((Data.read S context size offset fs).0 ≡ ok (got, length got % 2 ^ 32))
        × I (Data.read S context size offset fs).1.remote
  unfolding Data.read
  read_context context size offset fs file room i =
      let loop = read_loop (call S) invalid invalid size fh offset size [] in
      let (done, kept) =
        read_loop_lem (call S) invalid invalid fh content (λ fs. I fs.remote) call-Serves offset
          size room size [] (drop offset content) fs i refl (omega arith) (omega arith) in
      let ended : loop fs ≡ (ok (take size (drop offset content)), (loop fs).1) =
        ap (λ v. (v, (loop fs).1)) done in
      rw (file, bind_ok {B = List ℕ × ℕ} loop (λ got. pure (got, length got % 2 ^ 32)) fs ended)
        (refl, kept)
