-- ===== src/Fuse/Handles/Cursors.antt =====
-- src/fuse.rs: cursors that are taken out of the table, put back and moved to another stream.
use shell_canvas_drive_bridg.Base.{
  ℕ, ◌≡◌, ◌≢◌, ◌≤◌, refl, ap, ◌∙◌, Option, none, some, inl, inr, arith, nat_eq,
}
use shell_canvas_drive_bridg.Base.Dict
use shell_canvas_drive_bridg.Base.Dict.{Dict}
use shell_canvas_drive_bridg.Sdk.{Sdk, Operation}
use shell_canvas_drive_bridg.Sdk.Handles.{Handles}
use shell_canvas_drive_bridg.Fuse.Inodes.{Directory}
use shell_canvas_drive_bridg.Fuse.Cursor.{close_stream}
use shell_canvas_drive_bridg.Fuse.Handles.{Spare, IsHeld, quiet-IsHeld, kept_stream}

module _ {S : Sdk} (H : Handles S) where
  -- A stream that is still open after a close is another one.
  closed_stream :
      (m : Option ℕ) (r : S.Remote) (k : ℕ)
      → H.StreamOpen (close_stream S m r).1 k
      → H.StreamOpen r k × (m ≢ some k)
  closed_stream none r k open_ = (open_, λ e. cc)
  closed_stream (some h) r k open_ = (
    H.stream_kept (Operation.close_directory h) r k refl open_,
    λ e. H.stream_closed h k r open_ (ground arith),
  )

  pub close_stream-IsHeld :
      {files : Dict ℕ ℕ} {dirs : Dict ℕ Directory} (m : Option ℕ) (r : S.Remote) {o : Spare}
      → IsHeld H o r files dirs
      → IsHeld H o (close_stream S m r).1 files dirs
  close_stream-IsHeld none r v = v
  close_stream-IsHeld (some h) r v = quiet-IsHeld H (Operation.close_directory h) refl refl v

  module _ {files : Dict ℕ ℕ} (dirs : Dict ℕ Directory) where
    -- A cursor that goes from the table takes its stream with it.
    pub take-IsHeld :
        (fh : ℕ) (d : Directory) (r : S.Remote)
        → Dict.lookup fh dirs ≡ some d
        → IsHeld H Spare.nothing r files dirs
        → IsHeld H Spare.nothing (close_stream S d.remote r).1 files (Dict.erase fh dirs)
    take-IsHeld fh d r found v =
        let w = close_stream-IsHeld d.remote r v in
        record {
          in_files = w.in_files;
          in_dirs = λ k open_.
              let (j, e, at, is) = kept_stream H w k open_ in
              let apart : j ≢ fh = λ same.
                let its : d ≡ e = ground (arith, found, at, same) in
                (closed_stream d.remote r k open_).1 (ap (λ (x : Directory). x.remote) its ∙ is) in
              inr (j, e, Dict.lookup-erase_ne j fh dirs apart ∙ at, is);
          known = λ k e at. w.known k e (ground (arith, at, Dict.lookup-erase k fh dirs));
        }

    -- A cursor comes back with the spare stream, if there is one.
    pub place-IsHeld :
        {o : Spare} {r : S.Remote} (fh : ℕ) (d : Directory)
        → fh ≤ H.issued r
        → ((h : ℕ) → o ≢ Spare.file h)
        → ((h : ℕ) → o ≡ Spare.stream h → d.remote ≡ some h)
        → IsHeld H o r files (Dict.erase fh dirs)
        → IsHeld H Spare.nothing r files (Dict.insert fh d dirs)
    place-IsHeld fh d issued no_file covers v = record {
      in_files = λ h open_. elim (v.in_files h open_) [
        | inl spare ↦ absurd (no_file h spare)
        | inr listed ↦ inr listed
      ];
      in_dirs = λ h open_. elim (v.in_dirs h open_) [
        | inl spare ↦ inr (fh, d, Dict.lookup-insert_self fh d dirs, covers h spare)
        | inr (j, e, at, is) ↦ inr (
          j,
          e,
          ground (arith, at, Dict.lookup-erase j fh dirs, Dict.lookup-insert j fh d dirs),
          is,
        )
      ];
      known = λ k e at. elim (nat_eq.dec k fh) [
        | yes same ↦ (omega (arith, same), λ x. cc)
        | no ne ↦ (
          (v.known k e (
              ground
                (arith, at, ne, Dict.lookup-erase k fh dirs, Dict.lookup-insert k fh d dirs))).0,
          λ x. cc,
        )
      ];
    }

    pub put_back-IsHeld :
        {r : S.Remote} (fh : ℕ) (d : Directory)
        → Dict.lookup fh dirs ≡ some d
        → IsHeld H Spare.nothing r files dirs
        → IsHeld H Spare.nothing r files (Dict.insert fh d dirs)
    put_back-IsHeld fh d found v = record {
      in_files = v.in_files;
      in_dirs = λ h open_.
          let (j, e, at, is) = kept_stream H v h open_ in
          inr (j, e, ground (arith, at, found, Dict.lookup-insert j fh d dirs), is);
      known = λ k e at. v.known k e (ground (arith, at, found, Dict.lookup-insert k fh d dirs));
    }

    -- A cursor that is put back with the stream that it had.
    pub replace-IsHeld :
        {r : S.Remote} (fh : ℕ) (d e : Directory)
        → e.remote ≡ d.remote
        → IsHeld H Spare.nothing r files (Dict.insert fh d dirs)
        → IsHeld H Spare.nothing r files (Dict.insert fh e dirs)
    replace-IsHeld fh d e same v = record {
      in_files = v.in_files;
      in_dirs = λ h open_.
          let (j, x, at, is) = kept_stream H v h open_ in
          elim (nat_eq.dec j fh) [
            | yes here ↦
                let its : d ≡ x = ground (arith, at, here, Dict.lookup-insert j fh d dirs) in
                inr (
                  fh,
                  e,
                  Dict.lookup-insert_self fh e dirs,
                  same ∙ (ap (λ (y : Directory). y.remote) its ∙ is),
                )
            | no ne ↦ inr (
              j,
              x,
              ground
                  (arith, at, ne, Dict.lookup-insert j fh d dirs, Dict.lookup-insert j fh e dirs),
              is,
            )
          ];
      known = λ k x at. elim (nat_eq.dec k fh) [
        | yes here ↦
            (omega (arith, here, (v.known fh d (Dict.lookup-insert_self fh d dirs)).0), λ y. cc)
        | no ne ↦
            v.known k x (
              ground
                (arith, at, ne, Dict.lookup-insert k fh d dirs, Dict.lookup-insert k fh e dirs))
      ];
    }
