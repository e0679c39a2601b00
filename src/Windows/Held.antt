-- ===== src/Windows/Held.antt =====
-- src/windows.rs: the files and the directory streams that the provider holds open lie within what
-- the contexts account for.
pub mod Opening
pub mod Deletion
pub mod Steps
pub mod Listing
use mathlib.Core.Option
use Prim.Native.String
use shell_canvas_drive_bridg.Base.{
  ℕ, ◌≡◌, ◌≢◌, ◌⊎◌, inl, inr, refl, Bool, true, false, Option, none, some, String, Result, ok, err,
  arith, Result-cases, if◌then◌else◌,
}
use shell_canvas_drive_bridg.Sdk.{
  Sdk, IsStable, Operation, Value, FsResult, MountPath, FsOpenOptions,
}
use shell_canvas_drive_bridg.Sdk.Handles.{Handles, opens_file, opens_stream}
use shell_canvas_drive_bridg.Windows.Contexts.{
  Context, Fs, warn, close_quietly, close_remotes, drop_context,
}
use shell_canvas_drive_bridg.Windows.Sends.Ordinary.{ordinary}
use shell_canvas_drive_bridg.Windows.Sends.Ordinary

opens_no_file : (op : Operation) → ordinary op ≡ true → opens_file op ≡ false
opens_no_file (Operation.open_file p o) e = absurd (cc)
opens_no_file _ e = refl

opens_no_stream : (op : Operation) → ordinary op ≡ true → opens_stream op ≡ false
opens_no_stream (Operation.open_directory p) e = absurd (cc)
opens_no_stream _ e = refl

module _ {S : Sdk} (H : Handles S) where
  -- Every file that is open is among `F`, every stream among `T`.
  pub record Within (F T : ℕ → Type 0) (r : S.Remote) : Type 0 where
    pub in_files : (h : ℕ) → H.FileOpen r h → F h
    pub in_streams : (h : ℕ) → H.StreamOpen r h → T h

  pub widen :
      {F G T U : ℕ → Type 0} (r : S.Remote)
      → ((h : ℕ) → F h → G h)
      → ((h : ℕ) → T h → U h)
      → Within F T r
      → Within G U r
  widen r f t v = record {
    in_files = λ h k. f h (v.in_files h k);
    in_streams = λ h k. t h (v.in_streams h k);
  }

  module _ {F T : ℕ → Type 0} where
    pub quiet :
        (op : Operation) (r : S.Remote)
        → opens_file op ≡ false
        → opens_stream op ≡ false
        → Within F T r
        → Within F T (S.call op r).1
    quiet op r a b v = record {
      in_files = λ h k. v.in_files h (H.file_kept op r h a k);
      in_streams = λ h k. v.in_streams h (H.stream_kept op r h b k);
    }

    -- No ordinary operation opens anything.
    pub ordinary-Within : IsStable S ordinary (Within F T)
    ordinary-Within op r a v = quiet op r (opens_no_file op a) (opens_no_stream op a) v

    pub open_file-Within :
        (p : MountPath) (o : FsOpenOptions) (r : S.Remote)
        → Within F T r
        → let (reply, r') = S.call (Operation.open_file p o) r in
          Within (λ h. F h ⊎ (reply ≡ ok (Value.handle h))) T r'
    open_file-Within p o r v = record {
      in_files = λ h k. elim (H.file_opened p o r h k) [
        | inl old ↦ inl (v.in_files h old)
        | inr new ↦ inr new
      ];
      in_streams = λ h k. v.in_streams h (H.stream_kept (Operation.open_file p o) r h refl k);
    }

    pub open_directory-Within :
        (p : MountPath) (r : S.Remote)
        → Within F T r
        → let (reply, r') = S.call (Operation.open_directory p) r in
          Within F (λ h. T h ⊎ (reply ≡ ok (Value.handle h))) r'
    open_directory-Within p r v = record {
      in_files = λ h k. v.in_files h (H.file_kept (Operation.open_directory p) r h refl k);
      in_streams = λ h k. elim (H.stream_opened p r h k) [
        | inl old ↦ inl (v.in_streams h old)
        | inr new ↦ inr new
      ];
    }

    pub close-Within :
        (n : ℕ) (r : S.Remote)
        → Within F T r
        → Within (λ h. F h × (h ≢ n)) T (S.call (Operation.close n) r).1
    close-Within n r v =
        let w = quiet (Operation.close n) r refl refl v in
        record {
          in_files = λ h k. (w.in_files h k, H.file_closed n h r k);
          in_streams = w.in_streams;
        }

    pub close_directory-Within :
        (n : ℕ) (r : S.Remote)
        → Within F T r
        → Within F (λ h. T h × (h ≢ n)) (S.call (Operation.close_directory n) r).1
    close_directory-Within n r v =
        let w = quiet (Operation.close_directory n) r refl refl v in
        record {
          in_files = w.in_files;
          in_streams = λ h k. (w.in_streams h k, H.stream_closed n h r k);
        }

  module _ (F T : ℕ → Type 0) (message : String) (op : Operation) (fs : Fs S) where
    -- A close that fails is only reported.
    close_quietly-Within :
        Within F T (S.call op fs.remote).1
        → Within F T (close_quietly S message (some op) fs).remote
    unfolding close_quietly
    close_quietly-Within v =
        let (reply, r) = S.call op fs.remote in
        elim (Result-cases reply) [
          | inr (x, good) ↦ rw (good, close_quietly) v
          | inl (e, bad) ↦
              rw (bad, close_quietly)
                (Ordinary.warn-Keeps S (String.◌++◌ message e.message) (Within F T) ordinary-Within
                  (record fs { remote = r }) v)
        ]

  module _ {F T : ℕ → Type 0} (message : String) (fs : Fs S) where
    files_closed :
        (o : Option ℕ)
        → Within F T fs.remote
        → Within
            (λ h. F h × (o ≢ some h))
            T
            (close_quietly S message (Option.map Operation.close o) fs).remote
    unfolding close_quietly
    files_closed none v = widen fs.remote (λ h k. (k, λ same. cc)) (λ h k. k) v
    files_closed (some n) v =
        close_quietly-Within (λ h. F h × (some n ≢ some h)) T message (Operation.close n) fs
          (widen (S.call (Operation.close n) fs.remote).1
            (λ h k. (k.0, λ same. k.1 (ground (arith, same)))) (λ h k. k)
            (close-Within n fs.remote v))

    streams_closed :
        (o : Option ℕ)
        → Within F T fs.remote
        → Within F
            (λ h. T h × (o ≢ some h))
            (close_quietly S message (Option.map Operation.close_directory o) fs).remote
    unfolding close_quietly
    streams_closed none v = widen fs.remote (λ h k. k) (λ h k. (k, λ same. cc)) v
    streams_closed (some n) v =
        close_quietly-Within F (λ h. T h × (some n ≢ some h)) message (Operation.close_directory n)
          fs
          (widen (S.call (Operation.close_directory n) fs.remote).1 (λ h k. k)
            (λ h k. (k.0, λ same. k.1 (ground (arith, same))))
            (close_directory-Within n fs.remote v))

  -- `Drop for Context` closes both handles of the context.
  pub drop-Within :
      {F T : ℕ → Type 0} (c : Context) (fs : Fs S)
      → Within F T fs.remote
      → Within
          (λ h. F h × (c.file ≢ some h))
          (λ h. T h × (c.directory.handle ≢ some h))
          (drop_context S c fs).remote
  unfolding drop_context close_remotes
  drop-Within c fs v = streams_closed _ _ c.directory.handle (files_closed _ fs c.file v)
