-- ===== src/Sdk/Handles.antt =====
-- vendor/filesystem-sdk/src/wire.rs, `Server`: which handles a provider holds open. Identities are
-- never reused, and a close releases its handle whatever it replies.
use shell_canvas_drive_bridg.Base.{ℕ, ◌≡◌, ◌≢◌, ◌≤◌, ◌<◌, ◌⊎◌, Bool, true, false, ok}
use shell_canvas_drive_bridg.Sdk.Types.{FsOpenOptions, MountPath, Operation, Value}
use shell_canvas_drive_bridg.Sdk.Interface.{Sdk}

abbrev pub opens_file : Operation → Bool
opens_file (Operation.open_file p o) = true
opens_file _ = false

abbrev pub opens_stream : Operation → Bool
opens_stream (Operation.open_directory p) = true
opens_stream _ = false

-- `issued` is the greatest identity that has been handed out.
pub record Handles (S : Sdk) : Type 1 where
  pub FileOpen : S.Remote → ℕ → Type 0
  pub StreamOpen : S.Remote → ℕ → Type 0
  pub issued : S.Remote → ℕ
  pub file_kept :
      (op : Operation) (r : S.Remote) (h : ℕ)
      → opens_file op ≡ false
      → FileOpen (S.call op r).1 h
      → FileOpen r h
  pub file_opened :
      (p : MountPath) (o : FsOpenOptions) (r : S.Remote) (h : ℕ)
      → FileOpen (S.call (Operation.open_file p o) r).1 h
      → FileOpen r h ⊎ ((S.call (Operation.open_file p o) r).0 ≡ ok (Value.handle h))
  pub file_closed : (h k : ℕ) (r : S.Remote) → FileOpen (S.call (Operation.close h) r).1 k → k ≢ h
  pub stream_kept :
      (op : Operation) (r : S.Remote) (h : ℕ)
      → opens_stream op ≡ false
      → StreamOpen (S.call op r).1 h
      → StreamOpen r h
  pub stream_opened :
      (p : MountPath) (r : S.Remote) (h : ℕ)
      → StreamOpen (S.call (Operation.open_directory p) r).1 h
      → StreamOpen r h ⊎ ((S.call (Operation.open_directory p) r).0 ≡ ok (Value.handle h))
  pub stream_closed :
      (h k : ℕ) (r : S.Remote) → StreamOpen (S.call (Operation.close_directory h) r).1 k → k ≢ h
  pub counted : (op : Operation) (r : S.Remote) → issued r ≤ issued (S.call op r).1
  pub fresh :
      (p : MountPath) (r : S.Remote) (h : ℕ)
      → (S.call (Operation.open_directory p) r).0 ≡ ok (Value.handle h)
      → (issued r < h) × (h ≤ issued (S.call (Operation.open_directory p) r).1)
