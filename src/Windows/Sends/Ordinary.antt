-- ===== src/Windows/Sends/Ordinary.antt =====
-- src/windows.rs: the ordinary operations neither open nor remove anything at the provider.
use Prim.Native.String
use mathlib.Core.Option
use shell_canvas_drive_bridg.Base.{
  ℕ, ◌≡◌, refl, Bool, true, false, Option, none, some, String, Action, arith, Result-cases, inl,
  inr,
}
use shell_canvas_drive_bridg.Sdk.{Sdk, Operation, MountPath, BridgeEvent}
use shell_canvas_drive_bridg.Windows.Status.{NtStatus}
use shell_canvas_drive_bridg.Windows.Names.{WideName}
use shell_canvas_drive_bridg.Windows.Contexts.{
  Context, Fs, warn, metadata, metadata_reply, path_metadata, close_quietly, close_remotes,
  drop_context,
}
use shell_canvas_drive_bridg.Windows.Opening
use shell_canvas_drive_bridg.Sdk.{IsStable}
use shell_canvas_drive_bridg.Windows.Sends.{sending, Sends}

abbrev pub ordinary : Operation → Bool
ordinary (Operation.open_file p o) = false
ordinary (Operation.open_directory p) = false
ordinary (Operation.remove p d) = false
ordinary _ = true

module _ (S : Sdk) where
  abbrev pub Keeps : {B : Type 0} → Action (Fs S) NtStatus B → Type 1
  Keeps m = Sends S ordinary m

  reply-Keeps : (o : Option ℕ) (c : Context) → Keeps (metadata_reply S o c)
  unfolding metadata_reply
  reply-Keeps none c = search sending
  reply-Keeps (some h) c = search sending

  pub metadata-Keeps : (c : Context) → Keeps (metadata S c)
  unfolding metadata
  metadata-Keeps c = search (sending, reply-Keeps)

  pub path_metadata-Keeps : (p : MountPath) → Keeps (path_metadata S p)
  unfolding path_metadata
  path_metadata-Keeps p = search sending

  pub find_entry-Keeps : (name : WideName) (options : ℕ) → Keeps (Opening.find_entry S name options)
  unfolding Opening.find_entry
  find_entry-Keeps name options = search (sending, path_metadata-Keeps) depth 9

  pub make_entry-Keeps :
      (name : WideName) (options requested : ℕ)
      → Keeps (Opening.make_entry S name options requested)
  unfolding Opening.make_entry
  make_entry-Keeps name options requested = search sending depth 9

  pub set_permissions-Keeps : (c : Context) (o : Option ℕ) → Keeps (Opening.set_permissions S c o)
  unfolding Opening.set_permissions
  set_permissions-Keeps c none = search sending
  set_permissions-Keeps c (some p) = search sending

  pub initialize-Keeps : (c : Context) (requested : ℕ) → Keeps (Opening.initialize S c requested)
  unfolding Opening.initialize
  initialize-Keeps c requested = search (sending, metadata-Keeps, set_permissions-Keeps) depth 9

  -- Code that cannot fail.
  abbrev pub KeepsOn : (Fs S → Fs S) → Type 1
  KeepsOn f =
      (I : S.Remote → Type 0) → IsStable S ordinary I → (fs : Fs S) → I fs.remote → I (f fs).remote

  pub warn-Keeps : (message : String) → KeepsOn (warn S message)
  unfolding warn
  warn-Keeps message I stable fs i =
      stable (Operation.report (BridgeEvent.warning message)) fs.remote refl i

  pub quiet-Keeps :
      (message : String) (o : Option Operation)
      → ((op : Operation) → o ≡ some op → ordinary op ≡ true)
      → KeepsOn (close_quietly S message o)
  unfolding close_quietly
  quiet-Keeps message none allowed I stable fs i = i
  quiet-Keeps message (some op) allowed I stable fs i =
      let (v, r) = S.call op fs.remote in
      let sent = stable op fs.remote (allowed op refl) i in
      elim (Result-cases v) [
        | inl (e, bad) ↦
            rw (bad, close_quietly)
              (warn-Keeps (String.◌++◌ message e.message) I stable (record fs { remote = r }) sent)
        | inr (x, good) ↦ rw (good, close_quietly) sent
      ]

  pub drop-Keeps : (c : Context) → KeepsOn (drop_context S c)
  unfolding drop_context close_remotes
  drop-Keeps c I stable fs i =
      quiet-Keeps _ (Option.map Operation.close_directory c.directory.handle)
        (λ op e. closes_directory c.directory.handle op e) I stable _
        (quiet-Keeps _ (Option.map Operation.close c.file) (λ op e. closes_file c.file op e) I
          stable fs i)
    where
      closes_file :
          (o : Option ℕ) (op : Operation)
          → Option.map Operation.close o ≡ some op
          → ordinary op ≡ true
      closes_file none op e = cc
      closes_file (some h) op e = ground (arith, e)

      closes_directory :
          (o : Option ℕ) (op : Operation)
          → Option.map Operation.close_directory o ≡ some op
          → ordinary op ≡ true
      closes_directory none op e = cc
      closes_directory (some h) op e = ground (arith, e)
