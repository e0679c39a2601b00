-- ===== src/Windows/Held/Opening.antt =====
-- src/windows.rs: `open` and `create` hand every file that they open to the context that they return,
-- and a file that no context comes of is closed.
use shell_canvas_drive_bridg.Base.{
  ℕ, ◌≡◌, ◌⊎◌, inl, inr, Bool, Option, none, some, Result, ok, err, map_err, Action, pure, lift,
  ◌>>=◌, bind_cases, arith, Bool-cases, Result-cases, subst,
}
use shell_canvas_drive_bridg.Sdk.{Sdk, Operation, Value, FsResult, MountPath, FsCreate}
use shell_canvas_drive_bridg.Sdk.Handles.{Handles}
use shell_canvas_drive_bridg.Windows.Status.{NtStatus, failure}
use shell_canvas_drive_bridg.Windows.Names.{WideName}
use shell_canvas_drive_bridg.Windows.Info.{FileInfo}
use shell_canvas_drive_bridg.Windows.Contexts.{
  Context, Fs, call, warn, as_handle, open_handle, open_options, needs_no_handle, open_context,
  track, release_on_error, drop_context,
}
use shell_canvas_drive_bridg.Windows.Opening
use shell_canvas_drive_bridg.Windows.Sends.{
  Sends, Sends-enter_gate, Sends-guarded, Sends-require_writable,
}
use shell_canvas_drive_bridg.Windows.Sends.Ordinary
use shell_canvas_drive_bridg.Windows.Sends.Ordinary.{ordinary}
use shell_canvas_drive_bridg.Windows.Held.{
  Within, widen, ordinary-Within, open_file-Within, drop-Within,
}

-- The file that a result hands over.
abbrev pub Given : {B : Type 0} → (B → Option ℕ) → Result NtStatus B → ℕ → Type 0
Given file (ok b) h = file b ≡ some h
Given file (err e) h = ⊥

abbrev pub context_file : Context × FileInfo → Option ℕ
context_file (c, _) = c.file

module _ {S : Sdk} (H : Handles S) (F T : ℕ → Type 0) where
  abbrev Holds : Fs S → Type 0
  Holds fs = Within H F T fs.remote

  -- What is open lies within `F` and `T` but for the file of the result.
  abbrev pub Gives : {B : Type 0} → (B → Option ℕ) → Result NtStatus B × Fs S → Type 0
  Gives file (r, fs) = Within H (λ h. F h ⊎ Given file r h) T fs.remote

  Gives-nothing :
      {B : Type 0} (file : B → Option ℕ) (r : Result NtStatus B) (fs : Fs S)
      → Holds fs
      → Gives file (r, fs)
  Gives-nothing file r fs v = widen H fs.remote (λ h k. inl k) (λ h k. k) v

  pub ordinary-Holds :
      {B : Type 0} (m : Action (Fs S) NtStatus B)
      → Sends S ordinary m
      → (fs : Fs S) → Holds fs
      → Holds (m fs).1
  ordinary-Holds m k fs v = k (Within H F T) (ordinary-Within H) fs v

  -- What holds of every run of an action.
  abbrev Hands : {B : Type 0} → (B → Option ℕ) → Action (Fs S) NtStatus B → Type 0
  Hands file m = (fs : Fs S) → Holds fs → Gives file (m fs)

  Gives-bind :
      {B C : Type 0} (file : C → Option ℕ) (m : Action (Fs S) NtStatus B)
      (f : B → Action (Fs S) NtStatus C)
      → Sends S ordinary m
      → ((b : B) → Hands file (f b))
      → Hands file (m >>= f)
  Gives-bind file m f k h fs v =
      let w = ordinary-Holds m k fs v in
      bind_cases (Gives file) f m fs (λ e _. Gives-nothing file (err e) (m fs).1 w)
        (λ b _. h b (m fs).1 w)

  abbrev file_reply : FsResult Value → Fs S → Result NtStatus (Option ℕ) × Fs S
  file_reply reply fs =
      ((λ _. (map_err failure reply, fs)) >>= λ v. lift (as_handle v) >>= λ h. pure (some h)) fs

  file_reply-Gives :
      (reply : FsResult Value) (fs : Fs S)
      → Within H (λ h. F h ⊎ (reply ≡ ok (Value.handle h))) T fs.remote
      → Gives (λ o. o) (file_reply reply fs)
  file_reply-Gives (err e) fs v =
      widen H fs.remote (λ h k. elim k [ inl old ↦ inl old | inr new ↦ absurd (cc) ]) (λ h k. k) v
  file_reply-Gives (ok (Value.handle n)) fs v =
      widen H fs.remote (λ h k. elim k [ inl old ↦ inl old | inr new ↦ inr (ground (arith, new)) ])
        (λ h k. k) v
  file_reply-Gives (ok _) fs v =
      widen H fs.remote (λ h k. elim k [ inl old ↦ inl old | inr new ↦ absurd (cc) ]) (λ h k. k) v

  open_handle-Gives :
      (p : MountPath) (access : ℕ) (create : FsCreate) (is_dir : Bool) (fs : Fs S)
      → Holds fs
      → Gives (λ o. o) (open_handle S p access create is_dir fs)
  unfolding open_handle call
  open_handle-Gives p access create is_dir fs v =
      let options = open_options access create in
      elim (Bool-cases (needs_no_handle is_dir create access)) [
        | inl idle ↦ rw (idle, open_handle) (Gives-nothing (λ o. o) (ok none) fs v)
        | inr needed ↦
            let (reply, r) = S.call (Operation.open_file p options) fs.remote in
            rw (needed, open_handle, call)
              (file_reply-Gives reply (record fs { remote = r })
                (open_file-Within H p options fs.remote v))
      ]

  open_context-Gives :
      (p : MountPath) (access : ℕ) (create : FsCreate) (is_dir : Bool) (fs : Fs S)
      → Holds fs
      → Gives (λ c. c.file) (open_context S p access create is_dir fs)
  unfolding open_context release_on_error track
  open_context-Gives p access create is_dir fs v =
      let opened = open_handle S p access create is_dir in
      let w = open_handle-Gives p access create is_dir fs v in
      elim (Result-cases (opened fs).0) [
        | inl (e, bad) ↦ ground (arith, bad, w)
        | inr (file, good) ↦ ground (arith, good, w)
      ]

  -- What a failure leaves open was open before.
  lost :
      {B : Type 0} (file : B → Option ℕ) (r : Result NtStatus B) (e : NtStatus) (fs : Fs S)
      → r ≡ err e
      → Gives file (r, fs)
      → Holds fs
  lost file r e fs bad v =
      widen H fs.remote
        (λ h k. elim k [ inl old ↦ old | inr new ↦ absurd (coe 0 1 (i. Given file (bad i) h) new) ])
        (λ h k. k) v

  -- The context that is opened goes into what follows.
  open_context-bind :
      {C : Type 0} (file : C → Option ℕ) (p : MountPath) (access : ℕ) (create : FsCreate)
      (is_dir : Bool) (f : Context → Action (Fs S) NtStatus C)
      → ((c : Context) (fs : Fs S)
          → Within H (λ h. F h ⊎ (c.file ≡ some h)) T fs.remote
          → Gives file (f c fs))
      → Hands file (open_context S p access create is_dir >>= f)
  open_context-bind file p access create is_dir f k fs v =
      let m = open_context S p access create is_dir in
      let w = open_context-Gives p access create is_dir fs v in
      bind_cases (Gives file) f m fs
        (λ e bad.
          Gives-nothing file (err e) (m fs).1 (lost (λ c. c.file) (m fs).0 e (m fs).1 bad w))
        (λ c good.
          k c (m fs).1
            (subst (λ r. Within H (λ h. F h ⊎ Given (λ c. c.file) r h) T (m fs).1.remote) good w))

  filled-Gives :
      (info : FileInfo) (c : Context) (fs : Fs S)
      → Within H (λ h. F h ⊎ (c.file ≡ some h)) T fs.remote
      → Gives context_file (pure (c, info) fs)
  filled-Gives info c fs v = v

  fill_new-Gives :
      (c : Context) (requested : ℕ) (fs : Fs S)
      → Within H (λ h. F h ⊎ (c.file ≡ some h)) T fs.remote
      → Gives context_file (Opening.fill_new S c requested fs)
  unfolding Opening.fill_new Opening.abandon_on_error
  fill_new-Gives c requested fs v =
      let m = Opening.initialize S c requested in
      let w =
        Ordinary.initialize-Keeps S c requested (Within H (λ h. F h ⊎ (c.file ≡ some h)) T)
          (ordinary-Within H) fs v in
      elim (Result-cases (m fs).0) [
        | inr (info, good) ↦ rw (good, Opening.fill_new, Opening.abandon_on_error) w
        | inl (e, bad) ↦
            let warned = warn S Opening.unconfirmed (m fs).1 in
            rw (bad, Opening.fill_new, Opening.abandon_on_error)
              (widen H (drop_context S c warned).remote
                (λ h k. elim k.0 [ inl old ↦ inl old | inr new ↦ absurd (k.1 new) ]) (λ h k. k.0)
                (drop-Within H c warned (
                  Ordinary.warn-Keeps S Opening.unconfirmed
                    (Within H (λ h. F h ⊎ (c.file ≡ some h)) T) (ordinary-Within H) (m fs).1 w)))
      ]

  ruleset steps = (
    Gives-bind, open_context-bind, filled-Gives, fill_new-Gives, Sends-enter_gate, Sends-guarded,
    Sends-require_writable, Ordinary.find_entry-Keeps, Ordinary.make_entry-Keeps,
  )

  pub open_entry-Gives :
      (name : WideName) (options access : ℕ)
      → Hands context_file (Opening.open_entry S name options access)
  unfolding Opening.open_entry
  open_entry-Gives name options access = search steps depth 10

  pub create-Gives :
      (name : WideName) (options access requested : ℕ)
      → Hands context_file (Opening.create S name options access requested)
  unfolding Opening.create
  create-Gives name options access requested = search steps depth 12
