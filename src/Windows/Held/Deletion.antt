-- ===== src/Windows/Held/Deletion.antt =====
-- src/windows.rs: `set_delete` closes the directory that it looks into, and `cleanup` opens nothing.
use shell_canvas_drive_bridg.Base.{
  ℕ, ◌≡◌, ◌⊎◌, inl, inr, refl, Bool, true, false, not, Option, none, some, String, Result, ok, err,
  map_err, Action, lift, raise_if, ◌>>=◌, bind_cases, arith, if◌then◌else◌, Result-cases,
}
use shell_canvas_drive_bridg.Sdk.{Sdk, Operation, Value, FsResult, MountPath}
use shell_canvas_drive_bridg.Sdk.Handles.{Handles}
use shell_canvas_drive_bridg.Windows.Status.{NtStatus, failure}
use shell_canvas_drive_bridg.Windows.Names.{WideName, path}
use shell_canvas_drive_bridg.Windows.Attributes.{has}
use shell_canvas_drive_bridg.Windows.Contexts.{Context, Fs, call, as_handle, context_path}
use shell_canvas_drive_bridg.Windows.Namespace
use shell_canvas_drive_bridg.Windows.Sends.{
  Sends, Sends-lift, Sends-pure, Sends-raise_if, Sends-context_path, Sends-require_writable,
}
use shell_canvas_drive_bridg.Windows.Sends.Ordinary
use shell_canvas_drive_bridg.Windows.Sends.Ordinary.{ordinary}
use shell_canvas_drive_bridg.Windows.Held.{
  Within, widen, quiet, ordinary-Within, open_directory-Within, close_directory-Within,
}

module _ {S : Sdk} (H : Handles S) (F T : ℕ → Type 0) where
  abbrev Holds : Fs S → Type 0
  Holds fs = Within H F T fs.remote

  abbrev Stays : {B : Type 0} → Action (Fs S) NtStatus B → Type 0
  Stays m = (fs : Fs S) → Holds fs → Holds (m fs).1

  Stays-bind :
      {B C : Type 0} (m : Action (Fs S) NtStatus B) (f : B → Action (Fs S) NtStatus C)
      → Stays m
      → ((b : B) → Stays (f b))
      → Stays (m >>= f)
  Stays-bind m f k h fs v =
      bind_cases (λ r. Holds r.1) f m fs (λ e bad. k fs v) (λ b good. h b (m fs).1 (k fs v))

  Stays-ordinary : {B : Type 0} (m : Action (Fs S) NtStatus B) → Sends S ordinary m → Stays m
  Stays-ordinary m k fs v = k (Within H F T) (ordinary-Within H) fs v

  Stays-if :
      {B : Type 0} (b : Bool) (m n : Action (Fs S) NtStatus B)
      → Stays m
      → Stays n
      → Stays (if b then m else n)
  Stays-if true m n h k = h
  Stays-if false m n h k = k

  module _ {B : Type 0} (rest : ℕ → Action (Fs S) NtStatus B)
      (ends : (n : ℕ) (fs : Fs S)
        → Within H F (λ h. T h ⊎ (n ≡ h)) fs.remote
        → Holds (rest n fs).1) where
    abbrev replied : FsResult Value → Fs S → Result NtStatus B × Fs S
    replied reply fs = ((λ _. (map_err failure reply, fs)) >>= λ v. lift (as_handle v) >>= rest) fs

    replied-Holds :
        (reply : FsResult Value) (fs : Fs S)
        → Within H F (λ h. T h ⊎ (reply ≡ ok (Value.handle h))) fs.remote
        → Holds (replied reply fs).1
    replied-Holds (err e) fs v =
        widen H fs.remote (λ h k. k) (λ h k. elim k [ inl old ↦ old | inr new ↦ absurd (cc) ]) v
    replied-Holds (ok (Value.handle n)) fs v = ends n fs (
        widen H fs.remote (λ h k. k)
          (λ h k. elim k [ inl old ↦ inl old | inr new ↦ inr (ground (arith, new)) ]) v)
    replied-Holds (ok _) fs v =
        widen H fs.remote (λ h k. k) (λ h k. elim k [ inl old ↦ old | inr new ↦ absurd (cc) ]) v

  -- The first page of the directory, which is closed again.
  abbrev first_page : ℕ → Action (Fs S) NtStatus Value
  first_page n fs =
      let (page, read) = call S (Operation.read_directory n) fs in
      (page, (call S (Operation.close_directory n) read).1)

  first_page-Holds :
      (n : ℕ) (fs : Fs S) → Within H F (λ h. T h ⊎ (n ≡ h)) fs.remote → Holds (first_page n fs).1
  unfolding call
  first_page-Holds n fs v =
      let read = quiet H (Operation.read_directory n) fs.remote refl refl v in
      let r = (S.call (Operation.read_directory n) fs.remote).1 in
      widen H (S.call (Operation.close_directory n) r).1 (λ h k. k)
        (λ h k. elim k.0 [ inl old ↦ old | inr new ↦ absurd (k.1 (ground (arith, new))) ])
        (close_directory-Within H n r read)

  check_empty-Stays : (p : MountPath) → Stays (Namespace.check_empty S p)
  unfolding Namespace.check_empty call
  check_empty-Stays p fs v =
      let (reply, r) = S.call (Operation.open_directory p) fs.remote in
      let judge : Value → Action (Fs S) NtStatus (Unit {0}) =
        λ page. raise_if (not (Namespace.is_empty_page page)) NtStatus.directory_not_empty in
      replied-Holds (λ n. first_page n >>= judge)
        (λ n t w.
          bind_cases (λ r. Holds r.1) judge (first_page n) t (λ e bad. first_page-Holds n t w)
            (λ page good. first_page-Holds n t w))
        reply (record fs { remote = r }) (open_directory-Within H p fs.remote v)

  ruleset steps = (
    Stays-bind, Stays-ordinary, Stays-if, Sends-lift, Sends-pure, Sends-raise_if,
    Sends-context_path, Sends-require_writable, check_empty-Stays,
  )

  pub set_delete-Stays : (c : Context) (delete : Bool) → Stays (Namespace.set_delete S c delete)
  unfolding Namespace.set_delete
  set_delete-Stays c false = λ fs v. v
  set_delete-Stays c true = search steps depth 12

  module _ (describe : NtStatus → String) where
    delete_or_warn-Holds :
        (p : MountPath) (is_dir : Bool) (fs : Fs S)
        → Holds fs
        → Holds (Namespace.delete_or_warn S describe p is_dir fs)
    unfolding Namespace.delete_or_warn call
    delete_or_warn-Holds p is_dir fs v =
        let op = Operation.remove p is_dir in
        let w = quiet H op fs.remote refl refl v in
        let (reply, r) = S.call op fs.remote in
        let warned = λ (message : String).
          Ordinary.warn-Keeps S message (Within H F T) (ordinary-Within H)
            (record fs { remote = r }) w in
        elim (Result-cases reply) [
          | inr (x, good) ↦ rw (good, Namespace.delete_or_warn, call) w
          | inl (e, bad) ↦ rw (bad, Namespace.delete_or_warn, call) (warned _)
        ]

    abbrev deleted : Bool → Bool → Result NtStatus MountPath → Fs S → Fs S
    deleted asked is_dir target fs =
        if asked
        then elim target [ err _ ↦ fs | ok p ↦ Namespace.delete_or_warn S describe p is_dir fs ]
        else fs

    deleted-Holds :
        (asked is_dir : Bool) (target : Result NtStatus MountPath) (fs : Fs S)
        → Holds fs
        → Holds (deleted asked is_dir target fs)
    deleted-Holds false is_dir target fs v = v
    deleted-Holds true is_dir (err e) fs v = v
    deleted-Holds true is_dir (ok p) fs v = delete_or_warn-Holds p is_dir fs v

    pub cleanup-Holds :
        (c : Context) (name : Option WideName) (flags : ℕ) (fs : Fs S)
        → Holds fs
        → Holds (Namespace.cleanup S describe c name flags fs)
    unfolding Namespace.cleanup
    cleanup-Holds c none flags fs v =
        deleted-Holds (has flags 1) c.is_dir (context_path S c fs).0 fs v
    cleanup-Holds c (some name) flags fs v = deleted-Holds (has flags 1) c.is_dir (path S name) fs v
