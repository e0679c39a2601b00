-- ===== src/Windows/Sends/Contexts.antt =====
-- src/windows.rs: `open`, `create` and `close` delete nothing at the provider.
use shell_canvas_drive_bridg.Base.{
  ℕ, ◌≡◌, refl, Bool, true, false, Option, String, Action, ◌>>=◌, Result-cases, inl, inr,
}
use shell_canvas_drive_bridg.Sdk.{Sdk, Operation, MountPath, FsCreate}
use shell_canvas_drive_bridg.Windows.Status.{NtStatus}
use shell_canvas_drive_bridg.Windows.Names.{WideName}
use shell_canvas_drive_bridg.Windows.Contexts.{
  Context, Fs, warn, open_handle, drop_context, open_context, track, tracked_context,
}
use shell_canvas_drive_bridg.Windows.Info.{FileInfo}
use shell_canvas_drive_bridg.Windows.Opening
use shell_canvas_drive_bridg.Sdk.{IsStable}
use shell_canvas_drive_bridg.Windows.Sends.Ordinary
use shell_canvas_drive_bridg.Windows.Sends.Ordinary.{ordinary}
use shell_canvas_drive_bridg.Windows.Sends.{sending, Sends-widen, Sends-release, Sends}

abbrev pub keeps_entries : Operation → Bool
keeps_entries (Operation.remove p d) = false
keeps_entries _ = true

module _ (S : Sdk) where
  abbrev pub Keeps : {B : Type 0} → Action (Fs S) NtStatus B → Type 1
  Keeps m = Sends S keeps_entries m

  -- What sends ordinary operations deletes nothing.
  pub widened : (op : Operation) → ordinary op ≡ true → keeps_entries op ≡ true
  widened (Operation.remove p d) e = absurd (cc)
  widened _ e = refl

  ordinary-Keeps : {B : Type 0} (m : Action (Fs S) NtStatus B) → Sends S ordinary m → Keeps m
  ordinary-Keeps m k = Sends-widen m widened k

  find_entry-Keeps : (name : WideName) (options : ℕ) → Keeps (Opening.find_entry S name options)
  find_entry-Keeps name options =
      ordinary-Keeps (Opening.find_entry S name options) (Ordinary.find_entry-Keeps S name options)

  make_entry-Keeps :
      (name : WideName) (options requested : ℕ)
      → Keeps (Opening.make_entry S name options requested)
  make_entry-Keeps name options requested =
      ordinary-Keeps (Opening.make_entry S name options requested)
        (Ordinary.make_entry-Keeps S name options requested)

  initialize-Keeps : (c : Context) (requested : ℕ) → Keeps (Opening.initialize S c requested)
  initialize-Keeps c requested =
      ordinary-Keeps (Opening.initialize S c requested) (Ordinary.initialize-Keeps S c requested)

  open_handle-Keeps :
      (p : MountPath) (access : ℕ) (create : FsCreate) (is_dir : Bool)
      → Keeps (open_handle S p access create is_dir)
  unfolding open_handle
  open_handle-Keeps p access create is_dir = search sending depth 8

  track-Keeps :
      (p : MountPath) (access : ℕ) (create : FsCreate) (is_dir : Bool) (file : Option ℕ)
      → Keeps (tracked_context S p access create is_dir file)
  unfolding track
  track-Keeps p access create is_dir file I stable fs i = i

  open_context-Keeps :
      (p : MountPath) (access : ℕ) (create : FsCreate) (is_dir : Bool)
      → Keeps (open_context S p access create is_dir)
  unfolding open_context
  open_context-Keeps p access create is_dir =
      Sends-release
        (open_handle S p access create is_dir >>= tracked_context S p access create is_dir)
        (search (sending, open_handle-Keeps, track-Keeps))

  pub open_entry-Keeps :
      (name : WideName) (options access : ℕ) → Keeps (Opening.open_entry S name options access)
  unfolding Opening.open_entry
  open_entry-Keeps name options access =
      search (sending, find_entry-Keeps, open_context-Keeps) depth 10

  -- Code that cannot fail.
  abbrev pub KeepsOn : (Fs S → Fs S) → Type 1
  KeepsOn f =
      (I : S.Remote → Type 0)
      → IsStable S keeps_entries I
      → (fs : Fs S) → I fs.remote
      → I (f fs).remote

  ordinary-KeepsOn : (f : Fs S → Fs S) → Ordinary.KeepsOn S f → KeepsOn f
  ordinary-KeepsOn f k I stable fs i = k I (λ op r a. stable op r (widened op a)) fs i

  pub warn-Keeps : (message : String) → KeepsOn (warn S message)
  warn-Keeps message = ordinary-KeepsOn (warn S message) (Ordinary.warn-Keeps S message)

  pub drop-Keeps : (c : Context) → KeepsOn (drop_context S c)
  drop-Keeps c = ordinary-KeepsOn (drop_context S c) (Ordinary.drop-Keeps S c)

  abandon-Keeps :
      (c : Context) (m : Action (Fs S) NtStatus FileInfo)
      → Keeps m
      → Keeps (λ fs. Opening.abandon_on_error S c (m fs))
  unfolding Opening.abandon_on_error
  abandon-Keeps c m k I stable fs i = elim (Result-cases (m fs).0) [
    | inr (info, good) ↦ rw (good, Opening.abandon_on_error) (k I stable fs i)
    | inl (e, bad) ↦
        rw (bad, Opening.abandon_on_error)
          (drop-Keeps c I stable (warn S Opening.unconfirmed (m fs).1)
            (warn-Keeps Opening.unconfirmed I stable (m fs).1 (k I stable fs i)))
  ]

  fill_new-Keeps : (c : Context) (requested : ℕ) → Keeps (Opening.fill_new S c requested)
  unfolding Opening.fill_new
  fill_new-Keeps c requested =
      abandon-Keeps c (Opening.initialize S c requested) (initialize-Keeps c requested)

  pub create-Keeps :
      (name : WideName) (options access requested : ℕ)
      → Keeps (Opening.create S name options access requested)
  unfolding Opening.create
  create-Keeps name options access requested =
      search (sending, make_entry-Keeps, open_context-Keeps, fill_new-Keeps) depth 12
