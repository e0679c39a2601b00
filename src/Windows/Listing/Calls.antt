-- ===== src/Windows/Listing/Calls.antt =====
-- src/windows.rs, `read_directory`: what its calls over the pipe keep, it keeps.
use shell_canvas_drive_bridg.Base.{
  ℕ, ◌≡◌, refl, Bool, true, false, Option, none, some, Result, Action, ◌>>=◌, ◌>>◌, pure,
  bind_cases, lift,
}
use shell_canvas_drive_bridg.Sdk.{Sdk, Operation}
use shell_canvas_drive_bridg.Windows.Status.{NtStatus}
use shell_canvas_drive_bridg.Windows.Names.{WideName}
use shell_canvas_drive_bridg.Windows.Contexts
use shell_canvas_drive_bridg.Windows.Contexts.{Context, Fs, call, context_path, as_handle, unread}
use shell_canvas_drive_bridg.Windows.Listing.Kept.{read_directory-kept}
use shell_canvas_drive_bridg.Windows.Listing.{
  DirBuffer, Stream, with_directory, change_directory, close_stream, open_stream, reopen,
  read_directory,
}

-- The operations of a listing.
abbrev pub is_listing : Operation → Bool
is_listing (Operation.open_directory p) = true
is_listing (Operation.close_directory h) = true
is_listing (Operation.read_directory h) = true
is_listing _ = false

module _ (S : Sdk) (Q : Fs S → Type 0)
    (calls : (op : Operation) (fs : Fs S) → is_listing op ≡ true → Q fs → Q (call S op fs).1) where
  abbrev Keeps : {A : Type 0} → Action (Stream S) NtStatus A → Type 0
  Keeps m = (t : Stream S) → Q t.1 → Q (m t).1.1

  abbrev KeepsFs : {A : Type 0} → Action (Fs S) NtStatus A → Type 0
  KeepsFs m = (fs : Fs S) → Q fs → Q (m fs).1

  Keeps-bind :
      {A B : Type 0} (m : Action (Stream S) NtStatus A) (f : A → Action (Stream S) NtStatus B)
      → Keeps m
      → ((a : A) → Keeps (f a))
      → Keeps (m >>= f)
  Keeps-bind m f k h t q =
      bind_cases (λ r. Q r.1.1) f m t (λ e _. k t q) (λ a _. h a (m t).1 (k t q))

  KeepsFs-bind :
      {A B : Type 0} (m : Action (Fs S) NtStatus A) (f : A → Action (Fs S) NtStatus B)
      → KeepsFs m
      → ((a : A) → KeepsFs (f a))
      → KeepsFs (m >>= f)
  KeepsFs-bind m f k h fs q =
      bind_cases (λ r. Q r.1) f m fs (λ e _. k fs q) (λ a _. h a (m fs).1 (k fs q))

  Keeps-lift : {A : Type 0} (r : Result NtStatus A) → Keeps (lift r)
  Keeps-lift r t q = q

  KeepsFs-lift : {A : Type 0} (r : Result NtStatus A) → KeepsFs (lift r)
  KeepsFs-lift r fs q = q

  KeepsFs-pure : {A : Type 0} (a : A) → KeepsFs (pure a)
  KeepsFs-pure a fs q = q

  call-KeepsFs : (op : Operation) → is_listing op ≡ true → KeepsFs (call S op)
  call-KeepsFs op listed fs q = calls op fs listed q

  context_path-KeepsFs : (c : Context) → KeepsFs (context_path S c)
  context_path-KeepsFs c fs q = q

  Keeps-with_directory :
      {A : Type 0} (m : Action (Fs S) NtStatus A) → KeepsFs m → Keeps (with_directory S m)
  Keeps-with_directory m k (d, fs) q = k fs q

  Keeps-change_directory :
      (f : Contexts.Directory → Contexts.Directory) → Keeps (change_directory S f)
  Keeps-change_directory f (d, fs) q = q

  ruleset steps = (
    Keeps-bind, Keeps-lift, Keeps-with_directory, Keeps-change_directory, KeepsFs-bind,
    KeepsFs-lift, KeepsFs-pure, call-KeepsFs, context_path-KeepsFs,
  )

  close_call-KeepsFs : (h : ℕ) → KeepsFs (call S (Operation.close_directory h) >> pure tt)
  close_call-KeepsFs h = search steps

  close_stream-Keeps : (o : Option ℕ) → Keeps (close_stream S o)
  unfolding close_stream
  close_stream-Keeps none t q = q
  close_stream-Keeps (some h) (d, fs) q = close_call-KeepsFs h fs q

  open_stream-KeepsFs : (c : Context) → KeepsFs (open_stream S c)
  unfolding open_stream
  open_stream-KeepsFs c = search steps

  first_close-Keeps : Keeps (λ t. close_stream S t.0.handle t)
  first_close-Keeps t = close_stream-Keeps t.0.handle t

  reopen-Keeps : (c : Context) → Keeps (reopen S c)
  unfolding reopen
  reopen-Keeps c = search (steps, first_close-Keeps, open_stream-KeepsFs) depth 8

  pub read_directory-calls :
      (K : DirBuffer) (fuel : ℕ) (c : Context) (marker : Option WideName) (b : K.Buffer) (fs : Fs S)
      (r : Result NtStatus K.Buffer) (d : Contexts.Directory) (fs' : Fs S)
      → Q fs
      → read_directory S K fuel c marker b fs ≡ some (r, (d, fs'))
      → Q fs'
  read_directory-calls =
      read_directory-kept S (λ t. Q t.1) (λ h d fs q. calls (Operation.read_directory h) fs refl q)
        (λ d e fs _ q. q) reopen-Keeps
