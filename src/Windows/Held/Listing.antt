-- ===== src/Windows/Held/Listing.antt =====
-- src/windows.rs: a listing closes the stream of its context before it opens another, and
-- `set_delete` closes the directory that it looks into.
use shell_canvas_drive_bridg.Base.{
  ℕ, ◌≡◌, ◌⊎◌, inl, inr, refl, ap, ◌∙◌, sym, Option, none, some, Result, ok, err, map_err, Action,
  pure, lift, ◌>>=◌, bind_cases, arith,
}
use shell_canvas_drive_bridg.Sdk.{Sdk, Operation, Value, FsResult, MountPath}
use shell_canvas_drive_bridg.Sdk.Handles.{Handles}
use shell_canvas_drive_bridg.Windows.Status.{NtStatus, failure}
use shell_canvas_drive_bridg.Windows.Names.{WideName}
use shell_canvas_drive_bridg.Windows.Contexts
use shell_canvas_drive_bridg.Windows.Contexts.{Context, Fs, call, as_handle, context_path}
use shell_canvas_drive_bridg.Windows.Listing.{
  DirBuffer, Stream, close_stream, open_stream, reopen, read_directory, with_directory,
  change_directory,
}
use shell_canvas_drive_bridg.Windows.Listing.Kept.{read_directory-kept}
use shell_canvas_drive_bridg.Windows.Held.{
  Within, widen, quiet, open_directory-Within, close_directory-Within,
}

-- The stream that a result hands over.
abbrev pub Opened : Result NtStatus ℕ → ℕ → Type 0
Opened (ok n) h = n ≡ h
Opened (err e) h = ⊥

module _ {S : Sdk} (H : Handles S) (F T : ℕ → Type 0) where
  abbrev opened : FsResult Value → Fs S → Result NtStatus ℕ × Fs S
  opened reply fs = ((λ _. (map_err failure reply, fs)) >>= λ v. lift (as_handle v)) fs

  abbrev Gives : Result NtStatus ℕ × Fs S → Type 0
  Gives (r, fs) = Within H F (λ h. T h ⊎ Opened r h) fs.remote

  opened-Gives :
      (reply : FsResult Value) (fs : Fs S)
      → Within H F (λ h. T h ⊎ (reply ≡ ok (Value.handle h))) fs.remote
      → Gives (opened reply fs)
  opened-Gives (err e) fs v =
      widen H fs.remote (λ h k. k) (λ h k. elim k [ inl old ↦ inl old | inr new ↦ absurd (cc) ]) v
  opened-Gives (ok (Value.handle n)) fs v =
      widen H fs.remote (λ h k. k)
        (λ h k. elim k [ inl old ↦ inl old | inr new ↦ inr (ground (arith, new)) ]) v
  opened-Gives (ok _) fs v =
      widen H fs.remote (λ h k. k) (λ h k. elim k [ inl old ↦ inl old | inr new ↦ absurd (cc) ]) v

  -- A directory is opened, and its handle is the reply.
  pub opening-Gives :
      (p : MountPath) (fs : Fs S)
      → Within H F T fs.remote
      → Gives ((call S (Operation.open_directory p) >>= λ v. lift (as_handle v)) fs)
  unfolding call
  opening-Gives p fs v =
      let (reply, r) = S.call (Operation.open_directory p) fs.remote in
      opened-Gives reply (record fs { remote = r }) (open_directory-Within H p fs.remote v)

  open_stream-Gives :
      (c : Context) (fs : Fs S) → Within H F T fs.remote → Gives (open_stream S c fs)
  unfolding open_stream
  open_stream-Gives c fs v =
      bind_cases Gives (λ p. call S (Operation.open_directory p) >>= λ v. lift (as_handle v))
        (context_path S c) fs (λ e bad. widen H fs.remote (λ h k. k) (λ h k. inl k) v)
        (λ p good. opening-Gives p fs v)

  -- What is open lies within `F` and `T` but for the stream of the directory.
  abbrev pub Streams : Stream S → Type 0
  Streams (d, fs) = Within H F (λ h. T h ⊎ (d.handle ≡ some h)) fs.remote

  abbrev Bare : Stream S → Type 0
  Bare (d, fs) = Within H F T fs.remote

  closing :
      (n : ℕ) (d : Contexts.Directory) (fs : Fs S)
      → Within H F (λ h. T h ⊎ (some n ≡ some h)) fs.remote
      → Bare (close_stream S (some n) (d, fs)).1
  unfolding close_stream call
  closing n d fs v =
      let w = close_directory-Within H n fs.remote v in
      let bare =
        widen H (S.call (Operation.close_directory n) fs.remote).1 (λ h k. k)
          (λ h k. elim k.0 [ inl old ↦ old | inr new ↦ absurd (k.1 (ground (arith, new))) ]) w in
      bind_cases (λ r. Within H F T r.1.remote) (λ _. pure tt)
        (call S (Operation.close_directory n)) fs (λ e bad. bare) (λ x good. bare)

  close_stream-Bare :
      (o : Option ℕ) (d : Contexts.Directory) (fs : Fs S)
      → Within H F (λ h. T h ⊎ (o ≡ some h)) fs.remote
      → Bare (close_stream S o (d, fs)).1
  unfolding close_stream
  close_stream-Bare none d fs v =
      widen H fs.remote (λ h k. k) (λ h k. elim k [ inl old ↦ old | inr new ↦ absurd (cc) ]) v
  close_stream-Bare (some n) d fs v = closing n d fs v

  Bare-Streams : (t : Stream S) → Bare t → Streams t
  Bare-Streams (d, fs) v = widen H fs.remote (λ h k. k) (λ h k. inl k) v

  -- What `reopen` does once the old stream is closed.
  abbrev renew : Context → Action (Stream S) NtStatus (Unit {0})
  renew c = with_directory S (open_stream S c) >>= λ h.
      change_directory S (λ _. record Contexts.unread { handle = some h })

  renewed : (c : Context) (t : Stream S) → Bare t → Streams (renew c t).1
  renewed c (d, fs) v =
      let m = open_stream S c in
      let w = open_stream-Gives c fs v in
      bind_cases (λ r. Streams r.1)
        (λ h. change_directory S (λ _. record Contexts.unread { handle = some h }))
        (with_directory S m) (d, fs)
        (λ e bad.
          widen H (m fs).1.remote (λ h k. k)
            (λ h k. elim k [
              | inl old ↦ inl old
              | inr new ↦ absurd (coe 0 1 (i. Opened (bad i) h) new)
            ])
            w)
        (λ n good.
          widen H (m fs).1.remote (λ h k. k)
            (λ h k. elim k [
              | inl old ↦ inl old
              | inr new ↦ inr (ap some (coe 0 1 (i. Opened (good i) h) new))
            ])
            w)

  reopen-Streams : (c : Context) (t : Stream S) → Streams t → Streams (reopen S c t).1
  unfolding reopen
  reopen-Streams c (d, fs) v =
      let close : Action (Stream S) NtStatus (Unit {0}) = λ t. close_stream S t.0.handle t in
      let w = close_stream-Bare d.handle d fs v in
      bind_cases (λ r. Streams r.1) (λ _. renew c) close (d, fs)
        (λ e bad. Bare-Streams (close (d, fs)).1 w) (λ x good. renewed c (close (d, fs)).1 w)

  pub read_directory-Streams :
      (K : DirBuffer) (fuel : ℕ) (c : Context) (marker : Option WideName) (b : K.Buffer) (fs : Fs S)
      (r : Result NtStatus K.Buffer) (d : Contexts.Directory) (t : Fs S)
      → Streams (c.directory, fs)
      → read_directory S K fuel c marker b fs ≡ some (r, (d, t))
      → Streams (d, t)
  unfolding call
  read_directory-Streams =
      read_directory-kept S Streams
        (λ h d fs v. quiet H (Operation.read_directory h) fs.remote refl refl v)
        (λ d e fs same v.
          widen H fs.remote (λ h k. k)
            (λ h k. elim k [ inl old ↦ inl old | inr own ↦ inr (sym same ∙ own) ]) v)
        reopen-Streams
