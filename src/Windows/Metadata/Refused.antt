-- ===== src/Windows/Metadata/Refused.antt =====
-- src/windows.rs: a change of metadata that is refused is not sent, in any of its parts.
use shell_canvas_drive_bridg.Base.{
  ℕ, bit_and, ◌<◌, ◌⊎◌, inl, inr, ◌≢◌, ◌≡◌, refl, sym, ap, subst, ◌∙◌, Bool, true, false, Option,
  none, some, ok, err, Action, arith, ◌>>=◌, ◌>>◌, bind_cases,
}
use shell_canvas_drive_bridg.Sdk.{Sdk, Operation, FsMetadata, FsSetMetadata, BridgeEvent}
use shell_canvas_drive_bridg.Windows.Status.{NtStatus, failure, status_of_kind, invalid}
use shell_canvas_drive_bridg.Windows.Attributes.{
  has, unknown_attributes, permissions, creation_attributes, validate_attributes,
}
use shell_canvas_drive_bridg.Windows.Attributes.Refused.{RefusedAttributes, permissions-Refused}
use shell_canvas_drive_bridg.Windows.Times.{
  epoch, max_filetime, unix_seconds, validate_unsupported_times,
}
use shell_canvas_drive_bridg.Windows.Info.{FileInfo}
use shell_canvas_drive_bridg.Windows.Contexts.{Context, Fs, warn, metadata, metadata_reply}
use shell_canvas_drive_bridg.Windows.Steady.Changes.{changes-Steady}
use shell_canvas_drive_bridg.Sdk.{IsStable}
use shell_canvas_drive_bridg.Windows.Sends.{sending, Sends}
use shell_canvas_drive_bridg.Windows.Metadata.{
  overwrite_changes, overwrite, basic_changes, apply_changes, warn_once, confirm, set_basic_info,
  change_time_omitted, omits_change_time, wanted_attributes,
}

-- Questions for metadata, and reports.
abbrev pub only_asks : Operation → Bool
only_asks (Operation.metadata p) = true
only_asks (Operation.file_metadata h) = true
only_asks (Operation.report e) = true
only_asks _ = false

-- A creation time, a change time that comes alone, or a time that does not fit.
abbrev pub OutOfRange : ℕ → Type 0
OutOfRange t = (t ≢ 0) × ((t < epoch) ⊎ (max_filetime < t))

abbrev pub Unsettable : ℕ → ℕ → ℕ → ℕ → Type 0
Unsettable created access write changed =
    (created ≢ 0)
    ⊎ ((changed ≢ 0) × (access ≡ 0) × (write ≡ 0))
    ⊎ OutOfRange access
    ⊎ OutOfRange write

module _ (S : Sdk) where
  abbrev Asks : {B : Type 0} → Action (Fs S) NtStatus B → Type 1
  Asks m = Sends S only_asks m

  reply-Asks : (o : Option ℕ) (c : Context) → Asks (metadata_reply S o c)
  unfolding metadata_reply
  reply-Asks none c = search sending
  reply-Asks (some h) c = search sending

  metadata-Asks : (c : Context) → Asks (metadata S c)
  unfolding metadata
  metadata-Asks c = search (sending, reply-Asks)

  overwrite_changes-Asks :
      (c : Context) (requested : ℕ) (replace : Bool)
      → Asks (overwrite_changes S c requested replace)
  unfolding overwrite_changes
  overwrite_changes-Asks c requested replace = search (sending, metadata-Asks) depth 12

  basic_changes-Asks :
      (c : Context) (requested created access write changed : ℕ)
      → Asks (basic_changes S c requested created access write changed)
  unfolding basic_changes
  basic_changes-Asks c requested created access write changed =
      search (sending, metadata-Asks) depth 12

  confirm-Asks : (omitted : Bool) (m : FsMetadata) → Asks (confirm S omitted m)
  unfolding confirm warn_once warn
  confirm-Asks omitted m I stable fs i = ground (
    arith,
    i,
    stable (Operation.report (BridgeEvent.warning change_time_omitted)) fs.remote refl i,
  )

  confirmed-Asks : (c : Context) (omitted : Bool) → Asks (metadata S c >>= confirm S omitted)
  confirmed-Asks c omitted = search (sending, metadata-Asks, confirm-Asks)

  -- On a read-only volume nothing is sent.
  apply_read_only :
      (c : Context) (changes : FsSetMetadata) (fs : Fs S)
      → fs.caps.writable ≡ false
      → (apply_changes S c changes fs).1 ≡ fs
  unfolding apply_changes
  apply_read_only c changes fs read_only = ground (arith, read_only)

  module _ (I : S.Remote → Type 0) (stable : IsStable S only_asks I) (c : Context)
      (requested created access write changed : ℕ) (fs : Fs S) (i : I fs.remote) where
    -- A `set_basic_info` on a read-only volume, whatever comes of it, only asks for metadata and
    -- reports a warning: the provider keeps what those keep.
    pub set_basic_info_read_only :
        fs.caps.writable ≡ false
        → I (set_basic_info S c requested created access write changed fs).1.remote
    unfolding set_basic_info
    set_basic_info_read_only read_only =
        let m = basic_changes S c requested created access write changed in
        let asked = basic_changes-Asks c requested created access write changed I stable fs i in
        let still : (m fs).1.caps.writable ≡ false =
          ap (λ t. t.3.writable) (changes-Steady S c requested created access write changed fs)
          ∙ read_only in
        let confirmed : Bool → Action (Fs S) NtStatus FileInfo =
          λ omitted. metadata S c >>= confirm S omitted in
        bind_cases (λ r. I r.1.remote)
          (λ changes.
            apply_changes S c changes >> confirmed (omits_change_time access write changed))
          m fs (λ _ _. asked)
          (λ changes _.
            let same = apply_read_only c changes (m fs).1 still in
            let kept : I (apply_changes S c changes (m fs).1).1.remote =
              subst (λ f. I f.remote) (sym same) asked in
            bind_cases (λ r. I r.1.remote) (λ _. confirmed (omits_change_time access write changed))
              (apply_changes S c changes) (m fs).1 (λ _ _. kept)
              (λ _ _.
                confirmed-Asks c (omits_change_time access write changed) I stable
                  (apply_changes S c changes (m fs).1).1 kept))

  -- Why a `set_basic_info` is refused.
  abbrev pub Unkept : Context → ℕ → ℕ → ℕ → ℕ → ℕ → Fs S → Type 0
  Unkept c requested created access write changed fs =
      Unsettable created access write changed
      ⊎ ((m : FsMetadata) × ((metadata S c fs).0 ≡ ok m) × RefusedAttributes m requested)

  -- A `set_basic_info` that sets a creation time, or a change time and no other time, or an access
  -- or write time outside the range, fails as not supported. So does one whose context has metadata
  -- with which the attributes cannot be kept. Nothing is sent but at most a question for metadata.
  pub set_basic_info_refused :
      (c : Context) (requested created access write changed : ℕ) (fs : Fs S)
      → Unkept c requested created access write changed fs
      → let (v, t) = set_basic_info S c requested created access write changed fs in
        (v ≡ err NtStatus.not_supported) × ((t ≡ fs) ⊎ (t ≡ (metadata S c fs).1))
  unfolding set_basic_info basic_changes validate_unsupported_times omits_change_time unix_seconds
      failure status_of_kind
  set_basic_info_refused c requested created access write changed fs (inl why) = ground arith
  set_basic_info_refused c requested created access write changed fs (inr (m, known, why)) =
      ground (arith, known, permissions-Refused m requested why)

  -- Why an `overwrite` is refused, with the status and the state that it leaves.
  pub data Obstacle (c : Context) (requested : ℕ) (replace : Bool) (fs : Fs S)
      : NtStatus → Fs S → Type 0 where
    read_only :
        fs.caps.writable ≡ false → Obstacle c requested replace fs NtStatus.media_write_protected fs
    foreign :
        (m : FsMetadata)
        → fs.caps.writable ≡ true
        → (metadata S c fs).0 ≡ ok m
        → has (bit_and requested 0xffff_ffdf) unknown_attributes ≡ true
        → Obstacle c requested replace fs NtStatus.not_supported (metadata S c fs).1
    unsettable :
        (m : FsMetadata)
        → fs.caps.writable ≡ true
        → (metadata S c fs).0 ≡ ok m
        → RefusedAttributes m (wanted_attributes S replace m (bit_and requested 0xffff_ffdf))
        → Obstacle c requested replace fs NtStatus.not_supported (metadata S c fs).1
    unopened :
        (m : FsMetadata) (kept : ℕ) (o : Option ℕ)
        → fs.caps.writable ≡ true
        → (metadata S c fs).0 ≡ ok m
        → creation_attributes requested false ≡ ok kept
        → permissions m (wanted_attributes S replace m kept) ≡ ok o
        → c.file ≡ none
        → Obstacle c requested replace fs invalid (metadata S c fs).1

  -- An `overwrite` on a read-only volume fails as write-protected, and nothing is sent. On another
  -- volume, if the context has metadata, one with attributes that cannot be kept fails as not
  -- supported, and one that gets past that on a context without a remote file as invalid; in both
  -- only the question for metadata is sent.
  pub overwrite_refused :
      (c : Context) (requested : ℕ) (replace : Bool) (fs : Fs S) (e : NtStatus) (t : Fs S)
      → Obstacle c requested replace fs e t
      → overwrite S c requested replace fs ≡ (err e, t)
  unfolding overwrite overwrite_changes creation_attributes validate_attributes failure
      status_of_kind
  overwrite_refused c requested replace fs e t (Obstacle.read_only h) = ground arith
  overwrite_refused c requested replace fs e t (Obstacle.foreign m h known bad) = ground arith
  overwrite_refused c requested replace fs e t (Obstacle.unsettable m h known bad) =
      ground (arith, permissions-Refused m _ bad)
  overwrite_refused c requested replace fs e t (Obstacle.unopened m kept o h known a b none_open) =
      ground arith
