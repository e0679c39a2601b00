-- ===== src/Windows/Listing.antt =====
-- src/windows.rs, `read_directory`: the listing of a directory, from the entry after a marker on.
pub mod Calls
pub mod Complete
pub mod Kept
pub mod Markers
use shell_canvas_drive_bridg.Base.{
  ℕ, zero, suc, Bool, true, false, not, ◌&&◌, ◌||◌, Option, none, some, List, [], ◌∷◌, ◌++◌, String,
  Result, ok, err, Action, is_some, if◌then◌else◌, ◌==◌, ok_or, lift, pure, ◌>>=◌, ◌>>◌, string_eq,
}
use shell_canvas_drive_bridg.Sdk.Listings.{is_empty}
use shell_canvas_drive_bridg.Sdk.{Sdk, Operation, Value, FsDirectoryEntry, MountPath}
use shell_canvas_drive_bridg.Windows.Status.{NtStatus, invalid}
use shell_canvas_drive_bridg.Windows.Names.{WideName}
use shell_canvas_drive_bridg.Windows.Info.{FileInfo, fill}
use shell_canvas_drive_bridg.Windows.Contexts.{
  Context, Directory, Fs, call, as_handle, context_path, unread,
}

-- The reply buffer of the WinFsp library, with its cursor: `DirInfo` may refuse a name, and an
-- entry that does not fit is not put in.
pub record DirBuffer : Type 1 where
  pub Buffer : Type 0
  pub Info : Type 0
  pub dir_info : FileInfo → String → Result NtStatus Info
  pub append_to_buffer : Info → Buffer → Bool × Buffer
  pub finalize_buffer : Buffer → Buffer

abbrev pub as_entries : Value → Result NtStatus (List FsDirectoryEntry)
as_entries (Value.entries es) = ok es
as_entries _ = err invalid

-- `==` on `Option<String>`
abbrev pub same_name : Option String → Option String → Bool
same_name none none = true
same_name (some a) (some b) = a == b
same_name _ _ = false

-- `marker.inner_as_cstr().map(|s| s.to_string()).transpose()`
abbrev pub read_marker : Option WideName → Result NtStatus (Option String)
read_marker none = ok none
read_marker (some none) = err invalid
read_marker (some (some name)) = ok (some name)

module _ (S : Sdk) where
  -- The directory of a context together with all else.
  abbrev pub Stream : Type 0
  Stream = Directory × Fs S

  abbrev pub with_directory : {A : Type 0} → Action (Fs S) NtStatus A → Action Stream NtStatus A
  with_directory m (d, fs) = let (v, fs') = m fs in (v, (d, fs'))

  abbrev pub change_directory : (Directory → Directory) → Action Stream NtStatus (Unit {0})
  change_directory f (d, fs) = (ok tt, (f d, fs))

  -- The handle is given up before the close is sent.
  unfoldable pub close_stream : Option ℕ → Action Stream NtStatus (Unit {0})
  close_stream none t = (ok tt, t)
  close_stream (some h) (d, fs) =
      with_directory (call S (Operation.close_directory h) >> pure tt)
        (record d { handle = none }, fs)

  unfoldable pub open_stream : Context → Action (Fs S) NtStatus ℕ
  open_stream context = do
    p ← context_path S context
    v ← call S (Operation.open_directory p)
    lift (as_handle v)

  unfoldable pub reopen : Context → Action Stream NtStatus (Unit {0})
  reopen context = do
    λ t. close_stream t.0.handle t
    h ← with_directory (open_stream context)
    change_directory (λ _. record unread { handle = some h })

  -- The listing starts again unless the marker is the entry that was handed out last.
  unfoldable pub position : Context → Option String → Action Stream NtStatus (Unit {0})
  position context marker t =
      if not (is_some t.0.handle) || not (same_name marker t.0.last)
      then reopen context t
      else (ok tt, t)

  unfoldable pub fetch_page : Option ℕ → Action Stream NtStatus (Unit {0})
  fetch_page handle = do
    h ← lift (ok_or handle invalid)
    v ← with_directory (call S (Operation.read_directory h))
    es ← lift (as_entries v)
    change_directory (λ d. record d { eof = is_empty es; pending = d.pending ++ es })

  -- The next page, if nothing is pending and the listing has not ended.
  unfoldable pub next_page : Action Stream NtStatus (Unit {0})
  next_page t = if is_empty t.0.pending && not t.0.eof then fetch_page t.0.handle t else (ok tt, t)

  -- Whether the marker is still ahead of the next entry.
  abbrev pub is_seeking : Option String → Directory → Bool
  is_seeking marker d = is_some marker && not (same_name marker d.last)

  module _ (K : DirBuffer) where
    abbrev pub Listed : Type 0
    Listed = Result NtStatus K.Buffer × Stream

    -- One round of the loop ends it, or goes on: whether the marker is still ahead, and what is
    -- left.
    pub data Round : Type 0 where
      stops : Listed → Round
      goes_on : Bool → Stream → K.Buffer → Round

    -- The next entry is put into the buffer, or stays pending where it does not fit.
    unfoldable pub hand_out : FsDirectoryEntry → List FsDirectoryEntry → Stream → K.Buffer → Round
    hand_out entry rest (d, fs) b = elim (K.dir_info (fill entry.metadata) entry.name) [
      | err e ↦ stops (err e, (d, fs))
      | ok info ↦
          let (fits, b') = K.append_to_buffer info b in
          elim fits [
            | false ↦ stops (ok b', (d, fs))
            | true ↦ goes_on false (record d { pending = rest; last = some entry.name }, fs) b'
          ]
    ]

    unfoldable pub take_entry :
        Option String → Bool → List FsDirectoryEntry → Stream → K.Buffer → Round
    take_entry marker seeking [] t b = stops (ok (K.finalize_buffer b), t)
    take_entry marker true (entry ∷ rest) (d, fs) b =
        goes_on (not (same_name (some entry.name) marker)) (record d { pending = rest }, fs) b
    take_entry marker false (entry ∷ rest) t b = hand_out entry rest t b

    unfoldable pub list_round : Option String → Bool → Stream → K.Buffer → Round
    list_round marker seeking t b =
        let (v, t') = next_page t in
        elim v [ err e ↦ stops (err e, t') | ok _ ↦ take_entry marker seeking t'.0.pending t' b ]

    -- The loop. `none` means that the fuel ran out.
    unfoldable pub list_loop : ℕ → Option String → Bool → Stream → K.Buffer → Option Listed
    list_loop zero marker seeking t b = none
    list_loop (suc fuel) marker seeking t b = elim (list_round marker seeking t b) [
      | stops l ↦ some l
      | goes_on seeking' t' b' ↦ list_loop fuel marker seeking' t' b'
    ]

    abbrev pub list_from :
        ℕ → Option String → Result NtStatus (Unit {0}) × Stream → K.Buffer → Option Listed
    list_from fuel marker (err e, t) b = some (err e, t)
    list_from fuel marker (ok _, t) b = list_loop fuel marker (is_seeking marker t.0) t b

    unfoldable pub read_directory : ℕ → Context → Option WideName → K.Buffer → Fs S → Option Listed
    read_directory fuel context marker b fs = elim (read_marker marker) [
      | err e ↦ some (err e, (context.directory, fs))
      | ok marker ↦ list_from fuel marker (position context marker (context.directory, fs)) b
    ]
