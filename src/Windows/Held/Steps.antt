-- ===== src/Windows/Held/Steps.antt =====
-- src/windows.rs: whole histories of the volume, and the handles that the provider holds open.
use shell_canvas_drive_bridg.Base.{
  ℕ, ◌≡◌, ◌⊎◌, inl, inr, refl, Option, some, List, [], ◌∷◌, ◌++◌, Result, ok, err, subst,
}
use shell_canvas_drive_bridg.Sdk.{Sdk, FsCapabilities}
use shell_canvas_drive_bridg.Sdk.Handles.{Handles}
use shell_canvas_drive_bridg.Windows.Status.{NtStatus}
use shell_canvas_drive_bridg.Windows.Info.{FileInfo}
use shell_canvas_drive_bridg.Windows.Contexts.{Context, Fs, drop_context}
use shell_canvas_drive_bridg.Windows.Opening
use shell_canvas_drive_bridg.Windows.Volume.{Volume, WinFsp, Query, Step, Reach, accept, started}
use shell_canvas_drive_bridg.Windows.Sends.Callbacks
use shell_canvas_drive_bridg.Windows.Sends.Queries.{ordinary-kept, turn-kept}
use shell_canvas_drive_bridg.Windows.Held.{Within, widen, ordinary-Within, drop-Within}
use shell_canvas_drive_bridg.Windows.Held.Opening.{
  Gives, context_file, open_entry-Gives, create-Gives,
}
use shell_canvas_drive_bridg.Windows.Held.Listing.{read_directory-Streams}
use shell_canvas_drive_bridg.Windows.Held.Deletion.{set_delete-Stays, cleanup-Holds}

abbrev pub file_handle : Context → Option ℕ
file_handle c = c.file

abbrev pub stream_handle : Context → Option ℕ
stream_handle c = c.directory.handle

-- One of the contexts has the handle.
abbrev pub Among : (Context → Option ℕ) → ℕ → List Context → Type 0
Among get h [] = ⊥
Among get h (c ∷ cs) = (get c ≡ some h) ⊎ Among get h cs

module _ (get : Context → Option ℕ) (h : ℕ) (older : List Context) where
  Among-taken :
      (newer : List Context) (c : Context)
      → Among get h (newer ++ (c ∷ older))
      → (get c ≡ some h) ⊎ Among get h (newer ++ older)
  Among-taken [] c a = a
  Among-taken (d ∷ newer) c (inl own) = inr (inl own)
  Among-taken (d ∷ newer) c (inr a) = elim (Among-taken newer c a) [
    | inl own ↦ inl own
    | inr b ↦ inr (inr b)
  ]

  Among-put :
      (newer : List Context) (c : Context)
      → (get c ≡ some h) ⊎ Among get h (newer ++ older)
      → Among get h (newer ++ (c ∷ older))
  Among-put [] c a = a
  Among-put (d ∷ newer) c (inl own) = inr (Among-put newer c (inl own))
  Among-put (d ∷ newer) c (inr (inl own)) = inl own
  Among-put (d ∷ newer) c (inr (inr a)) = inr (Among-put newer c (inr a))

module _ {S : Sdk} (H : Handles S) where
  -- Every file and every stream that is open is that of a context.
  abbrev pub Accounts : List Context → Fs S → Type 0
  Accounts cs fs = Within H (λ h. Among file_handle h cs) (λ h. Among stream_handle h cs) fs.remote

  accepted :
      (cs : List Context) (r : Result NtStatus (Context × FileInfo) × Fs S)
      → Gives H (λ h. Among file_handle h cs) (λ h. Among stream_handle h cs) context_file r
      → let v = accept S cs r in Accounts v.contexts v.fs
  accepted cs (ok (c, info), fs) v =
      widen H fs.remote (λ h k. elim k [ inl old ↦ inr old | inr own ↦ inl own ]) (λ h k. inr k) v
  accepted cs (err e, fs) v =
      widen H fs.remote (λ h k. elim k [ inl old ↦ old | inr own ↦ absurd own ]) (λ h k. k) v

  module _ (W : WinFsp) where
    module _ (F T : ℕ → Type 0) where
      Query-Holds : {fs t : Fs S} → Query S W fs t → Within H F T fs.remote → Within H F T t.remote
      Query-Holds {fs} (Query.set_delete c delete) v = set_delete-Stays H F T c delete fs v
      Query-Holds {fs} (Query.cleanup c name flags) v =
          cleanup-Holds H F T W.status_text c name flags fs v
      Query-Holds q v = ordinary-kept S W (Within H F T) (ordinary-Within H) q refl v

    close-Accounts :
        (newer older : List Context) (c : Context) (fs : Fs S)
        → Accounts (newer ++ (c ∷ older)) fs
        → Accounts (newer ++ older) (Opening.close S c fs)
    unfolding Opening.close
    close-Accounts newer older c fs v =
        widen H (drop_context S c fs).remote
          (λ h k. elim (Among-taken file_handle h older newer c k.0) [
            | inl own ↦ absurd (k.1 own)
            | inr other ↦ other
          ])
          (λ h k. elim (Among-taken stream_handle h older newer c k.0) [
            | inl own ↦ absurd (k.1 own)
            | inr other ↦ other
          ])
          (drop-Within H c fs v)

    Step-Accounts :
        {v w : Volume S} → Step S W v w → Accounts v.contexts v.fs → Accounts w.contexts w.fs
    Step-Accounts {v} (Step.query q) i = Query-Holds _ _ q i
    Step-Accounts {v} (Step.open_entry name options access) i =
        accepted v.contexts (Opening.open_entry S name options access v.fs)
          (open_entry-Gives H _ _ name options access v.fs i)
    Step-Accounts {v} (Step.create name options access requested) i =
        accepted v.contexts (Opening.create S name options access requested v.fs)
          (create-Gives H _ _ name options access requested v.fs i)
    Step-Accounts {v} (Step.close newer older c at) i =
        close-Accounts newer older c v.fs (subst (λ cs. Accounts cs v.fs) at i)
    Step-Accounts {v} (Step.rename old new replace) i =
        Callbacks.rename-Keeps S old new replace _ (ordinary-Within H) v.fs i
    Step-Accounts {v} (Step.read_directory {t} {d} newer older c fuel marker b r at e) i =
        let all = subst (λ cs. Accounts cs v.fs) at i in
        let F : ℕ → Type 0 = λ h. Among file_handle h (newer ++ (c ∷ older)) in
        let T : ℕ → Type 0 = λ h. Among stream_handle h (newer ++ older) in
        let apart =
          widen H {G = F} {U = λ h. T h ⊎ (c.directory.handle ≡ some h)} v.fs.remote (λ h k. k)
            (λ h k. elim (Among-taken stream_handle h older newer c k) [
              | inl own ↦ inr own
              | inr other ↦ inl other
            ])
            all in
        let c' : Context = record c { directory = d } in
        widen H t.remote
          (λ h k.
            Among-put file_handle h older newer c' (Among-taken file_handle h older newer c k))
          (λ h k. elim k [
            | inl other ↦ Among-put stream_handle h older newer c' (inr other)
            | inr own ↦ Among-put stream_handle h older newer c' (inl own)
          ])
          (read_directory-Streams H F T W.buffer fuel c marker b v.fs r d t apart e)
    Step-Accounts {v} Step.turn i = turn-kept S W.gate_text _ (ordinary-Within H) v.fs i

    Reach-Accounts :
        {v w : Volume S} → Accounts v.contexts v.fs → Reach S W v w → Accounts w.contexts w.fs
    Reach-Accounts i Reach.here = i
    Reach-Accounts i (Reach.next r st) = Step-Accounts st (Reach-Accounts i r)

    module _ (r : S.Remote) (caps : FsCapabilities) (no_file : (h : ℕ) → H.FileOpen r h → ⊥)
        (no_stream : (h : ℕ) → H.StreamOpen r h → ⊥) where
      started-Accounts : Accounts [] (started S r caps).fs
      started-Accounts = record { in_files = no_file; in_streams = no_stream }

      module _ (w : Volume S) (reached : Reach S W (started S r caps) w) (h : ℕ) where
        -- In every history of a volume whose provider keeps its handles as the SDK's `Server` does and
        -- starts with nothing open, each file that the provider holds open is that of a context that
        -- the host holds: no callback that fails leaves one behind, and no close forgets one.
        pub file-Among : H.FileOpen w.fs.remote h → Among file_handle h w.contexts
        file-Among k = (Reach-Accounts started-Accounts reached).in_files h k

        -- In every history of a volume whose provider keeps its handles as the SDK's `Server` does and
        -- starts with nothing open, each directory stream that the provider holds open is the
        -- current one of a context that the host holds: no listing that starts again, no test for an
        -- empty directory and no callback that fails leaves one behind.
        pub stream-Among : H.StreamOpen w.fs.remote h → Among stream_handle h w.contexts
        stream-Among k = (Reach-Accounts started-Accounts reached).in_streams h k
