-- ===== src/Windows/Volume/Detached.antt =====
-- src/windows.rs and src/mount_gate.rs: what a granted detach means for the rest of a history.
use shell_canvas_drive_bridg.Base.{
  ℕ, ◌≡◌, refl, ap, ◌∙◌, Bool, true, false, err, arith, if◌then◌else◌, inl, inr,
}
use shell_canvas_drive_bridg.Sdk.{Sdk, FsCapabilities}
use shell_canvas_drive_bridg.Windows.Status.{NtStatus}
use shell_canvas_drive_bridg.Windows.Names.{WideName}
use shell_canvas_drive_bridg.Windows.Gate.{MountGate, begin_detach, enter, drop_guard}
use shell_canvas_drive_bridg.Windows.Contexts.{Context, Fs, enter_gate, drop_context, close_remotes}
use shell_canvas_drive_bridg.Windows.Opening.{open_entry, create, close}
use shell_canvas_drive_bridg.Windows.Namespace
use shell_canvas_drive_bridg.Windows.Steady.Listing.{read_directory-tables}
use shell_canvas_drive_bridg.Windows.Volume.{Volume, WinFsp, Step, Reach, started}
use shell_canvas_drive_bridg.Windows.Volume.Sound.{guards, remotes-tables}
use shell_canvas_drive_bridg.Windows.Volume.Opened.{IsSound, turn-tables}
use shell_canvas_drive_bridg.Windows.Volume.History.{Query-tables, Reach-IsSound, history-IsSound}

module _ (S : Sdk) where
  abbrev pub is_shut : Volume S → Bool
  is_shut v = v.fs.gate.detaching

  open_shut :
      (name : WideName) (options access : ℕ) (fs : Fs S)
      → fs.gate.detaching ≡ true
      → fs.gate.poisoned ≡ false
      → open_entry S name options access fs ≡ (err NtStatus.device_not_connected, fs)
  unfolding open_entry enter_gate enter
  open_shut name options access fs shut sound = rw (shut, sound) refl

  create_shut :
      (name : WideName) (options access requested : ℕ) (fs : Fs S)
      → fs.gate.detaching ≡ true
      → fs.gate.poisoned ≡ false
      → create S name options access requested fs ≡ (
        err (
            if fs.caps.writable
            then NtStatus.device_not_connected
            else NtStatus.media_write_protected),
        fs,
      )
  unfolding create enter_gate enter
  create_shut name options access requested fs shut sound = ground arith

  rename_shut :
      (old new : WideName) (replace : Bool) (fs : Fs S)
      → (Namespace.rename S old new replace fs).1.gate ≡ fs.gate
  unfolding Namespace.rename Namespace.rename_paths
  rename_shut old new replace fs = ground arith

  begin_detach_shut : (g : MountGate) → g.detaching ≡ true → (begin_detach g).1.detaching ≡ true
  unfolding begin_detach
  begin_detach_shut g e = ground arith

  drop_shut : (c : Context) (fs : Fs S) → (drop_context S c fs).gate.detaching ≡ fs.gate.detaching
  unfolding drop_context drop_guard
  drop_shut c fs =
      let fs' = close_remotes S c fs in
      let same : fs'.gate ≡ fs.gate = ap (λ t. t.0) (remotes-tables S c fs) in ground (arith, same)

  module _ (W : WinFsp) where
    Step-shut : {v w : Volume S} → Step S W v w → IsSound v → is_shut v ≡ true → is_shut w ≡ true
    unfolding close
    Step-shut (Step.query q) s e = ap (λ t. t.0.detaching) (Query-tables S W q) ∙ e
    Step-shut {v = v} (Step.open_entry name options access) s e =
        rw (open_shut name options access v.fs e s.0.sound) e
    Step-shut {v = v} (Step.create name options access requested) s e =
        rw (create_shut name options access requested v.fs e s.0.sound) e
    Step-shut {v = v} (Step.close newer older c at) s e = drop_shut c v.fs ∙ e
    Step-shut {v = v} (Step.rename old new replace) s e =
        ap (λ g. g.detaching) (rename_shut old new replace v.fs) ∙ e
    Step-shut {v = v} (Step.read_directory {t} {d} newer older c fuel marker b r at h) s e =
        ap (λ t. t.0.detaching) (read_directory-tables S W.buffer fuel c marker b v.fs r d t h) ∙ e
    Step-shut {v = v} Step.turn s e = elim (turn-tables S W.gate_text v.fs) [
      | inl same ↦ ap (λ t. t.0.detaching) same ∙ e
      | inr asked ↦ ap (λ t. t.0.detaching) asked ∙ begin_detach_shut v.fs.gate e
    ]

    Reach-shut : {v w : Volume S} → Reach S W v w → IsSound v → is_shut v ≡ true → is_shut w ≡ true
    Reach-shut Reach.here s e = e
    Reach-shut (Reach.next r st) s e = Step-shut st (Reach-IsSound S W r s) (Reach-shut r s e)

    -- In every history, once a detach has been granted no context that blocks it is open, and no
    -- later callback opens or creates one: it is refused, on a read-only volume a creation for that
    -- reason, and changes nothing.
    pub shut_final :
        (r : S.Remote) (caps : FsCapabilities) (v w : Volume S) (name : WideName)
        (options access requested : ℕ)
        → Reach S W (started S r caps) v
        → is_shut v ≡ true
        → Reach S W v w
        → let refusal =
            if w.fs.caps.writable
            then NtStatus.device_not_connected
            else NtStatus.media_write_protected in
          (guards w.contexts ≡ 0)
          × (open_entry S name options access w.fs ≡ (err NtStatus.device_not_connected, w.fs))
          × (create S name options access requested w.fs ≡ (err refusal, w.fs))
    shut_final r caps v w name options access requested run shut more =
        let s = Reach-IsSound S W more (history-IsSound S W r caps v run) in
        let closed = Reach-shut more (history-IsSound S W r caps v run) shut in
        (
          omega (arith, s.0.shut closed),
          open_shut name options access w.fs closed s.0.sound,
          create_shut name options access requested w.fs closed s.0.sound,
        )
