-- ===== src/Windows/Sends/Steps.antt =====
-- src/windows.rs: in a history of the volume, only `cleanup` deletes anything at the provider.
use shell_canvas_drive_bridg.Base.{◌≡◌, refl, Bool, true, false, List, Result, ok, err, arith}
use shell_canvas_drive_bridg.Sdk.{Sdk, Operation}
use shell_canvas_drive_bridg.Windows.Status.{NtStatus}
use shell_canvas_drive_bridg.Windows.Info.{FileInfo}
use shell_canvas_drive_bridg.Windows.Contexts.{Context, Fs, call}
use shell_canvas_drive_bridg.Windows.Opening
use shell_canvas_drive_bridg.Windows.Listing.Calls.{is_listing, read_directory-calls}
use shell_canvas_drive_bridg.Windows.Volume.{Volume, WinFsp, Query, Step, accept}
use shell_canvas_drive_bridg.Sdk.{IsStable}
use shell_canvas_drive_bridg.Windows.Sends.Contexts.{
  keeps_entries, open_entry-Keeps, create-Keeps, drop-Keeps, widened,
}
use shell_canvas_drive_bridg.Windows.Sends.Callbacks
use shell_canvas_drive_bridg.Windows.Sends.Queries.{ordinary-kept, turn-kept}
use shell_canvas_drive_bridg.Windows.Sends.Deletion.{set_delete-Keeps}
use shell_canvas_drive_bridg.Windows.Sends.Ordinary.{ordinary}

module _ (S : Sdk) (W : WinFsp) where
  abbrev pub is_delete : {fs t : Fs S} → Query S W fs t → Bool
  is_delete (Query.cleanup c name flags) = true
  is_delete _ = false

  abbrev pub is_cleanup : {v w : Volume S} → Step S W v w → Bool
  is_cleanup (Step.query q) = is_delete q
  is_cleanup _ = false

  module _ (I : S.Remote → Type 0) (stable : IsStable S keeps_entries I) where
    calm : IsStable S ordinary I
    calm op r a = stable op r (widened S op a)

    accepted :
        (cs : List Context) (r : Result NtStatus (Context × FileInfo) × Fs S)
        → I r.1.remote
        → I (accept S cs r).fs.remote
    accepted cs (ok a, fs) i = i
    accepted cs (err e, fs) i = i

    listed :
        (op : Operation) (fs : Fs S)
        → is_listing op ≡ true
        → I fs.remote
        → I (call S op fs).1.remote
    unfolding call
    listed (Operation.open_directory p) fs e i =
        stable (Operation.open_directory p) fs.remote refl i
    listed (Operation.close_directory h) fs e i =
        stable (Operation.close_directory h) fs.remote refl i
    listed (Operation.read_directory h) fs e i =
        stable (Operation.read_directory h) fs.remote refl i
    listed _ fs e i = absurd (ground (arith, e))

    query-kept : {fs t : Fs S} (q : Query S W fs t) → is_delete q ≡ false → I fs.remote → I t.remote
    query-kept {fs} (Query.set_delete c delete) e i = set_delete-Keeps S c delete I stable fs i
    query-kept (Query.cleanup c name flags) e i = absurd (ground (arith, e))
    query-kept q e i = ordinary-kept S W I calm q refl i

    -- Whatever the provider keeps under every operation but a removal, a step of the volume other
    -- than `cleanup` keeps: no other callback deletes, not even a `create` that fails.
    pub step_kept :
        (v w : Volume S) (st : Step S W v w) → is_cleanup st ≡ false → I v.fs.remote → I w.fs.remote
    unfolding Opening.close
    step_kept v w (Step.query q) e i = query-kept q e i
    step_kept v w (Step.open_entry name options access) e i =
        accepted v.contexts (Opening.open_entry S name options access v.fs)
          (open_entry-Keeps S name options access I stable v.fs i)
    step_kept v w (Step.create name options access requested) e i =
        accepted v.contexts (Opening.create S name options access requested v.fs)
          (create-Keeps S name options access requested I stable v.fs i)
    step_kept v w (Step.close newer older c at) e i = drop-Keeps S c I stable v.fs i
    step_kept v w (Step.rename old new replace) e i =
        Callbacks.rename-Keeps S old new replace I calm v.fs i
    step_kept v w (Step.read_directory {t} {d} newer older c fuel marker b r at h) e i =
        read_directory-calls S (λ fs. I fs.remote) listed W.buffer fuel c marker b v.fs r d t i h
    step_kept v w Step.turn e i = turn-kept S W.gate_text I calm v.fs i
