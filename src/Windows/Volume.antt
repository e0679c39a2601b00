-- ===== src/Windows/Volume.antt =====
-- src/windows.rs, `impl FileSystemContext for Fs` and the loop of `run`: the volume as a transition
-- system. The kernel chooses the callbacks and their order, the provider the directives; one step is
-- one callback or one turn of the loop, run to its end. Until the host is unmounted callbacks may
-- still come, so that a step may follow a turn that ends the loop.
pub mod Registry
pub mod Moved
pub mod Sound
pub mod Opened
pub mod History
pub mod Detached
pub mod Turns
pub mod Paths
use shell_canvas_drive_bridg.Base.{
  ℕ, ◌≡◌, Bool, Option, some, none, List, [], ◌∷◌, ◌++◌, String, Result, ok, err,
}
use shell_canvas_drive_bridg.Sdk.{Sdk, FsCapabilities}
use shell_canvas_drive_bridg.Windows.Status.{NtStatus}
use shell_canvas_drive_bridg.Windows.Names.{WideName}
use shell_canvas_drive_bridg.Windows.Info.{FileInfo}
use shell_canvas_drive_bridg.Windows.Gate.{GateError}
use shell_canvas_drive_bridg.Windows.Contexts
use shell_canvas_drive_bridg.Windows.Contexts.{Context, Fs}
use shell_canvas_drive_bridg.Windows.Opening
use shell_canvas_drive_bridg.Windows.Data
use shell_canvas_drive_bridg.Windows.Metadata
use shell_canvas_drive_bridg.Windows.Namespace
use shell_canvas_drive_bridg.Windows.Listing
use shell_canvas_drive_bridg.Windows.Listing.{DirBuffer}
use shell_canvas_drive_bridg.Windows.Mount

-- The contexts that the host holds, the latest first.
pub record Volume (S : Sdk) : Type 0 where
  pub fs : Fs S
  pub contexts : List Context

-- The texts of errors, and the buffer of a listing.
pub record WinFsp : Type 1 where
  pub buffer : DirBuffer
  pub status_text : NtStatus → String
  pub gate_text : GateError → String

module _ (S : Sdk) where
  -- The host keeps the context that a callback returns.
  abbrev pub accept : List Context → Result NtStatus (Context × FileInfo) × Fs S → Volume S
  accept contexts (ok (c, _), fs) = record { fs = fs; contexts = c ∷ contexts }
  accept contexts (err _, fs) = record { fs = fs; contexts = contexts }

  module _ (W : WinFsp) where
    -- The callbacks that neither make nor end a context nor move one. They may be called on any
    -- context.
    pub data Query (fs : Fs S) : Fs S → Type 0 where
      get_security_by_name :
          (name : WideName) → Query fs (Metadata.get_security_by_name S name fs).1
      get_file_info : (c : Context) → Query fs (Data.get_file_info S c fs).1
      read : (c : Context) (size offset : ℕ) → Query fs (Data.read S c size offset fs).1
      write :
          (c : Context) (bytes : List ℕ) (offset : ℕ) (eof constrained : Bool)
          → Query fs (Data.write S c bytes offset eof constrained fs).1
      flush : (c : Option Context) → Query fs (Data.flush S c fs).1
      set_file_size :
          (c : Context) (size : ℕ) (allocation : Bool)
          → Query fs (Data.set_file_size S c size allocation fs).1
      overwrite :
          (c : Context) (requested : ℕ) (replace : Bool)
          → Query fs (Metadata.overwrite S c requested replace fs).1
      set_basic_info :
          (c : Context) (requested created access written changed : ℕ)
          → Query fs (Metadata.set_basic_info S c requested created access written changed fs).1
      set_delete : (c : Context) (delete : Bool) → Query fs (Namespace.set_delete S c delete fs).1
      cleanup :
          (c : Context) (name : Option WideName) (flags : ℕ)
          → Query fs (Namespace.cleanup S W.status_text c name flags fs)
      get_volume_info : Query fs (Metadata.get_volume_info S fs).1

    pub data Step (v : Volume S) : Volume S → Type 0 where
      query : {t : Fs S} → Query v.fs t → Step v (record v { fs = t })
      open_entry :
          (name : WideName) (options access : ℕ)
          → Step v (accept v.contexts (Opening.open_entry S name options access v.fs))
      create :
          (name : WideName) (options access requested : ℕ)
          → Step v (accept v.contexts (Opening.create S name options access requested v.fs))
      close :
          (newer older : List Context) (c : Context)
          → v.contexts ≡ newer ++ (c ∷ older)
          → Step v (record { fs = Opening.close S c v.fs; contexts = newer ++ older })
      rename :
          (old new : WideName) (replace : Bool)
          → Step v (record v { fs = (Namespace.rename S old new replace v.fs).1 })
      read_directory :
          {t : Fs S} {d : Contexts.Directory} (newer older : List Context) (c : Context) (fuel : ℕ)
          (marker : Option WideName) (b : W.buffer.Buffer) (r : Result NtStatus W.buffer.Buffer)
          → v.contexts ≡ newer ++ (c ∷ older)
          → Listing.read_directory S W.buffer fuel c marker b v.fs ≡ some (r, (d, t))
          → Step v (record { fs = t; contexts = newer ++ (record c { directory = d } ∷ older) })
      turn : Step v (record v { fs = (Mount.turn S W.gate_text v.fs).1 })

    -- A history of the volume: any number of callbacks and turns.
    pub data Reach (v : Volume S) : Volume S → Type 0 where
      here : Reach v v
      next : {t u : Volume S} → Reach v t → Step t u → Reach v u

  abbrev pub started : S.Remote → FsCapabilities → Volume S
  started r caps = record { fs = Mount.mounted S r caps; contexts = [] }
