-- ===== src/Windows/Mount/Start.antt =====
-- src/windows.rs, `run` up to the loop: the runtime is found and loaded, the host is made, and the
-- drive letter is mounted if it is free.
use shell_canvas_drive_bridg.Base.{
  ℕ, ◌≡◌, ◌<◌, ◌+◌, sym, ap, ◌∙◌, Option-cases, Bool, true, false, not, Option, some, List, [], ◌∷◌,
  String, Result, ok, err, map_err, ok_or, then_result, Action, ◌>>=◌, ◌>>◌, arith, if◌then◌else◌,
  bind_cases, inl, inr,
}
use shell_canvas_drive_bridg.Sdk.{Sdk, BridgeEvent}
use shell_canvas_drive_bridg.Windows.Drives.{DriveTables, DriveError, WnetStatus, reserved}
use shell_canvas_drive_bridg.Windows.Drives.Free.{digit_at, reserved_free}
use shell_canvas_drive_bridg.Windows.Gate.{GateError}
use shell_canvas_drive_bridg.Windows.Contexts.{Fs}
use shell_canvas_drive_bridg.Windows.Mount.{Failure, report}

pub record VolumeParams : Type 0 where
  pub filesystem_name : String
  pub sector_size : ℕ
  pub sectors_per_allocation_unit : ℕ
  pub max_component_length : ℕ
  pub case_sensitive_search : Bool
  pub case_preserved_names : Bool
  pub unicode_on_disk : Bool
  pub persistent_acls : Bool
  pub read_only_volume : Bool
  pub file_info_timeout : ℕ
  pub flush_and_purge_on_cleanup : Bool
  pub irp_timeout : ℕ

abbrev pub volume_params : Bool → VolumeParams
volume_params writable = record {
  filesystem_name = "ShellCanvas";
  sector_size = 512;
  sectors_per_allocation_unit = 8;
  max_component_length = 255;
  case_sensitive_search = true;
  case_preserved_names = true;
  unicode_on_disk = true;
  persistent_acls = false;
  read_only_volume = not writable;
  file_info_timeout = 0;
  flush_and_purge_on_cleanup = true;
  irp_timeout = 60000;
}

-- The registry, the loader, the drives and the WinFsp library.
pub record Machine : Type 1 where
  pub World : Type 0
  pub Key : Type 0
  pub open_key : String → World → Result String Key
  pub get_string : Key → String → World → Result String String
  -- `cfg!(target_arch = "aarch64")` and `Path::join`
  pub aarch64 : Bool
  pub join : String → String → String
  pub is_absolute : String → Bool
  pub load_library : String → World → Result String (Unit {0}) × World
  pub init : World → Result String (Unit {0}) × World
  pub new_host : VolumeParams → World → Result String (Unit {0}) × World
  pub drives : World → DriveTables
  -- `to_str` and its bytes
  pub text : String → Option (List ℕ)
  pub mount : String → World → Result String (Unit {0}) × World
  pub start : World → Result String (Unit {0}) × World

pub data StartError : Type 0 where
  unavailable not_loaded not_initialized host_failed : String → StartError
  invalid_installation invalid_letter letter_taken : StartError
  letter_unknown : DriveError → StartError
  ended : Failure → StartError

module _ (S : Sdk) (U : Machine) where
  -- The file system is handed to the host; the loop shares its remote side.
  pub record Attachment : Type 0 where
    pub world : U.World
    pub fs : Fs S

  -- `.or_else(..)`: the second key only if the first is not there.
  abbrev pub open_either : U.World → Result String U.Key
  open_either w = elim (U.open_key "SOFTWARE\\WOW6432Node\\WinFsp" w) [
    | ok k ↦ ok k
    | err _ ↦ U.open_key "SOFTWARE\\WinFsp" w
  ]

  abbrev pub runtime : String
  runtime = if U.aarch64 then "winfsp-a64.dll" else "winfsp-x64.dll"

  unfoldable pub find_runtime : U.World → Result StartError String
  find_runtime w = then_result (map_err unavailable (open_either w)) (λ k.
      then_result (map_err unavailable (U.get_string k "InstallDir" w)) (λ installation.
        let dll = U.join (U.join installation "bin") runtime in
        if U.is_absolute dll then ok dll else err invalid_installation))

  abbrev pub on_machine :
      (String → StartError)
      → (U.World → Result String (Unit {0}) × U.World)
      → Action Attachment StartError (Unit {0})
  on_machine wrap f a = let (v, w) = f a.world in (map_err wrap v, record a { world = w })

  unfoldable pub prepare : Action Attachment StartError (Unit {0})
  prepare = do
    dll ← λ a. (find_runtime a.world, a)
    on_machine not_loaded (U.load_library dll)
    on_machine not_initialized U.init
    λ a. on_machine host_failed (U.new_host (volume_params a.fs.caps.writable)) a

  unfoldable pub check_letter : String → U.World → Result StartError (Unit {0})
  check_letter target w = then_result (ok_or (U.text target) invalid_letter) (λ bytes.
      then_result (map_err letter_unknown (reserved (U.drives w) bytes))
        (λ taken. if taken then err letter_taken else ok tt))

  unfoldable pub mount_letter : String → Action Attachment StartError (Unit {0})
  mount_letter target = do
    λ a. (check_letter target a.world, a)
    on_machine host_failed (U.mount target)
    on_machine host_failed U.start

  module _ (describe : GateError → String) where
    unfoldable pub report_ready : Action Attachment StartError (Unit {0})
    report_ready a =
        let (v, fs) = report S describe BridgeEvent.ready a.fs in
        (map_err ended v, record a { fs = fs })

    unfoldable pub attach : String → Action Attachment StartError (Unit {0})
    attach target = do prepare; mount_letter target; report_ready

  -- The letter is one of `A:` to `Z:`, no drive has it, and Windows has no connection for it.
  pub record IsFree (target : String) (w : U.World) : Type 0 where
    pub place : ℕ
    pub within : place < 26
    pub spelled : U.text target ≡ some ((65 + place) ∷ 58 ∷ [])
    pub unused : digit_at place (U.drives w).mask ≡ 0
    pub unconnected : (U.drives w).connection ((65 + place) ∷ 58 ∷ []) ≡ WnetStatus.not_connected

  check_letter_ok :
      (target : String) (w : U.World) → check_letter target w ≡ ok tt → IsFree target w
  unfolding check_letter
  check_letter_ok target w e = elim (Option-cases (U.text target)) [
    | inl absent ↦ absurd (ground (arith, e, absent))
    | inr (bytes, known) ↦
        let free : reserved (U.drives w) bytes ≡ ok false = ground (arith, e, known) in
        let (n, (small, (same, (clear, apart)))) = reserved_free (U.drives w) bytes free in
        record {
          place = n;
          within = small;
          spelled = known ∙ ap some same;
          unused = clear;
          unconnected = ap (U.drives w).connection (sym same) ∙ apart;
        }
  ]

  -- The letter was free, it was mounted and the host was started.
  abbrev pub IsAttached : String → U.World → U.World → Type 0
  IsAttached target w w' =
      IsFree target w
      × ((U.mount target w).0 ≡ ok tt)
      × (U.start (U.mount target w).1 ≡ (ok tt, w'))

  mount_letter_ok :
      (target : String) (a : Attachment)
      → (mount_letter target a).0 ≡ ok tt
      → IsAttached target a.world (mount_letter target a).1.world
  unfolding mount_letter
  mount_letter_ok target a e =
      let mounted = U.mount target a.world in
      let c : check_letter target a.world ≡ ok tt = ground (arith, e) in
      let m : mounted.0 ≡ ok tt = ground (arith, e, c) in
      let s : (U.start mounted.1).0 ≡ ok tt = ground (arith, e, c, m) in
      let same : (U.start mounted.1).1 ≡ (mount_letter target a).1.world =
        ground (arith, c, m, s) in
      (
        check_letter_ok target a.world c,
        m,
        ap (λ v. (v, (U.start mounted.1).1)) s ∙ ap (λ w. (ok tt, w)) same,
      )

  module _ (describe : GateError → String) where
    -- An attachment that succeeds has found the letter free, has mounted it and started the host.
    pub attach_ok :
        (target : String) (a : Attachment)
        → (attach describe target a).0 ≡ ok tt
        → (w : U.World) × IsAttached target w (attach describe target a).1.world
    unfolding attach report_ready
    attach_ok target a =
        bind_cases (λ r. r.0 ≡ ok tt → (w : U.World) × IsAttached target w r.1.world)
          (λ _. mount_letter target >> report_ready describe) prepare a (λ x _ e. absurd (cc))
          (λ _ _.
            let b = (prepare a).1 in
            bind_cases (λ r. r.0 ≡ ok tt → (w : U.World) × IsAttached target w r.1.world)
              (λ _. report_ready describe) (mount_letter target) b (λ x _ e. absurd (cc))
              (λ _ good e. (b.world, mount_letter_ok target b good)))
