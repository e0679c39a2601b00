-- ===== src/Windows/Handles.antt =====
-- src/windows_handles.rs: the registry of open descriptors. No callback panics under a lock.
pub mod Rename
pub mod Flush
pub mod Renamed
use shell_canvas_drive_bridg.Base.{
  ℕ, bit_and, Bool, true, false, not, ◌||◌, Option, none, some, List, [], ◌∷◌, ◌++◌, String, Result,
  ok, err, then_result, eqb, if◌then◌else◌, is_some, length, drop, starts_with, nat_eq, string_eq,
  list_eq,
}
use shell_canvas_drive_bridg.Base.Dict
use shell_canvas_drive_bridg.Base.Dict.{Dict}
use shell_canvas_drive_bridg.Sdk.Paths.{children}
use shell_canvas_drive_bridg.Sdk.{Sdk, FsError, FsResult, MountPath}

-- `0x2 | 0x4 | 0x10 | 0x100 | 0x10000 | 0x40000 | 0x80000`
abbrev pub directory_mutation : ℕ
directory_mutation = 0xd_0116

unfoldable pub blocks_detach : Bool → ℕ → Bool
blocks_detach is_directory granted_access =
    not is_directory || not (eqb (bit_and granted_access directory_mutation) 0)

pub record OpenHandle : Type 0 where
  pub path : MountPath
  pub file : Option ℕ
  pub writable : Bool

-- The weak references in the order of opening, and the descriptors that are still alive. The path
-- of a descriptor is one shared cell, which its context reads too.
pub record OpenHandles : Type 0 where
  pub refs : List ℕ
  pub live : Dict ℕ OpenHandle

-- `retain(|item| item.strong_count() != 0)`
unfoldable pub retain : Dict ℕ OpenHandle → List ℕ → List ℕ
retain live [] = []
retain live (r ∷ rs) =
    let rest = retain live rs in if is_some (Dict.lookup r live) then r ∷ rest else rest

unfoldable pub register : ℕ → OpenHandle → OpenHandles → OpenHandles
register id h t =
    let live = Dict.insert id h t.live in
    record { refs = retain live t.refs ++ (id ∷ []); live = live }

-- `Weak::upgrade` on each reference in turn.
unfoldable pub upgrade : Dict ℕ OpenHandle → List ℕ → List (ℕ × OpenHandle)
upgrade live [] = []
upgrade live (r ∷ rs) = elim (Dict.lookup r live) [
  | none ↦ upgrade live rs
  | some h ↦ (r, h) ∷ upgrade live rs
]

abbrev pub set_path : MountPath → OpenHandle → OpenHandle
set_path p h = record h { path = p }

-- `*path.lock()? = replacement` for each change.
unfoldable pub publish : List (ℕ × MountPath) → Dict ℕ OpenHandle → Dict ℕ OpenHandle
publish [] live = live
publish ((id, p) ∷ changes) live =
    publish changes
      (elim (Dict.lookup id live) [ none ↦ live | some h ↦ Dict.insert id (set_path p h) live ])

module _ (S : Sdk) where
  -- The new path of each descriptor at or below `from`, before anything is published.
  unfoldable pub plan :
      MountPath → MountPath → List (ℕ × OpenHandle) → FsResult (List (ℕ × MountPath))
  plan from to [] = ok []
  plan from to ((id, h) ∷ hs) =
      if starts_with h.path from
      then then_result (children S to (drop (length from) h.path))
          (λ p. then_result (plan from to hs) (λ rest. ok ((id, p) ∷ rest)))
      else plan from to hs

  -- `provider` sends the rename over the pipe.
  unfoldable pub rename :
      MountPath
      → MountPath
      → (S.Remote → FsResult (Unit {0}) × S.Remote)
      → OpenHandles × S.Remote
      → FsResult (Unit {0}) × OpenHandles × S.Remote
  rename from to provider (t, r) =
      let kept = record t { refs = retain t.live t.refs } in
      elim (plan from to (upgrade kept.live kept.refs)) [
        | err e ↦ (err e, kept, r)
        | ok changes ↦
            let (v, r') = provider r in
            elim v [
              | err e ↦ (err e, kept, r')
              | ok _ ↦ (ok tt, record kept { live = publish changes kept.live }, r')
            ]
      ]

  abbrev pub first : Option FsError → FsResult (Unit {0}) → Option FsError
  first (some e) v = some e
  first none (ok _) = none
  first none (err e) = some e

  -- Every writable descriptor is flushed; the first error is kept.
  unfoldable pub flush_loop :
      (ℕ → S.Remote → FsResult (Unit {0}) × S.Remote)
      → List (ℕ × OpenHandle)
      → Option FsError
      → S.Remote
      → Option FsError × S.Remote
  flush_loop send [] error r = (error, r)
  flush_loop send ((_, h) ∷ hs) error r = elim h.writable [
    | false ↦ flush_loop send hs error r
    | true ↦ elim h.file [
      | none ↦ flush_loop send hs error r
      | some id ↦ let (v, r') = send id r in flush_loop send hs (first error v) r'
    ]
  ]

  abbrev pub or_ok : Option FsError → FsResult (Unit {0})
  or_ok none = ok tt
  or_ok (some e) = err e

  unfoldable pub flush :
      (ℕ → S.Remote → FsResult (Unit {0}) × S.Remote)
      → OpenHandles
      → S.Remote
      → FsResult (Unit {0}) × S.Remote
  flush send t r =
      let (error, r') = flush_loop send (upgrade t.live t.refs) none r in (or_ok error, r')
