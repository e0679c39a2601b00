-- ===== src/Windows/Volume/Moved.antt =====
-- src/windows_handles.rs, `OpenHandles::rename`: the registry and the contexts still match.
use shell_canvas_drive_bridg.Base.{
  ℕ, ◌≡◌, refl, sym, ap, ◌∙◌, inl, inr, Option, none, some, List, [], ◌∷◌, arith, Option-cases,
  Result-cases, nat_eq, string_eq, list_eq,
}
use shell_canvas_drive_bridg.Base.Dict
use shell_canvas_drive_bridg.Base.Dict.{Dict}
use shell_canvas_drive_bridg.Sdk.{Sdk, FsResult, MountPath}
use shell_canvas_drive_bridg.Windows.Contexts.{Context}
use shell_canvas_drive_bridg.Windows.Handles.{
  OpenHandle, OpenHandles, set_path, publish, plan, upgrade, retain, rename,
}
use shell_canvas_drive_bridg.Windows.Handles.Renamed.{IsRegistered, registered-retain}
use shell_canvas_drive_bridg.Windows.Volume.Registry.{IsMatched, Alive, file_in, file_of}

publish_one :
    (id j : ℕ) (p : MountPath) (live : Dict ℕ OpenHandle)
    → file_in (
        Dict.lookup id
          (elim (Dict.lookup j live) [ none ↦ live | some h ↦ Dict.insert j (set_path p h) live ]))
      ≡ file_in (Dict.lookup id live)
publish_one id j p live = elim (Option-cases (Dict.lookup j live)) [
  | inl gone ↦ rw gone refl
  | inr (h, found) ↦ rw found (ground (arith, found, Dict.lookup-insert id j (set_path p h) live))
]

publish-file_in :
    (changes : List (ℕ × MountPath)) (live : Dict ℕ OpenHandle) (id : ℕ)
    → file_in (Dict.lookup id (publish changes live)) ≡ file_in (Dict.lookup id live)
unfolding publish
publish-file_in [] live id = refl
publish-file_in ((j, p) ∷ changes) live id =
    publish-file_in changes
      (elim (Dict.lookup j live) [ none ↦ live | some h ↦ Dict.insert j (set_path p h) live ]) id
    ∙ publish_one id j p live

-- A registry with the same descriptors over the same files, of which some may have moved.
pub record Moved (t t' : OpenHandles) : Type 0 where
  pub files : (id : ℕ) → file_of id t' ≡ file_of id t
  pub refs : t'.refs ≡ retain t.live t.refs

module _ (S : Sdk) where
  pub rename-Moved :
      (from to : MountPath) (provider : S.Remote → FsResult (Unit {0}) × S.Remote) (t : OpenHandles)
      (r : S.Remote)
      → Moved t (rename S from to provider (t, r)).1
  unfolding rename
  rename-Moved from to provider t r =
      elim (Result-cases (plan S from to (upgrade t.live (retain t.live t.refs)))) [
        | inl (x, bad) ↦ rw (bad, rename) (record { files = λ id. refl; refs = refl })
        | inr (changes, good) ↦ elim (Result-cases (provider r).0) [
          | inl (x, bad) ↦ rw (good, bad, rename) (record { files = λ id. refl; refs = refl })
          | inr (v, fine) ↦
              rw (good, fine, rename)
                (record { files = λ id. publish-file_in changes t.live id; refs = refl })
        ]
      ]

file_in-some : (o : Option OpenHandle) (h : OpenHandle) → o ≡ some h → file_in o ≡ some h.file
file_in-some o h e = ap file_in e

Moved-IsRegistered : (t t' : OpenHandles) → Moved t t' → IsRegistered t → IsRegistered t'
Moved-IsRegistered t t' m R id h e = elim (Option-cases (Dict.lookup id t.live)) [
  | inl gone ↦ absurd (ground (arith, m.files id, file_in-some (Dict.lookup id t'.live) h e))
  | inr (k, found) ↦ rw m.refs (registered-retain t.live t.refs id k found ∙ R id k found)
]

Moved-Alive : (t t' : OpenHandles) (cs : List Context) → Moved t t' → Alive t cs → Alive t' cs
Moved-Alive t t' [] m a = tt
Moved-Alive t t' (c ∷ cs) m a = (m.files c.tracked ∙ a.0, Moved-Alive t t' cs m a.1)

pub Moved-IsMatched :
    (t t' : OpenHandles) (n : ℕ) (cs : List Context)
    → Moved t t'
    → IsMatched t n cs
    → IsMatched t' n cs
Moved-IsMatched t t' n cs m s = record {
  ordered = s.ordered;
  alive = Moved-Alive t t' cs m s.alive;
  owned = λ id f e. s.owned id f (sym (m.files id) ∙ e);
  reached = Moved-IsRegistered t t' m s.reached;
}
