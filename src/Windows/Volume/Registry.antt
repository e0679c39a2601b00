-- ===== src/Windows/Volume/Registry.antt =====
-- src/windows.rs and src/windows_handles.rs: the registry of descriptors and the contexts that the
-- host holds belong together.
use shell_canvas_drive_bridg.Base.{
  ℕ, suc, ◌<◌, ◌≤◌, ◌≡◌, ◌≢◌, refl, ◌∙◌, Bool, true, false, Option, none, some, List, [], ◌∷◌, ◌++◌,
  arith, eqb, if◌then◌else◌, nat_eq, string_eq, list_eq,
}
use shell_canvas_drive_bridg.Base.Dict
use shell_canvas_drive_bridg.Base.Dict.{Dict}
use shell_canvas_drive_bridg.Windows.Contexts
use shell_canvas_drive_bridg.Windows.Contexts.{Context}
use shell_canvas_drive_bridg.Windows.Handles.{OpenHandle, OpenHandles, register}
use shell_canvas_drive_bridg.Windows.Handles.Renamed.{IsRegistered, register-IsRegistered}

-- The identities descend from one that is not given out yet.
abbrev pub Ordered : ℕ → List Context → Type 0
Ordered n [] = Unit {0}
Ordered n (c ∷ cs) = (c.tracked < n) × Ordered c.tracked cs

abbrev pub file_in : Option OpenHandle → Option (Option ℕ)
file_in none = none
file_in (some h) = some h.file

-- The remote file of a live descriptor.
abbrev pub file_of : ℕ → OpenHandles → Option (Option ℕ)
file_of id t = file_in (Dict.lookup id t.live)

-- Every context has its descriptor, with its remote file.
abbrev pub Alive : OpenHandles → List Context → Type 0
Alive t [] = Unit {0}
Alive t (c ∷ cs) = (file_of c.tracked t ≡ some c.file) × Alive t cs

abbrev pub is_held : ℕ → List Context → Bool
is_held id [] = false
is_held id (c ∷ cs) = let rest = is_held id cs in if eqb id c.tracked then true else rest

-- Every live descriptor belongs to a context, and the registry can reach it.
pub record IsMatched (t : OpenHandles) (n : ℕ) (cs : List Context) : Type 0 where
  pub ordered : Ordered n cs
  pub alive : Alive t cs
  pub owned : (id : ℕ) (f : Option ℕ) → file_of id t ≡ some f → is_held id cs ≡ true
  pub reached : IsRegistered t

file_of-register :
    (id n : ℕ) (h : OpenHandle) (t : OpenHandles)
    → file_of id (register n h t) ≡ (if eqb id n then some h.file else file_of id t)
unfolding register
file_of-register id n h t = ground (arith, Dict.lookup-insert id n h t.live)

register-Alive :
    (n m : ℕ) (h : OpenHandle) (t : OpenHandles) (cs : List Context)
    → m ≤ n
    → Ordered m cs
    → Alive t cs
    → Alive (register n h t) cs
register-Alive n m h t [] b o a = tt
register-Alive n m h t (c ∷ cs) b o a = (
  ground (arith, file_of-register c.tracked n h t, o.0, a.0),
  register-Alive n c.tracked h t cs (omega (arith, o.0, b)) o.1 a.1,
)

-- A new context with its descriptor.
pub register-IsMatched :
    (c : Context) (h : OpenHandle) (t : OpenHandles) (n : ℕ) (cs : List Context)
    → c.tracked ≡ n
    → h.file ≡ c.file
    → IsMatched t n cs
    → IsMatched (register n h t) (suc n) (c ∷ cs)
register-IsMatched c h t n cs same file m = record {
  ordered = (omega (arith, same), rw same m.ordered);
  alive = (
    ground (arith, file_of-register c.tracked n h t),
    register-Alive n n h t cs (omega arith) m.ordered m.alive,
  );
  owned = λ id f e. ground (arith, file_of-register id n h t, m.owned id f);
  reached = register-IsRegistered n h t m.reached;
}

-- The last reference to a descriptor goes.
abbrev pub dropped : ℕ → OpenHandles → OpenHandles
dropped id t = record t { live = Dict.erase id t.live }

file_of-dropped :
    (id j : ℕ) (t : OpenHandles)
    → file_of id (dropped j t) ≡ (if eqb id j then none else file_of id t)
file_of-dropped id j t = ground (arith, Dict.lookup-erase id j t.live)

Ordered-weaken : (m n : ℕ) (cs : List Context) → m ≤ n → Ordered m cs → Ordered n cs
Ordered-weaken m n [] b o = tt
Ordered-weaken m n (c ∷ cs) b o = (omega (arith, o.0, b), o.1)

module _ (c : Context) (older : List Context) where
  Ordered-remove :
      (n : ℕ) (newer : List Context) → Ordered n (newer ++ (c ∷ older)) → Ordered n (newer ++ older)
  Ordered-remove n [] o = Ordered-weaken c.tracked n older (omega (arith, o.0)) o.1
  Ordered-remove n (x ∷ newer) o = (o.0, Ordered-remove x.tracked newer o.1)

  below : (n : ℕ) (newer : List Context) → Ordered n (newer ++ (c ∷ older)) → c.tracked < n
  below n [] o = o.0
  below n (x ∷ newer) o = omega (arith, below x.tracked newer o.1, o.0)

  older-Alive :
      (m : ℕ) (t : OpenHandles) (cs : List Context)
      → m ≤ c.tracked
      → Ordered m cs
      → Alive t cs
      → Alive (dropped c.tracked t) cs
  older-Alive m t [] b o a = tt
  older-Alive m t (x ∷ cs) b o a = (
    ground (arith, file_of-dropped x.tracked c.tracked t, o.0, a.0),
    older-Alive x.tracked t cs (omega (arith, o.0, b)) o.1 a.1,
  )

  dropped-Alive :
      (n : ℕ) (t : OpenHandles) (newer : List Context)
      → Ordered n (newer ++ (c ∷ older))
      → Alive t (newer ++ (c ∷ older))
      → Alive (dropped c.tracked t) (newer ++ older)
  dropped-Alive n t [] o a = older-Alive c.tracked t older (omega arith) o.1 a.1
  dropped-Alive n t (x ∷ newer) o a = (
    ground (arith, file_of-dropped x.tracked c.tracked t, below x.tracked newer o.1, a.0),
    dropped-Alive x.tracked t newer o.1 a.1,
  )

  is_held-remove :
      (id : ℕ) (newer : List Context)
      → id ≢ c.tracked
      → is_held id (newer ++ (c ∷ older)) ≡ is_held id (newer ++ older)
  is_held-remove id [] ne = ground arith
  is_held-remove id (x ∷ newer) ne = ground (arith, is_held-remove id newer ne)

  -- A context goes, and its descriptor with it.
  pub dropped-IsMatched :
      (t : OpenHandles) (n : ℕ) (newer : List Context)
      → IsMatched t n (newer ++ (c ∷ older))
      → IsMatched (dropped c.tracked t) n (newer ++ older)
  dropped-IsMatched t n newer m = record {
    ordered = Ordered-remove n newer m.ordered;
    alive = dropped-Alive n t newer m.ordered m.alive;
    owned = λ id f e.
        ground (arith, file_of-dropped id c.tracked t, m.owned id f, is_held-remove id newer);
    reached = λ id h e. ground (arith, Dict.lookup-erase id c.tracked t.live, m.reached id h);
  }

  -- The directory of a context does not enter.
  module _ (d : Contexts.Directory) where
    Ordered-directory :
        (n : ℕ) (newer : List Context)
        → Ordered n (newer ++ (c ∷ older))
        → Ordered n (newer ++ (record c { directory = d } ∷ older))
    Ordered-directory n [] o = o
    Ordered-directory n (x ∷ newer) o = (o.0, Ordered-directory x.tracked newer o.1)

    Alive-directory :
        (t : OpenHandles) (newer : List Context)
        → Alive t (newer ++ (c ∷ older))
        → Alive t (newer ++ (record c { directory = d } ∷ older))
    Alive-directory t [] a = a
    Alive-directory t (x ∷ newer) a = (a.0, Alive-directory t newer a.1)

    is_held-directory :
        (id : ℕ) (newer : List Context)
        → is_held id (newer ++ (record c { directory = d } ∷ older))
          ≡ is_held id (newer ++ (c ∷ older))
    is_held-directory id [] = refl
    is_held-directory id (x ∷ newer) = ground (arith, is_held-directory id newer)

    pub directory-IsMatched :
        (t : OpenHandles) (n : ℕ) (newer : List Context)
        → IsMatched t n (newer ++ (c ∷ older))
        → IsMatched t n (newer ++ (record c { directory = d } ∷ older))
    directory-IsMatched t n newer m = record {
      ordered = Ordered-directory n newer m.ordered;
      alive = Alive-directory t newer m.alive;
      owned = λ id f e. is_held-directory id newer ∙ m.owned id f e;
      reached = m.reached;
    }
