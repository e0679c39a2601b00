-- ===== src/Sdk/Listings.antt =====
-- How a provider hands out a directory, page by page, as both backends read it.
use shell_canvas_drive_bridg.Base.{
  ℕ, ◌≡◌, refl, Bool, true, false, List, [], ◌∷◌, ◌++◌, ok, inl, inr, ◌⊎◌,
}
use shell_canvas_drive_bridg.Sdk.Types.{Operation, Value, FsDirectoryEntry}
use shell_canvas_drive_bridg.Sdk.Interface.{Sdk}

-- `is_empty()`
abbrev pub is_empty {ℓ} : {A : Type ℓ} → List A → Bool
is_empty [] = true
is_empty (x ∷ xs) = false

-- Documented behaviour of a directory stream: `I es r` says that `es` is still to come, and the
-- page that ends it is empty.
pub record Lists (S : Sdk) (h : ℕ) (I : List FsDirectoryEntry → S.Remote → Type 0) : Type 0 where
  pub page : S.Remote → List FsDirectoryEntry
  pub rest : S.Remote → List FsDirectoryEntry
  pub replies :
      (es : List FsDirectoryEntry) (r : S.Remote)
      → I es r
      → (S.call (Operation.read_directory h) r).0 ≡ ok (Value.entries (page r))
  pub splits : (es : List FsDirectoryEntry) (r : S.Remote) → I es r → es ≡ page r ++ rest r
  pub ends : (es : List FsDirectoryEntry) (r : S.Remote) → I es r → page r ≡ [] → rest r ≡ []
  pub stays :
      (es : List FsDirectoryEntry) (r : S.Remote)
      → I es r
      → I (rest r) (S.call (Operation.read_directory h) r).1

pub empty_list : (xs : List FsDirectoryEntry) → is_empty xs ≡ true → xs ≡ []
empty_list [] e = refl
empty_list (x ∷ xs) e = cc

pub list_cases :
    (xs : List FsDirectoryEntry)
    → (xs ≡ []) ⊎ ((x : FsDirectoryEntry) × (rest : List FsDirectoryEntry) × (xs ≡ x ∷ rest))
list_cases [] = inl refl
list_cases (x ∷ xs) = inr (x, xs, refl)
