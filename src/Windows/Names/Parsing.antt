-- ===== src/Windows/Names/Parsing.antt =====
-- src/windows.rs, `path`, against the pieces that a name is made of.
use Prim.Native.Char.{Char}
use Prim.Native.String
use text.Mathlib.TextLemmas.{nil-append, cons-append}
use shell_canvas_drive_bridg.Base.{◌≡◌, refl, ap, false, some, List, [], ◌∷◌, String, ok, arith}
use shell_canvas_drive_bridg.Sdk.{Sdk, IsLawful}
use shell_canvas_drive_bridg.Sdk.Paths.{AreNames, children-AreNames}
use shell_canvas_drive_bridg.Windows.Names.{
  is_separator, trim_start, prepend, split, non_empty, path,
}

-- A text without a backslash, which may be empty.
abbrev pub IsPiece : String → Type 0
IsPiece String.[] = Unit {0}
IsPiece (String.◌∷◌ c s) = (is_separator c ≡ false) × IsPiece s

abbrev pub ArePieces : List String → Type 0
ArePieces [] = Unit {0}
ArePieces (p ∷ ps) = IsPiece p × ArePieces ps

-- `\`
abbrev pub separator : Char
separator = "\\"

-- The name as the kernel spells it: each piece after a backslash.
abbrev pub spelled : List String → String
spelled [] = String.[]
spelled (p ∷ ps) = String.◌∷◌ separator (String.◌++◌ p (spelled ps))

-- A separator between two texts splits them.
split-append :
    (p s : String) (ps : List String)
    → IsPiece p
    → split s ≡ String.[] ∷ ps
    → split (String.◌++◌ p s) ≡ p ∷ ps
unfolding split
split-append String.[] s ps h e = rw nil-append e
split-append (String.◌∷◌ c p) s ps (plain, h) e =
    rw (cons-append, split, plain) (ap (prepend c) (split-append p s ps h e))

split-spelled : (ps : List String) → ArePieces ps → split (spelled ps) ≡ String.[] ∷ ps
unfolding split
split-spelled [] a = refl
split-spelled (p ∷ ps) (h, a) =
    ap (◌∷◌ String.[]) (split-append p (spelled ps) ps h (split-spelled ps a))

-- Separators at the start make empty pieces, which are dropped anyway.
non_empty-split-trim_start : (s : String) → non_empty (split (trim_start s)) ≡ non_empty (split s)
unfolding split trim_start non_empty
non_empty-split-trim_start String.[] = refl
non_empty-split-trim_start (String.◌∷◌ c s) = ground (arith, non_empty-split-trim_start s)

module _ (S : Sdk) (L : IsLawful S) where
  -- A name that is spelled as pieces, each after a backslash, is the path of the pieces that are
  -- not empty, if the provider's rules accept each of them: separators that are doubled, leading
  -- or trailing make no difference.
  pub path-spelled :
      (ps : List String)
      → ArePieces ps
      → AreNames S (non_empty ps)
      → path S (some (spelled ps)) ≡ ok (non_empty ps)
  unfolding path non_empty
  path-spelled ps plain names =
      rw
        (
          non_empty-split-trim_start (spelled ps),
          split-spelled ps plain,
          non_empty,
          children-AreNames S L [] (non_empty ps) names,
        )
        refl
