-- ===== src/Windows/Names.antt =====
-- src/windows.rs, `path`: a name from the kernel as a path below the granted root.
pub mod Parsing
use Prim.Native.Char.{Char, code}
use Prim.Native.String
use shell_canvas_drive_bridg.Base.{
  Bool, Option, none, some, List, [], ◌∷◌, String, Result, err, map_err, eqb, if◌then◌else◌,
}
use shell_canvas_drive_bridg.Sdk.{Sdk, MountPath, root}
use shell_canvas_drive_bridg.Sdk.Paths.{children}
use shell_canvas_drive_bridg.Windows.Status.{NtStatus, failure, invalid}

-- A `U16CStr`; `none` stands for one that is not UTF-16.
abbrev pub WideName : Type 0
WideName = Option String

-- `'\\'`
abbrev pub is_separator : Char → Bool
is_separator c = eqb (code c) 92

unfoldable pub trim_start : String → String
trim_start String.[] = String.[]
trim_start (String.◌∷◌ c s) =
    let rest = trim_start s in if is_separator c then rest else String.◌∷◌ c s

-- A character in front of the first piece.
abbrev pub prepend : Char → List String → List String
prepend c [] = String.◌∷◌ c String.[] ∷ []
prepend c (p ∷ ps) = String.◌∷◌ c p ∷ ps

-- `str::split`: one piece more than there are separators.
unfoldable pub split : String → List String
split String.[] = String.[] ∷ []
split (String.◌∷◌ c s) =
    let rest = split s in if is_separator c then String.[] ∷ rest else prepend c rest

-- `filter(|s| !s.is_empty())`
unfoldable pub non_empty : List String → List String
non_empty [] = []
non_empty (String.[] ∷ ps) = non_empty ps
non_empty (String.◌∷◌ c s ∷ ps) = String.◌∷◌ c s ∷ non_empty ps

module _ (S : Sdk) where
  unfoldable pub path : WideName → Result NtStatus MountPath
  path none = err invalid
  path (some name) = map_err failure (children S root (non_empty (split (trim_start name))))
