-- ===== src/Sdk/Interface.antt =====
-- What the bridge calls of the SDK, as parameters: the reply to each operation
-- (vendor/filesystem-sdk/src/wire.rs, `Client::call`) and the check of a path component
-- (vendor/filesystem-sdk/src/lib.rs, `MountPath::child`).
use shell_canvas_drive_bridg.Base.{◌≡◌, Bool, true, ok, [], ◌∷◌, ◌++◌, String}
use shell_canvas_drive_bridg.Sdk.Types.{FsResult, MountPath, Operation, Value}

-- `Remote` is all that stands behind the pipe.
pub record Sdk : Type 1 where
  pub Remote : Type 0
  pub call : Operation → Remote → FsResult Value × Remote
  pub child : MountPath → String → FsResult MountPath

-- The documented behaviour of `MountPath::child`: an accepted name is appended, and whether it is
-- accepted depends on the name alone.
pub record IsLawful (S : Sdk) : Type 0 where
  pub child_appends : (p q : MountPath) (n : String) → S.child p n ≡ ok q → q ≡ p ++ (n ∷ [])
  pub child_uniform :
      (p q t : MountPath) (n : String) → S.child p n ≡ ok q → S.child t n ≡ ok (t ++ (n ∷ []))

-- What no operation of a kind destroys.
abbrev pub IsStable : (S : Sdk) → (Operation → Bool) → (S.Remote → Type 0) → Type 0
IsStable S A I = (op : Operation) (r : S.Remote) → A op ≡ true → I r → I (S.call op r).1
