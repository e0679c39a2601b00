-- ===== src/Sdk/Scripted.antt =====
-- A provider that answers from a script and logs what it is asked: for concrete runs.
use shell_canvas_drive_bridg.Base.{
  ◌≡◌, Bool, ◌||◌, List, [], ◌∷◌, ◌++◌, String, arith, ok, err, ◌==◌, string_eq, if◌then◌else◌,
}
use shell_canvas_drive_bridg.Sdk.Types.{FsError, FsErrorKind, FsResult, MountPath, Operation, Value}
use shell_canvas_drive_bridg.Sdk.Interface.{Sdk, IsLawful}

pub record Script : Type 0 where
  pub replies : List (FsResult Value)
  pub log : List Operation

abbrev pub offline_error : FsError
offline_error = record { kind = FsErrorKind.offline; message = "Bridge connection is closed" }

abbrev pub invalid_name : FsError
invalid_name = record { kind = FsErrorKind.invalid_input; message = "Invalid mounted filename" }

-- The next reply; once the script is over the connection is closed.
abbrev pub answer : Operation → Script → FsResult Value × Script
answer op s = elim s.replies [
  | [] ↦ (err offline_error, record s { log = s.log ++ (op ∷ []) })
  | r ∷ rest ↦ (r, record { replies = rest; log = s.log ++ (op ∷ []) })
]

abbrev pub is_special : String → Bool
is_special n = n == "" || n == "." || n == ".."

abbrev pub append_name : MountPath → String → FsResult MountPath
append_name p n = if is_special n then err invalid_name else ok (p ++ (n ∷ []))

abbrev pub scripted : Sdk
scripted = record { Remote = Script; call = answer; child = append_name }

append_name-appends : (p q : MountPath) (n : String) → append_name p n ≡ ok q → q ≡ p ++ (n ∷ [])
append_name-appends p q n h = ground arith

append_name-uniform :
    (p q t : MountPath) (n : String) → append_name p n ≡ ok q → append_name t n ≡ ok (t ++ (n ∷ []))
append_name-uniform p q t n h = ground arith

pub scripted-IsLawful : IsLawful scripted
scripted-IsLawful = record {
  child_appends = append_name-appends;
  child_uniform = append_name-uniform;
}

-- A script with nothing logged yet.
abbrev pub script : List (FsResult Value) → Script
script replies = record { replies = replies; log = [] }
