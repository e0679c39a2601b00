-- ===== src/Tests/Logs.antt =====
-- Logs of the scripted provider in which every operation is one of some allowed ones.
use shell_canvas_drive_bridg.Base.{◌≡◌, Bool, true, ◌&&◌, List, [], ◌∷◌, ◌++◌, arith}
use shell_canvas_drive_bridg.Sdk.{Operation, Value, FsResult}
use shell_canvas_drive_bridg.Sdk.Scripted.{Script, scripted, answer}
use shell_canvas_drive_bridg.Sdk.{IsStable}

module _ (allowed : Operation → Bool) where
  abbrev all_allowed : List Operation → Bool
  all_allowed [] = true
  all_allowed (op ∷ ops) = allowed op && all_allowed ops

  all_allowed-append :
      (ops : List Operation) (op : Operation)
      → all_allowed ops ≡ true
      → allowed op ≡ true
      → all_allowed (ops ++ (op ∷ [])) ≡ true
  all_allowed-append [] op a b = ground (arith, b)
  all_allowed-append (o ∷ ops) op a b = ground (arith, a, all_allowed-append ops op)

  abbrev pub IsWithin : Script → Type 0
  IsWithin r = all_allowed r.log ≡ true

  answer-IsWithin :
      (replies : List (FsResult Value)) (log : List Operation) (op : Operation)
      → allowed op ≡ true
      → all_allowed log ≡ true
      → IsWithin (answer op (record { replies = replies; log = log })).1
  answer-IsWithin [] log op e i = all_allowed-append log op i e
  answer-IsWithin (r ∷ replies) log op e i = all_allowed-append log op i e

  pub scripted-IsStable : IsStable scripted allowed IsWithin
  scripted-IsStable op r e i = answer-IsWithin r.replies r.log op e i
