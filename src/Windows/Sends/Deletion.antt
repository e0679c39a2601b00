-- ===== src/Windows/Sends/Deletion.antt =====
-- src/windows.rs: `set_delete` opens a directory to see whether it is empty, and removes nothing.
use shell_canvas_drive_bridg.Base.{refl, ℕ, Bool, true, false}
use shell_canvas_drive_bridg.Sdk.{Sdk, Operation, MountPath}
use shell_canvas_drive_bridg.Windows.Contexts.{Context, call}
use shell_canvas_drive_bridg.Windows.Namespace
use shell_canvas_drive_bridg.Windows.Sends.{sending, Sends-pure}
use shell_canvas_drive_bridg.Windows.Sends.Contexts.{Keeps}

module _ (S : Sdk) where
  page-Keeps :
      (h : ℕ)
      → Keeps S (λ fs.
        let (page, read) = call S (Operation.read_directory h) fs in
        (page, (call S (Operation.close_directory h) read).1))
  unfolding call
  page-Keeps h I stable fs i =
      stable (Operation.close_directory h) _ refl
        (stable (Operation.read_directory h) fs.remote refl i)

  empty-Keeps : (p : MountPath) → Keeps S (Namespace.check_empty S p)
  unfolding Namespace.check_empty
  empty-Keeps p = search (sending, page-Keeps) depth 8

  pub set_delete-Keeps : (c : Context) (delete : Bool) → Keeps S (Namespace.set_delete S c delete)
  unfolding Namespace.set_delete
  set_delete-Keeps c false = Sends-pure tt
  set_delete-Keeps c true = search (sending, empty-Keeps) depth 10
