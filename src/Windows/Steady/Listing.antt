-- ===== src/Windows/Steady/Listing.antt =====
-- src/windows.rs, `read_directory`, leaves the gate and the registry of descriptors alone.
use shell_canvas_drive_bridg.Base.{ℕ, ◌≡◌, refl, ◌∙◌, Option, some, Result}
use shell_canvas_drive_bridg.Sdk.{Sdk}
use shell_canvas_drive_bridg.Windows.Status.{NtStatus}
use shell_canvas_drive_bridg.Windows.Names.{WideName}
use shell_canvas_drive_bridg.Windows.Contexts
use shell_canvas_drive_bridg.Windows.Contexts.{Context, Fs}
use shell_canvas_drive_bridg.Windows.Listing.{DirBuffer, read_directory}
use shell_canvas_drive_bridg.Windows.Listing.Calls.{read_directory-calls}
use shell_canvas_drive_bridg.Windows.Steady.{tables, call-Steady}

pub read_directory-tables :
    (S : Sdk) (K : DirBuffer) (fuel : ℕ) (c : Context) (marker : Option WideName) (b : K.Buffer)
    (fs : Fs S) (r : Result NtStatus K.Buffer) (d : Contexts.Directory) (fs' : Fs S)
    → read_directory S K fuel c marker b fs ≡ some (r, (d, fs'))
    → tables fs' ≡ tables fs
read_directory-tables S K fuel c marker b fs r d fs' e =
    read_directory-calls S (λ t. tables t ≡ tables fs) (λ op t _ same. call-Steady S op t ∙ same) K
      fuel c marker b fs r d fs' refl e
