-- ===== src/Windows/Sends.antt =====
-- src/windows.rs: which operations a callback sends to the provider. A callback sends only operations
-- of a kind if it keeps whatever those operations keep.
pub mod Ordinary
pub mod Contexts
pub mod Callbacks
pub mod Deletion
pub mod Queries
pub mod Steps
use shell_canvas_drive_bridg.Base.{
  ℕ, zero, suc, ◌≡◌, refl, Bool, true, false, not, Option, none, some, List, [], ◌∷◌, ◌++◌, String,
  Result, ok, err, Action, pure, lift, raise_if, ◌>>=◌, ◌>>◌, bind_cases, if◌then◌else◌, ltb,
  length, ◌+◌, arith,
}
use shell_canvas_drive_bridg.Sdk.{Sdk, IsStable, Operation, MountPath}
use shell_canvas_drive_bridg.Transfer.{read_loop, read_part, continue_read, write_loop}
use shell_canvas_drive_bridg.Windows.Status.{NtStatus, invalid}
use shell_canvas_drive_bridg.Windows.Names.{WideName}
use shell_canvas_drive_bridg.Windows.Opening
use shell_canvas_drive_bridg.Windows.Contexts.{
  Context, Fs, call, enter_gate, release_on_error, warn, context_path, metadata, metadata_reply,
  path_metadata, require_writable,
}

module _ (S : Sdk) (A : Operation → Bool) where
  abbrev pub Sends : {B : Type 0} → Action (Fs S) NtStatus B → Type 1
  Sends m = (I : S.Remote → Type 0) → IsStable S A I → (fs : Fs S) → I fs.remote → I (m fs).1.remote

module _ {S : Sdk} {A : Operation → Bool} where
  pub Sends-bind :
      {B C : Type 0} (m : Action (Fs S) NtStatus B) (f : B → Action (Fs S) NtStatus C)
      → Sends S A m
      → ((b : B) → Sends S A (f b))
      → Sends S A (m >>= f)
  Sends-bind m f k h I stable fs i =
      bind_cases (λ r. I r.1.remote) f m fs (λ e _. k I stable fs i)
        (λ b _. h b I stable (m fs).1 (k I stable fs i))

  pub Sends-lift : {B : Type 0} (r : Result NtStatus B) → Sends S A (lift r)
  Sends-lift r I stable fs i = i

  pub Sends-pure : {B : Type 0} (b : B) → Sends S A (pure b)
  Sends-pure b I stable fs i = i

  pub Sends-raise_if : (b : Bool) (e : NtStatus) → Sends S A (raise_if b e)
  Sends-raise_if b e I stable fs i = i

  pub Sends-if :
      {B : Type 0} (b : Bool) (m n : Action (Fs S) NtStatus B)
      → Sends S A m
      → Sends S A n
      → Sends S A (if b then m else n)
  Sends-if true m n h k = h
  Sends-if false m n h k = k

  pub Sends-context_path : (c : Context) → Sends S A (context_path S c)
  Sends-context_path c I stable fs i = i

  pub Sends-require_writable : Sends S A (require_writable S)
  Sends-require_writable I stable fs i = i

  pub Sends-call : (op : Operation) → A op ≡ true → Sends S A (call S op)
  unfolding call
  Sends-call op allowed I stable fs i = stable op fs.remote allowed i

  pub Sends-enter_gate : Sends S A (enter_gate S)
  unfolding enter_gate
  Sends-enter_gate I stable fs i = ground (arith, i)

  pub Sends-release :
      {B : Type 0} (m : Action (Fs S) NtStatus B)
      → Sends S A m
      → Sends S A (λ fs. release_on_error S (m fs))
  unfolding release_on_error
  Sends-release m k I stable fs i = ground (arith, k I stable fs i)

  pub Sends-guarded :
      {B : Type 0} (m : Action (Fs S) NtStatus B) → Sends S A m → Sends S A (Opening.guarded S m)
  Sends-guarded m k = Sends-release m k

pub ruleset sending = (
  Sends-bind, Sends-lift, Sends-pure, Sends-raise_if, Sends-if, Sends-context_path,
  Sends-require_writable, Sends-call, Sends-enter_gate, Sends-guarded,
)

-- What sends operations of a kind sends operations of every wider kind.
pub Sends-widen :
    {S : Sdk} {A B : Operation → Bool} {C : Type 0} (m : Action (Fs S) NtStatus C)
    → ((op : Operation) → A op ≡ true → B op ≡ true)
    → Sends S A m
    → Sends S B m
Sends-widen m wider k I stable fs i = k I (λ op r a. stable op r (wider op a)) fs i
