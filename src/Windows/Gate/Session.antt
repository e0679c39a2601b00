-- ===== src/Windows/Gate/Session.antt =====
-- src/mount_gate.rs under any interleaving of opens, closes and detach requests.
use shell_canvas_drive_bridg.Base.{ℕ, suc, ◌+◌, ◌≡◌, ◌≢◌, refl, true, false, ok, err, Result, arith}
use shell_canvas_drive_bridg.Windows.Gate.{
  MountGate, GateError, idle, enter, begin_detach, drop_guard,
}

-- The gate, and how many `OpenGuard`s are alive.
pub record Attachment : Type 0 where
  pub gate : MountGate
  pub guards : ℕ

abbrev opened : Result GateError (Unit {0}) → ℕ → ℕ
opened (ok _) n = n + 1
opened (err _) n = n

-- Threads open, close and ask to detach in any order; each call is one step under the lock.
pub data Step (a : Attachment) : Attachment → Type 0 where
  enters : Step a (record { gate = (enter a.gate).1; guards = opened (enter a.gate).0 a.guards })
  drops : (n : ℕ) → a.guards ≡ suc n → Step a (record { gate = drop_guard a.gate; guards = n })
  detaches : Step a (record a { gate = (begin_detach a.gate).1 })

pub data Reach (a : Attachment) : Attachment → Type 0 where
  here : Reach a a
  next : {b c : Attachment} → Reach a b → Step b c → Reach a c

abbrev pub fresh : Attachment
fresh = record { gate = idle; guards = 0 }

-- The count is that of the live guards, and the gate is shut only when there is none.
pub record IsCounted (a : Attachment) : Type 0 where
  pub counted : a.gate.handles ≡ a.guards
  pub sound : a.gate.poisoned ≡ false
  pub shut : a.gate.detaching ≡ true → a.guards ≡ 0

Step-IsCounted : {a b : Attachment} → Step a b → IsCounted a → IsCounted b
unfolding enter begin_detach drop_guard
Step-IsCounted enters v = ground arith
Step-IsCounted (drops n e) v = ground arith
Step-IsCounted detaches v = ground arith

Reach-IsCounted : {a b : Attachment} → IsCounted a → Reach a b → IsCounted b
Reach-IsCounted v here = v
Reach-IsCounted v (next r st) = Step-IsCounted st (Reach-IsCounted v r)

-- In every history of a fresh gate the count is that of the handles still open, and once a detach
-- has been granted none is open.
pub Reach-fresh : (a : Attachment) → Reach fresh a → IsCounted a
Reach-fresh a r =
    Reach-IsCounted (record { counted = refl; sound = refl; shut = λ e. ground arith }) r

shut_step : {a b : Attachment} → Step a b → a.gate.detaching ≡ true → b.gate.detaching ≡ true
unfolding enter begin_detach drop_guard
shut_step enters e = ground arith
shut_step (drops n _) e = ground arith
shut_step detaches e = ground arith

-- A granted detach is final: whatever happens afterwards, no open succeeds.
pub detach_final :
    (a b : Attachment)
    → (begin_detach a.gate).0 ≡ ok tt
    → Reach (record a { gate = (begin_detach a.gate).1 }) b
    → (b.gate.detaching ≡ true) × ((enter b.gate).0 ≢ ok tt)
unfolding begin_detach enter
detach_final a b h here = ground arith
detach_final a b h (next {b = c} r st) =
    let shut = shut_step st (detach_final a c h r).0 in (shut, ground arith)

-- In every history of a fresh gate, while a handle is open a detach is refused, and the refusal
-- changes nothing: the gate stays open.
pub begin_detach_busy :
    (a : Attachment) (n : ℕ)
    → Reach fresh a
    → a.guards ≡ suc n
    → (begin_detach a.gate ≡ (err (GateError.busy (suc n)), a.gate)) × (a.gate.detaching ≡ false)
unfolding begin_detach
begin_detach_busy a n r held =
    let v = Reach-fresh a r in (ground (arith, v.counted, v.sound), ground (arith, v.shut))
