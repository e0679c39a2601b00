-- ===== src/Windows/Volume/Sound.antt =====
-- src/windows.rs: the gate counts the contexts that block a detach, through the steps that callbacks
-- are made of.
use shell_canvas_drive_bridg.Base.{
  ℕ, suc, ◌+◌, ◌≡◌, refl, sym, subst, ◌∙◌, Bool, true, false, Option, List, [], ◌∷◌, ◌++◌, Result,
  ok, err, Action, arith, if◌then◌else◌, not, ◌||◌, Result-cases, bind_cases, inl, inr, nat_eq,
}
use shell_canvas_drive_bridg.Sdk.{Sdk, MountPath, FsCreate}
use shell_canvas_drive_bridg.Windows.Status.{NtStatus}
use shell_canvas_drive_bridg.Windows.Gate.{MountGate, enter, drop_guard, begin_detach}
use shell_canvas_drive_bridg.Windows.Handles.{blocks_detach}
use shell_canvas_drive_bridg.Windows.Contexts
use shell_canvas_drive_bridg.Windows.Contexts.{
  Context, Fs, enter_gate, leave_gate, release_on_error, open_handle, track, tracked_context,
  open_context, close_remotes, close_quietly, drop_context,
}
use shell_canvas_drive_bridg.Windows.Steady.{
  Tables, tables, Steady, open_handle-Steady, close_quietly-tables,
}
use shell_canvas_drive_bridg.Windows.Volume.Registry.{
  IsMatched, register-IsMatched, dropped-IsMatched, directory-IsMatched,
}

-- The contexts that hold an `OpenGuard`.
abbrev pub guards : List Context → ℕ
guards [] = 0
guards (c ∷ cs) = (if c.guard then 1 else 0) + guards cs

-- A gate at which `n` guards are alive.
pub record IsCounted (g : MountGate) (n : ℕ) : Type 0 where
  pub counted : g.handles ≡ n
  pub sound : g.poisoned ≡ false
  pub shut : g.detaching ≡ true → n ≡ 0

abbrev pub IsFit : ℕ → Tables → List Context → Type 0
IsFit k t cs = IsCounted t.0 (k + guards cs) × IsMatched t.1 t.2 cs

-- Besides the guards of the contexts, `k` more are alive: those of callbacks under way.
module _ {S : Sdk} where
  abbrev pub Fits : ℕ → Fs S → List Context → Type 0
  Fits k fs cs = IsFit k (tables fs) cs

  pub Steady-Fits :
      {A : Type 0} (m : Action (Fs S) NtStatus A) (k : ℕ) (fs : Fs S) (cs : List Context)
      → Steady m
      → Fits k fs cs
      → Fits k (m fs).1 cs
  Steady-Fits m k fs cs s v = subst (λ t. IsFit k t cs) (sym (s fs)) v

-- One guard more after a success, none after an error.
abbrev pub granted : {E A : Type 0} → Result E A → ℕ
granted (ok _) = 1
granted (err _) = 0

entered :
    (g : MountGate) (n : ℕ) → IsCounted g (0 + n) → IsCounted (enter g).1 (granted (enter g).0 + n)
unfolding enter
entered g n v = ground (arith, v)

left : (k : ℕ) (g : MountGate) (n : ℕ) → IsCounted g (suc k + n) → IsCounted (drop_guard g) (k + n)
unfolding drop_guard
left k g n v = ground (arith, v)

abbrev one_if : Bool → ℕ
one_if b = if b then 1 else 0

-- A guard that goes into a context or is dropped.
kept_or_left :
    (b : Bool) (g : MountGate) (n : ℕ)
    → IsCounted g (1 + n)
    → IsCounted (if b then g else drop_guard g) (0 + (one_if b + n))
kept_or_left true g n v = ground (arith, v)
kept_or_left false g n v = ground (arith, left 0 g n v)

-- A context gives up the guard that it may hold.
given_up :
    (b : Bool) (g : MountGate) (n : ℕ)
    → IsCounted g (0 + (one_if b + n))
    → IsCounted (if b then drop_guard g else g) (0 + n)
unfolding drop_guard
given_up true g n v = ground (arith, v)
given_up false g n v = ground (arith, v)

guards-remove :
    (c : Context) (newer older : List Context)
    → guards (newer ++ (c ∷ older)) ≡ one_if c.guard + guards (newer ++ older)
guards-remove c [] older = refl
guards-remove c (x ∷ newer) older = omega (arith, guards-remove c newer older)

guards-directory :
    (c : Context) (d : Contexts.Directory) (newer older : List Context)
    → guards (newer ++ (record c { directory = d } ∷ older)) ≡ guards (newer ++ (c ∷ older))
guards-directory c d [] older = refl
guards-directory c d (x ∷ newer) older = omega (arith, guards-directory c d newer older)

pub begin_detach-IsCounted :
    (g : MountGate) (n : ℕ) → IsCounted g n → IsCounted (begin_detach g).1 n
unfolding begin_detach
begin_detach-IsCounted g n v = ground (arith, v)

module _ (S : Sdk) where
  pub enter_gate-Fits :
      (fs : Fs S) (cs : List Context)
      → Fits 0 fs cs
      → Fits (granted (enter_gate S fs).0) (enter_gate S fs).1 cs
  unfolding enter_gate
  enter_gate-Fits fs cs v = elim (Result-cases (enter fs.gate).0) [
    | inl (e, r) ↦ rw (r, enter_gate) (rw r at (entered fs.gate (guards cs) v.0), v.1)
    | inr (u, r) ↦ rw (r, enter_gate) (rw r at (entered fs.gate (guards cs) v.0), v.1)
  ]

  leave_gate-Fits :
      (k : ℕ) (fs : Fs S) (cs : List Context) → Fits (suc k) fs cs → Fits k (leave_gate S fs) cs
  leave_gate-Fits k fs cs v = (left k fs.gate (guards cs) v.0, v.1)

  pub release_on_error-Fits :
      {A : Type 0} (r : Result NtStatus A × Fs S) (cs : List Context)
      → Fits 1 r.1 cs
      → Fits (granted (release_on_error S r).0) (release_on_error S r).1 cs
  unfolding release_on_error
  release_on_error-Fits (ok a, fs) cs v = v
  release_on_error-Fits (err e, fs) cs v = leave_gate-Fits 0 fs cs v

  -- The contexts after an open.
  abbrev pub opened : Result NtStatus Context → List Context → List Context
  opened (ok c) cs = c ∷ cs
  opened (err _) cs = cs

  track-Fits :
      (p : MountPath) (access : ℕ) (create : FsCreate) (is_dir : Bool) (file : Option ℕ) (fs : Fs S)
      (cs : List Context)
      → Fits 1 fs cs
      → let (c, fs') = track S p access create is_dir file fs in Fits 0 fs' (c ∷ cs)
  unfolding track
  track-Fits p access create is_dir file fs cs v =
      let (c, fs') = track S p access create is_dir file fs in
      (
        kept_or_left (blocks_detach is_dir access) fs.gate (guards cs) v.0,
        register-IsMatched c
            (record {
              path = p;
              file = file;
              writable = Contexts.requested_write access || not (Contexts.opens_existing create);
            })
            fs.handles fs.next cs refl refl v.1,
      )

  pub open_context-Fits :
      (p : MountPath) (access : ℕ) (create : FsCreate) (is_dir : Bool) (fs : Fs S)
      (cs : List Context)
      → Fits 1 fs cs
      → let (r, fs') = open_context S p access create is_dir fs in Fits 0 fs' (opened r cs)
  unfolding open_context release_on_error
  open_context-Fits p access create is_dir fs cs v =
      let m = open_handle S p access create is_dir in
      let had = Steady-Fits m 1 fs cs (open_handle-Steady S p access create is_dir) v in
      bind_cases (λ r. let (o, fs') = release_on_error S r in Fits 0 fs' (opened o cs))
        (tracked_context S p access create is_dir) m fs (λ e _. leave_gate-Fits 0 (m fs).1 cs had)
        (λ file _. track-Fits p access create is_dir file (m fs).1 cs had)

  pub remotes-tables : (c : Context) (fs : Fs S) → tables (close_remotes S c fs) ≡ tables fs
  unfolding close_remotes
  remotes-tables c fs = close_quietly-tables S _ _ _ ∙ close_quietly-tables S _ _ fs

  pub drop_context-Fits :
      (c : Context) (newer older : List Context) (fs : Fs S)
      → Fits 0 fs (newer ++ (c ∷ older))
      → Fits 0 (drop_context S c fs) (newer ++ older)
  unfolding drop_context
  drop_context-Fits c newer older fs v =
      let fs' = close_remotes S c fs in
      let v' : IsFit 0 (tables fs') (newer ++ (c ∷ older)) =
        subst (λ t. IsFit 0 t (newer ++ (c ∷ older))) (sym (remotes-tables c fs)) v in
      (
        given_up c.guard fs'.gate (guards (newer ++ older))
            (rw (← guards-remove c newer older) v'.0),
        dropped-IsMatched c older fs'.handles fs'.next newer v'.1,
      )

  pub directory-Fits :
      (c : Context) (d : Contexts.Directory) (newer older : List Context) (fs : Fs S)
      → Fits 0 fs (newer ++ (c ∷ older))
      → Fits 0 fs (newer ++ (record c { directory = d } ∷ older))
  directory-Fits c d newer older fs v = (
    rw (guards-directory c d newer older) v.0,
    directory-IsMatched c older d fs.handles fs.next newer v.1,
  )
