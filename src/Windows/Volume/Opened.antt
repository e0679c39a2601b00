-- ===== src/Windows/Volume/Opened.antt =====
-- src/windows.rs: `open`, `create`, `close` and the loop of `run` keep the count of the gate.
use shell_canvas_drive_bridg.Base.{
  ℕ, ◌+◌, ◌≡◌, sym, subst, Bool, List, [], ◌∷◌, String, Result, ok, err, Action, arith, ◌>>=◌, ◌>>◌,
  bind_cases, pure, ◌⊎◌, inl, inr, Result-cases,
}
use shell_canvas_drive_bridg.Sdk.{Sdk, FsCreate, MountPath, is_directory_kind}
use shell_canvas_drive_bridg.Windows.Status.{NtStatus}
use shell_canvas_drive_bridg.Windows.Names.{WideName}
use shell_canvas_drive_bridg.Windows.Info.{FileInfo, fill}
use shell_canvas_drive_bridg.Windows.Attributes.{has}
use shell_canvas_drive_bridg.Windows.Gate.{GateError, begin_detach}
use shell_canvas_drive_bridg.Windows.Contexts.{
  Context, Fs, enter_gate, open_context, warn, require_writable,
}
use shell_canvas_drive_bridg.Windows.Opening.{
  guarded, find_entry, open_entry, make_entry, initialize, unconfirmed, abandon_on_error, fill_new,
  create,
}
use shell_canvas_drive_bridg.Windows.Mount
use shell_canvas_drive_bridg.Windows.Steady.{
  Steady, tables, find_entry-Steady, make_entry-Steady, initialize-Steady, warn-tables,
}
use shell_canvas_drive_bridg.Windows.Volume.{Volume, accept}
use shell_canvas_drive_bridg.Windows.Volume.Sound.{
  Fits, IsFit, Steady-Fits, granted, opened, enter_gate-Fits, release_on_error-Fits,
  open_context-Fits, drop_context-Fits, begin_detach-IsCounted, guards,
}

-- At rest: no callback is under way.
abbrev pub IsSound : {S : Sdk} → Volume S → Type 0
IsSound v = Fits 0 v.fs v.contexts

module _ (S : Sdk) where
  granted_ok :
      {A : Type 0} (r : Result NtStatus A × Fs S) (a : A) (cs : List Context)
      → r.0 ≡ ok a
      → Fits (granted r.0) r.1 cs
      → Fits 1 r.1 cs
  granted_ok r a cs e v = subst (λ o. Fits (granted o) r.1 cs) e v

  granted_err :
      {A : Type 0} (r : Result NtStatus A × Fs S) (e : NtStatus) (cs : List Context)
      → r.0 ≡ err e
      → Fits (granted r.0) r.1 cs
      → Fits 0 r.1 cs
  granted_err r e cs b v = subst (λ o. Fits (granted o) r.1 cs) b v

  -- A callback that enters the gate, works under its guard, and then opens a context.
  module _ {A : Type 0} (m : Action (Fs S) NtStatus A) (steady : Steady m)
      (f : A → Action (Fs S) NtStatus (Context × FileInfo)) (cs : List Context)
      (rest : (a : A) (fs : Fs S) → Fits 1 fs cs → IsSound (accept S cs (f a fs))) where
    entering :
        (fs : Fs S)
        → Fits 0 fs cs
        → IsSound (accept S cs ((enter_gate S >> (guarded S m >>= f)) fs))
    entering fs v =
        let in_gate = enter_gate-Fits S fs cs v in
        bind_cases (λ r. IsSound (accept S cs r)) (λ _. guarded S m >>= f) (enter_gate S) fs
          (λ e b. granted_err (enter_gate S fs) e cs b in_gate)
          (λ a g.
            let fs' = (enter_gate S fs).1 in
            let held = granted_ok (enter_gate S fs) a cs g in_gate in
            let done = release_on_error-Fits S (m fs') cs (Steady-Fits m 1 fs' cs steady held) in
            bind_cases (λ r. IsSound (accept S cs r)) f (guarded S m) fs'
              (λ e b. granted_err (guarded S m fs') e cs b done)
              (λ x g'. rest x (guarded S m fs').1 (granted_ok (guarded S m fs') x cs g' done)))

  -- What comes once the context is open.
  opening :
      (p : MountPath) (access : ℕ) (create : FsCreate) (is_dir : Bool)
      (f : Context → Action (Fs S) NtStatus (Context × FileInfo)) (fs : Fs S) (cs : List Context)
      → ((c : Context) (fs : Fs S) → Fits 0 fs (c ∷ cs) → IsSound (accept S cs (f c fs)))
      → Fits 1 fs cs
      → IsSound (accept S cs ((open_context S p access create is_dir >>= f) fs))
  opening p access create is_dir f fs cs rest v =
      let m = open_context S p access create is_dir in
      let done = open_context-Fits S p access create is_dir fs cs v in
      bind_cases (λ r. IsSound (accept S cs r)) f m fs
        (λ e b. subst (λ o. Fits 0 (m fs).1 (opened S o cs)) b done)
        (λ c g. rest c (m fs).1 (subst (λ o. Fits 0 (m fs).1 (opened S o cs)) g done))

  pub open_entry-IsSound :
      (name : WideName) (options access : ℕ) (fs : Fs S) (cs : List Context)
      → Fits 0 fs cs
      → IsSound (accept S cs (open_entry S name options access fs))
  unfolding open_entry
  open_entry-IsSound name options access fs cs v =
      entering (find_entry S name options) (find_entry-Steady S name options)
        (λ (p, m).
          open_context S p access FsCreate.open_existing (is_directory_kind m.kind) >>= λ c.
          pure (c, fill m))
        cs
        (λ (p, m) fs' v'.
          opening p access FsCreate.open_existing (is_directory_kind m.kind) (λ c. pure (c, fill m))
            fs' cs (λ c fs'' v''. v'') v')
        fs v

  fill_new-IsSound :
      (c : Context) (requested : ℕ) (fs : Fs S) (cs : List Context)
      → Fits 0 fs (c ∷ cs)
      → IsSound (accept S cs (fill_new S c requested fs))
  unfolding fill_new abandon_on_error
  fill_new-IsSound c requested fs cs v =
      let m = initialize S c requested in
      let had = Steady-Fits m 0 fs (c ∷ cs) (initialize-Steady S c requested) v in
      elim (Result-cases (m fs).0) [
        | inr (info, good) ↦ rw (good, fill_new, abandon_on_error) had
        | inl (e, bad) ↦
            rw (bad, fill_new, abandon_on_error)
              (drop_context-Fits S c [] cs (warn S unconfirmed (m fs).1)
                (subst (λ t. IsFit 0 t (c ∷ cs)) (sym (warn-tables S unconfirmed (m fs).1)) had))
      ]

  pub create-IsSound :
      (name : WideName) (options access requested : ℕ) (fs : Fs S) (cs : List Context)
      → Fits 0 fs cs
      → IsSound (accept S cs (create S name options access requested fs))
  unfolding create
  create-IsSound name options access requested fs cs v =
      let make = make_entry S name options requested in
      let after : MountPath × ℕ → Action (Fs S) NtStatus (Context × FileInfo) = λ (p, attributes).
        open_context S p access FsCreate.create_new (has options 1) >>= λ c.
        fill_new S c attributes in
      bind_cases (λ r. IsSound (accept S cs r)) (λ _. enter_gate S >> (guarded S make >>= after))
        (require_writable S) fs (λ e _. v)
        (λ _ _.
          entering make (make_entry-Steady S name options requested) after cs
            (λ (p, attributes) fs' v'.
              opening p access FsCreate.create_new (has options 1) (λ c. fill_new S c attributes)
                fs' cs (λ c fs'' v''. fill_new-IsSound c attributes fs'' cs v'') v')
            fs v)

  module _ (text : GateError → String) where
    pub turn-tables :
        (fs : Fs S)
        → let fs' = (Mount.turn S text fs).1 in
          (tables fs' ≡ tables fs)
          ⊎ (tables fs' ≡ ((begin_detach fs.gate).1, fs.handles, fs.next, fs.caps))
    unfolding Mount.turn Mount.obey Mount.detach Mount.report
    turn-tables fs = ground arith

    pub turn-Fits :
        (fs : Fs S) (cs : List Context) → Fits 0 fs cs → Fits 0 (Mount.turn S text fs).1 cs
    turn-Fits fs cs v = elim (turn-tables fs) [
      | inl same ↦ subst (λ t. IsFit 0 t cs) (sym same) v
      | inr asked ↦
          subst (λ t. IsFit 0 t cs) (sym asked)
            (begin_detach-IsCounted fs.gate (0 + guards cs) v.0, v.1)
    ]
