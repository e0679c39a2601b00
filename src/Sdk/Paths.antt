-- ===== src/Sdk/Paths.antt =====
-- The fold `try_fold(base, |path, name| path.child(name))`, which fuse.rs, windows.rs and
-- windows_handles.rs write out where they build a path below another.
use shell_canvas_drive_bridg.Base.{
  ◌≡◌, ◌∙◌, inl, inr, List, [], ◌∷◌, ◌++◌, String, ok, arith, then_result, Result-cases, append-nil,
  append_assoc,
}
use shell_canvas_drive_bridg.Sdk.Types.{MountPath, FsResult}
use shell_canvas_drive_bridg.Sdk.Interface.{Sdk, IsLawful}

module _ (S : Sdk) where
  unfoldable pub children : MountPath → List String → FsResult MountPath
  children p [] = ok p
  children p (n ∷ ns) = then_result (S.child p n) (λ q. children q ns)

  -- Every name is one that `child` accepts.
  abbrev pub AreNames : List String → Type 0
  AreNames [] = Unit {0}
  AreNames (n ∷ ns) = (S.child [] n ≡ ok (n ∷ [])) × AreNames ns

module _ (S : Sdk) (L : IsLawful S) where
  pub children-append :
      (p : MountPath) (ns : List String) (q : MountPath) → children S p ns ≡ ok q → q ≡ p ++ ns
  unfolding children
  children-append p [] q h = ground (arith, append-nil p)
  children-append p (n ∷ ns) q h = elim (Result-cases (S.child p n)) [
    | inl (e, c) ↦ ground arith
    | inr (t, c) ↦
        let rest : children S t ns ≡ ok q = rw c at h in
        children-append t ns q rest ∙ rw (L.child_appends p t n c) (append_assoc p (n ∷ []) ns)
  ]

  -- Names that were accepted once are accepted below any other path.
  pub children-AreNames :
      (p : MountPath) (ns : List String) → AreNames S ns → children S p ns ≡ ok (p ++ ns)
  unfolding children
  children-AreNames p [] a = ground (arith, append-nil p)
  children-AreNames p (n ∷ ns) a =
      rw (L.child_uniform [] (n ∷ []) p n a.0, children)
        (children-AreNames (p ++ (n ∷ [])) ns a.1 ∙ rw (append_assoc p (n ∷ []) ns))
