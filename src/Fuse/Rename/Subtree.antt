-- ===== src/Fuse/Rename/Subtree.antt =====
-- src/fuse.rs, `Fs::rename`: what a rename does to the paths at or below its source, and to the
-- others.
use shell_canvas_drive_bridg.Base.{
  ℕ, ◌≡◌, ◌≢◌, ap, ◌∙◌, inl, inr, false, some, none, [], ◌++◌, ok, arith, starts_with,
  starts_with-append, append-nil, Result-cases, nat_eq, string_eq, list_eq,
}
use shell_canvas_drive_bridg.Base.Dict
use shell_canvas_drive_bridg.Base.Dict.{Dict}
use shell_canvas_drive_bridg.Sdk.{Sdk, IsLawful, MountPath, root}
use shell_canvas_drive_bridg.Fuse.Inodes.{State, node_path, retire_path}
use shell_canvas_drive_bridg.Fuse.Inodes.Invariant.{IsSound, retire_path-IsSound}
use shell_canvas_drive_bridg.Fuse.Rename.{moved, move_paths, rename_state}
use shell_canvas_drive_bridg.Fuse.Rename.Tables.{rename_state-IsSound}
use shell_canvas_drive_bridg.Fuse.Rename.Entries.{lookup-moved, moved-NodupKeys, lookup-retire_path}
use shell_canvas_drive_bridg.Fuse.Rename.Loop.{moved-AreBelow, separate, move_paths_lem}

module _ (S : Sdk) (L : IsLawful S) (from to : MountPath) (apart : starts_with from to ≡ false)
    (apart' : starts_with to from ≡ false) where
  rename_state-paths :
      (s : State)
      → (rename_state S from to s).0 ≡ ok tt
      → let u = retire_path to s in
        ((move_paths S from to (moved from u.paths) u).0 ≡ ok tt)
        × ((rename_state S from to s).1.paths
            ≡ (move_paths S from to (moved from u.paths) u).1.paths)
  unfolding rename_state
  rename_state-paths s done =
      let u = retire_path to s in
      elim (Result-cases (move_paths S from to (moved from u.paths) u).0) [
        | inl (e, bad) ↦ absurd (ground (arith, bad))
        | inr (_, good) ↦ (good, ground (arith, good))
      ]

  rename_state_lem :
      (s : State)
      → IsSound s
      → from ≢ root
      → to ≢ root
      → (rename_state S from to s).0 ≡ ok tt
      → let t = (rename_state S from to s).1 in
        ((q : MountPath) (id : ℕ)
          → Dict.lookup (from ++ q) s.paths ≡ some id
          → (Dict.lookup (to ++ q) t.paths ≡ some id)
            × (node_path (Dict.lookup id t.nodes) ≡ some (to ++ q)))
        × ((q : MountPath) → Dict.lookup (from ++ q) t.paths ≡ none)
        × ((p : MountPath)
            → starts_with p from ≡ false
            → starts_with p to ≡ false
            → Dict.lookup p t.paths ≡ Dict.lookup p s.paths)
  rename_state_lem s v ne ne' done =
      let w = rename_state-IsSound S L from to s ne ne' v in
      let u = retire_path to s in
      let l = moved from u.paths in
      let r = rename_state-paths s done in
      let z =
        move_paths_lem S L from to apart apart' l u (moved-AreBelow from u.paths)
          (moved-NodupKeys from u.paths (retire_path-IsSound to s ne' v).distinct) r.0 in
      let known : (q : MountPath) (id : ℕ)
          → Dict.lookup (from ++ q) s.paths ≡ some id
          → Dict.lookup (to ++ q) (rename_state S from to s).1.paths ≡ some id =
        λ q id e.
          ap (Dict.lookup (to ++ q)) r.1
          ∙ z.0 q
          ∙ ground (
            arith,
            lookup-moved from (from ++ q) u.paths,
            starts_with-append from q,
            lookup-retire_path (from ++ q) to s,
            separate S L from to apart apart' [] q,
            append-nil to,
          ) in
      (
        λ q id e. (known q id e, w.named (to ++ q) id (known q id e)),
        λ q.
            ap (Dict.lookup (from ++ q)) r.1
            ∙ z.1 q
            ∙ ground (arith, lookup-moved from (from ++ q) u.paths, starts_with-append from q),
        λ p h h'.
            ap (Dict.lookup p) r.1
            ∙ z.2 p h h'
            ∙ ground (arith, lookup-retire_path p to s, starts_with-append to [], append-nil to),
      )

  -- In consistent tables, after a rename that ran to its end between two paths other than the
  -- root, of which neither lies below the other, a path that was known at or below `from` is known
  -- in its place at or below `to`: it stands for the same inode, that inode has the new path, and
  -- the old path is not known any more.
  pub rename_state_moved :
      (s : State) (q : MountPath) (id : ℕ)
      → IsSound s
      → from ≢ root
      → to ≢ root
      → (rename_state S from to s).0 ≡ ok tt
      → Dict.lookup (from ++ q) s.paths ≡ some id
      → (Dict.lookup (to ++ q) (rename_state S from to s).1.paths ≡ some id)
        × (node_path (Dict.lookup id (rename_state S from to s).1.nodes) ≡ some (to ++ q))
        × (Dict.lookup (from ++ q) (rename_state S from to s).1.paths ≡ none)
  rename_state_moved s q id v ne ne' done known =
      let z = rename_state_lem s v ne ne' done in ((z.0 q id known).0, (z.0 q id known).1, z.1 q)

  -- In consistent tables, a rename that ran to its end between two paths other than the root, of
  -- which neither lies below the other, leaves every path alone that lies neither at or below `from` nor at or
  -- below `to`.
  pub rename_state_outside :
      (s : State) (p : MountPath)
      → IsSound s
      → from ≢ root
      → to ≢ root
      → (rename_state S from to s).0 ≡ ok tt
      → starts_with p from ≡ false
      → starts_with p to ≡ false
      → Dict.lookup p (rename_state S from to s).1.paths ≡ Dict.lookup p s.paths
  rename_state_outside s p v ne ne' done h h' = (rename_state_lem s v ne ne' done).2 p h h'
