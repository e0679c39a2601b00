-- ===== src/Fuse/Rename/Loop.antt =====
-- src/fuse.rs, `Fs::rename`: what the loop does to the table of paths, entry by entry.
use shell_canvas_drive_bridg.Base.{
  ℕ, Result, subst, ◌≡◌, ◌≢◌, refl, sym, ap, ◌∙◌, true, false, Option, some, none, List, [], ◌∷◌,
  ◌++◌, ok, arith, starts_with, starts_with-append, append-of_starts_with, bind_cases, ◌>>◌, lift,
  nat_eq, string_eq, list_eq, length, drop,
}
use shell_canvas_drive_bridg.Base.Dict
use shell_canvas_drive_bridg.Base.Dict.{Dict}
use shell_canvas_drive_bridg.Sdk.{Sdk, IsLawful, MountPath}
use shell_canvas_drive_bridg.Fuse.Attributes.{Errno}
use shell_canvas_drive_bridg.Fuse.Inodes.{State}
use shell_canvas_drive_bridg.Fuse.Rename.{moved, move_path, relocate, move_paths}
use shell_canvas_drive_bridg.Fuse.Rename.Tables.{relocate-append}
use shell_canvas_drive_bridg.Fuse.Rename.Entries.{
  starts_with_common, append_cancel, move_path-paths,
}

abbrev pub or_else : Option ℕ → Option ℕ → Option ℕ
or_else none o = o
or_else (some a) o = some a

abbrev pub unless : Option ℕ → Option ℕ → Option ℕ
unless none o = o
unless (some a) o = none

-- Every entry at or below `from`.
abbrev pub AreBelow : MountPath → List (MountPath × ℕ) → Type 0
AreBelow from [] = Unit {0}
AreBelow from ((p, id) ∷ l) = (starts_with p from ≡ true) × AreBelow from l

pub moved-AreBelow : (from : MountPath) (d : Dict MountPath ℕ) → AreBelow from (moved from d)
unfolding moved
moved-AreBelow from [] = tt
moved-AreBelow from ((p, id) ∷ d) = ground (arith, moved-AreBelow from d)

module _ (S : Sdk) (L : IsLawful S) (from to : MountPath) (apart : starts_with from to ≡ false)
    (apart' : starts_with to from ≡ false) where
  -- What the loop does to the table of paths, when it gets to its end.
  abbrev pub Relocated : List (MountPath × ℕ) → State → State → Type 0
  Relocated l s t =
      ((q : MountPath)
        → Dict.lookup (to ++ q) t.paths
          ≡ or_else (Dict.lookup (from ++ q) l) (Dict.lookup (to ++ q) s.paths))
      × ((q : MountPath)
          → Dict.lookup (from ++ q) t.paths
            ≡ unless (Dict.lookup (from ++ q) l) (Dict.lookup (from ++ q) s.paths))
      × ((p : MountPath)
          → starts_with p from ≡ false
          → starts_with p to ≡ false
          → Dict.lookup p t.paths ≡ Dict.lookup p s.paths)

  pub separate : (q r : MountPath) → to ++ q ≢ from ++ r
  separate q r e = ground (
    arith,
    starts_with_common to q from,
    starts_with-append from r,
    ap (λ p. starts_with p from) e,
  )

  Relocated-cons :
      (r : MountPath) (id : ℕ) (l : List (MountPath × ℕ)) (s u t : State)
      → Dict.lookup (from ++ r) l ≡ none
      → u.paths ≡ Dict.insert (to ++ r) id (Dict.erase (from ++ r) s.paths)
      → Relocated l u t
      → Relocated ((from ++ r, id) ∷ l) s t
  unfolding Dict.lookup
  Relocated-cons r id l s u t fresh made z = (
    λ q.
        z.0 q
        ∙ ground (
          arith,
          made,
          Dict.lookup-insert (to ++ q) (to ++ r) id (Dict.erase (from ++ r) s.paths),
          Dict.lookup-erase (to ++ q) (from ++ r) s.paths,
          separate q r,
          append_cancel to q r,
          append_cancel from q r,
          fresh,
        ),
    λ q.
        z.1 q
        ∙ ground (
          arith,
          made,
          Dict.lookup-insert (from ++ q) (to ++ r) id (Dict.erase (from ++ r) s.paths),
          Dict.lookup-erase (from ++ q) (from ++ r) s.paths,
          separate r q,
          append_cancel from q r,
          fresh,
        ),
    λ p h h'.
        z.2 p h h'
        ∙ ground (
          arith,
          made,
          Dict.lookup-insert p (to ++ r) id (Dict.erase (from ++ r) s.paths),
          Dict.lookup-erase p (from ++ r) s.paths,
          starts_with-append from r,
          starts_with-append to r,
        ),
  )

  Relocated-step :
      (old new : MountPath) (id : ℕ) (l : List (MountPath × ℕ)) (s u t : State)
      → starts_with old from ≡ true
      → Dict.lookup old l ≡ none
      → relocate S from to old ≡ ok new
      → u.paths ≡ Dict.insert new id (Dict.erase old s.paths)
      → Relocated l u t
      → Relocated ((old, id) ∷ l) s t
  Relocated-step old new id l s u t below fresh e made z =
      let r = drop (length from) old in
      let split : old ≡ from ++ r = append-of_starts_with old from below in
      let made' : u.paths ≡ Dict.insert (to ++ r) id (Dict.erase (from ++ r) s.paths) =
        made
        ∙ ap (λ p. Dict.insert p id (Dict.erase old s.paths))
            (relocate-append S L from to old new e)
        ∙ ap (λ p. Dict.insert (to ++ r) id (Dict.erase p s.paths)) split in
      subst (λ p. Relocated ((p, id) ∷ l) s t) (sym split)
        (Relocated-cons r id l s u t (ap (λ p. Dict.lookup p l) (sym split) ∙ fresh) made' z)

  pub move_paths_lem :
      (l : List (MountPath × ℕ)) (s : State)
      → AreBelow from l
      → Dict.NodupKeys l
      → (move_paths S from to l s).0 ≡ ok tt
      → Relocated l s (move_paths S from to l s).1
  unfolding move_paths Dict.lookup
  move_paths_lem [] s b u done = (λ q. refl, λ q. refl, λ p h h'. refl)
  move_paths_lem ((old, id) ∷ l) s b u done =
      bind_cases P (λ new. move_path old id new >> move_paths S from to l)
        (lift (relocate S from to old)) s (λ x e fine. absurd (cc))
        (λ new e.
          bind_cases P (λ _. move_paths S from to l) (move_path old id new) s
            (λ x bad fine. absurd (cc))
            (λ v good fine.
              Relocated-step old new id l s (move_path old id new s).1
                (move_paths S from to l (move_path old id new s).1).1 b.0 u.0 e
                (move_path-paths old id new s)
                (move_paths_lem l (move_path old id new s).1 b.1 u.1 fine)))
        done
    where
      P : Result Errno (Unit {0}) × State → Type 0
      P o = o.0 ≡ ok tt → Relocated ((old, id) ∷ l) s o.1
