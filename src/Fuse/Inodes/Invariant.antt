-- ===== src/Fuse/Inodes/Invariant.antt =====
-- src/fuse.rs, `impl State`: the consistency of the tables of paths and inodes.
use shell_canvas_drive_bridg.Base.{
  ℕ, ◌+◌, ◌-◌, ◌^◌, ◌<◌, ◌≡◌, ◌≢◌, ◌⊎◌, refl, inl, inr, not, ◌||◌, Option, none, some, arith, ltb,
  eqb, Bool-cases, Option-cases, bind_cases, pure, ◌>>◌, nat_eq, string_eq, list_eq,
}
use shell_canvas_drive_bridg.Base.Dict
use shell_canvas_drive_bridg.Base.Dict.{Dict}
use shell_canvas_drive_bridg.Sdk.{MountPath, root}
use shell_canvas_drive_bridg.Fuse.Inodes.{
  Node, State, node_path, register, update_node, modify_node, lookup, collect, retire_path, forget,
  release, forget_path, is_unreferenced, count_lookup,
}

-- A known path leads to an inode of that path, numbers beyond `next` are unused, and the root is
-- inode 1 and no other.
pub record IsSound (s : State) : Type 0 where
  pub named :
      (p : MountPath) (id : ℕ)
      → Dict.lookup p s.paths ≡ some id
      → node_path (Dict.lookup id s.nodes) ≡ some p
  pub bounded : (id : ℕ) → s.next < id → Dict.lookup id s.nodes ≡ none
  pub rooted : Dict.lookup root s.paths ≡ some 1
  pub distinct : Dict.NodupKeys s.paths
  pub root_only : (id : ℕ) → node_path (Dict.lookup id s.nodes) ≡ some root → id ≡ 1

register-IsSound : (p : MountPath) (s : State) → IsSound s → IsSound (register p s).1
unfolding register
register-IsSound p s v = elim (Option-cases (Dict.lookup p s.paths)) [
  | inr (id, e) ↦ rw (e, register) v
  | inl e ↦
      rw (e, register)
        (elim (Bool-cases (ltb (s.next + 1) (2 ^ 64))) [
          | inr full ↦ rw full v
          | inl room ↦ rw room (record {
            named = λ q id h. ground (
              arith,
              Dict.lookup-insert q p (s.next + 1) s.paths,
              Dict.lookup-insert id (s.next + 1) (record { path = some p; lookups = 0; opens = 0 })
                  s.nodes,
              v.named q id,
              v.bounded id,
            );
            bounded = λ id h. ground (
              arith,
              Dict.lookup-insert id (s.next + 1) (record { path = some p; lookups = 0; opens = 0 })
                  s.nodes,
              v.bounded id,
            );
            rooted = ground (arith, Dict.lookup-insert root p (s.next + 1) s.paths, v.rooted);
            distinct = Dict.insert-NodupKeys p (s.next + 1) s.paths v.distinct;
            root_only = λ id h. ground (
              arith,
              Dict.lookup-insert id (s.next + 1) (record { path = some p; lookups = 0; opens = 0 })
                  s.nodes,
              v.root_only id,
              v.rooted,
            );
          })
        ])
]

-- An update of a node that leaves its path alone.
pub modify_node-IsSound :
    (id : ℕ) (f : Node → Node) (s : State)
    → ((n : Node) → (f n).path ≡ n.path)
    → IsSound s
    → IsSound (modify_node id f s)
unfolding modify_node
modify_node-IsSound id f s keep v = elim (Option-cases (Dict.lookup id s.nodes)) [
  | inl e ↦ rw (e, modify_node) v
  | inr (n, e) ↦
      rw (e, modify_node)
        (record {
          named =
              λ q j h. ground (arith, Dict.lookup-insert j id (f n) s.nodes, v.named q j, keep n);
          bounded = λ j h. ground (arith, Dict.lookup-insert j id (f n) s.nodes, v.bounded j);
          rooted = v.rooted;
          distinct = v.distinct;
          root_only =
              λ j h. ground (arith, Dict.lookup-insert j id (f n) s.nodes, v.root_only j, keep n);
        })
]

pub forget_path-cases :
    (o : Option Node) (d : Dict MountPath ℕ)
    → ((node_path o ≡ none) × (forget_path o d ≡ d))
      ⊎ ((p : MountPath) × (node_path o ≡ some p) × (forget_path o d ≡ Dict.erase p d))
forget_path-cases none d = inl (refl, refl)
forget_path-cases (some n) d = elim (Option-cases n.path) [
  | inl e ↦ inl (e, ground arith)
  | inr (p, e) ↦ inr (p, e, ground arith)
]

pub forget_path-none :
    (n : Node) (d : Dict MountPath ℕ) → n.path ≡ none → forget_path (some n) d ≡ d
forget_path-none n d e = ground arith

-- Only an inode other than the root's, with no reference left, is collected; its path goes with it.
pub collect-IsSound : (id : ℕ) (s : State) → IsSound s → IsSound (collect id s)
unfolding collect
collect-IsSound id s v =
    elim (Bool-cases (eqb id 1 || not (is_unreferenced (Dict.lookup id s.nodes)))) [
      | inl kept ↦ rw kept v
      | inr dead ↦ rw dead (elim (forget_path-cases (Dict.lookup id s.nodes) s.paths) [
        | inl (nameless, e) ↦ rw e (record {
          named = λ q j h. ground (arith, Dict.lookup-erase j id s.nodes, v.named q j);
          bounded = λ j h. ground (arith, Dict.lookup-erase j id s.nodes, v.bounded j);
          rooted = v.rooted;
          distinct = v.distinct;
          root_only = λ j h. ground (arith, Dict.lookup-erase j id s.nodes, v.root_only j);
        })
        | inr (p, at_p, e) ↦ rw e (record {
          named = λ q j h.
              ground
                (arith, Dict.lookup-erase j id s.nodes, Dict.lookup-erase q p s.paths, v.named q j);
          bounded = λ j h. ground (arith, Dict.lookup-erase j id s.nodes, v.bounded j);
          rooted = ground (arith, Dict.lookup-erase root p s.paths, v.rooted, v.root_only id);
          distinct = Dict.erase-NodupKeys p s.paths v.distinct;
          root_only = λ j h. ground (arith, Dict.lookup-erase j id s.nodes, v.root_only j);
        })
      ])
    ]

-- The path of an inode other than the root's is forgotten on both sides.
detach-IsSound :
    (p : MountPath) (id : ℕ) (s : State)
    → p ≢ root
    → Dict.lookup p s.paths ≡ some id
    → IsSound s
    → IsSound
        (modify_node id (λ n. record n { path = none }) (record s { paths = Dict.erase p s.paths }))
unfolding modify_node
detach-IsSound p id s ne e v = elim (Option-cases (Dict.lookup id s.nodes)) [
  | inl e' ↦ ground (arith, v.named p id)
  | inr (n, e') ↦
      rw (e', modify_node)
        (record {
          named = λ q j h. ground (
            arith,
            Dict.lookup-insert j id (record n { path = none }) s.nodes,
            Dict.lookup-erase q p s.paths,
            v.named q j,
            v.named p id,
          );
          bounded = λ j h.
              ground
                (arith, Dict.lookup-insert j id (record n { path = none }) s.nodes, v.bounded j);
          rooted = ground (arith, Dict.lookup-erase root p s.paths, v.rooted);
          distinct = Dict.erase-NodupKeys p s.paths v.distinct;
          root_only = λ j h.
              ground
                (arith, Dict.lookup-insert j id (record n { path = none }) s.nodes, v.root_only j);
        })
]

-- Retiring a path other than the root keeps the tables sound.
pub retire_path-IsSound :
    (p : MountPath) (s : State) → p ≢ root → IsSound s → IsSound (retire_path p s)
unfolding retire_path
retire_path-IsSound p s ne v = elim (Option-cases (Dict.lookup p s.paths)) [
  | inl e ↦ rw (e, retire_path) v
  | inr (id, e) ↦ rw (e, retire_path) (collect-IsSound id _ (detach-IsSound p id s ne e v))
]

pub forget-IsSound : (id count : ℕ) (s : State) → IsSound s → IsSound (forget id count s)
unfolding forget
forget-IsSound id count s v =
    collect-IsSound id _
      (modify_node-IsSound id (λ n. record n { lookups = n.lookups - count }) s (λ n. refl) v)

pub release-IsSound : (id : ℕ) (s : State) → IsSound s → IsSound (release id s)
unfolding release
release-IsSound id s v =
    collect-IsSound id _
      (modify_node-IsSound id (λ n. record n { opens = n.opens - 1 }) s (λ n. refl) v)

-- The fallible update has the effect of the other one.
pub update_node-modify_node :
    (id : ℕ) (f : Node → Node) (s : State) → (update_node id f s).1 ≡ modify_node id f s
unfolding update_node modify_node
update_node-modify_node id f s = ground arith

pub update_node-IsSound :
    (id : ℕ) (f : Node → Node) (s : State)
    → ((n : Node) → (f n).path ≡ n.path)
    → IsSound s
    → IsSound (update_node id f s).1
update_node-IsSound id f s keep v = rw update_node-modify_node (modify_node-IsSound id f s keep v)

counted-IsSound :
    (id : ℕ) (s : State) → IsSound s → IsSound ((update_node id count_lookup >> pure id) s).1
counted-IsSound id s v =
    bind_cases (λ r. IsSound r.1) (λ _. pure id) (update_node id count_lookup) s
      (λ e _. update_node-IsSound id count_lookup s (λ n. refl) v)
      (λ u _. update_node-IsSound id count_lookup s (λ n. refl) v)

pub lookup-IsSound : (p : MountPath) (s : State) → IsSound s → IsSound (lookup p s).1
unfolding lookup
lookup-IsSound p s v =
    bind_cases (λ r. IsSound r.1) (λ id. update_node id count_lookup >> pure id) (register p) s
      (λ e _. register-IsSound p s v)
      (λ id _. counted-IsSound id (register p s).1 (register-IsSound p s v))
