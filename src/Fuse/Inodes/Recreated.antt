-- ===== src/Fuse/Inodes/Recreated.antt =====
-- src/fuse.rs, `State::retire_path` and a later `State::lookup` of the same path.
use shell_canvas_drive_bridg.Base.{
  ℕ, ◌-◌, ◌+◌, ◌≡◌, ◌≢◌, refl, some, none, ok, arith, nat_eq, string_eq, list_eq, Option-cases, inl,
  inr,
}
use shell_canvas_drive_bridg.Base.Dict
use shell_canvas_drive_bridg.Sdk.{MountPath}
use shell_canvas_drive_bridg.Fuse.Inodes.{
  Node, State, node_path, collect, modify_node, forget, release, lookup, count_lookup, retire_path,
}
use shell_canvas_drive_bridg.Fuse.Inodes.Invariant.{IsSound, forget_path-cases, forget_path-none}
use shell_canvas_drive_bridg.Fuse.Inodes.Lookup.{lookup_new_tables, newcomer}

collect-modify_node-paths :
    (id : ℕ) (f : Node → Node) (s : State)
    → ((n : Node) → (f n).path ≡ n.path)
    → node_path (Dict.lookup id s.nodes) ≡ none
    → (collect id (modify_node id f s)).paths ≡ s.paths
unfolding collect modify_node
collect-modify_node-paths id f s keep e = elim (Option-cases (Dict.lookup id s.nodes)) [
  | inl gone ↦ rw (gone, modify_node) (ground arith)
  | inr (n, found) ↦
      rw (found, modify_node)
        (ground
          (arith, keep n, Dict.lookup-insert id id (f n) s.nodes, forget_path-none (f n) s.paths))
]

collect-paths_none :
    (p : MountPath) (id : ℕ) (s : State)
    → Dict.lookup p s.paths ≡ none
    → Dict.lookup p (collect id s).paths ≡ none
unfolding collect
collect-paths_none p id s e = elim (forget_path-cases (Dict.lookup id s.nodes) s.paths) [
  | inl (_, same) ↦ ground arith
  | inr (q, _, erased) ↦ ground (arith, Dict.lookup-erase p q s.paths)
]

modify_node-paths : (id : ℕ) (f : Node → Node) (s : State) → (modify_node id f s).paths ≡ s.paths
unfolding modify_node
modify_node-paths id f s = ground arith

modify_node-next : (id : ℕ) (f : Node → Node) (s : State) → (modify_node id f s).next ≡ s.next
unfolding modify_node
modify_node-next id f s = ground arith

-- A retired path is unknown.
retire_path-paths : (p : MountPath) (s : State) → Dict.lookup p (retire_path p s).paths ≡ none
unfolding retire_path
retire_path-paths p s = elim (Option-cases (Dict.lookup p s.paths)) [
  | inl e ↦ rw (e, retire_path) e
  | inr (id, e) ↦
      rw (e, retire_path)
        (collect-paths_none p id _ (rw modify_node-paths (Dict.lookup-erase_self p s.paths)))
]

retire_path-next : (p : MountPath) (s : State) → (retire_path p s).next ≡ s.next
unfolding retire_path collect modify_node
retire_path-next p s = ground arith

-- Its inode, if it lives on, has no path.
retire_path-node :
    (p : MountPath) (s : State) (id : ℕ)
    → Dict.lookup p s.paths ≡ some id
    → node_path (Dict.lookup id (retire_path p s).nodes) ≡ none
unfolding retire_path collect modify_node
retire_path-node p s id e = elim (Option-cases (Dict.lookup id s.nodes)) [
  | inl gone ↦ rw (e, retire_path) (ground (arith, Dict.lookup-erase id id s.nodes))
  | inr (n, found) ↦
      rw (e, retire_path)
        (ground (
          arith,
          Dict.lookup-insert id id (record n { path = none }) s.nodes,
          Dict.lookup-erase id id (Dict.insert id (record n { path = none }) s.nodes),
        ))
]

-- In consistent tables, a path that is retired and then looked up again with success gets a new
-- inode, and dropping references of the old inode does not take the path from the new one.
pub recreated_path :
    (p : MountPath) (s t : State) (old new count : ℕ)
    → IsSound s
    → Dict.lookup p s.paths ≡ some old
    → lookup p (retire_path p s) ≡ (ok new, t)
    → (new ≢ old)
      × (Dict.lookup p t.paths ≡ some new)
      × (Dict.lookup p (forget old count t).paths ≡ some new)
      × (Dict.lookup p (release old t).paths ≡ some new)
unfolding forget release
recreated_path p s t old new count v e made =
    let u = retire_path p s in
    let (number, paths, nodes) = lookup_new_tables p u t new (retire_path-paths p s) made in
    let apart : new ≢ old =
      λ same. ground (arith, retire_path-next p s, v.bounded old, v.named p old e) in
    let known : Dict.lookup p t.paths ≡ some new =
      rw (paths, number) (Dict.lookup-insert_self p (u.next + 1) u.paths) in
    let nameless : node_path (Dict.lookup old t.nodes) ≡ none = rw nodes (
      ground (
        arith,
        apart,
        Dict.lookup-insert old (u.next + 1) (count_lookup (newcomer p))
            (Dict.insert (u.next + 1) (newcomer p) u.nodes),
        Dict.lookup-insert old (u.next + 1) (newcomer p) u.nodes,
        retire_path-node p s old e,
      )) in
    (
      apart,
      known,
      rw
          (collect-modify_node-paths old (λ n. record n { lookups = n.lookups - count }) t
            (λ n. refl) nameless)
          known,
      rw
          (collect-modify_node-paths old (λ n. record n { opens = n.opens - 1 }) t (λ n. refl)
            nameless)
          known,
    )
