-- ===== src/Fuse/Inodes/Lifetime.antt =====
-- src/fuse.rs, `forget`, `release` and `collect`: how long an inode lives.
use shell_canvas_drive_bridg.Base.{
  ℕ, ◌-◌, ◌≡◌, ◌≢◌, ◌&&◌, Option, some, none, arith, eqb, nat_eq, string_eq, list_eq, if◌then◌else◌,
  Option-cases, inl, inr,
}
use shell_canvas_drive_bridg.Base.Dict
use shell_canvas_drive_bridg.Fuse.Inodes.{Node, State, collect, modify_node, forget, release}

-- What is left of a node: nothing, once both counters are at zero.
abbrev pub survivor : Node → Option Node
survivor n = if eqb n.lookups 0 && eqb n.opens 0 then none else some n

-- An inode other than the root's that has been changed by `f` lives on exactly while one of its
-- counters is positive.
collect-modify_node :
    (id : ℕ) (f : Node → Node) (n : Node) (s : State)
    → id ≢ 1
    → Dict.lookup id s.nodes ≡ some n
    → Dict.lookup id (collect id (modify_node id f s)).nodes ≡ survivor (f n)
unfolding collect modify_node
collect-modify_node id f n s ne e =
    rw (e, modify_node)
      (ground (
        arith,
        Dict.lookup-insert id id (f n) s.nodes,
        Dict.lookup-erase id id (Dict.insert id (f n) s.nodes),
      ))

-- Other inodes are left alone.
collect-modify_node_ne :
    (id j : ℕ) (f : Node → Node) (s : State)
    → j ≢ id
    → Dict.lookup j (collect id (modify_node id f s)).nodes ≡ Dict.lookup j s.nodes
unfolding collect modify_node
collect-modify_node_ne id j f s ne = elim (Option-cases (Dict.lookup id s.nodes)) [
  | inl e ↦ rw (e, modify_node) (ground (arith, Dict.lookup-erase j id s.nodes))
  | inr (n, e) ↦
      rw (e, modify_node)
        (ground (
          arith,
          Dict.lookup-insert j id (f n) s.nodes,
          Dict.lookup-insert id id (f n) s.nodes,
          Dict.lookup-erase j id (Dict.insert id (f n) s.nodes),
        ))
]

-- `forget` takes `count` lookups from an inode and `release` takes one open reference, both
-- stopping at zero. An inode other than the root's is dropped exactly when no reference of either
-- kind is left, and every other inode stays as it is.
pub references-lifetime :
    (id count j : ℕ) (n : Node) (s : State)
    → id ≢ 1
    → Dict.lookup id s.nodes ≡ some n
    → j ≢ id
    → (Dict.lookup id (forget id count s).nodes
        ≡ survivor (record n { lookups = n.lookups - count }))
      × (Dict.lookup id (release id s).nodes ≡ survivor (record n { opens = n.opens - 1 }))
      × (Dict.lookup j (forget id count s).nodes ≡ Dict.lookup j s.nodes)
      × (Dict.lookup j (release id s).nodes ≡ Dict.lookup j s.nodes)
unfolding forget release
references-lifetime id count j n s ne e apart = (
  collect-modify_node id _ n s ne e,
  collect-modify_node id _ n s ne e,
  collect-modify_node_ne id j _ s apart,
  collect-modify_node_ne id j _ s apart,
)

-- The root is never dropped.
collect_root : (s : State) → collect 1 s ≡ s
unfolding collect
collect_root s = ground arith
