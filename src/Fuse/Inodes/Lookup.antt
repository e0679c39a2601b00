-- ===== src/Fuse/Inodes/Lookup.antt =====
-- src/fuse.rs, `State::lookup`: known paths, new paths and the end of the numbers.
use shell_canvas_drive_bridg.Base.{
  ℕ, ◌+◌, ◌^◌, ◌<◌, ◌≤◌, ◌≡◌, sym, ap, ◌∙◌, Action, Result, pure, ◌>>◌, bind_ok, bind_err, Option,
  some, none, ok, err, arith, ltb, nat_eq, string_eq, list_eq, if◌then◌else◌, Bool-cases, inl, inr,
}
use shell_canvas_drive_bridg.Base.Dict
use shell_canvas_drive_bridg.Sdk.{MountPath}
use shell_canvas_drive_bridg.Fuse.Attributes.{Errno, eoverflow}
use shell_canvas_drive_bridg.Fuse.Inodes.{Node, State, lookup, register, update_node, count_lookup}

-- What `lookup` registers under a path that is new.
abbrev pub count_of : Option Node → ℕ
count_of none = 0
count_of (some n) = n.lookups

update_node_ok :
    (id : ℕ) (f : Node → Node) (s : State) (n : Node)
    → Dict.lookup id s.nodes ≡ some n
    → update_node id f s ≡ (ok tt, record s { nodes = Dict.insert id (f n) s.nodes })
unfolding update_node
update_node_ok id f s n e = rw (e, update_node)

register_known :
    (p : MountPath) (s : State) (id : ℕ)
    → Dict.lookup p s.paths ≡ some id
    → register p s ≡ (ok id, s)
unfolding register
register_known p s id e = rw (e, register)

abbrev counted : ℕ → Action State Errno ℕ
counted id = do update_node id count_lookup; pure id

lookup_known :
    (p : MountPath) (s : State) (id : ℕ) (n : Node)
    → Dict.lookup p s.paths ≡ some id
    → Dict.lookup id s.nodes ≡ some n
    → lookup p s ≡ (ok id, record s { nodes = Dict.insert id (count_lookup n) s.nodes })
unfolding lookup
lookup_known p s id n e f =
    bind_ok (register p) counted s (register_known p s id e)
    ∙ bind_ok (update_node id count_lookup) (λ _. pure id) s (update_node_ok id count_lookup s n f)

abbrev pub newcomer : MountPath → Node
newcomer p = record { path = some p; lookups = 0; opens = 0 }

abbrev pub registered : MountPath → State → State
registered p s = record s {
  next = s.next + 1;
  nodes = Dict.insert (s.next + 1) (newcomer p) s.nodes;
  paths = Dict.insert p (s.next + 1) s.paths;
}

register_new :
    (p : MountPath) (s : State)
    → Dict.lookup p s.paths ≡ none
    → register p s ≡ (
        if ltb (s.next + 1) (2 ^ 64) then (ok (s.next + 1), registered p s) else (err eoverflow, s))
unfolding register
register_new p s e = rw (e, register)

lookup_new :
    (p : MountPath) (s : State)
    → Dict.lookup p s.paths ≡ none
    → s.next + 1 < 2 ^ 64
    → lookup p s ≡ (
      ok (s.next + 1),
      record (registered p s) {
        nodes = Dict.insert (s.next + 1) (count_lookup (newcomer p)) (registered p s).nodes;
      },
    )
unfolding lookup
lookup_new p s e room =
    bind_ok (register p) counted s (register_new p s e ∙ ground arith)
    ∙ bind_ok (update_node (s.next + 1) count_lookup) (λ _. pure (s.next + 1)) (registered p s)
        (update_node_ok (s.next + 1) count_lookup (registered p s) (newcomer p)
          (Dict.lookup-insert_self (s.next + 1) (newcomer p) s.nodes))

lookup_exhausted :
    (p : MountPath) (s : State)
    → Dict.lookup p s.paths ≡ none
    → 2 ^ 64 ≤ s.next + 1
    → lookup p s ≡ (err eoverflow, s)
unfolding lookup
lookup_exhausted p s e full = bind_err (register p) counted s (register_new p s e ∙ ground arith)

ok-ne-err :
    (n : ℕ) (e : Errno) (s t : State) → ¬ (◌≡◌ {A = Result Errno ℕ × State} (ok n, s) (err e, t))
ok-ne-err n e s t h = let bad : ◌≡◌ {A = Result Errno ℕ} (ok n) (err e) = ap (λ r. r.0) h in cc bad

-- What `lookup` does to a path that is not known: the next number is taken for it.
pub lookup_new_tables :
    (p : MountPath) (u t : State) (new : ℕ)
    → Dict.lookup p u.paths ≡ none
    → lookup p u ≡ (ok new, t)
    → (new ≡ u.next + 1)
      × (t.paths ≡ Dict.insert p (u.next + 1) u.paths)
      × (t.nodes
          ≡ Dict.insert
              (u.next + 1)
              (count_lookup (newcomer p))
              (Dict.insert (u.next + 1) (newcomer p) u.nodes))
lookup_new_tables p u t new fresh made = elim (Bool-cases (ltb (u.next + 1) (2 ^ 64))) [
  | inr full ↦
      absurd (ok-ne-err new eoverflow t u (sym made ∙ lookup_exhausted p u fresh (ground arith)))
  | inl room ↦
      let same = sym made ∙ lookup_new p u fresh (ground arith) in
      let number : ok new ≡ ok (u.next + 1) = ap (λ r. r.0) same in
      (ground arith, ap (λ r. r.1.paths) same, ap (λ r. r.1.nodes) same)
]
