-- ===== src/Dag/Progress/Liveness.antt =====
-- From a graph that passed the cycle check, the loop always has a task to start.
use mathlib.Core.WellFounded.{Acc}
use go_agent_llm_orchestrato.Prelude.{
  ◌<◌, String, ◌==◌, ◌≡◌, refl, ◌⊎◌, Bool, true, false, Option, none, some, List, [], ◌∷◌, All, inl,
  inr, lookup, contains, all, any, select, arith, eq_iff, Bool-cases, eq_refl, is_some,
}
use go_agent_llm_orchestrato.Dag.{
  Status, pending, running, completed, TaskNode, Nodes, has_node, detect_cycles,
}
use go_agent_llm_orchestrato.Dag.Graph.{IsSafe}
use go_agent_llm_orchestrato.Dag.Cycles.{detect_cycles-IsSafe}
use go_agent_llm_orchestrato.Dag.Run.{
  Config, Run, is_pending, is_completed, is_running, is_failed, has_status, dep_is, deps_ok, Entry,
  can_run, concrete_model, start, submit, continue, is_empty, turn,
}
use go_agent_llm_orchestrato.Dag.Statuses.{lookup-set_status, IsUnique, lookup-select}
use go_agent_llm_orchestrato.Dag.Progress.{waiting, eligible, some_of_any, any_of_select, turn_lem}

-- The moment between two waves of tasks: nothing is running, and each node is pending or completed.
pub record IsQuiet (nodes : Nodes) : Type 0 where
  pub unique : IsUnique nodes
  pub acyclic : detect_cycles nodes ≡ some false
  pub known :
      (id d : String) (n : TaskNode)
      → lookup id nodes ≡ some n
      → contains n.dependencies d ≡ true
      → has_node nodes d ≡ true
  pub settled :
      (id : String) (n : TaskNode)
      → lookup id nodes ≡ some n
      → (n.status ≡ pending) ⊎ (n.status ≡ completed)

not_all :
    (p : String → Bool) (ds : List String)
    → all p ds ≡ false
    → (d : String) × (contains ds d ≡ true) × (p d ≡ false)
not_all p [] h = cc
not_all p (d ∷ ds) h = elim (Bool-cases (p d)) [
  | inl t ↦ let (e, c, f) = not_all p ds (rw t at h) in (e, ground arith, f)
  | inr f ↦ (d, ground (arith, eq_refl d), f)
]

-- A pending node that may start.
record CanStart (nodes : Nodes) : Type 0 where
  id : String
  node : TaskNode
  found : lookup id nodes ≡ some node
  waits : node.status ≡ pending
  ready : deps_ok nodes (id, node) ≡ true

module _ (nodes : Nodes) (q : IsQuiet nodes) where
  missing_dep :
      (n : TaskNode) (id : String)
      → deps_ok nodes (id, n) ≡ false
      → (d : String) × (contains n.dependencies d ≡ true) × (dep_is is_completed nodes d ≡ false)
  unfolding deps_ok
  missing_dep n id h = not_all (dep_is is_completed nodes) n.dependencies h

  pending_dep :
      (d : String) (o : Option TaskNode)
      → lookup d nodes ≡ o
      → is_some o ≡ true
      → dep_is is_completed nodes d ≡ false
      → (n : TaskNode) × (lookup d nodes ≡ some n) × (n.status ≡ pending)
  pending_dep d none e k f = cc
  pending_dep d (some n) e k f = (n, e, ground (arith, q.settled d n e))

  can_start :
      (id : String) (n : TaskNode)
      → IsSafe nodes id
      → lookup id nodes ≡ some n
      → n.status ≡ pending
      → CanStart nodes
  can_start id n (Acc.intro _ below) e p = elim (Bool-cases (deps_ok nodes (id, n))) [
    | inl ok ↦ record { id = id; node = n; found = e; waits = p; ready = ok }
    | inr no_ok ↦
        let (d, c, f) = missing_dep n id no_ok in
        let k = q.known id d n e c in
        let (m, e', p') = pending_dep d _ refl k f in
        can_start d m (below d (record { node = n; is_node = e; depends = c; known = k })) e' p'
  ]

same_entry :
    (p : Entry → Bool) (k id : String) (m n : TaskNode)
    → (k == id) ≡ true
    → m ≡ n
    → p (id, n) ≡ true
    → p (k, m) ≡ true
same_entry p k id m n e q h = cc ((eq_iff k id).0 e)

mem-select :
    (p r : Entry → Bool) (nodes : Nodes) (id : String) (n : TaskNode)
    → lookup id nodes ≡ some n
    → p (id, n) ≡ true
    → r (id, n) ≡ true
    → is_empty (select r (select p nodes)) ≡ false
unfolding lookup
mem-select p r [] id n l t u = cc
mem-select p r ((k, m) ∷ nodes) id n l t u = elim (Bool-cases (k == id)) [
  | inl e ↦
      let same : m ≡ n = ground arith in
      rw (same_entry p k id m n e same t) (rw (same_entry r k id m n e same u))
  | inr e ↦ ground (arith, mem-select p r nodes id n)
]

submit_keeps_running :
    (c : Config) (es : List Entry) (r : Run) (d : String)
    → dep_is is_running r.nodes d ≡ true
    → dep_is is_running (submit c r es).0.nodes d ≡ true
unfolding submit
submit_keeps_running c [] r d h = h
submit_keeps_running c (e ∷ es) r d h = elim (Bool-cases (can_run c r (concrete_model c e.1))) [
  | inl t ↦ rw t (
      submit_keeps_running c es (start c r e) d
        (ground (arith, lookup-set_status e.0 d running r.nodes)))
  | inr f ↦ rw f (submit_keeps_running c es r d h)
]

start_runs :
    (c : Config) (r : Run) (e : Entry)
    → lookup e.0 r.nodes ≡ some e.1
    → dep_is is_running (start c r e).nodes e.0 ≡ true
unfolding start
start_runs c r e l = ground (arith, lookup-set_status e.0 e.0 running r.nodes, eq_refl e.0)

submit_first :
    (c : Config) (r : Run) (es : List Entry)
    → r.active_models ≡ []
    → 0 < c.max_concurrent_models
    → is_empty es ≡ false
    → All (λ e. lookup e.0 r.nodes ≡ some e.1) es
    → any (has_status is_running) (submit c r es).0.nodes ≡ true
unfolding submit
submit_first c r [] a m e l = cc
submit_first c r (e ∷ es) a m x l =
    let room : can_run c r (concrete_model c e.1) ≡ true = ground arith in
    rw room (
      some_of_any is_running _ e.0
        (submit_keeps_running c es (start c r e) e.0 (start_runs c r e l.0)))

select-found :
    (p : Entry → Bool) (nodes : Nodes) (es : List Entry)
    → All (λ e. (lookup e.0 nodes ≡ some e.1) × (has_status is_pending e ≡ true)) es
    → All (λ e. lookup e.0 nodes ≡ some e.1) (select p es)
select-found p nodes [] h = tt
select-found p nodes (e ∷ es) h = elim (Bool-cases (p e)) [
  | inl t ↦ rw t (h.0.0, select-found p nodes es h.1)
  | inr f ↦ rw f (select-found p nodes es h.1)
]

head_of :
    (P : Entry → Type 0) (es : List Entry) → is_empty es ≡ false → All P es → (e : Entry) × P e
head_of P [] h a = cc
head_of P (e ∷ es) h a = (e, a.0)

quiet_none :
    (p : Status → Bool) (nodes : Nodes)
    → p pending ≡ false
    → p completed ≡ false
    → IsQuiet nodes
    → any (has_status p) nodes ≡ false
quiet_none p nodes np nc q = elim (Bool-cases (is_empty (select (has_status p) nodes))) [
  | inl e ↦ any_of_select (has_status p) nodes e
  | inr e ↦
      let (x, facts) = head_of _ _ e (lookup-select (has_status p) nodes q.unique) in
      absurd (ground (arith, facts.1, q.settled x.0 x.1 facts.0))
]

waiting_node : (nodes : Nodes) → is_empty (waiting nodes) ≡ false → IsQuiet nodes → CanStart nodes
waiting_node nodes w q =
    let (x, facts) = head_of _ _ w (lookup-select (has_status is_pending) nodes q.unique) in
    can_start nodes q x.0 x.1 (detect_cycles-IsSafe nodes q.acyclic x.0 (rw (facts.0))) facts.0
      (ground (arith, facts.1, q.settled x.0 x.1 facts.0))

-- Where the cycle check found no cycle, the ids differ, every dependency is a node, each node is pending
-- or completed, no model is active and at least one may be, a turn with a pending node goes on and leaves
-- a task running.
pub quiet_starts :
    (c : Config) (r : Run)
    → IsQuiet r.nodes
    → r.active_models ≡ []
    → 0 < c.max_concurrent_models
    → is_empty (waiting r.nodes) ≡ false
    → (r' : Run) × (turn c r ≡ continue r') × (any (has_status is_running) r'.nodes ≡ true)
quiet_starts c r q a m w =
    let s = waiting_node r.nodes w q in
    let some_ready : is_empty (eligible r.nodes) ≡ false =
      mem-select (has_status is_pending) (deps_ok r.nodes) r.nodes s.id s.node s.found
        (ground (arith, s.waits)) s.ready in
    (
      (submit c r (eligible r.nodes)).0,
      ground (arith, turn_lem c r, quiet_none is_failed r.nodes refl refl q),
      submit_first c r (eligible r.nodes) a m some_ready (
          select-found (deps_ok r.nodes) r.nodes (waiting r.nodes)
            (lookup-select (has_status is_pending) r.nodes q.unique)),
    )
