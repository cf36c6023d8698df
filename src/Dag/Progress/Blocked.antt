-- ===== src/Dag/Progress/Blocked.antt =====
-- A task that depends on an id which no card has.
use go_agent_llm_orchestrato.Prelude.{
  String, ◌==◌, ◌≡◌, ◌≢◌, Bool, true, false, some, List, [], ◌∷◌, All, inl, inr, lookup, contains,
  all, select, arith, eq_iff, Bool-cases, subst,
}
use go_agent_llm_orchestrato.Dag.{Status, pending, running, TaskNode, Nodes, has_node}
use go_agent_llm_orchestrato.Dag.Run.{
  Config, Run, is_pending, is_completed, has_status, dep_is, deps_ok, set_status, Entry, can_run,
  concrete_model, start, submit, stop_success, continue, turn, finish, verdict, Steps, here, next,
  looped, ended,
}
use go_agent_llm_orchestrato.Dag.Statuses.{lookup-set_status, IsUnique, lookup-select}
use go_agent_llm_orchestrato.Dag.Safety.{NoneRunning, Steps-Advances}
use go_agent_llm_orchestrato.Dag.Soundness.{IsSound}
use go_agent_llm_orchestrato.Dag.Progress.{waiting, eligible, turn_lem, turn_success}

-- The pending task `id` depends on `dep`, and no card has the id `dep`.
pub record IsBlocked (id dep : String) (nodes : Nodes) : Type 0 where
  pub unknown : has_node nodes dep ≡ false
  pub node : TaskNode
  pub found : lookup id nodes ≡ some node
  pub waits : node.status ≡ pending
  pub needs : contains node.dependencies dep ≡ true

module _ (id dep : String) where
  IsBlocked-set_status :
      (j : String) (st : Status) (nodes : Nodes)
      → (j == id) ≡ false
      → IsBlocked id dep nodes
      → IsBlocked id dep (set_status j st nodes)
  IsBlocked-set_status j st nodes ne b = record {
    unknown = ground (arith, b.unknown, lookup-set_status j dep st nodes);
    node = b.node;
    found = ground (arith, b.found, lookup-set_status j id st nodes);
    waits = b.waits;
    needs = b.needs;
  }

  IsBlocked-submit :
      (c : Config) (es : List Entry) (r : Run)
      → All (λ e. (e.0 == id) ≡ false) es
      → IsBlocked id dep r.nodes
      → IsBlocked id dep (submit c r es).0.nodes
  unfolding submit
  IsBlocked-submit c [] r h b = b
  IsBlocked-submit c (e ∷ es) r h b = elim (Bool-cases (can_run c r (concrete_model c e.1))) [
    | inl t ↦
        rw t
          (IsBlocked-submit c es (start c r e) h.1 (IsBlocked-set_status e.0 running r.nodes h.0 b))
    | inr f ↦ rw f (IsBlocked-submit c es r h.1 b)
  ]

  not_all :
      (p : String → Bool) (ds : List String)
      → contains ds dep ≡ true
      → p dep ≡ false
      → all p ds ≡ false
  not_all p [] c n = cc
  not_all p (x ∷ ds) c n = ground (arith, eq_iff x dep, not_all p ds)

  other_entry :
      (nodes : Nodes) (e : Entry)
      → IsBlocked id dep nodes
      → lookup e.0 nodes ≡ some e.1
      → deps_ok nodes e ≡ true
      → (e.0 == id) ≡ false
  unfolding deps_ok
  other_entry nodes e b l d = elim (Bool-cases (e.0 == id)) [
    | inl q ↦
        let same : e.1 ≡ b.node = cc ((eq_iff e.0 id).0 q, b.found) in
        let needs : contains e.1.dependencies dep ≡ true = rw same (b.needs) in
        absurd (
          ground (
            arith,
            not_all (dep_is is_completed nodes) e.1.dependencies needs (ground (arith, b.unknown)),
          ))
    | inr q ↦ q
  ]

  other_entries :
      (nodes : Nodes) (es : List Entry)
      → IsBlocked id dep nodes
      → All (λ e. (lookup e.0 nodes ≡ some e.1) × (has_status is_pending e ≡ true)) es
      → All (λ e. (e.0 == id) ≡ false) (select (deps_ok nodes) es)
  other_entries nodes [] b h = tt
  other_entries nodes (e ∷ es) b h = elim (Bool-cases (deps_ok nodes e)) [
    | inl t ↦ rw t (other_entry nodes e b h.0.0 t, other_entries nodes es b h.1)
    | inr f ↦ rw f (other_entries nodes es b h.1)
  ]

  turn-IsBlocked :
      (c : Config) (r r' : Run)
      → turn c r ≡ continue r'
      → IsUnique r.nodes
      → IsBlocked id dep r.nodes
      → IsBlocked id dep r'.nodes
  turn-IsBlocked c r r' h u b =
      let e : (submit c r (eligible r.nodes)).0 ≡ r' = ground (arith, turn_lem c r) in
      subst (λ (q : Run). IsBlocked id dep q.nodes) e
        (IsBlocked-submit c (eligible r.nodes) r
          (other_entries r.nodes (waiting r.nodes) b
            (lookup-select (has_status is_pending) r.nodes u))
          b)

  finish-IsBlocked :
      (c : Config) (r : Run) (j : String) (n : TaskNode) (s : Bool)
      → lookup j r.nodes ≡ some n
      → n.status ≡ running
      → IsBlocked id dep r.nodes
      → IsBlocked id dep (finish c r (j, n) (verdict s)).nodes
  unfolding finish
  finish-IsBlocked c r j n s l q b =
      IsBlocked-set_status j (verdict s) r.nodes (ground (arith, b.found, b.waits, eq_iff j id)) b

  Steps-IsBlocked :
      {c : Config} {r r' : Run}
      → Steps c r r'
      → IsSound r.nodes
      → IsBlocked id dep r.nodes
      → IsBlocked id dep r'.nodes
  Steps-IsBlocked here s b = b
  Steps-IsBlocked {c} (next {r' = q} {r'' = t} rs (looped h)) s b =
      turn-IsBlocked c q t h (Steps-Advances rs s).sound.unique (Steps-IsBlocked rs s b)
  Steps-IsBlocked {c} (next {r' = q} rs (ended j n ok l w)) s b =
      finish-IsBlocked c q j n ok l w (Steps-IsBlocked rs s b)

-- A pending task that depends on an unknown id is never started: it is pending after every run
-- from cards of which none is running, and the loop never stops as successful.
pub unknown_dependency_blocks :
    (c : Config) (r r' : Run) (id dep : String)
    → IsUnique r.nodes
    → NoneRunning r.nodes
    → IsBlocked id dep r.nodes
    → Steps c r r'
    → IsBlocked id dep r'.nodes × ((r'' : Run) → turn c r' ≢ stop_success r'')
unknown_dependency_blocks c r r' id dep u none_running b steps =
    let s : IsSound r.nodes = record {
      unique = u;
      backed = λ j k f p. absurd (none_running j k f p);
    } in
    let b' = Steps-IsBlocked id dep steps s b in
    (
      b',
      λ r'' h. absurd (ground (arith, (turn_success c r' r'' h).1 id b'.node b'.found, b'.waits)),
    )
