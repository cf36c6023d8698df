-- ===== src/Dag/Progress.antt =====
-- How a run of the loop ends, and when it goes on.
pub mod Liveness
pub mod Blocked
use mathlib.Core.WellFounded.{Acc}
use go_agent_llm_orchestrato.Prelude.{
  ℕ, zero, suc, ◌<◌, String, ◌==◌, ◌≡◌, ◌≢◌, refl, sym, ◌∙◌, ◌⊎◌, Bool, true, false, not, ◌&&◌,
  ◌||◌, Option, none, some, List, [], ◌∷◌, All, inl, inr, lookup, insert, contains, all, any,
  select, arith, eq_iff, if◌then◌else◌, Bool-cases, subst, eq_refl, Option-cases,
}
use go_agent_llm_orchestrato.Dag.{
  Status, pending, running, completed, failed, other, TaskNode, Nodes, has_node, detect_cycles,
}
use go_agent_llm_orchestrato.Dag.Graph.{Edge, IsSafe}
use go_agent_llm_orchestrato.Dag.Cycles.{detect_cycles-IsSafe}
use go_agent_llm_orchestrato.Dag.Run.{
  Config, Run, is_pending, is_completed, is_running, is_failed, has_status, status_test, dep_is,
  deps_ok, deps_failed, set_status, Entry, can_run, concrete_model, start, submit, Turn,
  stop_failed, stop_success, continue, is_empty, end_turn, turn,
}
use go_agent_llm_orchestrato.Dag.Statuses.{
  restatus, lookup-set_status, IsUnique, set_status-IsUnique, lookup-select,
}

pub none_of_any :
    (p : Status → Bool) (nodes : Nodes) (id : String) (n : TaskNode)
    → any (has_status p) nodes ≡ false
    → lookup id nodes ≡ some n
    → p n.status ≡ false
unfolding lookup
none_of_any p [] id n a l = cc
none_of_any p ((k, m) ∷ nodes) id n a l = ground (arith, none_of_any p nodes id n)

pub some_of_any :
    (p : Status → Bool) (nodes : Nodes) (id : String)
    → dep_is p nodes id ≡ true
    → any (has_status p) nodes ≡ true
unfolding lookup
some_of_any p [] id h = cc
some_of_any p ((k, m) ∷ nodes) id h = ground (arith, some_of_any p nodes id)

pub any_of_select :
    (p : Entry → Bool) (nodes : List Entry) → is_empty (select p nodes) ≡ true → any p nodes ≡ false
any_of_select p [] h = refl
any_of_select p (e ∷ nodes) h = ground (arith, any_of_select p nodes)

submit_no_failed :
    (c : Config) (es : List Entry) (r : Run)
    → ((d : String) → dep_is is_failed r.nodes d ≡ false)
    → (d : String) → dep_is is_failed (submit c r es).0.nodes d ≡ false
unfolding submit
submit_no_failed c [] r h d = h d
submit_no_failed c (e ∷ es) r h d = elim (Bool-cases (can_run c r (concrete_model c e.1))) [
  | inl t ↦ rw t (
      submit_no_failed c es (start c r e)
        (λ x. ground (arith, h x, lookup-set_status e.0 x running r.nodes)) d)
  | inr f ↦ rw f (submit_no_failed c es r h d)
]

no_deps_failed :
    (nodes : Nodes) (e : Entry)
    → ((d : String) → dep_is is_failed nodes d ≡ false)
    → deps_failed nodes e ≡ false
unfolding deps_failed
no_deps_failed nodes e h = go e.1.dependencies
  where
    go : (ds : List String) → any (dep_is is_failed nodes) ds ≡ false
    go [] = refl
    go (d ∷ ds) = ground (arith, h d, go ds)

-- With no failed node the deadlock check does not end the run.
end_turn-goes_on :
    (waiting : List Entry) (r : Run) (b : Bool)
    → ((d : String) → dep_is is_failed r.nodes d ≡ false)
    → end_turn waiting r b ≡ continue r
unfolding end_turn
end_turn-goes_on [] r b h = ground arith
end_turn-goes_on (e ∷ es) r b h = ground (arith, no_deps_failed r.nodes e h)

none_failed :
    (nodes : Nodes)
    → any (has_status is_failed) nodes ≡ false
    → (d : String) → dep_is is_failed nodes d ≡ false
none_failed nodes h d = elim (Bool-cases (dep_is is_failed nodes d)) [
  | inl t ↦ cc (h, some_of_any is_failed nodes d t)
  | inr f ↦ f
]

abbrev pub waiting : Nodes → List Entry
waiting = select (has_status is_pending)

abbrev pub eligible : Nodes → List Entry
eligible nodes = select (deps_ok nodes) (waiting nodes)

-- The deadlock check at the end of a turn never stops the run: a turn stops as failed exactly when
-- a node is failed at its start, stops as successful exactly when no node is failed, pending or
-- running, and otherwise goes on with what the submission loop has started.
pub turn_lem :
    (c : Config) (r : Run)
    → turn c r ≡ (
        if any (has_status is_failed) r.nodes
        then stop_failed r
        else if is_empty (waiting r.nodes) && not (any (has_status is_running) r.nodes)
        then stop_success r
        else continue (submit c r (eligible r.nodes)).0)
unfolding turn
turn_lem c r = elim (Bool-cases (any (has_status is_failed) r.nodes)) [
  | inl f ↦ rw f
  | inr n ↦
      let s = submit c r (eligible r.nodes) in
      rw n (
        rw
          (end_turn-goes_on (waiting r.nodes) s.0 (any (has_status is_running) r.nodes || s.1)
            (submit_no_failed c (eligible r.nodes) r (none_failed r.nodes n)))
          refl)
]

-- When the loop stops as successful it changes nothing, and every node is completed or has a
-- status that the loop does not know.
pub turn_success :
    (c : Config) (r r' : Run)
    → turn c r ≡ stop_success r'
    → (r' ≡ r)
      × ((id : String) (n : TaskNode)
          → lookup id r.nodes ≡ some n
          → (n.status ≡ completed) ⊎ ((t : String) × (n.status ≡ other t)))
turn_success c r r' h = (
  ground (arith, turn_lem c r),
  λ id n l.
      settled n.status (none_of_any is_failed r.nodes id n (ground (arith, turn_lem c r)) l)
        (none_of_any is_pending r.nodes id n
          (any_of_select (has_status is_pending) r.nodes (ground (arith, turn_lem c r))) l)
        (none_of_any is_running r.nodes id n (ground (arith, turn_lem c r)) l),
)
  where
    settled :
        (st : Status)
        → is_failed st ≡ false
        → is_pending st ≡ false
        → is_running st ≡ false
        → (st ≡ completed) ⊎ ((t : String) × (st ≡ other t))
    settled pending f p q = cc
    settled running f p q = cc
    settled completed f p q = inl refl
    settled failed f p q = cc
    settled (other t) f p q = inr (t, refl)

none_ready : (c : Config) (r : Run) (es : List Entry) → is_empty es ≡ true → (submit c r es).0 ≡ r
unfolding submit
none_ready c r [] h = refl
none_ready c r (e ∷ es) h = cc

-- While no node is failed or running, and no pending node has all of its dependencies completed,
-- a turn changes nothing and does not stop: the loop then runs for ever.
pub turn_stuck :
    (c : Config) (r : Run)
    → any (has_status is_failed) r.nodes ≡ false
    → is_empty (waiting r.nodes) ≡ false
    → is_empty (eligible r.nodes) ≡ true
    → turn c r ≡ continue r
turn_stuck c r f w e = ground (arith, turn_lem c r, none_ready c r (eligible r.nodes) e)
