-- ===== src/Dag/Safety.antt =====
-- A task runs only when all of its dependencies are completed, whatever the order in which the
-- workers end, and what is completed stays so.
use go_agent_llm_orchestrato.Prelude.{
  String, ◌≡◌, ◌≢◌, refl, Bool, true, false, ◌||◌, some, List, [], ◌∷◌, All, inl, inr, lookup, all,
  any, select, arith, Bool-cases, subst,
}
use go_agent_llm_orchestrato.Dag.{running, TaskNode, Nodes}
use go_agent_llm_orchestrato.Dag.Run.{
  Config, Run, is_pending, is_completed, is_running, has_status, dep_is, deps_ok, set_status, Entry,
  can_run, concrete_model, start, submit, continue, end_turn, turn, finish, verdict, Step, looped,
  ended, Steps, here, next,
}
use go_agent_llm_orchestrato.Dag.Statuses.{
  lookup-set_status, IsUnique, set_status_keeps_completed, lookup-select,
}
use go_agent_llm_orchestrato.Dag.Soundness.{
  Completes, DepsDone, DepsDone-mono, IsSound, IsSound-set_status, Old-node,
}

pub record IsReady (nodes : Nodes) (e : Entry) : Type 0 where
  pub not_done : dep_is is_completed nodes e.0 ≡ false
  pub deps_done : (n : TaskNode) → lookup e.0 nodes ≡ some n → DepsDone nodes n

waiting_node :
    (nodes : Nodes) (e : Entry)
    → lookup e.0 nodes ≡ some e.1
    → is_pending e.1.status ≡ true
    → deps_ok nodes e ≡ true
    → IsReady nodes e
unfolding deps_ok
waiting_node nodes e f p d = record {
  not_done = ground arith;
  deps_done = λ n q. subst (λ (m : TaskNode). DepsDone nodes m) (same q) d;
}
  where
    same : {n : TaskNode} → lookup e.0 nodes ≡ some n → e.1 ≡ n
    same q = cc

IsReady-start :
    (nodes : Nodes) (id : String) (e : Entry)
    → dep_is is_completed nodes id ≡ false
    → IsReady nodes e
    → IsReady (set_status id running nodes) e
IsReady-start nodes id e i h = record {
  not_done = ground (arith, lookup-set_status id e.0 running nodes, h.not_done);
  deps_done = λ n q.
      let o = Old-node id running nodes e.0 n _ refl q in
      DepsDone-mono nodes (set_status id running nodes) o.old n
        (λ d. set_status_keeps_completed id d running nodes i) o.same_deps
        (h.deps_done o.old o.found);
}

All-IsReady-start :
    (nodes : Nodes) (id : String) (es : List Entry)
    → dep_is is_completed nodes id ≡ false
    → All (IsReady nodes) es
    → All (IsReady (set_status id running nodes)) es
All-IsReady-start nodes id [] i h = tt
All-IsReady-start nodes id (e ∷ es) i h =
    (IsReady-start nodes id e i h.0, All-IsReady-start nodes id es i h.1)

-- One turn keeps the invariant, and nothing that was completed is lost.
pub record Advances (nodes nodes' : Nodes) : Type 0 where
  pub sound : IsSound nodes'
  pub completes : Completes nodes nodes'

submit-Advances :
    (c : Config) (r : Run) (es : List Entry)
    → All (IsReady r.nodes) es
    → IsSound r.nodes
    → Advances r.nodes (submit c r es).0.nodes
unfolding submit
submit-Advances c r [] h s = record { sound = s; completes = λ d e. e }
submit-Advances c r (e ∷ es) h s = elim (Bool-cases (can_run c r (concrete_model c e.1))) [
  | inl yes_run ↦ rw yes_run (
      started e es h s (
        submit-Advances c (start c r e) es (All-IsReady-start r.nodes e.0 es h.0.not_done h.1)
          (IsSound-set_status e.0 running r.nodes h.0.not_done (λ _. h.0.deps_done) s)))
  | inr no_run ↦ rw no_run (submit-Advances c r es h.1 s)
]
  where
    started :
        (e : Entry) (es : List Entry)
        → All (IsReady r.nodes) (e ∷ es)
        → IsSound r.nodes
        → Advances (start c r e).nodes (submit c (start c r e) es).0.nodes
        → Advances r.nodes (submit c (start c r e) es).0.nodes
    started e es h s a = record {
      sound = a.sound;
      completes =
          λ d q. a.completes d (set_status_keeps_completed e.0 d running r.nodes h.0.not_done q);
    }

IsReady-entries :
    (nodes : Nodes) (es : List Entry)
    → All (λ e. (lookup e.0 nodes ≡ some e.1) × (has_status is_pending e ≡ true)) es
    → All (IsReady nodes) (select (deps_ok nodes) es)
IsReady-entries nodes [] h = tt
IsReady-entries nodes (e ∷ es) h = elim (Bool-cases (deps_ok nodes e)) [
  | inl d ↦ rw d (waiting_node nodes e h.0.0 h.0.1 d, IsReady-entries nodes es h.1)
  | inr n ↦ rw n (IsReady-entries nodes es h.1)
]

abbrev eligible : Nodes → List Entry
eligible nodes = select (deps_ok nodes) (select (has_status is_pending) nodes)

end_turn-continue :
    (waiting : List Entry) (r r' : Run) (b : Bool) → end_turn waiting r b ≡ continue r' → r ≡ r'
unfolding end_turn
end_turn-continue waiting r r' b h = ground arith

turn-continue :
    (c : Config) (r r' : Run) → turn c r ≡ continue r' → (submit c r (eligible r.nodes)).0 ≡ r'
unfolding turn
turn-continue c r r' h =
    let s = submit c r (eligible r.nodes) in
    end_turn-continue (select (has_status is_pending) r.nodes) s.0 r'
      (any (has_status is_running) r.nodes || s.1) (ground arith)

turn-Advances :
    (c : Config) (r r' : Run) → turn c r ≡ continue r' → IsSound r.nodes → Advances r.nodes r'.nodes
turn-Advances c r r' h s =
    subst (λ (q : Run). Advances r.nodes q.nodes) (turn-continue c r r' h)
      (submit-Advances c r (eligible r.nodes)
        (IsReady-entries r.nodes _ (lookup-select _ r.nodes s.unique)) s)

not_running : (b : Bool) → verdict b ≢ running
not_running true e = cc
not_running false e = cc

finish-Advances :
    (c : Config) (r : Run) (id : String) (n : TaskNode) (b : Bool)
    → lookup id r.nodes ≡ some n
    → n.status ≡ running
    → IsSound r.nodes
    → Advances r.nodes (finish c r (id, n) (verdict b)).nodes
unfolding finish
finish-Advances c r id n b e q s = record {
  sound = IsSound-set_status id (verdict b) r.nodes open_still (λ v. absurd (not_running b v)) s;
  completes = λ d. set_status_keeps_completed id d (verdict b) r.nodes open_still;
}
  where
    open_still : dep_is is_completed r.nodes id ≡ false
    open_still = ground arith

Step-Advances :
    {c : Config} {r r' : Run} → Step c r r' → IsSound r.nodes → Advances r.nodes r'.nodes
Step-Advances {c} {r} {r'} (looped h) s = turn-Advances c r r' h s
Step-Advances {c} {r} (ended id n b e q) s = finish-Advances c r id n b e q s

pub Steps-Advances :
    {c : Config} {r r' : Run} → Steps c r r' → IsSound r.nodes → Advances r.nodes r'.nodes
Steps-Advances here s = record { sound = s; completes = λ d e. e }
Steps-Advances (next rs st) s =
    let before = Steps-Advances rs s in
    let after = Step-Advances st before.sound in
    record { sound = after.sound; completes = λ d e. after.completes d (before.completes d e) }

-- No card says `running` when the loop starts.
abbrev pub NoneRunning : Nodes → Type 0
NoneRunning nodes = (id : String) (n : TaskNode) → lookup id nodes ≡ some n → n.status ≢ running

-- However turns and ends of tasks follow one another, from cards with different ids of which none is
-- running, a node that is running has all of its dependencies in the run and completed.
pub Steps-backed :
    (c : Config) (r r' : Run)
    → IsUnique r.nodes
    → NoneRunning r.nodes
    → Steps c r r'
    → (id : String) (n : TaskNode) → lookup id r'.nodes ≡ some n
    → n.status ≡ running
    → all (dep_is is_completed r'.nodes) n.dependencies ≡ true
Steps-backed c r r' u none_running steps id n e q =
    (Steps-Advances steps
        (record { unique = u; backed = λ j k f p. absurd (none_running j k f p) })).sound.backed
      id n e q

-- A node that is completed at some moment of such a run is completed ever after.
pub Steps-completes :
    (c : Config) (r r' r'' : Run)
    → IsUnique r.nodes
    → NoneRunning r.nodes
    → Steps c r r'
    → Steps c r' r''
    → (id : String) → dep_is is_completed r'.nodes id ≡ true
    → dep_is is_completed r''.nodes id ≡ true
Steps-completes c r r' r'' u none_running steps more id h =
    let s : IsSound r.nodes = record {
      unique = u;
      backed = λ j k f p. absurd (none_running j k f p);
    } in
    (Steps-Advances more (Steps-Advances steps s).sound).completes id h
