-- ===== src/Dag/Soundness.antt =====
-- The invariant that a running task has its dependencies behind it, and what a change of a status does to it.
use go_agent_llm_orchestrato.Prelude.{
  String, ◌≡◌, refl, sym, ◌∙◌, ◌⊎◌, true, false, Option, none, some, inl, inr, lookup, all, arith,
  eq_iff, subst,
}
use go_agent_llm_orchestrato.Dag.{Status, running, TaskNode, Nodes}
use go_agent_llm_orchestrato.Dag.Run.{is_completed, dep_is, set_status}
use go_agent_llm_orchestrato.Dag.Statuses.{
  lookup-set_status, IsUnique, set_status-IsUnique, set_status_keeps_completed, all_mono,
}

abbrev pub DepsDone : Nodes → TaskNode → Type 0
DepsDone nodes n = all (dep_is is_completed nodes) n.dependencies ≡ true

-- The invariant of a run.
pub record IsSound (nodes : Nodes) : Type 0 where
  pub unique : IsUnique nodes
  pub backed :
      (id : String) (n : TaskNode)
      → lookup id nodes ≡ some n
      → n.status ≡ running
      → DepsDone nodes n

-- Everything that is completed in `nodes` is completed in `nodes'`.
abbrev pub Completes : Nodes → Nodes → Type 0
Completes nodes nodes' =
    (d : String) → dep_is is_completed nodes d ≡ true → dep_is is_completed nodes' d ≡ true

-- The node that a status was written to, or one that was left alone.
pub record Old (id : String) (st : Status) (nodes : Nodes) (j : String) (n : TaskNode)
    : Type 0 where
  pub old : TaskNode
  pub found : lookup j nodes ≡ some old
  pub same_deps : old.dependencies ≡ n.dependencies
  pub changed : ((id ≡ j) × (n.status ≡ st)) ⊎ (old.status ≡ n.status)

pub Old-node :
    (id : String) (st : Status) (nodes : Nodes) (j : String) (n : TaskNode) (o : Option TaskNode)
    → lookup j nodes ≡ o
    → lookup j (set_status id st nodes) ≡ some n
    → Old id st nodes j n
Old-node id st nodes j n none e q = absurd (ground (arith, lookup-set_status id j st nodes))
Old-node id st nodes j n (some k) e q = record {
  old = k;
  found = e;
  same_deps = ground (arith, lookup-set_status id j st nodes);
  changed = ground (arith, lookup-set_status id j st nodes, eq_iff id j);
}

pub DepsDone-mono :
    (nodes nodes' : Nodes) (k n : TaskNode)
    → Completes nodes nodes'
    → k.dependencies ≡ n.dependencies
    → DepsDone nodes k
    → DepsDone nodes' n
DepsDone-mono nodes nodes' k n c e h = all_mono _ _ n.dependencies c (rw (← e) h)

-- A status written to a node that is not completed keeps the invariant, if a node that starts to
-- run has its dependencies done.
pub IsSound-set_status :
    (id : String) (st : Status) (nodes : Nodes)
    → dep_is is_completed nodes id ≡ false
    → (st ≡ running → (n : TaskNode) → lookup id nodes ≡ some n → DepsDone nodes n)
    → IsSound nodes
    → IsSound (set_status id st nodes)
IsSound-set_status id st nodes i ready s = record {
  unique = set_status-IsUnique id st nodes s.unique;
  backed = λ j n e r. was j n r (Old-node id st nodes j n _ refl e);
}
  where
    done_before :
        (j : String) (n : TaskNode)
        → n.status ≡ running
        → (o : Old id st nodes j n) → DepsDone nodes o.old
    done_before j n r o = elim o.changed [
      | inl (p, q) ↦
          ready (sym q ∙ r) o.old
            (subst (λ (x : String). lookup x nodes ≡ some o.old) (sym p) o.found)
      | inr q ↦ s.backed j o.old o.found (q ∙ r)
    ]

    was :
        (j : String) (n : TaskNode)
        → n.status ≡ running
        → Old id st nodes j n
        → DepsDone (set_status id st nodes) n
    was j n r o =
        DepsDone-mono nodes (set_status id st nodes) o.old n
          (λ d. set_status_keeps_completed id d st nodes i) o.same_deps (done_before j n r o)

-- What the submission loop needs of a node that it may start.
