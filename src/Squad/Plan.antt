-- ===== src/Squad/Plan.antt =====
-- The hierarchy of agents as a plan of the DAG runner: each agent is a task that depends on its delegates.
use go_agent_llm_orchestrato.Prelude.{
  suc, String, ◌==◌, Bool, true, false, Option, none, some, is_some, [], ◌∷◌, lookup, keys, length,
  contains, ◌≡◌, inl, inr, refl, ap, arith, false≢true, Bool-cases,
}
use go_agent_llm_orchestrato.Dag.{
  TaskNode, pending, Nodes, Mark, unvisited, visiting, visited, mark_of, has_node, deps_of_node,
  start_marks,
}
use go_agent_llm_orchestrato.Squad.{
  AgentNode, Agents, Color, white, gray, black, delegates_of, all_white,
}

-- The agent as a task.
abbrev pub task_of : AgentNode → TaskNode
task_of n = record {
  id = n.name;
  agent = n.name;
  dependencies = n.delegates_to;
  status = pending;
  model_override = none;
}

abbrev pub plan_of : Agents → Nodes
plan_of [] = []
plan_of ((name, n) ∷ nodes) = (name, task_of n) ∷ plan_of nodes

abbrev pub color : Mark → Color
color unvisited = white
color visiting = gray
color visited = black

abbrev pub color_if : Bool → Mark → Option Color
color_if true m = some (color m)
color_if false m = none

pub keys-plan_of : (nodes : Agents) → keys (plan_of nodes) ≡ keys nodes
keys-plan_of [] = refl
keys-plan_of ((name, n) ∷ nodes) = ap (λ ks. name ∷ ks) (keys-plan_of nodes)

pub length-plan_of : (nodes : Agents) → length (plan_of nodes) ≡ length nodes
length-plan_of [] = refl
length-plan_of ((name, n) ∷ nodes) = ap suc (length-plan_of nodes)

pub delegates-plan_of :
    (nodes : Agents) (x : String)
    → deps_of_node (lookup x (plan_of nodes)) ≡ delegates_of (lookup x nodes)
unfolding lookup
delegates-plan_of [] x = refl
delegates-plan_of ((name, n) ∷ nodes) x = elim (Bool-cases (name == x)) [
  | inl e ↦ rw e refl
  | inr e ↦ rw e (delegates-plan_of nodes x)
]

has_node-plan_of :
    (nodes : Agents) (x : String) → has_node (plan_of nodes) x ≡ is_some (lookup x nodes)
unfolding lookup
has_node-plan_of [] x = refl
has_node-plan_of ((name, n) ∷ nodes) x = elim (Bool-cases (name == x)) [
  | inl e ↦ rw e refl
  | inr e ↦ rw e (has_node-plan_of nodes x)
]

-- At the start all agents are white, and nothing else has a colour.
pub lookup-all_white :
    (nodes : Agents) (x : String)
    → lookup x (all_white nodes)
      ≡ color_if (has_node (plan_of nodes) x) (mark_of (start_marks (plan_of nodes)) x)
unfolding lookup
lookup-all_white [] x = refl
lookup-all_white ((name, n) ∷ nodes) x = elim (Bool-cases (name == x)) [
  | inl e ↦ rw e refl
  | inr e ↦ rw e (lookup-all_white nodes x)
]

pub known_keys :
    (nodes : Nodes) (d : String) → contains (keys nodes) d ≡ true → has_node nodes d ≡ true
unfolding lookup
known_keys [] d h = absurd (false≢true h)
known_keys ((j, n) ∷ nodes) d h = ground (arith, known_keys nodes d)
