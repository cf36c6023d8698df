-- ===== src/Dag.antt =====
-- The task cards and the cycle check of the DAG runner, .agent/scripts/orchestration/dag_runner.py.
pub mod Graph
pub mod Search
pub mod Cycles
pub mod Run
pub mod Statuses
pub mod Soundness
pub mod Safety
pub mod Progress
pub mod Models
mod Samples
use go_agent_llm_orchestrato.Prelude.{
  ℕ, zero, suc, ◌+◌, String, ◌==◌, Bool, true, false, Option, none, some, is_some, or_default, List,
  [], ◌∷◌, Dict, lookup, insert, keys, length, if◌then◌else◌,
}

-- `node.status`: the texts that the runner tests for, and any other text of a card.
pub data Status : Type 0 where
  pending running completed failed : Status
  other : String → Status

pub record TaskNode : Type 0 where
  pub id : String
  pub agent : String
  pub dependencies : List String
  pub status : Status
  pub model_override : Option String

abbrev pub Nodes : Type 0
Nodes = Dict TaskNode

-- `visited`: 0, 1 and 2 of the source.
pub data Mark : Type 0 where
  unvisited visiting visited : Mark

abbrev pub is_unvisited : Mark → Bool
is_unvisited unvisited = true
is_unvisited _ = false

abbrev pub Marks : Type 0
Marks = Dict Mark

-- visited[node_id]; every node has a mark from the start
abbrev pub mark_of : Marks → String → Mark
mark_of m id = or_default (lookup id m) unvisited

-- node_id in nodes
abbrev pub has_node : Nodes → String → Bool
has_node nodes id = is_some (lookup id nodes)

abbrev pub deps_of_node : Option TaskNode → List String
deps_of_node none = []
deps_of_node (some n) = n.dependencies

-- What a search returns: whether it met a cycle, and the marks. `none`: the fuel ran out.
abbrev pub Found : Type 0
Found = Option (Bool × Marks)

-- `if dfs(dep): return True`, and go on otherwise
abbrev pub unless_found : Found → (Marks → Found) → Found
unless_found none next = none
unless_found (some (true, marks)) next = some (true, marks)
unless_found (some (false, marks)) next = next marks

-- `for dep in node.dependencies: if dep in nodes: if dfs(dep): return True`
unfoldable pub dfs_deps : (Marks → String → Found) → Nodes → List String → Marks → Found
dfs_deps call nodes [] marks = some (false, marks)
dfs_deps call nodes (dep ∷ deps) marks =
    let skip = dfs_deps call nodes deps marks in
    let found = unless_found (call marks dep) (dfs_deps call nodes deps) in
    if has_node nodes dep then found else skip

-- `visited[node_id] = 2` after the loop, unless it has returned
abbrev pub close : String → Found → Found
close id none = none
close id (some (true, marks)) = some (true, marks)
close id (some (false, marks)) = some (false, insert id visited marks)

abbrev pub dfs_step : Mark → Marks → Found → Found
dfs_step visiting marks opened = some (true, marks)
dfs_step visited marks opened = some (false, marks)
dfs_step unvisited marks opened = opened

unfoldable pub dfs : ℕ → Nodes → Marks → String → Found
unfolding dfs_deps
dfs zero nodes marks id = none
dfs (suc fuel) nodes marks id =
    let deps = deps_of_node (lookup id nodes) in
    let opened = close id (dfs_deps (dfs fuel nodes) nodes deps (insert id visiting marks)) in
    dfs_step (mark_of marks id) marks opened

-- visited = {node_id: 0 for node_id in nodes}
abbrev pub start_marks : Nodes → Marks
start_marks [] = []
start_marks ((id, n) ∷ nodes) = (id, unvisited) ∷ start_marks nodes

-- The outer loop: `for node_id in nodes: if visited[node_id] == 0: if dfs(node_id): return True`
unfoldable pub dfs_all : ℕ → Nodes → List String → Marks → Found
unfolding dfs
dfs_all fuel nodes [] marks = some (false, marks)
dfs_all fuel nodes (id ∷ ids) marks =
    let skip = dfs_all fuel nodes ids marks in
    let found = unless_found (dfs fuel nodes marks id) (dfs_all fuel nodes ids) in
    if is_unvisited (mark_of marks id) then found else skip

abbrev pub answer : Found → Option Bool
answer none = none
answer (some (cyclic, marks)) = some cyclic

-- A search is at most as deep as there are nodes.
unfoldable pub detect_cycles : Nodes → Option Bool
unfolding dfs_all
detect_cycles nodes = answer (dfs_all (length nodes + 1) nodes (keys nodes) (start_marks nodes))
