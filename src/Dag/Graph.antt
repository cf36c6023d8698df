-- ===== src/Dag/Graph.antt =====
-- The dependency graph, what the marks of a search promise, and how many nodes are left to visit.
use mathlib.Core.WellFounded.{Acc}
use go_agent_llm_orchestrato.Prelude.{
  ℕ, ◌+◌, ◌≤◌, ◌<◌, String, ◌≡◌, ◌≢◌, true, some, List, [], ◌∷◌, lookup, contains, arith, eq_iff,
}
use go_agent_llm_orchestrato.Dag.{TaskNode, Nodes, Mark, unvisited, Marks, mark_of, has_node}

-- `x` is a node that depends on the node `y`. A dependency that is no node is no edge.
pub record Edge (nodes : Nodes) (x y : String) : Type 0 where
  pub node : TaskNode
  pub is_node : lookup x nodes ≡ some node
  pub depends : contains node.dependencies y ≡ true
  pub known : has_node nodes y ≡ true

-- One or more edges.
pub data Reaches (nodes : Nodes) : String → String → Type 0 where
  edge : {x y : String} → Edge nodes x y → Reaches nodes x y
  step : {x y z : String} → Edge nodes x y → Reaches nodes y z → Reaches nodes x z

abbrev pub HasCycle : Nodes → Type 0
HasCycle nodes = (x : String) × Reaches nodes x x

-- Every chain of dependencies from here ends.
abbrev pub IsSafe : Nodes → String → Type 0
IsSafe nodes = Acc (λ y x. Edge nodes x y)

pub Reaches-snoc :
    {nodes : Nodes} {x y z : String} → Reaches nodes x y → Edge nodes y z → Reaches nodes x z
Reaches-snoc (edge e) last = step e (edge last)
Reaches-snoc (step e r) last = step e (Reaches-snoc r last)

-- What ends is on no cycle.
pub IsSafe-acyclic : {nodes : Nodes} (x : String) → IsSafe nodes x → ¬ Reaches nodes x x
IsSafe-acyclic x (Acc.intro _ below) (edge e) = IsSafe-acyclic x (below x e) (edge e)
IsSafe-acyclic x (Acc.intro _ below) (step {y = y} e r) =
    IsSafe-acyclic y (below y e) (Reaches-snoc r e)

-- How many nodes a search has not visited.
abbrev white : Mark → ℕ
white unvisited = 1
white _ = 0

unfoldable pub white_count : List String → Marks → ℕ
white_count [] m = 0
white_count (id ∷ ids) m = white (mark_of m id) + white_count ids m

-- Marks change in one direction.
abbrev pub Darker : Marks → Marks → Type 0
Darker m m' = (x : String) → mark_of m' x ≡ unvisited → mark_of m x ≡ unvisited

pub white_count-le :
    (ids : List String) (m m' : Marks) → Darker m m' → white_count ids m' ≤ white_count ids m
unfolding white_count
white_count-le [] m m' d = omega arith
white_count-le (id ∷ ids) m m' d = ground (arith, d id, white_count-le ids m m' d)

pub white_count-lt :
    (ids : List String) (m m' : Marks) (id : String)
    → Darker m m'
    → contains ids id ≡ true
    → mark_of m id ≡ unvisited
    → mark_of m' id ≢ unvisited
    → white_count ids m' < white_count ids m
unfolding white_count
white_count-lt [] m m' id d c w n = cc
white_count-lt (j ∷ ids) m m' id d c w n =
    ground (arith, d j, eq_iff j id, white_count-le ids m m' d, white_count-lt ids m m' id d)
