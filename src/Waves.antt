-- ===== src/Waves.antt =====
-- The waves of a plan: parse_mermaid_dag after its regular expression, and get_execution_waves, in
-- .agent/scripts/orchestration/wave_dispatcher.py. A KeyError is `none`.
pub mod Degrees
pub mod Removal
pub mod Layers
pub mod Counting
pub mod Start
pub mod Dispatcher
pub mod Listing
pub mod Waiting
mod Samples
use go_agent_llm_orchestrato.Prelude.{
  ℕ, zero, suc, ◌+◌, ◌-◌, String, ◌==◌, Bool, true, false, Option, none, some, List, [], ◌∷◌, ◌++◌,
  Dict, remove, contains, length, eqb, if◌then◌else◌,
}

abbrev pub Edges : Type 0
Edges = List (String × String)

-- `if n not in nodes: nodes[n] = []`
abbrev pub add_node : String → List String → List String
add_node n nodes = if contains nodes n then nodes else nodes ++ n ∷ []

-- The loop over the matches of the expression: the keys of `nodes`. The edges are the matches.
unfoldable pub nodes_of : Edges → List String → List String
nodes_of [] nodes = nodes
nodes_of ((src, dst) ∷ matches) nodes = nodes_of matches (add_node dst (add_node src nodes))

-- `in_degree`. A count is never below zero: an edge is taken off a count once, and was in it.
abbrev pub Degrees : Type 0
Degrees = Dict ℕ

unfoldable pub zero_degrees : List String → Degrees
zero_degrees [] = []
zero_degrees (n ∷ nodes) = (n, 0) ∷ zero_degrees nodes

abbrev pub cons_some : String × ℕ → Option Degrees → Option Degrees
cons_some e none = none
cons_some e (some d) = some (e ∷ d)

-- in_degree[k] = f(in_degree[k])
unfoldable pub adjust : (ℕ → ℕ) → String → Degrees → Option Degrees
adjust f k [] = none
adjust f k ((j, v) ∷ d) =
    let rest = adjust f k d in if j == k then some ((j, f v) ∷ d) else cons_some (j, v) rest

abbrev pub and_then : Option Degrees → (Degrees → Option Degrees) → Option Degrees
and_then none f = none
and_then (some d) f = f d

abbrev pub increase : ℕ → ℕ
increase v = v + 1

abbrev pub decrease : ℕ → ℕ
decrease v = v - 1

-- for src, dst in edges: in_degree[dst] += 1
unfoldable pub count_edges : Edges → Degrees → Option Degrees
unfolding adjust
count_edges [] d = some d
count_edges ((src, dst) ∷ edges) d = and_then (adjust increase dst d) (count_edges edges)

-- for src, dst in edges: if src == node: in_degree[dst] -= 1
unfoldable pub drop_edges : String → Edges → Degrees → Option Degrees
unfolding adjust
drop_edges node [] d = some d
drop_edges node ((src, dst) ∷ edges) d =
    let dropped = and_then (adjust decrease dst d) (drop_edges node edges) in
    let kept = drop_edges node edges d in if src == node then dropped else kept

-- [node for node, degree in in_degree.items() if degree == 0]
unfoldable pub current_wave : Degrees → List String
current_wave [] = []
current_wave ((n, v) ∷ d) = let rest = current_wave d in if eqb v 0 then n ∷ rest else rest

-- The loop over the wave, `del in_degree[node]` at the end of each turn.
unfoldable pub run_wave : List String → Edges → Degrees → Option Degrees
unfolding drop_edges
run_wave [] edges d = some d
run_wave (node ∷ wave) edges d =
    and_then (drop_edges node edges d) (λ d'. run_wave wave edges (remove node d'))

abbrev pub Waves : Type 0
Waves = List (List String)

abbrev pub add_wave : List String → Option Waves → Option Waves
add_wave w none = none
add_wave w (some ws) = some (w ∷ ws)

abbrev pub waves_then : Option Degrees → (Degrees → Option Waves) → Option Waves
waves_then none f = none
waves_then (some d) f = f d

-- `while True`. `none` also: the fuel ran out.
unfoldable pub waves_from : ℕ → Edges → List String → Degrees → Option Waves
unfolding current_wave run_wave
waves_from zero edges wave d = none
waves_from (suc fuel) edges [] d = some []
waves_from (suc fuel) edges (n ∷ wave) d =
    add_wave (n ∷ wave)
      (waves_then (run_wave (n ∷ wave) edges d) (λ d'. waves_from fuel edges (current_wave d') d'))

-- Each turn but the last takes a node away.
unfoldable pub get_execution_waves : List String → Edges → Option Waves
unfolding zero_degrees count_edges waves_from
get_execution_waves nodes edges =
    waves_then (count_edges edges (zero_degrees nodes))
      (λ d. waves_from (length nodes + 1) edges (current_wave d) d)
