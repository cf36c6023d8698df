-- ===== src/Waves/Dispatcher.antt =====
-- The JIT dispatcher of wave_dispatcher.py: check_ready_nodes, execute_node and run_jit_dispatcher, with
-- set_state of orchestration_session.py. The state of the session is a dictionary of texts.
use Prim.Native.String.{[] as empty_text, ◌++◌ as append_text}
use go_agent_llm_orchestrato.Prelude.{
  ℕ, zero, suc, String, ◌==◌, Bool, true, ◌&&◌, ◌||◌, not, Option, none, some, List, [], ◌∷◌, Dict,
  lookup, insert, contains, any, all, select, is_nil, values, or_default, if◌then◌else◌,
}
use go_agent_llm_orchestrato.Prelude.Words.{replace, has_part}
use go_agent_llm_orchestrato.Waves.{Edges}

abbrev pub State : Type 0
State = Dict String

abbrev pub task_key : String → String
task_key node = append_text "task_" node

-- [k.replace("task_", "") for k, v in session_state.items() if v == "completed"]
unfoldable pub completed_tasks : State → List String
unfolding replace
completed_tasks [] = []
completed_tasks ((k, v) ∷ s) =
    let rest = completed_tasks s in
    if v == "completed" then replace "task_" empty_text k ∷ rest else rest

abbrev pub is_pending : Option String → Bool
is_pending none = true
is_pending (some v) = v == "pending"

-- [src for src, dst in edges if dst == node]
unfoldable pub sources : String → Edges → List String
sources node [] = []
sources node ((src, dst) ∷ edges) =
    let rest = sources node edges in if dst == node then src ∷ rest else rest

abbrev pub is_ready : Edges → State → String → Bool
is_ready edges s node =
    is_pending (lookup (task_key node) s) && all (contains (completed_tasks s)) (sources node edges)

unfoldable pub check_ready_nodes : List String → Edges → State → List String
unfolding completed_tasks sources
check_ready_nodes nodes edges s = select (is_ready edges s) nodes

-- The loop that marks all nodes at the start.
unfoldable pub mark_pending : List String → State → State
mark_pending [] s = s
mark_pending (node ∷ nodes) s = mark_pending nodes (insert (task_key node) "pending" s)

-- How the loop ends; `unreadable`: json.loads refuses the state.
pub data Ending : Type 0 where
  all_done : State → Ending
  unreadable : State → Ending
  still_waiting : State → Ending

-- The descriptions, and the id that a new session is given.
module _ (descriptions : Dict String) (sub_session : String → String) where
  unfoldable pub is_recursive : String → Bool
  unfolding has_part
  is_recursive node = has_part (or_default (lookup node descriptions) empty_text) "[RECURSIVE]"

  unfoldable pub execute_node : String → State → State
  unfolding is_recursive
  execute_node node s = insert (task_key node) "completed" (
      if is_recursive node then insert (append_text "subsession_" node) (sub_session node) s else s)

  -- for node in ready_nodes: execute_node(…)
  unfoldable pub execute_all : List String → State → State
  unfolding execute_node
  execute_all [] s = s
  execute_all (node ∷ nodes) s = execute_all nodes (execute_node node s)

  -- `readable n`: the state can be read at the n-th turn. A turn that waits is a turn.
  module _ (nodes : List String) (edges : Edges) (readable : ℕ → Bool) where
    unfoldable pub turns : ℕ → ℕ → State → Ending
    unfolding check_ready_nodes execute_all
    turns zero n s = still_waiting s
    turns (suc fuel) n s =
        let ready = check_ready_nodes nodes edges s in
        let waits = turns fuel (suc n) s in
        let goes = turns fuel (suc n) (execute_all ready s) in
        if not (readable n)
        then unreadable s
        else if is_nil ready
        then (if any (λ v. v == "running") (values s) || any (λ v. v == "pending") (values s)
            then waits
            else all_done s)
        else goes

    unfoldable pub run_jit_dispatcher : ℕ → State → Ending
    unfolding turns mark_pending
    run_jit_dispatcher fuel s = turns fuel 0 (mark_pending nodes s)
