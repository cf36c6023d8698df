-- ===== src/Dag/Run.antt =====
-- The scheduling loop of `main` and the end of `execute_task` in dag_runner.py. All writes to the
-- nodes and to `active_models` stand under `state_lock`, so a run is a sequence of turns of the
-- loop and of ends of tasks.
use go_agent_llm_orchestrato.Prelude.{
  ℕ, String, ◌==◌, ◌≡◌, Bool, true, false, not, ◌&&◌, ◌||◌, Option, none, some, or_default, List,
  [], ◌∷◌, ◌++◌, Dict, lookup, insert, length, any, all, select, contains, ltb, if◌then◌else◌,
}
use go_agent_llm_orchestrato.Dag.{Status, pending, running, completed, failed, TaskNode, Nodes}
use Prim.Native.String.{[] as empty_text}

-- The router rules, and DAG_MAX_CONCURRENT_MODELS.
pub record Config : Type 0 where
  pub agent_tiers : Dict String
  pub ollama_models : Dict String
  pub max_concurrent_models : ℕ

-- `disk`: the status in the card of each saved node.
pub record Run : Type 0 where
  pub nodes : Nodes
  pub active_models : List String
  pub disk : Dict Status

-- `model_override or agent_tiers.get(agent, "L2")`
abbrev pub tier_of : Config → TaskNode → Option String → String
tier_of c n none = or_default (lookup n.agent c.agent_tiers) "L2"
tier_of c n (some o) = if o == empty_text then or_default (lookup n.agent c.agent_tiers) "L2" else o

unfoldable pub concrete_model : Config → TaskNode → String
concrete_model c n =
    or_default (lookup (tier_of c n n.model_override) c.ollama_models) "qwen2.5-coder:14b"

abbrev pub is_pending : Status → Bool
is_pending pending = true
is_pending _ = false

abbrev pub is_running : Status → Bool
is_running running = true
is_running _ = false

abbrev pub is_completed : Status → Bool
is_completed completed = true
is_completed _ = false

abbrev pub is_failed : Status → Bool
is_failed failed = true
is_failed _ = false

abbrev pub Entry : Type 0
Entry = String × TaskNode

abbrev pub has_status : (Status → Bool) → Entry → Bool
has_status p e = p e.1.status

abbrev pub status_test : (Status → Bool) → Option TaskNode → Bool
status_test p none = false
status_test p (some n) = p n.status

-- `dep_node and dep_node.status == …`
abbrev pub dep_is : (Status → Bool) → Nodes → String → Bool
dep_is p nodes dep = status_test p (lookup dep nodes)

unfoldable pub deps_ok : Nodes → Entry → Bool
deps_ok nodes e = all (dep_is is_completed nodes) e.1.dependencies

unfoldable pub deps_failed : Nodes → Entry → Bool
deps_failed nodes e = any (dep_is is_failed nodes) e.1.dependencies

unfoldable pub set_status : String → Status → Nodes → Nodes
set_status id st [] = []
set_status id st ((j, n) ∷ nodes) =
    if j == id then (j, record n { status = st }) ∷ nodes else (j, n) ∷ set_status id st nodes

-- active_models.add(m)
abbrev pub add_model : String → List String → List String
add_model m models = if contains models m then models else models ++ m ∷ []

-- active_models.remove(m); the KeyError of a model that is not there ends the worker's call, after
-- everything else that it does
unfoldable pub remove_model : String → List String → List String
remove_model m [] = []
remove_model m (x ∷ models) = if x == m then models else x ∷ remove_model m models

unfoldable pub can_run : Config → Run → String → Bool
can_run c r m = contains r.active_models m || ltb (length r.active_models) c.max_concurrent_models

unfoldable pub start : Config → Run → Entry → Run
start c r e = record {
  nodes = set_status e.0 running r.nodes;
  active_models = add_model (concrete_model c e.1) r.active_models;
  disk = insert e.0 running r.disk;
}

-- The submission loop: the run after it, and whether a task was submitted.
unfoldable pub submit : Config → Run → List Entry → Run × Bool
unfolding can_run start
submit c r [] = (r, false)
submit c r (e ∷ eligible) =
    let taken = submit c (start c r e) eligible in
    let skipped = submit c r eligible in
    if can_run c r (concrete_model c e.1) then (taken.0, true) else skipped

pub data Turn : Type 0 where
  stop_failed stop_success : Run → Turn
  continue : Run → Turn

abbrev pub is_empty : List Entry → Bool
is_empty [] = true
is_empty (e ∷ es) = false

-- The deadlock check, and the end of the turn.
unfoldable pub end_turn : List Entry → Run → Bool → Turn
unfolding deps_failed
end_turn waiting r any_running =
    if not any_running && not (is_empty waiting)
    then (if any (λ e. not (deps_failed r.nodes e)) waiting then continue r else stop_failed r)
    else continue r

-- One turn of `while True`.
unfoldable pub turn : Config → Run → Turn
turn c r =
    let any_running = any (has_status is_running) r.nodes in
    let waiting = select (has_status is_pending) r.nodes in
    if any (has_status is_failed) r.nodes
    then stop_failed r
    else if is_empty waiting && not any_running
    then stop_success r
    else (let (r', submitted) = submit c r (select (deps_ok r.nodes) waiting) in
        end_turn waiting r' (any_running || submitted))

-- The last block of `execute_task`, for the status that the task ends with.
unfoldable pub finish : Config → Run → Entry → Status → Run
finish c r e st = record {
  nodes = set_status e.0 st r.nodes;
  active_models = remove_model (concrete_model c e.1) r.active_models;
  disk = insert e.0 st r.disk;
}

abbrev pub verdict : Bool → Status
verdict true = completed
verdict false = failed

-- A run goes on by a turn of the loop or by the end of a submitted task: the tasks in the executor
-- are the nodes that are running.
pub data Step (c : Config) (r : Run) : Run → Type 0 where
  looped : {r' : Run} → turn c r ≡ continue r' → Step c r r'
  ended :
      (id : String) (n : TaskNode) (success : Bool)
      → lookup id r.nodes ≡ some n
      → n.status ≡ running
      → Step c r (finish c r (id, n) (verdict success))

pub data Steps (c : Config) : Run → Run → Type 0 where
  here : {r : Run} → Steps c r r
  next : {r r' r'' : Run} → Steps c r r' → Step c r' r'' → Steps c r r''
