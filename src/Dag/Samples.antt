-- ===== src/Dag/Samples.antt =====
-- Small task graphs, and what the runner does on them.
use go_agent_llm_orchestrato.Prelude.{
  String, ◌≡◌, ◌≢◌, refl, ◌⊎◌, inl, true, false, none, some, List, [], ◌∷◌, lookup, insert, all,
  any, contains, arith, eq_iff,
}
use go_agent_llm_orchestrato.Dag.{
  Status, pending, running, completed, TaskNode, Nodes, detect_cycles,
}
use go_agent_llm_orchestrato.Dag.Graph.{HasCycle}
use go_agent_llm_orchestrato.Dag.Cycles.{detect_cycles_decides}
use go_agent_llm_orchestrato.Dag.Run.{
  Config, Run, concrete_model, is_completed, is_running, is_empty, has_status, dep_is, deps_ok,
  set_status, remove_model, submit, can_run, end_turn, finish, verdict, turn, stop_success,
  continue, Steps, here, next, looped, ended,
}
use go_agent_llm_orchestrato.Dag.Statuses.{IsUnique}
use go_agent_llm_orchestrato.Dag.Safety.{NoneRunning, Steps-backed}
use go_agent_llm_orchestrato.Dag.Progress.{waiting}
use go_agent_llm_orchestrato.Dag.Progress.Liveness.{IsQuiet, quiet_starts}
use go_agent_llm_orchestrato.Dag.Progress.Blocked.{IsBlocked, unknown_dependency_blocks}
use go_agent_llm_orchestrato.Dag.Models.{finish_releases_shared_model}

abbrev card : String → List String → Status → TaskNode
card id deps st = record {
  id = id;
  agent = "coder";
  dependencies = deps;
  status = st;
  model_override = none;
}

abbrev rules : Config
rules = record { agent_tiers = []; ollama_models = ("L2", "qwen") ∷ []; max_concurrent_models = 1 }

-- `b` depends on `a`.
abbrev two : Status → Status → Nodes
two s t = ("a", card "a" [] s) ∷ ("b", card "b" ("a" ∷ []) t) ∷ []

abbrev run_of : Nodes → List String → Run
run_of nodes models = record { nodes = nodes; active_models = models; disk = [] }

abbrev first : Run
first = run_of (two pending pending) []

abbrev second : Run
second = record {
  nodes = two running pending;
  active_models = "qwen" ∷ [];
  disk = ("a", running) ∷ [];
}

runs : Unit {0}
unfolding turn submit end_turn deps_ok finish set_status remove_model lookup insert concrete_model
    detect_cycles
runs = tt

turn-first : turn rules first ≡ continue second
unfolding runs
turn-first = refl

found_acyclic : detect_cycles (two pending pending) ≡ some false
unfolding runs
found_acyclic = refl

found_cyclic :
    detect_cycles (("a", card "a" ("b" ∷ []) pending) ∷ ("b", card "b" ("a" ∷ []) pending) ∷ [])
    ≡ some true
unfolding runs
found_cyclic = refl

abbrev third : Run
third = finish rules second ("a", card "a" [] running) (verdict true)

two-Steps : Steps rules first third
unfolding runs
two-Steps = next (next here (looped turn-first)) (ended "a" (card "a" [] running) true refl refl)

detect_cycles_decides_example :
    ((detect_cycles (two pending pending) ≡ some true) × HasCycle (two pending pending))
    ⊎ ((detect_cycles (two pending pending) ≡ some false) × (¬ HasCycle (two pending pending)))
detect_cycles_decides_example = detect_cycles_decides (two pending pending)

first-IsUnique : IsUnique first.nodes
unfolding runs
first-IsUnique = (refl, (refl, tt))

first-NoneRunning : NoneRunning first.nodes
unfolding runs
first-NoneRunning id n e r = ground (arith, eq_iff "a" id, eq_iff "b" id)

abbrev fourth : Run
fourth = record {
  nodes = two completed running;
  active_models = "qwen" ∷ [];
  disk = ("a", completed) ∷ ("b", running) ∷ [];
}

turn-third : turn rules third ≡ continue fourth
unfolding runs
turn-third = refl

fourth-b : lookup "b" fourth.nodes ≡ some (card "b" ("a" ∷ []) running)
unfolding runs
fourth-b = refl

Steps-backed_example : all (dep_is is_completed fourth.nodes) ("a" ∷ []) ≡ true
Steps-backed_example =
    Steps-backed rules first fourth first-IsUnique first-NoneRunning
      (next two-Steps (looped turn-third)) "b" (card "b" ("a" ∷ []) running) fourth-b refl

third-a : dep_is is_completed third.nodes "a" ≡ true
unfolding runs
third-a = refl

abbrev done : Run
done = run_of (two completed completed) []

turn-done : turn rules done ≡ stop_success done
unfolding runs
turn-done = refl

first-IsQuiet : IsQuiet first.nodes
unfolding runs
first-IsQuiet = record {
  unique = first-IsUnique;
  acyclic = found_acyclic;
  known = λ id d n e c. ground (arith, eq_iff "a" id, eq_iff "b" id, eq_iff "a" d);
  settled = λ id n e. inl (ground (arith, eq_iff "a" id, eq_iff "b" id));
}

first-waiting : is_empty (waiting first.nodes) ≡ false
first-waiting = refl

quiet_starts_example :
    (r' : Run) × (turn rules first ≡ continue r') × (any (has_status is_running) r'.nodes ≡ true)
quiet_starts_example = quiet_starts rules first first-IsQuiet refl (omega arith) first-waiting

-- A card that depends on an id that no card has.
abbrev lost : Run
lost = run_of (("b", card "b" ("a" ∷ []) pending) ∷ []) []

lost-IsUnique : IsUnique lost.nodes
unfolding runs
lost-IsUnique = (refl, tt)

lost-NoneRunning : NoneRunning lost.nodes
unfolding runs
lost-NoneRunning id n e r = ground (arith, eq_iff "b" id)

lost-IsBlocked : IsBlocked "b" "a" lost.nodes
unfolding runs
lost-IsBlocked = record {
  unknown = refl;
  node = card "b" ("a" ∷ []) pending;
  found = refl;
  waits = refl;
  needs = refl;
}

turn-lost : turn rules lost ≡ continue lost
unfolding runs
turn-lost = refl

unknown_dependency_blocks_example :
    IsBlocked "b" "a" lost.nodes × ((r'' : Run) → turn rules lost ≢ stop_success r'')
unknown_dependency_blocks_example =
    unknown_dependency_blocks rules lost lost "b" "a" lost-IsUnique lost-NoneRunning lost-IsBlocked
      (next here (looped turn-lost))

-- Two tasks that run on one model.
abbrev shared : Run
shared = run_of (("a", card "a" [] running) ∷ ("b", card "b" [] running) ∷ []) ("qwen" ∷ [])

shared-b : lookup "b" shared.nodes ≡ some (card "b" [] running)
unfolding runs
shared-b = refl

shared-model : contains shared.active_models (concrete_model rules (card "a" [] running)) ≡ true
unfolding runs
shared-model = refl

shared-same :
    concrete_model rules (card "b" [] running) ≡ concrete_model rules (card "a" [] running)
unfolding runs
shared-same = refl

finish_releases_shared_model_example :
    (dep_is is_running (finish rules shared ("a", card "a" [] running) (verdict true)).nodes "b"
      ≡ true)
    × (contains
          (finish rules shared ("a", card "a" [] running) (verdict true)).active_models
          (concrete_model rules (card "b" [] running))
        ≡ false)
    × (can_run rules (finish rules shared ("a", card "a" [] running) (verdict true)) "codestral"
        ≡ true)
finish_releases_shared_model_example =
    finish_releases_shared_model rules shared "a" "b" (card "a" [] running) (card "b" [] running)
      true "codestral" (record { distinct = (refl, tt); within = omega arith }) shared-model
      shared-b refl refl shared-same
