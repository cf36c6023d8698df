-- ===== src/Daemon/Server/Samples.antt =====
-- A daemon with one task, and the requests that reach it.
use go_agent_llm_orchestrato.Prelude.{
  ℕ, String, ◌≡◌, refl, true, false, none, some, List, [], ◌∷◌, ◌++◌, lookup, insert,
}
use go_agent_llm_orchestrato.Capability.{loaded, Matrix, entry, role}
use go_agent_llm_orchestrato.Daemon.Db.{save_task, acquire_lock}
use go_agent_llm_orchestrato.Daemon.Gate.{check_capability}
use go_agent_llm_orchestrato.Daemon.Server.{
  raised, action_run_task, action_stop, handle_client, capability_of,
}
use go_agent_llm_orchestrato.Daemon.State.{unnamed, World, Server, started, Request, planning_state}
use go_agent_llm_orchestrato.Daemon.Server.Runs.{Event, request, ended, run_events}
use go_agent_llm_orchestrato.Daemon.Server.Draining.{IsDrainOf, run_events-IsDrainOf}
use go_agent_llm_orchestrato.Daemon.Server.Authority.{IsAuthorised, handle_client-IsAuthorised}
use go_agent_llm_orchestrato.Daemon.Server.Exclusion.{expired_starts_twice}

abbrev matrix : Matrix
matrix = record {
  version = some "1.0.0";
  operations = some [];
  roles = some (("human", role (some (entry (some "modify-tasks") none ∷ []))) ∷ []);
}

abbrev at_time : ℕ → World
at_time t = record {
  now = t;
  matrix = loaded matrix;
  inbox_fragment = "";
  knowledge_fragment = "";
  squeeze_ok = true;
  distill_ok = true;
}

abbrev idle : Server ℕ
idle = record {
  db = record { tasks = []; traces = []; locks = [] };
  active_tasks = [];
  executing = [];
  subscribers = [];
  shutting_down = false;
  bus = [];
}

abbrev asks : String → Request
asks id = record {
  action = some "run_task";
  task_id = some id;
  task = some "fix it";
  caller_role = unnamed;
  scope = none;
  reason = none;
}

abbrev busy : Server ℕ
busy = (action_run_task 0 1 2 (at_time 0) (some "a") (some "fix it") idle).0

starts : (handle_client 0 1 2 (at_time 0) (asks "a") idle).1 ≡ started "a"
unfolding handle_client action_run_task capability_of check_capability lookup acquire_lock
starts = refl

abbrev stopped : Server ℕ
stopped = (action_stop 0 1 2 "maintenance" busy).0

abbrev later : List (Event ℕ)
later =
    request (at_time 60) (asks "b")
    ∷ request (at_time 1700) (asks "a")
    ∷ ended "c" (raised (planning_state "c"))
    ∷ []

run_events-IsDrainOf_example : IsDrainOf stopped (run_events 0 1 2 later stopped)
unfolding action_stop action_run_task acquire_lock
run_events-IsDrainOf_example = run_events-IsDrainOf 0 1 2 later stopped refl

handle_client-IsAuthorised_example :
    IsAuthorised 0 1 2 matrix (asks "a") idle (handle_client 0 1 2 (at_time 0) (asks "a") idle).0
handle_client-IsAuthorised_example =
    handle_client-IsAuthorised 0 1 2 matrix (at_time 0) (asks "a") idle refl

expired_starts_twice_example :
    ((action_run_task 0 1 2 (at_time 1801) (some "a") (some "fix it") busy).1 ≡ started "a")
    × ((action_run_task 0 1 2 (at_time 1801) (some "a") (some "fix it") busy).0.executing
        ≡ busy.executing ++ "a" ∷ [])
unfolding action_run_task acquire_lock insert lookup save_task
expired_starts_twice_example =
    expired_starts_twice 0 1 2 (at_time 1801) "a" "fix it" busy refl refl refl refl refl
