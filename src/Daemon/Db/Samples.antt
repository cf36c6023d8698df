-- ===== src/Daemon/Db/Samples.antt =====
-- Small tables. The JSON values are numbers here: 0 for null, 1 for [], 2 for {}.
use go_agent_llm_orchestrato.Prelude.{
  ℕ, ◌≡◌, ◌≢◌, refl, none, some, List, [], ◌∷◌, lookup, insert, if◌then◌else◌, ◌==◌,
}
use go_agent_llm_orchestrato.Capability.{Matrix, entry, role}
use go_agent_llm_orchestrato.Daemon.Db.{dumps, StateDict, Trace, Db, save_task, load_task}
use go_agent_llm_orchestrato.Daemon.Db.Locks.{Event, acquire, release}
use go_agent_llm_orchestrato.Daemon.Db.Rows.{
  load_task-save_task, save_task-drops_traces, with_defaults,
}

abbrev planned : StateDict ℕ
planned = record {
  issue_description = some "fix it";
  adr_document = none;
  subtasks = none;
  current_files = some 7;
  git_diff = none;
  test_results = none;
  trace_path = none;
  active_node = none;
  status = some "planning";
}

abbrev old_trace : Trace ℕ
old_trace = record {
  task_id = "b";
  traversal_path = dumps 1;
  llm_calls = dumps 1;
  verification_attempts = dumps 1;
  final_status = "completed";
}

abbrev tables : Db ℕ
tables = record { tasks = []; traces = ("s1", old_trace) ∷ []; locks = [] }

abbrev with_task : Db ℕ
with_task = save_task 0 1 2 "a" planned tables

abbrev statements : List Event
statements = acquire 10 "workspace" "b" 100 ∷ release "workspace" "b" ∷ []

load_task-save_task_example :
    load_task 0 1 2 "a" (save_task 0 1 2 "a" planned tables)
    ≡ (if "a" == "a" then some (with_defaults 0 1 2 planned) else load_task 0 1 2 "a" tables)
load_task-save_task_example = load_task-save_task 0 1 2 "a" "a" planned tables

save_task-drops_traces_example : old_trace.task_id ≢ "a"
unfolding save_task lookup insert
save_task-drops_traces_example =
    save_task-drops_traces 0 1 2 "a" "s1" planned with_task old_trace refl refl

abbrev one_role : Matrix
one_role = record {
  version = some "1.0.0";
  operations = some (("modify-tasks", "modify-tasks") ∷ []);
  roles = some (("squad-agent", role (some (entry (some "modify-tasks") none ∷ []))) ∷ []);
}
