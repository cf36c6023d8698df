-- ===== src/Daemon/State.antt =====
-- The state, the requests and the responses of OrchestratorDaemon,
-- .agent/scripts/orchestration/daemon/server.py.
use Prim.Native.String.{[] as empty_text, ◌++◌ as append_text}
use go_agent_llm_orchestrato.Prelude.{
  ℕ, String, ◌==◌, Bool, true, Option, none, some, List, Dict, if◌then◌else◌,
}
use go_agent_llm_orchestrato.Capability.{Loaded}
use go_agent_llm_orchestrato.Daemon.Db.{StateDict, LoadedTask, Db}

pub record World : Type 0 where
  pub now : ℕ
  pub matrix : Loaded
  pub inbox_fragment : String
  pub knowledge_fragment : String
  pub squeeze_ok : Bool
  pub distill_ok : Bool

-- Events that are appended to the files of the bus.
pub data BusEvent : Type 0 where
  capability_denied :
      (action : String) → (role : Option String) → (capability scope : String) → BusEvent
  daemon_stop : (reason : String) (active_tasks : List String) → BusEvent

-- `executing`: the background executions that have not ended, by task id. `active_tasks` has one
-- entry for each id. `subscribers`: the task ids of the attached clients.
pub record Server (V : Type 0) : Type 0 where
  pub db : Db V
  pub active_tasks : Dict (Unit {0})
  pub executing : List String
  pub subscribers : List String
  pub shutting_down : Bool
  pub bus : List BusEvent

pub data DaemonState : Type 0 where
  state_running state_draining : DaemonState

pub data Response (V : Type 0) : Type 0 where
  missing draining locked unknown_action graph : Response V
  not_found : (task_id : String) → Response V
  already_executing started : (task_id : String) → Response V
  task_status attached : LoadedTask V → Response V
  daemon_status : DaemonState → List String → Response V
  stop_again stop_acknowledged : (reason : String) → Response V
  distilled : (complete : Bool) → Response V
  capability_denial : (role : Option String) → (capability scope reason : String) → Response V

-- The key caller_role of a request: absent, null, or a text.
pub data CallerRole : Type 0 where
  unnamed null_role : CallerRole
  named_role : String → CallerRole

-- request.get("caller_role", "human"); `none` is None
abbrev pub caller_of : CallerRole → Option String
caller_of unnamed = some "human"
caller_of null_role = none
caller_of (named_role s) = some s

-- A decoded request. Another absent or null text is `none`.
pub record Request : Type 0 where
  pub action : Option String
  pub task_id : Option String
  pub task : Option String
  pub caller_role : CallerRole
  pub scope : Option String
  pub reason : Option String

-- `not x` of an optional text
abbrev pub is_blank : Option String → Bool
is_blank none = true
is_blank (some s) = s == empty_text

abbrev pub lock_name : String
lock_name = "workspace"

abbrev pub lock_ttl : ℕ
lock_ttl = 1800

-- `if fragment: task_desc = f"{fragment}\n\n---\n\n{task_desc}"`
abbrev pub inject : String → String → String
inject fragment desc =
    if fragment == empty_text then desc else append_text fragment (append_text "\n\n---\n\n" desc)

-- `TaskState(issue_description=…, status="planning")`
abbrev pub planning_state : {V : Type 0} → String → StateDict V
planning_state desc = record {
  issue_description = some desc;
  adr_document = none;
  subtasks = none;
  current_files = none;
  git_diff = none;
  test_results = none;
  trace_path = none;
  active_node = none;
  status = some "planning";
}
