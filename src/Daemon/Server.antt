-- ===== src/Daemon/Server.antt =====
-- The requests of OrchestratorDaemon, .agent/scripts/orchestration/daemon/server.py. Every handler
-- runs to its end in the event loop before another one starts: the awaits in them are the writes
-- of the response. The clock, the matrix file and the prompt fragments are what the world shows.
pub mod Runs
pub mod Draining
pub mod Authority
pub mod Exclusion
mod Samples
use Prim.Native.String.{[] as empty_text, ◌++◌ as append_text}
use go_agent_llm_orchestrato.Prelude.{
  ℕ, String, ◌==◌, Bool, true, false, not, ◌&&◌, ◌||◌, Option, none, some, is_some, or_default,
  List, [], ◌∷◌, ◌++◌, Dict, lookup, insert, remove, keys, contains, if◌then◌else◌,
}
use go_agent_llm_orchestrato.Capability.{Loaded}
use go_agent_llm_orchestrato.Daemon.Db.{
  Lock, StateDict, LoadedTask, TraceDict, Db, acquire_lock, release_lock, save_task, load_task,
  save_trace,
}
use go_agent_llm_orchestrato.Daemon.Gate.{Decision, allowed, denied, check_capability}
use go_agent_llm_orchestrato.Daemon.State.{
  caller_of, BusEvent, DaemonState, Request, Response, Server, World, already_executing, attached,
  capability_denial, capability_denied, daemon_status, daemon_stop, distilled, draining, graph,
  inject, is_blank, lock_name, lock_ttl, locked, missing, not_found, planning_state, started,
  state_draining, state_running, stop_acknowledged, stop_again, task_status, unknown_action,
}

-- ACTION_CAPABILITY_MAP
unfoldable pub capability_of : String → Option String
capability_of action =
    if action == "run_task"
    then some "modify-tasks"
    else if action == "stop"
    then some "stop-daemon"
    else if action == "trigger_distill"
    then some "trigger-distill"
    else none

unfoldable pub remove_one : String → List String → List String
remove_one id [] = []
remove_one id (x ∷ xs) = if x == id then xs else x ∷ remove_one id xs

-- The engine returned a state and a trace, or raised; a trace that the database refuses counts as
-- an exception too.
pub data Ending (V : Type 0) : Type 0 where
  returned : (final : StateDict V) (session_id : String) (trace : TraceDict V) → Ending V
  raised : (state : StateDict V) → Ending V

-- The `finally` of `_execute_task_in_background`.
release : {V : Type 0} → String → Server V → Server V
release id s = record s {
  db = record s.db { locks = release_lock lock_name id s.db.locks };
  active_tasks = remove id s.active_tasks;
  executing = remove_one id s.executing;
}

module _ {V : Type 0} (null no_items no_fields : V) where
  schedule : World → String → String → List Lock → Server V → Server V
  schedule w task_id desc locks s = record s {
    db =
        save_task null no_items no_fields task_id
          (planning_state (inject w.knowledge_fragment (inject w.inbox_fragment desc)))
          (record s.db { locks = locks });
    active_tasks = insert task_id tt s.active_tasks;
    executing = s.executing ++ task_id ∷ [];
  }

  unfoldable pub action_run_task :
      World → Option String → Option String → Server V → Server V × Response V
  unfolding schedule
  action_run_task w task_id task s =
      if is_blank task_id || is_blank task
      then (s, missing)
      else if s.shutting_down
      then (s, draining)
      else (let id = or_default task_id "" in
          let (locks, acquired) = acquire_lock w.now lock_name id lock_ttl s.db.locks in
          if acquired then (schedule w id (or_default task "") locks s, started id) else (
            record s { db = record s.db { locks = locks } },
            (if is_some (lookup id s.active_tasks) then already_executing id else locked),
          ))

  status_of : String → Option (LoadedTask V) → Response V
  status_of id none = not_found id
  status_of id (some t) = task_status t

  unfoldable pub action_status : Option String → Server V → Response V
  unfolding status_of
  action_status task_id s =
      if is_blank task_id
      then missing
      else (let id = or_default task_id "" in
          status_of id (load_task null no_items no_fields id s.db))

  -- A client of a task that has ended gets its state and is not subscribed.
  attach_to : String → Option (LoadedTask V) → Server V → Server V × Response V
  attach_to id none s = (s, not_found id)
  attach_to id (some t) s =
      if t.status == "completed" || t.status == "failed"
      then (s, attached t)
      else (record s { subscribers = s.subscribers ++ id ∷ [] }, attached t)

  unfoldable pub action_attach : Option String → Server V → Server V × Response V
  unfolding attach_to
  action_attach task_id s =
      if is_blank task_id
      then (s, missing)
      else (let id = or_default task_id "" in
          attach_to id (load_task null no_items no_fields id s.db) s)

  unfoldable pub action_daemon_status : Server V → Response V
  action_daemon_status s =
      daemon_status (if s.shutting_down then state_draining else state_running)
        (keys s.active_tasks)

  unfoldable pub action_stop : String → Server V → Server V × Response V
  action_stop reason s = if s.shutting_down then (s, stop_again reason) else (
    record s { shutting_down = true; bus = s.bus ++ daemon_stop reason (keys s.active_tasks) ∷ [] },
    stop_acknowledged reason,
  )

  dispatch : World → String → Request → Server V → Server V × Response V
  dispatch w action q s =
      if action == "run_task"
      then action_run_task w q.task_id q.task s
      else if action == "status"
      then (s, action_status q.task_id s)
      else if action == "scan_graph"
      then (s, graph)
      else if action == "daemon_status"
      then (s, action_daemon_status s)
      else if action == "stop"
      then action_stop (or_default q.reason "no reason provided") s
      else if action == "trigger_distill"
      then (s, distilled (w.squeeze_ok && w.distill_ok))
      else if action == "attach"
      then action_attach q.task_id s
      else (s, unknown_action)

  guarded :
      Option String
      → Decision
      → String
      → Option String
      → String
      → Server V
      → Server V × Response V
      → Server V × Response V
  guarded none d action role scope s next = next
  guarded (some cap) allowed action role scope s next = next
  guarded (some cap) (denied reason) action role scope s next = (
    record s { bus = s.bus ++ capability_denied action role cap scope ∷ [] },
    capability_denial role cap scope reason,
  )

  -- The gate stands before the dispatch, for the actions of the map.
  unfoldable pub handle_client : World → Request → Server V → Server V × Response V
  unfolding dispatch guarded
  handle_client w q s =
      let action = or_default q.action "" in
      let caller = caller_of q.caller_role in
      let scope = or_default q.scope "global" in
      let cap = capability_of action in
      guarded cap (check_capability w.matrix caller (or_default cap "") scope) action caller scope s
        (dispatch w action q s)

  saved_trace : String → StateDict V → Option (Db V) → Db V → Db V
  saved_trace id final none db =
      save_task null no_items no_fields id (record final { status = some "failed" }) db
  saved_trace id final (some db') db = db'

  unfoldable pub end_execution : String → Ending V → Server V → Server V
  unfolding remove_one release saved_trace
  end_execution id (returned final session_id trace) s =
      let db = save_task null no_items no_fields id final s.db in
      release id (record s {
        db = saved_trace id final (save_trace null no_items no_fields session_id id trace db) db;
      })
  end_execution id (raised state) s = release id (record s {
    db = save_task null no_items no_fields id (record state { status = some "failed" }) s.db;
  })
