-- ===== src/Daemon/Db.antt =====
-- The tables of DaemonDB, .agent/scripts/orchestration/daemon/db.py, with the meaning that SQLite
-- gives the statements: a primary key refuses a second INSERT, and INSERT OR REPLACE deletes the
-- old row first, which under PRAGMA foreign_keys=ON deletes the traces that refer to it.
pub mod Locks
pub mod Rows
mod Samples
use go_agent_llm_orchestrato.Prelude.{
  ℕ, ◌+◌, String, ◌==◌, Bool, true, false, not, ◌&&◌, Option, none, some, is_some, or_default, List,
  [], ◌∷◌, ◌++◌, Dict, lookup, insert, any, select, ltb, if◌then◌else◌,
}

-- A row of `locks`. Times are whole numbers of one unit: they are only added and compared.
pub record Lock : Type 0 where
  pub name : String
  pub holder : String
  pub expires_at : ℕ

abbrev pub unexpired : ℕ → Lock → Bool
unexpired now l = not (ltb l.expires_at now)

abbrev pub named : String → Lock → Bool
named name l = l.name == name

-- The expired rows go first, and stay gone also where the INSERT fails.
unfoldable pub acquire_lock : ℕ → String → String → ℕ → List Lock → List Lock × Bool
acquire_lock now name holder ttl_seconds locks =
    let live = select (unexpired now) locks in
    if any (named name) live then (live, false) else (
      live ++ record { name = name; holder = holder; expires_at = now + ttl_seconds } ∷ [],
      true,
    )

abbrev pub held_by : String → String → Lock → Bool
held_by name holder l = l.name == name && l.holder == holder

unfoldable pub release_lock : String → String → List Lock → List Lock
release_lock name holder locks = select (λ l. not (held_by name holder l)) locks

-- A text that `json.dumps` has written, and `json.loads`, for the JSON values `V`.
pub data JsonText (V : Type 0) : Type 0 where
  dumps : V → JsonText V

abbrev pub loads : {V : Type 0} → JsonText V → V
loads (dumps v) = v

-- What `state_dict` holds; each key may be missing.
pub record StateDict (V : Type 0) : Type 0 where
  pub issue_description : Option String
  pub adr_document : Option String
  pub subtasks : Option V
  pub current_files : Option V
  pub git_diff : Option String
  pub test_results : Option V
  pub trace_path : Option V
  pub active_node : Option String
  pub status : Option String

-- A row of `tasks`, without its times. NULL is `none`.
pub record TaskRow (V : Type 0) : Type 0 where
  pub issue_description : String
  pub adr_document : Option String
  pub subtasks : Option (JsonText V)
  pub current_files : Option (JsonText V)
  pub git_diff : Option String
  pub test_results : Option (JsonText V)
  pub trace_path : Option (JsonText V)
  pub active_node : String
  pub status : String

-- What `load_task` returns.
pub record LoadedTask (V : Type 0) : Type 0 where
  pub issue_description : String
  pub adr_document : Option String
  pub subtasks : V
  pub current_files : V
  pub git_diff : Option String
  pub test_results : V
  pub trace_path : V
  pub active_node : String
  pub status : String

-- A row of `execution_traces`, without its duration and time.
pub record Trace (V : Type 0) : Type 0 where
  pub task_id : String
  pub traversal_path : JsonText V
  pub llm_calls : JsonText V
  pub verification_attempts : JsonText V
  pub final_status : String

-- What `trace_dict` holds; each key may be missing.
pub record TraceDict (V : Type 0) : Type 0 where
  pub traversal_path : Option V
  pub llm_calls : Option V
  pub verification_attempts : Option V
  pub final_status : Option String

pub record Db (V : Type 0) : Type 0 where
  pub tasks : Dict (TaskRow V)
  pub traces : Dict (Trace V)
  pub locks : List Lock

-- The JSON values `null`, `[]` and `{}`.
module _ {V : Type 0} (null no_items no_fields : V) where
  row_of : StateDict V → TaskRow V
  row_of d = record {
    issue_description = or_default d.issue_description "";
    adr_document = d.adr_document;
    subtasks = some (dumps (or_default d.subtasks no_items));
    current_files = some (dumps (or_default d.current_files no_fields));
    git_diff = d.git_diff;
    test_results = some (dumps (or_default d.test_results null));
    trace_path = some (dumps (or_default d.trace_path no_items));
    active_node = or_default d.active_node "cto";
    status = or_default d.status "planning";
  }

  without_task : String → Dict (Trace V) → Dict (Trace V)
  without_task task_id [] = []
  without_task task_id ((s, t) ∷ traces) =
      let rest = without_task task_id traces in if t.task_id == task_id then rest else (s, t) ∷ rest

  unfoldable pub save_task : String → StateDict V → Db V → Db V
  unfolding row_of without_task
  save_task task_id d db = record db {
    tasks = insert task_id (row_of d) db.tasks;
    traces =
        if is_some (lookup task_id db.tasks) then without_task task_id db.traces else db.traces;
  }

  column : Option (JsonText V) → V → V
  column none v = v
  column (some t) v = loads t

  loaded_of : TaskRow V → LoadedTask V
  loaded_of r = record {
    issue_description = r.issue_description;
    adr_document = r.adr_document;
    subtasks = column r.subtasks no_items;
    current_files = column r.current_files no_fields;
    git_diff = r.git_diff;
    test_results = column r.test_results null;
    trace_path = column r.trace_path no_items;
    active_node = r.active_node;
    status = r.status;
  }

  loaded? : Option (TaskRow V) → Option (LoadedTask V)
  loaded? none = none
  loaded? (some r) = some (loaded_of r)

  unfoldable pub load_task : String → Db V → Option (LoadedTask V)
  unfolding column loaded_of loaded?
  load_task task_id db = loaded? (lookup task_id db.tasks)

  -- `none`: the FOREIGN KEY of a task that is not there raises IntegrityError.
  unfoldable pub save_trace : String → String → TraceDict V → Db V → Option (Db V)
  save_trace session_id task_id t db =
      if is_some (lookup task_id db.tasks)
      then some (record db {
        traces =
            insert session_id
              (record {
                task_id = task_id;
                traversal_path = dumps (or_default t.traversal_path no_items);
                llm_calls = dumps (or_default t.llm_calls no_items);
                verification_attempts = dumps (or_default t.verification_attempts no_items);
                final_status = or_default t.final_status "unknown";
              })
              db.traces;
      })
      else none
