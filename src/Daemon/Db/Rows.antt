-- ===== src/Daemon/Db/Rows.antt =====
-- Tasks and traces: what is saved is loaded, and what a save deletes.
use go_agent_llm_orchestrato.Prelude.{
  String, ◌==◌, ◌≡◌, ◌≢◌, true, false, some, is_some, or_default, [], ◌∷◌, Dict, lookup,
  lookup-insert, arith, eq_iff, if◌then◌else◌, Bool-cases, inl, inr,
}
use go_agent_llm_orchestrato.Daemon.Db.{
  StateDict, LoadedTask, Trace, Db, without_task, save_task, load_task,
}

module _ {V : Type 0} (null no_items no_fields : V) where
  -- The state with the defaults of its missing keys.
  abbrev pub with_defaults : StateDict V → LoadedTask V
  with_defaults d = record {
    issue_description = or_default d.issue_description "";
    adr_document = d.adr_document;
    subtasks = or_default d.subtasks no_items;
    current_files = or_default d.current_files no_fields;
    git_diff = d.git_diff;
    test_results = or_default d.test_results null;
    trace_path = or_default d.trace_path no_items;
    active_node = or_default d.active_node "cto";
    status = or_default d.status "planning";
  }

  -- After a task is saved it loads as the state that was saved, with the defaults of its missing
  -- keys, and every other task loads as before.
  pub load_task-save_task :
      (task_id j : String) (d : StateDict V) (db : Db V)
      → load_task null no_items no_fields j (save_task null no_items no_fields task_id d db)
        ≡ (if task_id == j then some (with_defaults d) else load_task null no_items no_fields j db)
  unfolding load_task save_task
  load_task-save_task task_id j d db = elim (Bool-cases (task_id == j)) [
    | inl e ↦ rw lookup-insert (rw e)
    | inr n ↦ rw lookup-insert (rw n)
  ]

module _ {V : Type 0} where
  without_task_ne :
      (null no_items no_fields : V) (task_id s : String) (traces : Dict (Trace V)) (t : Trace V)
      → lookup s (without_task null no_items no_fields task_id traces) ≡ some t
      → (t.task_id == task_id) ≡ false
  unfolding without_task lookup
  without_task_ne null no_items no_fields task_id s [] t h = cc
  without_task_ne null no_items no_fields task_id s ((k, u) ∷ traces) t h =
      ground (arith, without_task_ne null no_items no_fields task_id s traces t)

  -- Saving a task that is already there deletes all of its traces: the replaced row takes the rows
  -- that refer to it along.
  pub save_task-drops_traces :
      (null no_items no_fields : V) (task_id s : String) (d : StateDict V) (db : Db V) (t : Trace V)
      → is_some (lookup task_id db.tasks) ≡ true
      → lookup s (save_task null no_items no_fields task_id d db).traces ≡ some t
      → t.task_id ≢ task_id
  unfolding save_task
  save_task-drops_traces null no_items no_fields task_id s d db t old h =
      let e : lookup s (without_task null no_items no_fields task_id db.traces) ≡ some t =
        ground arith in
      λ same. ground (
        arith,
        without_task_ne null no_items no_fields task_id s db.traces t e,
        eq_iff t.task_id task_id,
      )
