-- ===== src/Daemon/Server/Exclusion.antt =====
-- The workspace lock as action_run_task takes it and the end of an execution releases it.
use go_agent_llm_orchestrato.Prelude.{
  ℕ, ◌≤◌, String, ◌≡◌, ◌≢◌, refl, Bool, true, false, some, is_some, List, [], ◌∷◌, ◌++◌, any,
  select, lookup, length, arith,
}
use go_agent_llm_orchestrato.Daemon.Db.{Lock, unexpired, named, Db, acquire_lock}
use go_agent_llm_orchestrato.Daemon.Db.Locks.{IsHeld}
use go_agent_llm_orchestrato.Daemon.Server.{schedule, action_run_task}
use go_agent_llm_orchestrato.Daemon.State.{lock_name, lock_ttl, World, Server, started, is_blank}
use go_agent_llm_orchestrato.Daemon.Server.Runs.{Event, request, ended}

-- The clock of a request is not past `until`, and what ends is not the task.
abbrev pub Undisturbed : {V : Type 0} → String → ℕ → Event V → Type 0
Undisturbed task_id until (request w q) = w.now ≤ until
Undisturbed task_id until (ended id e) = id ≢ task_id

module _ {V : Type 0} (null no_items no_fields : V) (task_id : String) (until : ℕ) where
  -- The task holds the lock, and no more tasks execute than in `s`.
  abbrev Excludes : Server V → Server V → Type 0
  Excludes s t =
      IsHeld lock_name task_id until t.db.locks × (length t.executing ≤ length s.executing)

module _ {V : Type 0} (null no_items no_fields : V) where
  any-select :
      (p : Lock → Bool) (q : Lock → Bool) (locks : List Lock)
      → any p locks ≡ false
      → any q (select p locks) ≡ false
  any-select p q [] h = refl
  any-select p q (l ∷ locks) h = ground (arith, any-select p q locks)

  expired_acquires :
      (now : ℕ) (id : String) (locks : List Lock)
      → any (unexpired now) locks ≡ false
      → (acquire_lock now lock_name id lock_ttl locks).1 ≡ true
  unfolding acquire_lock
  expired_acquires now id locks h = rw (any-select (unexpired now) (named lock_name) locks h) refl

  -- After the lock has expired, a second request for a task that still executes is not answered as
  -- already executing: the task starts once more beside itself.
  pub expired_starts_twice :
      (w : World) (id desc : String) (s : Server V)
      → is_blank (some id) ≡ false
      → is_blank (some desc) ≡ false
      → s.shutting_down ≡ false
      → is_some (lookup id s.active_tasks) ≡ true
      → any (unexpired w.now) s.db.locks ≡ false
      → ((action_run_task null no_items no_fields w (some id) (some desc) s).1 ≡ started id)
        × ((action_run_task null no_items no_fields w (some id) (some desc) s).0.executing
            ≡ s.executing ++ id ∷ [])
  unfolding action_run_task schedule
  expired_starts_twice w id desc s i d n a x =
      rw (i, d, n, expired_acquires w.now id s.db.locks x) (refl, refl)
