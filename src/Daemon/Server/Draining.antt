-- ===== src/Daemon/Server/Draining.antt =====
-- What `shutting_down` promises to the client that got the acknowledgement of a stop.
use go_agent_llm_orchestrato.Prelude.{
  String, ◌==◌, ◌≡◌, refl, inl, inr, true, ◌||◌, Option, none, some, or_default, List, [], ◌∷◌,
  contains, arith, length, ◌≤◌, Bool-cases,
}
use go_agent_llm_orchestrato.Daemon.Db.{LoadedTask, load_task}
use go_agent_llm_orchestrato.Daemon.Server.{
  action_run_task, attach_to, action_attach, action_stop, remove_one, release, returned, raised,
  end_execution,
}
use go_agent_llm_orchestrato.Daemon.State.{World, Server, is_blank}
use go_agent_llm_orchestrato.Daemon.Server.Runs.{
  Event, request, ended, apply, run_events, handle_client-cases,
}

module _ {V : Type 0} where
  -- Nothing executes in `t` that does not execute in `s`, and `t` drains.
  abbrev pub IsDrainOf : Server V → Server V → Type 0
  IsDrainOf s t =
      (t.shutting_down ≡ true)
      × (length t.executing ≤ length s.executing)
      × ((id : String) → contains t.executing id ≡ true → contains s.executing id ≡ true)

contains-remove_one :
    (id j : String) (xs : List String) → contains (remove_one id xs) j ≡ true → contains xs j ≡ true
unfolding remove_one
contains-remove_one id j [] h = h
contains-remove_one id j (x ∷ xs) h = ground (arith, contains-remove_one id j xs)

pub length-remove_one : (id : String) (xs : List String) → length (remove_one id xs) ≤ length xs
unfolding remove_one
length-remove_one id [] = omega arith
length-remove_one id (x ∷ xs) = ground (arith, length-remove_one id xs)

module _ {V : Type 0} (null no_items no_fields : V) where
  attach_to-IsDrainOf :
      (id : String) (t : Option (LoadedTask V)) (s : Server V)
      → s.shutting_down ≡ true
      → IsDrainOf s (attach_to null no_items no_fields id t s).0
  unfolding attach_to
  attach_to-IsDrainOf id none s h = (h, omega arith, λ j k. k)
  attach_to-IsDrainOf id (some t) s h =
      elim (Bool-cases (t.status == "completed" || t.status == "failed")) [
        | inl e ↦ rw e (h, omega arith, λ j k. k)
        | inr e ↦ rw e (h, omega arith, λ j k. k)
      ]

  action_attach-IsDrainOf :
      (o : Option String) (s : Server V)
      → s.shutting_down ≡ true
      → IsDrainOf s (action_attach null no_items no_fields o s).0
  unfolding action_attach
  action_attach-IsDrainOf o s h = elim (Bool-cases (is_blank o)) [
    | inl e ↦ rw e (h, omega arith, λ j k. k)
    | inr e ↦ rw e (
        attach_to-IsDrainOf (or_default o "")
          (load_task null no_items no_fields (or_default o "") s.db) s h)
  ]

  action_run_task-draining :
      (w : World) (o t : Option String) (s : Server V)
      → s.shutting_down ≡ true
      → (action_run_task null no_items no_fields w o t s).0 ≡ s
  unfolding action_run_task
  action_run_task-draining w o t s h = elim (Bool-cases (is_blank o || is_blank t)) [
    | inl e ↦ rw e refl
    | inr e ↦ rw (e, h) refl
  ]

module _ {V : Type 0} (null no_items no_fields : V) where
  action_stop-IsDrainOf :
      (reason : String) (s : Server V)
      → s.shutting_down ≡ true
      → IsDrainOf s (action_stop null no_items no_fields reason s).0
  unfolding action_stop
  action_stop-IsDrainOf reason s h = rw h (refl, omega arith, λ j k. k)

  apply-IsDrainOf :
      (e : Event V) (s : Server V)
      → s.shutting_down ≡ true
      → IsDrainOf s (apply null no_items no_fields e s)
  unfolding apply end_execution release
  apply-IsDrainOf (request w q) s h =
      handle_client-cases null no_items no_fields (IsDrainOf s) w q s (h, omega arith, λ j k. k)
        (λ _.
          rw (action_run_task-draining null no_items no_fields w q.task_id q.task s h)
            (h, omega arith, λ j k. k))
        (action_attach-IsDrainOf null no_items no_fields q.task_id s h)
        (λ _ reason. action_stop-IsDrainOf reason s h) (λ e. (h, omega arith, λ j k. k))
  apply-IsDrainOf (ended id (returned final session_id trace)) s h =
      (h, length-remove_one id s.executing, λ j. contains-remove_one id j s.executing)
  apply-IsDrainOf (ended id (raised state)) s h =
      (h, length-remove_one id s.executing, λ j. contains-remove_one id j s.executing)

  -- Once the daemon drains it drains for ever, and no sequence of requests and of ends of
  -- executions starts a task: at most as many tasks execute at the end as at the beginning, and each
  -- of them executed at the beginning.
  pub run_events-IsDrainOf :
      (es : List (Event V)) (s : Server V)
      → s.shutting_down ≡ true
      → IsDrainOf s (run_events null no_items no_fields es s)
  unfolding run_events
  run_events-IsDrainOf [] s h = (h, omega arith, λ j k. k)
  run_events-IsDrainOf (e ∷ es) s h =
      let first = apply-IsDrainOf e s h in
      let rest = run_events-IsDrainOf es (apply null no_items no_fields e s) first.0 in
      (rest.0, omega (arith, rest.1, first.1), λ j k. first.2 j (rest.2 j k))
