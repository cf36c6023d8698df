-- ===== src/Daemon/Server/Runs.antt =====
-- Sequences of requests and of ends of executions, as the event loop runs them, and the cases of
-- one request.
use go_agent_llm_orchestrato.Prelude.{
  String, ◌==◌, ◌≡◌, refl, true, Option, none, some, or_default, List, [], ◌∷◌, ◌++◌, eq_iff,
  if_cases, if_split, subst,
}
use go_agent_llm_orchestrato.Daemon.Gate.{Decision, allowed, denied, is_allowed, check_capability}
use go_agent_llm_orchestrato.Daemon.Server.{
  capability_of, action_run_task, action_attach, action_stop, dispatch, guarded, handle_client,
  Ending, end_execution,
}
use go_agent_llm_orchestrato.Daemon.State.{
  World, BusEvent, capability_denied, Server, Response, Request, caller_of,
}

pub data Event (V : Type 0) : Type 0 where
  request : World → Request → Event V
  ended : (task_id : String) → Ending V → Event V

module _ {V : Type 0} (null no_items no_fields : V) where
  unfoldable pub apply : Event V → Server V → Server V
  apply (request w q) s = (handle_client null no_items no_fields w q s).0
  apply (ended id e) s = end_execution null no_items no_fields id e s

  unfoldable pub run_events : List (Event V) → Server V → Server V
  unfolding apply
  run_events [] s = s
  run_events (e ∷ es) s = run_events es (apply e s)

-- The gate lets the caller of a request use a capability.
abbrev pub MayUse : World → Request → String → Type 0
MayUse w q cap =
    is_allowed
      (check_capability w.matrix (caller_of q.caller_role) cap (or_default q.scope "global"))
    ≡ true

-- The gate has let an action pass.
abbrev Passed : World → Request → String → Type 0
Passed w q action = (cap : String) → capability_of action ≡ some cap → MayUse w q cap

run_task-MayUse :
    (w : World) (q : Request) (action : String)
    → (action == "run_task") ≡ true
    → Passed w q action
    → MayUse w q "modify-tasks"
unfolding capability_of
run_task-MayUse w q action e pass = pass "modify-tasks" (rw e refl)

stop-MayUse :
    (w : World) (q : Request) (action : String)
    → (action == "stop") ≡ true
    → Passed w q action
    → MayUse w q "stop-daemon"
unfolding capability_of
stop-MayUse w q action e pass = pass "stop-daemon" (rw ((eq_iff action "stop").0 e) refl)

module _ {V : Type 0} (null no_items no_fields : V) (P : Server V → Type 0) where
  abbrev HoldsAfter : Server V × Response V → Type 0
  HoldsAfter r = P r.0

  dispatch-cases :
      (w : World) (action : String) (q : Request) (s : Server V)
      → Passed w q action
      → P s
      → (MayUse w q "modify-tasks"
          → P (action_run_task null no_items no_fields w q.task_id q.task s).0)
      → P (action_attach null no_items no_fields q.task_id s).0
      → (MayUse w q "stop-daemon"
          → (reason : String) → P (action_stop null no_items no_fields reason s).0)
      → P (dispatch null no_items no_fields w action q s).0
  unfolding dispatch
  dispatch-cases w action q s pass same run attach stop =
      if_split HoldsAfter (action == "run_task") _ _ (λ e. run (run_task-MayUse w q action e pass))
        (λ _. if_cases HoldsAfter (action == "status") _ _ same (
          if_cases HoldsAfter (action == "scan_graph") _ _ same (
            if_cases HoldsAfter (action == "daemon_status") _ _ same (
              if_split HoldsAfter (action == "stop") _ _
                (λ e.
                  stop (stop-MayUse w q action e pass) (or_default q.reason "no reason provided"))
                (λ _.
                  if_cases HoldsAfter (action == "trigger_distill") _ _ same
                    (if_cases HoldsAfter (action == "attach") _ _ attach same))))))

  guarded-cases :
      (o : Option String) (d : Decision) (action : String) (caller : Option String) (scope : String)
      (s : Server V) (next : Server V × Response V)
      → (((c : String) → o ≡ some c → is_allowed d ≡ true) → P next.0)
      → ((e : BusEvent) → P (record s { bus = s.bus ++ e ∷ [] }))
      → P (guarded null no_items no_fields o d action caller scope s next).0
  unfolding guarded
  guarded-cases none d action caller scope s next p bus = p (λ c e. cc)
  guarded-cases (some c) allowed action caller scope s next p bus = p (λ c' e. refl)
  guarded-cases (some c) (denied reason) action caller scope s next p bus =
      bus (capability_denied action caller c scope)

  -- What holds after each handler, with what the gate has checked for it, holds after a request.
  pub handle_client-cases :
      (w : World) (q : Request) (s : Server V)
      → P s
      → (MayUse w q "modify-tasks"
          → P (action_run_task null no_items no_fields w q.task_id q.task s).0)
      → P (action_attach null no_items no_fields q.task_id s).0
      → (MayUse w q "stop-daemon"
          → (reason : String) → P (action_stop null no_items no_fields reason s).0)
      → ((e : BusEvent) → P (record s { bus = s.bus ++ e ∷ [] }))
      → P (handle_client null no_items no_fields w q s).0
  unfolding handle_client
  handle_client-cases w q s same run attach stop bus =
      let action = or_default q.action "" in
      guarded-cases (capability_of action) _ action _ _ s _
        (λ ok.
          dispatch-cases w action q s (λ c e. subst (λ o. MayUse w q (or_default o "")) e (ok c e))
            same run attach stop)
        bus
