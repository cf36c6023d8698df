-- ===== src/Daemon/Server/Authority.antt =====
-- Whose requests change what, under a matrix.
use go_agent_llm_orchestrato.Prelude.{
  String, ◌==◌, ◌≡◌, ◌≢◌, refl, ◌⊎◌, inl, inr, true, ◌||◌, Option, none, some, or_default, List, [],
  if_cases, sym, ◌∙◌, Any,
}
use go_agent_llm_orchestrato.Capability.{
  Matrix, loaded, RoleData, role, blank, target_of, check_role, capabilities_of, CapEntry,
}
use go_agent_llm_orchestrato.Capability.Grants.{Grants, any_entry_sound}
use go_agent_llm_orchestrato.Daemon.Db.{acquire_lock, LoadedTask, load_task}
use go_agent_llm_orchestrato.Daemon.Gate.{role_named, check_capability, decide_role-check_role}
use go_agent_llm_orchestrato.Daemon.Server.{
  schedule, action_run_task, attach_to, action_attach, action_stop, handle_client,
}
use go_agent_llm_orchestrato.Daemon.State.{
  lock_name, lock_ttl, World, Server, Response, Request, caller_of, is_blank,
}
use go_agent_llm_orchestrato.Daemon.Server.Runs.{MayUse, handle_client-cases}

-- An entry of the caller's role in the matrix grants a capability on the scope of a request.
pub record IsGranted (m : Matrix) (q : Request) (cap : String) : Type 0 where
  pub caps : Option (List CapEntry)
  pub role_known : role_named (caller_of q.caller_role) (or_default m.roles []) ≡ some (role caps)
  pub granted :
      Any (Grants cap (target_of (some (or_default q.scope "global")))) (capabilities_of caps)

role-IsGranted :
    (m : Matrix) (q : Request) (cap : String) (r : Option RoleData)
    → role_named (caller_of q.caller_role) (or_default m.roles []) ≡ r
    → check_role r cap (target_of (some (or_default q.scope "global"))) ≡ true
    → IsGranted m q cap
unfolding check_role
role-IsGranted m q cap none e h = cc
role-IsGranted m q cap (some blank) e h = cc
role-IsGranted m q cap (some (role caps)) e h = record {
  caps = caps;
  role_known = e;
  granted = any_entry_sound (capabilities_of caps) _ _ h;
}

MayUse-IsGranted :
    (w : World) (m : Matrix) (q : Request) (cap : String)
    → w.matrix ≡ loaded m
    → MayUse w q cap
    → IsGranted m q cap
unfolding check_capability
MayUse-IsGranted w m q cap e h = role-IsGranted m q cap _ refl (
    sym (
      decide_role-check_role (role_named (caller_of q.caller_role) (or_default m.roles [])) cap
        (target_of (some (or_default q.scope "global"))))
    ∙ (rw e at h))

module _ {V : Type 0} (null no_items no_fields : V) where
  -- What a request may change, as far as its caller is granted it.
  abbrev pub IsAuthorised : Matrix → Request → Server V → Server V → Type 0
  IsAuthorised m q s t =
      ((t.executing ≢ s.executing) ⊎ (t.db ≢ s.db) → IsGranted m q "modify-tasks")
      × (t.shutting_down ≢ s.shutting_down → IsGranted m q "stop-daemon")

  unchanged : (m : Matrix) (q : Request) (s : Server V) → IsAuthorised m q s s
  unchanged m q s =
      (λ h. elim h [ inl h ↦ absurd (h refl) | inr h ↦ absurd (h refl) ], λ h. absurd (h refl))

  action_run_task-shutting_down :
      (w : World) (o t : Option String) (s : Server V)
      → (action_run_task null no_items no_fields w o t s).0.shutting_down ≡ s.shutting_down
  unfolding action_run_task schedule
  action_run_task-shutting_down w o t s =
      let P : Server V × Response V → Type 0 = λ r. r.0.shutting_down ≡ s.shutting_down in
      if_cases P (is_blank o || is_blank t) _ _ refl (
        if_cases P s.shutting_down _ _ refl (
          if_cases P (acquire_lock w.now lock_name (or_default o "") lock_ttl s.db.locks).1 _ _ refl
            refl))

  action_attach-IsAuthorised :
      (m : Matrix) (q : Request) (s : Server V)
      → IsAuthorised m q s (action_attach null no_items no_fields q.task_id s).0
  unfolding action_attach
  action_attach-IsAuthorised m q s =
      if_cases (λ (r : Server V × Response V). IsAuthorised m q s r.0) (is_blank q.task_id) _ _
        (unchanged m q s)
        (attached_part (or_default q.task_id "")
          (load_task null no_items no_fields (or_default q.task_id "") s.db))
    where
      attached_part :
          (id : String) (t : Option (LoadedTask V))
          → IsAuthorised m q s (attach_to null no_items no_fields id t s).0
      attached_part id none = unchanged m q s
      attached_part id (some t) =
          if_cases (λ (r : Server V × Response V). IsAuthorised m q s r.0)
            (t.status == "completed" || t.status == "failed") _ _ (unchanged m q s)
            (unchanged m q s)

  action_stop-IsAuthorised :
      (m : Matrix) (q : Request) (reason : String) (s : Server V)
      → IsGranted m q "stop-daemon"
      → IsAuthorised m q s (action_stop null no_items no_fields reason s).0
  unfolding action_stop
  action_stop-IsAuthorised m q reason s g =
      if_cases (λ (r : Server V × Response V). IsAuthorised m q s r.0) s.shutting_down _ _
        ((unchanged m q s).0, λ _. g) ((unchanged m q s).0, λ _. g)

  -- With a matrix, a request that changes the database or what executes comes from a caller whose
  -- role is granted `modify-tasks` on the request's scope, and one that changes whether the daemon
  -- drains from a caller whose role is granted `stop-daemon` on it.
  pub handle_client-IsAuthorised :
      (m : Matrix) (w : World) (q : Request) (s : Server V)
      → w.matrix ≡ loaded m
      → IsAuthorised m q s (handle_client null no_items no_fields w q s).0
  handle_client-IsAuthorised m w q s e =
      handle_client-cases null no_items no_fields (IsAuthorised m q s) w q s (unchanged m q s)
        (λ may. (
          λ _. MayUse-IsGranted w m q "modify-tasks" e may,
          λ h. absurd (h (action_run_task-shutting_down w q.task_id q.task s)),
        ))
        (action_attach-IsAuthorised m q s)
        (λ may reason.
          action_stop-IsAuthorised m q reason s (MayUse-IsGranted w m q "stop-daemon" e may))
        (λ _. unchanged m q s)
