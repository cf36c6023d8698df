-- ===== src/Daemon/Gate.antt =====
-- The capability check of the daemon's socket, `_check_capability` in
-- .agent/scripts/orchestration/daemon/server.py. It takes the name of a capability, where `check`
-- of capability_check.py takes an operation, and it lets everything pass if no matrix loads.
use text.Mathlib.Text.{starts_with}
use Prim.Native.String.{[] as empty_text}
use go_agent_llm_orchestrato.Prelude.{
  String, ◌==◌, ◌≡◌, refl, Bool, true, false, ◌&&◌, ◌||◌, Option, none, some, or_default, List, [],
  ◌∷◌, Dict, lookup, arith, if◌then◌else◌,
}
use go_agent_llm_orchestrato.Prelude.Text.{ends_with, drop_last}
use go_agent_llm_orchestrato.Capability.{
  CapEntry, junk, entry, RoleData, blank, role, Matrix, Loaded, loaded, refused, names_cap,
  scope_matches, any_entry, check_role, check_cap, check, capabilities_of, target_of,
}

pub data Decision : Type 0 where
  allowed : Decision
  denied : (reason : String) → Decision

abbrev pub is_allowed : Decision → Bool
is_allowed allowed = true
is_allowed (denied reason) = false

-- The scope test, written out again in the daemon.
abbrev scope_passes : String → String → Bool
scope_passes cap_scope target =
    cap_scope == "global"
    || cap_scope == target
    || (ends_with cap_scope ":*" && starts_with target (drop_last cap_scope))

unfoldable pub passes : List CapEntry → String → String → Bool
passes [] name target = false
passes (junk ∷ caps) name target = passes caps name target
passes (entry cap scope ∷ caps) name target =
    let rest = passes caps name target in
    if names_cap cap name
    then (if scope_passes (or_default scope "global") target then true else rest)
    else rest

unfoldable pub decide_role : Option RoleData → String → String → Decision
unfolding passes
decide_role none name target = denied "unknown role"
decide_role (some blank) name target = denied "unknown role"
decide_role (some (role caps)) name target =
    if passes (capabilities_of caps) name target
    then allowed
    else denied "not in role's capability list"

-- roles.get(role); `none` is None, which is no role.
abbrev pub role_named : Option String → Dict RoleData → Option RoleData
role_named none roles = none
role_named (some role_name) roles = lookup role_name roles

unfoldable pub check_capability : Loaded → Option String → String → String → Decision
unfolding decide_role
check_capability (refused e) role_name name scope = allowed
check_capability (loaded m) role_name name scope =
    decide_role (role_named role_name (or_default m.roles [])) name (target_of (some scope))

scope_passes_lem : (cap target : String) → scope_passes cap target ≡ scope_matches cap target
unfolding scope_matches
scope_passes_lem cap target = ground arith

passes-any_entry :
    (caps : List CapEntry) (name target : String)
    → passes caps name target ≡ any_entry caps name target
unfolding passes any_entry
passes-any_entry [] name target = refl
passes-any_entry (junk ∷ caps) name target = passes-any_entry caps name target
passes-any_entry (entry cap scope ∷ caps) name target =
    ground (
      arith,
      passes-any_entry caps name target,
      scope_passes_lem (or_default scope "global") target,
    )

pub decide_role-check_role :
    (r : Option RoleData) (name target : String)
    → is_allowed (decide_role r name target) ≡ check_role r name target
unfolding decide_role check_role
decide_role-check_role none name target = refl
decide_role-check_role (some blank) name target = refl
decide_role-check_role (some (role caps)) name target =
    ground (arith, passes-any_entry (capabilities_of caps) name target)

-- With a matrix, the daemon's check on the capability that an operation stands for decides as
-- `check` does on the operation, for every role and scope.
pub check_capability-check :
    (m : Matrix) (role_name operation name scope : String)
    → lookup operation (or_default m.operations []) ≡ some name
    → (name == empty_text) ≡ false
    → is_allowed (check_capability (loaded m) (some role_name) name scope)
      ≡ check m role_name operation (some scope)
unfolding check_capability check check_cap
check_capability-check m role_name operation name scope e n =
    rw (e, n)
      (decide_role-check_role (lookup role_name (or_default m.roles [])) name
        (target_of (some scope)))
