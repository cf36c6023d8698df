-- ===== src/Capability.antt =====
-- The default-deny permission gate, .agent/scripts/permissions/capability_check.py.
pub mod Scope
pub mod Grants
mod Samples
use Prim.Native.String.{[] as empty_text}
use go_agent_llm_orchestrato.Prelude.{
  String, ◌==◌, Bool, true, false, ◌&&◌, Option, none, some, is_some, or_default, List, [], ◌∷◌,
  any, Dict, lookup, contains, if◌then◌else◌,
}
use go_agent_llm_orchestrato.Prelude.Text.{ends_with, drop_last}
use text.Mathlib.Text.{starts_with}

-- One item of a role's `capabilities` list. YAML may hold anything there: what is no mapping is
-- `junk`. A mapping may lack either key.
pub data CapEntry : Type 0 where
  junk : CapEntry
  entry : (cap scope : Option String) → CapEntry

-- What `roles[role]` holds: nothing or an empty mapping, or a mapping that may lack `capabilities`.
pub data RoleData : Type 0 where
  blank : RoleData
  role : (capabilities : Option (List CapEntry)) → RoleData

-- The loaded YAML: `version`, and the two tables if they are there.
pub record Matrix : Type 0 where
  pub version : Option String
  pub operations : Option (Dict String)
  pub roles : Option (Dict RoleData)

pub data LoadError : Type 0 where
  not_found not_mapping unsupported_version missing_tables : LoadError

pub data Loaded : Type 0 where
  loaded : Matrix → Loaded
  refused : LoadError → Loaded

-- What stands at the path: no file, a YAML value that is no mapping, or a mapping.
pub data MatrixFile : Type 0 where
  absent scalar : MatrixFile
  mapping : Matrix → MatrixFile

abbrev pub supported_versions : List String
supported_versions = "1.0.0" ∷ []

abbrev version_supported : Option String → Bool
version_supported none = false
version_supported (some v) = contains supported_versions v

abbrev has_tables : Matrix → Bool
has_tables m = is_some m.roles && is_some m.operations

unfoldable pub load_matrix : MatrixFile → Loaded
load_matrix absent = refused not_found
load_matrix scalar = refused not_mapping
load_matrix (mapping m) =
    if version_supported m.version
    then (if has_tables m then loaded m else refused missing_tables)
    else refused unsupported_version

unfoldable pub scope_matches : String → String → Bool
scope_matches cap_scope target_scope =
    if cap_scope == "global"
    then true
    else if cap_scope == target_scope
    then true
    else if ends_with cap_scope ":*"
    then starts_with target_scope (drop_last cap_scope)
    else false

-- `scope or "global"`
abbrev pub target_of : Option String → String
target_of none = "global"
target_of (some s) = if s == empty_text then "global" else s

-- `cap_entry.get("cap") != cap_name` is false
abbrev pub names_cap : Option String → String → Bool
names_cap none name = false
names_cap (some c) name = c == name

-- The loop of `check`: an entry that is no mapping or names another capability is skipped.
unfoldable pub any_entry : List CapEntry → String → String → Bool
unfolding scope_matches
any_entry [] cap_name target = false
any_entry (junk ∷ caps) cap_name target = any_entry caps cap_name target
any_entry (entry cap scope ∷ caps) cap_name target =
    let rest = any_entry caps cap_name target in
    if names_cap cap cap_name
    then (if scope_matches (or_default scope "global") target then true else rest)
    else rest

abbrev pub capabilities_of : Option (List CapEntry) → List CapEntry
capabilities_of o = or_default o []

unfoldable pub check_role : Option RoleData → String → String → Bool
unfolding any_entry
check_role none cap_name target = false
check_role (some blank) cap_name target = false
check_role (some (role caps)) cap_name target = any_entry (capabilities_of caps) cap_name target

-- A missing or empty capability name is falsy: deny.
unfoldable pub check_cap : Option String → Option RoleData → String → Bool
unfolding check_role
check_cap none r target = false
check_cap (some name) r target = if name == empty_text then false else check_role r name target

unfoldable pub check : Matrix → String → String → Option String → Bool
unfolding check_cap
check m role_name operation scope =
    check_cap (lookup operation (or_default m.operations []))
      (lookup role_name (or_default m.roles [])) (target_of scope)
