-- ===== src/Harness/Manifest.antt =====
-- The manifest of harnesses: `_validate_entry`, `load_manifest` and `get_manifest_entry` in
-- .agent/scripts/harness/harness_run.py. The YAML parser's result is the input.
pub mod Validation
use go_agent_llm_orchestrato.Prelude.{
  is_nil, ℕ, String, ◌==◌, ◌≡◌, refl, ◌⊎◌, inl, inr, Bool, true, false, not, ◌&&◌, ◌||◌, Option,
  none, some, is_some, or_default, List, [], ◌∷◌, ◌++◌, map, All, contains, arith, eq_iff,
  if◌then◌else◌, Bool-cases, subst, sym, ◌≢◌,
}

-- The mapping below `sandbox`. `filesystem_write`: the truth of `filesystem.write`, for a
-- `filesystem` that is there. `as_mb`, `fsize_mb`: below `rlimits`; a missing `rlimits` has neither.
pub record Sandbox : Type 0 where
  pub required : Option Bool
  pub network : Option String
  pub filesystem_write : Option Bool
  pub env_passthrough : Option (List String)
  pub timeout_s : Option ℕ
  pub as_mb : Option ℕ
  pub fsize_mb : Option ℕ
  pub other_keys : Bool

-- An entry of `harnesses`: every key may be missing. A `sandbox` that is null is `some none`.
pub record Entry : Type 0 where
  pub name : Option String
  pub binary : Option String
  pub description : Option String
  pub capabilities_required : Option (List String)
  pub capabilities_granted : Option (List String)
  pub sandbox : Option (Option Sandbox)
  pub args : Option (List String)
  pub model_default : Option String

pub data EntryError : Type 0 where
  missing_keys missing_sandbox_keys : List String → EntryError
  sandbox_not_required no_capabilities : EntryError

-- A key of a table that is not there.
abbrev pub absent_of : List (String × Bool) → List String
absent_of [] = []
absent_of ((k, present) ∷ keys) = let rest = absent_of keys in if present then rest else k ∷ rest

-- The keys of REQUIRED_MANIFEST_KEYS, sorted, with their presence.
abbrev pub key_table : Entry → List (String × Bool)
key_table e =
    ("args", is_some e.args)
    ∷ ("binary", is_some e.binary)
    ∷ ("capabilities_granted", is_some e.capabilities_granted)
    ∷ ("capabilities_required", is_some e.capabilities_required)
    ∷ ("description", is_some e.description)
    ∷ ("name", is_some e.name)
    ∷ ("sandbox", is_some e.sandbox)
    ∷ []

-- REQUIRED_MANIFEST_KEYS - set(entry.keys()), sorted
unfoldable pub missing_of : Entry → List String
missing_of e = absent_of (key_table e)

-- REQUIRED_SANDBOX_KEYS - set(entry["sandbox"].keys()), sorted
unfoldable pub sandbox_missing_of : Sandbox → List String
sandbox_missing_of b = absent_of (
    ("env_passthrough", is_some b.env_passthrough)
    ∷ ("filesystem", is_some b.filesystem_write)
    ∷ ("network", is_some b.network)
    ∷ ("required", is_some b.required)
    ∷ ("timeout_s", is_some b.timeout_s)
    ∷ [])

-- The truth of a mapping: whether it has a key.
unfoldable pub has_keys : Sandbox → Bool
has_keys b =
    is_some b.required
    || is_some b.network
    || is_some b.filesystem_write
    || is_some b.env_passthrough
    || is_some b.timeout_s
    || is_some b.as_mb
    || is_some b.fsize_mb
    || b.other_keys

-- `if missing: errors.append(...)`
abbrev pub report : (List String → EntryError) → List String → List EntryError
report e [] = []
report e (k ∷ keys) = e (k ∷ keys) ∷ []

unfoldable pub sandbox_errors : Option (Option Sandbox) → List EntryError
unfolding has_keys sandbox_missing_of
sandbox_errors none = []
sandbox_errors (some none) = []
sandbox_errors (some (some b)) =
    if has_keys b
    then report missing_sandbox_keys (sandbox_missing_of b)
      ++ (if or_default b.required false then [] else sandbox_not_required ∷ [])
    else []

unfoldable pub validate_entry : Entry → List EntryError
unfolding missing_of sandbox_errors
validate_entry e =
    report missing_keys (missing_of e)
    ++ sandbox_errors e.sandbox
    ++ (if is_nil (or_default e.capabilities_required []) then no_capabilities ∷ [] else [])

pub data Harnesses : Type 0 where
  no_key no_list : Harnesses
  list : List Entry → Harnesses

pub data ManifestFile : Type 0 where
  no_file no_mapping : ManifestFile
  mapping : (version : Option String) → Harnesses → ManifestFile

pub data ManifestError : Type 0 where
  not_found not_a_mapping harnesses_no_list : ManifestError
  unsupported_version : Option String → ManifestError
  invalid_entry : (name : Option String) → List EntryError → ManifestError

pub data Manifest : Type 0 where
  failed : ManifestError → Manifest
  entries : List Entry → Manifest

abbrev pub prepend : Entry → Manifest → Manifest
prepend e (failed x) = failed x
prepend e (entries es) = entries (e ∷ es)

-- The loop of `load_manifest`: the first entry with errors stops it.
unfoldable pub validated : List Entry → Manifest
validated [] = entries []
validated (e ∷ es) =
    let rest = validated es in
    if is_nil (validate_entry e)
    then prepend e rest
    else failed (invalid_entry e.name (validate_entry e))

abbrev pub version_supported : Option String → Bool
version_supported none = false
version_supported (some v) = contains ("2.0.0" ∷ []) v

unfoldable pub load_harnesses : Harnesses → Manifest
unfolding validated
load_harnesses no_key = entries []
load_harnesses no_list = failed harnesses_no_list
load_harnesses (list es) = validated es

unfoldable pub load_manifest : ManifestFile → Manifest
unfolding load_harnesses
load_manifest no_file = failed not_found
load_manifest no_mapping = failed not_a_mapping
load_manifest (mapping version harnesses) =
    if version_supported version
    then load_harnesses harnesses
    else failed (unsupported_version version)

abbrev pub named : String → Option String → Bool
named name none = false
named name (some n) = n == name

-- `none`: KeyError, for a name that no entry has, and for an entry before it that has no name.
unfoldable pub get_manifest_entry : String → List Entry → Option Entry
get_manifest_entry name [] = none
get_manifest_entry name (e ∷ es) =
    let rest = get_manifest_entry name es in
    if named name e.name then some e else if is_some e.name then rest else none
