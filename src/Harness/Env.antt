-- ===== src/Harness/Env.antt =====
-- The environment of the child, `_build_sanitized_env` in .agent/scripts/harness/harness_run.py.
-- The dangerous variables are a set in the source; their order does not change the mapping.
use go_agent_llm_orchestrato.Prelude.{
  String, ◌==◌, ◌≡◌, refl, false, ◌&&◌, Option, none, some, is_some, or_default, List, [], ◌∷◌,
  Dict, lookup, insert, lookup-insert, contains, arith, eq_iff, if◌then◌else◌, ◌∙◌, Bool-cases,
  Option-cases, inl, inr,
}

abbrev pub dangerous_env_vars : List String
dangerous_env_vars =
    "LD_PRELOAD" ∷ "LD_LIBRARY_PATH" ∷ "LD_AUDIT" ∷ "PYTHONPATH" ∷ "PYTHONSTARTUP" ∷ "PYTHONINSPECT"
    ∷ "NODE_OPTIONS" ∷ "NODE_PATH" ∷ "BASH_ENV" ∷ "ENV" ∷ "BASH_FUNC_" ∷ []

abbrev pub copy_var : Option String → String → Dict String → Dict String
copy_var none var env = env
copy_var (some v) var env = insert var v env

-- for var in passthrough: if var in os.environ: env[var] = os.environ[var]
unfoldable pub pass_through : List String → Dict String → Dict String → Dict String
pass_through [] environ env = env
pass_through (var ∷ vars) environ env =
    pass_through vars environ (copy_var (lookup var environ) var env)

-- for var in DANGEROUS_ENV_VARS: env[var] = ""
unfoldable pub blank_all : List String → Dict String → Dict String
blank_all [] env = env
blank_all (var ∷ vars) env = blank_all vars (insert var "" env)

abbrev pub set_default : String → String → Dict String → Dict String
set_default k v env = if is_some (lookup k env) then env else insert k v env

abbrev pub default_path : String
default_path = "/usr/local/bin:/usr/bin:/bin"

unfoldable pub build_sanitized_env : List String → Dict String → Dict String
unfolding pass_through blank_all
build_sanitized_env passthrough environ = insert "HARNESS_RUN_VERSION" "2.0.0" (
    set_default "PATH" default_path
      (blank_all dangerous_env_vars (pass_through passthrough environ [])))

lookup-pass_through :
    (vars : List String) (environ env : Dict String) (j : String)
    → lookup j (pass_through vars environ env)
      ≡ (if contains vars j && is_some (lookup j environ) then lookup j environ else lookup j env)
unfolding pass_through
lookup-pass_through [] environ env j = refl
lookup-pass_through (var ∷ vars) environ env j = elim (Option-cases (lookup var environ)) [
  | inl e ↦ rw e (ground (arith, lookup-pass_through vars environ env j, eq_iff var j))
  | inr (v, e) ↦ rw e (
      ground (
        arith,
        lookup-pass_through vars environ (insert var v env) j,
        lookup-insert var j v env,
        eq_iff var j,
      ))
]

lookup-blank_all :
    (vars : List String) (env : Dict String) (j : String)
    → lookup j (blank_all vars env) ≡ (if contains vars j then some "" else lookup j env)
unfolding blank_all
lookup-blank_all [] env j = refl
lookup-blank_all (var ∷ vars) env j =
    ground (arith, lookup-blank_all vars (insert var "" env) j, lookup-insert var j "" env)

lookup-set_default :
    (k v : String) (env : Dict String) (j : String)
    → lookup j (set_default k v env)
      ≡ (if k == j then some (or_default (lookup k env) v) else lookup j env)
lookup-set_default k v env j = elim (Option-cases (lookup k env)) [
  | inl e ↦ rw e (lookup-insert k j v env)
  | inr (w, e) ↦ rw e (ground (arith, eq_iff k j))
]

lookup-finish :
    (dangerous : List String) (given : Dict String) (j : String)
    → contains dangerous "PATH" ≡ false
    → lookup j (
        insert "HARNESS_RUN_VERSION" "2.0.0"
          (set_default "PATH" default_path (blank_all dangerous given)))
      ≡ (if "HARNESS_RUN_VERSION" == j
          then some "2.0.0"
          else if contains dangerous j
          then some ""
          else if "PATH" == j
          then some (or_default (lookup "PATH" given) default_path)
          else lookup j given)
lookup-finish dangerous given j safe =
    let blanked = blank_all dangerous given in
    ground (
      arith,
      lookup-insert "HARNESS_RUN_VERSION" j "2.0.0" (set_default "PATH" default_path blanked),
      lookup-set_default "PATH" default_path blanked j,
      lookup-blank_all dangerous given j,
      lookup-blank_all dangerous given "PATH",
      eq_iff "PATH" j,
    )

-- A variable of the child: the version, a dangerous variable that is blank whoever asks for it, a
-- variable of the caller that the manifest passes through, or the default PATH.
abbrev pub expected_var : List String → Dict String → String → Option String
expected_var passthrough environ j =
    if "HARNESS_RUN_VERSION" == j
    then some "2.0.0"
    else if contains dangerous_env_vars j
    then some ""
    else if contains passthrough j && is_some (lookup j environ)
    then lookup j environ
    else if "PATH" == j
    then some default_path
    else none

lookup-allowed :
    (passthrough : List String) (environ : Dict String) (j : String)
    → (if "PATH" == j
        then some (or_default (lookup "PATH" (pass_through passthrough environ [])) default_path)
        else lookup j (pass_through passthrough environ []))
      ≡ (if contains passthrough j && is_some (lookup j environ)
          then lookup j environ
          else if "PATH" == j
          then some default_path
          else none)
unfolding lookup
lookup-allowed passthrough environ j = elim (Bool-cases ("PATH" == j)) [
  | inl e ↦
      let at_path : lookup j (pass_through passthrough environ []) ≡ _ =
        lookup-pass_through passthrough environ [] j in
      rw (e, (eq_iff "PATH" j).0 e)
        (rw at_path (elim (Option-cases (lookup j environ)) [
          | inl n ↦ rw n (ground arith)
          | inr (v, n) ↦ rw n (ground arith)
        ]))
  | inr e ↦ rw e (lookup-pass_through passthrough environ [] j)
]

-- Every variable of the sanitised environment is the version, or blank if it is dangerous, or the
-- caller's if it is passed through, or the default PATH; no other one is set. PATH itself is the
-- caller's if it is passed through and set.
pub build_sanitized_env_lem :
    (passthrough : List String) (environ : Dict String) (j : String)
    → lookup j (build_sanitized_env passthrough environ) ≡ expected_var passthrough environ j
unfolding build_sanitized_env
build_sanitized_env_lem passthrough environ j =
    lookup-finish dangerous_env_vars (pass_through passthrough environ []) j refl
    ∙ rw (lookup-allowed passthrough environ j) refl
