-- ===== src/Harness/Launch.antt =====
-- What one call of `run` in .agent/scripts/harness/harness_run.py finds, prepares and reports. Whole
-- seconds, not negative.
use text.Mathlib.Text.{starts_with}
use Prim.Native.String.{[] as empty_text}
use go_agent_llm_orchestrato.Prelude.{
  ℕ, String, ◌==◌, Bool, true, false, not, ◌&&◌, Option, none, some, or_default, List, [], ◌∷◌,
  ◌++◌, Dict, lookup, ltb, if◌then◌else◌, ℤ,
}
use go_agent_llm_orchestrato.Capability.{Loaded}
use go_agent_llm_orchestrato.Harness.Manifest.{Sandbox, Entry, ManifestFile, ManifestError}
use go_agent_llm_orchestrato.Harness.Env.{build_sanitized_env}
use go_agent_llm_orchestrato.Harness.Limits.{Ceilings, Rlimits, rlimits_of, Violation}

-- What stands at the prompt's path.
pub data PromptFile : Type 0 where
  no_prompt no_regular_file : PromptFile
  prompt : (size : ℕ) (text : String) → PromptFile

pub data Spawn : Type 0 where
  binary_missing timed_out : Spawn
  exited : (code : ℤ) (out err : String) → Spawn

-- What the call finds: `matrix` is None if load_matrix raises; `which` and `exists` are shutil.which on
-- a PATH and the existence of a file below the repository's root.
pub record World : Type 0 where
  pub manifest : ManifestFile
  pub prompt : PromptFile
  pub matrix : Loaded
  pub environ : Dict String
  pub ceilings : Ceilings
  pub which : String → Option String → Bool
  pub exists : String → Bool
  pub in_root : String → String
  pub digest : String → String
  pub spawn : Spawn
  pub duration_ms : ℕ

pub record Call : Type 0 where
  pub name : String
  pub prompt_path : String
  pub caller_role : String
  pub scope : String
  pub model : Option String
  pub timeout_s : Option ℕ
  pub dry_run : Bool

-- The arguments of Popen and communicate. `scratch`: the working directory is the scratch directory.
pub record Launch : Type 0 where
  pub cmd : List String
  pub scratch : Bool
  pub env : Dict String
  pub rlimits : Rlimits
  pub start_new_session : Bool
  pub timeout : ℕ

pub data RunError : Type 0 where
  prompt_not_found prompt_not_a_file prompt_too_large capability_denied dry_run binary_not_found :
      RunError
  timeout_after : ℕ → RunError

-- Without the name of the harness and the version, which every result carries.
pub record HarnessResult : Type 0 where
  pub exit_code : ℤ
  pub stdout_digest : String
  pub stderr_digest : String
  pub stdout_size_bytes : ℕ
  pub stderr_size_bytes : ℕ
  pub duration_ms : ℕ
  pub sandbox_violations : List Violation
  pub error : Option RunError

pub data Outcome : Type 0 where
  manifest_error : ManifestError → Outcome
  unknown_harness no_matrix no_sandbox : Outcome
  result : HarnessResult → Outcome

-- Without the digest and the times of a span.
pub data Span : Type 0 where
  invoke_start : (name binary role scope : String) (prompt_size : ℕ) → Span
  invoke_end : (name : String) (exit_code : ℤ) (violations : ℕ) → Span

-- `killed`: SIGKILL went to the child's process group.
pub record Trail : Type 0 where
  pub spans : List Span
  pub launches : List Launch
  pub killed : Bool
  pub outcome : Outcome

abbrev pub prompt_max_bytes : ℕ
prompt_max_bytes = 1000000

abbrev pub failure : ℤ → RunError → List Violation → HarnessResult
failure code error violations = record {
  exit_code = code;
  stdout_digest = "";
  stderr_digest = "";
  stdout_size_bytes = 0;
  stderr_size_bytes = 0;
  duration_ms = 0;
  sandbox_violations = violations;
  error = some error;
}

-- Nothing has been started.
abbrev pub quiet : Outcome → Trail
quiet o = record { spans = []; launches = []; killed = false; outcome = o }

pub data Prompt : Type 0 where
  unusable : RunError → Prompt
  text_of : String → Prompt

unfoldable pub read_prompt : PromptFile → Prompt
read_prompt no_prompt = unusable prompt_not_found
read_prompt no_regular_file = unusable prompt_not_a_file
read_prompt (prompt size text) =
    if ltb prompt_max_bytes size then unusable prompt_too_large else text_of text

-- `min(timeout_s, sandbox_timeout) if timeout_s is not None else sandbox_timeout`
abbrev pub clamp : Option ℕ → ℕ → ℕ
clamp none ceiling = ceiling
clamp (some t) ceiling = if ltb ceiling t then ceiling else t

abbrev pub sandbox_timeout_of : Sandbox → ℕ
sandbox_timeout_of b = or_default b.timeout_s 600

unfoldable pub resolve_binary : World → Dict String → String → String
resolve_binary w env binary =
    if not (w.which binary (lookup "PATH" env)) && not (starts_with binary "/")
    then (if w.exists binary then w.in_root binary else binary)
    else binary

-- A model that the caller names goes before the manifest's, which counts if it is not empty.
abbrev pub model_args : Option String → Option String → List String
model_args (some m) d = "--model" ∷ m ∷ []
model_args none none = []
model_args none (some d) = if d == empty_text then [] else "--model" ∷ d ∷ []

unfoldable pub launch_of : World → Call → Entry → Sandbox → Launch
unfolding resolve_binary
launch_of w c e b =
    let env = build_sanitized_env (or_default b.env_passthrough []) w.environ in
    let actual_timeout = clamp c.timeout_s (sandbox_timeout_of b) in
    record {
      cmd =
          (resolve_binary w env (or_default e.binary "") ∷ or_default e.args [])
          ++ model_args c.model e.model_default
          ++ c.prompt_path ∷ [];
      scratch = or_default b.filesystem_write false;
      env = env;
      rlimits = rlimits_of b actual_timeout;
      start_new_session = true;
      timeout = actual_timeout;
    }
