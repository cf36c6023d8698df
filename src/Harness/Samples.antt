-- ===== src/Harness/Samples.antt =====
-- A manifest with one harness, and runs of it.
use go_agent_llm_orchestrato.Prelude.{◌≡◌, true, false, none, some, [], ◌∷◌, All, lookup, pos}
use go_agent_llm_orchestrato.Capability.{Matrix, loaded, entry, role}
use go_agent_llm_orchestrato.Harness.Manifest.{Sandbox, Entry, mapping, list, ManifestFile}
use go_agent_llm_orchestrato.Harness.Env.{
  build_sanitized_env, build_sanitized_env_lem, expected_var,
}
use go_agent_llm_orchestrato.Harness.Limits.{Ceilings, Rlimits, infinite, unreadable, at}
use go_agent_llm_orchestrato.Harness.Run.{run}
use go_agent_llm_orchestrato.Harness.Launch.{World, Call, prompt, exited}
use go_agent_llm_orchestrato.Harness.Enforcement.{IsEnforced, run-IsEnforced}

abbrev box : Sandbox
box = record {
  required = some true;
  network = some "deny";
  filesystem_write = some true;
  env_passthrough = some ("PATH" ∷ "LD_PRELOAD" ∷ []);
  timeout_s = some 600;
  as_mb = none;
  fsize_mb = none;
  other_keys = false;
}

abbrev no_keys : Sandbox
no_keys = record {
  required = none;
  network = none;
  filesystem_write = none;
  env_passthrough = none;
  timeout_s = none;
  as_mb = none;
  fsize_mb = none;
  other_keys = false;
}

abbrev with_box : Sandbox → Entry
with_box b = record {
  name = some "claude";
  binary = some "claude";
  description = some "agent";
  capabilities_required = some ("spawn-harness" ∷ []);
  capabilities_granted = some [];
  sandbox = some (some b);
  args = some ("--print" ∷ []);
  model_default = none;
}

abbrev file : ManifestFile
file = mapping (some "2.0.0") (list (with_box box ∷ []))

abbrev matrix : Matrix
matrix = record {
  version = some "1.0.0";
  operations = some (("harness_run", "spawn-harness") ∷ []);
  roles = some (("infra-agent", role (some (entry (some "spawn-harness") none ∷ []))) ∷ []);
}

abbrev ceilings : Ceilings
ceilings = record { address_space = infinite; file_size = at 1024; cpu = unreadable }

abbrev world : World
world = record {
  manifest = file;
  prompt = prompt 5 "hello";
  matrix = loaded matrix;
  environ = ("PATH", "/home/bin") ∷ ("LD_PRELOAD", "evil.so") ∷ [];
  ceilings = ceilings;
  which = λ b p. true;
  exists = λ b. false;
  in_root = λ b. b;
  digest = λ t. "0123";
  spawn = exited (pos 0) "out" "";
  duration_ms = 12;
}

abbrev call : Call
call = record {
  name = "claude";
  prompt_path = "/tmp/p";
  caller_role = "infra-agent";
  scope = "global";
  model = none;
  timeout_s = some 9000;
  dry_run = false;
}

build_sanitized_env_lem_example :
    lookup "PATH" (build_sanitized_env ("PATH" ∷ []) world.environ)
    ≡ expected_var ("PATH" ∷ []) world.environ "PATH"
build_sanitized_env_lem_example = build_sanitized_env_lem ("PATH" ∷ []) world.environ "PATH"

abbrev limits : Rlimits
limits = record { as_bytes = 4096; fsize_bytes = 2048; cpu_s = 630 }

run-IsEnforced_example : All (IsEnforced world call) (run world call).launches
run-IsEnforced_example = run-IsEnforced world call
