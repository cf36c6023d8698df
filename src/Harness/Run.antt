-- ===== src/Harness/Run.antt =====
-- One call of `run` in .agent/scripts/harness/harness_run.py, with everything it does to the
-- outside: the spans that it emits and the process that it starts. Whole seconds, not negative.
use Prim.Native.String.{[] as empty_text}
use go_agent_llm_orchestrato.Prelude.{
  String, ◌==◌, true, false, Option, none, some, or_default, List, [], ◌∷◌, ◌++◌, length,
  if◌then◌else◌, pos, negsuc,
}
use go_agent_llm_orchestrato.Prelude.Text.{text_length}
use go_agent_llm_orchestrato.Capability.{Loaded, loaded, refused, check}
use go_agent_llm_orchestrato.Harness.Manifest.{
  Sandbox, Entry, Manifest, failed, entries, load_manifest, get_manifest_entry,
}
use go_agent_llm_orchestrato.Harness.Limits.{Violation, check_rlimit_feasibility}
use go_agent_llm_orchestrato.Harness.Launch.{
  Call, Launch, Prompt, Span, Spawn, Trail, World, binary_missing, binary_not_found,
  capability_denied, dry_run, exited, failure, invoke_end, invoke_start, launch_of, manifest_error,
  no_matrix, no_sandbox, quiet, read_prompt, resolve_binary, result, text_of, timed_out,
  timeout_after, unknown_harness, unusable,
}

abbrev pub digest_of : World → String → String
digest_of w text = if text == empty_text then "" else w.digest text

-- From the spawn on. A binary that is not there starts nothing.
unfoldable pub spawned : World → Call → Launch → List Span → List Violation → Spawn → Trail
spawned w c l start violations binary_missing = record {
  spans = start;
  launches = [];
  killed = false;
  outcome = result (failure (pos 127) binary_not_found violations);
}
spawned w c l start violations timed_out = record {
  spans = start ++ invoke_end c.name (negsuc 0) (length violations) ∷ [];
  launches = l ∷ [];
  killed = true;
  outcome = result (record (failure (negsuc 0) (timeout_after l.timeout) violations) {
    duration_ms = w.duration_ms;
  });
}
spawned w c l start violations (exited code out err) = record {
  spans = start ++ invoke_end c.name code (length violations) ∷ [];
  launches = l ∷ [];
  killed = false;
  outcome = result (record {
    exit_code = code;
    stdout_digest = digest_of w out;
    stderr_digest = digest_of w err;
    stdout_size_bytes = text_length out;
    stderr_size_bytes = text_length err;
    duration_ms = w.duration_ms;
    sandbox_violations = violations;
    error = none;
  });
}

-- The span before the spawn.
abbrev pub start_spans : World → Call → Entry → Launch → String → List Span
start_spans w c e l text =
    invoke_start c.name (resolve_binary w l.env (or_default e.binary "")) c.caller_role c.scope
      (text_length text)
    ∷ []

unfoldable pub perform : World → Call → Entry → Sandbox → String → Trail
unfolding spawned
perform w c e b text =
    let l = launch_of w c e b in
    let start = start_spans w c e l text in
    if c.dry_run
    then record {
      spans = start;
      launches = [];
      killed = false;
      outcome = result (failure (pos 0) dry_run []);
    }
    else spawned w c l start (check_rlimit_feasibility w.ceilings l.rlimits) w.spawn

-- entry["sandbox"]: a null there has no `get`.
unfoldable pub sandboxed : World → Call → Entry → String → Option (Option Sandbox) → Trail
unfolding perform
sandboxed w c e text none = quiet no_sandbox
sandboxed w c e text (some none) = quiet no_sandbox
sandboxed w c e text (some (some b)) = perform w c e b text

unfoldable pub authorised : World → Call → Entry → String → Loaded → Trail
unfolding sandboxed
authorised w c e text (refused x) = quiet no_matrix
authorised w c e text (loaded m) =
    if check m c.caller_role "harness_run" (some c.scope)
    then sandboxed w c e text e.sandbox
    else quiet (result (failure (pos 3) capability_denied []))

unfoldable pub with_prompt : World → Call → Entry → Prompt → Trail
unfolding authorised
with_prompt w c e (unusable x) = quiet (result (failure (pos 2) x []))
with_prompt w c e (text_of text) = authorised w c e text w.matrix

unfoldable pub with_entry : World → Call → Option Entry → Trail
unfolding with_prompt
with_entry w c none = quiet unknown_harness
with_entry w c (some e) = with_prompt w c e (read_prompt w.prompt)

unfoldable pub with_manifest : World → Call → Manifest → Trail
unfolding with_entry
with_manifest w c (failed x) = quiet (manifest_error x)
with_manifest w c (entries es) = with_entry w c (get_manifest_entry c.name es)

unfoldable pub run : World → Call → Trail
unfolding with_manifest
run w c = with_manifest w c (load_manifest w.manifest)
