-- ===== src/Harness/Accounting.antt =====
-- What the result of a run says about the process that it started.
use go_agent_llm_orchestrato.Prelude.{
  String, ◌≡◌, ◌≢◌, refl, ◌↔◌, false, Option, none, some, List, [], if_cases, sym, ap, ◌∙◌,
  false≢true, ℤ, pos,
}
use go_agent_llm_orchestrato.Capability.{Loaded, loaded, refused, check}
use go_agent_llm_orchestrato.Harness.Manifest.{
  Sandbox, Entry, Manifest, failed, entries, load_manifest, get_manifest_entry,
}
use go_agent_llm_orchestrato.Harness.Limits.{Violation}
use go_agent_llm_orchestrato.Harness.Run.{
  start_spans, spawned, perform, sandboxed, authorised, with_prompt, with_entry, with_manifest, run,
}
use go_agent_llm_orchestrato.Harness.Launch.{
  Spawn, binary_missing, timed_out, exited, World, Call, Launch, RunError, quiet, failure, Prompt,
  manifest_error, unknown_harness, no_matrix, no_sandbox, capability_denied, dry_run,
  binary_not_found, timeout_after, unusable, text_of, read_prompt, launch_of, Span, Trail, Outcome,
  result, HarnessResult,
}

-- A result reports no error exactly if a process was started and ended by itself.
abbrev pub IsAccounted : Trail → Type 0
IsAccounted t =
    (r : HarnessResult)
    → t.outcome ≡ result r
    → (r.error ≡ none) ↔ ((t.launches ≢ []) × (t.killed ≡ false))

result_inj : (r q : HarnessResult) → result r ≡ result q → r ≡ q
result_inj r q h = cc

-- A failure with nothing started.
failure-IsAccounted :
    (start : List Span) (code : ℤ) (x : RunError) (v : List Violation)
    → IsAccounted (record {
      spans = start;
      launches = [];
      killed = false;
      outcome = result (failure code x v);
    })
failure-IsAccounted start code x v r h =
    let same : failure code x v ≡ r = result_inj (failure code x v) r h in
    (
      λ e. absurd (some≢none (ap (λ q. q.error) same ∙ e)),
      λ (some_launch, k). absurd (some_launch refl),
    )
  where
    some≢none : some x ≢ none
    some≢none h = cc

spawned-IsAccounted :
    (w : World) (c : Call) (l : Launch) (start : List Span) (v : List Violation) (s : Spawn)
    → IsAccounted (spawned w c l start v s)
unfolding spawned
spawned-IsAccounted w c l start v binary_missing r h =
    failure-IsAccounted start (pos 127) binary_not_found v r h
spawned-IsAccounted w c l start v timed_out r h =
    let bad : some (timeout_after l.timeout) ≡ r.error = ap (λ q. q.error) (result_inj _ r h) in
    (λ e. absurd (some≢none (bad ∙ e)), λ (n, k). absurd (false≢true (sym k)))
  where
    some≢none : some (timeout_after l.timeout) ≢ none
    some≢none h = cc
spawned-IsAccounted w c l start v (exited code out err) r h =
    (λ e. (λ n. cc, refl), λ k. sym (ap (λ q. q.error) (result_inj _ r h)))

perform-IsAccounted :
    (w : World) (c : Call) (e : Entry) (b : Sandbox) (text : String)
    → IsAccounted (perform w c e b text)
unfolding perform
perform-IsAccounted w c e b text =
    if_cases IsAccounted c.dry_run _ _
      (failure-IsAccounted (start_spans w c e (launch_of w c e b) text) (pos 0) dry_run [])
      (spawned-IsAccounted w c (launch_of w c e b) _ _ w.spawn)

raise-IsAccounted : (o : Outcome) → ((r : HarnessResult) → o ≢ result r) → IsAccounted (quiet o)
raise-IsAccounted o n r h = absurd (n r h)

sandboxed-IsAccounted :
    (w : World) (c : Call) (e : Entry) (text : String) (s : Option (Option Sandbox))
    → IsAccounted (sandboxed w c e text s)
unfolding sandboxed
sandboxed-IsAccounted w c e text none = raise-IsAccounted no_sandbox (λ r h. cc)
sandboxed-IsAccounted w c e text (some none) = raise-IsAccounted no_sandbox (λ r h. cc)
sandboxed-IsAccounted w c e text (some (some b)) = perform-IsAccounted w c e b text

authorised-IsAccounted :
    (w : World) (c : Call) (e : Entry) (text : String) (x : Loaded)
    → IsAccounted (authorised w c e text x)
unfolding authorised
authorised-IsAccounted w c e text (refused x) = raise-IsAccounted no_matrix (λ r h. cc)
authorised-IsAccounted w c e text (loaded m) =
    if_cases IsAccounted (check m c.caller_role "harness_run" (some c.scope)) _ _
      (sandboxed-IsAccounted w c e text e.sandbox)
      (failure-IsAccounted [] (pos 3) capability_denied [])

with_prompt-IsAccounted :
    (w : World) (c : Call) (e : Entry) (p : Prompt) → IsAccounted (with_prompt w c e p)
unfolding with_prompt
with_prompt-IsAccounted w c e (unusable x) = failure-IsAccounted [] (pos 2) x []
with_prompt-IsAccounted w c e (text_of text) = authorised-IsAccounted w c e text w.matrix

with_entry-IsAccounted : (w : World) (c : Call) (o : Option Entry) → IsAccounted (with_entry w c o)
unfolding with_entry
with_entry-IsAccounted w c none = raise-IsAccounted unknown_harness (λ r h. cc)
with_entry-IsAccounted w c (some e) = with_prompt-IsAccounted w c e (read_prompt w.prompt)

with_manifest-IsAccounted :
    (w : World) (c : Call) (m : Manifest) → IsAccounted (with_manifest w c m)
unfolding with_manifest
with_manifest-IsAccounted w c (failed x) = raise-IsAccounted (manifest_error x) (λ r h. cc)
with_manifest-IsAccounted w c (entries es) =
    with_entry-IsAccounted w c (get_manifest_entry c.name es)

-- On every branch of a run that returns a result, the result has no error exactly if a process was
-- started and ended by itself: a refusal, a dry run, a missing binary and a timeout all report one.
pub run-IsAccounted : (w : World) (c : Call) → IsAccounted (run w c)
unfolding run
run-IsAccounted w c = with_manifest-IsAccounted w c (load_manifest w.manifest)
