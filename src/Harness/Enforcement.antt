-- ===== src/Harness/Enforcement.antt =====
-- What holds of every process that `run` starts, and of what it reports.
use go_agent_llm_orchestrato.Prelude.{
  ℕ, ◌+◌, ◌≤◌, String, ◌==◌, ◌≡◌, refl, true, false, Option, none, some, or_default, List, [], All,
  lookup, contains, arith, eq_iff, Bool-cases, inl, inr, if_cases, if_split, subst, sym, false≢true,
}
use go_agent_llm_orchestrato.Capability.{Matrix, Loaded, loaded, refused, check}
use go_agent_llm_orchestrato.Capability.Grants.{Permits, check_iff}
use go_agent_llm_orchestrato.Harness.Manifest.{
  Sandbox, Entry, Manifest, failed, entries, load_manifest, get_manifest_entry,
}
use go_agent_llm_orchestrato.Harness.Manifest.Validation.{IsValid, get_manifest_entry-IsValid}
use go_agent_llm_orchestrato.Harness.Env.{build_sanitized_env_lem, dangerous_env_vars}
use go_agent_llm_orchestrato.Harness.Limits.{rlimits_of, rlimit_cpu_buffer_s, Violation}
use go_agent_llm_orchestrato.Harness.Run.{
  spawned, perform, sandboxed, authorised, with_prompt, with_entry, with_manifest, run,
}
use go_agent_llm_orchestrato.Harness.Launch.{
  Spawn, binary_missing, timed_out, exited, World, Call, Launch, Prompt, unusable, text_of,
  read_prompt, clamp, sandbox_timeout_of, launch_of, Span, Trail,
}

-- A launch is confined by a sandbox: its time is at most the manifest's, its CPU limit follows that
-- time, every dangerous variable is blank, and it leads a process group of its own.
pub record IsConfined (b : Sandbox) (l : Launch) : Type 0 where
  pub capped : l.timeout ≤ sandbox_timeout_of b
  pub cpu_follows : l.rlimits.cpu_s ≡ l.timeout + rlimit_cpu_buffer_s
  pub blanked : (var : String) → contains dangerous_env_vars var ≡ true → lookup var l.env ≡ some ""
  pub own_group : l.start_new_session ≡ true

-- What stands behind a launch.
pub record IsEnforced (w : World) (c : Call) (l : Launch) : Type 0 where
  pub es : List Entry
  pub e : Entry
  pub b : Sandbox
  pub m : Matrix
  pub read : load_manifest w.manifest ≡ entries es
  pub found : get_manifest_entry c.name es ≡ some e
  pub valid : IsValid e
  pub has_sandbox : e.sandbox ≡ some (some b)
  pub has_matrix : w.matrix ≡ loaded m
  pub permitted : Permits m c.caller_role "harness_run" (some c.scope)
  pub confined : IsConfined b l

clamp_le : (o : Option ℕ) (ceiling : ℕ) → clamp o ceiling ≤ ceiling
clamp_le none ceiling = omega arith
clamp_le (some t) ceiling = ground arith

dangerous-not_version :
    (j : String) → contains dangerous_env_vars j ≡ true → ("HARNESS_RUN_VERSION" == j) ≡ false
dangerous-not_version j h = elim (Bool-cases ("HARNESS_RUN_VERSION" == j)) [
  | inl e ↦ absurd (
      false≢true (
        subst (λ q. contains dangerous_env_vars q ≡ true)
          (sym ((eq_iff "HARNESS_RUN_VERSION" j).0 e)) h))
  | inr e ↦ e
]

launch_of-IsConfined :
    (w : World) (c : Call) (e : Entry) (b : Sandbox) → IsConfined b (launch_of w c e b)
unfolding launch_of rlimits_of
launch_of-IsConfined w c e b = record {
  capped = clamp_le c.timeout_s (sandbox_timeout_of b);
  cpu_follows = refl;
  blanked = λ var h.
      rw (build_sanitized_env_lem (or_default b.env_passthrough []) w.environ var)
        (rw (dangerous-not_version var h, h) refl);
  own_group = refl;
}

-- The launches of the end of a run are of the launch that was prepared.
spawned-launches :
    (P : Launch → Type 0) (w : World) (c : Call) (l : Launch) (start : List Span)
    (v : List Violation) (s : Spawn)
    → P l
    → All P (spawned w c l start v s).launches
unfolding spawned
spawned-launches P w c l start v binary_missing p = tt
spawned-launches P w c l start v timed_out p = (p, tt)
spawned-launches P w c l start v (exited code out err) p = (p, tt)

perform-launches :
    (P : Launch → Type 0) (w : World) (c : Call) (e : Entry) (b : Sandbox) (text : String)
    → P (launch_of w c e b)
    → All P (perform w c e b text).launches
unfolding perform
perform-launches P w c e b text p =
    if_cases (λ (t : Trail). All P t.launches) c.dry_run _ _ tt
      (spawned-launches P w c (launch_of w c e b) _ _ w.spawn p)

module _ (w : World) (c : Call) where
  sandboxed-IsEnforced :
      (es : List Entry) (e : Entry) (m : Matrix) (text : String) (s : Option (Option Sandbox))
      → load_manifest w.manifest ≡ entries es
      → get_manifest_entry c.name es ≡ some e
      → w.matrix ≡ loaded m
      → check m c.caller_role "harness_run" (some c.scope) ≡ true
      → e.sandbox ≡ s
      → All (IsEnforced w c) (sandboxed w c e text s).launches
  unfolding sandboxed
  sandboxed-IsEnforced es e m text none r g l k h = tt
  sandboxed-IsEnforced es e m text (some none) r g l k h = tt
  sandboxed-IsEnforced es e m text (some (some b)) r g l k h =
      perform-launches (IsEnforced w c) w c e b text (record {
        es = es;
        e = e;
        b = b;
        m = m;
        read = r;
        found = g;
        valid = (get_manifest_entry-IsValid w.manifest es c.name e r g).0;
        has_sandbox = h;
        has_matrix = l;
        permitted = (check_iff m c.caller_role "harness_run" (some c.scope)).0 k;
        confined = launch_of-IsConfined w c e b;
      })

  authorised-IsEnforced :
      (es : List Entry) (e : Entry) (text : String) (x : Loaded)
      → load_manifest w.manifest ≡ entries es
      → get_manifest_entry c.name es ≡ some e
      → w.matrix ≡ x
      → All (IsEnforced w c) (authorised w c e text x).launches
  unfolding authorised
  authorised-IsEnforced es e text (refused x) r g l = tt
  authorised-IsEnforced es e text (loaded m) r g l =
      if_split (λ (t : Trail). All (IsEnforced w c) t.launches)
        (check m c.caller_role "harness_run" (some c.scope)) _ _
        (λ k. sandboxed-IsEnforced es e m text e.sandbox r g l k refl) (λ _. tt)

  with_prompt-IsEnforced :
      (es : List Entry) (e : Entry) (p : Prompt)
      → load_manifest w.manifest ≡ entries es
      → get_manifest_entry c.name es ≡ some e
      → All (IsEnforced w c) (with_prompt w c e p).launches
  unfolding with_prompt
  with_prompt-IsEnforced es e (unusable x) r g = tt
  with_prompt-IsEnforced es e (text_of text) r g = authorised-IsEnforced es e text w.matrix r g refl

  with_entry-IsEnforced :
      (es : List Entry) (o : Option Entry)
      → load_manifest w.manifest ≡ entries es
      → get_manifest_entry c.name es ≡ o
      → All (IsEnforced w c) (with_entry w c o).launches
  unfolding with_entry
  with_entry-IsEnforced es none r g = tt
  with_entry-IsEnforced es (some e) r g = with_prompt-IsEnforced es e (read_prompt w.prompt) r g

  with_manifest-IsEnforced :
      (m : Manifest)
      → load_manifest w.manifest ≡ m
      → All (IsEnforced w c) (with_manifest w c m).launches
  unfolding with_manifest
  with_manifest-IsEnforced (failed x) r = tt
  with_manifest-IsEnforced (entries es) r =
      with_entry-IsEnforced es (get_manifest_entry c.name es) r refl

-- Every process that a run starts is of a valid entry of the manifest with a sandbox, for a role that
-- the capability matrix permits, and confined: its time is at most the manifest's whatever the
-- caller asks for, its CPU limit follows that time, every dangerous variable is blank, and it leads
-- a process group of its own.
pub run-IsEnforced : (w : World) (c : Call) → All (IsEnforced w c) (run w c).launches
unfolding run
run-IsEnforced w c = with_manifest-IsEnforced w c (load_manifest w.manifest) refl
