-- ===== src/Squad/Healing.antt =====
-- How tests are repaired: _verification_loop and _tree_auto_heal of squad_orchestrator.py, outside a dry
-- run, and run_isolated_worktree of .agent/scripts/analysis/ghost_prototyper.py.
use Prim.Native.String.{[] as empty_text, ◌∷◌ as cons_char, ◌++◌ as append_text}
use go_agent_llm_orchestrato.Prelude.{
  ℕ, zero, suc, ◌+◌, String, ◌==◌, Bool, true, false, not, Option, none, some, List, [], ◌∷◌, Dict,
  lookup, insert, select, if◌then◌else◌,
}
use go_agent_llm_orchestrato.Prelude.Words.{has_part, replace}
use go_agent_llm_orchestrato.DeadEnds.{Registry, Writing, is_dead_end, log_dead_end}

pub record Hypothesis : Type 0 where
  pub intent : String
  pub file : String
  pub target : String
  pub replacement : String

-- The contents of the files.
abbrev pub Repo : Type 0
Repo = Dict String

-- s.replace("", new)
unfoldable pub interleaved : String → String → String
interleaved new empty_text = new
interleaved new (cons_char c s) = append_text new (cons_char c (interleaved new s))

-- content.replace(target, replacement)
unfoldable pub patched : Hypothesis → String → String
unfolding replace interleaved
patched h content =
    if h.target == empty_text
    then interleaved h.replacement content
    else replace h.target h.replacement content

-- patch_repr
abbrev pub patch_text : Hypothesis → String
patch_text h =
    append_text "Replace:\n" (append_text h.target (append_text "\nWith:\n" h.replacement))

-- What a benchmark measures, as far as the choice needs it: whether count > 0, and the order of the keys
-- that the sort takes, (allocs_op, b_op, ns_op).
pub record Measures (M : Type 0) : Type 0 where
  pub counted : M → Bool
  pub less : M → M → Bool

-- What the process finds: the commit that a worktree holds, whether git can make one, whether the command
-- passes on its files and what it measures, what becomes of a write to the registry, str.lower; the
-- hypotheses of the language model in each attempt, and whether the n-th run of the tests passes.
pub record World (M : Type 0) : Type 0 where
  pub head : Repo
  pub makes_worktree : Hypothesis → Bool
  pub passes : Repo → Bool
  pub measured : Repo → M
  pub output : Repo → String
  pub unreadable : String
  pub writing : Writing
  pub lower : String → String
  pub hypotheses : ℕ → List Hypothesis
  pub tests : ℕ → Repo → Bool

-- The files of the main repository, and the registry of dead ends.
pub record Place : Type 0 where
  pub repo : Repo
  pub registry : Registry

pub record Tried : Type 0 where
  pub success : Bool
  pub place : Place

pub record Candidate (M : Type 0) : Type 0 where
  pub hypothesis : Hypothesis
  pub metrics : M

pub record Healed (M : Type 0) : Type 0 where
  pub candidates : List (Candidate M)
  pub place : Place

module _ {M : Type 0} (w : World M) where
  -- A return of False, after log_dead_end.
  unfoldable pub dead : Hypothesis → String → Place → Tried
  unfolding log_dead_end
  dead h error p = record {
    success = false;
    place = record p {
      registry = log_dead_end w.lower w.writing h.file (patch_text h) error p.registry;
    };
  }

  abbrev pub refused : Place → Tried
  refused p = record { success = false; place = p }

  -- Back to the main repository.
  unfoldable pub apply_back : Hypothesis → Place → Option String → Tried
  unfolding dead has_part patched
  apply_back h p none = dead h w.unreadable p
  apply_back h p (some content) =
      if has_part content h.target
      then record {
        success = true;
        place = record p { repo = insert h.file (patched h content) p.repo };
      }
      else dead h "Target content no longer exists in main file" p

  -- The files of the worktree with the patch.
  abbrev pub worktree_with : Hypothesis → String → Repo
  worktree_with h content = insert h.file (patched h content) w.head

  unfoldable pub in_worktree : Hypothesis → Place → Option String → Tried
  unfolding apply_back
  in_worktree h p none = refused p
  in_worktree h p (some content) =
      if not (has_part content h.target)
      then dead h "Target content not found in file" p
      else if w.passes (worktree_with h content)
      then apply_back h p (lookup h.file p.repo)
      else dead h (w.output (worktree_with h content)) p

  unfoldable pub run_isolated_worktree : Hypothesis → Place → Tried
  unfolding in_worktree
  run_isolated_worktree h p =
      if not (w.makes_worktree h) then refused p else in_worktree h p (lookup h.file w.head)

  abbrev pub candidate_of : Hypothesis → Candidate M
  candidate_of h = record { hypothesis = h; metrics = w.measured (in_head (lookup h.file w.head)) }
    where
      in_head : Option String → Repo
      in_head none = w.head
      in_head (some content) = worktree_with h content

  abbrev pub with_candidate : Bool → Candidate M → Healed M → Healed M
  with_candidate true c r = record r { candidates = c ∷ r.candidates }
  with_candidate false c r = r

  -- The loop over the hypotheses.
  unfoldable pub try_all : List Hypothesis → Place → Healed M
  unfolding run_isolated_worktree is_dead_end
  try_all [] p = record { candidates = []; place = p }
  try_all (h ∷ hs) p =
      let skipped = try_all hs p in
      let tried = run_isolated_worktree h p in
      let rest = try_all hs tried.place in
      if is_dead_end w.lower h.file (patch_text h) p.registry
      then skipped
      else with_candidate tried.success (candidate_of h) rest

-- The first of the least.
unfoldable pub least {ℓ} : {A : Type ℓ} → (A → A → Bool) → A → List A → A
least less x [] = x
least less x (y ∷ ys) = least less (if less y x then y else x) ys

abbrev pub first_least {ℓ} : {A : Type ℓ} → (A → A → Bool) → List A → Option A
first_least less [] = none
first_least less (x ∷ xs) = some (least less x xs)

abbrev pub first_of {ℓ} : {A : Type ℓ} → List A → Option A
first_of [] = none
first_of (x ∷ xs) = some x

abbrev pub or_else {ℓ} : {A : Type ℓ} → Option A → Option A → Option A
or_else none o = o
or_else (some x) o = some x

-- The winning hypothesis; `bench`: the command runs benchmarks.
unfoldable pub best_candidate :
    {M : Type 0} → Measures M → Bool → List (Candidate M) → Option (Candidate M)
unfolding least
best_candidate {M = M} ms bench cs =
    if bench
    then or_else
        (first_least (λ (x y : Candidate M). ms.less x.metrics y.metrics)
          (select (λ (x : Candidate M). ms.counted x.metrics) cs))
        (first_of cs)
    else first_of cs

pub data TaskStatus : Type 0 where
  completed failed : TaskStatus

-- The state afterwards: its status, the attempts in test_results, each attempt in the trace with its
-- success, the repairs that were found, the agents that were visited, and the files.
pub record Verified (M : Type 0) : Type 0 where
  pub status : TaskStatus
  pub attempts : ℕ
  pub trace : List (ℕ × Bool)
  pub repairs : List (Option (Candidate M))
  pub trace_path : List String
  pub place : Place

module _ {M : Type 0} (w : World M) (ms : Measures M) (bench : Bool) (dev_agent : String) where
  abbrev pub noted : ℕ → Bool → Verified M → Verified M
  noted n success v = record v { trace = (n, success) ∷ v.trace }

  unfoldable pub repaired : Healed M → Verified M → Verified M
  unfolding best_candidate
  repaired h v = record v {
    repairs = best_candidate ms bench h.candidates ∷ v.repairs;
    trace_path = dev_agent ∷ v.trace_path;
  }

  abbrev pub ended : TaskStatus → ℕ → Place → Verified M
  ended s n p = record {
    status = s;
    attempts = n;
    trace = [];
    repairs = [];
    trace_path = [];
    place = p;
  }

  -- The attempts from the n-th on, of which `left` follow it.
  unfoldable pub attempts_from : ℕ → ℕ → Place → Verified M
  unfolding try_all repaired
  attempts_from zero n p =
      if w.tests n p.repo
      then noted n true (ended completed n p)
      else noted n false (ended failed n p)
  attempts_from (suc left) n p =
      let healed = try_all w (w.hypotheses n) p in
      let rest = attempts_from left (n + 1) healed.place in
      if w.tests n p.repo
      then noted n true (ended completed n p)
      else noted n false (repaired healed rest)

  unfoldable pub verification_loop : Place → Verified M
  unfolding attempts_from
  verification_loop p = attempts_from 2 1 p
