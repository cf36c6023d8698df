-- ===== src/Arbor/Merge.antt =====
-- cmd_merge of arbor_state.py: the tests before a branch is merged into the trunk, the merge, and what is
-- written afterwards.
use go_agent_llm_orchestrato.Prelude.{
  ℕ, String, ◌==◌, Bool, false, not, Option, none, some, List, [], ◌∷◌, lookup, insert, contains,
  eqb, if◌then◌else◌,
}
use Prim.Native.String.{[] as empty_text}
use go_agent_llm_orchestrato.Arbor.{
  Scalar, null, flag, number, text, json, Numbers, Node, Tree, protected_branches, meta_get,
  is_true_value, is_null_value, as_number, is_improvement,
}
use go_agent_llm_orchestrato.Arbor.Commands.{
  Reason, git_failed, no_target, protected_branch, eval_failed, bad_timeout, no_test_score,
  no_improvement, protected_path, output_missing, node_not_found, put, found_or, has_text,
  text_or_empty,
}
use go_agent_llm_orchestrato.Arbor.Meta.{Result, ok, err}
use go_agent_llm_orchestrato.Arbor.Record.{Finder, parse_score}

-- The arguments of `merge`.
pub record MergeArgs (N : Type 0) : Type 0 where
  pub node_id : String
  pub source_branch : String
  pub target_branch : Option String
  pub test_score : Option N
  pub protected_paths : List String
  pub required_outputs : List String
  pub dry_run : Bool

-- What git, the file names' patterns and the evaluation answer. `diff` is none where the command fails.
pub record MergeWorld : Type 0 where
  pub detached : Bool
  -- a timeout is given, or int() takes eval_timeout; else a ValueError
  pub timeout_reads : Bool
  pub eval_code : ℕ
  pub eval_output : String
  pub diff : Option (List String)
  pub fnmatch : String → String → Bool
  pub shows : String → Bool
  pub checkout_ok : Bool
  pub merge_ok : Bool
  pub return_ok : Bool

-- The repository: the branch that is checked out (empty when it is none), and the merges that were made,
-- source and target, the latest first.
pub record Repo : Type 0 where
  pub current : String
  pub merged : List (String × String)

-- The target and the score of a merge that may go ahead.
pub data Verdict (N : Type 0) : Type 0 where
  refused : Reason → Verdict N
  accepted : String → N → Verdict N

abbrev pub first_match : (String → Bool) → List String → Option String
first_match p [] = none
first_match p (x ∷ xs) = let rest = first_match p xs in if p x then some x else rest

abbrev pub or_path : Option String → Option String → Option String
or_path none rest = rest
or_path (some path) rest = some path

-- for pattern in args.protected_path: for path in files: …
abbrev pub protected_hit : (String → String → Bool) → List String → List String → Option String
protected_hit fnmatch files [] = none
protected_hit fnmatch files (pattern ∷ patterns) =
    or_path (first_match (λ path. fnmatch path pattern) files)
      (protected_hit fnmatch files patterns)

-- args.target_branch or tree["meta"].get("trunk_branch"); a value that is no text names no branch
abbrev pub text_value : {N : Type 0} → Scalar N → String
text_value null = empty_text
text_value (flag b) = empty_text
text_value (number x) = empty_text
text_value (text s) = s
text_value (json s b) = empty_text

abbrev pub merge_target : {N : Type 0} → MergeArgs N → Tree N → String
merge_target a t =
    if has_text a.target_branch
    then text_or_empty a.target_branch
    else text_value (meta_get t "trunk_branch")

abbrev pub or_refuse : {N : Type 0} → Option String → (String → Reason) → Verdict N → Verdict N
or_refuse none reason v = v
or_refuse (some x) reason v = refused (reason x)

module _ {N : Type 0} (num : Numbers N) (find : Finder N) where
  abbrev pub result_score : ℕ → Option N → Result N
  result_score rc none = err eval_failed
  result_score rc (some score) = if eqb rc 0 then ok score else err eval_failed

  -- The score that was given, or that of the evaluation in a detached worktree.
  unfoldable pub test_score_of : MergeWorld → Tree N → Option N → Result N
  unfolding parse_score
  test_score_of w t (some score) = ok score
  test_score_of w t none =
      if is_true_value num (meta_get t "eval_cmd_test")
      then (if w.detached
          then (if w.timeout_reads
              then result_score w.eval_code (parse_score num find w.eval_output)
              else err bad_timeout)
          else err git_failed)
      else err no_test_score

  abbrev pub reference : Tree N → Scalar N
  reference t =
      let trunk = meta_get t "test_trunk_score" in
      if is_null_value trunk then meta_get t "test_baseline_score" else trunk

  -- The new score does not improve on `old`, if that is a number.
  unfoldable pub falls_short : Tree N → N → Option N → Bool
  unfolding is_improvement
  falls_short t new none = false
  falls_short t new (some old) = not (is_improvement num t new old)

  abbrev pub path_hit : MergeArgs N → MergeWorld → Option String
  path_hit a w = files_hit w.diff
    where
      files_hit : Option (List String) → Option String
      files_hit none = none
      files_hit (some files) = protected_hit w.fnmatch files a.protected_paths

  abbrev pub missing_output : MergeArgs N → MergeWorld → Option String
  missing_output a w = first_match (λ output. not (w.shows output)) a.required_outputs

  -- The tests on a score.
  unfoldable pub judged : MergeArgs N → MergeWorld → Tree N → String → Result N → Verdict N
  unfolding falls_short
  judged a w t target (err r) = refused r
  judged a w t target (ok score) =
      if falls_short t score (as_number num (reference t))
      then refused no_improvement
      else or_refuse (path_hit a w) protected_path
          (or_refuse (missing_output a w) output_missing (accepted target score))

  unfoldable pub merge_verdict : MergeArgs N → MergeWorld → Tree N → Verdict N
  unfolding judged test_score_of
  merge_verdict a w t =
      let target = merge_target a t in
      if target == empty_text
      then refused no_target
      else if contains protected_branches target
      then refused protected_branch
      else judged a w t target (test_score_of w t a.test_score)

-- The tree that the file then holds, the reason of a SystemExit, and the repository.
pub record Merged (N : Type 0) : Type 0 where
  pub tree : Tree N
  pub reason : Option Reason
  pub repo : Repo

abbrev pub back_to : MergeWorld → String → Repo → String
back_to w target r =
    if r.current == empty_text then target else if w.return_ok then r.current else target

abbrev pub merge_ended : {N : Type 0} → Tree N → Option Reason → Repo → Merged N
merge_ended t reason repo = record { tree = t; reason = reason; repo = repo }

module _ {N : Type 0} (num : Numbers N) (find : Finder N) where
  -- meta["test_trunk_score"], and the node's status and branch
  abbrev pub merged_tree : MergeArgs N → N → Tree N → Node N → Tree N
  merged_tree a score t n =
      put a.node_id (record n { status = "merged"; code_ref = some a.source_branch })
        (record t { meta = insert "test_trunk_score" (number score) t.meta })

  abbrev pub carry_out : MergeArgs N → MergeWorld → Tree N → Repo → Verdict N → Merged N
  carry_out a w t repo (refused r) = merge_ended t (some r) repo
  carry_out a w t repo (accepted target score) =
      let back = back_to w target repo in
      let done_repo : Repo = record {
        current = back;
        merged = (a.source_branch, target) ∷ repo.merged;
      } in
      if a.dry_run
      then merge_ended t none repo
      else if not w.checkout_ok
      then merge_ended t (some git_failed) repo
      else if not w.merge_ok
      then merge_ended t (some git_failed) (record repo { current = back })
      else found_or (lookup a.node_id t.nodes)
          (merge_ended t (some (node_not_found a.node_id)) done_repo)
          (λ n. merge_ended (merged_tree a score t n) none done_repo)

  unfoldable pub cmd_merge : MergeArgs N → MergeWorld → Tree N → Repo → Merged N
  unfolding merge_verdict
  cmd_merge a w t repo = carry_out a w t repo (merge_verdict num find a w t)
