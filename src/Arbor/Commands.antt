-- ===== src/Arbor/Commands.antt =====
-- The commands of arbor_state.py that change nodes: cmd_add, cmd_update, cmd_prune, cmd_propagate. A
-- command returns the tree that the file then holds, and the reason of a SystemExit.
use Prim.Native.String.{[] as empty_text, ◌++◌ as append_text}
use go_agent_llm_orchestrato.Prelude.{
  ℕ, ◌+◌, ◌-◌, String, ◌==◌, Bool, false, not, ◌||◌, Option, none, some, [], ◌∷◌, ◌++◌, Dict,
  lookup, insert, contains, ltb, leb, is_some, or_default, ◌≡◌, sym, ap, subst, Option-cases, inl,
  inr, if◌then◌else◌,
}
use go_agent_llm_orchestrato.Prelude.Text.{text_length}
use go_agent_llm_orchestrato.Prelude.Words.{split, join, take_text}
use go_agent_llm_orchestrato.Arbor.{Node, Tree, statuses, new_node, next_child_id}

pub data Reason : Type 0 where
  node_not_found : String → Reason
  too_deep : Reason
  invalid_status : Reason
  out_of_fuel : Reason
  bad_item : Reason
  unknown_key : String → Reason
  unknown_mode : Reason
  exit_code : ℕ → Reason
  no_report_file : Reason
  git_failed : Reason
  no_target : Reason
  protected_branch : Reason
  eval_failed : Reason
  bad_timeout : Reason
  no_test_score : Reason
  no_improvement : Reason
  protected_path : String → Reason
  output_missing : String → Reason

-- `x or ""`, and the truth of an optional text
abbrev pub text_or_empty : Option String → String
text_or_empty s = or_default s empty_text

abbrev pub has_text : Option String → Bool
has_text s = not (text_or_empty s == empty_text)

unfoldable pub short : String → ℕ → String
unfolding text_length split join take_text
short text n =
    let line = join " " (split text) in
    if leb (text_length line) n then line else append_text (take_text (n - 3) line) "..."

abbrev pub CommandResult : Type 0 → Type 0
CommandResult N = Tree N × Option Reason

abbrev pub exceeds : ℕ → Option ℕ → Bool
exceeds depth none = false
exceeds depth (some most) = ltb most depth

pub record Update (N : Type 0) : Type 0 where
  pub status : Option String
  pub score : Option N
  pub insight : Option String
  pub result : Option String
  pub code_ref : Option String
  pub hypothesis : Option String
  pub related_work : Option String

-- n[key] = value, when the argument was given
abbrev pub given {ℓ} : {A : Type ℓ} → Option A → Option A → Option A
given none old = old
given (some a) old = some a

abbrev pub is_bad_status : Option String → Bool
is_bad_status none = false
is_bad_status (some s) = not (contains statuses s)

pub data Walked (N : Type 0) : Type 0 where
  done : Dict (Node N) → Walked N
  failed : Reason → Walked N

module _ {N : Type 0} where
  abbrev pub stopped : Tree N → Reason → CommandResult N
  stopped t r = (t, some r)

  abbrev pub finished : Tree N → CommandResult N
  finished t = (t, none)

  abbrev pub put : String → Node N → Tree N → Tree N
  put key n t = record t { nodes = insert key n t.nodes }

  -- What is done with a node that may be missing.
  abbrev pub found_or {ℓ} : {B : Type ℓ} → Option (Node N) → B → (Node N → B) → B
  found_or none missing f = missing
  found_or (some n) missing f = f n

  -- node(tree, node_id)
  abbrev pub with_node : Tree N → String → (Node N → CommandResult N) → CommandResult N
  with_node t id f = found_or (lookup id t.nodes) (stopped t (node_not_found id)) f

  pub with_node_split :
      (P : CommandResult N → Type 0) (t : Tree N) (id : String) (f : Node N → CommandResult N)
      → (lookup id t.nodes ≡ none → P (stopped t (node_not_found id)))
      → ((n : Node N) → lookup id t.nodes ≡ some n → P (f n))
      → P (with_node t id f)
  with_node_split P t id f missing found = elim (Option-cases (lookup id t.nodes)) [
    | inl e ↦ subst (λ o. P (found_or o (stopped t (node_not_found id)) f)) (sym e) (missing e)
    | inr (n, e) ↦ subst (λ o. P (found_or o (stopped t (node_not_found id)) f)) (sym e) (found n e)
  ]

  pub with_node-missing :
      (t : Tree N) (id : String) (f : Node N → CommandResult N)
      → lookup id t.nodes ≡ none
      → with_node t id f ≡ stopped t (node_not_found id)
  with_node-missing t id f e = ap (λ o. found_or o (stopped t (node_not_found id)) f) e

  unfoldable pub cmd_add : String → String → Tree N → CommandResult N
  unfolding next_child_id
  cmd_add parent_id hypothesis t = with_node t parent_id (λ parent.
      let node_id = next_child_id t parent_id parent in
      if exceeds (parent.depth + 1) t.max_depth
      then stopped t too_deep
      else finished (
          put node_id (new_node node_id (some parent_id) (parent.depth + 1) hypothesis "pending") (
            put parent_id (record parent { children_ids = parent.children_ids ++ node_id ∷ [] })
              t)))

  unfoldable pub updated : Update N → Node N → Node N
  updated u n = record n {
    status = or_default u.status n.status;
    score = given u.score n.score;
    insight = given u.insight n.insight;
    result = given u.result n.result;
    code_ref = given u.code_ref n.code_ref;
    hypothesis = or_default u.hypothesis n.hypothesis;
    related_work = given u.related_work n.related_work;
  }

  abbrev pub changes_any : Update N → Bool
  changes_any u =
      is_some u.status
      || is_some u.score
      || is_some u.insight
      || is_some u.result
      || is_some u.code_ref
      || is_some u.hypothesis
      || is_some u.related_work

  unfoldable pub cmd_update : String → Update N → Tree N → CommandResult N
  unfolding updated
  cmd_update node_id u t = with_node t node_id (λ n.
      if is_bad_status u.status
      then stopped t invalid_status
      else if changes_any u
      then finished (put node_id (updated u n) t)
      else finished t)
