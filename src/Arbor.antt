-- ===== src/Arbor.antt =====
-- The idea tree of an optimisation run: what .agent/skills/arbor-agent-tools/scripts/arbor_state.py keeps
-- in idea_tree.json, and how it names the children of a node. The children are its commands.
pub mod Naming
pub mod Commands
pub mod Walks
pub mod Shape
pub mod Fresh
pub mod Growth
pub mod Marking
pub mod Children
pub mod Pruning
pub mod Noting
pub mod Upward
pub mod Check
pub mod Checking
pub mod Record
pub mod Meta
pub mod Merge
pub mod Merging
pub mod Effects
pub mod Keeping
pub mod Sessions
mod Samples
use Prim.Native.String.{[] as empty_text, ◌∷◌ as cons_char, ◌++◌ as append_text}
use go_agent_llm_orchestrato.Prelude.{
  ℕ, suc, ◌+◌, String, ◌==◌, Bool, true, false, not, ◌&&◌, ◌||◌, Option, none, some, List, [], ◌∷◌,
  Dict, lookup, max, if◌then◌else◌,
}
use go_agent_llm_orchestrato.Prelude.Text.{text_after}
use go_agent_llm_orchestrato.Prelude.Decimal.{decimal, read_number}

-- A value of `meta`. `json` is an object or an array, with its truth value.
pub data Scalar (N : Type 0) : Type 0 where
  null : Scalar N
  flag : Bool → Scalar N
  number : N → Scalar N
  text : String → Scalar N
  json : String → Bool → Scalar N

-- What the code asks of Python's numbers.
pub record Numbers (N : Type 0) : Type 0 where
  pub less : N → N → Bool
  pub is_zero : N → Bool
  pub of_flag : Bool → N
  pub show : N → String

-- One entry of `nodes`; an Option for a key that an entry may lack.
pub record Node (N : Type 0) : Type 0 where
  pub id : String
  pub parent_id : Option String
  pub children_ids : List String
  pub depth : ℕ
  pub hypothesis : String
  pub status : String
  pub score : Option N
  pub insight : Option String
  pub result : Option String
  pub code_ref : Option String
  pub related_work : Option String

pub record Tree (N : Type 0) : Type 0 where
  pub version : ℕ
  pub meta : Dict (Scalar N)
  pub root_id : String
  pub max_depth : Option ℕ
  pub nodes : Dict (Node N)

abbrev pub version_number : ℕ
version_number = 3

abbrev pub statuses : List String
statuses = "pending" ∷ "running" ∷ "done" ∷ "merged" ∷ "pruned" ∷ []

abbrev pub protected_branches : List String
protected_branches = "main" ∷ "master" ∷ []

module _ {N : Type 0} where
  abbrev pub default_meta : Dict (Scalar N)
  default_meta =
      ("baseline_score", null)
      ∷ ("trunk_score", null)
      ∷ ("test_baseline_score", null)
      ∷ ("test_trunk_score", null)
      ∷ ("eval_cmd", null)
      ∷ ("eval_cmd_test", null)
      ∷ ("eval_timeout", null)
      ∷ ("eval_retries", null)
      ∷ ("eval_retry_base_delay", null)
      ∷ ("eval_retry_max_delay", null)
      ∷ ("dataset_info", null)
      ∷ ("metric_direction", text "maximize")
      ∷ ("trunk_branch", null)
      ∷ ("submission_path", null)
      ∷ ("sample_submission_path", null)
      ∷ []

  abbrev pub new_node : String → Option String → ℕ → String → String → Node N
  new_node id parent depth hypothesis status = record {
    id = id;
    parent_id = parent;
    children_ids = [];
    depth = depth;
    hypothesis = hypothesis;
    status = status;
    score = none;
    insight = none;
    result = none;
    code_ref = none;
    related_work = none;
  }

  abbrev pub default_tree : String → Option ℕ → Tree N
  default_tree task max_depth = record {
    version = version_number;
    meta = default_meta;
    root_id = "ROOT";
    max_depth = max_depth;
    nodes =
        (
          "ROOT",
          new_node "ROOT" none 0 (if task == empty_text then "Research optimization" else task)
              "done",
        )
        ∷ [];
  }

  abbrev pub or_null : Option (Scalar N) → Scalar N
  or_null none = null
  or_null (some v) = v

  -- tree["meta"].get(key)
  abbrev pub meta_get : Tree N → String → Scalar N
  meta_get t key = or_null (lookup key t.meta)

  -- Which values count as true.
  abbrev pub is_true_value : Numbers N → Scalar N → Bool
  is_true_value num null = false
  is_true_value num (flag b) = b
  is_true_value num (number x) = not (num.is_zero x)
  is_true_value num (text s) = not (s == empty_text)
  is_true_value num (json s b) = b

  abbrev pub is_null_value : Scalar N → Bool
  is_null_value null = true
  is_null_value (flag b) = false
  is_null_value (number x) = false
  is_null_value (text s) = false
  is_null_value (json s b) = false

  -- isinstance(v, (int, float)), with float(v)
  abbrev pub as_number : Numbers N → Scalar N → Option N
  as_number num null = none
  as_number num (flag b) = some (num.of_flag b)
  as_number num (number x) = some x
  as_number num (text s) = none
  as_number num (json s b) = none

  abbrev pub is_minimize : Scalar N → Bool
  is_minimize null = false
  is_minimize (flag b) = false
  is_minimize (number x) = false
  is_minimize (text s) = s == "minimize"
  is_minimize (json s b) = false

  unfoldable pub is_improvement : Numbers N → Tree N → N → N → Bool
  is_improvement num t new old =
      if is_minimize (meta_get t "metric_direction") then num.less new old else num.less old new

  -- The nodes of `ids` that exist.
  unfoldable pub present : Dict (Node N) → List String → List (String × Node N)
  present d [] = []
  present d (c ∷ ids) =
      let rest = present d ids in elim (lookup c d) [ none ↦ rest | some n ↦ (c, n) ∷ rest ]

abbrev pub number_after : Option String → Option ℕ
number_after none = none
number_after (some s) = read_number s

-- The match of a child's id: `(\d+)` below the root, parent_id + `\.(\d+)` elsewhere.
unfoldable pub child_number : String → String → String → Option ℕ
unfolding read_number text_after
child_number root parent child =
    if parent == root
    then read_number child
    else number_after (text_after (append_text parent ".") child)

-- The numbers of the children, and the largest of them, `max(nums, default=0)`.
unfoldable pub largest_child : String → String → List String → ℕ
unfolding child_number
largest_child root parent [] = 0
largest_child root parent (c ∷ ids) =
    let rest = largest_child root parent ids in
    elim (child_number root parent c) [ none ↦ rest | some k ↦ max k rest ]

unfoldable pub child_name : String → String → ℕ → String
unfolding decimal
child_name root parent k =
    if parent == root then decimal k else append_text parent (append_text "." (decimal k))

unfoldable pub next_child_id : {N : Type 0} → Tree N → String → Node N → String
unfolding largest_child child_name
next_child_id t parent_id parent =
    child_name t.root_id parent_id (largest_child t.root_id parent_id parent.children_ids + 1)
