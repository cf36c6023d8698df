-- ===== src/Arbor/Record.antt =====
-- cmd_record, cmd_worktree, parse_score and branch_name of arbor_state.py.
use Prim.Native.String.{[] as empty_text, ◌∷◌ as cons_char, ◌++◌ as append_text}
use Prim.Native.Char.{Char}
use go_agent_llm_orchestrato.Prelude.{
  String, ◌==◌, Bool, ◌&&◌, ◌||◌, Option, none, some, List, [], ◌∷◌, Dict, lookup, if◌then◌else◌,
}
use go_agent_llm_orchestrato.Prelude.Words.{join, take_text}
use go_agent_llm_orchestrato.Arbor.{Scalar, Numbers, Node, Tree, as_number}
use go_agent_llm_orchestrato.Arbor.Commands.{
  no_report_file, git_failed, CommandResult, stopped, finished, put, with_node, given,
  text_or_empty, has_text, short,
}
use go_agent_llm_orchestrato.Arbor.Walks.{cmd_propagate}

-- What the regular expressions and json.loads find in a text.
pub record Finder (N : Type 0) : Type 0 where
  -- the JSON objects among the matches of `\{[^{}]+\}`
  pub objects : String → List (Dict (Scalar N))
  -- SCORE_PATTERNS, and the pattern of a percentage
  pub patterns : List (String → Option N)
  pub percent : String → Option N
  pub in_unit : N → Bool
  pub times_hundred : N → N

abbrev pub score_keys : List String
score_keys = "score" ∷ "primary_score" ∷ "accuracy" ∷ "acc" ∷ []

module _ {N : Type 0} (num : Numbers N) (find : Finder N) where
  abbrev pub scaled : String → N → N
  scaled key x =
      if (key == "accuracy" || key == "acc") && find.in_unit x then find.times_hundred x else x

  abbrev pub number_at : Dict (Scalar N) → String → Option N
  number_at obj key = number_of (lookup key obj)
    where
      number_of : Option (Scalar N) → Option N
      number_of none = none
      number_of (some v) = as_number num v

  abbrev pub or_else : Option N → Option N → Option N
  or_else none o = o
  or_else (some x) o = some x

  abbrev pub scaled_at : Dict (Scalar N) → String → Option N
  scaled_at obj key = scale (number_at obj key)
    where
      scale : Option N → Option N
      scale none = none
      scale (some x) = some (scaled key x)

  unfoldable pub object_score : Dict (Scalar N) → List String → Option N
  object_score obj [] = none
  object_score obj (key ∷ ks) = or_else (scaled_at obj key) (object_score obj ks)

  unfoldable pub objects_score : List (Dict (Scalar N)) → Option N
  unfolding object_score
  objects_score [] = none
  objects_score (obj ∷ objs) = or_else (object_score obj score_keys) (objects_score objs)

  unfoldable pub patterns_score : List (String → Option N) → String → Option N
  patterns_score [] s = none
  patterns_score (p ∷ ps) s = or_else (p s) (patterns_score ps s)

  unfoldable pub parse_score : String → Option N
  unfolding objects_score patterns_score
  parse_score s =
      or_else (objects_score (find.objects s))
        (or_else (patterns_score find.patterns s) (find.percent s))

-- The arguments of `record`; a report file is given by its content, if it exists.
pub record Report (N : Type 0) : Type 0 where
  pub raw_report : Option String
  pub report_file : Option (Option String)
  pub score : Option N
  pub insight : Option String
  pub result : Option String
  pub code_ref : Option String
  pub no_propagate : Bool

-- The changes of the node.
module _ {N : Type 0} (num : Numbers N) (find : Finder N) where
  unfoldable pub recorded_node : Report N → String → Node N → Node N
  unfolding parse_score short
  recorded_node a raw n = record n {
    status = "done";
    score = given a.score (parse_score num find raw);
    insight = some (text_or_empty a.insight);
    result = some (if has_text a.result then text_or_empty a.result else short raw 300);
    code_ref = if has_text a.code_ref then a.code_ref else n.code_ref;
  }

  abbrev pub report_text : Option (Option String) → String → Option String
  report_text none raw = some raw
  report_text (some file) raw = file

  unfoldable pub record_text : Report N → String → Tree N → Node N → Option String → CommandResult N
  unfolding recorded_node cmd_propagate
  record_text a node_id t n none = stopped t no_report_file
  record_text a node_id t n (some raw) =
      let t' = put node_id (recorded_node a raw n) t in
      if a.no_propagate then finished t' else cmd_propagate num node_id empty_text t'

  unfoldable pub cmd_record : String → Report N → Tree N → CommandResult N
  unfolding record_text
  cmd_record node_id a t =
      with_node t node_id
        (λ n. record_text a node_id t n (report_text a.report_file (text_or_empty a.raw_report)))

abbrev pub is_char : String → Char → Bool
is_char s c = cons_char c empty_text == s

-- node_id.replace(".", "-")
unfoldable pub dashed : String → String
dashed empty_text = empty_text
dashed (cons_char c s) =
    let rest = dashed s in if is_char "." c then append_text "-" rest else cons_char c rest

-- s.strip("-")
unfoldable pub left_dashes_off : String → String
left_dashes_off empty_text = empty_text
left_dashes_off (cons_char c s) =
    let rest = left_dashes_off s in if is_char "-" c then rest else cons_char c s

unfoldable pub right_dashes_off : String → String
right_dashes_off empty_text = empty_text
right_dashes_off (cons_char c s) =
    let rest = right_dashes_off s in
    if is_char "-" c && rest == empty_text then empty_text else cons_char c rest

-- `slug` is the hypothesis in lower case with each run of other characters replaced by a dash, and
-- `digest` is its SHA-1 in hexadecimal digits.
module _ (slug digest : String → String) where
  unfoldable pub branch_name : String → String → String → String
  unfolding dashed left_dashes_off right_dashes_off take_text join
  branch_name prefix node_id hypothesis =
      let short_slug = take_text 32 (left_dashes_off (right_dashes_off (slug hypothesis))) in
      join empty_text (
        prefix
        ∷ "/n"
        ∷ dashed node_id
        ∷ "-"
        ∷ (if short_slug == empty_text then "idea" else short_slug)
        ∷ "-"
        ∷ take_text 8 (digest hypothesis)
        ∷ [])

  -- `added`: git could add the worktree.
  unfoldable pub cmd_worktree :
      {N : Type 0} → String → Option String → String → Bool → Tree N → CommandResult N
  unfolding branch_name
  cmd_worktree {N} node_id branch prefix added t = with_node t node_id (λ (n : Node N).
      let name =
        if has_text branch then text_or_empty branch else branch_name prefix node_id n.hypothesis in
      if added
      then finished (put node_id (record n { status = "running"; code_ref = some name }) t)
      else stopped t git_failed)
