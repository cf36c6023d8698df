-- ===== src/Arbitrator.antt =====
-- The debate on a plan: run_consensus of .agent/scripts/orchestration/arbitrator.py with its steps, the
-- schemas of sages_schemas.py that it validates answers with, and apply_dna_to_confidence of dna_utils.py.
pub mod Blockers
pub mod Bounds
pub mod Consensus
pub mod Extraction
mod Samples
use Prim.Native.String.{[] as empty_text, ◌∷◌ as cons_char, ◌++◌ as append_text}
use Prim.Native.Char.{Char}
use text.Mathlib.Text.{find?}
use go_agent_llm_orchestrato.Prelude.{
  ℕ, suc, ◌+◌, ◌-◌, String, ◌==◌, Bool, true, false, not, ◌&&◌, ◌||◌, Option, none, some, List, [],
  ◌∷◌, ◌++◌, Dict, lookup, insert, contains, is_nil, is_some, eqb, all, starts_with, if◌then◌else◌,
}
use go_agent_llm_orchestrato.Prelude.Text.{ends_with}
use go_agent_llm_orchestrato.Prelude.Words.{strip, join, take_text}

-- `char == "x"`
abbrev pub is_char : String → Char → Bool
is_char s c = cons_char c empty_text == s

-- text[text.index(c):]
unfoldable pub text_from : String → String → Option String
text_from s empty_text = none
text_from s (cons_char c t) =
    let rest = text_from s t in if is_char s c then some (cons_char c t) else rest

abbrev pub put_before : Char → Option String → Option String
put_before c none = none
put_before c (some s) = some (cons_char c s)

-- The loop over the characters: in_quote, escaped and brace_count, and what is taken up to the bracket
-- that closes the first one. `none`: there is none.
unfoldable pub block_from : Bool → Bool → ℕ → String → Option String
block_from in_quote escaped count empty_text = none
block_from in_quote escaped count (cons_char c s) =
    let quote = put_before c (block_from (not in_quote) false count s) in
    let escape = put_before c (block_from in_quote true count s) in
    let opened = put_before c (block_from in_quote false (count + 1) s) in
    let closed = put_before c (block_from in_quote false (count - 1) s) in
    let other = put_before c (block_from in_quote false count s) in
    if is_char "\"" c && not escaped
    then quote
    else if is_char "\\" c && not escaped
    then escape
    else if in_quote
    then other
    else if is_char "{" c || is_char "[" c
    then opened
    else if is_char "}" c || is_char "]" c
    then (if eqb count 1 then some (cons_char c empty_text) else closed)
    else other

abbrev pub or_text : Option String → String → String
or_text none t = t
or_text (some s) t = s

abbrev pub or_start : Option String → Option String → Option String
or_start none o = o
or_start (some s) o = some s

unfoldable pub block_at : Option String → String → String
unfolding block_from
block_at none t = t
block_at (some s) t = or_text (block_from false false 0 s) t

-- After the <think> blocks were taken out.
unfoldable pub extract_json_block : String → String
unfolding block_at text_from
extract_json_block t = block_at (or_start (text_from "{" t) (text_from "[" t)) t

pub record CritiqueItem : Type 0 where
  pub id : String
  pub category : String
  pub severity : String
  pub description : String
  pub suggested_action : String

pub record Resolution : Type 0 where
  pub critique_id : String
  pub accepted : Bool
  pub resolution : String

-- CritiqueItem.validate, VerdictResolution.validate
abbrev pub is_valid_item : CritiqueItem → Bool
is_valid_item c =
    not (c.id == empty_text)
    && contains ("security" ∷ "performance" ∷ "design" ∷ []) c.category
    && contains ("blocker" ∷ "warning" ∷ []) c.severity
    && not (c.description == empty_text)
    && not (c.suggested_action == empty_text)

abbrev pub is_valid_resolution : Resolution → Bool
is_valid_resolution r = not (r.critique_id == empty_text) && not (r.resolution == empty_text)

abbrev pub add_item {ℓ} : {A : Type ℓ} → A → Option (List A) → Option (List A)
add_item x none = none
add_item x (some ys) = some (x ∷ ys)

-- from_dict on what was parsed, or the empty list after an exception
unfoldable pub checked {ℓ} : {A : Type ℓ} → (A → Bool) → List A → Option (List A)
checked ok [] = some []
checked ok (x ∷ xs) = let rest = checked ok xs in if ok x then add_item x rest else none

abbrev pub or_dummy {ℓ} : {A : Type ℓ} → Option (List A) → List A
or_dummy none = []
or_dummy (some xs) = xs

unfoldable pub from_answer {ℓ} : {A : Type ℓ} → (A → Bool) → Option (List A) → List A
unfolding checked
from_answer ok none = []
from_answer ok (some xs) = or_dummy (checked ok xs)

-- {c.id: c for c in critiques} and {r.critique_id: r for r in resolutions}
unfoldable pub by_key {ℓ} : {A : Type ℓ} → (A → String) → List A → Dict A → Dict A
by_key key [] d = d
by_key key (x ∷ xs) d = by_key key xs (insert (key x) x d)

abbrev pub is_resolved : Option Resolution → Bool
is_resolved none = false
is_resolved (some r) = r.accepted

abbrev pub failure_text : String → CritiqueItem → String
failure_text id c = join empty_text (id ∷ " (" ∷ c.category ∷ ")" ∷ [])

-- for c_id, c in critique_map.items(): …
unfoldable pub failures : Dict Resolution → Dict CritiqueItem → List String
failures rs [] = []
failures rs ((id, c) ∷ cs) =
    let rest = failures rs cs in
    if c.severity == "blocker" && not (is_resolved (lookup id rs))
    then failure_text id c ∷ rest
    else rest

unfoldable pub blocker_failures : List CritiqueItem → List Resolution → List String
unfolding failures by_key
blocker_failures cs rs =
    failures (by_key (λ (r : Resolution). r.critique_id) rs [])
      (by_key (λ (c : CritiqueItem). c.id) cs [])
