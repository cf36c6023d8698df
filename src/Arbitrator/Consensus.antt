-- ===== src/Arbitrator/Consensus.antt =====
-- The verdict of arbitrator.py and its confidence, the check without a model, and run_consensus.
use Prim.Native.String.{[] as empty_text, ◌++◌ as append_text}
use text.Mathlib.Text.{find?}
use go_agent_llm_orchestrato.Prelude.{
  ℕ, String, ◌==◌, Bool, true, false, not, ◌&&◌, ◌||◌, Option, none, some, List, [], ◌∷◌, ◌++◌,
  is_nil, is_some, eqb, all, starts_with, if◌then◌else◌,
}
use go_agent_llm_orchestrato.Prelude.Text.{ends_with}
use go_agent_llm_orchestrato.Arbitrator.{
  CritiqueItem, is_valid_item, is_valid_resolution, from_answer, Resolution, blocker_failures,
  extract_json_block,
}
use go_agent_llm_orchestrato.Prelude.Words.{strip, join, take_text}

-- Floats: their order, the decimals of the code, and what it computes with them.
pub record Confidence (N : Type 0) : Type 0 where
  pub less : N → N → Bool
  -- n / 10, as 0.5 for 5
  pub tenths : ℕ → N
  -- confidence * (0.5 + 0.5 * alignment), and the decay below the threshold
  pub adjusted : N → N
  -- abs(x - y) > 0.01
  pub far : N → N → Bool

-- What stands under a key that should hold a list: nothing, a list, a text or a mapping, which is no list
-- but can be gone through, or a value that cannot.
pub data JsonField : Type 0 where
  missing : JsonField
  listed : List String → JsonField
  iterable : JsonField
  not_iterable : JsonField

-- verdict.get(key, []) + [x]; `none` is the TypeError
abbrev pub add_text : String → JsonField → Option JsonField
add_text x missing = some (listed (x ∷ []))
add_text x (listed xs) = some (listed (xs ++ x ∷ []))
add_text x iterable = none
add_text x not_iterable = none

-- for c in verdict.get(key, [])
abbrev pub goes_through : JsonField → Bool
goes_through missing = true
goes_through (listed xs) = true
goes_through iterable = true
goes_through not_iterable = false

pub record Decision (N : Type 0) : Type 0 where
  pub plan_ref : String
  pub status : String
  pub conditions : JsonField
  pub confidence : N
  pub confidence_raw : Option N
  pub dna_adjusted : Bool
  pub risk_areas : JsonField
  pub summary : String

-- What json.loads makes of the judge's answer: the keys that the code reads. `confidence` is what float()
-- makes of that key.
pub record JudgeAnswer (N : Type 0) : Type 0 where
  pub status : Option String
  pub has_confidence : Bool
  pub confidence : Option N
  pub conditions : JsonField
  pub risk_areas : JsonField
  pub summary : String

-- What the override adds.
abbrev pub blockers_text : List String → String
blockers_text failed = append_text "Resolve blocker critiques: " (join ", " failed)

abbrev pub check_off_text : String
check_off_text = "Automated check-off failed due to unaccepted blocker critiques"

module _ {N : Type 0} (num : Confidence N) where
  -- max(0.0, min(1.0, x))
  unfoldable pub clamp01 : N → N
  clamp01 x =
      let m = if num.less x (num.tenths 10) then x else num.tenths 10 in
      if num.less (num.tenths 0) m then m else num.tenths 0

  unfoldable pub apply_dna_to_confidence : N → N
  unfolding clamp01
  apply_dna_to_confidence x = clamp01 (num.adjusted x)

  unfoldable pub unparsed : String → String → Decision N
  unfolding take_text
  unparsed plan_id text = record {
    plan_ref = plan_id;
    status = "conditional";
    conditions = listed ("Review raw Arbitrator output" ∷ []);
    confidence = num.tenths 5;
    confidence_raw = none;
    dna_adjusted = false;
    risk_areas = listed ("Unable to parse structured verdict" ∷ []);
    summary = take_text 300 text;
  }

  unfoldable pub parsed : String → String → JudgeAnswer N → Option String → Option N → Decision N
  unfolding clamp01 unparsed
  parsed plan_id text v none x = unparsed plan_id text
  parsed plan_id text v (some status) none = unparsed plan_id text
  parsed plan_id text v (some status) (some x) = record {
    plan_ref = plan_id;
    status = status;
    conditions = v.conditions;
    confidence = clamp01 x;
    confidence_raw = none;
    dna_adjusted = false;
    risk_areas = v.risk_areas;
    summary = v.summary;
  }

  unfoldable pub parse_verdict : String → String → Option (JudgeAnswer N) → Decision N
  unfolding parsed unparsed
  parse_verdict plan_id text none = unparsed plan_id text
  parse_verdict plan_id text (some v) =
      parsed plan_id text v v.status (if v.has_confidence then v.confidence else none)

  unfoldable pub align_confidence : Decision N → Decision N
  unfolding apply_dna_to_confidence
  align_confidence v =
      let aligned = apply_dna_to_confidence v.confidence in
      if num.far aligned v.confidence
      then record v {
        confidence_raw = some v.confidence;
        confidence = aligned;
        dna_adjusted = true;
      }
      else v

  -- The new lists, if both keys can be added to.
  abbrev pub rejected : Decision N → Option JsonField → Option JsonField → Option (Decision N)
  rejected v none risks = none
  rejected v (some conditions) none = none
  rejected v (some conditions) (some risks) =
      some (record v { status = "rejected"; conditions = conditions; risk_areas = risks })

  -- The override when a blocker stands. `none`: a TypeError.
  unfoldable pub override_status : List String → Decision N → Option (Decision N)
  override_status failed v =
      if is_nil failed
      then some v
      else rejected v (add_text (blockers_text failed) v.conditions)
          (add_text check_off_text v.risk_areas)

  -- The two loops that print the lists.
  abbrev pub printed : Option (Decision N) → Option (Decision N)
  printed none = none
  printed (some v) = if goes_through v.conditions && goes_through v.risk_areas then some v else none

-- One staged file: its path, whether it exists, how its compiler ends (none: it cannot be started), and
-- what that says, without spaces at its ends.
pub record Staged : Type 0 where
  pub path : String
  pub exists : Bool
  pub compiled : Option ℕ
  pub stderr : String

abbrev pub python_error : Staged → Option ℕ → List String
python_error f none =
    join empty_text ("Failed to check Python syntax in " ∷ f.path ∷ ": " ∷ f.stderr ∷ []) ∷ []
python_error f (some code) =
    if eqb code 0
    then []
    else join empty_text ("Python syntax error in " ∷ f.path ∷ ": " ∷ f.stderr ∷ []) ∷ []

abbrev pub go_error : Staged → Option ℕ → List String
go_error f none = []
go_error f (some code) =
    if eqb code 0
    then []
    else join empty_text ("Go compilation/vet error in " ∷ f.path ∷ ": " ∷ f.stderr ∷ []) ∷ []

abbrev pub is_checked_file : Staged → Bool
is_checked_file f = ends_with f.path ".py" || ends_with f.path ".go"

abbrev pub fails : Option ℕ → Bool
fails none = false
fails (some code) = not (eqb code 0)

abbrev pub file_errors : Staged → List String
file_errors f =
    if not f.exists
    then []
    else if ends_with f.path ".py"
    then python_error f f.compiled
    else if ends_with f.path ".go"
    then go_error f f.compiled
    else []

abbrev pub file_passes : Staged → Bool
file_passes f = not (f.exists && is_checked_file f && fails f.compiled)

unfoldable pub syntax_errors : List Staged → List String
syntax_errors [] = []
syntax_errors (f ∷ fs) = file_errors f ++ syntax_errors fs

unfoldable pub check_syntax_offline : List Staged → Bool × List String
unfolding syntax_errors
check_syntax_offline [] = (true, "No staged files to check." ∷ [])
check_syntax_offline (f ∷ fs) = (all file_passes (f ∷ fs), syntax_errors (f ∷ fs))

-- The answers of the three rounds as texts, and what json.loads makes of them.
pub record Debate (N : Type 0) : Type 0 where
  pub challenger : String
  pub challenger_source : String
  pub critiques : Option (List CritiqueItem)
  pub resolutions : Option (List Resolution)
  pub judge : String
  pub verdict : Option (JudgeAnswer N)

module _ {N : Type 0} (num : Confidence N) (without_thoughts : String → String) where
  unfoldable pub is_offline : Debate N → Bool
  unfolding extract_json_block strip
  is_offline d =
      d.challenger_source == "stub"
      && (is_some (find? d.challenger "LLM Unavailable")
          || not (starts_with (strip (extract_json_block (without_thoughts d.challenger))) "{"))

  unfoldable pub offline_verdict : String → Bool × List String → Decision N
  offline_verdict plan_id (passed, errors) = record {
    plan_ref = plan_id;
    status = if passed then "approved" else "rejected";
    conditions =
        listed (if passed then [] else "Fix compilation and syntax errors before proceeding." ∷ []);
    confidence = num.tenths (if passed then 8 else 10);
    confidence_raw = none;
    dna_adjusted = false;
    risk_areas = listed (
        if passed
        then "⚠\u{fe0f} No LLM is available (Offline). Verdict issued locally based on syntax analysis."
          ∷ []
        else errors);
    summary =
        if passed
        then "✅ [OFFLINE] Approved: all changed files passed local syntax validation while LLM is unavailable."
        else "🚨 [OFFLINE] Auto-veto: critical syntax/compilation errors detected while LLM is unavailable.";
  }

  -- `none`: a TypeError ends the run, with no verdict.
  unfoldable pub run_consensus : String → List Staged → Debate N → Option (Decision N)
  unfolding is_offline offline_verdict check_syntax_offline from_answer blocker_failures
      parse_verdict align_confidence override_status
  run_consensus plan_id staged d =
      let failed =
        blocker_failures (from_answer is_valid_item d.critiques)
          (from_answer is_valid_resolution d.resolutions) in
      if is_offline d
      then some (offline_verdict plan_id (check_syntax_offline staged))
      else printed num (
          override_status num failed
            (align_confidence num (parse_verdict num plan_id d.judge d.verdict)))
