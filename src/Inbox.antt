-- ===== src/Inbox.antt =====
-- The file of messages from the human, .agent/scripts/communication/inbox.py: one JSON value on
-- each line, the last one ended by a line break.
pub mod Validation
pub mod Reading
pub mod Delivery
pub mod Loss
pub mod Division
pub mod Fragment
mod Samples
use Prim.Native.String.{[] as empty_text}
use go_agent_llm_orchestrato.Prelude.{
  is_nil, ℕ, String, ◌==◌, Bool, true, false, not, ◌&&◌, ◌||◌, Option, none, some, is_some,
  or_default, List, [], ◌∷◌, ◌++◌, contains, ltb, if◌then◌else◌,
}
use go_agent_llm_orchestrato.Prelude.Text.{text_length}

-- A JSON value of a field. A number, list or mapping is `other`.
pub data Value : Type 0 where
  null other : Value
  text : String → Value
  boolean : Bool → Value

-- The mapping of a line: every key may be missing.
pub record Fields : Type 0 where
  pub id : Option Value
  pub ts : Option Value
  pub author : Option Value
  pub intent : Option Value
  pub body : Option Value
  pub target : Option Value
  pub knowledge_anchor : Option Value
  pub ack_required : Option Value
  pub acked_ts : Option Value
  pub acked_by : Option Value

-- A line: blank, no JSON, JSON that is no mapping, or a mapping.
pub data Line : Type 0 where
  blank malformed scalar : Line
  mapping : Fields → Line

-- The regular expressions of ids and anchors, datetime.fromisoformat on a text as an instant, and
-- what the clock and uuid4 give.
pub record World : Type 0 where
  pub id_pattern : String → Bool
  pub anchor_pattern : String → Bool
  pub instant_of : String → Option ℕ
  pub now : String
  pub new_id : String

pub data ValidationError : Type 0 where
  missing_field : String → ValidationError
  bad_id ts_no_string ts_no_iso bad_author bad_intent body_no_string body_empty body_too_long :
      ValidationError
  target_no_string anchor_no_string bad_anchor anchor_required ack_required_no_boolean :
      ValidationError

abbrev pub allowed_intents : List String
allowed_intents = "redirect" ∷ "clarify" ∷ "abort" ∷ "context" ∷ "ack" ∷ []

abbrev pub allowed_authors : List String
allowed_authors = "human" ∷ "agent" ∷ []

abbrev pub body_max_len : ℕ
body_max_len = 2000

-- `errors.append` under a condition
abbrev pub report : Bool → ValidationError → List ValidationError
report true e = e ∷ []
report false e = []

unfoldable pub missing_fields : Fields → List ValidationError
missing_fields f =
    report (not (is_some f.id)) (missing_field "id")
    ++ (report (not (is_some f.ts)) (missing_field "ts")
        ++ (report (not (is_some f.author)) (missing_field "author")
            ++ (report (not (is_some f.intent)) (missing_field "intent")
                ++ report (not (is_some f.body)) (missing_field "body"))))

abbrev pub value_of : Option Value → Value
value_of o = or_default o null

abbrev pub matches : (String → Bool) → Value → Bool
matches p (text s) = p s
matches p null = false
matches p other = false
matches p (boolean b) = false

abbrev pub ts_errors : World → Value → List ValidationError
ts_errors w (text s) = report (not (is_some (w.instant_of s))) ts_no_iso
ts_errors w null = ts_no_string ∷ []
ts_errors w other = ts_no_string ∷ []
ts_errors w (boolean b) = ts_no_string ∷ []

abbrev pub body_errors : Value → List ValidationError
body_errors (text s) =
    if ltb (text_length s) 1
    then body_empty ∷ []
    else report (ltb body_max_len (text_length s)) body_too_long
body_errors null = body_no_string ∷ []
body_errors other = body_no_string ∷ []
body_errors (boolean b) = body_no_string ∷ []

abbrev pub target_errors : Value → List ValidationError
target_errors null = []
target_errors (text s) = []
target_errors other = target_no_string ∷ []
target_errors (boolean b) = target_no_string ∷ []

abbrev pub anchor_errors : World → Value → List ValidationError
anchor_errors w null = []
anchor_errors w (text s) = report (not (w.anchor_pattern s)) bad_anchor
anchor_errors w other = anchor_no_string ∷ []
anchor_errors w (boolean b) = anchor_no_string ∷ []

-- `not value`; a number, list or mapping counts as true here.
abbrev pub is_falsy : Value → Bool
is_falsy null = true
is_falsy (text s) = s == empty_text
is_falsy (boolean b) = not b
is_falsy other = false

abbrev pub needs_anchor : Value → Bool
needs_anchor v = matches (λ s. s == "redirect" || s == "context") v

abbrev pub ack_errors : Option Value → List ValidationError
ack_errors none = []
ack_errors (some (boolean b)) = []
ack_errors (some null) = ack_required_no_boolean ∷ []
ack_errors (some other) = ack_required_no_boolean ∷ []
ack_errors (some (text s)) = ack_required_no_boolean ∷ []

abbrev pub joined : List (List ValidationError) → List ValidationError
joined [] = []
joined (es ∷ ess) = es ++ joined ess

-- The checks after the required fields, in their order.
abbrev pub checks : World → Fields → List (List ValidationError)
checks w f =
    report (not (matches w.id_pattern (value_of f.id))) bad_id
    ∷ ts_errors w (value_of f.ts)
    ∷ report (not (matches (contains allowed_authors) (value_of f.author))) bad_author
    ∷ report (not (matches (contains allowed_intents) (value_of f.intent))) bad_intent
    ∷ body_errors (value_of f.body)
    ∷ target_errors (value_of f.target)
    ∷ anchor_errors w (value_of f.knowledge_anchor)
    ∷ report (needs_anchor (value_of f.intent) && is_falsy (value_of f.knowledge_anchor))
        anchor_required
    ∷ ack_errors f.ack_required
    ∷ []

unfoldable pub field_errors : World → Fields → List ValidationError
field_errors w f = joined (checks w f)

unfoldable pub validate_entry : World → Fields → List ValidationError
unfolding missing_fields field_errors
validate_entry w f = if is_nil (missing_fields f) then field_errors w f else missing_fields f

-- The dictionary of a new InboxEntry: None is left out.
abbrev pub new_fields :
    World → (intent body author : String) (target anchor : Option String) → Bool → Fields
new_fields w intent body author target anchor ack_required = record {
  id = some (text w.new_id);
  ts = some (text w.now);
  author = some (text author);
  intent = some (text intent);
  body = some (text body);
  target = text_field target;
  knowledge_anchor = text_field anchor;
  ack_required = some (boolean ack_required);
  acked_ts = none;
  acked_by = none;
}
  where
    text_field : Option String → Option Value
    text_field none = none
    text_field (some s) = some (text s)

-- `none`: ValueError, with nothing written.
unfoldable pub append_entry :
    World
    → (intent body author : String) (target anchor : Option String) → Bool
    → List Line
    → Option (List Line)
append_entry w intent body author target anchor ack_required file =
    let f = new_fields w intent body author target anchor ack_required in
    if is_nil (validate_entry w f) then some (file ++ mapping f ∷ []) else none
