-- ===== src/Inbox/Reading.antt =====
-- `read_entries` and `ack_entry` of .agent/scripts/communication/inbox.py.
use Prim.Native.String.{[] as empty_text, ◌∷◌ as cons_char}
use go_agent_llm_orchestrato.Prelude.{
  ℕ, String, ◌==◌, Bool, true, false, not, ◌&&◌, ◌||◌, Option, none, some, or_default, List, [],
  ◌∷◌, ◌++◌, map, ltb, if◌then◌else◌,
}
use go_agent_llm_orchestrato.Prelude.Words.{is_break, extend}
use go_agent_llm_orchestrato.Inbox.{
  Value, null, other, text, boolean, Fields, Line, blank, malformed, scalar, mapping, World,
  value_of, matches, is_falsy,
}

-- None is `null`.
pub record InboxEntry : Type 0 where
  pub id : Value
  pub ts : Value
  pub author : Value
  pub intent : Value
  pub body : Value
  pub target : Value
  pub knowledge_anchor : Value
  pub ack_required : Bool
  pub acked_ts : Value
  pub acked_by : Value

unfoldable pub entry_of : Fields → InboxEntry
entry_of f = record {
  id = or_default f.id (text "");
  ts = or_default f.ts (text "");
  author = or_default f.author (text "human");
  intent = or_default f.intent (text "context");
  body = or_default f.body (text "");
  target = value_of f.target;
  knowledge_anchor = value_of f.knowledge_anchor;
  ack_required = not (is_falsy (value_of f.ack_required));
  acked_ts = value_of f.acked_ts;
  acked_by = value_of f.acked_by;
}

-- The arguments of read_entries.
pub record Filter : Type 0 where
  pub intent : Option String
  pub target : Option String
  pub since : Option ℕ
  pub include_acked : Bool

abbrev pub is_text : String → Value → Bool
is_text t v = matches (λ s. s == t) v

abbrev pub is_null : Value → Bool
is_null null = true
is_null other = false
is_null (text s) = false
is_null (boolean b) = false

abbrev pub asks : Option String → (String → Bool) → Bool
asks none p = true
asks (some s) p = if s == empty_text then true else p s

-- Whether an entry is recent enough. `none`: a time that is no text has no `replace`.
abbrev pub recent : World → Option ℕ → Value → Option Bool
recent w none v = some true
recent w (some since) (text s) = some (not_before (w.instant_of s))
  where
    not_before : Option ℕ → Bool
    not_before none = false
    not_before (some t) = not (ltb t since)
recent w (some since) null = none
recent w (some since) other = none
recent w (some since) (boolean b) = none

-- An entry without a target is for every task.
unfoldable pub keeps : World → Filter → InboxEntry → Option Bool
keeps w f e =
    if not (asks f.intent (λ i. is_text i e.intent))
    then some false
    else if not (asks f.target (λ t. is_null e.target || is_text t e.target))
    then some false
    else if not f.include_acked && not (is_falsy e.acked_ts)
    then some false
    else recent w f.since e.ts

abbrev pub add_if : Option Bool → InboxEntry → Option (List InboxEntry) → Option (List InboxEntry)
add_if none e rest = none
add_if (some true) e none = none
add_if (some true) e (some es) = some (e ∷ es)
add_if (some false) e rest = rest

-- `none`: a line with a JSON value that is no mapping raises AttributeError.
unfoldable pub read_entries : World → Filter → List Line → Option (List InboxEntry)
unfolding entry_of keeps
read_entries w f [] = some []
read_entries w f (blank ∷ lines) = read_entries w f lines
read_entries w f (malformed ∷ lines) = read_entries w f lines
read_entries w f (scalar ∷ lines) = none
read_entries w f (mapping d ∷ lines) =
    add_if (keeps w f (entry_of d)) (entry_of d) (read_entries w f lines)

-- json.loads on a line without the white space at its ends, and json.dumps.
pub record Json : Type 0 where
  pub loads : String → Line
  pub dumps : Fields → String

-- The lines of the file, each ended by a line break, as read_entries goes through them.
unfoldable pub read_file : Json → World → Filter → List String → Option (List InboxEntry)
unfolding read_entries
read_file j w f file = read_entries w f (map j.loads file)

-- The pieces into which str.splitlines divides an ended line: at the boundaries that are no line break
-- of a file, as U+2028.
unfoldable pub pieces_of : String → List String
pieces_of empty_text = empty_text ∷ []
pieces_of (cons_char c s) =
    let rest = pieces_of s in if is_break c then empty_text ∷ rest else extend c rest

-- read_text().splitlines()
unfoldable pub divided : List String → List String
unfolding pieces_of
divided [] = []
divided (l ∷ ls) = pieces_of l ++ divided ls

-- What ack_entry does: it raises, returns False with nothing written, or writes and returns True.
pub data Ack (A : Type 0) : Type 0 where
  raises unchanged : Ack A
  acked : List A → Ack A

abbrev pub after : {A : Type 0} → A → Ack A → Ack A
after l raises = raises
after l unchanged = unchanged
after l (acked lines) = acked (l ∷ lines)

abbrev pub with_ack : World → String → Fields → Fields
with_ack w by d = record d { acked_ts = some (text w.now); acked_by = some (text by) }

module _ (j : Json) (w : World) (entry_id acked_by : String) where
  -- A line, by what json.loads makes of it; `rest` is what becomes of the other ones.
  abbrev pub ack_line : String → List String → Line → Ack String → Ack String
  ack_line l ls blank rest = after l rest
  ack_line l ls malformed rest = after l rest
  ack_line l ls scalar rest = raises
  ack_line l ls (mapping d) rest =
      if is_text entry_id (value_of d.id)
      then (if is_falsy (value_of d.acked_ts)
          then acked (j.dumps (with_ack w acked_by d) ∷ ls)
          else unchanged)
      else after l rest

  unfoldable pub ack_lines : List String → Ack String
  ack_lines [] = unchanged
  ack_lines (l ∷ ls) = ack_line l ls (j.loads l) (ack_lines ls)

  unfoldable pub ack_entry : List String → Ack String
  unfolding ack_lines divided
  ack_entry file = ack_lines (divided file)
