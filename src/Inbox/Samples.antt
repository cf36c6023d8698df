-- ===== src/Inbox/Samples.antt =====
-- A file of messages.
use go_agent_llm_orchestrato.Prelude.{
  String, ◌==◌, subst, if◌then◌else◌, ◌≡◌, refl, true, none, some, List, [], ◌∷◌, ◌++◌,
}
use go_agent_llm_orchestrato.Inbox.{
  text, Fields, Line, blank, malformed, mapping, World, new_fields, append_entry, validate_entry,
}
use go_agent_llm_orchestrato.Inbox.Reading.{
  ack_entry, read_file, pieces_of, Json, Filter, acked, entry_of, with_ack,
}
use go_agent_llm_orchestrato.Inbox.Validation.{IsValid, append_entry-IsValid}
use go_agent_llm_orchestrato.Inbox.Delivery.{open_ones, without_first}
use go_agent_llm_orchestrato.Inbox.Division.{RoundTrips, Undivided, read_file-ack_entry}
use go_agent_llm_orchestrato.Inbox.Loss.{ack_entry_loses}
use go_agent_llm_orchestrato.Prelude.Text.{text_length}
use go_agent_llm_orchestrato.Inbox.Fragment.{Message, sanitize, strip_for_prompt}

abbrev world : World
world = record {
  id_pattern = λ s. true;
  anchor_pattern = λ s. true;
  instant_of = λ s. some 7;
  now = "2026-01-01T00:00:00Z";
  new_id = "inb_20260101_000000_abcdef";
}

abbrev hello : Fields
hello = new_fields world "clarify" "hello" "human" none none true

abbrev file : List Line
file = malformed ∷ mapping hello ∷ blank ∷ []

-- An entry whose body has U+2028 in it.
abbrev divided_entry : Fields
divided_entry = record hello { id = some (text "inb_2"); body = some (text "a\u{2028}b") }

-- The texts of some lines, with what json.loads makes of them.
abbrev loads_text : String → Line
loads_text t =
    if t == "{hello}"
    then mapping hello
    else if t == "{hello, acked}"
    then mapping (with_ack world "agent" hello)
    else if t == "{a\u{2028}b}"
    then mapping divided_entry
    else if t == ""
    then blank
    else malformed

abbrev json : Json
json = record { loads = loads_text; dumps = λ d. "{hello, acked}" }

abbrev lines : List String
lines = "# inbox" ∷ "{hello}" ∷ "" ∷ []

append_entry-IsValid_example :
    (f : Fields) × ((file ++ mapping hello ∷ [] ≡ file ++ mapping f ∷ []) × IsValid world f)
unfolding append_entry validate_entry text_length
append_entry-IsValid_example =
    append_entry-IsValid world "clarify" "hello" "human" none none true file
      (file ++ mapping hello ∷ []) refl

mapping_injective : (d e : Fields) → mapping d ≡ mapping e → d ≡ e
mapping_injective d e h = cc

lines-RoundTrips : RoundTrips json world "agent" lines
lines-RoundTrips = (
  λ d h. absurd (cc),
  (
    λ d h.
        subst (λ x. loads_text "{hello, acked}" ≡ mapping (with_ack world "agent" x))
          (mapping_injective hello d h) refl,
    (λ d h. absurd (cc), tt),
  ),
)

lines-Undivided : Undivided lines
unfolding pieces_of
lines-Undivided = (refl, (refl, (refl, tt)))

read_file-ack_entry_example :
    read_file json world open_ones ("# inbox" ∷ "{hello, acked}" ∷ "" ∷ [])
    ≡ some (without_first "inb_20260101_000000_abcdef" (entry_of hello ∷ []))
unfolding read_file ack_entry pieces_of
read_file-ack_entry_example =
    read_file-ack_entry json world "inb_20260101_000000_abcdef" "agent" lines
      ("# inbox" ∷ "{hello, acked}" ∷ "" ∷ []) (entry_of hello ∷ []) lines-RoundTrips
      lines-Undivided refl refl refl refl

-- The second entry can be read, and is destroyed by the acknowledgement of the first one.
abbrev both_lines : List String
both_lines = "{hello}" ∷ "{a\u{2028}b}" ∷ []

destroyed :
    (read_file json world open_ones both_lines
      ≡ some (entry_of hello ∷ entry_of divided_entry ∷ []))
    × ((ack_entry json world "inb_20260101_000000_abcdef" "agent" both_lines
          ≡ acked ("{hello, acked}" ∷ "{a" ∷ "b}" ∷ []))
        × (read_file json world open_ones ("{hello, acked}" ∷ "{a" ∷ "b}" ∷ []) ≡ some []))
unfolding read_file ack_entry pieces_of
destroyed = (refl, (refl, refl))

ack_entry_loses_example :
    (file'' : List String) × ((ack_entry json world "inb_20260101_000000_abcdef" "agent"
          ("{hello}" ∷ [])
        ≡ acked file'')
      × ((f : Filter)
          → read_file json world f ("{hello, acked}" ∷ "{a" ∷ "b}" ∷ [])
            ≡ read_file json world f file''))
unfolding ack_entry pieces_of
ack_entry_loses_example =
    ack_entry_loses json world "inb_20260101_000000_abcdef" "agent" ("{hello}" ∷ []) "{a\u{2028}b}"
      [] ("{hello, acked}" ∷ "{a" ∷ "b}" ∷ []) (refl, (refl, tt)) refl

abbrev messages : List Message
messages =
    record {
      ts = "2026-01-02";
      intent = "clarify";
      id = "b";
      body = "<b>later</b>";
      knowledge_anchor = none;
    }
    ∷ record {
      ts = "2026-01-01";
      intent = "redirect";
      id = "a";
      body = "go on";
      knowledge_anchor = some "adr";
    }
    ∷ []

fragment :
    strip_for_prompt 100 messages
    ≡ "[2026-01-01] redirect (a): go on [anchor: adr]\n[2026-01-02] clarify (b): blater/b"
unfolding strip_for_prompt sanitize text_length
fragment = refl
