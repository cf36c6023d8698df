-- ===== src/Inbox/Fragment.antt =====
-- `strip_for_prompt` of .agent/scripts/communication/inbox.py: the fragment that the daemon puts before
-- a task's description.
use Prim.Native.String.{[] as empty_text, ◌∷◌ as cons_char, ◌++◌ as append_text}
use Prim.Native.Char.{Char}
use text.Mathlib.Text.{is_lt}
use Prim.Native.String.{compare}
use go_agent_llm_orchestrato.Prelude.{
  ℕ, ◌+◌, ◌≤◌, String, ◌==◌, ◌≡◌, refl, sym, ap, false≢true, Bool, false, Option, none, some, List,
  [], ◌∷◌, contains, length, ltb, arith, if◌then◌else◌, Bool-cases, inl, inr,
}
use go_agent_llm_orchestrato.Prelude.Text.{text_length, text_length-append}

-- The texts of an entry that has been read.
pub record Message : Type 0 where
  pub ts : String
  pub intent : String
  pub id : String
  pub body : String
  pub knowledge_anchor : Option String

-- sorted(entries, key=lambda e: e.ts): stable, the earliest first
unfoldable pub place : Message → List Message → List Message
place m [] = m ∷ []
place m (x ∷ xs) = if is_lt (compare m.ts x.ts) then m ∷ x ∷ xs else x ∷ place m xs

unfoldable pub sort_from : List Message → List Message → List Message
unfolding place
sort_from [] sorted = sorted
sort_from (m ∷ ms) sorted = sort_from ms (place m sorted)

abbrev pub is_control : Char → Bool
is_control c =
    contains ("<" ∷ ">" ∷ "`" ∷ "*" ∷ "_" ∷ "~" ∷ "#" ∷ "[" ∷ "]" ∷ []) (cons_char c empty_text)

-- re.sub(r"[<>`*_~#\[\]]", "", body)
unfoldable pub sanitize : String → String
sanitize empty_text = empty_text
sanitize (cons_char c s) = let rest = sanitize s in if is_control c then rest else cons_char c rest

abbrev pub anchor_part : Option String → String
anchor_part none = ""
anchor_part (some a) = if a == empty_text then "" else append_text " [anchor: " (append_text a "]")

-- f"[{e.ts}] {e.intent} ({e.id}): {body}" and the anchor
unfoldable pub snippet_of : Message → String
unfolding sanitize
snippet_of m = append_text "[" (
    append_text m.ts (
      append_text "] " (
        append_text m.intent (
          append_text " (" (
            append_text m.id (
              append_text "): "
                (append_text (sanitize m.body) (anchor_part m.knowledge_anchor))))))))

-- The loop: the first snippet that does not fit ends it.
unfoldable pub take_parts : ℕ → ℕ → List Message → List String
unfolding snippet_of
take_parts max_chars total [] = []
take_parts max_chars total (m ∷ ms) =
    let rest = take_parts max_chars (total + text_length (snippet_of m)) ms in
    if ltb max_chars (total + text_length (snippet_of m)) then [] else snippet_of m ∷ rest

-- "\n".join(parts)
unfoldable pub join_lines : List String → String
join_lines [] = ""
join_lines (p ∷ []) = p
join_lines (p ∷ q ∷ ps) = append_text p (append_text "\n" (join_lines (q ∷ ps)))

unfoldable pub parts_of : ℕ → List Message → List String
unfolding sort_from take_parts
parts_of max_chars messages = take_parts max_chars 0 (sort_from messages [])

unfoldable pub strip_for_prompt : ℕ → List Message → String
unfolding parts_of join_lines
strip_for_prompt max_chars messages = join_lines (parts_of max_chars messages)

unfoldable total_length : List String → ℕ
total_length [] = 0
total_length (p ∷ ps) = text_length p + total_length ps

take_parts-total :
    (max_chars total : ℕ) (ms : List Message)
    → total ≤ max_chars
    → total + total_length (take_parts max_chars total ms) ≤ max_chars
unfolding take_parts total_length
take_parts-total max_chars total [] h = omega (arith, h)
take_parts-total max_chars total (m ∷ ms) h =
    elim (Bool-cases (ltb max_chars (total + text_length (snippet_of m)))) [
      | inl e ↦ rw e (omega (arith, h))
      | inr e ↦
          let fits : total + text_length (snippet_of m) ≤ max_chars = ground arith in
          rw e
            (omega (arith, take_parts-total max_chars (total + text_length (snippet_of m)) ms fits))
    ]

join_lines-length : (ps : List String) → text_length (join_lines ps) ≤ total_length ps + length ps
unfolding join_lines total_length text_length
join_lines-length [] = omega arith
join_lines-length (p ∷ []) = omega arith
join_lines-length (p ∷ q ∷ ps) =
    rw
      (
        text_length-append p (append_text "\n" (join_lines (q ∷ ps))),
        text_length-append "\n" (join_lines (q ∷ ps)),
      )
      (omega (arith, join_lines-length (q ∷ ps)))

-- A fragment has at most the characters that it may have, and a line break for each message in it.
pub strip_for_prompt-length :
    (max_chars : ℕ) (messages : List Message)
    → text_length (strip_for_prompt max_chars messages)
      ≤ max_chars + length (parts_of max_chars messages)
unfolding strip_for_prompt parts_of
strip_for_prompt-length max_chars messages = omega (
  arith,
  join_lines-length (parts_of max_chars messages),
  take_parts-total max_chars 0 (sort_from messages []) (omega arith),
)

-- No character of the text is one of markup.
abbrev pub IsClean : String → Type 0
IsClean empty_text = Unit {0}
IsClean (cons_char c s) = (is_control c ≡ false) × IsClean s

-- A body that goes into a fragment has no character of markup, and one that had none goes in as it is.
pub sanitize-IsClean : (s : String) → IsClean (sanitize s) × (IsClean s → sanitize s ≡ s)
unfolding sanitize
sanitize-IsClean empty_text = (tt, λ h. refl)
sanitize-IsClean (cons_char c s) = elim (Bool-cases (is_control c)) [
  | inl e ↦ rw e ((sanitize-IsClean s).0, λ h. absurd (false≢true (sym h.0)))
  | inr e ↦
      rw e ((e, (sanitize-IsClean s).0), λ h. ap (λ r. cons_char c r) ((sanitize-IsClean s).1 h.1))
]
