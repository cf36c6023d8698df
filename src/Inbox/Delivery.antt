-- ===== src/Inbox/Delivery.antt =====
-- What an acknowledgement and a new entry change of what is read.
use Prim.Native.String.{[] as empty_text}
use go_agent_llm_orchestrato.Prelude.{
  String, ◌==◌, ◌≡◌, ◌≢◌, refl, sym, ap, ◌∙◌, Bool, true, false, Option, none, some, or_default,
  List, [], ◌∷◌, arith, eq_iff, if◌then◌else◌, Bool-cases, inl, inr,
}
use go_agent_llm_orchestrato.Inbox.{
  Value, text, Fields, Line, blank, malformed, scalar, mapping, World, value_of, is_falsy,
}
use go_agent_llm_orchestrato.Inbox.Reading.{
  InboxEntry, entry_of, Filter, is_text, keeps, add_if, read_entries, Ack, raises, unchanged, acked,
  after, with_ack,
}

-- Everything, and everything that is not acknowledged.
abbrev pub everything : Filter
everything = record { intent = none; target = none; since = none; include_acked = true }

abbrev pub open_ones : Filter
open_ones = record { intent = none; target = none; since = none; include_acked = false }

abbrev pub without_first : String → List InboxEntry → List InboxEntry
without_first i [] = []
without_first i (e ∷ es) = if is_text i e.id then es else e ∷ without_first i es

-- The acknowledgement on what json.loads makes of the lines.
unfoldable pub ack_parsed : World → (entry_id acked_by : String) → List Line → Ack Line
ack_parsed w i by [] = unchanged
ack_parsed w i by (blank ∷ lines) = after blank (ack_parsed w i by lines)
ack_parsed w i by (malformed ∷ lines) = after malformed (ack_parsed w i by lines)
ack_parsed w i by (scalar ∷ lines) = raises
ack_parsed w i by (mapping d ∷ lines) =
    let rest = ack_parsed w i by lines in
    if is_text i (value_of d.id)
    then (if is_falsy (value_of d.acked_ts)
        then acked (mapping (with_ack w by d) ∷ lines)
        else unchanged)
    else after (mapping d) rest

pub after_inv :
    {A : Type 0} (l : A) (a : Ack A) (lines : List A)
    → after l a ≡ acked lines
    → (rest : List A) × ((a ≡ acked rest) × (lines ≡ l ∷ rest))
after_inv l raises lines h = cc
after_inv l unchanged lines h = cc
after_inv l (acked rest) lines h = (rest, (refl, cc))

pub acked_inj : {A : Type 0} (xs ys : List A) → acked xs ≡ acked ys → ys ≡ xs
acked_inj xs ys h = cc

-- An entry that is acknowledged once is not acknowledged again.
pub ack_parsed-once :
    (w : World) (i by by' : String) (file file' : List Line)
    → (w.now == empty_text) ≡ false
    → ack_parsed w i by file ≡ acked file'
    → ack_parsed w i by' file' ≡ unchanged
unfolding ack_parsed
ack_parsed-once w i by by' [] file' n h = cc
ack_parsed-once w i by by' (blank ∷ lines) file' n h =
    let (rest, (a, e)) = after_inv blank (ack_parsed w i by lines) file' h in
    rw (e, ack_parsed-once w i by by' lines rest n a) refl
ack_parsed-once w i by by' (malformed ∷ lines) file' n h =
    let (rest, (a, e)) = after_inv malformed (ack_parsed w i by lines) file' h in
    rw (e, ack_parsed-once w i by by' lines rest n a) refl
ack_parsed-once w i by by' (scalar ∷ lines) file' n h = cc
ack_parsed-once w i by by' (mapping d ∷ lines) file' n h =
    elim (Bool-cases (is_text i (value_of d.id))) [
      | inl t ↦ elim (Bool-cases (is_falsy (value_of d.acked_ts))) [
        | inl f ↦
            let e = acked_inj (mapping (with_ack w by d) ∷ lines) file' (rw (t, f) at h) in
            rw e (rw (t, n) refl)
        | inr f ↦ absurd (unchanged≢acked (rw (t, f) at h))
      ]
      | inr t ↦
          let (rest, (a, e)) = after_inv (mapping d) (ack_parsed w i by lines) file' (rw t at h) in
          rw e (rw (t, ack_parsed-once w i by by' lines rest n a) refl)
    ]
  where
    unchanged≢acked : unchanged ≢ acked file'
    unchanged≢acked h = cc

add_if_inv :
    (b : Bool) (e : InboxEntry) (r : Option (List InboxEntry)) (es : List InboxEntry)
    → add_if (some b) e r ≡ some es
    → (es' : List InboxEntry) × ((r ≡ some es') × (es ≡ (if b then e ∷ es' else es')))
add_if_inv true e none es h = cc
add_if_inv true e (some es') es h = (es', (refl, cc))
add_if_inv false e none es h = cc
add_if_inv false e (some es') es h = (es', (refl, cc))

add_if-some :
    (b : Bool) (e : InboxEntry) (es : List InboxEntry)
    → add_if (some b) e (some es) ≡ some (if b then e ∷ es else es)
add_if-some true e es = refl
add_if-some false e es = refl

keeps-open_ones : (w : World) (e : InboxEntry) → keeps w open_ones e ≡ some (is_falsy e.acked_ts)
unfolding keeps
keeps-open_ones w e = elim (Bool-cases (is_falsy e.acked_ts)) [
  | inl f ↦ rw f refl
  | inr f ↦ rw f refl
]

read-mapping :
    (w : World) (d : Fields) (lines : List Line)
    → read_entries w open_ones (mapping d ∷ lines)
      ≡ add_if (some (is_falsy (value_of d.acked_ts))) (entry_of d) (read_entries w open_ones lines)
unfolding read_entries
read-mapping w d lines =
    ap (λ o. add_if o (entry_of d) (read_entries w open_ones lines))
      (keeps-open_ones w (entry_of d))

is_text_default :
    (i : String) (o : Option Value)
    → (i == empty_text) ≡ false
    → is_text i (or_default o (text "")) ≡ is_text i (value_of o)
is_text_default i none n = ground (arith, eq_iff i empty_text, eq_iff empty_text i)
is_text_default i (some v) n = refl

without_first-if :
    (i : String) (b : Bool) (e : InboxEntry) (es : List InboxEntry)
    → is_text i e.id ≡ false
    → without_first i (if b then e ∷ es else es)
      ≡ (if b then e ∷ without_first i es else without_first i es)
without_first-if i true e es n = rw n refl
without_first-if i false e es n = refl

-- After an entry is acknowledged, what is still open is what was open before without the first entry
-- of that id.
pub read_entries-ack_parsed :
    (w : World) (i by : String) (file file' : List Line) (es : List InboxEntry)
    → (i == empty_text) ≡ false
    → (w.now == empty_text) ≡ false
    → read_entries w open_ones file ≡ some es
    → ack_parsed w i by file ≡ acked file'
    → read_entries w open_ones file' ≡ some (without_first i es)
unfolding ack_parsed read_entries entry_of
read_entries-ack_parsed w i by [] file' es n t r h = cc
read_entries-ack_parsed w i by (blank ∷ lines) file' es n t r h =
    let (rest, (a, e)) = after_inv blank (ack_parsed w i by lines) file' h in
    rw e (read_entries-ack_parsed w i by lines rest es n t r a)
read_entries-ack_parsed w i by (malformed ∷ lines) file' es n t r h =
    let (rest, (a, e)) = after_inv malformed (ack_parsed w i by lines) file' h in
    rw e (read_entries-ack_parsed w i by lines rest es n t r a)
read_entries-ack_parsed w i by (scalar ∷ lines) file' es n t r h = cc
read_entries-ack_parsed w i by (mapping d ∷ lines) file' es n t r h =
    let b = is_falsy (value_of d.acked_ts) in
    let (es', (q, k)) =
      add_if_inv b (entry_of d) (read_entries w open_ones lines) es
        (sym (read-mapping w d lines) ∙ r) in
    let same : is_text i (entry_of d).id ≡ is_text i (value_of d.id) = is_text_default i d.id n in
    elim (Bool-cases (is_text i (value_of d.id))) [
      | inl m ↦ elim (Bool-cases b) [
        | inl f ↦
            let e = acked_inj (mapping (with_ack w by d) ∷ lines) file' (rw (m, f) at h) in
            let dropped : without_first i es ≡ es' = rw (k, f, same, m) refl in
            let falsy : is_falsy (value_of (with_ack w by d).acked_ts) ≡ false = t in
            rw e (read-mapping w (with_ack w by d) lines ∙ rw (falsy, q, dropped) refl)
        | inr f ↦ absurd (unchanged≢acked (rw (m, f) at h))
      ]
      | inr m ↦
          let (rest, (a, e)) = after_inv (mapping d) (ack_parsed w i by lines) file' (rw m at h) in
          let ih = read_entries-ack_parsed w i by lines rest es' n t q a in
          let kept : without_first i es
              ≡ (if b then entry_of d ∷ without_first i es' else without_first i es') =
            ap (without_first i) k ∙ without_first-if i b (entry_of d) es' (same ∙ m) in
          rw e (
            read-mapping w d rest
            ∙ (ap (add_if (some b) (entry_of d)) ih
                ∙ (add_if-some b (entry_of d) (without_first i es') ∙ ap (λ x. some x) (sym kept))))
    ]
  where
    unchanged≢acked : unchanged ≢ acked file'
    unchanged≢acked h = cc

abbrev pub has_scalar : List Line → Bool
has_scalar [] = false
has_scalar (scalar ∷ lines) = true
has_scalar (blank ∷ lines) = has_scalar lines
has_scalar (malformed ∷ lines) = has_scalar lines
has_scalar (mapping d ∷ lines) = has_scalar lines

-- Every mapping of a file, as an entry.
abbrev pub entries_in : List Line → List InboxEntry
entries_in [] = []
entries_in (blank ∷ lines) = entries_in lines
entries_in (malformed ∷ lines) = entries_in lines
entries_in (scalar ∷ lines) = entries_in lines
entries_in (mapping d ∷ lines) = entry_of d ∷ entries_in lines

add_if-true :
    (e : InboxEntry) (b : Bool) (es : List InboxEntry)
    → add_if (some true) e (if b then none else some es) ≡ (if b then none else some (e ∷ es))
add_if-true e true es = refl
add_if-true e false es = refl

-- Reading without a filter gives the entries of all the mappings of the file, in their order, and
-- raises exactly if some line holds a JSON value that is no mapping, like a number or `true`.
pub read_entries_lem :
    (w : World) (file : List Line)
    → read_entries w everything file ≡ (if has_scalar file then none else some (entries_in file))
unfolding read_entries keeps
read_entries_lem w [] = refl
read_entries_lem w (blank ∷ lines) = read_entries_lem w lines
read_entries_lem w (malformed ∷ lines) = read_entries_lem w lines
read_entries_lem w (scalar ∷ lines) = refl
read_entries_lem w (mapping d ∷ lines) =
    ap (add_if (some true) (entry_of d)) (read_entries_lem w lines)
    ∙ add_if-true (entry_of d) (has_scalar lines) (entries_in lines)
