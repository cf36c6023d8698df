-- ===== src/Inbox/Validation.antt =====
-- What `validate_entry` lets pass, and what `append_entry` writes.
use go_agent_llm_orchestrato.Prelude.{
  is_nil, is_nil-append, ◌≤◌, String, ◌≡◌, refl, sym, ap, ◌∙◌, Bool, true, false, not, ◌&&◌, All,
  Option, some, is_some, List, [], ◌∷◌, ◌++◌, contains, arith, if_split, Bool-cases, inl, inr, ◌⊎◌,
  false≢true,
}
use go_agent_llm_orchestrato.Prelude.Text.{text_length}
use go_agent_llm_orchestrato.Inbox.{
  Value, null, other, text, boolean, Fields, Line, mapping, World, ValidationError, bad_id,
  bad_author, bad_intent, anchor_required, joined, checks, body_max_len, allowed_intents,
  allowed_authors, report, missing_fields, value_of, matches, ts_errors, body_errors, target_errors,
  anchor_errors, is_falsy, needs_anchor, field_errors, validate_entry, new_fields, append_entry,
}

-- A text with a property.
abbrev pub IsText : (String → Type 0) → Value → Type 0
IsText P v = (s : String) × ((v ≡ text s) × P s)

pub record IsValid (w : World) (f : Fields) : Type 0 where
  pub id : IsText (λ s. w.id_pattern s ≡ true) (value_of f.id)
  pub ts : IsText (λ s. is_some (w.instant_of s) ≡ true) (value_of f.ts)
  pub author : IsText (λ s. contains allowed_authors s ≡ true) (value_of f.author)
  pub intent : IsText (λ s. contains allowed_intents s ≡ true) (value_of f.intent)
  pub body : IsText (λ s. (1 ≤ text_length s) × (text_length s ≤ body_max_len)) (value_of f.body)
  pub target : (value_of f.target ≡ null) ⊎ IsText (λ s. Unit {0}) (value_of f.target)
  pub anchor :
      (value_of f.knowledge_anchor ≡ null)
      ⊎ IsText (λ s. w.anchor_pattern s ≡ true) (value_of f.knowledge_anchor)
  pub anchored :
      needs_anchor (value_of f.intent) ≡ true
      → IsText (λ s. w.anchor_pattern s ≡ true) (value_of f.knowledge_anchor)

report-false : (b : Bool) (e : ValidationError) → is_nil (report b e) ≡ true → b ≡ false
report-false true e h = cc
report-false false e h = refl

not-false : (b : Bool) → not b ≡ false → b ≡ true
not-false true h = refl
not-false false h = cc

report-not : (b : Bool) (e : ValidationError) → is_nil (report (not b) e) ≡ true → b ≡ true
report-not b e h = not-false b (report-false (not b) e h)

matches-IsText : (p : String → Bool) (v : Value) → matches p v ≡ true → IsText (λ s. p s ≡ true) v
matches-IsText p (text s) h = (s, (refl, h))
matches-IsText p null h = cc
matches-IsText p other h = cc
matches-IsText p (boolean b) h = cc

ts_errors-IsText :
    (w : World) (v : Value)
    → is_nil (ts_errors w v) ≡ true
    → IsText (λ s. is_some (w.instant_of s) ≡ true) v
ts_errors-IsText w (text s) h = (s, (refl, report-not (is_some (w.instant_of s)) _ h))
ts_errors-IsText w null h = cc
ts_errors-IsText w other h = cc
ts_errors-IsText w (boolean b) h = cc

body_errors-IsText :
    (v : Value)
    → is_nil (body_errors v) ≡ true
    → IsText (λ s. (1 ≤ text_length s) × (text_length s ≤ body_max_len)) v
body_errors-IsText (text s) h = (s, (refl, (ground arith, ground arith)))
body_errors-IsText null h = cc
body_errors-IsText other h = cc
body_errors-IsText (boolean b) h = cc

target_errors-IsText :
    (v : Value) → is_nil (target_errors v) ≡ true → (v ≡ null) ⊎ IsText (λ s. Unit {0}) v
target_errors-IsText null h = inl refl
target_errors-IsText (text s) h = inr (s, (refl, tt))
target_errors-IsText other h = cc
target_errors-IsText (boolean b) h = cc

anchor_errors-IsText :
    (w : World) (v : Value)
    → is_nil (anchor_errors w v) ≡ true
    → (v ≡ null) ⊎ IsText (λ s. w.anchor_pattern s ≡ true) v
anchor_errors-IsText w null h = inl refl
anchor_errors-IsText w (text s) h = inr (s, (refl, report-not (w.anchor_pattern s) _ h))
anchor_errors-IsText w other h = cc
anchor_errors-IsText w (boolean b) h = cc

-- An anchor that is needed is no null.
needed :
    (w : World) (v : Value)
    → (v ≡ null) ⊎ IsText (λ s. w.anchor_pattern s ≡ true) v
    → is_falsy v ≡ false
    → IsText (λ s. w.anchor_pattern s ≡ true) v
needed w v (inl n) h = absurd (false≢true (sym h ∙ ap is_falsy n))
needed w v (inr a) h = a

joined-All :
    (ess : List (List ValidationError))
    → is_nil (joined ess) ≡ true
    → All (λ es. is_nil es ≡ true) ess
joined-All [] h = tt
joined-All (es ∷ ess) h = (let (a, r) = is_nil-append es (joined ess) h in (a, joined-All ess r))

field_errors-IsValid : (w : World) (f : Fields) → is_nil (field_errors w f) ≡ true → IsValid w f
unfolding field_errors
field_errors-IsValid w f h =
    let a = joined-All (checks w f) h in
    let anchor = anchor_errors-IsText w (value_of f.knowledge_anchor) a.1.1.1.1.1.1.0 in
    record {
      id = matches-IsText w.id_pattern (value_of f.id) (report-not _ bad_id a.0);
      ts = ts_errors-IsText w (value_of f.ts) a.1.0;
      author =
          matches-IsText (contains allowed_authors) (value_of f.author)
            (report-not _ bad_author a.1.1.0);
      intent =
          matches-IsText (contains allowed_intents) (value_of f.intent)
            (report-not _ bad_intent a.1.1.1.0);
      body = body_errors-IsText (value_of f.body) a.1.1.1.1.0;
      target = target_errors-IsText (value_of f.target) a.1.1.1.1.1.0;
      anchor = anchor;
      anchored = λ n. needed w (value_of f.knowledge_anchor) anchor (
          both_false n (
            report-false
              (needs_anchor (value_of f.intent) && is_falsy (value_of f.knowledge_anchor))
              anchor_required a.1.1.1.1.1.1.1.0));
    }
  where
    both_false : {a b : Bool} → a ≡ true → (a && b) ≡ false → b ≡ false
    both_false h k = ground arith

-- What validates is valid.
validate_entry-IsValid : (w : World) (f : Fields) → is_nil (validate_entry w f) ≡ true → IsValid w f
unfolding validate_entry
validate_entry-IsValid w f h = elim (Bool-cases (is_nil (missing_fields f))) [
  | inl m ↦ field_errors-IsValid w f (rw m at h)
  | inr m ↦ absurd (false≢true (sym m ∙ (rw m at h)))
]

-- Every line that append_entry writes holds a valid entry, which stands last, and the lines before it
-- stay. A redirect or a context has an anchor that matches the pattern.
pub append_entry-IsValid :
    (w : World) (intent body author : String) (target anchor : Option String) (ack_required : Bool)
    (file file' : List Line)
    → append_entry w intent body author target anchor ack_required file ≡ some file'
    → (f : Fields) × ((file' ≡ file ++ mapping f ∷ []) × IsValid w f)
unfolding append_entry
append_entry-IsValid w intent body author target anchor ack_required file file' =
    let f = new_fields w intent body author target anchor ack_required in
    if_split (λ o. o ≡ some file' → (f : Fields) × ((file' ≡ file ++ mapping f ∷ []) × IsValid w f))
      (is_nil (validate_entry w f)) _ _ (λ v h. (f, (some_inj h, validate_entry-IsValid w f v)))
      (λ _ h. cc)
  where
    some_inj : {xs : List Line} → some xs ≡ some file' → file' ≡ xs
    some_inj h = cc
