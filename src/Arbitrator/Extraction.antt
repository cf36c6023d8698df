-- ===== src/Arbitrator/Extraction.antt =====
-- What _extract_json_block of arbitrator.py returns: a part of the text, or all of it.
use Prim.Native.String.{[] as empty_text, ◌∷◌ as cons_char, ◌++◌ as append_text}
use Prim.Native.Char.{Char}
use text.Mathlib.TextLemmas.{nil-append, append-nil, cons-append}
use go_agent_llm_orchestrato.Prelude.{
  ℕ, ◌+◌, ◌-◌, String, Bool, true, false, not, ◌&&◌, ◌||◌, Option, none, some, eqb, ◌≡◌, sym, ◌∙◌,
  ap, if_cases,
}
use go_agent_llm_orchestrato.Arbitrator.{
  is_char, text_from, put_before, block_from, or_text, or_start, block_at, extract_json_block,
}

-- The text `s` starts with `b`, if that is there.
StartsWith : String → Option String → Type 0
StartsWith s none = Unit {0}
StartsWith s (some b) = (v : String) × (s ≡ append_text b v)

StartsWith-put_before :
    (c : Char) (s : String) (o : Option String)
    → StartsWith s o
    → StartsWith (cons_char c s) (put_before c o)
unfolding StartsWith
StartsWith-put_before c s none h = tt
StartsWith-put_before c s (some b) (v, e) = (v, ap (λ t. cons_char c t) e ∙ sym (cons-append c b v))

StartsWith-block_from : (q e : Bool) (n : ℕ) (s : String) → StartsWith s (block_from q e n s)
unfolding block_from StartsWith
StartsWith-block_from q e n empty_text = tt
StartsWith-block_from q e n (cons_char c s) =
    let P = StartsWith (cons_char c s) in
    let step = λ (q' e' : Bool) (m : ℕ).
      StartsWith-put_before c s (block_from q' e' m s) (StartsWith-block_from q' e' m s) in
    if_cases P (is_char "\"" c && not e) _ _ (step (not q) false n) (
      if_cases P (is_char "\\" c && not e) _ _ (step q true n) (
        if_cases P q _ _ (step q false n) (
          if_cases P (is_char "{" c || is_char "[" c) _ _ (step q false (n + 1)) (
            if_cases P (is_char "}" c || is_char "]" c) _ _
              (if_cases P (eqb n 1) _ _
                (s, sym (cons-append c empty_text s ∙ ap (λ t. cons_char c t) (nil-append s)))
                (step q false (n - 1)))
              (step q false n)))))

-- `b` stands somewhere in `t`.
abbrev pub IsPartOf : String → String → Type 0
IsPartOf b t = (u v : String) × (t ≡ append_text u (append_text b v))

EndsIn : String → Option String → Type 0
EndsIn t none = Unit {0}
EndsIn t (some s) = (u : String) × (t ≡ append_text u s)

EndsIn-text_from : (c t : String) → EndsIn t (text_from c t)
unfolding text_from EndsIn
EndsIn-text_from c empty_text = tt
EndsIn-text_from c (cons_char d t) =
    if_cases (EndsIn (cons_char d t)) (is_char c d) _ _
      (empty_text, sym (nil-append (cons_char d t)))
      (further (text_from c t) (EndsIn-text_from c t))
  where
    further : (o : Option String) → EndsIn t o → EndsIn (cons_char d t) o
    further none h = tt
    further (some s) (u, e) = (cons_char d u, ap (λ x. cons_char d x) e ∙ sym (cons-append d u s))

IsPartOf-self : (t : String) → IsPartOf t t
IsPartOf-self t =
    (empty_text, empty_text, sym (nil-append (append_text t empty_text) ∙ append-nil t))

block_at-IsPartOf : (t : String) (o : Option String) → EndsIn t o → IsPartOf (block_at o t) t
unfolding block_at EndsIn StartsWith
block_at-IsPartOf t none h = IsPartOf-self t
block_at-IsPartOf t (some s) (u, e) =
    within (block_from false false 0 s) (StartsWith-block_from false false 0 s)
  where
    within : (o : Option String) → StartsWith s o → IsPartOf (or_text o t) t
    within none h = IsPartOf-self t
    within (some b) (v, q) = (u, v, e ∙ ap (λ x. append_text u x) q)

-- What _extract_json_block returns stands in the text as it is, with nothing left out of it.
pub extract_json_block-IsPartOf : (t : String) → IsPartOf (extract_json_block t) t
unfolding extract_json_block
extract_json_block-IsPartOf t =
    block_at-IsPartOf t (or_start (text_from "{" t) (text_from "[" t))
      (first (text_from "{" t) (EndsIn-text_from "{" t))
  where
    first : (o : Option String) → EndsIn t o → EndsIn t (or_start o (text_from "[" t))
    first none h = EndsIn-text_from "[" t
    first (some s) h = h
