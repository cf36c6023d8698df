-- ===== src/Arbor/Naming.antt =====
-- The names of children, next_child_id of arbor_state.py: they are new, and they tell the parent.
use Prim.Native.String.{[] as empty_text, ◌∷◌ as cons_char, ◌++◌ as append_text}
use Prim.Native.Char.{Char}
use text.Mathlib.TextLemmas.{
  nil-append, cons-append, append_assoc, head-eq_of_cons-eq, tail-eq_of_cons-eq,
}
use go_agent_llm_orchestrato.Prelude.{
  ℕ, ◌+◌, ◌≤◌, String, ◌==◌, Bool, true, false, ◌||◌, none, some, List, [], ◌∷◌, ◌≡◌, refl, sym,
  ◌∙◌, subst, arith, eq_iff, eq_refl, contains, inl, inr, Bool-cases, Option-cases, ◌≢◌,
}
use go_agent_llm_orchestrato.Prelude.Text.{text_after}
use go_agent_llm_orchestrato.Prelude.Decimal.{
  decimal, read_digits, read_number-decimal, read_digits-dot, read_digits-decimal,
}
use go_agent_llm_orchestrato.Arbor.{
  Tree, Node, child_number, largest_child, child_name, next_child_id,
}

text_after-append : (p s : String) → text_after p (append_text p s) ≡ some s
unfolding text_after
text_after-append empty_text s = rw (nil-append s) refl
text_after-append (cons_char c p) s =
    rw (cons-append c p s, eq_refl (cons_char c empty_text)) (text_after-append p s)

-- The number that a child's name was made from is read back.
pub child_number-child_name :
    (root parent : String) (k : ℕ) → child_number root parent (child_name root parent k) ≡ some k
unfolding child_number child_name
child_number-child_name root parent k = elim (Bool-cases (parent == root)) [
  | inl e ↦ rw e (read_number-decimal k)
  | inr e ↦
      rw
        (
          e,
          sym (append_assoc parent "." (decimal k)),
          text_after-append (append_text parent ".") (decimal k),
        )
        (read_number-decimal k)
]

le-largest_child :
    (root parent c : String) (k : ℕ) (ids : List String)
    → contains ids c ≡ true
    → child_number root parent c ≡ some k
    → k ≤ largest_child root parent ids
unfolding largest_child
le-largest_child root parent c k [] h e = cc
le-largest_child root parent c k (d ∷ ids) h e = elim (Bool-cases (d == c)) [
  | inl same ↦
      let e' = subst (λ x. child_number root parent x ≡ some k) (sym ((eq_iff d c).0 same)) e in
      rw (e', largest_child) (omega arith)
  | inr other ↦
      let below = le-largest_child root parent c k ids (rw other at h) e in
      elim (Option-cases (child_number root parent d)) [
        | inl missing ↦ rw (missing, largest_child) below
        | inr (m, found) ↦ rw (found, largest_child) (omega (arith, below))
      ]
]

-- The name that next_child_id makes is none of the parent's children.
pub next_child_id_is_new :
    {N : Type 0} (t : Tree N) (parent_id : String) (parent : Node N)
    → contains parent.children_ids (next_child_id t parent_id parent) ≡ false
unfolding next_child_id
next_child_id_is_new t parent_id parent =
    let k = largest_child t.root_id parent_id parent.children_ids in
    let name = child_name t.root_id parent_id (k + 1) in
    elim (Bool-cases (contains parent.children_ids name)) [
      | inl old ↦ absurd (
          omega (
            arith,
            le-largest_child t.root_id parent_id name (k + 1) parent.children_ids old
                (child_number-child_name t.root_id parent_id (k + 1)),
          ))
      | inr new ↦ new
    ]

-- Digits have no dot among them.
dot_clash :
    (c : Char) (q s t : String) (j : ℕ)
    → read_digits 0 s ≡ some j
    → append_text "." s ≢ append_text (cons_char c q) (append_text "." t)
dot_clash c q s t j hs e =
    let e' = sym (cons-append "." empty_text s) ∙ e ∙ cons-append c q (append_text "." t) in
    let tails = sym (nil-append s) ∙ tail-eq_of_cons-eq e' in
    let nothing = subst (λ x. read_digits 0 x ≡ none) (sym tails) (read_digits-dot q t 0) in cc

decimal_clash : (j k : ℕ) (q : String) → decimal j ≢ append_text q (append_text "." (decimal k))
decimal_clash j k q e =
    let nothing = subst (λ x. read_digits 0 x ≡ none) (sym e) (read_digits-dot q (decimal k) 0) in
    let found = read_digits-decimal j in cc

-- The last dot is where the number starts.
dot_split :
    (p q s t : String) (j k : ℕ)
    → read_digits 0 s ≡ some j
    → read_digits 0 t ≡ some k
    → append_text p (append_text "." s) ≡ append_text q (append_text "." t)
    → p ≡ q
dot_split empty_text empty_text s t j k hs ht e = refl
dot_split empty_text (cons_char d q) s t j k hs ht e =
    absurd (dot_clash d q s t j hs (sym (nil-append (append_text "." s)) ∙ e))
dot_split (cons_char c p) empty_text s t j k hs ht e =
    absurd (dot_clash c p t s k ht (sym (nil-append (append_text "." t)) ∙ sym e))
dot_split (cons_char c p) (cons_char d q) s t j k hs ht e =
    let e' = sym (cons-append c p (append_text "." s)) ∙ e ∙ cons-append d q (append_text "." t) in
    let heads = head-eq_of_cons-eq e' in
    let tails = dot_split p q s t j k hs ht (tail-eq_of_cons-eq e') in rw (heads, tails) refl

-- Names that are equal are names below the same parent.
pub child_name_parent :
    (root p q : String) (j k : ℕ) → child_name root p j ≡ child_name root q k → p ≡ q
unfolding child_name
child_name_parent root p q j k e = elim (Bool-cases (p == root)) [
  | inl hp ↦ elim (Bool-cases (q == root)) [
    | inl hq ↦ (eq_iff p root).0 hp ∙ sym ((eq_iff q root).0 hq)
    | inr hq ↦ absurd (decimal_clash j k q (rw (hp, hq) at e))
  ]
  | inr hp ↦ elim (Bool-cases (q == root)) [
    | inl hq ↦ absurd (decimal_clash k j p (sym (rw (hp, hq) at e)))
    | inr hq ↦
        dot_split p q (decimal j) (decimal k) j k (read_digits-decimal j) (read_digits-decimal k)
          (rw (hp, hq) at e)
  ]
]

has_dot : String → Bool
has_dot empty_text = false
has_dot (cons_char c s) = cons_char c empty_text == "." || has_dot s

has_dot-append : (p s : String) → has_dot (append_text p (append_text "." s)) ≡ true
unfolding has_dot
has_dot-append empty_text s = rw (nil-append (append_text "." s), cons-append "." empty_text s) refl
has_dot-append (cons_char c p) s =
    rw (cons-append c p (append_text "." s)) (ground (arith, has_dot-append p s))

-- No child is named like the root.
pub child_name_not_root : (root p : String) (k : ℕ) → child_name root p k ≢ "ROOT"
unfolding child_name has_dot read_digits
child_name_not_root root p k e = elim (Bool-cases (p == root)) [
  | inl hp ↦
      let found = subst (λ x. read_digits 0 x ≡ some k) (rw hp at e) (read_digits-decimal k) in cc
  | inr hp ↦
      let found = subst (λ x. has_dot x ≡ true) (rw hp at e) (has_dot-append p (decimal k)) in cc
]
