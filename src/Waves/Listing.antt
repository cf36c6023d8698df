-- ===== src/Waves/Listing.antt =====
-- Facts about the names of the JIT dispatcher's state, task_ and subsession_, and its list of completed tasks.
use Prim.Native.String.{[] as empty_text, ◌++◌ as append_text}
use Prim.Native.Char.{code}
use text.Mathlib.TextLemmas.{cons-append, append_cancel_left, head-eq_of_cons-eq}
use go_agent_llm_orchestrato.Prelude.{
  String, ◌==◌, Bool, true, false, ◌&&◌, some, List, [], ◌∷◌, lookup, insert, contains, any, all,
  values, ◌≡◌, refl, sym, ◌∙◌, ap, subst, arith, eq_iff, false≢true, some_injective, Bool-cases,
  inl, inr,
}
use go_agent_llm_orchestrato.Prelude.Words.{replace}
use go_agent_llm_orchestrato.Waves.Dispatcher.{State, task_key, completed_tasks}

-- The name that a completed task is listed under.
abbrev pub listed_name : String → String
unfolding replace
listed_name key = replace "task_" empty_text key

pub task_key_apart : (e d : String) → (e == d) ≡ false → (task_key e == task_key d) ≡ false
task_key_apart e d h = elim (Bool-cases (task_key e == task_key d)) [
  | inl q ↦
      let same = append_cancel_left "task_" e d ((eq_iff (task_key e) (task_key d)).0 q) in
      absurd (false≢true (sym h ∙ (eq_iff e d).1 same))
  | inr q ↦ q
]

pub sub_key_apart : (e d : String) → (append_text "subsession_" e == task_key d) ≡ false
sub_key_apart e d = elim (Bool-cases (append_text "subsession_" e == task_key d)) [
  | inl q ↦
      let p = (eq_iff (append_text "subsession_" e) (task_key d)).0 q in
      let heads = ap code (
        head-eq_of_cons-eq (sym (cons-append "s" "ubsession_" e) ∙ p ∙ cons-append "t" "ask_" d)) in
      absurd (omega (arith, heads))
  | inr q ↦ q
]

-- Nothing is added under the name `b` by an entry that is not completed, or has another name.
pub unlisted-insert :
    (b k v : String) (s : State)
    → contains (completed_tasks s) b ≡ false
    → ((v == "completed") && (replace "task_" empty_text k == b)) ≡ false
    → contains (completed_tasks (insert k v s)) b ≡ false
unfolding completed_tasks insert
unlisted-insert b k v [] h n = ground (arith, n)
unlisted-insert b k v ((j, w) ∷ s) h n = elim (Bool-cases (j == k)) [
  | inl e ↦
      let same = (eq_iff j k).0 e in
      ground (
        arith,
        h,
        subst (λ x. ((v == "completed") && (replace "task_" empty_text x == b)) ≡ false) (sym same)
            n,
        e,
      )
  | inr e ↦ ground (arith, h, unlisted-insert b k v s, n, e)
]

pub any-pending :
    (k : String) (s : State)
    → lookup k s ≡ some "pending"
    → any (λ v. v == "pending") (values s) ≡ true
unfolding lookup
any-pending k [] at = absurd (cc)
any-pending k ((j, w) ∷ s) at = elim (Bool-cases (j == k)) [
  | inl e ↦ let w_is : w ≡ "pending" = some_injective w "pending" (rw e at at) in rw w_is refl
  | inr e ↦ ground (arith, any-pending k s (rw e at at))
]

pub all-missing :
    (p : String → Bool) (b : String) (xs : List String)
    → contains xs b ≡ true
    → p b ≡ false
    → all p xs ≡ false
all-missing p b [] h n = absurd (false≢true h)
all-missing p b (x ∷ xs) h n = elim (Bool-cases (x == b)) [
  | inl e ↦ rw (subst (λ y. p y ≡ false) (sym ((eq_iff x b).0 e)) n) refl
  | inr e ↦ ground (arith, all-missing p b xs (rw e at h) n)
]
