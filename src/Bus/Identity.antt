-- ===== src/Bus/Identity.antt =====
-- No two objects of the bus have the same id.
use go_agent_llm_orchestrato.Prelude.{
  String, ◌≡◌, refl, subst, Bool, false, not, ◌||◌, Option, some, or_default, List, [], ◌∷◌, ◌++◌,
  any, select, contains, length, ltb, arith, eq_iff, if◌then◌else◌, if_cases, if_split, Bool-cases,
  Option-cases, inl, inr,
}
use go_agent_llm_orchestrato.Bus.{
  Object, Document, valid_types, alert_raises, content_of, is_blank, objects_of, fresh, World, Push,
  has_id, save, appended, push, new_object, kept, delete, clean_author, clear,
}

pub data Action (V : Type 0) : Type 0 where
  pushes : World V → (i kind author content : String) → Option String → Action V
  deletes cleans : World V → String → Action V
  clears : World V → Action V

module _ {V : Type 0} where
  abbrev pub Distinct : List (Object V) → Type 0
  Distinct [] = Unit {0}
  Distinct (o ∷ os) = (any (has_id o.id) os ≡ false) × Distinct os

  abbrev pub IsUnique : Document V → Type 0
  IsUnique d = Distinct (objects_of d)

  unfoldable pub apply : Action V → Document V → Document V
  apply (pushes w i kind author content metadata) d = (push w i kind author content metadata d).0
  apply (deletes w i) d = delete w i d
  apply (cleans w a) d = clean_author w a d
  apply (clears w) d = clear w d

  unfoldable pub run_actions : List (Action V) → Document V → Document V
  unfolding apply
  run_actions [] d = d
  run_actions (a ∷ actions) d = run_actions actions (apply a d)

  any-append :
      (p : Object V → Bool) (xs ys : List (Object V)) → any p (xs ++ ys) ≡ (any p xs || any p ys)
  any-append p [] ys = refl
  any-append p (x ∷ xs) ys = ground (arith, any-append p xs ys)

  Distinct-append :
      (os : List (Object V)) (o : Object V)
      → Distinct os
      → any (has_id o.id) os ≡ false
      → Distinct (os ++ o ∷ [])
  Distinct-append [] o d n = (refl, tt)
  Distinct-append (x ∷ os) o d n = (
    ground (arith, any-append (has_id x.id) os (o ∷ []), d.0, eq_iff x.id o.id, eq_iff o.id x.id),
    Distinct-append os o d.1 (ground arith),
  )

  any-select :
      (p q : Object V → Bool) (os : List (Object V))
      → any p os ≡ false
      → any p (select q os) ≡ false
  any-select p q [] h = refl
  any-select p q (o ∷ os) h = ground (arith, any-select p q os)

  Distinct-select :
      (q : Object V → Bool) (os : List (Object V)) → Distinct os → Distinct (select q os)
  Distinct-select q [] d = tt
  Distinct-select q (o ∷ os) d = elim (Bool-cases (q o)) [
    | inl e ↦ rw e (any-select (has_id o.id) q os d.0, Distinct-select q os d.1)
    | inr e ↦ rw e (Distinct-select q os d.1)
  ]

  save-IsUnique :
      (w : World V) (new old : Document V) → IsUnique new → IsUnique old → IsUnique (save w new old)
  save-IsUnique w new old n o = if_cases IsUnique w.saves new old n o

  kept-IsUnique :
      (w : World V) (p : Object V → Bool) (d : Document V) → IsUnique d → IsUnique (kept w p d)
  unfolding kept
  kept-IsUnique w p d u = if_cases IsUnique (is_blank d) _ _ u (
      if_cases IsUnique (ltb (length (select p (objects_of d))) (length (objects_of d))) _ _
        (save-IsUnique w (record d { objects = some (select p (objects_of d)) }) d
          (Distinct-select p (objects_of d) u) u)
        u)

  appended-IsUnique :
      (w : World V) (o : Object V) (old doc : Document V)
      → IsUnique old
      → IsUnique doc
      → any (has_id o.id) (objects_of doc) ≡ false
      → IsUnique (appended w o old doc).0
  unfolding appended
  appended-IsUnique w o old doc u v n = elim (Option-cases doc.objects) [
    | inl e ↦ rw e u
    | inr (os, e) ↦
        let d : Distinct os = subst (λ x. Distinct (or_default x [])) e v in
        let a : any (has_id o.id) os ≡ false =
          subst (λ x. any (has_id o.id) (or_default x []) ≡ false) e n in
        rw e (
          save-IsUnique w (record doc { objects = some (os ++ o ∷ []) }) old
            (Distinct-append os o d a) u)
  ]

  push-IsUnique :
      (w : World V) (i kind author content : String) (metadata : Option String) (d : Document V)
      → IsUnique d
      → IsUnique (push w i kind author content metadata d).0
  unfolding push
  push-IsUnique w i kind author content metadata d u =
      let doc = if is_blank d then fresh else d in
      let P : Document V × Push → Type 0 = λ r. IsUnique r.0 in
      if_cases P (not (contains valid_types kind)) _ _ u (
        if_split P (any (has_id i) (objects_of doc)) _ _ (λ _. u)
          (λ free. if_cases P (alert_raises w kind (content_of w content)) _ _ u (
            appended-IsUnique w (new_object w i kind author content metadata) d doc u
              (if_cases IsUnique (is_blank d) fresh d tt u) free)))

  apply-IsUnique : (a : Action V) (d : Document V) → IsUnique d → IsUnique (apply a d)
  unfolding apply delete clean_author clear
  apply-IsUnique (pushes w i kind author content metadata) d u =
      push-IsUnique w i kind author content metadata d u
  apply-IsUnique (deletes w i) d u = kept-IsUnique w _ d u
  apply-IsUnique (cleans w a) d u = kept-IsUnique w _ d u
  apply-IsUnique (clears w) d u = save-IsUnique w fresh d tt u

  -- No sequence of pushes, deletions, cleanings and clearings, with saves that fail at any point,
  -- gives two objects of the bus the same id.
  pub run_actions-IsUnique :
      (actions : List (Action V)) (d : Document V) → IsUnique d → IsUnique (run_actions actions d)
  unfolding run_actions
  run_actions-IsUnique [] d u = u
  run_actions-IsUnique (a ∷ actions) d u =
      run_actions-IsUnique actions (apply a d) (apply-IsUnique a d u)
