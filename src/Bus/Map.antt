-- ===== src/Bus/Map.antt =====
-- The bus as a map from ids to objects, which `pull` reads.
use go_agent_llm_orchestrato.Prelude.{
  String, ◌==◌, ◌≡◌, ◌≢◌, refl, sym, ap, ◌∙◌, subst, Bool, true, false, not, Option, none, some,
  is_some, or_default, List, [], ◌∷◌, ◌++◌, any, select, contains, length, length-select, ltb,
  arith, eq_iff, if◌then◌else◌, if_cases, if_split, Bool-cases, Option-cases, inl, inr,
}
use go_agent_llm_orchestrato.Bus.{
  Object, Document, is_blank, valid_types, alert_raises, content_of, objects_of, fresh, World, Push,
  accepted, raises, has_id, appended, push, new_object, first, pull, kept, delete, clean_author,
}
use go_agent_llm_orchestrato.Bus.Identity.{Distinct, IsUnique}

module _ {V : Type 0} where
  first-append :
      (p : Object V → Bool) (os : List (Object V)) (o : Object V)
      → any p os ≡ false
      → first p (os ++ o ∷ []) ≡ (if p o then some o else none)
  first-append p [] o n = refl
  first-append p (x ∷ os) o n = ground (arith, first-append p os o)

  first-append_other :
      (p : Object V → Bool) (os : List (Object V)) (o : Object V)
      → p o ≡ false
      → first p (os ++ o ∷ []) ≡ first p os
  first-append_other p [] o n = rw n refl
  first-append_other p (x ∷ os) o n = ground (arith, first-append_other p os o n)

  first-none : (p : Object V → Bool) (os : List (Object V)) → any p os ≡ false → first p os ≡ none
  first-none p [] n = refl
  first-none p (x ∷ os) n = ground (arith, first-none p os)

  -- Objects go that the search would not find, or those that it would.
  first-select :
      (j i : String) (os : List (Object V))
      → first (has_id j) (select (λ o. not (has_id i o)) os)
        ≡ (if i == j then none else first (has_id j) os)
  first-select j i [] = ground arith
  first-select j i (x ∷ os) =
      ground (arith, first-select j i os, eq_iff x.id i, eq_iff x.id j, eq_iff i j)

  -- Nothing goes where the count stays.
  select-all :
      (p : Object V → Bool) (os : List (Object V))
      → ltb (length (select p os)) (length os) ≡ false
      → select p os ≡ os
  select-all p [] h = refl
  select-all p (x ∷ os) h = elim (Bool-cases (p x)) [
    | inl e ↦ rw e (ap (λ xs. x ∷ xs) (select-all p os (ground arith)))
    | inr e ↦ ground (arith, length-select p os)
  ]

  blank-objects : (d : Document V) → is_blank d ≡ true → objects_of d ≡ []
  blank-objects d b = elim (Option-cases d.objects) [
    | inl n ↦ ap (λ o. or_default o []) n
    | inr (os, n) ↦ ground arith
  ]

  kept-objects :
      (w : World V) (p : Object V → Bool) (d : Document V)
      → w.saves ≡ true
      → objects_of (kept w p d) ≡ select p (objects_of d)
  unfolding kept
  kept-objects w p d s = elim (Bool-cases (is_blank d)) [
    | inl b ↦ (let n = blank-objects d b in rw b (n ∙ sym (ap (select p) n)))
    | inr b ↦ elim (Bool-cases (ltb (length (select p (objects_of d))) (length (objects_of d)))) [
      | inl l ↦ rw (b, l, s) refl
      | inr l ↦ rw (b, l) (sym (select-all p (objects_of d) l))
    ]
  ]

  -- After a deletion that is saved, no object has the id, and every other id finds what it found.
  pub pull-delete :
      (w : World V) (i j : String) (d : Document V)
      → w.saves ≡ true
      → pull j (delete w i d) ≡ (if i == j then none else pull j d)
  unfolding pull delete
  pull-delete w i j d s =
      ap (first (has_id j)) (kept-objects w _ d s) ∙ first-select j i (objects_of d)

  abbrev pub unless_author : String → Option (Object V) → Option (Object V)
  unless_author a none = none
  unless_author a (some o) = if o.author == a then none else some o

  first-author :
      (j a : String) (os : List (Object V))
      → Distinct os
      → first (has_id j) (select (λ o. not (o.author == a)) os)
        ≡ unless_author a (first (has_id j) os)
  first-author j a [] d = refl
  first-author j a (x ∷ os) d = elim (Bool-cases (x.id == j)) [
    | inl e ↦
        let n : first (has_id j) os ≡ none =
          subst (λ y. first (has_id y) os ≡ none) ((eq_iff x.id j).0 e)
            (first-none (has_id x.id) os d.0) in
        let r : first (has_id j) (select (λ o. not (o.author == a)) os) ≡ none =
          first-author j a os d.1 ∙ ap (unless_author a) n in
        ground (arith, r)
    | inr e ↦ ground (arith, first-author j a os d.1)
  ]

  -- After a cleaning that is saved, of a bus whose ids are unique, an id finds what it found unless
  -- that is by the author.
  pub pull-clean_author :
      (w : World V) (a j : String) (d : Document V)
      → w.saves ≡ true
      → IsUnique d
      → pull j (clean_author w a d) ≡ unless_author a (pull j d)
  unfolding pull clean_author
  pull-clean_author w a j d s u =
      ap (first (has_id j)) (kept-objects w _ d s) ∙ first-author j a (objects_of d) u

  doc-objects : (d : Document V) → objects_of (if is_blank d then fresh else d) ≡ objects_of d
  doc-objects d = elim (Bool-cases (is_blank d)) [
    | inl b ↦ rw b (sym (blank-objects d b))
    | inr b ↦ rw b refl
  ]

  appended-objects :
      (w : World V) (o : Object V) (old doc : Document V)
      → w.saves ≡ true
      → (appended w o old doc).1 ≡ accepted
      → objects_of (appended w o old doc).0 ≡ objects_of doc ++ o ∷ []
  unfolding appended
  appended-objects w o old doc s a = elim (Option-cases doc.objects) [
    | inl e ↦ absurd (raises≢accepted (rw e at a))
    | inr (os, e) ↦ rw (e, s) refl
  ]
    where
      raises≢accepted : raises ≢ accepted
      raises≢accepted h = cc

  first-appended :
      (j : String) (o : Object V) (os : List (Object V))
      → any (has_id o.id) os ≡ false
      → first (has_id j) (os ++ o ∷ []) ≡ (if o.id == j then some o else first (has_id j) os)
  first-appended j o os free = elim (Bool-cases (o.id == j)) [
    | inl e ↦
        let free_j : any (has_id j) os ≡ false =
          subst (λ y. any (has_id y) os ≡ false) ((eq_iff o.id j).0 e) free in
        rw e (first-append (has_id j) os o free_j ∙ rw e refl)
    | inr e ↦ rw e (first-append_other (has_id j) os o e)
  ]

  -- A push that is accepted and saved was of a new id of a valid type; that id now finds the new
  -- object, and every other id finds what it found.
  pub pull-push :
      (w : World V) (i kind author content : String) (metadata : Option String) (d : Document V)
      (j : String)
      → w.saves ≡ true
      → (push w i kind author content metadata d).1 ≡ accepted
      → (contains valid_types kind ≡ true)
        × ((pull i d ≡ none)
            × (pull j (push w i kind author content metadata d).0 ≡ (
                if i == j then some (new_object w i kind author content metadata) else pull j d)))
  unfolding pull push
  pull-push w i kind author content metadata d j s =
      let doc = if is_blank d then fresh else d in
      let o = new_object w i kind author content metadata in
      let P : Document V × Push → Type 0 = λ r.
        r.1 ≡ accepted
        → (contains valid_types kind ≡ true)
          × ((first (has_id i) (objects_of d) ≡ none)
              × (first (has_id j) (objects_of r.0)
                  ≡ (if i == j then some o else first (has_id j) (objects_of d)))) in
      if_split P (not (contains valid_types kind)) _ _ (λ _ a. cc)
        (λ t.
          if_split P (any (has_id i) (objects_of doc)) _ _ (λ _ a. cc)
            (λ free.
              if_cases P (alert_raises w kind (content_of w content)) _ _ (λ a. cc)
                (λ a. (
                  not_inj (contains valid_types kind) t,
                  (
                    ap (first (has_id i)) (sym (doc-objects d))
                        ∙ first-none (has_id i) (objects_of doc) free,
                    ap (first (has_id j)) (appended-objects w o d doc s a)
                        ∙ first-appended j o (objects_of doc) free
                        ∙ ap (λ os. if i == j then some o else first (has_id j) os) (doc-objects d),
                  ),
                ))))
    where
      not_inj : (b : Bool) → not b ≡ false → b ≡ true
      not_inj true h = refl
      not_inj false h = cc

  -- A push whose save fails leaves the bus as it was and answers as if it had been saved.
  pub push_unsaved :
      (w : World V) (i kind author content : String) (metadata : Option String) (d : Document V)
      → push (record w { saves = false }) i kind author content metadata d
        ≡ (d, (push (record w { saves = true }) i kind author content metadata d).1)
  unfolding push appended
  push_unsaved w i kind author content metadata d =
      let doc = if is_blank d then fresh else d in
      elim (Bool-cases (not (contains valid_types kind))) [
        | inl t ↦ rw t refl
        | inr t ↦ elim (Bool-cases (any (has_id i) (objects_of doc))) [
          | inl taken ↦ rw (t, taken) refl
          | inr free ↦ elim (Bool-cases (alert_raises w kind (content_of w content))) [
            | inl r ↦ rw (t, free, r) refl
            | inr r ↦ elim (Bool-cases (is_some doc.objects)) [
              | inl o ↦ rw (t, free, r, o) refl
              | inr o ↦ rw (t, free, r, o) refl
            ]
          ]
        ]
      ]
