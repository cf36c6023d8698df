-- ===== src/Arbor/Children.antt =====
-- The children that a walk of arbor_state.py visits, and what it does to a list of them.
use go_agent_llm_orchestrato.Prelude.{
  some_injective, ℕ, suc, String, ◌==◌, true, Option, none, some, List, [], ◌∷◌, Dict, keys, lookup,
  contains, ◌≡◌, ◌≢◌, ◌⊎◌, refl, sym, ◌∙◌, subst, arith, eq_iff, eq_refl, ap, Bool-cases,
  Option-cases, inl, inr, false≢true, is_some, if◌then◌else◌,
}
use go_agent_llm_orchestrato.Arbor.{Node, present}
use go_agent_llm_orchestrato.Arbor.Commands.{Walked, done}
use go_agent_llm_orchestrato.Arbor.Walks.{each}
use go_agent_llm_orchestrato.Arbor.Shape.{Linked, IsForest, Similar}
use go_agent_llm_orchestrato.Arbor.Marking.{
  Under, Under-Similar, Similar-sym, IsBelow, IsBelow-Similar, Marked, Marked_trans, Marked_same,
  Marked_refl, IsForest-Marked,
}

module _ {N : Type 0} where
  pub is_some_value : (o : Option (Node N)) → is_some o ≡ true → (n : Node N) × (o ≡ some n)
  is_some_value none h = absurd (false≢true h)
  is_some_value (some n) h = (n, refl)

  pub lookup-cons :
      (j : String) (m : Node N) (d : Dict (Node N)) (k : String)
      → lookup k ((j, m) ∷ d) ≡ (if j == k then some m else lookup k d)
  unfolding lookup
  lookup-cons j m d k = refl

  pub lookup-nil : (k : String) (n : Node N) → lookup k [] ≢ some n
  unfolding lookup
  lookup-nil k n at = cc

  present-missing :
      (d : Dict (Node N)) (i : String) (ids : List String)
      → lookup i d ≡ none
      → present d (i ∷ ids) ≡ present d ids
  unfolding present
  present-missing d i ids e = rw (e, present) refl

  present-found :
      (d : Dict (Node N)) (i : String) (n : Node N) (ids : List String)
      → lookup i d ≡ some n
      → present d (i ∷ ids) ≡ (i, n) ∷ present d ids
  unfolding present
  present-found d i n ids e = rw (e, present) refl

  present-nil : (d : Dict (Node N)) → present d [] ≡ []
  unfolding present
  present-nil d = refl

  -- Every child that exists stands in the list of `present`, and no other.
  pub keys-present :
      (d : Dict (Node N)) (ids : List String) (c : String)
      → contains (keys (present d ids)) c ≡ true
      → contains ids c ≡ true
  keys-present d [] c h = rw (present-nil d) at h
  keys-present d (i ∷ ids) c h = elim (Option-cases (lookup i d)) [
    | inl missing ↦
        let h' = rw (present-missing d i ids missing) at h in
        ground (arith, h', keys-present d ids c)
    | inr (n, found) ↦
        let h' = rw (present-found d i n ids found) at h in ground (arith, h', keys-present d ids c)
  ]

  pub present-keys :
      (d : Dict (Node N)) (ids : List String) (c : String) (m : Node N)
      → contains ids c ≡ true
      → lookup c d ≡ some m
      → contains (keys (present d ids)) c ≡ true
  present-keys d [] c m h at = absurd (false≢true h)
  present-keys d (i ∷ ids) c m h at = elim (Bool-cases (i == c)) [
    | inl e ↦
        let found = subst (λ x. lookup x d ≡ some m) (sym ((eq_iff i c).0 e)) at in
        rw (present-found d i m ids found) (ground (arith, e))
    | inr e ↦
        let rest = present-keys d ids c m (rw e at h) at in
        elim (Option-cases (lookup i d)) [
          | inl missing ↦ rw (present-missing d i ids missing) rest
          | inr (n, found) ↦ rw (present-found d i n ids found) (ground (arith, rest))
        ]
  ]

  -- A child stands one level below its parent.
  pub child_depth :
      (d : Dict (Node N)) (key : String) (n : Node N) (c : String) (m : Node N)
      → IsForest d
      → lookup key d ≡ some n
      → lookup c d ≡ some m
      → m.parent_id ≡ some key
      → m.depth ≡ suc n.depth
  child_depth d key n c m forest at at_m up =
      let (x, at_x, mem, deep, j, named) =
        subst (λ o. Linked d c m.depth o) up ((forest c m at_m).linked) in
      deep ∙ ap (λ (y : Node N). suc y.depth) (some_injective x n (sym at_x ∙ at))

  abbrev pub Each : Dict (Node N) → List (String × Node N) → String → Type 0
  Each d cs k = (c : String) × (contains (keys cs) c ≡ true) × Under d c k

  -- What the walk from a child does, on every forest that is not too deep.
  abbrev Marks : ℕ → ℕ → (String → Dict (Node N) → Walked N) → Type 0
  Marks most level g =
      (c : String) (m : Node N) (d : Dict (Node N))
      → IsForest d
      → IsBelow most d
      → lookup c d ≡ some m
      → m.depth ≡ level
      → (e : Dict (Node N)) × (g c d ≡ done e) × Marked d e (Under d c)

  pub each_marks :
      (most level : ℕ) (g : String → Dict (Node N) → Walked N)
      → Marks most level g
      → (cs : List (String × Node N)) (d : Dict (Node N)) → IsForest d
      → IsBelow most d
      → ((c : String)
          → contains (keys cs) c ≡ true
          → (m : Node N) × (lookup c d ≡ some m) × (m.depth ≡ level))
      → (e : Dict (Node N)) × (each g cs d ≡ done e) × Marked d e (Each d cs)
  unfolding each
  each_marks most level g marks [] d forest low there =
      (d, refl, Marked_refl d (Each d []) forest (λ k (c, mem, u). false≢true mem))
  each_marks most level g marks ((c, n) ∷ cs) d forest low there =
      let (m, at, deep) = there c (ground (arith, eq_refl c)) in
      let (e, ran, marked) = marks c m d forest low at deep in
      let (f, rest, more) =
        each_marks most level g marks cs e (IsForest-Marked forest marked)
          (IsBelow-Similar most marked.similar low)
          (λ c' mem.
            let (x, at_x, deep_x) = there c' (ground (arith, mem)) in
            let (y, at_y, same) = marked.similar.to c' x at_x in
            (y, at_y, sym same.depth ∙ deep_x)) in
      (
        f,
        rw ran rest,
        Marked_same (λ k h. split_in k (marked.similar) h) (λ k h. split_out k (marked.similar) h)
            (Marked_trans marked more),
      )
    where
      split_in :
          {e : Dict (Node N)} (k : String)
          → Similar d e
          → Under d c k ⊎ Each e cs k
          → Each d ((c, n) ∷ cs) k
      split_in k s (inl u) = (c, ground (arith, eq_refl c), u)
      split_in k s (inr (c', mem, u)) = (c', ground (arith, mem), Under-Similar (Similar-sym s) u)

      split_out :
          {e : Dict (Node N)} (k : String)
          → Similar d e
          → Each d ((c, n) ∷ cs) k
          → Under d c k ⊎ Each e cs k
      split_out k s (c', mem, u) = elim (Bool-cases (c == c')) [
        | inl same ↦ inl (subst (λ x. Under d x k) (sym ((eq_iff c c').0 same)) u)
        | inr other ↦ inr (c', rw other at mem, Under-Similar s u)
      ]
