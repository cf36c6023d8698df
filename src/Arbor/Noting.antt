-- ===== src/Arbor/Noting.antt =====
-- Changes of insights alone, and the ancestors of a node.
use go_agent_llm_orchestrato.Prelude.{
  String, ◌==◌, Option, none, some, Dict, lookup, insert, lookup-insert, ◌≡◌, ◌⊎◌, refl, sym, ◌∙◌,
  subst, eq_iff, ap, Bool-cases, inl, inr,
}
use go_agent_llm_orchestrato.Arbor.{Node}
use go_agent_llm_orchestrato.Arbor.Shape.{
  IsForest, Similar, Similar-refl, Similar-trans, Similar-insert, IsForest-Similar, KnownStatuses,
  KnownStatuses-insert, KnownStatuses-IsForest,
}

module _ {N : Type 0} where
  -- `p` is the parent of `c`, or an ancestor of its parent.
  pub data Ancestor (d : Dict (Node N)) : String → String → Type 0 where
    parent :
        {p c : String} {n : Node N} → lookup c d ≡ some n → n.parent_id ≡ some p → Ancestor d p c
    further :
        {p q c : String} {n : Node N}
        → lookup c d ≡ some n
        → n.parent_id ≡ some q
        → Ancestor d p q
        → Ancestor d p c

  pub Ancestor-back :
      {d e : Dict (Node N)} {p c : String} → Similar d e → Ancestor e p c → Ancestor d p c
  Ancestor-back s (parent {c = c} {n = m} at up) =
      let (n, at', same) = s.back c m at in parent at' (same.parent ∙ up)
  Ancestor-back s (further {c = c} {n = m} at up a) =
      let (n, at', same) = s.back c m at in further at' (same.parent ∙ up) (Ancestor-back s a)

  -- `o` and `o'` differ in the insight at most.
  abbrev pub SameButInsight : Option (Node N) → Option (Node N) → Type 0
  SameButInsight o none = o ≡ none
  SameButInsight o (some m) = (n : Node N) × (o ≡ some n) × (m ≡ record n { insight = m.insight })

  -- From `d` to `e` insights changed, of nodes of `T`.
  pub record Noted (d e : Dict (Node N)) (T : String → Type 0) : Type 0 where
    pub similar : Similar d e
    pub known : KnownStatuses e
    pub same : (k : String) → SameButInsight (lookup k d) (lookup k e)
    pub outside : (k : String) → (lookup k e ≡ lookup k d) ⊎ T k

  SameButInsight_refl : (o : Option (Node N)) → SameButInsight o o
  SameButInsight_refl none = refl
  SameButInsight_refl (some n) = (n, refl, refl)

  SameButInsight_trans :
      (a b c : Option (Node N)) → SameButInsight a b → SameButInsight b c → SameButInsight a c
  SameButInsight_trans a b none p q = subst (λ o. SameButInsight a o) q p
  SameButInsight_trans a b (some m) p (x, at_x, is_m) =
      let (n, at_n, is_x) = subst (λ o. SameButInsight a o) at_x p in
      (n, at_n, is_m ∙ ap (λ (y : Node N). record y { insight = m.insight }) is_x)

  pub Noted_refl : (d : Dict (Node N)) (T : String → Type 0) → IsForest d → Noted d d T
  Noted_refl d T forest = record {
    similar = Similar-refl d;
    known = KnownStatuses-IsForest d forest;
    same = λ k. SameButInsight_refl (lookup k d);
    outside = λ k. inl refl;
  }

  pub Noted_trans :
      {d e f : Dict (Node N)} {T S R : String → Type 0}
      → ((k : String) → T k → R k)
      → ((k : String) → S k → R k)
      → Noted d e T
      → Noted e f S
      → Noted d f R
  Noted_trans {d} {e} {f} {T} {S} {R} left right a b = record {
    similar = Similar-trans d e f a.similar b.similar;
    known = b.known;
    same = λ k. SameButInsight_trans (lookup k d) (lookup k e) (lookup k f) (a.same k) (b.same k);
    outside = λ k. join k (a.outside k) (b.outside k);
  }
    where
      join :
          (k : String)
          → (lookup k e ≡ lookup k d) ⊎ T k
          → (lookup k f ≡ lookup k e) ⊎ S k
          → (lookup k f ≡ lookup k d) ⊎ R k
      join k (inl p) (inl q) = inl (q ∙ p)
      join k (inr t) q = inr (left k t)
      join k (inl p) (inr s) = inr (right k s)

  pub Noted-insert :
      (d : Dict (Node N)) (p text : String) (n : Node N)
      → IsForest d
      → lookup p d ≡ some n
      → Noted d (insert p (record n { insight = some text }) d) (λ k. k ≡ p)
  Noted-insert d p text n forest at = record {
    similar =
        Similar-insert d p n n' at
          (record { id = refl; parent = refl; children = refl; depth = refl });
    known = KnownStatuses-insert d p n' (KnownStatuses-IsForest d forest) (forest p n at).known;
    same = λ k. elim (Bool-cases (p == k)) [
      | inl e ↦
          rw (lookup-insert p k n' d, e)
            (n, subst (λ x. lookup x d ≡ some n) ((eq_iff p k).0 e) at, refl)
      | inr e ↦ rw (lookup-insert p k n' d, e) (SameButInsight_refl (lookup k d))
    ];
    outside = λ k. elim (Bool-cases (p == k)) [
      | inl e ↦ inr (sym ((eq_iff p k).0 e))
      | inr e ↦ inl (rw (lookup-insert p k n' d, e) refl)
    ];
  }
    where
      n' : Node N
      n' = record n { insight = some text }

  pub IsForest-Noted :
      {d e : Dict (Node N)} {T : String → Type 0} → IsForest d → Noted d e T → IsForest e
  IsForest-Noted {d} {e} forest a = IsForest-Similar d e a.similar a.known forest
