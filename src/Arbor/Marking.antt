-- ===== src/Arbor/Marking.antt =====
-- What a change of statuses does to a dictionary of nodes, and how such changes compose.
use go_agent_llm_orchestrato.Prelude.{
  ℕ, ◌<◌, String, ◌==◌, true, Option, none, some, Dict, lookup, insert, lookup-insert, contains,
  ◌≡◌, ◌⊎◌, refl, sym, ◌∙◌, subst, eq_iff, Bool-cases, inl, inr,
}
use go_agent_llm_orchestrato.Arbor.{Node, statuses}
use go_agent_llm_orchestrato.Arbor.Shape.{
  IsForest, SameShape, Similar, KnownStatuses, IsForest-Similar, Similar-refl, Similar-trans,
  Similar-insert, KnownStatuses-insert, KnownStatuses-IsForest,
}

module _ {N : Type 0} where
  -- `k` is `p`, or hangs somewhere below it.
  pub data Under (d : Dict (Node N)) : String → String → Type 0 where
    here : {k : String} → Under d k k
    below :
        {p c k : String} {n : Node N}
        → lookup p d ≡ some n
        → contains n.children_ids c ≡ true
        → Under d c k
        → Under d p k

  pub Under-Similar : {d e : Dict (Node N)} {p k : String} → Similar d e → Under d p k → Under e p k
  Under-Similar s here = here
  Under-Similar s (below {p} {c} {k} {n} at mem u) =
      let (m, at', same) = s.to p n at in
      below at' (subst (λ cs. contains cs c ≡ true) same.children mem) (Under-Similar s u)

  pub Similar-sym : {d e : Dict (Node N)} → Similar d e → Similar e d
  Similar-sym s = record {
    to = λ k m at. let (n, at', a) = s.back k m at in (n, at', flip a);
    back = λ k n at. let (m, at', a) = s.to k n at in (m, at', flip a);
  }
    where
      flip : {a b : Node N} → SameShape a b → SameShape b a
      flip r = record {
        id = sym r.id;
        parent = sym r.parent;
        children = sym r.children;
        depth = sym r.depth;
      }

  -- The entry `k`, if there is one, has the status "pruned".
  abbrev pub IsPruned : Dict (Node N) → String → Type 0
  IsPruned d k = (m : Node N) → lookup k d ≡ some m → m.status ≡ "pruned"

  abbrev pub IsBelow : ℕ → Dict (Node N) → Type 0
  IsBelow most d = (k : String) (n : Node N) → lookup k d ≡ some n → n.depth < most

  pub IsBelow-Similar :
      (most : ℕ) {d e : Dict (Node N)} → Similar d e → IsBelow most d → IsBelow most e
  IsBelow-Similar most s low k m at =
      let (n, at', same) = s.back k m at in subst (λ x. x < most) same.depth (low k n at')

  -- From `d` to `e` the nodes of `T` were pruned, and nothing else happened.
  pub record Marked (d e : Dict (Node N)) (T : String → Type 0) : Type 0 where
    pub similar : Similar d e
    pub known : KnownStatuses e
    pub outside : (k : String) → (lookup k e ≡ lookup k d) ⊎ T k
    pub kept : (k : String) → IsPruned d k → IsPruned e k
    pub inside : (k : String) → T k → IsPruned e k

  pub Marked_trans :
      {d e f : Dict (Node N)} {T S : String → Type 0}
      → Marked d e T
      → Marked e f S
      → Marked d f (λ k. T k ⊎ S k)
  Marked_trans {d} {e} {f} {T} {S} a b = record {
    similar = Similar-trans d e f a.similar b.similar;
    known = b.known;
    outside = λ k. join_outside k (a.outside k) (b.outside k);
    kept = λ k h. b.kept k (a.kept k h);
    inside = λ k h. join_inside k h;
  }
    where
      join_outside :
          (k : String)
          → (lookup k e ≡ lookup k d) ⊎ T k
          → (lookup k f ≡ lookup k e) ⊎ S k
          → (lookup k f ≡ lookup k d) ⊎ (T k ⊎ S k)
      join_outside k (inl p) (inl q) = inl (q ∙ p)
      join_outside k (inr t) q = inr (inl t)
      join_outside k (inl p) (inr s) = inr (inr s)

      join_inside : (k : String) → T k ⊎ S k → IsPruned f k
      join_inside k (inl t) = b.kept k (a.inside k t)
      join_inside k (inr s) = b.inside k s

  -- The same nodes, said otherwise.
  pub Marked_same :
      {d e : Dict (Node N)} {T S : String → Type 0}
      → ((k : String) → T k → S k)
      → ((k : String) → S k → T k)
      → Marked d e T
      → Marked d e S
  Marked_same {d} {e} {T} {S} to from a = record {
    similar = a.similar;
    known = a.known;
    outside = λ k. move k (a.outside k);
    kept = a.kept;
    inside = λ k s. a.inside k (from k s);
  }
    where
      move : (k : String) → (lookup k e ≡ lookup k d) ⊎ T k → (lookup k e ≡ lookup k d) ⊎ S k
      move k (inl p) = inl p
      move k (inr t) = inr (to k t)

  pub Marked-insert :
      (d : Dict (Node N)) (key : String) (n n' : Node N)
      → IsForest d
      → lookup key d ≡ some n
      → SameShape n n'
      → n'.status ≡ "pruned"
      → Marked d (insert key n' d) (λ k. k ≡ key)
  Marked-insert d key n n' forest at same now = record {
    similar = Similar-insert d key n n' at same;
    known =
        KnownStatuses-insert d key n' (KnownStatuses-IsForest d forest)
          (subst (λ s. contains statuses s ≡ true) (sym now) refl);
    outside = λ k. elim (Bool-cases (key == k)) [
      | inl e ↦ inr (sym ((eq_iff key k).0 e))
      | inr e ↦ inl (rw (lookup-insert key k n' d, e) refl)
    ];
    kept = λ k h m at_k. elim (Bool-cases (key == k)) [
      | inl e ↦ new_status m (rw (lookup-insert key k n' d, e) at at_k)
      | inr e ↦ h m (rw (lookup-insert key k n' d, e) at at_k)
    ];
    inside = λ k h m at_k.
        new_status m (rw (lookup-insert key k n' d, (eq_iff key k).1 (sym h)) at at_k);
  }
    where
      StatusOf : Option (Node N) → Type 0
      StatusOf none = Unit {0}
      StatusOf (some x) = x.status ≡ "pruned"

      new_status : (m : Node N) → some n' ≡ some m → m.status ≡ "pruned"
      new_status m e = subst (λ o. StatusOf o) e now

  pub IsForest-Marked :
      {d e : Dict (Node N)} {T : String → Type 0} → IsForest d → Marked d e T → IsForest e
  IsForest-Marked {d} {e} forest a = IsForest-Similar d e a.similar a.known forest

  pub Marked_refl :
      (d : Dict (Node N)) (T : String → Type 0) → IsForest d → ((k : String) → ¬ T k) → Marked d d T
  Marked_refl d T forest nothing = record {
    similar = Similar-refl d;
    known = KnownStatuses-IsForest d forest;
    outside = λ k. inl refl;
    kept = λ k h. h;
    inside = λ k t. absurd (nothing k t);
  }
