-- ===== src/Arbor/Shape.antt =====
-- Trees that fit together: each node stands in its parent's children, one level below it, and under a
-- name made from the parent's. Changes of other fields keep that.
use go_agent_llm_orchestrato.Prelude.{
  some_injective, ℕ, suc, String, ◌==◌, true, Option, none, some, Dict, lookup, insert,
  lookup-insert, contains, is_some, ◌≡◌, refl, sym, ◌∙◌, subst, eq_iff, ap, Bool-cases, inl, inr,
}
use go_agent_llm_orchestrato.Arbor.{Node, Tree, statuses, version_number, child_name}

module _ {N : Type 0} where
  -- What the entry `nid` owes to its `parent_id`, at a node of depth `depth`.
  abbrev pub Linked : Dict (Node N) → String → ℕ → Option String → Type 0
  Linked d nid depth none = (nid ≡ "ROOT") × (depth ≡ 0)
  Linked d nid depth (some p) =
      (m : Node N) × (lookup p d ≡ some m)
      × (contains m.children_ids nid ≡ true)
      × (depth ≡ suc m.depth)
      × (k : ℕ) × (nid ≡ child_name "ROOT" p k)

  pub record IsPlaced (d : Dict (Node N)) (nid : String) (n : Node N) : Type 0 where
    pub own_id : n.id ≡ nid
    pub known : contains statuses n.status ≡ true
    pub linked : Linked d nid n.depth n.parent_id
    pub children :
        (c : String)
        → contains n.children_ids c ≡ true
        → (m : Node N) × (lookup c d ≡ some m) × (m.parent_id ≡ some nid)

  abbrev pub IsForest : Dict (Node N) → Type 0
  IsForest d = (k : String) (n : Node N) → lookup k d ≡ some n → IsPlaced d k n

  pub record IsSound (t : Tree N) : Type 0 where
    pub version : t.version ≡ version_number
    pub root : t.root_id ≡ "ROOT"
    pub has_root : is_some (lookup "ROOT" t.nodes) ≡ true
    pub forest : IsForest t.nodes

  pub record SameShape (n m : Node N) : Type 0 where
    pub id : n.id ≡ m.id
    pub parent : n.parent_id ≡ m.parent_id
    pub children : n.children_ids ≡ m.children_ids
    pub depth : n.depth ≡ m.depth

  pub SameShape-refl : (n : Node N) → SameShape n n
  SameShape-refl n = record { id = refl; parent = refl; children = refl; depth = refl }

  -- `e` has the keys of `d`, each at a node of the same shape.
  pub record Similar (d e : Dict (Node N)) : Type 0 where
    pub to :
        (k : String) (n : Node N)
        → lookup k d ≡ some n
        → (m : Node N) × (lookup k e ≡ some m) × SameShape n m
    pub back :
        (k : String) (m : Node N)
        → lookup k e ≡ some m
        → (n : Node N) × (lookup k d ≡ some n) × SameShape n m

  -- The statuses of `e` are known ones where those of `d` are.
  abbrev pub KnownStatuses : Dict (Node N) → Type 0
  KnownStatuses e =
      (k : String) (m : Node N) → lookup k e ≡ some m → contains statuses m.status ≡ true

  pub Linked-Similar :
      (d e : Dict (Node N)) (nid : String) (depth : ℕ) (p : Option String)
      → Similar d e
      → Linked d nid depth p
      → Linked e nid depth p
  Linked-Similar d e nid depth none s l = l
  Linked-Similar d e nid depth (some p) s (m, at, mem, deep, j, name) =
      let (m', at', same) = s.to p m at in
      (
        m',
        at',
        subst (λ cs. contains cs nid ≡ true) same.children mem,
        deep ∙ ap suc same.depth,
        j,
        name,
      )

  pub IsForest-Similar :
      (d e : Dict (Node N)) → Similar d e → KnownStatuses e → IsForest d → IsForest e
  IsForest-Similar d e s known forest k m at =
      let (n, at', same) = s.back k m at in
      let placed = forest k n at' in
      record {
        own_id = sym same.id ∙ placed.own_id;
        known = known k m at;
        linked =
            subst (λ p. Linked e k m.depth p) same.parent
              (subst (λ x. Linked e k x n.parent_id) same.depth
                (Linked-Similar d e k n.depth n.parent_id s placed.linked));
        children = λ c mem.
            let (x, atx, up) =
              placed.children c (subst (λ cs. contains cs c ≡ true) (sym same.children) mem) in
            let (y, aty, shape) = s.to c x atx in (y, aty, sym shape.parent ∙ up);
      }

  pub Similar-refl : (d : Dict (Node N)) → Similar d d
  Similar-refl d = record {
    to = λ k n at. (n, at, SameShape-refl n);
    back = λ k n at. (n, at, SameShape-refl n);
  }

  SameShape-trans : {a b c : Node N} → SameShape a b → SameShape b c → SameShape a c
  SameShape-trans s r = record {
    id = s.id ∙ r.id;
    parent = s.parent ∙ r.parent;
    children = s.children ∙ r.children;
    depth = s.depth ∙ r.depth;
  }

  pub Similar-trans : (d e f : Dict (Node N)) → Similar d e → Similar e f → Similar d f
  Similar-trans d e f s r = record {
    to = λ k n at.
        let (m, at', a) = s.to k n at in
        let (o, at'', b) = r.to k m at' in (o, at'', SameShape-trans a b);
    back = λ k o at.
        let (m, at', b) = r.back k o at in
        let (n, at'', a) = s.back k m at' in (n, at'', SameShape-trans a b);
  }

  -- One node is replaced by one of its shape.
  pub Similar-insert :
      (d : Dict (Node N)) (key : String) (n n' : Node N)
      → lookup key d ≡ some n
      → SameShape n n'
      → Similar d (insert key n' d)
  Similar-insert d key n n' at same = record {
    to = λ k m at_k. elim (Bool-cases (key == k)) [
      | inl e ↦
          let k_is = (eq_iff key k).0 e in
          let m_is = subst (λ x. lookup x d ≡ some n) k_is at in
          (
            n',
            rw (lookup-insert key k n' d, e) refl,
            subst (λ x. SameShape x n') (some_injective n m (sym m_is ∙ at_k)) same,
          )
      | inr e ↦ (m, rw (lookup-insert key k n' d, e) at_k, SameShape-refl m)
    ];
    back = λ k m at_k. elim (Bool-cases (key == k)) [
      | inl e ↦
          let k_is = (eq_iff key k).0 e in
          (
            n,
            subst (λ x. lookup x d ≡ some n) k_is at,
            subst (λ x. SameShape n x)
                (some_injective n' m (rw (lookup-insert key k n' d, e) at at_k)) same,
          )
      | inr e ↦ (m, rw (lookup-insert key k n' d, e) at at_k, SameShape-refl m)
    ];
  }

  pub KnownStatuses-insert :
      (d : Dict (Node N)) (key : String) (n' : Node N)
      → KnownStatuses d
      → contains statuses n'.status ≡ true
      → KnownStatuses (insert key n' d)
  KnownStatuses-insert d key n' known now k m at = elim (Bool-cases (key == k)) [
    | inl e ↦ let same = rw (lookup-insert key k n' d, e) at at in subst (λ o. KnownOf o) same now
    | inr e ↦ known k m (rw (lookup-insert key k n' d, e) at at)
  ]
    where
      KnownOf : Option (Node N) → Type 0
      KnownOf none = Unit {0}
      KnownOf (some x) = contains statuses x.status ≡ true

  pub KnownStatuses-IsForest : (d : Dict (Node N)) → IsForest d → KnownStatuses d
  KnownStatuses-IsForest d forest k m at = (forest k m at).known
