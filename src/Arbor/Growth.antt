-- ===== src/Arbor/Growth.antt =====
-- cmd_add of arbor_state.py: the new node has a name of its own, and the tree still fits together.
use go_agent_llm_orchestrato.Prelude.{
  some_injective, ℕ, suc, ◌+◌, String, ◌==◌, true, false, Option, none, some, [], ◌∷◌, ◌++◌, Dict,
  lookup, insert, lookup-insert, contains, contains-append, is_some, ◌≡◌, refl, sym, ◌∙◌, subst,
  arith, eq_iff, ap, Bool-cases, inl, inr, if_split, eq_refl, if◌then◌else◌, false≢true,
}
use go_agent_llm_orchestrato.Arbor.{
  Node, Tree, statuses, new_node, child_name, next_child_id, largest_child,
}
use go_agent_llm_orchestrato.Arbor.Commands.{
  CommandResult, put, with_node_split, exceeds, cmd_add, stopped, finished, too_deep,
}
use go_agent_llm_orchestrato.Arbor.Shape.{Linked, IsPlaced, IsForest, IsSound}
use go_agent_llm_orchestrato.Arbor.Fresh.{next_child_id_fresh}

next_child_id_name :
    {N : Type 0} (t : Tree N) (p : String) (parent : Node N)
    → IsSound t
    → next_child_id t p parent
      ≡ child_name "ROOT" p (largest_child t.root_id p parent.children_ids + 1)
unfolding next_child_id
next_child_id_name t p parent sound =
    let k = largest_child t.root_id p parent.children_ids + 1 in
    ap (λ r. child_name r p k) sound.root

-- `parent` at `p`, and a name that no node has.
module _ {N : Type 0} (d : Dict (Node N)) (p name : String) (parent new : Node N) where
  abbrev parent' : Node N
  parent' = record parent { children_ids = parent.children_ids ++ name ∷ [] }

  abbrev grown : Dict (Node N)
  grown = insert name new (insert p parent' d)

  lookup-grown :
      (k : String)
      → lookup k grown
        ≡ (if name == k then some new else if p == k then some parent' else lookup k d)
  lookup-grown k =
      rw (lookup-insert name k new (insert p parent' d), lookup-insert p k parent' d) refl

  pub has_root-grown : is_some (lookup "ROOT" d) ≡ true → is_some (lookup "ROOT" grown) ≡ true
  has_root-grown h = ground (arith, lookup-grown "ROOT")

  module _ (at : lookup p d ≡ some parent) (fresh : lookup name d ≡ none) where
    not_name : (k : String) (m : Node N) → lookup k d ≡ some m → (name == k) ≡ false
    not_name k m found = elim (Bool-cases (name == k)) [
      | inl e ↦ let nothing = subst (λ x. lookup x d ≡ none) ((eq_iff name k).0 e) fresh in cc
      | inr e ↦ e
    ]

    -- Each old node stands on, with its parent and depth and at least its children.
    still_there :
        (k : String) (m : Node N)
        → lookup k d ≡ some m
        → (m' : Node N) × (lookup k grown ≡ some m')
          × (m'.parent_id ≡ m.parent_id)
          × (m'.depth ≡ m.depth)
          × ((c : String) → contains m.children_ids c ≡ true → contains m'.children_ids c ≡ true)
    still_there k m found = elim (Bool-cases (p == k)) [
      | inl e ↦
          let same = subst (λ x. lookup x d ≡ some parent) ((eq_iff p k).0 e) at in
          let m_is = some_injective parent m (sym same ∙ found) in
          (
            parent',
            rw (lookup-grown k, not_name k m found, e) refl,
            ap (λ (x : Node N). x.parent_id) m_is,
            ap (λ (x : Node N). x.depth) m_is,
            λ c mem.
                let old = subst (λ x. contains x.children_ids c ≡ true) (sym m_is) mem in
                rw (contains-append parent.children_ids (name ∷ []) c, old) refl,
          )
      | inr e ↦ (m, rw (lookup-grown k, not_name k m found, e) found, refl, refl, λ c mem. mem)
    ]

    Linked-grown :
        (k : String) (depth : ℕ) (up : Option String)
        → Linked d k depth up
        → Linked grown k depth up
    Linked-grown k depth none l = l
    Linked-grown k depth (some q) (m, found, mem, deep, j, named) =
        let (m', found', up, same, more) = still_there q m found in
        (m', found', more k mem, deep ∙ ap suc (sym same), j, named)

    children-grown :
        (k : String) (n : Node N)
        → IsPlaced d k n
        → (c : String) → contains n.children_ids c ≡ true
        → (m : Node N) × (lookup c grown ≡ some m) × (m.parent_id ≡ some k)
    children-grown k n placed c mem =
        let (m, found, up) = placed.children c mem in
        let (m', found', same, level, more) = still_there c m found in (m', found', same ∙ up)

    module _ (forest : IsForest d) (own : new.id ≡ name)
        (known : contains statuses new.status ≡ true) (up : new.parent_id ≡ some p)
        (deep : new.depth ≡ suc parent.depth) (empty : new.children_ids ≡ []) (j : ℕ)
        (named : name ≡ child_name "ROOT" p j) where
      at_p : lookup p grown ≡ some parent'
      at_p = rw (lookup-grown p, not_name p parent at, eq_refl p) refl

      new-IsPlaced : IsPlaced grown name new
      new-IsPlaced = record {
        own_id = own;
        known = known;
        linked =
            subst (λ o. Linked grown name new.depth o) (sym up)
              (
                parent',
                at_p,
                rw (contains-append parent.children_ids (name ∷ []) name)
                    (ground (arith, eq_refl name)),
                deep,
                j,
                named,
              );
        children = λ c mem. absurd (false≢true (subst (λ cs. contains cs c ≡ true) empty mem));
      }

      -- The parent has one child more.
      parent_child :
          (c : String)
          → contains parent'.children_ids c ≡ true
          → (m : Node N) × (lookup c grown ≡ some m) × (m.parent_id ≡ some p)
      parent_child c mem = elim (Bool-cases (contains parent.children_ids c)) [
        | inl old ↦ children-grown p parent (forest p parent at) c old
        | inr other ↦
            let is_name : (name == c) ≡ true =
              ground (arith, contains-append parent.children_ids (name ∷ []) c) in
            (new, rw (lookup-grown c, is_name) refl, up)
      ]

      pub IsForest-grown : IsForest grown
      IsForest-grown k n found = elim (Bool-cases (name == k)) [
        | inl e ↦
            let n_is = some_injective new n (rw (lookup-grown k, e) at found) in
            subst (λ x. IsPlaced grown k x) n_is
              (subst (λ x. IsPlaced grown x new) ((eq_iff name k).0 e) new-IsPlaced)
        | inr e ↦ elim (Bool-cases (p == k)) [
          | inl q ↦
              let n_is = some_injective parent' n (rw (lookup-grown k, e, q) at found) in
              let old = forest p parent at in
              subst (λ x. IsPlaced grown k x) n_is
                (subst (λ x. IsPlaced grown x parent') ((eq_iff p k).0 q)
                  (record {
                    own_id = old.own_id;
                    known = old.known;
                    linked = Linked-grown p parent.depth parent.parent_id old.linked;
                    children = parent_child;
                  }))
          | inr q ↦
              let old = forest k n (rw (lookup-grown k, e, q) at found) in
              record {
                own_id = old.own_id;
                known = old.known;
                linked = Linked-grown k n.depth n.parent_id old.linked;
                children = children-grown k n old;
              }
        ]
      ]

-- cmd_add keeps the tree sound, whether it adds a node or stops.
pub cmd_add-IsSound :
    {N : Type 0} (p hypothesis : String) (t : Tree N)
    → IsSound t
    → IsSound (cmd_add p hypothesis t).0
unfolding cmd_add
cmd_add-IsSound {N} p hypothesis t sound =
    with_node_split (λ (o : CommandResult N). IsSound o.0) t p
      (λ parent.
        let name = next_child_id t p parent in
        if exceeds (parent.depth + 1) t.max_depth
        then stopped t too_deep
        else finished (
            put name (new_node name (some p) (parent.depth + 1) hypothesis "pending")
              (put p (record parent { children_ids = parent.children_ids ++ name ∷ [] }) t)))
      (λ _. sound)
      (λ parent at.
        let name = next_child_id t p parent in
        let new = new_node name (some p) (parent.depth + 1) hypothesis "pending" in
        let fresh = next_child_id_fresh t p parent sound at in
        if_split (λ (o : CommandResult N). IsSound o.0) (exceeds (parent.depth + 1) t.max_depth)
          (stopped t too_deep)
          (finished (
            put name new
              (put p (record parent { children_ids = parent.children_ids ++ name ∷ [] }) t)))
          (λ _. sound)
          (λ _. record {
            version = sound.version;
            root = sound.root;
            has_root = has_root-grown t.nodes p name parent new sound.has_root;
            forest =
                IsForest-grown t.nodes p name parent new at fresh sound.forest refl refl refl
                  (omega arith) refl (largest_child t.root_id p parent.children_ids + 1)
                  (next_child_id_name t p parent sound);
          }))
