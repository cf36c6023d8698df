-- ===== src/Arbor/Pruning.antt =====
-- cmd_prune of arbor_state.py: the walk ends, and it prunes the node and all below it, and no other.
use go_agent_llm_orchestrato.Prelude.{
  some_injective, ℕ, zero, suc, ◌+◌, ◌≤◌, String, ◌==◌, true, some, List, [], ◌∷◌, Dict, lookup,
  insert, lookup-insert, contains, ◌≡◌, ◌⊎◌, refl, sym, ◌∙◌, subst, arith, eq_refl, ap, Bool-cases,
  inl, inr, is_some,
}
use mathlib.Core.Logic.{⊎_elim}
use go_agent_llm_orchestrato.Arbor.{Node, Tree, present}
use go_agent_llm_orchestrato.Arbor.Commands.{
  done, failed, finished, stopped, found_or, node_not_found,
}
use go_agent_llm_orchestrato.Arbor.Walks.{each, pruned, walk, deepest, cmd_prune, save_nodes}
use go_agent_llm_orchestrato.Arbor.Shape.{IsForest, IsSound, SameShape, Similar}
use go_agent_llm_orchestrato.Arbor.Marking.{
  Under, here, below, Under-Similar, Similar-sym, IsPruned, IsBelow, IsBelow-Similar, Marked,
  Marked_trans, Marked_same, Marked-insert, IsForest-Marked,
}
use go_agent_llm_orchestrato.Arbor.Children.{
  is_some_value, lookup-cons, lookup-nil, keys-present, present-keys, child_depth, Each, each_marks,
}

module _ {N : Type 0} (root reason : String) where
  pruned-SameShape : (key : String) (n : Node N) → SameShape n (pruned root reason key n)
  unfolding pruned
  pruned-SameShape key n = record { id = refl; parent = refl; children = refl; depth = refl }

  pruned-status : (key : String) (n : Node N) → (pruned root reason key n).status ≡ "pruned"
  unfolding pruned
  pruned-status key n = refl

  walk-step :
      (fuel : ℕ) (key : String) (d : Dict (Node N)) (n : Node N)
      → lookup key d ≡ some n
      → n.id ≡ key
      → walk root reason (suc fuel) key d
        ≡ each
            (walk root reason fuel)
            (present (insert key (pruned root reason key n) d) n.children_ids)
            (insert key (pruned root reason key n) d)
  unfolding walk
  walk-step fuel key d n at own =
      let n' = pruned root reason key n in
      let d' = insert key n' d in
      let go = λ (ids : List String). each (walk root reason fuel) (present d' ids) d' in
      let now =
        subst (λ x. lookup x d' ≡ some n') (sym own)
          (rw (lookup-insert key key n' d, eq_refl key) refl) in
      ap
        (λ o. found_or o (failed (node_not_found key)) (λ (x : Node N).
          let e = insert key (pruned root reason key x) d in
          found_or (lookup x.id e) (failed (node_not_found x.id))
            (λ (m : Node N). each (walk root reason fuel) (present e m.children_ids) e)))
        at
      ∙ ap (λ o. found_or o (failed (node_not_found n.id)) (λ (m : Node N). go m.children_ids)) now
      ∙ ap go (sym ((pruned-SameShape key n).children))

  walk_marks :
      (most fuel : ℕ) (key : String) (d : Dict (Node N)) (n : Node N)
      → IsForest d
      → IsBelow most d
      → lookup key d ≡ some n
      → most ≤ n.depth + fuel
      → (e : Dict (Node N)) × (walk root reason fuel key d ≡ done e) × Marked d e (Under d key)
  walk_marks most zero key d n forest low at fuel_lt = absurd (omega (arith, low key n at))
  walk_marks most (suc fuel) key d n forest low at fuel_lt =
      let n' = pruned root reason key n in
      let d' = insert key n' d in
      let placed = forest key n at in
      let first =
        Marked-insert d key n n' forest at (pruned-SameShape key n) (pruned-status key n) in
      let cs = present d' n.children_ids in
      let (e, ran, marked) =
        each_marks most (suc n.depth) (walk root reason fuel)
          (λ c m b forest' low' at' level.
            walk_marks most fuel c b m forest' low' at' (omega (arith, level)))
          cs d' (IsForest-Marked forest first) (IsBelow-Similar most first.similar low)
          (λ c mem.
            let (m, at_m, up) = placed.children c (keys-present d' n.children_ids c mem) in
            let (m', at_m', same) = first.similar.to c m at_m in
            (m', at_m', sym same.depth ∙ child_depth d key n c m forest at at_m up)) in
      (
        e,
        walk-step fuel key d n at placed.own_id ∙ ran,
        Marked_same (λ k h. under_in k first.similar h) (λ k h. under_out k first.similar h)
            (Marked_trans first marked),
      )
    where
      under_in :
          {e : Dict (Node N)} (k : String)
          → Similar d e
          → (k ≡ key) ⊎ Each e (present e n.children_ids) k
          → Under d key k
      under_in k s (inl same) = rw same here
      under_in {e} k s (inr (c, mem, u)) =
          below at (keys-present e n.children_ids c mem) (Under-Similar (Similar-sym s) u)

      under_out :
          {e : Dict (Node N)} (k : String)
          → Similar d e
          → Under d key k
          → (k ≡ key) ⊎ Each e (present e n.children_ids) k
      under_out k s here = inl refl
      under_out {e} k s (below {c = c} {n = x} at_x mem u) =
          let same = some_injective x n (sym at_x ∙ at) in
          let mem' = subst (λ (y : Node N). contains y.children_ids c ≡ true) same mem in
          let (m, at_m, up) = (forest key n at).children c mem' in
          let (m', at_m', shape) = s.to c m at_m in
          inr (c, present-keys e n.children_ids c m' mem' at_m', Under-Similar s u)

module _ {N : Type 0} where
  le-deepest :
      (d : Dict (Node N)) (k : String) (n : Node N) → lookup k d ≡ some n → n.depth ≤ deepest d
  unfolding deepest
  le-deepest [] k n at = absurd (lookup-nil k n at)
  le-deepest ((j, m) ∷ d) k n at = elim (Bool-cases (j == k)) [
    | inl e ↦
        let same = some_injective m n (rw (lookup-cons j m d k, e) at at) in
        let deep = ap (λ (y : Node N). y.depth) same in omega (arith, deep)
    | inr e ↦ omega (arith, le-deepest d k n (rw (lookup-cons j m d k, e) at at))
  ]

  -- What cmd_prune leaves behind.
  pub record PrunedBelow (t t' : Tree N) (root : String) : Type 0 where
    pub sound : IsSound t'
    pub inside : (k : String) → Under t.nodes root k → IsPruned t'.nodes k
    pub outside : (k : String) → ¬ Under t.nodes root k → lookup k t'.nodes ≡ lookup k t.nodes

  pub has_root-Similar :
      (d e : Dict (Node N))
      → Similar d e
      → is_some (lookup "ROOT" d) ≡ true
      → is_some (lookup "ROOT" e) ≡ true
  has_root-Similar d e s h =
      let (r, at) = is_some_value (lookup "ROOT" d) h in
      let (r', at', same) = s.to "ROOT" r at in rw at' refl

  PrunedBelow-Marked :
      (t : Tree N) (root : String) (e : Dict (Node N))
      → IsSound t
      → Marked t.nodes e (Under t.nodes root)
      → PrunedBelow t (record t { nodes = e }) root
  PrunedBelow-Marked t root e sound marked = record {
    sound = record {
      version = sound.version;
      root = sound.root;
      has_root = has_root-Similar t.nodes e marked.similar sound.has_root;
      forest = IsForest-Marked sound.forest marked;
    };
    inside = marked.inside;
    outside = λ k away. ⊎_elim (λ p. p) (λ u. absurd (away u)) (marked.outside k);
  }

  cmd_prune-at :
      (t : Tree N) (node_id reason : String) (n : Node N) (e : Dict (Node N))
      → lookup node_id t.nodes ≡ some n
      → walk node_id reason (deepest t.nodes + 1) node_id t.nodes ≡ done e
      → cmd_prune node_id reason t ≡ finished (record t { nodes = e })
  unfolding cmd_prune
  cmd_prune-at t node_id reason n e at ran =
      ap
        (λ o. found_or o (stopped t (node_not_found node_id)) (λ (x : Node N).
          save_nodes t (walk node_id reason (deepest t.nodes + 1) node_id t.nodes)))
        at
      ∙ ap (save_nodes t) ran

  -- cmd_prune at a node of a sound tree comes to an end; then the node and all below it are pruned, no
  -- other node has changed, and the tree is still sound.
  pub cmd_prune-PrunedBelow :
      (t : Tree N) (node_id reason : String)
      → IsSound t
      → is_some (lookup node_id t.nodes) ≡ true
      → (t' : Tree N) × (cmd_prune node_id reason t ≡ finished t') × PrunedBelow t t' node_id
  cmd_prune-PrunedBelow t node_id reason sound there =
      let (n, at) = is_some_value (lookup node_id t.nodes) there in
      let (e, ran, marked) =
        walk_marks node_id reason (deepest t.nodes + 1) (deepest t.nodes + 1) node_id t.nodes n
          sound.forest (λ k m at_m. omega (arith, le-deepest t.nodes k m at_m)) at (omega arith) in
      (
        record t { nodes = e },
        cmd_prune-at t node_id reason n e at ran,
        PrunedBelow-Marked t node_id e sound marked,
      )
