-- ===== src/Arbor/Fresh.antt =====
-- next_child_id of arbor_state.py: in a sound tree the name is that of no node.
use go_agent_llm_orchestrato.Prelude.{
  some_injective, ℕ, ◌+◌, String, true, Option, none, some, Dict, lookup, contains, ◌≡◌, refl, sym,
  ◌∙◌, subst, Option-cases, inl, inr, false≢true,
}
use go_agent_llm_orchestrato.Arbor.{Node, Tree, child_name, next_child_id, largest_child}
use go_agent_llm_orchestrato.Arbor.Naming.{
  next_child_id_is_new, child_name_parent, child_name_not_root,
}
use go_agent_llm_orchestrato.Arbor.Shape.{Linked, IsSound}

module _ {N : Type 0} where
  -- A node that has the name of a new child of `p` would be among the children of `p`.
  Linked-clash :
      (d : Dict (Node N)) (p name : String) (parent : Node N) (j depth : ℕ) (up : Option String)
      → lookup p d ≡ some parent
      → name ≡ child_name "ROOT" p j
      → Linked d name depth up
      → contains parent.children_ids name ≡ true
  Linked-clash d p name parent j depth none at made (root, deep) =
      absurd (child_name_not_root "ROOT" p j (sym made ∙ root))
  Linked-clash d p name parent j depth (some q) at made (m, at_q, mem, deep, k, named) =
      let same = child_name_parent "ROOT" p q j k (sym made ∙ named) in
      let found = subst (λ x. lookup x d ≡ some m) (sym same) at_q in
      subst (λ x. contains x.children_ids name ≡ true) (some_injective m parent (sym found ∙ at))
        mem

  -- In a sound tree, the name that next_child_id makes for a child of a node is the name of no node at
  -- all.
  pub next_child_id_fresh :
      (t : Tree N) (p : String) (parent : Node N)
      → IsSound t
      → lookup p t.nodes ≡ some parent
      → lookup (next_child_id t p parent) t.nodes ≡ none
  unfolding next_child_id
  next_child_id_fresh t p parent sound at = elim (Option-cases (lookup name t.nodes)) [
    | inl missing ↦ missing
    | inr (n, found) ↦
        let old =
          Linked-clash t.nodes p name parent (k + 1) n.depth n.parent_id at
            (subst (λ r. name ≡ child_name r p (k + 1)) sound.root refl)
            ((sound.forest name n found).linked) in
        absurd (false≢true (sym (next_child_id_is_new t p parent) ∙ old))
  ]
    where
      k : ℕ
      k = largest_child t.root_id p parent.children_ids

      name : String
      name = child_name t.root_id p (k + 1)
