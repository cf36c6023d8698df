-- ===== src/Arbor/Checking.antt =====
-- What cmd_check of arbor_state.py finds in a tree.
use go_agent_llm_orchestrato.Prelude.{
  some_injective, ℕ, String, ◌==◌, Bool, true, false, not, Option, none, some, List, [], ◌∷◌, ◌++◌,
  Dict, keys, lookup, contains, is_some, is_nil, ◌≡◌, ◌≢◌, ◌↔◌, false≢true, refl, sym, subst, arith,
  eq_iff, eqb, Bool-cases, Option-cases, inl, inr,
}
use go_agent_llm_orchestrato.Arbor.{Node, Tree, statuses, version_number}
use go_agent_llm_orchestrato.Arbor.Check.{
  Fault, bad_version, no_root, id_mismatch, bad_status, not_listed, fault_if, parent_faults,
  entry_faults, nodes_faults, tree_faults,
}
use go_agent_llm_orchestrato.Arbor.Shape.{Linked, IsSound}

-- A test of the form `not p` adds nothing when `p` holds.
fault_if_iff : (p : Bool) (f : Fault) → (is_nil (fault_if (not p) f) ≡ true) ↔ (p ≡ true)
fault_if_iff true f = (λ h. refl, λ h. refl)
fault_if_iff false f = (λ h. absurd (false≢true h), λ h. absurd (false≢true h))

nil_append_iff :
    (xs ys : List Fault) → (is_nil (xs ++ ys) ≡ true) ↔ ((is_nil xs ≡ true) × (is_nil ys ≡ true))
nil_append_iff [] ys = (λ h. (refl, h), λ (h, k). k)
nil_append_iff (x ∷ xs) ys = (λ h. absurd (false≢true h), λ (h, k). absurd (false≢true h))

module _ {N : Type 0} where
  abbrev pub IsListed : Dict (Node N) → String → Option String → Type 0
  IsListed d nid none = Unit {0}
  IsListed d nid (some p) =
      (m : Node N) × (lookup p d ≡ some m) × (contains m.children_ids nid ≡ true)

  -- What the check asks of an entry.
  pub record IsFaultless (d : Dict (Node N)) (nid : String) (n : Node N) : Type 0 where
    pub own_id : n.id ≡ nid
    pub known : contains statuses n.status ≡ true
    pub listed : IsListed d nid n.parent_id

  parent_faults-IsListed :
      (d : Dict (Node N)) (nid : String) (p : Option String)
      → (is_nil (parent_faults d nid p) ≡ true) ↔ IsListed d nid p
  parent_faults-IsListed d nid none = (λ h. tt, λ h. refl)
  parent_faults-IsListed d nid (some p) = elim (Option-cases (lookup p d)) [
    | inl missing ↦ rw missing (λ h. absurd (false≢true h), λ (m, at, mem). absurd (none≢some m at))
    | inr (m, at) ↦
        let test = fault_if_iff (contains m.children_ids nid) (not_listed nid) in
        rw at (
          λ h. (m, refl, test.0 h),
          λ (x, same, mem). test.1 (
              subst (λ (y : Node N). contains y.children_ids nid ≡ true)
                (sym (some_injective m x same)) mem),
        )
  ]
    where
      none≢some : (m : Node N) → none ≢ some m
      none≢some m e = cc

  entry_faults-IsFaultless :
      (d : Dict (Node N)) (nid : String) (n : Node N)
      → (is_nil (entry_faults d nid (some n)) ≡ true) ↔ IsFaultless d nid n
  entry_faults-IsFaultless d nid n =
      let own = fault_if (not (n.id == nid)) (id_mismatch nid) in
      let status = fault_if (not (contains statuses n.status)) (bad_status nid) in
      let up = parent_faults d nid n.parent_id in
      let id_test = fault_if_iff (n.id == nid) (id_mismatch nid) in
      let status_test = fault_if_iff (contains statuses n.status) (bad_status nid) in
      let up_test = parent_faults-IsListed d nid n.parent_id in
      let outer = nil_append_iff (own ++ status) up in
      let inner = nil_append_iff own status in
      (
        λ h.
            let (h1, h2) = outer.0 h in
            let (h3, h4) = inner.0 h1 in
            record {
              own_id = (eq_iff n.id nid).0 (id_test.0 h3);
              known = status_test.0 h4;
              listed = up_test.0 h2;
            },
        λ r. outer.1 (
          inner.1 (id_test.1 ((eq_iff n.id nid).1 r.own_id), status_test.1 r.known),
          up_test.1 r.listed,
        ),
      )

  nodes_faults-at :
      (d : Dict (Node N)) (nids : List String) (k : String) (n : Node N)
      → is_nil (nodes_faults d nids) ≡ true
      → contains nids k ≡ true
      → lookup k d ≡ some n
      → IsFaultless d k n
  unfolding nodes_faults
  nodes_faults-at d [] k n h mem at = absurd (false≢true mem)
  nodes_faults-at d (i ∷ nids) k n h mem at =
      let (now, rest) =
        (nil_append_iff (entry_faults d i (lookup i d)) (nodes_faults d nids)).0 h in
      elim (Bool-cases (i == k)) [
        | inl e ↦
            let here =
              subst (λ o. is_nil (entry_faults d k o) ≡ true) at
                (subst (λ x. is_nil (entry_faults d x (lookup x d)) ≡ true) ((eq_iff i k).0 e)
                  now) in
            (entry_faults-IsFaultless d k n).0 here
        | inr e ↦ nodes_faults-at d nids k n rest (rw e at mem) at
      ]

  nodes_faults-nil :
      (d : Dict (Node N)) (nids : List String)
      → ((k : String) (n : Node N) → lookup k d ≡ some n → IsFaultless d k n)
      → is_nil (nodes_faults d nids) ≡ true
  unfolding nodes_faults
  nodes_faults-nil d [] good = refl
  nodes_faults-nil d (i ∷ nids) good =
      (nil_append_iff (entry_faults d i (lookup i d)) (nodes_faults d nids)).1
        (now (lookup i d) refl, nodes_faults-nil d nids good)
    where
      now : (o : Option (Node N)) → lookup i d ≡ o → is_nil (entry_faults d i o) ≡ true
      now none e = refl
      now (some n) e = (entry_faults-IsFaultless d i n).1 (good i n e)

  contains-keys_of-lookup :
      (d : Dict (Node N)) (k : String) (n : Node N)
      → lookup k d ≡ some n
      → contains (keys d) k ≡ true
  unfolding lookup
  contains-keys_of-lookup [] k n at = absurd (cc)
  contains-keys_of-lookup ((j, m) ∷ d) k n at = elim (Bool-cases (j == k)) [
    | inl e ↦ rw e refl
    | inr e ↦ rw e (contains-keys_of-lookup d k n (rw e at at))
  ]

  -- What a tree without faults satisfies.
  pub record IsChecked (t : Tree N) : Type 0 where
    pub version : t.version ≡ version_number
    pub has_root : is_some (lookup t.root_id t.nodes) ≡ true
    pub entries : (k : String) (n : Node N) → lookup k t.nodes ≡ some n → IsFaultless t.nodes k n

  -- cmd_check finds no fault in a tree exactly when the version is right, the root is there, and each
  -- node has its key for an id, a known status, and a parent that exists and lists it, if it has one.
  pub tree_faults_iff : (t : Tree N) → (is_nil (tree_faults t) ≡ true) ↔ IsChecked t
  unfolding tree_faults
  tree_faults_iff t =
      let version = fault_if (not (eqb t.version version_number)) bad_version in
      let root = fault_if (not (is_some (lookup t.root_id t.nodes))) no_root in
      let entries = nodes_faults t.nodes (keys t.nodes) in
      let outer = nil_append_iff (version ++ root) entries in
      let inner = nil_append_iff version root in
      let version_test = fault_if_iff (eqb t.version version_number) bad_version in
      let root_test = fault_if_iff (is_some (lookup t.root_id t.nodes)) no_root in
      (
        λ h.
            let (h1, h2) = outer.0 h in
            let (h3, h4) = inner.0 h1 in
            let right = version_test.0 h3 in
            record {
              version = ground (arith, right);
              has_root = root_test.0 h4;
              entries = λ k n at.
                  nodes_faults-at t.nodes (keys t.nodes) k n h2
                    (contains-keys_of-lookup t.nodes k n at) at;
            },
        λ r.
            let right = r.version in
            outer.1 (
              inner.1 (version_test.1 (ground (arith, right)), root_test.1 r.has_root),
              nodes_faults-nil t.nodes (keys t.nodes) r.entries,
            ),
      )

  IsListed-Linked :
      (d : Dict (Node N)) (nid : String) (depth : ℕ) (p : Option String)
      → Linked d nid depth p
      → IsListed d nid p
  IsListed-Linked d nid depth none l = tt
  IsListed-Linked d nid depth (some p) (m, at, mem, deep, j, made) = (m, at, mem)

  -- A sound tree has no fault.
  pub IsSound-tree_faults : (t : Tree N) → IsSound t → is_nil (tree_faults t) ≡ true
  IsSound-tree_faults t sound = (tree_faults_iff t).1 (record {
    version = sound.version;
    has_root = subst (λ r. is_some (lookup r t.nodes) ≡ true) (sym sound.root) sound.has_root;
    entries = λ k n at.
        let placed = sound.forest k n at in
        record {
          own_id = placed.own_id;
          known = placed.known;
          listed = IsListed-Linked t.nodes k n.depth n.parent_id placed.linked;
        };
  })
