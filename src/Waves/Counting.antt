-- ===== src/Waves/Counting.antt =====
-- The counts at the start of get_execution_waves, and the nodes of a plan.
use go_agent_llm_orchestrato.Prelude.{
  ℕ, suc, ◌+◌, String, ◌==◌, ◌≡◌, refl, ap, ◌∙◌, subst, inl, inr, Bool, true, false, ◌||◌, Option,
  none, some, List, [], ◌∷◌, ◌++◌, lookup, keys, contains, contains-append, All, any, arith, eq_iff,
  if◌then◌else◌, Bool-cases,
}
use go_agent_llm_orchestrato.Waves.{
  Edges, add_node, nodes_of, Degrees, zero_degrees, increase, count_edges,
}
use go_agent_llm_orchestrato.Waves.Degrees.{
  has, Distinct, adjust-IsAdjusted, has-adjusted, change, in_count, All-map,
}

-- The edges to a node.
unfoldable pub in_edges : String → Edges → ℕ
in_edges n [] = 0
in_edges n ((s, t) ∷ edges) = let rest = in_edges n edges in if t == n then suc rest else rest

abbrev pub plus : Option ℕ → ℕ → Option ℕ
plus none m = none
plus (some v) m = some (v + m)

pub record IsCounted (edges : Edges) (d d' : Degrees) : Type 0 where
  pub counts : (n : String) → lookup n d' ≡ plus (lookup n d) (in_edges n edges)
  pub same_keys : keys d' ≡ keys d

pub plus_zero : (o : Option ℕ) → o ≡ plus o 0
plus_zero none = refl
plus_zero (some v) = ap (λ n. some n) (omega arith)

pub plus_step :
    (b : Bool) (o : Option ℕ) (m : ℕ)
    → plus (if b then change increase o else o) m ≡ plus o (if b then suc m else m)
plus_step false o m = refl
plus_step true none m = refl
plus_step true (some v) m = ap (λ n. some n) (omega arith)

pub count_edges-IsCounted :
    (edges : Edges) (d : Degrees)
    → All (λ e. has d e.1 ≡ true) edges
    → (d' : Degrees) × ((count_edges edges d ≡ some d') × IsCounted edges d d')
unfolding count_edges in_edges
count_edges-IsCounted [] d a =
    (d, (refl, record { counts = λ n. plus_zero (lookup n d); same_keys = refl }))
count_edges-IsCounted ((s, t) ∷ edges) d a =
    let (d1, (e, r)) = adjust-IsAdjusted increase t d a.0 in
    let there =
      All-map (λ x. has d x.1 ≡ true) (λ x. has d1 x.1 ≡ true) edges
        (λ x h. has-adjusted increase t d d1 r x.1 ∙ h) a.1 in
    let (d', (e', r')) = count_edges-IsCounted edges d1 there in
    (
      d',
      (
        (let p : count_edges ((s, t) ∷ edges) d ≡ some d' = rw e e' in p),
        record {
          counts = λ n.
              r'.counts n
              ∙ ap (λ o. plus o (in_edges n edges)) (r.counts n)
              ∙ plus_step (t == n) (lookup n d) (in_edges n edges);
          same_keys = r'.same_keys ∙ r.same_keys;
        },
      ),
    )

pub in_count-in_edges :
    (d : Degrees) (n : String) (edges : Edges)
    → All (λ e. has d e.0 ≡ true) edges
    → in_count d n edges ≡ in_edges n edges
unfolding in_count in_edges
in_count-in_edges d n [] a = refl
in_count-in_edges d n ((s, t) ∷ edges) a = ground (arith, in_count-in_edges d n edges a.1, a.0)

pub lookup-zero_degrees :
    (n : String) (nodes : List String)
    → lookup n (zero_degrees nodes) ≡ (if contains nodes n then some 0 else none)
unfolding lookup zero_degrees
lookup-zero_degrees n [] = refl
lookup-zero_degrees n (x ∷ nodes) = ground (arith, lookup-zero_degrees n nodes)

pub keys-zero_degrees : (nodes : List String) → keys (zero_degrees nodes) ≡ nodes
unfolding zero_degrees
keys-zero_degrees [] = refl
keys-zero_degrees (x ∷ nodes) = ap (λ xs. x ∷ xs) (keys-zero_degrees nodes)

-- A node is an end of an edge.
abbrev pub is_end : Edges → String → Bool
is_end edges n = any (λ e. e.0 == n || e.1 == n) edges

pub contains-add_node :
    (x n : String) (nodes : List String)
    → contains (add_node x nodes) n ≡ (x == n || contains nodes n)
contains-add_node x n nodes = elim (Bool-cases (contains nodes x)) [
  | inl e ↦ rw e (elim (Bool-cases (x == n)) [
    | inl q ↦ rw q (subst (λ y. contains nodes y ≡ true) ((eq_iff x n).0 q) e)
    | inr q ↦ rw q refl
  ])
  | inr e ↦ rw e (ground (arith, contains-append nodes (x ∷ []) n))
]

pub contains-nodes_of :
    (edges : Edges) (nodes : List String) (n : String)
    → contains (nodes_of edges nodes) n ≡ (is_end edges n || contains nodes n)
unfolding nodes_of
contains-nodes_of [] nodes n = refl
contains-nodes_of ((s, t) ∷ edges) nodes n = ground (
  arith,
  contains-nodes_of edges (add_node t (add_node s nodes)) n,
  contains-add_node t n (add_node s nodes),
  contains-add_node s n nodes,
)

pub Distinct-append :
    (nodes : List String) (x : String)
    → Distinct nodes
    → contains nodes x ≡ false
    → Distinct (nodes ++ x ∷ [])
Distinct-append [] x d c = (refl, tt)
Distinct-append (y ∷ nodes) x d c = (
  ground (arith, contains-append nodes (x ∷ []) y, d.0, eq_iff x y, eq_iff y x),
  Distinct-append nodes x d.1 (ground arith),
)

pub Distinct-add_node :
    (x : String) (nodes : List String) → Distinct nodes → Distinct (add_node x nodes)
Distinct-add_node x nodes d = elim (Bool-cases (contains nodes x)) [
  | inl e ↦ rw e d
  | inr e ↦ rw e (Distinct-append nodes x d e)
]

pub Distinct-nodes_of :
    (edges : Edges) (nodes : List String) → Distinct nodes → Distinct (nodes_of edges nodes)
unfolding nodes_of
Distinct-nodes_of [] nodes d = d
Distinct-nodes_of ((s, t) ∷ edges) nodes d =
    Distinct-nodes_of edges (add_node t (add_node s nodes))
      (Distinct-add_node t (add_node s nodes) (Distinct-add_node s nodes d))
