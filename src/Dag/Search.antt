-- ===== src/Dag/Search.antt =====
-- What one call of `dfs` does: it returns, and its answer is right.
use mathlib.Core.WellFounded.{Acc}
use go_agent_llm_orchestrato.Prelude.{
  ℕ, zero, suc, ◌<◌, String, ◌==◌, ◌≡◌, refl, ◌⊎◌, inl, inr, true, false, none, some, List, [], ◌∷◌,
  lookup, insert, keys, contains, arith, eq_iff, if◌then◌else◌, lookup-insert, Option-cases,
  Bool-cases, subst, eq_refl,
}
use go_agent_llm_orchestrato.Dag.{
  TaskNode, Nodes, Mark, unvisited, visiting, visited, Marks, mark_of, has_node, Found,
  unless_found, dfs_deps, close, dfs,
}
use go_agent_llm_orchestrato.Dag.Graph.{
  Edge, Reaches, edge, HasCycle, IsSafe, Reaches-snoc, white_count, Darker, white_count-le,
  white_count-lt,
}

later :
    (d : String) (deps : List String) (j : String)
    → contains deps j ≡ true
    → contains (d ∷ deps) j ≡ true
later d deps j c = ground arith

Mark-cases : (k : Mark) → (k ≡ unvisited) ⊎ ((k ≡ visiting) ⊎ (k ≡ visited))
Mark-cases unvisited = inl refl
Mark-cases visiting = inr (inl refl)
Mark-cases visited = inr (inr refl)

module _ (nodes : Nodes) where
  -- Every node that is done is safe.
  abbrev pub DoneSafe : Marks → Type 0
  DoneSafe m = (x : String) → mark_of m x ≡ visited → IsSafe nodes x

  -- The open calls lead to `id`.
  abbrev pub OpenLeads : Marks → String → Type 0
  OpenLeads m id = (x : String) → mark_of m x ≡ visiting → Reaches nodes x id

  -- What a search that met no cycle leaves behind.
  pub record Kept (m m' : Marks) : Type 0 where
    pub done : DoneSafe m'
    pub still_open : (x : String) → mark_of m' x ≡ visiting → mark_of m x ≡ visiting
    pub darker : Darker m m'

  -- It returns; `true` comes with a cycle, and `false` with `P` and marks that are kept.
  abbrev pub Answers : Type 0 → Marks → Found → Type 0
  Answers P m none = ⊥
  Answers P m (some (true, m')) = HasCycle nodes
  Answers P m (some (false, m')) = P × Kept m m'

  abbrev pub AllSafe : List String → Type 0
  AllSafe deps = (d : String) → contains deps d ≡ true → has_node nodes d ≡ true → IsSafe nodes d

  pub AllSafe-cons_node :
      (d : String) (deps : List String) → IsSafe nodes d → AllSafe deps → AllSafe (d ∷ deps)
  AllSafe-cons_node d deps s h x c k = elim (Bool-cases (d == x)) [
    | inl e ↦ subst (IsSafe nodes) ((eq_iff d x).0 e) s
    | inr e ↦ h x (rw e at c) k
  ]

  AllSafe-cons_other :
      (d : String) (deps : List String)
      → has_node nodes d ≡ false
      → AllSafe deps
      → AllSafe (d ∷ deps)
  AllSafe-cons_other d deps n h x c k = elim (Bool-cases (d == x)) [
    | inl e ↦ cc (n, k, (eq_iff d x).0 e)
    | inr e ↦ h x (rw e at c) k
  ]

  pub Kept-refl : (m : Marks) → DoneSafe m → Kept m m
  Kept-refl m h = record { done = h; still_open = λ x e. e; darker = λ x e. e }

  Kept-trans : {m m' m'' : Marks} → Kept m m' → Kept m' m'' → Kept m m''
  Kept-trans a b = record {
    done = b.done;
    still_open = λ x e. a.still_open x (b.still_open x e);
    darker = λ x e. a.darker x (b.darker x e);
  }

  pub Answers-map : {P Q : Type 0} (m : Marks) (r : Found) → (P → Q) → Answers P m r → Answers Q m r
  Answers-map m none f a = a
  Answers-map m (some (true, m')) f a = a
  Answers-map m (some (false, m')) f a = (f a.0, a.1)

  after : (Q : Type 0) (m m' : Marks) (r : Found) → Kept m m' → Answers Q m' r → Answers Q m r
  after Q m m' none kept a = a
  after Q m m' (some (true, m'')) kept a = a
  after Q m m' (some (false, m'')) kept a = (a.0, Kept-trans kept a.1)

  pub Answers-unless_found :
      {P : Type 0} (Q : Type 0) (m : Marks) (r : Found) (next : Marks → Found)
      → Answers P m r
      → ((m' : Marks) → P → Kept m m' → Answers Q m' (next m'))
      → Answers Q m (unless_found r next)
  Answers-unless_found Q m none next a h = a
  Answers-unless_found Q m (some (true, m')) next a h = a
  Answers-unless_found Q m (some (false, m')) next a h = after Q m m' (next m') a.1 (h m' a.0 a.1)

  pub narrow :
      {fuel : ℕ} {m m' : Marks}
      → white_count (keys nodes) m < fuel
      → Kept m m'
      → white_count (keys nodes) m' < fuel
  narrow {m = m} {m' = m'} w kept = omega (arith, white_count-le (keys nodes) m m' kept.darker)

  -- A call that returns for every node whose marks leave fewer than `fuel` nodes unvisited.
  abbrev pub IsSearch : ℕ → (Marks → String → Found) → Type 0
  IsSearch fuel search_from =
      (m : Marks) (id : String)
      → has_node nodes id ≡ true
      → white_count (keys nodes) m < fuel
      → DoneSafe m
      → OpenLeads m id
      → Answers (IsSafe nodes id) m (search_from m id)

  dfs_deps-Answers :
      (fuel : ℕ) (call : Marks → String → Found)
      → IsSearch fuel call
      → (deps : List String) (m : Marks) → white_count (keys nodes) m < fuel
      → DoneSafe m
      → ((d : String) → contains deps d ≡ true → has_node nodes d ≡ true → OpenLeads m d)
      → Answers (AllSafe deps) m (dfs_deps call nodes deps m)
  unfolding dfs_deps
  dfs_deps-Answers fuel call right [] m w s o = ((λ d c k. cc), Kept-refl m s)
  dfs_deps-Answers fuel call right (d ∷ deps) m w s o = elim (Bool-cases (has_node nodes d)) [
    | inl k ↦ rw k (
        Answers-unless_found _ m (call m d) (dfs_deps call nodes deps)
          (right m d k w s (o d (ground (arith, eq_refl d)) k))
          λ m' safe kept. Answers-map m' _ (AllSafe-cons_node d deps safe) (
            dfs_deps-Answers fuel call right deps m' (narrow w kept) kept.done
              (λ j c e x v. o j (later d deps j c) e x (kept.still_open x v))))
    | inr n ↦ rw n (
        Answers-map m _ (AllSafe-cons_other d deps n)
          (dfs_deps-Answers fuel call right deps m w s (λ j c e. o j (later d deps j c) e)))
  ]

  contains-keys : (d : Nodes) (id : String) → has_node d id ≡ true → contains (keys d) id ≡ true
  unfolding lookup
  contains-keys [] id h = cc
  contains-keys ((j, n) ∷ d) id h = ground (arith, contains-keys d id)

  mark_of-insert :
      (id x : String) (k : Mark) (m : Marks)
      → mark_of (insert id k m) x ≡ (if id == x then k else mark_of m x)
  mark_of-insert id x k m = rw (lookup-insert id x k m) (ground arith)

  module _ (id : String) (n : TaskNode) (is_node : lookup id nodes ≡ some n) (m : Marks) where
    abbrev opened : Marks
    opened = insert id visiting m

    opened-DoneSafe : DoneSafe m → DoneSafe opened
    opened-DoneSafe s x e = s x (ground (arith, mark_of-insert id x visiting m))

    opened-OpenLeads : OpenLeads m id → (d : String) → Edge nodes id d → OpenLeads opened d
    opened-OpenLeads o d e x v = elim (Bool-cases (id == x)) [
      | inl q ↦ subst (λ (y : String). Reaches nodes y d) ((eq_iff id x).0 q) (edge e)
      | inr q ↦ Reaches-snoc (o x (ground (arith, mark_of-insert id x visiting m))) e
    ]

    opened-fewer :
        mark_of m id ≡ unvisited → white_count (keys nodes) opened < white_count (keys nodes) m
    opened-fewer u =
        white_count-lt (keys nodes) m opened id
          (λ x e. ground (arith, mark_of-insert id x visiting m))
          (contains-keys nodes id (rw is_node)) u
          (λ e. ground (arith, mark_of-insert id id visiting m, eq_refl id))

    IsSafe-close : AllSafe n.dependencies → IsSafe nodes id
    IsSafe-close h = Acc.intro id λ y e.
        h y (subst (λ (k : TaskNode). contains k.dependencies y ≡ true) (same e.is_node) e.depends)
          e.known
      where
        same : {k : TaskNode} → lookup id nodes ≡ some k → k ≡ n
        same q = cc

    Kept-close :
        (m' : Marks)
        → mark_of m id ≡ unvisited
        → IsSafe nodes id
        → Kept opened m'
        → Kept m (insert id visited m')
    Kept-close m' u safe kept = record {
      done = λ x e. elim (Bool-cases (id == x)) [
        | inl q ↦ subst (IsSafe nodes) ((eq_iff id x).0 q) safe
        | inr q ↦ kept.done x (ground (arith, mark_of-insert id x visited m'))
      ];
      still_open = λ x e. ground (
        arith,
        kept.still_open x,
        mark_of-insert id x visited m',
        mark_of-insert id x visiting m,
      );
      darker = λ x e.
          ground
            (arith, kept.darker x, mark_of-insert id x visited m', mark_of-insert id x visiting m);
    }

    close-Answers :
        (r : Found)
        → mark_of m id ≡ unvisited
        → Answers (AllSafe n.dependencies) opened r
        → Answers (IsSafe nodes id) m (close id r)
    close-Answers none u a = a
    close-Answers (some (true, m')) u a = a
    close-Answers (some (false, m')) u a =
        let safe = IsSafe-close a.0 in (safe, Kept-close m' u safe a.1)

    Edge-of :
        (d : String) → contains n.dependencies d ≡ true → has_node nodes d ≡ true → Edge nodes id d
    Edge-of d c k = record { node = n; is_node = is_node; depends = c; known = k }

  pub dfs-Answers : (fuel : ℕ) → IsSearch fuel (dfs fuel nodes)
  unfolding dfs
  dfs-Answers zero m id k w s o = absurd (omega arith)
  dfs-Answers (suc fuel) m id k w s o = elim (Mark-cases (mark_of m id)) [
    | inl u ↦ elim (Option-cases (lookup id nodes)) [
      | inl missing ↦ cc (missing, k)
      | inr (n, found) ↦
          rw (u, found)
            (close-Answers id n found m _ u (
              dfs_deps-Answers fuel (dfs fuel nodes) (dfs-Answers fuel) n.dependencies _
                (omega (arith, opened-fewer id n found m u)) (opened-DoneSafe id n found m s)
                (λ d c e. opened-OpenLeads id n found m o d (Edge-of id n found m d c e))))
    ]
    | inr (inl v) ↦ rw v (id, o id v)
    | inr (inr v) ↦ rw v (s id v, Kept-refl m s)
  ]
