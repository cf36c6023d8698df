-- ===== src/Dag/Cycles.antt =====
-- `detect_cycles` returns, and answers `True` exactly for the graphs that have a cycle.
use go_agent_llm_orchestrato.Prelude.{
  ℕ, ◌+◌, ◌≤◌, ◌<◌, String, ◌≡◌, ◌≢◌, refl, ◌⊎◌, inl, inr, true, false, none, some, List, [], ◌∷◌,
  lookup, keys, contains, arith, Bool-cases, eq_refl, length,
}
use go_agent_llm_orchestrato.Dag.{
  Nodes, unvisited, visiting, Marks, is_unvisited, mark_of, has_node, Found, dfs, dfs_all,
  start_marks, detect_cycles, answer,
}
use go_agent_llm_orchestrato.Dag.Graph.{
  Reaches, edge, step, HasCycle, IsSafe, IsSafe-acyclic, white_count,
}
use go_agent_llm_orchestrato.Dag.Search.{
  DoneSafe, Answers, AllSafe, AllSafe-cons_node, Kept-refl, Answers-map, Answers-unless_found,
  narrow, dfs-Answers,
}

abbrev NoneOpen : Marks → Type 0
NoneOpen m = (x : String) → mark_of m x ≢ visiting

module _ (nodes : Nodes) where
  IsSafe-unless_unvisited :
      (m : Marks) (id : String)
      → DoneSafe nodes m
      → NoneOpen m
      → is_unvisited (mark_of m id) ≡ false
      → IsSafe nodes id
  IsSafe-unless_unvisited m id s o u = s id (ground (arith, o id))

  dfs_all-Answers :
      (fuel : ℕ) (ids : List String) (m : Marks)
      → ((d : String) → contains ids d ≡ true → has_node nodes d ≡ true)
      → white_count (keys nodes) m < fuel
      → DoneSafe nodes m
      → NoneOpen m
      → Answers nodes (AllSafe nodes ids) m (dfs_all fuel nodes ids m)
  unfolding dfs_all
  dfs_all-Answers fuel [] m known w s o = ((λ d c k. cc), Kept-refl nodes m s)
  dfs_all-Answers fuel (id ∷ ids) m known w s o = elim (Bool-cases (is_unvisited (mark_of m id))) [
    | inl u ↦ rw u (
        Answers-unless_found nodes _ m (dfs fuel nodes m id) (dfs_all fuel nodes ids)
          (dfs-Answers nodes fuel m id (known id (ground (arith, eq_refl id))) w s
            (λ x v. absurd (o x v)))
          λ m' safe kept. Answers-map nodes m' _ (AllSafe-cons_node nodes id ids safe) (
            dfs_all-Answers fuel ids m' (λ d c. known d (ground arith)) (narrow nodes w kept)
              kept.done (λ x v. o x (kept.still_open x v))))
    | inr d ↦ rw d (
        Answers-map nodes m _ (AllSafe-cons_node nodes id ids (IsSafe-unless_unvisited m id s o d))
          (dfs_all-Answers fuel ids m (λ d c. known d (ground arith)) w s o))
  ]

start_marks-unvisited : (nodes : Nodes) (x : String) → mark_of (start_marks nodes) x ≡ unvisited
unfolding lookup
start_marks-unvisited [] x = refl
start_marks-unvisited ((j, n) ∷ nodes) x = ground (arith, start_marks-unvisited nodes x)

known_keys : (nodes : Nodes) (d : String) → contains (keys nodes) d ≡ true → has_node nodes d ≡ true
unfolding lookup
known_keys [] d h = cc
known_keys ((j, n) ∷ nodes) d h = ground (arith, known_keys nodes d)

pub keys_known :
    (nodes : Nodes) (d : String) → has_node nodes d ≡ true → contains (keys nodes) d ≡ true
unfolding lookup
keys_known [] d h = cc
keys_known ((j, n) ∷ nodes) d h = ground (arith, keys_known nodes d)

white_count-le_length : (nodes : Nodes) (m : Marks) → white_count (keys nodes) m ≤ length nodes
unfolding white_count
white_count-le_length [] m = omega arith
white_count-le_length ((j, n) ∷ nodes) m = ground (arith, white_count-le_length nodes m)

abbrev search_result : Nodes → Found
search_result nodes = dfs_all (length nodes + 1) nodes (keys nodes) (start_marks nodes)

search_result-Answers :
    (nodes : Nodes)
    → Answers nodes (AllSafe nodes (keys nodes)) (start_marks nodes) (search_result nodes)
search_result-Answers nodes =
    dfs_all-Answers nodes _ (keys nodes) (start_marks nodes) (known_keys nodes)
      (omega (arith, white_count-le_length nodes (start_marks nodes)))
      (λ x e. cc (start_marks-unvisited nodes x)) (λ x e. cc (start_marks-unvisited nodes x))

edge_source_known : {nodes : Nodes} {x y : String} → Reaches nodes x y → has_node nodes x ≡ true
edge_source_known (edge e) = rw (e.is_node)
edge_source_known (step e r) = rw (e.is_node)

acyclic_of_safe : (nodes : Nodes) → AllSafe nodes (keys nodes) → ¬ HasCycle nodes
acyclic_of_safe nodes safe (x, r) =
    let k = edge_source_known r in IsSafe-acyclic x (safe x (keys_known nodes x k) k) r

decides :
    (nodes : Nodes) (r : Found)
    → Answers nodes (AllSafe nodes (keys nodes)) (start_marks nodes) r
    → ((answer r ≡ some true) × HasCycle nodes) ⊎ ((answer r ≡ some false) × (¬ HasCycle nodes))
decides nodes none a = absurd a
decides nodes (some (true, m)) a = inl (refl, a)
decides nodes (some (false, m)) a = inr (refl, acyclic_of_safe nodes a.0)

safe_of_false :
    (nodes : Nodes) (r : Found)
    → Answers nodes (AllSafe nodes (keys nodes)) (start_marks nodes) r
    → answer r ≡ some false
    → AllSafe nodes (keys nodes)
safe_of_false nodes none a e = absurd a
safe_of_false nodes (some (true, m)) a e = cc
safe_of_false nodes (some (false, m)) a e = a.0

-- Where the search finds no cycle, every node is safe.
pub detect_cycles-IsSafe :
    (nodes : Nodes)
    → detect_cycles nodes ≡ some false
    → (id : String) → has_node nodes id ≡ true
    → IsSafe nodes id
unfolding detect_cycles
detect_cycles-IsSafe nodes h id k =
    safe_of_false nodes (search_result nodes) (search_result-Answers nodes) h id
      (keys_known nodes id k) k

-- The search always returns: with `True` if some node reaches itself through dependencies that
-- are nodes, and with `False` if none does.
pub detect_cycles_decides :
    (nodes : Nodes)
    → ((detect_cycles nodes ≡ some true) × HasCycle nodes)
      ⊎ ((detect_cycles nodes ≡ some false) × (¬ HasCycle nodes))
unfolding detect_cycles
detect_cycles_decides nodes = decides nodes (search_result nodes) (search_result-Answers nodes)
