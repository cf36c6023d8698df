-- ===== src/Squad/Integrity.antt =====
-- What validate_integrity of squad_schemas.py decides, by the cycle check of dag_runner.py on the plan in
-- which each agent is a task that depends on its delegates.
use go_agent_llm_orchestrato.Prelude.{
  ℕ, zero, suc, ◌+◌, String, ◌==◌, true, false, none, some, List, [], ◌∷◌, lookup, insert,
  lookup-insert, keys, length, contains, ◌≡◌, ◌⊎◌, inl, inr, refl, sym, ap, subst, arith, eq_iff,
  false≢true, Bool-cases, eq_refl, some_injective, if◌then◌else◌,
}
use go_agent_llm_orchestrato.Dag.{
  Mark, unvisited, visiting, visited, Marks, mark_of, has_node, Found, unless_found, dfs_deps,
  close, dfs, start_marks, is_unvisited, dfs_all, answer, detect_cycles,
}
use go_agent_llm_orchestrato.Dag.Graph.{HasCycle}
use go_agent_llm_orchestrato.Dag.Cycles.{detect_cycles_decides}
use go_agent_llm_orchestrato.Squad.{
  Agents, cycle, gray, black, Colors, Searched, raised, colored, go_on, on_color, visit_all,
  blacken, delegates_of, visit, all_white, visit_names,
}
use go_agent_llm_orchestrato.Squad.Plan.{
  plan_of, color, color_if, keys-plan_of, length-plan_of, delegates-plan_of, lookup-all_white,
  known_keys,
}

module _ (nodes : Agents) where
  -- The colours are those of the marks, for the agents alone.
  Same : Marks → Colors → Type 0
  Same m c = (x : String) → lookup x c ≡ color_if (has_node (plan_of nodes) x) (mark_of m x)

  Same-insert :
      (m : Marks) (c : Colors) (name : String) (k : Mark)
      → has_node (plan_of nodes) name ≡ true
      → Same m c
      → Same (insert name k m) (insert name (color k) c)
  unfolding Same
  Same-insert m c name k known h x = elim (Bool-cases (name == x)) [
    | inl e ↦
        let there = subst (λ y. has_node (plan_of nodes) y ≡ true) ((eq_iff name x).0 e) known in
        rw (lookup-insert name x (color k) c, lookup-insert name x k m, e, there) refl
    | inr e ↦ rw (lookup-insert name x (color k) c, lookup-insert name x k m, e) (h x)
  ]

  -- The answers of the two searches, where the first one comes to an end.
  Agrees : Found → Searched → Type 0
  Agrees none s = Unit
  Agrees (some (true, m)) s = (r : String × String) × (s ≡ raised (cycle r.0 r.1))
  Agrees (some (false, m)) s = (c : Colors) × ((s ≡ colored c) × Same m c)

  Agrees-go_on :
      (f : Found) (s : Searched) (f' : Marks → Found) (s' : Colors → Searched)
      → Agrees f s
      → ((m : Marks) (c : Colors) → Same m c → Agrees (f' m) (s' c))
      → Agrees (unless_found f f') (go_on s s')
  unfolding Agrees
  Agrees-go_on none s f' s' h next = tt
  Agrees-go_on (some (true, m)) s f' s' (r, q) next = (r, ap (λ x. go_on x s') q)
  Agrees-go_on (some (false, m)) s f' s' (c, (q, h)) next =
      subst (λ x. Agrees (f' m) (go_on x s')) (sym q) (next m c h)

  Agrees-blacken :
      (name : String) (f : Found) (s : Searched)
      → has_node (plan_of nodes) name ≡ true
      → Agrees f s
      → Agrees (close name f) (blacken name s)
  unfolding Agrees
  Agrees-blacken name none s known h = tt
  Agrees-blacken name (some (true, m)) s known (r, q) = (r, ap (blacken name) q)
  Agrees-blacken name (some (false, m)) s known (c, (q, h)) =
      (insert name black c, (ap (blacken name) q, Same-insert m c name visited known h))

  -- Two searches from an agent that is new to both.
  abbrev SearchesAgree : ℕ → Type 0
  SearchesAgree fuel =
      (m : Marks) (c : Colors) (d : String)
      → Same m c
      → has_node (plan_of nodes) d ≡ true
      → mark_of m d ≡ unvisited
      → Agrees (dfs fuel (plan_of nodes) m d) (visit fuel nodes c d)

  -- One delegate that is an agent.
  delegate-Agrees :
      (fuel : ℕ) (m : Marks) (c : Colors) (name d : String) (f' : Marks → Found)
      (s' : Colors → Searched)
      → SearchesAgree fuel
      → Same m c
      → has_node (plan_of nodes) d ≡ true
      → ((m : Marks) (c : Colors) → Same m c → Agrees (f' m) (s' c))
      → (k : Mark) → mark_of m d ≡ k
      → Agrees
          (unless_found (dfs fuel (plan_of nodes) m d) f')
          (on_color (lookup d c) (raised (cycle name d)) (go_on (visit fuel nodes c d) s') (s' c))
  unfolding dfs Same Agrees
  delegate-Agrees zero m c name d f' s' below h known next k now = tt
  delegate-Agrees (suc fuel) m c name d f' s' below h known next unvisited now =
      let opened = below m c d h known now in
      rw (h d, known, now)
        (Agrees-go_on _ (visit (suc fuel) nodes c d) f' s' (rw now at opened) next)
  delegate-Agrees (suc fuel) m c name d f' s' below h known next visiting now =
      rw (h d, known, now) ((name, d), refl)
  delegate-Agrees (suc fuel) m c name d f' s' below h known next visited now =
      rw (h d, known, now) (next m c h)

  visit_all-Agrees :
      (fuel : ℕ) (name : String) (ds : List String) (m : Marks) (c : Colors)
      → SearchesAgree fuel
      → Same m c
      → Agrees
          (dfs_deps (dfs fuel (plan_of nodes)) (plan_of nodes) ds m)
          (visit_all (visit fuel nodes) name ds c)
  unfolding dfs_deps visit_all Same Agrees
  visit_all-Agrees fuel name [] m c below h = (c, (refl, h))
  visit_all-Agrees fuel name (d ∷ ds) m c below h = elim (Bool-cases (has_node (plan_of nodes) d)) [
    | inl known ↦ rw known (
        delegate-Agrees fuel m c name d (dfs_deps (dfs fuel (plan_of nodes)) (plan_of nodes) ds)
          (visit_all (visit fuel nodes) name ds) below h known
          (λ m' c' h'. visit_all-Agrees fuel name ds m' c' below h') (mark_of m d) refl)
    | inr unknown ↦ rw (h d, unknown) (visit_all-Agrees fuel name ds m c below h)
  ]

  visit-Agrees : (fuel : ℕ) → SearchesAgree fuel
  unfolding dfs visit Agrees
  visit-Agrees zero m c d h known new = tt
  visit-Agrees (suc fuel) m c d h known new =
      rw (new, delegates-plan_of nodes d)
        (Agrees-blacken d _ _ known (
          visit_all-Agrees fuel d (delegates_of (lookup d nodes)) (insert d visiting m)
            (insert d gray c) (visit-Agrees fuel) (Same-insert m c d visiting known h)))

  visit_names-Agrees :
      (fuel : ℕ) (names : List String) (m : Marks) (c : Colors)
      → ((x : String) → contains names x ≡ true → has_node (plan_of nodes) x ≡ true)
      → Same m c
      → Agrees (dfs_all fuel (plan_of nodes) names m) (visit_names fuel nodes names c)
  unfolding dfs_all visit_names Agrees Same
  visit_names-Agrees fuel [] m c known h = (c, (refl, h))
  visit_names-Agrees fuel (x ∷ names) m c known h =
      let x_known : has_node (plan_of nodes) x ≡ true = known x (ground (arith, eq_refl x)) in
      let others : (y : String) → contains names y ≡ true → has_node (plan_of nodes) y ≡ true =
        λ y k. known y (ground (arith, k)) in
      let rest = λ (m' : Marks) (c' : Colors) (h' : Same m' c').
        visit_names-Agrees fuel names m' c' others h' in
      rw (h x, x_known) (by_mark x_known rest (mark_of m x) refl)
    where
      by_mark :
          has_node (plan_of nodes) x ≡ true
          → ((m' : Marks) (c' : Colors)
              → Same m' c'
              → Agrees (dfs_all fuel (plan_of nodes) names m') (visit_names fuel nodes names c'))
          → (k : Mark) → mark_of m x ≡ k
          → Agrees
              (if is_unvisited k
                then unless_found
                    (dfs fuel (plan_of nodes) m x)
                    (dfs_all fuel (plan_of nodes) names)
                else dfs_all fuel (plan_of nodes) names m)
              (on_color
                (some (color k))
                (visit_names fuel nodes names c)
                (go_on (visit fuel nodes c x) (visit_names fuel nodes names))
                (visit_names fuel nodes names c))
      by_mark x_known rest unvisited now =
          Agrees-go_on _ _ (dfs_all fuel (plan_of nodes) names) (visit_names fuel nodes names)
            (visit-Agrees fuel m c x h x_known now) rest
      by_mark x_known rest visiting now = rest m c h
      by_mark x_known rest visited now = rest m c h

  keys-known :
      (x : String) → contains (keys (plan_of nodes)) x ≡ true → has_node (plan_of nodes) x ≡ true
  keys-known x k = known_keys (plan_of nodes) x k

  found-Agrees :
      Agrees
        (dfs_all
          (length (plan_of nodes) + 1)
          (plan_of nodes)
          (keys (plan_of nodes))
          (start_marks (plan_of nodes)))
        (visit_names (length nodes + 1) nodes (keys nodes) (all_white nodes))
  unfolding Same
  found-Agrees =
      rw (sym (length-plan_of nodes), sym (keys-plan_of nodes))
        (visit_names-Agrees (length (plan_of nodes) + 1) (keys (plan_of nodes))
          (start_marks (plan_of nodes)) (all_white nodes) keys-known (lookup-all_white nodes))

  -- How an answer of the one search shows in the other.
  outcome :
      (f : Found) (s : Searched)
      → Agrees f s
      → ((answer f ≡ some true) × HasCycle (plan_of nodes))
        ⊎ ((answer f ≡ some false) × (¬ HasCycle (plan_of nodes)))
      → ((r : String × String) × ((s ≡ raised (cycle r.0 r.1)) × HasCycle (plan_of nodes)))
        ⊎ ((c : Colors) × ((s ≡ colored c) × (¬ HasCycle (plan_of nodes))))
  unfolding Agrees
  outcome none s h (inl (a, k)) = absurd (cc)
  outcome none s h (inr (a, k)) = absurd (cc)
  outcome (some (true, m)) s (r, q) (inl (a, k)) = inl (r, (q, k))
  outcome (some (true, m)) s (r, q) (inr (a, k)) =
      absurd (false≢true (sym (some_injective true false a)))
  outcome (some (false, m)) s (c, (q, h)) (inl (a, k)) =
      absurd (false≢true (some_injective false true a))
  outcome (some (false, m)) s (c, (q, h)) (inr (a, k)) = inr (c, (q, k))

  pub search_decides :
      ((r : String × String) × ((visit_names (length nodes + 1) nodes (keys nodes) (all_white nodes)
            ≡ raised (cycle r.0 r.1))
          × HasCycle (plan_of nodes)))
      ⊎ ((c : Colors) × ((visit_names (length nodes + 1) nodes (keys nodes) (all_white nodes)
              ≡ colored c)
            × (¬ HasCycle (plan_of nodes))))
  unfolding detect_cycles
  search_decides = outcome _ _ found-Agrees (detect_cycles_decides (plan_of nodes))
