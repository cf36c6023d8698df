-- ===== src/Waves/Start.antt =====
-- The waves of a plan from the start: get_execution_waves on the nodes that parse_mermaid_dag finds.
use go_agent_llm_orchestrato.Prelude.{
  ℕ, ◌+◌, ◌≤◌, String, ◌≡◌, refl, sym, ap, ◌∙◌, subst, Bool, true, false, Option, none, some,
  is_some, List, [], ◌∷◌, lookup, keys, contains, length, All, arith, eq_refl, if◌then◌else◌,
}
use go_agent_llm_orchestrato.Waves.{
  Edges, nodes_of, Degrees, zero_degrees, count_edges, current_wave, Waves, get_execution_waves,
}
use go_agent_llm_orchestrato.Waves.Degrees.{has, Distinct, All-map}
use go_agent_llm_orchestrato.Waves.Removal.{IsCounting, IsClosed}
use go_agent_llm_orchestrato.Waves.Layers.{has_edge, in_waves, precedes, waves_from-IsLayered}
use go_agent_llm_orchestrato.Waves.Counting.{
  Distinct-nodes_of, contains-nodes_of, count_edges-IsCounted, in_count-in_edges, in_edges, is_end,
  keys-zero_degrees, lookup-zero_degrees, plus,
}

ends_there :
    (nodes : List String) (edges : Edges)
    → ((n : String) → is_end edges n ≡ true → contains nodes n ≡ true)
    → All (λ e. (contains nodes e.0 ≡ true) × (contains nodes e.1 ≡ true)) edges
ends_there nodes [] f = tt
ends_there nodes ((s, t) ∷ edges) f = (
  (f s (ground (arith, eq_refl s)), f t (ground (arith, eq_refl t))),
  ends_there nodes edges (λ n h. f n (ground arith)),
)

-- The waves of a plan. An edge's target is in no wave up to the first one with its source; what is in
-- a wave is a node; a node that is in no wave has an edge from another such node.
pub record IsPlanned (edges : Edges) (ws : Waves) : Type 0 where
  pub ordered : (s t : String) → has_edge edges s t ≡ true → precedes s t ws ≡ true
  pub only : (n : String) → in_waves ws n ≡ true → is_end edges n ≡ true
  pub stuck :
      (n : String)
      → is_end edges n ≡ true
      → in_waves ws n ≡ false
      → (s : String) × ((has_edge edges s n ≡ true) × (in_waves ws s ≡ false))

has_edge-is_end : (edges : Edges) (s t : String) → has_edge edges s t ≡ true → is_end edges s ≡ true
has_edge-is_end [] s t h = cc
has_edge-is_end ((a, b) ∷ edges) s t h = ground (arith, has_edge-is_end edges s t)

started :
    (edges : Edges)
    → (d : Degrees) × ((count_edges edges (zero_degrees (nodes_of edges [])) ≡ some d)
        × (IsCounting edges d
            × ((keys d ≡ nodes_of edges []) × ((n : String) → has d n ≡ is_end edges n))))
started edges =
    let nodes = nodes_of edges [] in
    let zeros = zero_degrees nodes in
    let there : (n : String) → contains nodes n ≡ is_end edges n =
      λ n. ground (arith, contains-nodes_of edges [] n) in
    let ends = ends_there nodes edges (λ n h. there n ∙ h) in
    let has_zero : (n : String) → has zeros n ≡ contains nodes n =
      λ n. rw (lookup-zero_degrees n nodes) (is_some_if (contains nodes n)) in
    let (d, (e, r)) =
      count_edges-IsCounted edges zeros
        (All-map _ (λ x. has zeros x.1 ≡ true) edges (λ x h. has_zero x.1 ∙ h.1) ends) in
    let has_same : (n : String) → has d n ≡ contains nodes n =
      λ n. rw (r.counts n) (is_some-plus (lookup n zeros) (in_edges n edges)) ∙ has_zero n in
    let sources = All-map _ (λ x. has d x.0 ≡ true) edges (λ x h. has_same x.0 ∙ h.0) ends in
    (
      d,
      (
        e,
        (
          record {
            counts = λ n v h.
                (let q : plus (if contains nodes n then some 0 else none) (in_edges n edges)
                      ≡ some v =
                    rw (lookup-zero_degrees n nodes) at (sym (r.counts n) ∙ h) in
                  counted (contains nodes n) (in_edges n edges) v q
                  ∙ sym (in_count-in_edges d n edges sources));
            closed = All-map _ (IsClosed d) edges (λ x h k. has_same x.1 ∙ h.1) ends;
            distinct =
                subst Distinct (sym (r.same_keys ∙ keys-zero_degrees nodes))
                  (Distinct-nodes_of edges [] tt);
          },
          (r.same_keys ∙ keys-zero_degrees nodes, λ n. has_same n ∙ there n),
        ),
      ),
    )
  where
    is_some_if : (b : Bool) → is_some {A = ℕ} (if b then some 0 else none) ≡ b
    is_some_if true = refl
    is_some_if false = refl

    is_some-plus : (o : Option ℕ) (m : ℕ) → is_some (plus o m) ≡ is_some o
    is_some-plus none m = refl
    is_some-plus (some v) m = refl

    counted : (b : Bool) (m v : ℕ) → plus (if b then some 0 else none) m ≡ some v → v ≡ m
    counted true m v h = ground arith
    counted false m v h = cc

-- For every plan get_execution_waves returns waves, with no KeyError and after at most as many turns
-- as there are nodes and one more. The target of an edge is in no wave up to the first one with the
-- edge's source, whatever is in a wave is a node of the plan, and a node that is in no wave has an
-- edge from another such node: only what hangs on a cycle is left out.
pub get_execution_waves-IsPlanned :
    (matches : Edges)
    → (ws : Waves) × ((get_execution_waves (nodes_of matches []) matches ≡ some ws)
        × IsPlanned matches ws)
unfolding get_execution_waves
get_execution_waves-IsPlanned matches =
    let (d, (e, (i, (k, h)))) = started matches in
    let enough : length (keys d) + 1 ≤ length (nodes_of matches []) + 1 =
      omega (arith, ap (λ x. length x) k) in
    let (ws, (r, l)) =
      waves_from-IsLayered (length (nodes_of matches []) + 1) matches d (current_wave d) i enough
        refl in
    (
      ws,
      (
        (let p : get_execution_waves (nodes_of matches []) matches ≡ some ws = rw e r in p),
        record {
          ordered = λ s t g. l.ordered s t g (h s ∙ has_edge-is_end matches s t g);
          only = λ n a. sym (h n) ∙ l.only n a;
          stuck = λ n a b. (let (s, (x, (y, z))) = l.stuck n (h n ∙ a) b in (s, (x, z)));
        },
      ),
    )
