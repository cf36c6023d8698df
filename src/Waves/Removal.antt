-- ===== src/Waves/Removal.antt =====
-- What taking a node away does to the counts.
use go_agent_llm_orchestrato.Prelude.{
  ℕ, ◌+◌, ◌-◌, ◌≤◌, String, ◌==◌, ◌≡◌, ◌≢◌, refl, sym, ap, ◌∙◌, subst, inl, inr, true, false, not,
  ◌&&◌, Option, none, some, is_some, List, [], ◌∷◌, lookup, remove, keys, lookup-remove, contains,
  length, All, arith, eq_iff, if◌then◌else◌, Bool-cases,
}
use go_agent_llm_orchestrato.Waves.{Edges, Degrees, drop_edges, run_wave}
use go_agent_llm_orchestrato.Waves.Degrees.{
  has, Distinct, in_count, out_count, minus, IsAimed, All-map, drop_edges-IsDropped,
}

-- The target of an edge is there as long as its source is.
abbrev pub IsClosed : Degrees → String × String → Type 0
IsClosed d e = has d e.0 ≡ true → has d e.1 ≡ true

-- Every count is the number of edges from nodes that are there.
pub record IsCounting (edges : Edges) (d : Degrees) : Type 0 where
  pub counts : (n : String) (v : ℕ) → lookup n d ≡ some v → v ≡ in_count d n edges
  pub closed : All (IsClosed d) edges
  pub distinct : Distinct (keys d)

-- The nodes that are there are those from before, without one.
abbrev pub IsWithout : String → Degrees → Degrees → Type 0
IsWithout k d d' = (n : String) → has d' n ≡ (not (k == n) && has d n)

contains-keys-remove :
    (k x : String) (d : Degrees)
    → contains (keys d) x ≡ false
    → contains (keys (remove k d)) x ≡ false
unfolding remove
contains-keys-remove k x [] h = refl
contains-keys-remove k x ((j, v) ∷ d) h = ground (arith, contains-keys-remove k x d)

Distinct-remove : (k : String) (d : Degrees) → Distinct (keys d) → Distinct (keys (remove k d))
unfolding remove
Distinct-remove k [] h = tt
Distinct-remove k ((j, v) ∷ d) h = elim (Bool-cases (j == k)) [
  | inl e ↦ rw e (Distinct-remove k d h.1)
  | inr e ↦ rw e (contains-keys-remove k j d h.0, Distinct-remove k d h.1)
]

length-keys-remove : (k : String) (d : Degrees) → length (keys (remove k d)) ≤ length (keys d)
unfolding remove
length-keys-remove k [] = omega arith
length-keys-remove k ((j, v) ∷ d) = ground (arith, length-keys-remove k d)

length-keys :
    (k : String) (d : Degrees) → has d k ≡ true → length (keys (remove k d)) + 1 ≤ length (keys d)
unfolding remove lookup
length-keys k [] h = cc
length-keys k ((j, v) ∷ d) h = ground (arith, length-keys k d, length-keys-remove k d)

in_count-step :
    (k n : String) (d d' : Degrees) (edges : Edges)
    → has d k ≡ true
    → IsWithout k d d'
    → in_count d n edges ≡ out_count k n edges + in_count d' n edges
unfolding in_count out_count
in_count-step k n d d' [] h w = refl
in_count-step k n d d' ((s, t) ∷ edges) h w = elim (Bool-cases (k == s)) [
  | inl e ↦
      let same : has d s ≡ true = subst (λ x. has d x ≡ true) ((eq_iff k s).0 e) h in
      ground (arith, in_count-step k n d d' edges h w, w s, eq_iff k s, eq_iff s k)
  | inr e ↦ ground (arith, in_count-step k n d d' edges h w, w s, eq_iff k s, eq_iff s k)
]

IsClosed-step :
    (k : String) (d d' : Degrees) (edges : Edges)
    → IsWithout k d d'
    → in_count d k edges ≡ 0
    → All (IsClosed d) edges
    → All (IsClosed d') edges
unfolding in_count
IsClosed-step k d d' [] w z c = tt
IsClosed-step k d d' ((s, t) ∷ edges) w z c = (
  λ h. ground (arith, w s, w t, c.0, eq_iff t k, eq_iff k t),
  IsClosed-step k d d' edges w (ground arith) c.1,
)

-- A node without edges to it is taken away: the counts still count, and counts of zero stay.
pub record IsTaken (edges : Edges) (k : String) (d d' : Degrees) : Type 0 where
  pub dropped : Degrees
  pub drops : drop_edges k edges d ≡ some dropped
  pub rest : d' ≡ remove k dropped
  pub counting : IsCounting edges d'
  pub without : IsWithout k d d'
  pub shrinks : length (keys d') + 1 ≤ length (keys d)
  pub zeros : (n : String) → (k == n) ≡ false → lookup n d ≡ some 0 → lookup n d' ≡ some 0

is_some-minus : (o : Option ℕ) (m : ℕ) → is_some (minus o m) ≡ is_some o
is_some-minus none m = refl
is_some-minus (some v) m = refl

minus_inv : (o : Option ℕ) (m v : ℕ) → minus o m ≡ some v → (u : ℕ) × ((o ≡ some u) × (v ≡ u - m))
minus_inv none m v h = cc
minus_inv (some u) m v h = (u, (refl, cc))

-- A node is taken away and edges come off the other counts.
abbrev Looks : Edges → String → Degrees → Degrees → Type 0
Looks edges k d d' =
    (n : String) → lookup n d' ≡ (if k == n then none else minus (lookup n d) (out_count k n edges))

IsWithout-look :
    (edges : Edges) (k : String) (d d' : Degrees) → Looks edges k d d' → IsWithout k d d'
IsWithout-look edges k d d' look n = elim (Bool-cases (k == n)) [
  | inl e ↦ rw (look n) (rw e refl)
  | inr e ↦ rw (look n) (rw e (is_some-minus (lookup n d) (out_count k n edges)))
]

counts_left :
    (edges : Edges) (k : String) (d d' : Degrees)
    → IsCounting edges d
    → has d k ≡ true
    → Looks edges k d d'
    → (n : String) (v : ℕ) → lookup n d' ≡ some v
    → v ≡ in_count d' n edges
counts_left edges k d d' i there look n v h = elim (Bool-cases (k == n)) [
  | inl e ↦ absurd (none≢some ((rw e at (sym (look n))) ∙ h))
  | inr e ↦
      let (u, (l, m)) =
        minus_inv (lookup n d) (out_count k n edges) v ((rw e at (sym (look n))) ∙ h) in
      omega (
        arith,
        i.counts n u l,
        m,
        in_count-step k n d d' edges there (IsWithout-look edges k d d' look),
      )
]
  where
    none≢some : none ≢ some v
    none≢some h = cc

pub take_node :
    (edges : Edges) (k : String) (d : Degrees)
    → IsCounting edges d
    → lookup k d ≡ some 0
    → (d' : Degrees) × IsTaken edges k d d'
take_node edges k d i z =
    let there : has d k ≡ true = rw z refl in
    let aimed =
      All-map (IsClosed d) (IsAimed k d) edges
        (λ x c q. c (subst (λ y. has d y ≡ true) (sym ((eq_iff x.0 k).0 q)) there)) i.closed in
    let (dropped, (a, r)) = drop_edges-IsDropped k edges d aimed in
    let look : (n : String)
        → lookup n (remove k dropped)
          ≡ (if k == n then none else minus (lookup n d) (out_count k n edges)) =
      λ n. lookup-remove k n dropped ∙ rw (r.counts n) refl in
    let w = IsWithout-look edges k d (remove k dropped) look in
    (
      remove k dropped,
      record {
        dropped = dropped;
        drops = a;
        rest = refl;
        counting = record {
          counts = counts_left edges k d (remove k dropped) i there look;
          closed = IsClosed-step k d (remove k dropped) edges w (sym (i.counts k 0 z)) i.closed;
          distinct = Distinct-remove k dropped (rw r.same_keys i.distinct);
        };
        without = w;
        shrinks =
            subst (λ ks. length (keys (remove k dropped)) + 1 ≤ length ks) r.same_keys
              (length-keys k dropped (rw (r.counts k) (rw z refl)));
        zeros = λ n ne h. look n ∙ rw (ne, h) (ap (λ m. some m) (omega arith));
      },
    )

-- The nodes of a wave are different ones without edges to them.
abbrev pub IsWave : Degrees → List String → Type 0
IsWave d wave = All (λ n. lookup n d ≡ some 0) wave × Distinct wave

-- The rest of the wave is a wave after its first node is taken.
rest_wave :
    (edges : Edges) (k : String) (d d' : Degrees) (wave : List String)
    → IsTaken edges k d d'
    → contains wave k ≡ false
    → All (λ n. lookup n d ≡ some 0) wave
    → All (λ n. lookup n d' ≡ some 0) wave
rest_wave edges k d d' [] t c a = tt
rest_wave edges k d d' (n ∷ wave) t c a = (
  t.zeros n (ground (arith, eq_iff n k, eq_iff k n)) a.0,
  rest_wave edges k d d' wave t (ground arith) a.1,
)

-- A wave is taken away.
pub record IsWaveTaken (edges : Edges) (wave : List String) (d d' : Degrees) : Type 0 where
  pub runs : run_wave wave edges d ≡ some d'
  pub counting : IsCounting edges d'
  pub without : (n : String) → has d' n ≡ (not (contains wave n) && has d n)
  pub shrinks : length (keys d') + length wave ≤ length (keys d)

pub take_wave :
    (edges : Edges) (wave : List String) (d : Degrees)
    → IsCounting edges d
    → IsWave d wave
    → (d' : Degrees) × IsWaveTaken edges wave d d'
unfolding run_wave
take_wave edges [] d i w =
    (d, record { runs = refl; counting = i; without = λ n. refl; shrinks = omega arith })
take_wave edges (k ∷ wave) d i w =
    let (d1, t) = take_node edges k d i w.0.0 in
    let (d2, r) =
      take_wave edges wave d1 t.counting (rest_wave edges k d d1 wave t w.1.0 w.0.1, w.1.1) in
    (
      d2,
      record {
        runs =
            (let p : run_wave (k ∷ wave) edges d ≡ some d2 = rw (t.drops, sym t.rest) r.runs in p);
        counting = r.counting;
        without = λ n. ground (arith, r.without n, t.without n);
        shrinks = omega (arith, r.shrinks, t.shrinks);
      },
    )
