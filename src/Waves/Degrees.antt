-- ===== src/Waves/Degrees.antt =====
-- What the counts of `in_degree` count.
use go_agent_llm_orchestrato.Prelude.{
  ℕ, suc, ◌-◌, String, ◌==◌, ◌≡◌, refl, ap, ◌∙◌, inl, inr, Bool, true, false, ◌&&◌, Option, none,
  some, is_some, List, [], ◌∷◌, lookup, keys, contains, All, arith, eq_iff, if◌then◌else◌,
  Bool-cases,
}
use go_agent_llm_orchestrato.Waves.{Edges, Degrees, adjust, decrease, drop_edges}

-- node in in_degree
abbrev pub has : Degrees → String → Bool
has d n = is_some (lookup n d)

abbrev pub Distinct : List String → Type 0
Distinct [] = Unit {0}
Distinct (x ∷ xs) = (contains xs x ≡ false) × Distinct xs

abbrev pub change : (ℕ → ℕ) → Option ℕ → Option ℕ
change f none = none
change f (some v) = some (f v)

-- What a change of one count does to all of them.
pub record IsAdjusted (f : ℕ → ℕ) (k : String) (d d' : Degrees) : Type 0 where
  pub counts : (n : String) → lookup n d' ≡ (if k == n then change f (lookup n d) else lookup n d)
  pub same_keys : keys d' ≡ keys d

pub adjust-IsAdjusted :
    (f : ℕ → ℕ) (k : String) (d : Degrees)
    → has d k ≡ true
    → (d' : Degrees) × ((adjust f k d ≡ some d') × IsAdjusted f k d d')
unfolding adjust lookup
adjust-IsAdjusted f k [] h = cc
adjust-IsAdjusted f k ((j, v) ∷ d) h = elim (Bool-cases (j == k)) [
  | inl e ↦ (
    (j, f v) ∷ d,
    (
      rw e refl,
      record { counts = λ n. ground (arith, eq_iff j k, eq_iff k n, eq_iff j n); same_keys = refl },
    ),
  )
  | inr e ↦
      let (d', (a, r)) = adjust-IsAdjusted f k d (rw e at h) in
      (
        (j, v) ∷ d',
        (
          rw (e, a) refl,
          record {
            counts = λ n. ground (arith, r.counts n, eq_iff j k, eq_iff k n, eq_iff j n);
            same_keys = ap (λ ks. j ∷ ks) r.same_keys;
          },
        ),
      )
]

-- The edges to a node, from nodes that are there.
unfoldable pub in_count : Degrees → String → Edges → ℕ
in_count d n [] = 0
in_count d n ((s, t) ∷ edges) =
    let rest = in_count d n edges in if t == n && has d s then suc rest else rest

-- The edges from one node to another.
unfoldable pub out_count : String → String → Edges → ℕ
out_count k n [] = 0
out_count k n ((s, t) ∷ edges) =
    let rest = out_count k n edges in if s == k && t == n then suc rest else rest

abbrev pub minus : Option ℕ → ℕ → Option ℕ
minus none m = none
minus (some v) m = some (v - m)

pub record IsDropped (node : String) (edges : Edges) (d d' : Degrees) : Type 0 where
  pub counts : (n : String) → lookup n d' ≡ minus (lookup n d) (out_count node n edges)
  pub same_keys : keys d' ≡ keys d

-- The target of an edge from the node is there.
abbrev pub IsAimed : String → Degrees → String × String → Type 0
IsAimed node d e = (e.0 == node) ≡ true → has d e.1 ≡ true

pub has-adjusted :
    (f : ℕ → ℕ) (k : String) (d d' : Degrees)
    → IsAdjusted f k d d'
    → (n : String) → has d' n ≡ has d n
has-adjusted f k d d' r n = rw (r.counts n) (same (k == n) (lookup n d))
  where
    same : (b : Bool) (o : Option ℕ) → is_some (if b then change f o else o) ≡ is_some o
    same false o = refl
    same true none = refl
    same true (some v) = refl

pub All-map :
    {A : Type 0} (P Q : A → Type 0) (xs : List A) → ((x : A) → P x → Q x) → All P xs → All Q xs
All-map P Q [] f a = tt
All-map P Q (x ∷ xs) f a = (f x a.0, All-map P Q xs f a.1)

minus_zero : (o : Option ℕ) → o ≡ minus o 0
minus_zero none = refl
minus_zero (some v) = ap (λ n. some n) (omega arith)

-- One edge more is one less.
minus_step :
    (b : Bool) (o : Option ℕ) (m : ℕ)
    → minus (if b then change decrease o else o) m ≡ minus o (if b then suc m else m)
minus_step false o m = refl
minus_step true none m = refl
minus_step true (some v) m = ap (λ n. some n) (omega arith)

pub drop_edges-IsDropped :
    (node : String) (edges : Edges) (d : Degrees)
    → All (IsAimed node d) edges
    → (d' : Degrees) × ((drop_edges node edges d ≡ some d') × IsDropped node edges d d')
unfolding drop_edges out_count
drop_edges-IsDropped node [] d c =
    (d, (refl, record { counts = λ n. minus_zero (lookup n d); same_keys = refl }))
drop_edges-IsDropped node ((s, t) ∷ edges) d c = elim (Bool-cases (s == node)) [
  | inr e ↦
      let (d', (a, r)) = drop_edges-IsDropped node edges d c.1 in
      (
        d',
        (
          (let p : drop_edges node ((s, t) ∷ edges) d ≡ some d' = rw e a in p),
          record {
            counts = λ n.
                (let p : lookup n d' ≡ minus (lookup n d) (out_count node n ((s, t) ∷ edges)) =
                    rw e (r.counts n) in
                  p);
            same_keys = r.same_keys;
          },
        ),
      )
  | inl e ↦
      let (d1, (a, r)) = adjust-IsAdjusted decrease t d (c.0 e) in
      let aimed =
        All-map (IsAimed node d) (IsAimed node d1) edges
          (λ x i q. has-adjusted decrease t d d1 r x.1 ∙ i q) c.1 in
      let (d', (a', r')) = drop_edges-IsDropped node edges d1 aimed in
      (
        d',
        (
          (let p : drop_edges node ((s, t) ∷ edges) d ≡ some d' = rw (e, a) a' in p),
          record {
            counts = λ n.
                (let p : lookup n d' ≡ minus (lookup n d) (out_count node n ((s, t) ∷ edges)) =
                    rw e (
                      r'.counts n
                      ∙ ap (λ o. minus o (out_count node n edges)) (r.counts n)
                      ∙ minus_step (t == n) (lookup n d) (out_count node n edges)) in
                  p);
            same_keys = r'.same_keys ∙ r.same_keys;
          },
        ),
      )
]
