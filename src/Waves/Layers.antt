-- ===== src/Waves/Layers.antt =====
-- The waves of a plan respect its edges, and leave out only what hangs on a cycle.
use go_agent_llm_orchestrato.Prelude.{
  ℕ, zero, suc, ◌+◌, ◌≤◌, String, ◌==◌, ◌≡◌, ◌≢◌, refl, sym, ap, ◌∙◌, subst, inl, inr, Bool, true,
  false, not, ◌&&◌, ◌||◌, Option, none, some, List, [], ◌∷◌, lookup, keys, contains, length, eqb,
  All, any, arith, eq_iff, eq_refl, Bool-cases, Option-cases, false≢true,
}
use go_agent_llm_orchestrato.Waves.{
  Edges, Degrees, current_wave, run_wave, Waves, waves_from, add_wave, waves_then,
}
use go_agent_llm_orchestrato.Waves.Degrees.{has, Distinct, in_count}
use go_agent_llm_orchestrato.Waves.Removal.{IsCounting, IsWave, IsWaveTaken, take_wave}

abbrev pub has_edge : Edges → String → String → Bool
has_edge edges s t = any (λ e. e.0 == s && e.1 == t) edges

abbrev pub in_waves : Waves → String → Bool
in_waves ws n = any (λ w. contains w n) ws

-- Up to the first wave with `s`, and in it, there is no `t`.
abbrev pub precedes : String → String → Waves → Bool
precedes s t [] = true
precedes s t (w ∷ ws) = not (contains w t) && (contains w s || precedes s t ws)

abbrev is_zero : Option ℕ → Bool
is_zero none = false
is_zero (some v) = eqb v 0

lookup-none : (n : String) (d : Degrees) → contains (keys d) n ≡ false → lookup n d ≡ none
unfolding lookup
lookup-none n [] h = refl
lookup-none n ((j, v) ∷ d) h = ground (arith, lookup-none n d)

contains-current_wave :
    (n : String) (d : Degrees)
    → Distinct (keys d)
    → contains (current_wave d) n ≡ is_zero (lookup n d)
unfolding current_wave lookup
contains-current_wave n [] h = refl
contains-current_wave n ((j, v) ∷ d) h = elim (Bool-cases (j == n)) [
  | inl e ↦
      let z : is_zero (lookup n d) ≡ false =
        ap is_zero (subst (λ x. lookup x d ≡ none) ((eq_iff j n).0 e) (lookup-none j d h.0)) in
      ground (arith, contains-current_wave n d h.1)
  | inr e ↦ ground (arith, contains-current_wave n d h.1)
]

current_wave-absent :
    (n : String) (d : Degrees) → contains (keys d) n ≡ false → contains (current_wave d) n ≡ false
unfolding current_wave
current_wave-absent n [] h = refl
current_wave-absent n ((j, v) ∷ d) h = ground (arith, current_wave-absent n d)

Distinct-current_wave : (d : Degrees) → Distinct (keys d) → Distinct (current_wave d)
unfolding current_wave
Distinct-current_wave [] h = tt
Distinct-current_wave ((j, v) ∷ d) h = elim (Bool-cases (eqb v 0)) [
  | inl e ↦ rw e (current_wave-absent j d h.0, Distinct-current_wave d h.1)
  | inr e ↦ rw e (Distinct-current_wave d h.1)
]

All-contains :
    (P : String → Type 0) (xs : List String)
    → ((n : String) → contains xs n ≡ true → P n)
    → All P xs
All-contains P [] f = tt
All-contains P (x ∷ xs) f =
    (f x (rw (eq_refl x) refl), All-contains P xs (λ n h. f n (ground arith)))

is_zero-some : (o : Option ℕ) → is_zero o ≡ true → o ≡ some 0
is_zero-some none h = cc
is_zero-some (some v) h = ap (λ n. some n) (ground arith)

current_wave-IsWave : (d : Degrees) → Distinct (keys d) → IsWave d (current_wave d)
current_wave-IsWave d h = (
  All-contains (λ n. lookup n d ≡ some 0) (current_wave d)
      (λ n c. is_zero-some (lookup n d) (sym (contains-current_wave n d h) ∙ c)),
  Distinct-current_wave d h,
)

no_edge :
    (d : Degrees) (s t : String) (edges : Edges)
    → in_count d t edges ≡ 0
    → has d s ≡ true
    → has_edge edges s t ≡ false
unfolding in_count
no_edge d s t [] z h = refl
no_edge d s t ((a, b) ∷ edges) z h = ground (arith, no_edge d s t edges, eq_iff a s)

some_edge :
    (d : Degrees) (t : String) (edges : Edges)
    → in_count d t edges ≢ 0
    → (s : String) × ((has_edge edges s t ≡ true) × (has d s ≡ true))
unfolding in_count
some_edge d t [] z = absurd (z refl)
some_edge d t ((a, b) ∷ edges) z = elim (Bool-cases (b == t && has d a)) [
  | inl e ↦ (a, (ground (arith, eq_refl a), ground arith))
  | inr e ↦ (let (s, (p, q)) = some_edge d t edges (λ k. z (rw e k)) in (s, (ground arith, q)))
]

-- What the waves of the nodes that are there say.
pub record IsLayered (edges : Edges) (d : Degrees) (ws : Waves) : Type 0 where
  pub ordered : (s t : String) → has_edge edges s t ≡ true → has d s ≡ true → precedes s t ws ≡ true
  pub only : (n : String) → in_waves ws n ≡ true → has d n ≡ true
  pub stuck :
      (n : String)
      → has d n ≡ true
      → in_waves ws n ≡ false
      → (s : String) × ((has_edge edges s n ≡ true) × ((has d s ≡ true) × (in_waves ws s ≡ false)))

-- No node of the current wave is the target of an edge from a node that is there.
not_in_wave :
    (edges : Edges) (d : Degrees) (s t : String)
    → IsCounting edges d
    → has_edge edges s t ≡ true
    → has d s ≡ true
    → contains (current_wave d) t ≡ false
not_in_wave edges d s t i e h = elim (Bool-cases (contains (current_wave d) t)) [
  | inl c ↦
      let z = is_zero-some (lookup t d) (sym (contains-current_wave t d i.distinct) ∙ c) in
      absurd (false≢true (sym (no_edge d s t edges (sym (i.counts t 0 z)) h) ∙ e))
  | inr c ↦ c
]

last_wave :
    (edges : Edges) (d : Degrees) → IsCounting edges d → current_wave d ≡ [] → IsLayered edges d []
last_wave edges d i w = record {
  ordered = λ s t e h. refl;
  only = λ n h. cc;
  stuck = λ n h a. elim (Option-cases (lookup n d)) [
    | inl o ↦ absurd (false≢true (rw o at h))
    | inr (v, o) ↦ (let (s, (p, q)) = some_edge d n edges (not_zero n v o) in (s, (p, (q, refl))))
  ];
}
  where
    not_zero : (n : String) (v : ℕ) → lookup n d ≡ some v → in_count d n edges ≢ 0
    not_zero n v o z =
        let o' : lookup n d ≡ some 0 = o ∙ ap (λ m. some m) (i.counts n v o ∙ z) in
        false≢true
          (sym (ap (λ x. contains x n) w) ∙ (contains-current_wave n d i.distinct ∙ rw o' refl))

next_wave :
    (edges : Edges) (d d' : Degrees) (ws : Waves)
    → IsCounting edges d
    → IsWaveTaken edges (current_wave d) d d'
    → IsLayered edges d' ws
    → IsLayered edges d (current_wave d ∷ ws)
next_wave edges d d' ws i t l = record {
  ordered = λ s u e h. elim (Bool-cases (contains (current_wave d) s)) [
    | inl c ↦ ground (arith, not_in_wave edges d s u i e h)
    | inr c ↦ ground (arith, not_in_wave edges d s u i e h, l.ordered s u e, t.without s)
  ];
  only = λ n h. elim (Bool-cases (contains (current_wave d) n)) [
    | inl c ↦
        (let o = is_zero-some (lookup n d) (sym (contains-current_wave n d i.distinct) ∙ c) in
          rw o refl)
    | inr c ↦ ground (arith, l.only n, t.without n)
  ];
  stuck = λ n h a.
      let (s, (e, (p, q))) = l.stuck n (ground (arith, t.without n)) (ground arith) in
      (s, (e, (ground (arith, t.without s), ground (arith, t.without s))));
}

waves_from-step :
    (fuel : ℕ) (edges : Edges) (n : String) (wave : List String) (d d' : Degrees) (ws : Waves)
    → run_wave (n ∷ wave) edges d ≡ some d'
    → waves_from fuel edges (current_wave d') d' ≡ some ws
    → waves_from (suc fuel) edges (n ∷ wave) d ≡ some ((n ∷ wave) ∷ ws)
unfolding waves_from
waves_from-step fuel edges n wave d d' ws p r =
    ap (λ o. add_wave (n ∷ wave) (waves_then o (λ x. waves_from fuel edges (current_wave x) x))) p
    ∙ ap (add_wave (n ∷ wave)) r

pub waves_from-IsLayered :
    (fuel : ℕ) (edges : Edges) (d : Degrees) (wave : List String)
    → IsCounting edges d
    → length (keys d) + 1 ≤ fuel
    → wave ≡ current_wave d
    → (ws : Waves) × ((waves_from fuel edges wave d ≡ some ws) × IsLayered edges d ws)
unfolding waves_from
waves_from-IsLayered zero edges d wave i f w = absurd (omega (arith, f))
waves_from-IsLayered (suc fuel) edges d [] i f w = ([], (refl, last_wave edges d i (sym w)))
waves_from-IsLayered (suc fuel) edges d (n ∷ wave) i f w =
    let (d', t) = take_wave edges (current_wave d) d i (current_wave-IsWave d i.distinct) in
    let shorter : length (keys d') + 1 ≤ fuel = omega (arith, f, t.shrinks, ap (λ x. length x) w) in
    let (ws, (r, l)) =
      waves_from-IsLayered fuel edges d' (current_wave d') t.counting shorter refl in
    let runs = subst (λ x. run_wave x edges d ≡ some d') (sym w) t.runs in
    let result = waves_from-step fuel edges n wave d d' ws runs r ∙ ap (λ x. some (x ∷ ws)) w in
    (current_wave d ∷ ws, (result, next_wave edges d d' ws i t l))
