-- ===== src/Auction/Ranking.antt =====
-- How candidates are ranked, and what is made of the ranking.
use go_agent_llm_orchestrato.Prelude.{
  ℕ, suc, ◌+◌, ◌≤◌, String, ◌==◌, ◌≡◌, refl, sym, ap, ◌∙◌, subst, Bool, true, false, List, [], ◌∷◌,
  map, All, any, contains, eq_iff, length, ltb, arith, if◌then◌else◌, Bool-cases, inl, inr,
}
use go_agent_llm_orchestrato.Auction.{
  Agent, Candidate, cross_repo_signals, occurs, is_cross_repo_request, scored, place, sort_from,
  find_candidates, Assignment, assigned_fallback, pending_arena, assigned_via_auction, settle,
  run_auction,
}

-- No candidate has a higher score than one before it.
abbrev pub Descending : List Candidate → Type 0
Descending [] = Unit {0}
Descending (c ∷ cs) = All (λ x. x.score ≤ c.score) cs × Descending cs

-- How many candidates pass a test.
unfoldable pub count : (Candidate → Bool) → List Candidate → ℕ
count p [] = 0
count p (c ∷ cs) = let rest = count p cs in if p c then suc rest else rest

All-le :
    (n m : ℕ) (cs : List Candidate) → n ≤ m → All (λ x. x.score ≤ n) cs → All (λ x. x.score ≤ m) cs
All-le n m [] h a = tt
All-le n m (c ∷ cs) h a = (omega (arith, h, a.0), All-le n m cs h a.1)

All-place :
    (n : ℕ) (c : Candidate) (cs : List Candidate)
    → c.score ≤ n
    → All (λ x. x.score ≤ n) cs
    → All (λ x. x.score ≤ n) (place c cs)
unfolding place
All-place n c [] h a = (h, tt)
All-place n c (x ∷ xs) h a = elim (Bool-cases (ltb x.score c.score)) [
  | inl e ↦ rw e (h, a)
  | inr e ↦ rw e (a.0, All-place n c xs h a.1)
]

Descending-place : (c : Candidate) (cs : List Candidate) → Descending cs → Descending (place c cs)
unfolding place
Descending-place c [] d = (tt, tt)
Descending-place c (x ∷ xs) d = elim (Bool-cases (ltb x.score c.score)) [
  | inl e ↦
      let below : x.score ≤ c.score = ground arith in
      rw e ((below, All-le x.score c.score xs below d.0), d)
  | inr e ↦
      let above : c.score ≤ x.score = ground arith in
      rw e (All-place x.score c xs above d.0, Descending-place c xs d.1)
]

count-place :
    (p : Candidate → Bool) (c : Candidate) (cs : List Candidate)
    → count p (place c cs) ≡ count p (c ∷ cs)
unfolding place count
count-place p c [] = refl
count-place p c (x ∷ xs) = ground (arith, count-place p c xs)

Descending-sort_from :
    (cs sorted : List Candidate) → Descending sorted → Descending (sort_from cs sorted)
unfolding sort_from
Descending-sort_from [] sorted d = d
Descending-sort_from (c ∷ cs) sorted d =
    Descending-sort_from cs (place c sorted) (Descending-place c sorted d)

count-sort_from :
    (p : Candidate → Bool) (cs sorted : List Candidate)
    → count p (sort_from cs sorted) ≡ count p cs + count p sorted
unfolding sort_from count
count-sort_from p [] sorted = omega arith
count-sort_from p (c ∷ cs) sorted =
    ground (arith, count-sort_from p cs (place c sorted), count-place p c sorted)

count-true : (cs : List Candidate) → count (λ c. true) cs ≡ length cs
unfolding count
count-true [] = refl
count-true (c ∷ cs) = ap suc (count-true cs)

module _ (lower : String → String) where
  -- Without a cross-repository signal the candidates are the agents with a positive score, each as
  -- often as there, and the scores descend.
  pub find_candidates-Descending :
      (agents : List Agent) (task : String)
      → is_cross_repo_request lower task ≡ false
      → Descending (find_candidates lower agents task)
        × ((p : Candidate → Bool)
            → count p (find_candidates lower agents task)
              ≡ count p (scored lower (lower task) agents))
  unfolding find_candidates count
  find_candidates-Descending agents task local = rw local (
    Descending-sort_from (scored lower (lower task) agents) [] tt,
    λ p. count-sort_from p (scored lower (lower task) agents) [] ∙ omega arith,
  )

length-sort_from : (cs : List Candidate) → length (sort_from cs []) ≡ length cs
unfolding count
length-sort_from cs =
    sym (count-true (sort_from cs []))
    ∙ (count-sort_from (λ c. true) cs [] ∙ omega (arith, count-true cs))

-- What an assignment says about the agents with a positive score.
abbrev pub Fits : List Candidate → Assignment → Type 0
Fits scores assigned_fallback = scores ≡ []
Fits scores (assigned_via_auction id) = (c : Candidate) × ((scores ≡ c ∷ []) × (c.id ≡ id))
Fits scores (pending_arena ids) =
    (ids ≡ map (λ x. x.id) (sort_from scores [])) × (2 ≤ length scores)

settle-Fits : (scores : List Candidate) → Fits scores (settle (sort_from scores []))
unfolding settle sort_from place
settle-Fits [] = refl
settle-Fits (x ∷ []) = (x, (refl, refl))
settle-Fits (x ∷ y ∷ zs) = several (sort_from (x ∷ y ∷ zs) []) refl (length-sort_from (x ∷ y ∷ zs))
  where
    several :
        (ranked : List Candidate)
        → ranked ≡ sort_from (x ∷ y ∷ zs) []
        → length ranked ≡ length (x ∷ y ∷ zs)
        → Fits (x ∷ y ∷ zs) (settle ranked)
    several [] e l = absurd (omega (arith, l))
    several (a ∷ []) e l = absurd (omega (arith, l))
    several (a ∷ b ∷ cs) e l = (ap (map (λ c. c.id)) e, omega arith)

-- An auction without a cross-repository signal falls back to the orchestrator exactly if no agent has
-- a positive score, assigns the only one that has, and otherwise sends all that have to the arena, the
-- highest score first.
pub run_auction-Fits :
    (lower : String → String) (agents : List Agent) (task : String)
    → is_cross_repo_request lower task ≡ false
    → Fits (scored lower (lower task) agents) (run_auction lower agents task)
unfolding run_auction find_candidates
run_auction-Fits lower agents task local = rw local (settle-Fits (scored lower (lower task) agents))

-- A task with a cross-repository signal is the orchestrator's, whatever agents there are.
pub run_auction-override :
    (lower : String → String) (agents : List Agent) (task signal : String)
    → contains cross_repo_signals signal ≡ true
    → occurs signal (lower task) ≡ true
    → run_auction lower agents task ≡ assigned_via_auction "orchestrator"
unfolding run_auction find_candidates settle is_cross_repo_request
run_auction-override lower agents task signal c o = rw (any_signal cross_repo_signals c) refl
  where
    any_signal :
        (signals : List String)
        → contains signals signal ≡ true
        → any (λ s. occurs s (lower task)) signals ≡ true
    any_signal [] h = cc
    any_signal (s ∷ signals) h = elim (Bool-cases (s == signal)) [
      | inl e ↦
          (let p : occurs s (lower task) ≡ true =
              subst (λ x. occurs x (lower task) ≡ true) (sym ((eq_iff s signal).0 e)) o in
            rw p refl)
      | inr e ↦ ground (arith, any_signal signals)
    ]
