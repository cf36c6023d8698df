-- ===== src/Squad/Delegates.antt =====
-- When validate_integrity of squad_schemas.py accepts a hierarchy.
use go_agent_llm_orchestrato.Prelude.{
  String, ◌==◌, true, false, ◌&&◌, none, some, is_some, List, [], ◌∷◌, lookup, contains, any, ◌≡◌,
  ◌⊎◌, inl, inr, refl, subst, arith, eq_iff, eq_refl, false≢true, Bool-cases, Option-cases,
  some_injective,
}
use go_agent_llm_orchestrato.Dag.Graph.{HasCycle}
use go_agent_llm_orchestrato.Squad.{
  Agents, unknown_delegate, cycle, Colors, raised, colored, first_unknown, unknown_delegates,
  validate_integrity,
}
use go_agent_llm_orchestrato.Squad.Plan.{plan_of}
use go_agent_llm_orchestrato.Squad.Integrity.{search_decides}

first_unknown-none :
    (nodes : Agents) (ds : List String) (d : String)
    → first_unknown nodes ds ≡ none
    → contains ds d ≡ true
    → is_some (lookup d nodes) ≡ true
unfolding first_unknown
first_unknown-none nodes [] d h mem = absurd (false≢true mem)
first_unknown-none nodes (x ∷ ds) d h mem = elim (Bool-cases (is_some (lookup x nodes))) [
  | inl known ↦ elim (Bool-cases (x == d)) [
    | inl e ↦ subst (λ y. is_some (lookup y nodes) ≡ true) ((eq_iff x d).0 e) known
    | inr e ↦ first_unknown-none nodes ds d (rw known at h) (rw e at mem)
  ]
  | inr unknown ↦ let p : some x ≡ none = rw unknown at h in absurd (cc)
]

first_unknown-some :
    (nodes : Agents) (ds : List String) (d : String)
    → first_unknown nodes ds ≡ some d
    → (is_some (lookup d nodes) ≡ false) × (contains ds d ≡ true)
unfolding first_unknown
first_unknown-some nodes [] d h = absurd (cc)
first_unknown-some nodes (x ∷ ds) d h = elim (Bool-cases (is_some (lookup x nodes))) [
  | inl known ↦ let r = first_unknown-some nodes ds d (rw known at h) in (r.0, ground (arith, r.1))
  | inr unknown ↦
      let same : x ≡ d = some_injective x d (rw unknown at h) in
      (
        subst (λ y. is_some (lookup y nodes) ≡ false) same unknown,
        subst (λ y. contains (x ∷ ds) y ≡ true) same (ground (arith, eq_refl x)),
      )
]

-- Every delegate of an entry is an agent.
abbrev pub AllKnown : Agents → Agents → Type 0
AllKnown nodes es =
    (d : String)
    → any (λ e. contains e.1.delegates_to d) es ≡ true
    → is_some (lookup d nodes) ≡ true

unknown_delegates-cases :
    (nodes es : Agents)
    → ((unknown_delegates nodes es ≡ none) × AllKnown nodes es)
      ⊎ ((p : String × String) × ((unknown_delegates nodes es ≡ some (unknown_delegate p.0 p.1))
            × ((is_some (lookup p.1 nodes) ≡ false)
                × (any (λ e. (e.0 == p.0) && contains e.1.delegates_to p.1) es ≡ true))))
unfolding unknown_delegates
unknown_delegates-cases nodes [] = inl (refl, λ d h. absurd (false≢true h))
unknown_delegates-cases nodes ((name, n) ∷ es) =
    elim (Option-cases (first_unknown nodes n.delegates_to)) [
      | inr (d, q) ↦
          let r = first_unknown-some nodes n.delegates_to d q in
          inr ((name, d), (rw q refl, (r.0, ground (arith, r.1, eq_refl name))))
      | inl q ↦ elim (unknown_delegates-cases nodes es) [
        | inl (none_left, known) ↦ inl (
          rw q none_left,
          λ d h. elim (Bool-cases (contains n.delegates_to d)) [
            | inl here ↦ first_unknown-none nodes n.delegates_to d q here
            | inr other ↦ known d (rw other at h)
          ],
        )
        | inr (p, (e, (unknown, listed))) ↦ inr (p, (rw q e, (unknown, ground (arith, listed))))
      ]
    ]

-- A hierarchy is accepted if each delegate is an agent, and no agent delegates to itself through others.
-- Otherwise it is refused, for a delegate of the named agent that is no agent, or else for a cycle that
-- there is.
pub validate_integrity_decides :
    (nodes : Agents)
    → ((c : Colors) × ((validate_integrity nodes ≡ colored c)
          × (AllKnown nodes nodes × (¬ HasCycle (plan_of nodes)))))
      ⊎ (((p : String × String) × ((validate_integrity nodes ≡ raised (unknown_delegate p.0 p.1))
              × ((is_some (lookup p.1 nodes) ≡ false)
                  × (any (λ e. (e.0 == p.0) && contains e.1.delegates_to p.1) nodes ≡ true))))
          ⊎ ((p : String × String) × ((validate_integrity nodes ≡ raised (cycle p.0 p.1))
                × (AllKnown nodes nodes × HasCycle (plan_of nodes)))))
unfolding validate_integrity
validate_integrity_decides nodes = elim (unknown_delegates-cases nodes nodes) [
  | inr (p, (e, h)) ↦ inr (inl (p, (rw e refl, h)))
  | inl (e, known) ↦ elim (search_decides nodes) [
    | inl (p, (q, k)) ↦ inr (inr (p, (rw e q, (known, k))))
    | inr (c, (q, k)) ↦ inl (c, (rw e q, (known, k)))
  ]
]
