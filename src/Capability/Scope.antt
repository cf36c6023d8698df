-- ===== src/Capability/Scope.antt =====
-- Which scopes a granted scope covers.
use Prim.Native.String.{◌++◌}
use text.Mathlib.Text.{starts_with}
use text.Mathlib.TextBridge.{IsPrefix}
use text.Mathlib.TextEquality.{starts_with_iff}
use go_agent_llm_orchestrato.Prelude.{
  String, ◌==◌, ◌≡◌, refl, sym, ap, ◌∙◌, subst, ◌↔◌, ◌⊎◌, inl, inr, true, arith, eq_iff, Bool-cases,
}
use go_agent_llm_orchestrato.Prelude.Text.{ends_with, drop_last, ends_with_iff, drop_last-append}
use go_agent_llm_orchestrato.Capability.{scope_matches}

-- The documented meaning of a granted scope.
abbrev pub Covers : String → String → Type 0
Covers cap target =
    (cap ≡ "global")
    ⊎ ((cap ≡ target) ⊎ ((p : String) × (cap ≡ p ++ ":*") × IsPrefix (p ++ ":") target))

wildcard-Covers :
    (cap target : String)
    → ends_with cap ":*" ≡ true
    → starts_with target (drop_last cap) ≡ true
    → Covers cap target
wildcard-Covers cap target e s =
    let (p, q) = (ends_with_iff cap ":*").0 e in
    inr (
      inr (
        p,
        sym q,
        subst (λ r. IsPrefix r target) (ap drop_last (sym q) ∙ drop_last-append p _ _)
            ((starts_with_iff target (drop_last cap)).0 s),
      ))

Covers-wildcard :
    (p target : String)
    → IsPrefix (p ++ ":") target
    → (ends_with (p ++ ":*") ":*" ≡ true) × (starts_with target (drop_last (p ++ ":*")) ≡ true)
Covers-wildcard p target h = (
  (ends_with_iff (p ++ ":*") ":*").1 (p, refl),
  (starts_with_iff target (drop_last (p ++ ":*"))).1
      (subst (λ r. IsPrefix r target) (sym (drop_last-append p _ _)) h),
)

scope_matches-Covers : (cap target : String) → scope_matches cap target ≡ true → Covers cap target
unfolding scope_matches
scope_matches-Covers cap target h = elim (Bool-cases (cap == "global")) [
  | inl g ↦ inl ((eq_iff cap "global").0 g)
  | inr ng ↦ elim (Bool-cases (cap == target)) [
    | inl t ↦ inr (inl ((eq_iff cap target).0 t))
    | inr nt ↦ elim (Bool-cases (ends_with cap ":*")) [
      | inl w ↦ wildcard-Covers cap target w (ground arith)
      | inr nw ↦ ground arith
    ]
  ]
]

Covers-scope_matches : (cap target : String) → Covers cap target → scope_matches cap target ≡ true
unfolding scope_matches
Covers-scope_matches cap target (inl g) = ground (arith, eq_iff cap "global")
Covers-scope_matches cap target (inr (inl t)) = ground (arith, eq_iff cap target)
Covers-scope_matches cap target (inr (inr (p, e, h))) =
    let (w, s) = Covers-wildcard p target h in
    subst (λ c. scope_matches c target ≡ true) (sym e) (ground (arith, w, s))

-- A granted scope covers a target exactly when it is global, is the target, or is a prefix of the
-- target's kind followed by the wildcard `:*`.
pub scope_matches_iff :
    (cap target : String) → (scope_matches cap target ≡ true) ↔ Covers cap target
scope_matches_iff cap target = (scope_matches-Covers cap target, Covers-scope_matches cap target)
