-- ===== src/Prelude/Text.antt =====
-- Python's text operations that the library of native texts does not have.
use Prim.Native.String.{String, [], ◌∷◌, ◌++◌}
use Prim.Native.Nat.{ℕ, suc, ◌+◌}
use Prim.Native.Char.{Char}
use mathlib.Core.Path.{◌≡◌, sym, ap, ◌∙◌, subst}
use mathlib.Core.Logic.{◌↔◌, inl, inr}
use mathlib.Core.Bool.{Bool, true, ◌||◌}
use native.Mathlib.Omega.{arith}
use text.Mathlib.Text.{◌==◌}
use text.Mathlib.TextEquality.{eq_iff}
use text.Mathlib.TextBridge.{IsSuffix}
use text.Mathlib.TextLemmas.{nil-append, cons-append}
use text.Mathlib.TextPositions.{eq_refl}
use mathlib.Core.Option.{Option, none, some}
use go_agent_llm_orchestrato.Prelude.Tests.{Bool-cases, if◌then◌else◌}

-- s[:-1]
unfoldable pub drop_last : String → String
drop_last [] = []
drop_last (c ∷ []) = []
drop_last (c ∷ d ∷ s) = c ∷ drop_last (d ∷ s)

-- s.endswith(t)
unfoldable pub ends_with : String → String → Bool
ends_with [] t = [] == t
ends_with (c ∷ s) t = (c ∷ s) == t || ends_with s t

ends_with_self : (t : String) → ends_with t t ≡ true
unfolding ends_with
ends_with_self [] = eq_refl []
ends_with_self (c ∷ t) = rw (eq_refl (c ∷ t))

ends_with-append : (u t : String) → ends_with (u ++ t) t ≡ true
unfolding ends_with
ends_with-append [] t = rw (nil-append t) (ends_with_self t)
ends_with-append (c ∷ u) t = rw (cons-append c u t) (ground (arith, ends_with-append u t))

ends_with-suffix : (s t : String) → ends_with s t ≡ true → IsSuffix t s
unfolding ends_with
ends_with-suffix [] t h = ([], nil-append t ∙ sym ((eq_iff [] t).0 h))
ends_with-suffix (c ∷ s) t h = elim (Bool-cases ((c ∷ s) == t)) [
  | inl e ↦ ([], nil-append t ∙ sym ((eq_iff (c ∷ s) t).0 e))
  | inr e ↦
      let (u, q) = ends_with-suffix s t (rw e at h) in
      (c ∷ u, cons-append c u t ∙ ap (λ r. c ∷ r) q)
]

pub ends_with_iff : (s t : String) → (ends_with s t ≡ true) ↔ IsSuffix t s
ends_with_iff s t =
    (ends_with-suffix s t, λ (u, e). subst (λ r. ends_with r t ≡ true) e (ends_with-append u t))

-- Two characters at the end: only the last goes.
pub drop_last-append : (u : String) (c d : Char) → drop_last (u ++ (c ∷ d ∷ [])) ≡ u ++ (c ∷ [])
unfolding drop_last
drop_last-append [] c d = simp nil-append
drop_last-append (b ∷ []) c d = simp (cons-append, nil-append)
drop_last-append (b ∷ a ∷ u) c d =
    simp cons-append (ap (λ r. b ∷ r) (simp cons-append at (drop_last-append (a ∷ u) c d)))

-- len(s)
unfoldable pub text_length : String → ℕ
text_length [] = 0
text_length (c ∷ s) = suc (text_length s)

pub text_length-append : (s t : String) → text_length (s ++ t) ≡ text_length s + text_length t
unfolding text_length
text_length-append [] t = rw (nil-append t) (omega arith)
text_length-append (c ∷ s) t = rw (cons-append c s t) (omega (arith, text_length-append s t))

-- The rest of `s` after the text `p`, if it starts with it.
unfoldable pub text_after : String → String → Option String
text_after [] s = some s
text_after (c ∷ p) [] = none
text_after (c ∷ p) (d ∷ s) =
    let rest = text_after p s in if (c ∷ []) == (d ∷ []) then rest else none
