-- ===== src/Prelude/Words.antt =====
-- Python's white space in texts: s.strip(), s.split(), " ".join(words), and the slice s[:n].
use Prim.Native.Nat.{ℕ, zero, suc, ◌+◌, ◌≤◌}
use Prim.Native.Char.{Char, code}
use Prim.Native.String.{String, [] as empty_text, ◌∷◌ as cons_char, ◌++◌ as append_text}
use mathlib.Core.Bool.{Bool, true, ◌&&◌, ◌||◌, not}
use mathlib.Core.Option.{Option, none, some}
use mathlib.Core.List.{List, [], ◌∷◌}
use native.Mathlib.Omega.{arith}
use text.Mathlib.Text.{◌==◌, starts_with}
use text.Mathlib.TextLemmas.{nil-append, cons-append}
use text.Mathlib.TextEquality.{starts_with_iff}
use mathlib.Core.Path.{◌≡◌, refl}
use go_agent_llm_orchestrato.Prelude.Tests.{leb, eqb, if◌then◌else◌}
use go_agent_llm_orchestrato.Prelude.Lists.{select}
use go_agent_llm_orchestrato.Prelude.Text.{text_length, text_after}

-- The code points for which str.isspace holds.
abbrev pub is_space_code : ℕ → Bool
is_space_code n =
    (leb 9 n && leb n 13)
    || (leb 28 n && leb n 32)
    || eqb n 133
    || eqb n 160
    || eqb n 5760
    || (leb 8192 n && leb n 8202)
    || eqb n 8232
    || eqb n 8233
    || eqb n 8239
    || eqb n 8287
    || eqb n 12288

abbrev pub is_space : Char → Bool
is_space c = is_space_code (code c)

-- The line boundaries of str.splitlines.
abbrev pub is_break_code : ℕ → Bool
is_break_code n =
    (leb 10 n && leb n 13) || (leb 28 n && leb n 30) || eqb n 133 || eqb n 8232 || eqb n 8233

abbrev pub is_break : Char → Bool
is_break c = is_break_code (code c)

unfoldable pub lstrip : String → String
lstrip empty_text = empty_text
lstrip (cons_char c s) = let rest = lstrip s in if is_space c then rest else cons_char c s

unfoldable pub rstrip : String → String
rstrip empty_text = empty_text
rstrip (cons_char c s) =
    let rest = rstrip s in if rest == empty_text && is_space c then empty_text else cons_char c rest

-- s.strip()
unfoldable pub strip : String → String
unfolding lstrip rstrip
strip s = lstrip (rstrip s)

abbrev pub extend : Char → List String → List String
extend c [] = cons_char c empty_text ∷ []
extend c (w ∷ ws) = cons_char c w ∷ ws

unfoldable pub pieces : String → List String
pieces empty_text = empty_text ∷ []
pieces (cons_char c s) =
    let rest = pieces s in if is_space c then empty_text ∷ rest else extend c rest

-- s.split()
unfoldable pub split : String → List String
unfolding pieces
split s = select (λ w. not (w == empty_text)) (pieces s)

-- sep.join(parts)
unfoldable pub join : String → List String → String
join sep [] = empty_text
join sep (w ∷ []) = w
join sep (w ∷ v ∷ ws) = append_text w (append_text sep (join sep (v ∷ ws)))

-- s[:n]
unfoldable pub take_text : ℕ → String → String
take_text zero s = empty_text
take_text (suc n) empty_text = empty_text
take_text (suc n) (cons_char c s) = cons_char c (take_text n s)

pub text_length-take_text : (n : ℕ) (s : String) → text_length (take_text n s) ≤ n
unfolding take_text text_length
text_length-take_text zero s = omega arith
text_length-take_text (suc n) empty_text = omega arith
text_length-take_text (suc n) (cons_char c s) = omega (arith, text_length-take_text n s)

-- s.replace(old, new), for an `old` that is not empty; the fuel is the length of `s` and one more
unfoldable pub replace_from : ℕ → String → String → String → String
unfolding text_after
replace_from zero old new s = s
replace_from (suc fuel) old new empty_text = empty_text
replace_from (suc fuel) old new (cons_char c s) =
    replaced (text_after old (cons_char c s)) (replace_from fuel old new)
      (cons_char c (replace_from fuel old new s))
  where
    replaced : Option String → (String → String) → String → String
    replaced none go kept = kept
    replaced (some rest) go kept = append_text new (go rest)

unfoldable pub replace : String → String → String → String
unfolding replace_from text_length
replace old new s = replace_from (text_length s + 1) old new s

-- `t in s`
unfoldable pub has_part : String → String → Bool
has_part empty_text t = starts_with empty_text t
has_part (cons_char c s) t = starts_with (cons_char c s) t || has_part s t

has_part_start : (s t : String) → starts_with s t ≡ true → has_part s t ≡ true
unfolding has_part
has_part_start empty_text t h = h
has_part_start (cons_char c s) t h = rw h refl

pub has_part-append : (u t v : String) → has_part (append_text u (append_text t v)) t ≡ true
unfolding has_part
has_part-append empty_text t v =
    rw (nil-append (append_text t v))
      (has_part_start (append_text t v) t ((starts_with_iff (append_text t v) t).1 (v, refl)))
has_part-append (cons_char c u) t v =
    rw (cons-append c u (append_text t v)) (ground (arith, has_part-append u t v))
