-- ===== src/Prelude/Decimal.antt =====
-- str(n) and int(s) of Python at natural numbers in decimal digits.
use Prim.Native.Nat.{ℕ, zero, suc, ◌+◌, ◌-◌, ◌*◌, ◌/◌, ◌%◌, ◌<◌}
use Prim.Native.Char.{Char, code}
use Prim.Native.String.{String, [], ◌∷◌, ◌++◌}
use mathlib.Core.Path.{◌≡◌, refl}
use mathlib.Core.Bool.{Bool, ◌&&◌}
use mathlib.Core.Option.{Option, none, some}
use native.Mathlib.Omega.{arith}
use text.Mathlib.TextLemmas.{nil-append, cons-append}
use go_agent_llm_orchestrato.Prelude.Tests.{ltb, leb, if◌then◌else◌, if_cases, if_split}

unfoldable pub digit : ℕ → Char
digit zero = "0"
digit (suc zero) = "1"
digit (suc (suc zero)) = "2"
digit (suc (suc (suc zero))) = "3"
digit (suc (suc (suc (suc zero)))) = "4"
digit (suc (suc (suc (suc (suc zero))))) = "5"
digit (suc (suc (suc (suc (suc (suc zero)))))) = "6"
digit (suc (suc (suc (suc (suc (suc (suc zero))))))) = "7"
digit (suc (suc (suc (suc (suc (suc (suc (suc zero)))))))) = "8"
digit n = "9"

code-digit : (n : ℕ) → n < 10 → code (digit n) ≡ 48 + n
unfolding digit
code-digit zero h = refl
code-digit (suc zero) h = refl
code-digit (suc (suc zero)) h = refl
code-digit (suc (suc (suc zero))) h = refl
code-digit (suc (suc (suc (suc zero)))) h = refl
code-digit (suc (suc (suc (suc (suc zero))))) h = refl
code-digit (suc (suc (suc (suc (suc (suc zero)))))) h = refl
code-digit (suc (suc (suc (suc (suc (suc (suc zero))))))) h = refl
code-digit (suc (suc (suc (suc (suc (suc (suc (suc zero)))))))) h = refl
code-digit (suc (suc (suc (suc (suc (suc (suc (suc (suc zero))))))))) h = refl
code-digit (suc (suc (suc (suc (suc (suc (suc (suc (suc (suc n)))))))))) h = absurd (omega arith)

-- The digits of `n` before `out`, the last one first: `n + 1` turns suffice.
unfoldable pub decimal_from : ℕ → ℕ → String → String
unfolding digit
decimal_from zero n out = out
decimal_from (suc fuel) n out =
    let rest = decimal_from fuel (n / 10) (digit (n % 10) ∷ out) in
    if ltb n 10 then digit n ∷ out else rest

-- str(n)
unfoldable pub decimal : ℕ → String
unfolding decimal_from
decimal n = decimal_from (suc n) n []

abbrev pub is_digit : Char → Bool
is_digit c = leb 48 (code c) && leb (code c) 57

-- The number that the digits spell after `n`.
unfoldable pub read_digits : ℕ → String → Option ℕ
read_digits n [] = some n
read_digits n (c ∷ s) =
    let rest = read_digits (n * 10 + (code c - 48)) s in if is_digit c then rest else none

-- re.fullmatch(r"(\d+)", s), then int(...)
unfoldable pub read_number : String → Option ℕ
unfolding read_digits
read_number [] = none
read_number (c ∷ s) = read_digits 0 (c ∷ s)

read_digits-digit :
    (d n : ℕ) (s : String) → d < 10 → read_digits n (digit d ∷ s) ≡ read_digits (n * 10 + d) s
unfolding read_digits
read_digits-digit d n s h = ground (arith, code-digit d h)

read_digits-decimal_from :
    (fuel n : ℕ) (out : String)
    → n < fuel
    → read_digits 0 (decimal_from fuel n out) ≡ read_digits n out
unfolding decimal_from
read_digits-decimal_from zero n out h = absurd (omega arith)
read_digits-decimal_from (suc fuel) n out h =
    if_split (λ (s : String). read_digits 0 s ≡ read_digits n out) (ltb n 10) (digit n ∷ out)
      (decimal_from fuel (n / 10) (digit (n % 10) ∷ out))
      (λ small. ground (arith, read_digits-digit n 0 out))
      (λ big. ground (
        arith,
        read_digits-digit (n % 10) (n / 10) out,
        read_digits-decimal_from fuel (n / 10) (digit (n % 10) ∷ out),
      ))

decimal_from-cons :
    (fuel n : ℕ) (c : Char) (out : String)
    → (d : Char) × (s : String) × (decimal_from fuel n (c ∷ out) ≡ d ∷ s)
unfolding decimal_from
decimal_from-cons zero n c out = (c, out, refl)
decimal_from-cons (suc fuel) n c out =
    if_cases (λ (r : String). (d : Char) × (s : String) × (r ≡ d ∷ s)) (ltb n 10)
      (digit n ∷ c ∷ out) (decimal_from fuel (n / 10) (digit (n % 10) ∷ c ∷ out))
      (digit n, c ∷ out, refl) (decimal_from-cons fuel (n / 10) (digit (n % 10)) (c ∷ out))

decimal-cons : (n : ℕ) → (d : Char) × (s : String) × (decimal n ≡ d ∷ s)
unfolding decimal decimal_from
decimal-cons n =
    if_cases (λ (r : String). (d : Char) × (s : String) × (r ≡ d ∷ s)) (ltb n 10) (digit n ∷ [])
      (decimal_from n (n / 10) (digit (n % 10) ∷ [])) (digit n, [], refl)
      (decimal_from-cons n (n / 10) (digit (n % 10)) [])

pub read_digits-decimal : (n : ℕ) → read_digits 0 (decimal n) ≡ some n
unfolding decimal read_digits
read_digits-decimal n = read_digits-decimal_from (suc n) n [] (omega arith)

-- int(str(n)) == n
pub read_number-decimal : (n : ℕ) → read_number (decimal n) ≡ some n
unfolding read_number
read_number-decimal n = let (d, s, e) = decimal-cons n in rw e (rw e at (read_digits-decimal n))

-- A text with a dot in it is no number.
pub read_digits-dot : (s t : String) (n : ℕ) → read_digits n (s ++ ("." ++ t)) ≡ none
unfolding read_digits
read_digits-dot [] t n = rw (nil-append ("." ++ t)) (rw (cons-append "." [] t) refl)
read_digits-dot (c ∷ s) t n =
    rw (cons-append c s ("." ++ t)) (ground (arith, read_digits-dot s t (n * 10 + (code c - 48))))
