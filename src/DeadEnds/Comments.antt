-- ===== src/DeadEnds/Comments.antt =====
-- What normalize_code of dead_ends.py leaves out: the rest of a line after two slashes.
use Prim.Native.String.{[] as empty_text, ◌∷◌ as cons_char, ◌++◌ as append_text}
use Prim.Native.Char.{Char, code}
use text.Mathlib.TextLemmas.{nil-append, cons-append}
use go_agent_llm_orchestrato.Prelude.{
  ℕ, zero, suc, ◌+◌, String, true, false, none, is_some, [], ◌∷◌, ◌≡◌, refl, arith, eqb, eq_refl,
}
use go_agent_llm_orchestrato.Prelude.Text.{text_after, text_length}
use go_agent_llm_orchestrato.Prelude.Words.{is_break}
use go_agent_llm_orchestrato.DeadEnds.{
  cut, split_lines, without_blocks, without_blocks_from, opened, normalize_code, is_dead_end,
  log_dead_end, written, Registry,
}
use go_agent_llm_orchestrato.DeadEnds.Registered.{is_dead_end-log_dead_end}

-- "//", in an option for the two ways to look at it.
slashes_after :
    (c : Char) (u v w : String)
    → is_some (text_after "//" (cons_char c (append_text u (append_text "//" v))))
      ≡ is_some (text_after "//" (cons_char c (append_text u (append_text "//" w))))
unfolding text_after
slashes_after c empty_text v w =
    rw
      (
        nil-append (append_text "//" v),
        nil-append (append_text "//" w),
        cons-append "/" "/" v,
        cons-append "/" "/" w,
      )
      (ground arith)
slashes_after c (cons_char d u) v w =
    rw (cons-append d u (append_text "//" v), cons-append d u (append_text "//" w)) (ground arith)

cut-slashes :
    (u v w : String)
    → cut "//" (append_text u (append_text "//" v)) ≡ cut "//" (append_text u (append_text "//" w))
unfolding cut text_after
cut-slashes empty_text v w =
    rw
      (
        nil-append (append_text "//" v),
        nil-append (append_text "//" w),
        cons-append "/" "/" v,
        cons-append "/" "/" w,
        cons-append "/" empty_text v,
        cons-append "/" empty_text w,
      )
      refl
cut-slashes (cons_char c u) v w =
    rw
      (
        cons-append c u (append_text "//" v),
        cons-append c u (append_text "//" w),
        slashes_after c u v w,
        cut-slashes u v w,
      )
      refl

-- No line boundary stands in the text.
unfoldable pub OneLine : String → Type 0
OneLine empty_text = Unit
OneLine (cons_char c s) = (is_break c ≡ false) × OneLine s

not_return : (c : Char) → is_break c ≡ false → eqb (code c) 13 ≡ false
not_return c h = ground (arith, h)

split_lines-OneLine :
    (c : Char) (s : String)
    → OneLine (cons_char c s)
    → split_lines (cons_char c s) ≡ cons_char c s ∷ []
unfolding split_lines OneLine
split_lines-OneLine c empty_text (h, _) = rw (not_return c h, h) refl
split_lines-OneLine c (cons_char d s) (h, t) =
    rw (not_return c h, h, split_lines-OneLine d s t) refl

OneLine-append : (s t : String) → OneLine s → OneLine t → OneLine (append_text s t)
unfolding OneLine
OneLine-append empty_text t h k = rw (nil-append t) k
OneLine-append (cons_char c s) t (h, hs) k = rw (cons-append c s t) (h, OneLine-append s t hs k)

split_lines-slashes :
    (u v : String)
    → OneLine u
    → OneLine v
    → split_lines (append_text u (append_text "//" v)) ≡ append_text u (append_text "//" v) ∷ []
unfolding OneLine
split_lines-slashes empty_text v hu hv =
    rw (nil-append (append_text "//" v), cons-append "/" "/" v)
      (split_lines-OneLine "/" (append_text "/" v) (refl, OneLine-append "/" v (refl, tt) hv))
split_lines-slashes (cons_char c u) v (h, hu) hv = rw (cons-append c u (append_text "//" v)) (
    split_lines-OneLine c (append_text u (append_text "//" v))
      (h, OneLine-append u (append_text "//" v) hu (OneLine-append "//" v (refl, (refl, tt)) hv)))

-- No block comment begins in the text.
unfoldable pub NoBlock : String → Type 0
NoBlock empty_text = Unit
NoBlock (cons_char c s) = (text_after "/*" (cons_char c s) ≡ none) × NoBlock s

without_blocks_from-NoBlock : (fuel : ℕ) (s : String) → NoBlock s → without_blocks_from fuel s ≡ s
unfolding without_blocks_from NoBlock opened
without_blocks_from-NoBlock zero s h = refl
without_blocks_from-NoBlock (suc fuel) empty_text h = refl
without_blocks_from-NoBlock (suc fuel) (cons_char c s) (h, hs) =
    rw (h, without_blocks_from-NoBlock fuel s hs) refl

module _ (lower : String → String) where
  -- The normalised text of a line with two slashes in it, and no block comment.
  normalize_code-slashes :
      (u v w : String)
      → OneLine u
      → OneLine v
      → OneLine w
      → NoBlock (append_text u (append_text "//" v))
      → NoBlock (append_text u (append_text "//" w))
      → normalize_code lower (append_text u (append_text "//" v))
        ≡ normalize_code lower (append_text u (append_text "//" w))
  unfolding normalize_code without_blocks
  normalize_code-slashes u v w hu hv hw bv bw =
      rw
        (
          without_blocks_from-NoBlock (text_length (append_text u (append_text "//" v)) + 1) _ bv,
          without_blocks_from-NoBlock (text_length (append_text u (append_text "//" w)) + 1) _ bw,
          split_lines-slashes u v hu hv,
          split_lines-slashes u w hu hw,
          cut-slashes u v w,
        )
        refl

  -- Two patches of one line without block comments that differ only behind two slashes, be it in a
  -- string such as an address: once one of them is logged, and the registry can be written, the
  -- other one counts as a dead end as well.
  pub other_patch_dead :
      (file error u v w : String) (r : Registry)
      → OneLine u
      → OneLine v
      → OneLine w
      → NoBlock (append_text u (append_text "//" v))
      → NoBlock (append_text u (append_text "//" w))
      → is_dead_end lower file
          (append_text u (append_text "//" w))
          (log_dead_end lower written file (append_text u (append_text "//" v)) error r)
        ≡ true
  other_patch_dead file error u v w r hu hv hw bv bw =
      rw
        (
          is_dead_end-log_dead_end lower file (append_text u (append_text "//" v)) error file
              (append_text u (append_text "//" w)) r,
          normalize_code-slashes u v w hu hv hw bv bw,
          eq_refl file,
          eq_refl (normalize_code lower (append_text u (append_text "//" w))),
        )
        (ground arith)
