-- ===== src/DeadEnds.antt =====
-- The registry of failed patches, .agent/scripts/orchestration/dead_ends.py.
pub mod Registered
pub mod Comments
mod Samples
use Prim.Native.String.{[] as empty_text, ◌∷◌ as cons_char}
use Prim.Native.Char.{Char, code}
use go_agent_llm_orchestrato.Prelude.{
  ℕ, zero, suc, ◌+◌, String, ◌==◌, Bool, true, false, ◌&&◌, ◌||◌, Option, none, some, is_some, List,
  [], ◌∷◌, ◌++◌, map, any, leb, eqb, starts_with, if◌then◌else◌,
}
use go_agent_llm_orchestrato.Prelude.Text.{text_length, text_after}
use go_agent_llm_orchestrato.Prelude.Words.{is_break, is_space, extend, join}

-- What follows the first "*/".
unfoldable pub after_comment : String → Option String
unfolding text_after
after_comment empty_text = none
after_comment (cons_char c s) = first (text_after "*/" (cons_char c s)) (after_comment s)
  where
    first : Option String → Option String → Option String
    first none o = o
    first (some t) o = some t

abbrev pub resumed : Option String → (String → String) → String → String
resumed none go kept = kept
resumed (some rest) go kept = go rest

unfoldable pub opened : Option String → (String → String) → String → String
unfolding after_comment
opened none go kept = kept
opened (some body) go kept = resumed (after_comment body) go kept

-- re.sub(r'/\*.*?\*/', '', code, flags=re.DOTALL)
unfoldable pub without_blocks_from : ℕ → String → String
unfolding opened text_after
without_blocks_from zero s = s
without_blocks_from (suc fuel) empty_text = empty_text
without_blocks_from (suc fuel) (cons_char c s) =
    opened (text_after "/*" (cons_char c s)) (without_blocks_from fuel)
      (cons_char c (without_blocks_from fuel s))

unfoldable pub without_blocks : String → String
unfolding without_blocks_from text_length
without_blocks s = without_blocks_from (text_length s + 1) s

unfoldable pub split_lines : String → List String
split_lines empty_text = []
split_lines (cons_char c s) =
    let rest = split_lines s in
    if eqb (code c) 13 && starts_with s "\n"
    then rest
    else if is_break c
    then empty_text ∷ rest
    else extend c rest

-- re.sub(mark + '.*$', '', line)
unfoldable pub cut : String → String → String
unfolding text_after
cut mark empty_text = empty_text
cut mark (cons_char c s) =
    let rest = cons_char c (cut mark s) in
    if is_some (text_after mark (cons_char c s)) then empty_text else rest

-- re.sub(r'\s+', '', code)
unfoldable pub without_spaces : String → String
without_spaces empty_text = empty_text
without_spaces (cons_char c s) =
    let rest = without_spaces s in if is_space c then rest else cons_char c rest

pub record DeadEnd : Type 0 where
  pub file : Option String
  pub patch : Option String
  pub patch_normalized : Option String
  pub error : Option String

-- The registry's file: `none` if it is missing, or is no JSON list.
abbrev pub Registry : Type 0
Registry = Option (List DeadEnd)

abbrev pub load_registry : Registry → List DeadEnd
load_registry none = []
load_registry (some es) = es

-- What becomes of a write: done, the file cannot be opened, or it is emptied and the rest fails.
pub data Writing : Type 0 where
  written not_opened cut_short : Writing

abbrev pub save_registry : Writing → List DeadEnd → Registry → Registry
save_registry written es r = some es
save_registry not_opened es r = r
save_registry cut_short es r = none

abbrev pub is_text : Option String → String → Bool
is_text none t = false
is_text (some s) t = s == t

abbrev pub is_entry : String → String → DeadEnd → Bool
is_entry file norm e = is_text e.file file && is_text e.patch_normalized norm

-- `lower` is str.lower.
module _ (lower : String → String) where
  unfoldable pub normalize_code : String → String
  unfolding without_blocks split_lines cut without_spaces join
  normalize_code code_text = lower (
      without_spaces (
        join "\n" (map (λ line. cut "#" (cut "//" line)) (split_lines (without_blocks code_text)))))

  unfoldable pub is_dead_end : String → String → Registry → Bool
  unfolding normalize_code
  is_dead_end file patch r = any (is_entry file (normalize_code patch)) (load_registry r)

  unfoldable pub log_dead_end : Writing → String → String → String → Registry → Registry
  unfolding normalize_code
  log_dead_end how file patch error r =
      let entry : DeadEnd = record {
        file = some file;
        patch = some patch;
        patch_normalized = some (normalize_code patch);
        error = some error;
      } in
      if any (is_entry file (normalize_code patch)) (load_registry r)
      then r
      else save_registry how (load_registry r ++ entry ∷ []) r

-- `deleted`: the file can be deleted.
abbrev pub clear_dead_ends : Bool → Registry → Registry
clear_dead_ends true r = none
clear_dead_ends false r = r
