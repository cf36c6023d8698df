-- ===== src/Arbor/Meta.antt =====
-- parse_scalar, cmd_meta, apply_eval_meta and cmd_eval of arbor_state.py.
use Prim.Native.String.{[] as empty_text, ◌∷◌ as cons_char}
use go_agent_llm_orchestrato.Prelude.{
  ℕ, String, ◌==◌, Bool, true, false, not, ◌&&◌, ◌||◌, Option, none, some, List, [], ◌∷◌, Dict,
  lookup, keys, insert, contains, eqb, starts_with, if◌then◌else◌,
}
use go_agent_llm_orchestrato.Prelude.Words.{strip}
use go_agent_llm_orchestrato.Arbor.{
  Scalar, null, flag, number, text, Numbers, Tree, default_meta, or_null, is_true_value,
  is_null_value,
}
use go_agent_llm_orchestrato.Arbor.Commands.{
  Reason, bad_item, unknown_key, unknown_mode, exit_code, CommandResult, stopped, finished,
}
use go_agent_llm_orchestrato.Arbor.Record.{Finder, parse_score}

-- What Python does with the text of a value: str.lower, the numbers that the two regular expressions
-- match, and json.loads.
pub record Literals (N : Type 0) : Type 0 where
  pub lower : String → String
  pub as_int : String → Option N
  pub as_float : String → Option N
  pub loads : String → Option (Scalar N)

module _ {N : Type 0} where
  abbrev pub or_value : Option (Scalar N) → Scalar N → Scalar N
  or_value none v = v
  or_value (some w) v = w

  abbrev pub or_numeral : Option N → Scalar N → Scalar N
  or_numeral none v = v
  or_numeral (some x) v = number x

  unfoldable pub parse_scalar : Literals N → String → Scalar N
  parse_scalar lit s =
      let low = lit.lower s in
      let plain =
        if starts_with s "{" || starts_with s "["
        then or_value (lit.loads s) (text s)
        else text s in
      if low == "none" || low == "null"
      then null
      else if low == "true"
      then flag true
      else if low == "false"
      then flag false
      else or_numeral (lit.as_int s) (or_numeral (lit.as_float s) plain)

-- item.split("=", 1), if there is a "="
abbrev pub add_key : String → Option (String × String) → Option (String × String)
add_key c none = none
add_key empty_text (some kv) = some kv
add_key (cons_char c s) (some (k, v)) = some (cons_char c k, v)

unfoldable pub split_item : String → Option (String × String)
split_item empty_text = none
split_item (cons_char c s) =
    let rest = split_item s in
    if cons_char c empty_text == "="
    then some (empty_text, s)
    else add_key (cons_char c empty_text) rest

abbrev pub is_meta_key : String → Bool
is_meta_key key = contains (keys (default_meta {N = String})) key || key == "achieved_medal"

-- A value, or the reason to stop.
pub data Result (A : Type 0) : Type 0 where
  ok : A → Result A
  err : Reason → Result A

module _ {N : Type 0} (lit : Literals N) where
  -- The loop over the items of --set.
  unfoldable pub set_items : List String → Dict (Scalar N) → Result (Dict (Scalar N))
  unfolding split_item parse_scalar strip
  set_items [] meta = ok meta
  set_items (item ∷ items) meta = elim (split_item item) [
    | none ↦ err bad_item
    | some (k, v) ↦
        let key = strip k in
        let rest = set_items items (insert key (parse_scalar lit (strip v)) meta) in
        if is_meta_key key then rest else err (unknown_key key)
  ]

  abbrev pub save_meta : Tree N → Result (Dict (Scalar N)) → CommandResult N
  save_meta t (ok meta) = finished (record t { meta = meta })
  save_meta t (err r) = stopped t r

  unfoldable pub cmd_meta : List String → Tree N → CommandResult N
  unfolding set_items
  cmd_meta items t = save_meta t (set_items items t.meta)

module _ {N : Type 0} (num : Numbers N) where
  abbrev pub value_at : Dict (Scalar N) → String → Scalar N
  value_at meta key = or_null (lookup key meta)

  -- if cmd and not meta.get(key): meta[key] = cmd
  abbrev pub note_command : String → Option String → Dict (Scalar N) → Dict (Scalar N)
  note_command key none meta = meta
  note_command key (some cmd) meta =
      if not (cmd == empty_text) && not (is_true_value num (value_at meta key))
      then insert key (text cmd) meta
      else meta

  -- if meta.get(key) is None: meta[key] = score
  abbrev pub note_first : String → N → Dict (Scalar N) → Dict (Scalar N)
  note_first key score meta =
      if is_null_value (value_at meta key) then insert key (number score) meta else meta

  -- The chain of `if mode == …`.
  unfoldable pub mode_meta : String → N → Option String → Dict (Scalar N) → Result (Dict (Scalar N))
  mode_meta mode score cmd meta =
      if mode == "baseline"
      then ok (
          note_command "eval_cmd" cmd
            (note_first "trunk_score" score (insert "baseline_score" (number score) meta)))
      else if mode == "trunk"
      then ok (note_command "eval_cmd" cmd (insert "trunk_score" (number score) meta))
      else if mode == "test_baseline"
      then ok (
          note_command "eval_cmd_test" cmd (
            note_first "test_trunk_score" score (insert "test_baseline_score" (number score) meta)))
      else if mode == "test_trunk"
      then ok (note_command "eval_cmd_test" cmd (insert "test_trunk_score" (number score) meta))
      else if mode == "none"
      then ok meta
      else err unknown_mode

  abbrev pub test_command :
      String → Option String → Result (Dict (Scalar N)) → Result (Dict (Scalar N))
  test_command split cmd (ok meta) =
      ok (if split == "test" then note_command "eval_cmd_test" cmd meta else meta)
  test_command split cmd (err r) = err r

  unfoldable pub apply_eval_meta :
      String → N → Option String → String → Dict (Scalar N) → Result (Dict (Scalar N))
  unfolding mode_meta
  apply_eval_meta mode score cmd split meta = test_command split cmd (mode_meta mode score cmd meta)

  -- What is kept of an evaluation; a return code other than zero is the command's own, after that.
  abbrev pub with_code : ℕ → CommandResult N → CommandResult N
  with_code rc (t, some r) = (t, some r)
  with_code rc (t, none) = if eqb rc 0 then finished t else stopped t (exit_code rc)

  abbrev pub keep_result : Tree N → Result (Dict (Scalar N)) → CommandResult N
  keep_result t (ok meta) = finished (record t { meta = meta })
  keep_result t (err r) = stopped t r

  unfoldable pub keep_score : String → String → String → Tree N → Option N → CommandResult N
  unfolding apply_eval_meta
  keep_score set_meta cmd split t none = finished t
  keep_score set_meta cmd split t (some score) =
      if set_meta == "none"
      then finished t
      else keep_result t (apply_eval_meta set_meta score (some cmd) split t.meta)

  -- `rc` and `output` are those of the evaluation command.
  unfoldable pub cmd_eval :
      Finder N → String → String → String → ℕ → String → Tree N → CommandResult N
  unfolding keep_score parse_score
  cmd_eval find set_meta cmd split rc output t =
      with_code rc (keep_score set_meta cmd split t (parse_score num find output))
