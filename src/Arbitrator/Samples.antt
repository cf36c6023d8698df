-- ===== src/Arbitrator/Samples.antt =====
-- A debate on one plan; confidence is counted in percent.
use go_agent_llm_orchestrato.Prelude.{
  ℕ, none, ◌==◌, false, lookup, insert, subst, some_injective, Bool-cases, inl, inr, ◌+◌, ◌*◌, ◌/◌,
  String, true, false, some, List, [], ◌∷◌, ltb, ◌≡◌, refl, arith,
}
use go_agent_llm_orchestrato.Prelude.Text.{ends_with}
use go_agent_llm_orchestrato.Arbitrator.{
  CritiqueItem, is_valid_item, is_valid_resolution, from_answer, extract_json_block,
}
use go_agent_llm_orchestrato.Arbitrator.Consensus.{
  missing, listed, not_iterable, printed, is_offline, Confidence, JudgeAnswer, Staged, Debate,
  run_consensus, check_syntax_offline, parse_verdict, align_confidence,
}
use go_agent_llm_orchestrato.Arbitrator.Blockers.{
  last_with, id_of, target_id, stands, IsRejection, run_consensus_rejects, run_consensus_overlooks,
  run_consensus_invalid,
}
use go_agent_llm_orchestrato.Arbitrator.Bounds.{InUnit, IsOrder, run_consensus-InUnit}

abbrev percent : Confidence ℕ
percent = record {
  less = ltb;
  tenths = λ n. n * 10;
  adjusted = λ x. x * 85 / 100;
  far = λ x y. ltb (x + 1) y;
}

abbrev critique : String → String → CritiqueItem
critique id severity = record {
  id = id;
  category = "security";
  severity = severity;
  description = "keys in the log";
  suggested_action = "mask them";
}

abbrev empty_critique : CritiqueItem
empty_critique = record {
  id = "C2";
  category = "design";
  severity = "warning";
  description = "";
  suggested_action = "-";
}

abbrev answer : JudgeAnswer ℕ
answer = record {
  status = some "approved";
  has_confidence = true;
  confidence = some 120;
  conditions = missing;
  risk_areas = listed [];
  summary = "fine";
}

abbrev debate : List CritiqueItem → Debate ℕ
debate cs = record {
  challenger = "{}";
  challenger_source = "model";
  critiques = some cs;
  resolutions = some (record { critique_id = "C1"; accepted = false; resolution = "no" } ∷ []);
  judge = "{}";
  verdict = some answer;
}

abbrev staged : List Staged
staged = record { path = "a.py"; exists = true; compiled = some 1; stderr = "line 1" } ∷ []

abbrev same : String → String
same t = t

extracts :
    (extract_json_block "so: {\"a\": \"}\"} end" ≡ "{\"a\": \"}\"}")
    × (extract_json_block "nothing" ≡ "nothing")
    × ((check_syntax_offline staged).0 ≡ false)
unfolding extract_json_block check_syntax_offline ends_with
extracts = (refl, refl, refl)

-- A judge that says null where a list should stand.
abbrev null_judge : Debate ℕ
null_judge = record (debate (critique "C1" "blocker" ∷ [])) {
  verdict = some (record answer { conditions = not_iterable });
}

raises : run_consensus percent same "p1" staged null_judge ≡ none
unfolding run_consensus insert lookup
raises = refl

run_consensus_rejects_example :
    IsRejection percent true
      (run_consensus percent same "p1" staged (debate (critique "C1" "blocker" ∷ [])))
unfolding last_with from_answer is_offline parse_verdict
run_consensus_rejects_example =
    run_consensus_rejects percent same "p1" staged (debate (critique "C1" "blocker" ∷ [])) "C1"
      (critique "C1" "blocker") refl refl refl refl

abbrev hidden : Debate ℕ
hidden = debate (critique "C1" "blocker" ∷ critique "C1" "warning" ∷ [])

hidden_mild :
    (id : String) (c : CritiqueItem)
    → last_with id_of id (from_answer is_valid_item hidden.critiques) ≡ some c
    → stands (last_with target_id id (from_answer is_valid_resolution hidden.resolutions)) c ≡ false
unfolding last_with from_answer
hidden_mild id c at = elim (Bool-cases ("C1" == id)) [
  | inl e ↦
      let c_is : critique "C1" "warning" ≡ c =
        some_injective (critique "C1" "warning") c (rw e at at) in
      subst
        (λ x.
          stands (last_with target_id id (from_answer is_valid_resolution hidden.resolutions)) x
          ≡ false)
        c_is refl
  | inr e ↦ let no_entry : none ≡ some c = rw e at at in absurd (cc)
]

run_consensus_overlooks_example :
    run_consensus percent same "p1" staged hidden
    ≡ printed percent
        (some (align_confidence percent (parse_verdict percent "p1" "{}" (some answer))))
unfolding is_offline
run_consensus_overlooks_example =
    run_consensus_overlooks percent same "p1" staged hidden refl hidden_mild

run_consensus_invalid_example :
    run_consensus percent same "p1" staged (debate (critique "C1" "blocker" ∷ empty_critique ∷ []))
    ≡ printed percent
        (some (align_confidence percent (parse_verdict percent "p1" "{}" (some answer))))
unfolding is_offline
run_consensus_invalid_example =
    run_consensus_invalid percent same "p1" staged
      (debate (critique "C1" "blocker" ∷ empty_critique ∷ []))
      (critique "C1" "blocker" ∷ empty_critique ∷ []) refl refl refl

order : IsOrder percent
order = record {
  asym = λ x y h. ground (arith, h);
  irrefl = λ x. ground arith;
  decimals = λ m n h. ground (arith, h);
}

run_consensus-InUnit_example :
    InUnit percent
      (align_confidence percent (parse_verdict percent "p1" "{}" (some answer))).confidence
unfolding run_consensus lookup insert
run_consensus-InUnit_example =
    run_consensus-InUnit percent order same "p1" staged (debate [])
      (align_confidence percent (parse_verdict percent "p1" "{}" (some answer))) refl
