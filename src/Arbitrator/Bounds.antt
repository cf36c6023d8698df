-- ===== src/Arbitrator/Bounds.antt =====
-- The confidence that run_consensus of arbitrator.py reports.
use go_agent_llm_orchestrato.Prelude.{
  ℕ, ◌<◌, subst, arith, ◌&&◌, String, Bool, true, false, Option, none, some, List, is_nil, ◌≡◌,
  if_split, if_cases, if◌then◌else◌,
}
use go_agent_llm_orchestrato.Arbitrator.Consensus.{
  Confidence, JsonField, add_text, rejected, goes_through, printed, Decision, clamp01,
  parse_verdict, unparsed, parsed, align_confidence, apply_dna_to_confidence, override_status,
  Staged, Debate, is_offline, offline_verdict, check_syntax_offline, run_consensus, JudgeAnswer,
}

module _ {N : Type 0} (num : Confidence N) where
  -- Not below zero and not above one.
  abbrev pub InUnit : N → Type 0
  InUnit x = (num.less x (num.tenths 0) ≡ false) × (num.less (num.tenths 10) x ≡ false)

  -- The order of floats, as far as the bounds need it; decimals are in their own order.
  pub record IsOrder : Type 0 where
    pub asym : (x y : N) → num.less x y ≡ true → num.less y x ≡ false
    pub irrefl : (x : N) → num.less x x ≡ false
    pub decimals : (m n : ℕ) → m < n → num.less (num.tenths m) (num.tenths n) ≡ true

  module _ (order : IsOrder) where
    -- A decimal that is not zero and not above one, and zero itself.
    InUnit-tenths : (n : ℕ) → 0 < n → n < 10 → InUnit (num.tenths n)
    InUnit-tenths n l u = (
      order.asym (num.tenths 0) (num.tenths n) (order.decimals 0 n l),
      order.asym (num.tenths n) (num.tenths 10) (order.decimals n 10 u),
    )

    bounds : num.less (num.tenths 0) (num.tenths 10) ≡ true
    bounds = order.decimals 0 10 (omega arith)

    InUnit-one : InUnit (num.tenths 10)
    InUnit-one = (order.asym (num.tenths 0) (num.tenths 10) bounds, order.irrefl (num.tenths 10))

    InUnit-zero : InUnit (num.tenths 0)
    InUnit-zero = (order.irrefl (num.tenths 0), order.asym (num.tenths 0) (num.tenths 10) bounds)

    -- What min(1.0, x) gives is not above one.
    clamp01-InUnit : (x : N) → InUnit (clamp01 num x)
    unfolding clamp01
    clamp01-InUnit x =
        let low = λ (m : N) (h : num.less (num.tenths 10) m ≡ false).
          if_split InUnit (num.less (num.tenths 0) m) m (num.tenths 0)
            (λ e. (order.asym (num.tenths 0) m e, h)) (λ e. InUnit-zero) in
        if_split (λ (m : N). InUnit (if num.less (num.tenths 0) m then m else (num.tenths 0)))
          (num.less x (num.tenths 10)) x (num.tenths 10)
          (λ e. low x (order.asym x (num.tenths 10) e))
          (λ e. low (num.tenths 10) (order.irrefl (num.tenths 10)))

    unparsed-InUnit : (plan_id answer : String) → InUnit (unparsed num plan_id answer).confidence
    unfolding unparsed
    unparsed-InUnit plan_id answer = InUnit-tenths 5 (omega arith) (omega arith)

    parsed-InUnit :
        (plan_id answer : String) (v : JudgeAnswer N) (status : Option String) (x : Option N)
        → InUnit (parsed num plan_id answer v status x).confidence
    unfolding parsed
    parsed-InUnit plan_id answer v none x = unparsed-InUnit plan_id answer
    parsed-InUnit plan_id answer v (some s) none = unparsed-InUnit plan_id answer
    parsed-InUnit plan_id answer v (some s) (some x) = clamp01-InUnit x

    parse_verdict-InUnit :
        (plan_id answer : String) (v : Option (JudgeAnswer N))
        → InUnit (parse_verdict num plan_id answer v).confidence
    unfolding parse_verdict
    parse_verdict-InUnit plan_id answer none = unparsed-InUnit plan_id answer
    parse_verdict-InUnit plan_id answer (some v) = parsed-InUnit plan_id answer v v.status _

    align_confidence-InUnit :
        (v : Decision N) → InUnit v.confidence → InUnit (align_confidence num v).confidence
    unfolding align_confidence apply_dna_to_confidence
    align_confidence-InUnit v h =
        let aligned = apply_dna_to_confidence num v.confidence in
        if_cases (λ (r : Decision N). InUnit r.confidence) (num.far aligned v.confidence)
          (record v {
            confidence_raw = some v.confidence;
            confidence = aligned;
            dna_adjusted = true;
          })
          v (clamp01-InUnit (num.adjusted v.confidence)) h

    -- If there is a verdict, its confidence is in the range.
    abbrev pub VerdictInUnit : Option (Decision N) → Type 0
    VerdictInUnit none = Unit
    VerdictInUnit (some v) = InUnit v.confidence

    override_status-InUnit :
        (failed : List String) (v : Decision N)
        → InUnit v.confidence
        → VerdictInUnit (override_status num failed v)
    unfolding override_status
    override_status-InUnit failed v h =
        if_cases VerdictInUnit (is_nil failed) (some v) _ h
          (added (add_text _ v.conditions) (add_text _ v.risk_areas))
      where
        added : (o p : Option JsonField) → VerdictInUnit (rejected num v o p)
        added none p = tt
        added (some x) none = tt
        added (some x) (some y) = h

    printed-InUnit : (o : Option (Decision N)) → VerdictInUnit o → VerdictInUnit (printed num o)
    printed-InUnit none h = tt
    printed-InUnit (some v) h =
        if_cases VerdictInUnit (goes_through v.conditions && goes_through v.risk_areas) (some v)
          none h tt

    offline_verdict-InUnit :
        (without_thoughts : String → String) (plan_id : String) (passed : Bool)
        (errors : List String)
        → InUnit (offline_verdict num without_thoughts plan_id (passed, errors)).confidence
    unfolding offline_verdict
    offline_verdict-InUnit without_thoughts plan_id passed errors =
        if_cases (λ n. InUnit (num.tenths n)) passed 8 10
          (InUnit-tenths 8 (omega arith) (omega arith)) InUnit-one

    -- The confidence of every verdict that is given lies between zero and one, whatever number the judge
    -- gives: for an order that is asymmetric and irreflexive, in which decimals stand by their value.
    pub run_consensus-InUnit :
        (without_thoughts : String → String) (plan_id : String) (staged : List Staged)
        (d : Debate N) (v : Decision N)
        → run_consensus num without_thoughts plan_id staged d ≡ some v
        → InUnit v.confidence
    unfolding run_consensus
    run_consensus-InUnit without_thoughts plan_id staged d v given = subst VerdictInUnit given (
        if_cases VerdictInUnit (is_offline num without_thoughts d)
          (some (offline_verdict num without_thoughts plan_id (check_syntax_offline staged))) _
          (offline_verdict-InUnit without_thoughts plan_id (check_syntax_offline staged).0
            (check_syntax_offline staged).1)
          (printed-InUnit _ (
            override_status-InUnit _ _
              (align_confidence-InUnit _ (parse_verdict-InUnit plan_id d.judge d.verdict)))))
