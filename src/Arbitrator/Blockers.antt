-- ===== src/Arbitrator/Blockers.antt =====
-- Blockers in run_consensus of arbitrator.py: which ones reject a plan, and which ones are lost.
use go_agent_llm_orchestrato.Prelude.{
  String, ◌==◌, Bool, true, false, not, ◌&&◌, Option, none, some, List, [], ◌∷◌, Dict, lookup,
  insert, ◌++◌, ◌⊎◌, lookup-insert, subst, str_eq_comm, is_nil, all, ◌≡◌, refl, sym, ◌∙◌, ap,
  eq_iff, eq_refl, false≢true, some_injective, Bool-cases, inl, inr, if_cases, if◌then◌else◌,
}
use go_agent_llm_orchestrato.Arbitrator.{
  CritiqueItem, Resolution, is_valid_item, is_valid_resolution, checked, or_dummy, from_answer,
  by_key, is_resolved, failure_text, failures, blocker_failures,
}
use go_agent_llm_orchestrato.Arbitrator.Consensus.{
  Confidence, blockers_text, check_off_text, Decision, JsonField, missing, listed, iterable,
  not_iterable, add_text, goes_through, printed, apply_dna_to_confidence, parse_verdict,
  align_confidence, override_status, Staged, Debate, is_offline, run_consensus,
}

module _ {A : Type 0} where
  abbrev pub later : Option A → Option A → Option A
  later none o = o
  later (some x) o = some x

  -- The last element that has the key.
  unfoldable pub last_with : (A → String) → String → List A → Option A
  last_with key k [] = none
  last_with key k (x ∷ xs) = later (last_with key k xs) (if key x == k then some x else none)

  later_assoc : (a b c : Option A) → later (later a b) c ≡ later a (later b c)
  later_assoc none b c = refl
  later_assoc (some x) b c = refl

  later_if :
      (b : Bool) (x : A) (o : Option A)
      → later (if b then some x else none) o ≡ (if b then some x else o)
  later_if true x o = refl
  later_if false x o = refl

  lookup-by_key :
      (key : A → String) (k : String) (xs : List A) (d : Dict A)
      → lookup k (by_key key xs d) ≡ later (last_with key k xs) (lookup k d)
  unfolding by_key last_with
  lookup-by_key key k [] d = refl
  lookup-by_key key k (x ∷ xs) d =
      lookup-by_key key k xs (insert (key x) x d)
      ∙ ap (λ o. later (last_with key k xs) o)
          (lookup-insert (key x) k x d ∙ sym (later_if (key x == k) x (lookup k d)))
      ∙ sym (later_assoc (last_with key k xs) (if key x == k then some x else none) (lookup k d))

  later-none : (o : Option A) → later o none ≡ o
  later-none none = refl
  later-none (some x) = refl

  lookup-nil : (k : String) → lookup {V = A} k [] ≡ none
  unfolding lookup
  lookup-nil k = refl

  lookup-by_key-nil :
      (key : A → String) (k : String) (xs : List A)
      → lookup k (by_key key xs []) ≡ last_with key k xs
  lookup-by_key-nil key k xs =
      lookup-by_key key k xs []
      ∙ ap (later (last_with key k xs)) (lookup-nil k)
      ∙ later-none (last_with key k xs)

abbrev pub id_of : CritiqueItem → String
id_of c = c.id

abbrev pub target_id : Resolution → String
target_id r = r.critique_id

failures-stand :
    (rs : Dict Resolution) (cs : Dict CritiqueItem) (id : String) (c : CritiqueItem)
    → lookup id cs ≡ some c
    → c.severity ≡ "blocker"
    → is_resolved (lookup id rs) ≡ false
    → is_nil (failures rs cs) ≡ false
unfolding failures lookup
failures-stand rs [] id c at blocker open_one = absurd (cc)
failures-stand rs ((j, x) ∷ cs) id c at blocker open_one = elim (Bool-cases (j == id)) [
  | inl e ↦
      let x_is : x ≡ c = some_injective x c (rw e at at) in
      let j_is = (eq_iff j id).0 e in rw (x_is, j_is, blocker, open_one) refl
  | inr e ↦
      if_cases (λ (r : List String). is_nil r ≡ false)
        (x.severity == "blocker" && not (is_resolved (lookup j rs)))
        (failure_text j x ∷ failures rs cs) (failures rs cs) refl
        (failures-stand rs cs id c (rw e at at) blocker open_one)
]

-- A text can be added to what stands under the key.
abbrev pub takes_text : JsonField → Bool
takes_text missing = true
takes_text (listed xs) = true
takes_text iterable = false
takes_text not_iterable = false

add_text-cases :
    (x : String) (f : JsonField)
    → ((takes_text f ≡ true)
        × ((g : JsonField) × ((add_text x f ≡ some g) × (goes_through g ≡ true))))
      ⊎ ((takes_text f ≡ false) × (add_text x f ≡ none))
add_text-cases x missing = inl (refl, (listed (x ∷ []), (refl, refl)))
add_text-cases x (listed xs) = inl (refl, (listed (xs ++ x ∷ []), (refl, refl)))
add_text-cases x iterable = inr (refl, refl)
add_text-cases x not_iterable = inr (refl, refl)

module _ {N : Type 0} (num : Confidence N) where
  abbrev pub takes_both : Decision N → Bool
  takes_both v = takes_text v.conditions && takes_text v.risk_areas

  -- A verdict that is rejected, or none, by a TypeError where a key of the judge's takes no text.
  abbrev pub IsRejection : Bool → Option (Decision N) → Type 0
  IsRejection takes r =
      ((takes ≡ true) × ((v : Decision N) × ((r ≡ some v) × (v.status ≡ "rejected"))))
      ⊎ ((takes ≡ false) × (r ≡ none))

  override_status-IsRejection :
      (failed : List String) (v : Decision N)
      → is_nil failed ≡ false
      → IsRejection (takes_both v) (printed num (override_status num failed v))
  unfolding override_status
  override_status-IsRejection failed v some_failed =
      elim (add_text-cases (blockers_text failed) v.conditions) [
        | inr (no_list, q) ↦ inr (rw no_list refl, rw (some_failed, q) refl)
        | inl (list, (g, (q, through))) ↦ elim (add_text-cases check_off_text v.risk_areas) [
          | inr (no_list, q') ↦ inr (rw (list, no_list) refl, rw (some_failed, q, q') refl)
          | inl (list', (g', (q', through'))) ↦ inl (
            rw (list, list') refl,
            (
              record v { status = "rejected"; conditions = g; risk_areas = g' },
              (rw (some_failed, q, q', through, through') refl, refl),
            ),
          )
        ]
      ]

  takes_both-align_confidence :
      (v : Decision N) → takes_both (align_confidence num v) ≡ takes_both v
  unfolding align_confidence
  takes_both-align_confidence v =
      if_cases (λ (r : Decision N). takes_both r ≡ takes_both v)
        (num.far (apply_dna_to_confidence num v.confidence) v.confidence) _ v refl refl

-- When a language model answers, a plan with a valid answer of critiques is rejected for each blocker
-- whose resolution is missing or not accepted, whatever status the judge gives. Of critiques with one id,
-- and of resolutions for one id, the last counts. Where the judge's conditions or risk areas are neither
-- missing nor lists, the run raises instead, and there is no verdict.
pub run_consensus_rejects :
    {N : Type 0} (num : Confidence N) (without_thoughts : String → String) (plan_id : String)
    (staged : List Staged) (d : Debate N) (id : String) (c : CritiqueItem)
    → is_offline num without_thoughts d ≡ false
    → last_with id_of id (from_answer is_valid_item d.critiques) ≡ some c
    → c.severity ≡ "blocker"
    → is_resolved (last_with target_id id (from_answer is_valid_resolution d.resolutions)) ≡ false
    → IsRejection num
        (takes_both num (parse_verdict num plan_id d.judge d.verdict))
        (run_consensus num without_thoughts plan_id staged d)
unfolding run_consensus blocker_failures
run_consensus_rejects num without_thoughts plan_id staged d id c online at blocker open_one =
    let cs = from_answer is_valid_item d.critiques in
    let rs = from_answer is_valid_resolution d.resolutions in
    let stand =
      failures-stand (by_key target_id rs []) (by_key id_of cs []) id c
        (lookup-by_key-nil id_of id cs ∙ at) blocker
        (rw (lookup-by_key-nil target_id id rs) open_one) in
    let v = parse_verdict num plan_id d.judge d.verdict in
    rw (online, sym (takes_both-align_confidence num v))
      (override_status-IsRejection num (blocker_failures cs rs) (align_confidence num v) stand)

-- Each key stands once.
abbrev KeysApart : {A : Type 0} → Dict A → Type 0
KeysApart [] = Unit
KeysApart ((k, x) ∷ d) = (lookup k d ≡ none) × KeysApart d

KeysApart-insert :
    {A : Type 0} (k : String) (x : A) (d : Dict A) → KeysApart d → KeysApart (insert k x d)
unfolding insert
KeysApart-insert k x [] h = (lookup-nil k, tt)
KeysApart-insert k x ((i, y) ∷ d) (apart, h) = elim (Bool-cases (i == k)) [
  | inl e ↦ rw e (apart, h)
  | inr e ↦ rw e (rw (lookup-insert k i x d, str_eq_comm k i, e) apart, KeysApart-insert k x d h)
]

KeysApart-by_key :
    {A : Type 0} (key : A → String) (xs : List A) (d : Dict A)
    → KeysApart d
    → KeysApart (by_key key xs d)
unfolding by_key
KeysApart-by_key key [] d h = h
KeysApart-by_key key (x ∷ xs) d h =
    KeysApart-by_key key xs (insert (key x) x d) (KeysApart-insert (key x) x d h)

-- A blocker that no accepted resolution takes away.
abbrev pub stands : Option Resolution → CritiqueItem → Bool
stands r c = c.severity == "blocker" && not (is_resolved r)

failures-none :
    (rs : Dict Resolution) (cs : Dict CritiqueItem)
    → KeysApart cs
    → ((id : String) (c : CritiqueItem) → lookup id cs ≡ some c → stands (lookup id rs) c ≡ false)
    → failures rs cs ≡ []
unfolding failures lookup
failures-none rs [] apart h = refl
failures-none rs ((k, x) ∷ cs) (once, apart) h =
    let first = h k x (rw (eq_refl k) refl) in
    let rest = failures-none rs cs apart (λ id c at. h id c (elsewhere id c at)) in
    rw (first, rest) refl
  where
    elsewhere :
        (id : String) (c : CritiqueItem) → lookup id cs ≡ some c → lookup id ((k, x) ∷ cs) ≡ some c
    elsewhere id c at = elim (Bool-cases (k == id)) [
      | inl e ↦
          let no_entry = subst (λ j. lookup j cs ≡ none) ((eq_iff k id).0 e) once in absurd (cc)
      | inr e ↦ rw e at
    ]

-- When a language model answers, only the last critique of each id counts: if none of these is a
-- blocker without an accepted resolution, the verdict is the judge's own, or there is none where
-- the judge's lists cannot be gone through, whatever blockers stand before them under the same ids.
pub run_consensus_overlooks :
    {N : Type 0} (num : Confidence N) (without_thoughts : String → String) (plan_id : String)
    (staged : List Staged) (d : Debate N)
    → is_offline num without_thoughts d ≡ false
    → ((id : String) (c : CritiqueItem)
        → last_with id_of id (from_answer is_valid_item d.critiques) ≡ some c
        → stands (last_with target_id id (from_answer is_valid_resolution d.resolutions)) c ≡ false)
    → run_consensus num without_thoughts plan_id staged d
      ≡ printed num (some (align_confidence num (parse_verdict num plan_id d.judge d.verdict)))
unfolding run_consensus override_status blocker_failures
run_consensus_overlooks num without_thoughts plan_id staged d online mild =
    let cs = from_answer is_valid_item d.critiques in
    let rs = from_answer is_valid_resolution d.resolutions in
    let void =
      failures-none (by_key target_id rs []) (by_key id_of cs []) (KeysApart-by_key id_of cs [] tt)
        (λ id c at.
          rw (lookup-by_key-nil target_id id rs)
            (mild id c (sym (lookup-by_key-nil id_of id cs) ∙ at))) in
    rw (online, void) refl

checked-invalid :
    {A : Type 0} (ok : A → Bool) (xs : List A) → all ok xs ≡ false → checked ok xs ≡ none
unfolding checked
checked-invalid ok [] h = absurd (false≢true (sym h))
checked-invalid ok (x ∷ xs) h = elim (Bool-cases (ok x)) [
  | inl e ↦ rw (e, checked-invalid ok xs (rw e at h)) refl
  | inr e ↦ rw e refl
]

from_answer-invalid :
    {A : Type 0} (ok : A → Bool) (xs : List A) → all ok xs ≡ false → from_answer ok (some xs) ≡ []
unfolding from_answer
from_answer-invalid ok xs h = ap or_dummy (checked-invalid ok xs h)

failures-nil : (rs : Dict Resolution) → failures rs [] ≡ []
unfolding failures
failures-nil rs = refl

blocker_failures-nil : (rs : List Resolution) → blocker_failures [] rs ≡ []
unfolding blocker_failures by_key
blocker_failures-nil rs = failures-nil (by_key target_id rs [])

-- When a language model answers, one critique that is not valid, an empty description for one,
-- makes all critiques of the answer void: the verdict is then the judge's, or there is none where
-- the judge's lists cannot be gone through, whatever blockers there were and however they were
-- resolved.
pub run_consensus_invalid :
    {N : Type 0} (num : Confidence N) (without_thoughts : String → String) (plan_id : String)
    (staged : List Staged) (d : Debate N) (cs : List CritiqueItem)
    → is_offline num without_thoughts d ≡ false
    → d.critiques ≡ some cs
    → all is_valid_item cs ≡ false
    → run_consensus num without_thoughts plan_id staged d
      ≡ printed num (some (align_confidence num (parse_verdict num plan_id d.judge d.verdict)))
unfolding run_consensus override_status
run_consensus_invalid num without_thoughts plan_id staged d cs online answer invalid =
    let rs = from_answer is_valid_resolution d.resolutions in
    let void =
      ap (λ o. blocker_failures (from_answer is_valid_item o) rs) answer
      ∙ ap (λ x. blocker_failures x rs) (from_answer-invalid is_valid_item cs invalid)
      ∙ blocker_failures-nil rs in
    rw (online, void) refl
