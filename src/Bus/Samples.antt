-- ===== src/Bus/Samples.antt =====
-- A small bus.
use go_agent_llm_orchestrato.Prelude.{
  ℕ, ◌==◌, ◌≡◌, refl, true, false, none, some, List, [], ◌∷◌, contains, if◌then◌else◌,
}
use go_agent_llm_orchestrato.Bus.{Document, World, push, pull, new_object, valid_types}
use go_agent_llm_orchestrato.Bus.Identity.{
  Action, pushes, deletes, IsUnique, run_actions, run_actions-IsUnique,
}
use go_agent_llm_orchestrato.Bus.Map.{push_unsaved, pull-push}

abbrev world : World ℕ
world = record {
  loads = λ s. none;
  as_text = λ s. 1;
  as_raw = λ s. 2;
  truthy = λ v. true;
  is_mapping = λ v. true;
  has_numbers = λ v. true;
  has_rules = true;
  saves = true;
  now = "now";
}

abbrev bus : Document ℕ
bus =
    (push world "a" "telemetry" "watchdog" "{}" none (record { version = none; objects = none })).0

abbrev actions : List (Action ℕ)
actions =
    pushes world "b" "incident" "oracle" "text" none
    ∷ pushes world "a" "incident" "oracle" "text" none
    ∷ deletes world "a"
    ∷ []

run_actions-IsUnique_example : IsUnique (run_actions actions bus)
unfolding push
run_actions-IsUnique_example = run_actions-IsUnique actions bus (refl, tt)

pull-push_example :
    (contains valid_types "incident" ≡ true)
    × ((pull "b" bus ≡ none)
        × (pull "b" (push world "b" "incident" "oracle" "text" none bus).0 ≡ (
            if "b" == "b"
            then some (new_object world "b" "incident" "oracle" "text" none)
            else pull "b" bus)))
unfolding push
pull-push_example = pull-push world "b" "incident" "oracle" "text" none bus "b" refl refl

push_unsaved_example :
    push (record world { saves = false }) "b" "incident" "oracle" "text" none bus
    ≡ (bus, (push (record world { saves = true }) "b" "incident" "oracle" "text" none bus).1)
push_unsaved_example = push_unsaved world "b" "incident" "oracle" "text" none bus
