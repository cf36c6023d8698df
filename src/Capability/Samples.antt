-- ===== src/Capability/Samples.antt =====
-- A small matrix, and what the gate answers on it.
use go_agent_llm_orchestrato.Prelude.{◌≡◌, refl, ◌↔◌, true, false, none, some, [], ◌∷◌, lookup}
use go_agent_llm_orchestrato.Prelude.Text.{ends_with, drop_last}
use go_agent_llm_orchestrato.Capability.{junk, entry, blank, role, Matrix, check}
use go_agent_llm_orchestrato.Capability.Grants.{Permits, check_iff}

abbrev sample : Matrix
sample = record {
  version = some "1.0.0";
  operations = some (("harness_run", "spawn-harness") ∷ ("modify-tasks", "modify-tasks") ∷ []);
  roles = some (
      ("infra-agent", role (some (junk ∷ entry (some "spawn-harness") (some "task:*") ∷ [])))
      ∷ ("session-agent", role (some []))
      ∷ ("ghost", blank)
      ∷ []);
}

answers :
    (check sample "infra-agent" "harness_run" (some "task:abc") ≡ true)
    × (check sample "infra-agent" "harness_run" none ≡ false)
    × (check sample "infra-agent" "modify-tasks" (some "task:abc") ≡ false)
    × (check sample "session-agent" "harness_run" (some "task:abc") ≡ false)
    × (check sample "ghost" "harness_run" none ≡ false)
unfolding check lookup ends_with drop_last
answers = (refl, refl, refl, refl, refl)

check_iff_example :
    (check sample "infra-agent" "harness_run" (some "task:abc") ≡ true)
    ↔ Permits sample "infra-agent" "harness_run" (some "task:abc")
check_iff_example = check_iff sample "infra-agent" "harness_run" (some "task:abc")
