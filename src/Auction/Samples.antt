-- ===== src/Auction/Samples.antt =====
-- Two agents and a task. The names are in lower case already.
use go_agent_llm_orchestrato.Prelude.{String, ◌≡◌, refl, List, [], ◌∷◌}
use go_agent_llm_orchestrato.Auction.{
  Agent, is_cross_repo_request, dashes_to_spaces, pending_arena, run_auction,
}

abbrev same : String → String
same s = s

abbrev agents : List Agent
agents =
    record { id = "backend"; domains = "api" ∷ []; skills = "go-patterns" ∷ []; description = "" }
    ∷ record { id = "frontend"; domains = "ui" ∷ []; skills = []; description = "" }
    ∷ []

abbrev task : String
task = "fix the ui of the api with go patterns"

goes_to_arena : run_auction same agents task ≡ pending_arena ("backend" ∷ "frontend" ∷ [])
unfolding run_auction dashes_to_spaces is_cross_repo_request
goes_to_arena = refl
