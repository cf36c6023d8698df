-- ===== src/Squad/Samples.antt =====
-- A hierarchy of agents.
use go_agent_llm_orchestrato.Prelude.{
  String, List, none, some, is_some, [], ◌∷◌, true, false, ◌≡◌, ◌⊎◌, refl, ◌==◌, ◌&&◌, contains,
  any, lookup, insert,
}
use go_agent_llm_orchestrato.Dag.Graph.{HasCycle}
use go_agent_llm_orchestrato.Squad.{
  AgentNode, Agents, Colors, cycle, unknown_delegate, black, raised, colored, validate_integrity,
  build, filter_tools, find_agent_by_keyword,
}
use go_agent_llm_orchestrato.Prelude.{eqb}
use go_agent_llm_orchestrato.DeadEnds.{written}
use go_agent_llm_orchestrato.Squad.Healing.{
  Hypothesis, Measures, World, Place, try_all, candidate_of, verification_loop,
}
use go_agent_llm_orchestrato.Squad.Repair.{
  IsVerified, verification_loop-IsVerified, applied, repo-try_all,
}
use go_agent_llm_orchestrato.Squad.Plan.{plan_of}
use go_agent_llm_orchestrato.Squad.Delegates.{AllKnown, validate_integrity_decides}

abbrev agent : String → List String → List String → AgentNode
agent name delegates domains = record {
  name = name;
  description = "";
  reports_to = none;
  delegates_to = delegates;
  domains = domains;
  tools = [];
}

abbrev squad : Agents
squad =
    ("cto", agent "cto" ("backend-lead" ∷ []) [])
    ∷ ("backend-lead", agent "backend-lead" ("go-specialist" ∷ "tester" ∷ []) [])
    ∷ ("go-specialist", agent "go-specialist" [] ("go" ∷ []))
    ∷ ("tester", agent "tester" [] ("unit-tests" ∷ []))
    ∷ []

accepted :
    validate_integrity squad
    ≡ colored (
        ("cto", black)
        ∷ ("backend-lead", black)
        ∷ ("go-specialist", black)
        ∷ ("tester", black)
        ∷ [])
unfolding validate_integrity lookup insert
accepted = refl

refused :
    ((build (agent "a" ("b" ∷ []) [] ∷ agent "b" ("a" ∷ []) [] ∷ [])).1 ≡ raised (cycle "b" "a"))
    × ((build (agent "a" ("c" ∷ []) [] ∷ [])).1 ≡ raised (unknown_delegate "a" "c"))
unfolding build lookup insert
refused = (refl, refl)

tools :
    (filter_tools "cto" ("Read" ∷ "Bash" ∷ []) ≡ "Read" ∷ [])
    × (filter_tools "tester" ("Read" ∷ "Bash" ∷ []) ≡ "Read" ∷ "Bash" ∷ [])
unfolding filter_tools
tools = (refl, refl)

keywords :
    (find_agent_by_keyword squad ("tester" ∷ "go-specialist" ∷ []) "go" ≡ some "go-specialist")
    × (find_agent_by_keyword squad ("go-specialist" ∷ "tester" ∷ []) "unit" ≡ some "tester")
unfolding find_agent_by_keyword lookup
keywords = (refl, refl)

validate_integrity_decides_example :
    ((c : Colors) × ((validate_integrity squad ≡ colored c)
        × (AllKnown squad squad × (¬ HasCycle (plan_of squad)))))
    ⊎ (((p : String × String) × ((validate_integrity squad ≡ raised (unknown_delegate p.0 p.1))
            × ((is_some (lookup p.1 squad) ≡ false)
                × (any (λ e. (e.0 == p.0) && contains e.1.delegates_to p.1) squad ≡ true))))
        ⊎ ((p : String × String) × ((validate_integrity squad ≡ raised (cycle p.0 p.1))
              × (AllKnown squad squad × HasCycle (plan_of squad)))))
validate_integrity_decides_example = validate_integrity_decides squad

-- Two repairs of two files, each of which passes by itself.
abbrev good_1 : Hypothesis
good_1 = record { intent = "first"; file = "a.go"; target = "x"; replacement = "y" }

abbrev good_2 : Hypothesis
good_2 = record { intent = "second"; file = "b.go"; target = "u"; replacement = "v" }

abbrev world : World Unit
world = record {
  head = ("a.go", "x") ∷ ("b.go", "u") ∷ [];
  makes_worktree = λ h. true;
  passes = λ repo. true;
  measured = λ repo. tt;
  output = λ repo. "";
  unreadable = "cannot be read";
  writing = written;
  lower = λ s. s;
  hypotheses = λ n. good_1 ∷ good_2 ∷ [];
  tests = λ n repo. eqb n 2;
}

abbrev measures : Measures Unit
measures = record { counted = λ m. false; less = λ m m'. false }

abbrev place : Place
place = record { repo = ("a.go", "x") ∷ ("b.go", "u") ∷ []; registry = none }

healed :
    (verification_loop world measures false "go-specialist" place).place.repo
    ≡ ("a.go", "y") ∷ ("b.go", "v") ∷ []
unfolding verification_loop lookup insert
healed = refl

verification_loop-IsVerified_example :
    IsVerified world measures false "go-specialist" 3
      (verification_loop world measures false "go-specialist" place)
verification_loop-IsVerified_example =
    verification_loop-IsVerified world measures false "go-specialist" place

-- Both patches pass, and both are applied.
both :
    (try_all world (good_1 ∷ good_2 ∷ []) place).candidates
    ≡ candidate_of world good_1 ∷ candidate_of world good_2 ∷ []
unfolding try_all lookup insert
both = refl

repo-try_all_example :
    (try_all world (good_1 ∷ good_2 ∷ []) place).place.repo
    ≡ applied (try_all world (good_1 ∷ good_2 ∷ []) place).candidates place.repo
repo-try_all_example = repo-try_all world (good_1 ∷ good_2 ∷ []) place
