-- ===== src/Squad.antt =====
-- The hierarchy of agents and what its roles may do: HierarchyGraph of
-- .agent/scripts/orchestration/squad_schemas.py, and ToolSandbox, check_output_guardrails and
-- _find_agent_by_keyword of squad_orchestrator.py.
pub mod Plan
pub mod Integrity
pub mod Delegates
pub mod Healing
pub mod Repair
mod Samples
use go_agent_llm_orchestrato.Prelude.{
  ℕ, zero, suc, ◌+◌, String, ◌==◌, Bool, true, false, not, ◌&&◌, Option, none, some, is_some, List,
  [], ◌∷◌, Dict, lookup, insert, keys, length, any, contains, select, if◌then◌else◌,
}
use go_agent_llm_orchestrato.Prelude.Words.{has_part}

pub record AgentNode : Type 0 where
  pub name : String
  pub description : String
  pub reports_to : Option String
  pub delegates_to : List String
  pub domains : List String
  pub tools : List String

abbrev pub Agents : Type 0
Agents = Dict AgentNode

-- The two ValueErrors, with the names in them.
pub data Refusal : Type 0 where
  unknown_delegate : String → String → Refusal
  cycle : String → String → Refusal

pub data Color : Type 0 where
  white gray black : Color

abbrev pub Colors : Type 0
Colors = Dict Color

-- How a search ends.
pub data Searched : Type 0 where
  raised : Refusal → Searched
  colored : Colors → Searched
  out_of_fuel : Searched

abbrev pub go_on : Searched → (Colors → Searched) → Searched
go_on (raised r) next = raised r
go_on (colored c) next = next c
go_on out_of_fuel next = out_of_fuel

-- if color.get(neighbor) == GRAY: raise …; if color.get(neighbor) == WHITE: _dfs(neighbor)
abbrev pub on_color : Option Color → Searched → Searched → Searched → Searched
on_color none refused below next = next
on_color (some white) refused below next = below
on_color (some gray) refused below next = refused
on_color (some black) refused below next = next

unfoldable pub visit_all : (Colors → String → Searched) → String → List String → Colors → Searched
visit_all call name [] colors = colored colors
visit_all call name (d ∷ ds) colors =
    let next = visit_all call name ds colors in
    let below = go_on (call colors d) (visit_all call name ds) in
    on_color (lookup d colors) (raised (cycle name d)) below next

-- color[node_name] = BLACK after the loop
abbrev pub blacken : String → Searched → Searched
blacken name (raised r) = raised r
blacken name (colored c) = colored (insert name black c)
blacken name out_of_fuel = out_of_fuel

abbrev pub delegates_of : Option AgentNode → List String
delegates_of none = []
delegates_of (some n) = n.delegates_to

unfoldable pub visit : ℕ → Agents → Colors → String → Searched
unfolding visit_all
visit zero nodes colors name = out_of_fuel
visit (suc fuel) nodes colors name =
    let delegates = delegates_of (lookup name nodes) in
    blacken name (visit_all (visit fuel nodes) name delegates (insert name gray colors))

-- {n: WHITE for n in self.nodes}
abbrev pub all_white : Agents → Colors
all_white [] = []
all_white ((name, n) ∷ nodes) = (name, white) ∷ all_white nodes

-- for name in list(self.nodes): if color[name] == WHITE: _dfs(name)
unfoldable pub visit_names : ℕ → Agents → List String → Colors → Searched
unfolding visit
visit_names fuel nodes [] colors = colored colors
visit_names fuel nodes (name ∷ names) colors =
    let next = visit_names fuel nodes names colors in
    let below = go_on (visit fuel nodes colors name) (visit_names fuel nodes names) in
    on_color (lookup name colors) next below next

-- The first delegate that is no agent.
unfoldable pub first_unknown : Agents → List String → Option String
first_unknown nodes [] = none
first_unknown nodes (d ∷ ds) =
    let rest = first_unknown nodes ds in if is_some (lookup d nodes) then rest else some d

abbrev pub or_unknown : String → Option String → Option Refusal → Option Refusal
or_unknown name none rest = rest
or_unknown name (some d) rest = some (unknown_delegate name d)

-- The first loop of validate_integrity, over the entries `es` of the graph.
unfoldable pub unknown_delegates : Agents → Agents → Option Refusal
unfolding first_unknown
unknown_delegates nodes [] = none
unknown_delegates nodes ((name, n) ∷ es) =
    or_unknown name (first_unknown nodes n.delegates_to) (unknown_delegates nodes es)

abbrev pub or_search : Option Refusal → Searched → Searched
or_search none s = s
or_search (some r) s = raised r

-- A search is at most as deep as there are agents.
unfoldable pub validate_integrity : Agents → Searched
unfolding unknown_delegates visit_names
validate_integrity nodes =
    or_search (unknown_delegates nodes nodes)
      (visit_names (length nodes + 1) nodes (keys nodes) (all_white nodes))

-- {n.name: n for n in nodes}
unfoldable pub graph_from : List AgentNode → Agents → Agents
graph_from [] nodes = nodes
graph_from (n ∷ ns) nodes = graph_from ns (insert n.name n nodes)

-- GraphBuilder.build, up to the exception.
unfoldable pub build : List AgentNode → Agents × Searched
unfolding graph_from validate_integrity
build ns = let nodes = graph_from ns [] in (nodes, validate_integrity nodes)

abbrev pub management_roles : List String
management_roles =
    "cto" ∷ "ceo" ∷ "reviewer" ∷ "product-manager" ∷ "product-owner" ∷ "risk-manager"
    ∷ "release-manager" ∷ "wiki-architect" ∷ "documentation-writer" ∷ "analyst" ∷ "backend-lead"
    ∷ "frontend-lead" ∷ "ml-lead" ∷ "platform-lead" ∷ "quality-security-lead" ∷ "data-lead"
    ∷ "trading-lead" ∷ []

abbrev pub forbidden_management_tools : List String
forbidden_management_tools =
    "write_file" ∷ "edit_file" ∷ "create_directory" ∷ "run_command" ∷ "Write" ∷ "Edit" ∷ "Bash" ∷ []

-- ToolSandbox.check: false is the PermissionError.
unfoldable pub check_tool : String → String → Bool
check_tool agent tool =
    not (contains management_roles agent && contains forbidden_management_tools tool)

-- ToolSandbox.filter_tools
unfoldable pub filter_tools : String → List String → List String
filter_tools agent tools =
    if not (contains management_roles agent)
    then tools
    else select (λ t. not (contains forbidden_management_tools t)) tools

-- `has_code` is the search for a block of code.
unfoldable pub check_output_guardrails : (String → Bool) → String → String → Bool × String
check_output_guardrails has_code agent response =
    if not (contains management_roles agent)
    then (true, response)
    else if has_code response
    then (false, response)
    else (true, response)

unfoldable pub first_named : String → List String → Option String
unfolding has_part
first_named keyword [] = none
first_named keyword (n ∷ ns) =
    let rest = first_named keyword ns in if has_part n keyword then some n else rest

abbrev pub domains_of : Option AgentNode → List String
domains_of none = []
domains_of (some n) = n.domains

unfoldable pub first_in_domain : Agents → String → List String → Option String
unfolding has_part
first_in_domain nodes keyword [] = none
first_in_domain nodes keyword (n ∷ ns) =
    let rest = first_in_domain nodes keyword ns in
    if any (λ d. has_part d keyword) (domains_of (lookup n nodes)) then some n else rest

abbrev pub or_second : Option String → Option String → Option String
or_second none o = o
or_second (some n) o = some n

unfoldable pub find_agent_by_keyword : Agents → List String → String → Option String
unfolding first_named first_in_domain
find_agent_by_keyword nodes names keyword =
    or_second (first_named keyword names) (first_in_domain nodes keyword names)
