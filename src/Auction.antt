-- ===== src/Auction.antt =====
-- The choice of an agent for a task, .agent/scripts/orchestration/agent_auctioneer.py.
pub mod Ranking
mod Samples
use Prim.Native.String.{[] as empty_text, ◌∷◌ as cons_char, ◌++◌ as append_text}
use text.Mathlib.Text.{find?}
use go_agent_llm_orchestrato.Prelude.{
  ℕ, ◌+◌, String, ◌==◌, Bool, true, false, not, ◌&&◌, ◌||◌, Option, none, some, is_some, List, [],
  ◌∷◌, ◌++◌, map, any, ltb, if◌then◌else◌,
}

pub record Agent : Type 0 where
  pub id : String
  pub domains : List String
  pub skills : List String
  pub description : String

pub data Indicator : Type 0 where
  cross_repo_override : Indicator
  domain skill identity : String → Indicator

pub record Candidate : Type 0 where
  pub id : String
  pub score : ℕ
  pub indicators : List Indicator
  pub description : String

-- needle in text
abbrev pub occurs : String → String → Bool
occurs needle t = is_some (find? t needle)

-- s.replace("-", " ")
unfoldable pub dashes_to_spaces : String → String
dashes_to_spaces empty_text = ""
dashes_to_spaces (cons_char c s) =
    let rest = dashes_to_spaces s in
    if cons_char c empty_text == "-" then append_text " " rest else cons_char c rest

-- CROSS_REPO_SIGNALS; those that stand there twice are here once
abbrev pub cross_repo_signals : List String
cross_repo_signals =
    "neighboring repos" ∷ "other services" ∷ "compare repos" ∷ "all charts" ∷ "consistency across"
    ∷ "cross-service" ∷ "audit across" ∷ "other repos" ∷ "system-wide" ∷ "other projects"
    ∷ "all services" ∷ "compare other" ∷ "cross-repo" ∷ []

abbrev pub Score : Type 0
Score = ℕ × List Indicator

abbrev pub add_score : Bool → ℕ → Indicator → Score → Score
add_score true n i s = (s.0 + n, s.1 ++ i ∷ [])
add_score false n i s = s

-- A stable sort by score, the highest first: a candidate goes before the first one that is below it.
unfoldable pub place : Candidate → List Candidate → List Candidate
place c [] = c ∷ []
place c (x ∷ xs) = if ltb x.score c.score then c ∷ x ∷ xs else x ∷ place c xs

unfoldable pub sort_from : List Candidate → List Candidate → List Candidate
unfolding place
sort_from [] sorted = sorted
sort_from (c ∷ cs) sorted = sort_from cs (place c sorted)

abbrev pub override : Candidate
override = record {
  id = "orchestrator";
  score = 99;
  indicators = cross_repo_override ∷ [];
  description = "Cross-repo scope requires orchestrator";
}

pub data Assignment : Type 0 where
  assigned_fallback : Assignment
  pending_arena : (candidates : List String) → Assignment
  assigned_via_auction : (id : String) → Assignment

unfoldable pub settle : List Candidate → Assignment
settle [] = assigned_fallback
settle (c ∷ []) = assigned_via_auction c.id
settle (c ∷ d ∷ cs) = pending_arena (map (λ x. x.id) (c ∷ d ∷ cs))

-- str.lower, which follows the tables of Unicode, is a parameter.
module _ (lower : String → String) where
  unfoldable pub is_cross_repo_request : String → Bool
  is_cross_repo_request task = any (λ signal. occurs signal (lower task)) cross_repo_signals

  unfoldable pub score_domains : String → List String → Score → Score
  score_domains t [] s = s
  score_domains t (d ∷ domains) s =
      score_domains t domains (add_score (occurs (lower d) t) 1 (domain d) s)

  unfoldable pub score_skills : String → List String → Score → Score
  score_skills t [] s = s
  score_skills t (k ∷ skills) s =
      score_skills t skills
        (add_score (occurs (lower k) t || occurs (dashes_to_spaces (lower k)) t) 2 (skill k) s)

  unfoldable pub score_agent : String → Agent → Candidate
  unfolding score_domains score_skills
  score_agent t a =
      let s =
        add_score (occurs (lower a.id) t) 3 (identity a.id)
          (score_skills t a.skills (score_domains t a.domains (0, []))) in
      record { id = a.id; score = s.0; indicators = s.1; description = a.description }

  -- `if match_score > 0: candidates.append`
  unfoldable pub scored : String → List Agent → List Candidate
  unfolding score_agent
  scored t [] = []
  scored t (a ∷ agents) =
      let rest = scored t agents in
      if ltb 0 (score_agent t a).score then score_agent t a ∷ rest else rest

  unfoldable pub find_candidates : List Agent → String → List Candidate
  unfolding scored sort_from
  find_candidates agents task =
      if is_cross_repo_request task
      then override ∷ []
      else sort_from (scored (lower task) agents) []

  unfoldable pub run_auction : List Agent → String → Assignment
  unfolding find_candidates settle
  run_auction agents task = settle (find_candidates agents task)
