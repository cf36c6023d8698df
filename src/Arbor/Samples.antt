-- ===== src/Arbor/Samples.antt =====
-- A small idea tree, the commands that make it, and merges into its trunk; scores are natural numbers.
use go_agent_llm_orchestrato.Prelude.{
  ℕ, ◌*◌, String, ◌==◌, true, false, none, some, List, [], ◌∷◌, lookup, insert, is_nil, is_some,
  ltb, eqb, ◌≡◌, refl, arith, if◌then◌else◌,
}
use go_agent_llm_orchestrato.Prelude.Decimal.{decimal, read_number}
use go_agent_llm_orchestrato.Arbor.{Numbers, Node, Tree, default_tree, next_child_id}
use go_agent_llm_orchestrato.Arbor.Commands.{finished, stopped, too_deep, no_improvement, cmd_add}
use go_agent_llm_orchestrato.Arbor.Walks.{cmd_prune, cmd_propagate}
use go_agent_llm_orchestrato.Arbor.Record.{Finder}
use go_agent_llm_orchestrato.Arbor.Meta.{Literals}
use go_agent_llm_orchestrato.Arbor.Check.{tree_faults}
use go_agent_llm_orchestrato.Arbor.Merge.{MergeArgs, MergeWorld, Repo, cmd_merge}
use go_agent_llm_orchestrato.Arbor.Merging.{Effect}
use go_agent_llm_orchestrato.Arbor.Effects.{
  cmd_merge-Effect, trunk_score, NoWorse, merge_all, merge_all-NoWorse,
}
use go_agent_llm_orchestrato.Arbor.Shape.{IsSound}
use go_agent_llm_orchestrato.Arbor.Pruning.{PrunedBelow, cmd_prune-PrunedBelow}
use go_agent_llm_orchestrato.Arbor.Upward.{NotedAbove, cmd_propagate-NotedAbove}
use go_agent_llm_orchestrato.Arbor.Sessions.{
  Command, Session, add, set_meta, run_session, run_session-IsSound, IsSound-default_tree,
  session_without_faults,
}

abbrev numbers : Numbers ℕ
numbers = record {
  less = ltb;
  is_zero = λ n. eqb n 0;
  of_flag = λ b. if b then 1 else 0;
  show = decimal;
}

abbrev finder : Finder ℕ
finder = record {
  objects = λ s. [];
  patterns = read_number ∷ [];
  percent = λ s. none;
  in_unit = λ n. eqb n 1;
  times_hundred = λ n. n * 100;
}

abbrev literals : Literals ℕ
literals = record { lower = λ s. s; as_int = read_number; as_float = λ s. none; loads = λ s. none }

abbrev same_text : String → String
same_text s = s

abbrev repo : Repo
repo = record { current = "work"; merged = [] }

abbrev commands : List (Command ℕ)
commands =
    add "ROOT" "cache the index"
    ∷ add "1" "cache in memory"
    ∷ add "1" "cache on disk"
    ∷ add "ROOT" "drop the index"
    ∷ set_meta ("test_trunk_score=5" ∷ "trunk_branch = trunk" ∷ [])
    ∷ []

abbrev start : Session ℕ
start = record { tree = default_tree "speed" (some 2); repo = repo }

abbrev grown : Tree ℕ
unfolding run_session
grown = (run_session numbers finder literals same_text same_text commands start).tree

IsSound-grown : IsSound grown
unfolding grown
IsSound-grown =
    run_session-IsSound numbers finder literals same_text same_text commands start
      (IsSound-default_tree "speed" (some 2))

session_without_faults_example :
    is_nil
      (tree_faults (run_session numbers finder literals same_text same_text commands start).tree)
    ≡ true
session_without_faults_example =
    session_without_faults numbers finder literals same_text same_text commands "speed" (some 2)
      repo

abbrev node_1 : Node ℕ
node_1 = record {
  id = "1";
  parent_id = some "ROOT";
  children_ids = "1.1" ∷ "1.2" ∷ [];
  depth = 1;
  hypothesis = "cache the index";
  status = "pending";
  score = none;
  insight = none;
  result = none;
  code_ref = none;
  related_work = none;
}

lookup-grown :
    (lookup "1" grown.nodes ≡ some node_1)
    × (is_some (lookup "1.1" grown.nodes) ≡ true)
    × (next_child_id grown "1" node_1 ≡ "1.3")
    × (cmd_add "1.1" "too deep" grown ≡ stopped grown too_deep)
unfolding grown lookup insert next_child_id cmd_add
lookup-grown = (refl, refl, refl, refl)

cmd_prune-PrunedBelow_example :
    (t' : Tree ℕ) × (cmd_prune "1" "no gain" grown ≡ finished t') × PrunedBelow grown t' "1"
unfolding grown lookup insert
cmd_prune-PrunedBelow_example = cmd_prune-PrunedBelow grown "1" "no gain" IsSound-grown refl

cmd_propagate-NotedAbove_example :
    (t' : Tree ℕ) × (cmd_propagate numbers "1.1" "the cache pays" grown ≡ finished t')
    × NotedAbove grown t' "1.1"
cmd_propagate-NotedAbove_example =
    cmd_propagate-NotedAbove numbers grown "1.1" "the cache pays" IsSound-grown (lookup-grown.1)

abbrev merge_of : String → ℕ → MergeArgs ℕ
merge_of node_id score = record {
  node_id = node_id;
  source_branch = "exp/n1";
  target_branch = none;
  test_score = some score;
  protected_paths = "bench/*" ∷ [];
  required_outputs = "results.json" ∷ [];
  dry_run = false;
}

-- Every command of git succeeds, and one file changed.
abbrev world : MergeWorld
world = record {
  detached = true;
  timeout_reads = true;
  eval_code = 0;
  eval_output = "";
  diff = some ("src/cache.py" ∷ []);
  fnmatch = λ path pattern. path == pattern;
  shows = λ output. output == "results.json";
  checkout_ok = true;
  merge_ok = true;
  return_ok = true;
}

cmd_merge-Effect_example :
    Effect numbers finder
      (merge_of "1" 7)
      world
      grown
      repo
      (cmd_merge numbers finder (merge_of "1" 7) world grown repo)
cmd_merge-Effect_example = cmd_merge-Effect numbers finder (merge_of "1" 7) world grown repo

-- The merge is made and recorded; one with no better score is refused.
merges :
    ((cmd_merge numbers finder (merge_of "1" 7) world grown repo).repo.merged
      ≡ ("exp/n1", "trunk") ∷ [])
    × ((cmd_merge numbers finder (merge_of "1" 5) world grown repo).reason ≡ some no_improvement)
unfolding grown cmd_merge lookup insert
merges = (refl, refl)

ltb_trans : (x y z : ℕ) → ltb x y ≡ true → ltb y z ≡ true → ltb x z ≡ true
ltb_trans x y z h k = ground (arith, h, k)

merge_all-NoWorse_example :
    (s : ℕ) × (trunk_score numbers finder (
        merge_all numbers finder
          ((merge_of "1" 7, world) ∷ (merge_of "2" 6, world) ∷ [])
          grown
          repo)
      ≡ some s)
    × NoWorse numbers finder ltb_trans grown s 5
unfolding grown lookup insert
merge_all-NoWorse_example =
    merge_all-NoWorse numbers finder ltb_trans
      ((merge_of "1" 7, world) ∷ (merge_of "2" 6, world) ∷ []) grown repo 5 refl
