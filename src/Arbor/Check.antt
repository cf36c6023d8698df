-- ===== src/Arbor/Check.antt =====
-- cmd_check of arbor_state.py: the faults of the tree, and the artifacts that are asked for.
use go_agent_llm_orchestrato.Prelude.{
  String, ◌==◌, Bool, not, ◌&&◌, ◌||◌, Option, none, some, List, [], ◌∷◌, ◌++◌, Dict, keys, lookup,
  contains, is_some, is_nil, any, eqb, if◌then◌else◌,
}
use go_agent_llm_orchestrato.Arbor.{Node, Tree, statuses, version_number}

pub data Fault : Type 0 where
  bad_version : Fault
  no_root : Fault
  id_mismatch : String → Fault
  bad_status : String → Fault
  missing_parent : String → Fault
  not_listed : String → Fault
  missing_file : String → Fault
  missing_experiments : Fault
  missing_in : String → String → Fault

-- if test: errors.append(fault)
abbrev pub fault_if : Bool → Fault → List Fault
fault_if test fault = if test then fault ∷ [] else []

module _ {N : Type 0} where
  abbrev pub parent_faults : Dict (Node N) → String → Option String → List Fault
  parent_faults d nid none = []
  parent_faults d nid (some p) = listing (lookup p d)
    where
      listing : Option (Node N) → List Fault
      listing none = missing_parent nid ∷ []
      listing (some m) = fault_if (not (contains m.children_ids nid)) (not_listed nid)

  abbrev pub entry_faults : Dict (Node N) → String → Option (Node N) → List Fault
  entry_faults d nid none = []
  entry_faults d nid (some n) =
      fault_if (not (n.id == nid)) (id_mismatch nid)
      ++ fault_if (not (contains statuses n.status)) (bad_status nid)
      ++ parent_faults d nid n.parent_id

  -- for nid, n in nodes.items(): the keys, each with its entry
  unfoldable pub nodes_faults : Dict (Node N) → List String → List Fault
  nodes_faults d [] = []
  nodes_faults d (nid ∷ nids) = entry_faults d nid (lookup nid d) ++ nodes_faults d nids

  unfoldable pub tree_faults : Tree N → List Fault
  unfolding nodes_faults
  tree_faults t =
      fault_if (not (eqb t.version version_number)) bad_version
      ++ fault_if (not (is_some (lookup t.root_id t.nodes))) no_root
      ++ nodes_faults t.nodes (keys t.nodes)

-- What the options of the command ask for.
pub record Demands : Type 0 where
  pub require_report : Bool
  pub require_events : Bool
  pub require_run_stats : Bool
  pub require_experiment : Bool
  pub require_executor_prompt : Bool
  pub strict_artifacts : Bool

pub record Experiment : Type 0 where
  pub name : String
  pub has_report : Bool
  pub has_metrics : Bool
  pub has_prompt : Bool

-- What stands in the session's directory; its experiments are sorted by name.
pub record Artifacts : Type 0 where
  pub tree_json : Bool
  pub tree_md : Bool
  pub report : Bool
  pub events : Bool
  pub run_stats : Bool
  pub experiments : List Experiment

abbrev pub file_faults : Demands → Artifacts → List Fault
file_faults a s =
    fault_if (not s.tree_json) (missing_file "idea_tree.json")
    ++ fault_if (not s.tree_md) (missing_file "idea_tree.md")
    ++ fault_if ((a.require_report || a.strict_artifacts) && not s.report)
        (missing_file "REPORT.md")
    ++ fault_if ((a.require_events || a.strict_artifacts) && not s.events)
        (missing_file "events.jsonl")
    ++ fault_if ((a.require_run_stats || a.strict_artifacts) && not s.run_stats)
        (missing_file "run_stats.json")

unfoldable pub experiments_faults : Demands → List Experiment → List Fault
experiments_faults a [] = []
experiments_faults a (x ∷ xs) =
    fault_if (not x.has_report) (missing_in x.name "report.md")
    ++ fault_if (not x.has_metrics) (missing_in x.name "metrics.json")
    ++ fault_if ((a.require_executor_prompt || a.strict_artifacts) && not x.has_prompt)
        (missing_in x.name "executor_prompt.md")
    ++ experiments_faults a xs

unfoldable pub experiment_faults : Demands → List Experiment → List Fault
unfolding experiments_faults
experiment_faults a xs =
    if a.require_experiment || a.strict_artifacts
    then fault_if (is_nil xs) missing_experiments ++ experiments_faults a xs
    else if a.require_executor_prompt
    then fault_if (not (any (λ x. x.has_prompt) xs)) (missing_file "executor_prompt.md")
    else []

-- The faults in the order of the report; the command prints OK when there are none.
unfoldable pub cmd_check : {N : Type 0} → Demands → Artifacts → Tree N → List Fault
unfolding tree_faults experiment_faults
cmd_check a s t = tree_faults t ++ file_faults a s ++ experiment_faults a s.experiments
