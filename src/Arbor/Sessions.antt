-- ===== src/Arbor/Sessions.antt =====
-- A session: the commands of arbor_state.py in any order, from the tree that init makes.
use Prim.Native.String.{[] as empty_text}
use go_agent_llm_orchestrato.Prelude.{
  some_injective, ℕ, String, ◌==◌, Bool, true, Option, none, some, List, [], ◌∷◌, Dict, lookup,
  is_nil, ◌≡◌, ◌≢◌, false≢true, refl, subst, inl, inr, eq_iff, Bool-cases, if_cases, if◌then◌else◌,
}
use go_agent_llm_orchestrato.Arbor.{Numbers, Scalar, Node, Tree, default_tree, new_node}
use go_agent_llm_orchestrato.Arbor.Commands.{
  CommandResult, Update, with_node_split, cmd_add, cmd_update,
}
use go_agent_llm_orchestrato.Arbor.Walks.{cmd_prune, cmd_propagate}
use go_agent_llm_orchestrato.Arbor.Record.{Finder, Report, cmd_record, cmd_worktree}
use go_agent_llm_orchestrato.Arbor.Meta.{Literals, Result, ok, err, cmd_meta, cmd_eval, save_meta}
use go_agent_llm_orchestrato.Arbor.Merge.{MergeArgs, MergeWorld, Repo, cmd_merge}
use go_agent_llm_orchestrato.Arbor.Check.{tree_faults}
use go_agent_llm_orchestrato.Arbor.Checking.{IsSound-tree_faults}
use go_agent_llm_orchestrato.Arbor.Shape.{IsPlaced, IsSound}
use go_agent_llm_orchestrato.Arbor.Growth.{cmd_add-IsSound}
use go_agent_llm_orchestrato.Arbor.Keeping.{
  IsSound-put, IsSound-meta, IsSound-cmd_update, IsSound-cmd_prune, IsSound-cmd_propagate,
  IsSound-cmd_record, IsSound-cmd_eval, IsSound-cmd_merge,
}

-- One command with its arguments, and what it finds outside.
pub data Command (N : Type 0) : Type 0 where
  add : String → String → Command N
  update : String → Update N → Command N
  prune : String → String → Command N
  propagate : String → String → Command N
  report : String → Report N → Command N
  set_meta : List String → Command N
  evaluate : String → String → String → ℕ → String → Command N
  worktree : String → Option String → String → Bool → Command N
  merge : MergeArgs N → MergeWorld → Command N

-- What the commands share: the tree in the file, and the repository.
pub record Session (N : Type 0) : Type 0 where
  pub tree : Tree N
  pub repo : Repo

module _ {N : Type 0} (num : Numbers N) (find : Finder N) (lit : Literals N)
    (slug digest : String → String) where
  abbrev pub keep : Session N → CommandResult N → Session N
  keep s o = record s { tree = o.0 }

  unfoldable pub run_command : Command N → Session N → Session N
  unfolding cmd_add cmd_update cmd_prune cmd_propagate cmd_record cmd_meta cmd_eval cmd_worktree
      cmd_merge
  run_command (add p hypothesis) s = keep s (cmd_add p hypothesis s.tree)
  run_command (update k u) s = keep s (cmd_update k u s.tree)
  run_command (prune k reason) s = keep s (cmd_prune k reason s.tree)
  run_command (propagate k summary) s = keep s (cmd_propagate num k summary s.tree)
  run_command (report k a) s = keep s (cmd_record num find k a s.tree)
  run_command (set_meta items) s = keep s (cmd_meta lit items s.tree)
  run_command (evaluate mode cmd split rc output) s =
      keep s (cmd_eval num find mode cmd split rc output s.tree)
  run_command (worktree k branch prefix added) s =
      keep s (cmd_worktree slug digest k branch prefix added s.tree)
  run_command (merge a w) s =
      let m = cmd_merge num find a w s.tree s.repo in record { tree = m.tree; repo = m.repo }

  unfoldable pub run_session : List (Command N) → Session N → Session N
  unfolding run_command
  run_session [] s = s
  run_session (c ∷ cs) s = run_session cs (run_command c s)

  IsSound-cmd_worktree :
      (k : String) (branch : Option String) (prefix : String) (added : Bool) (t : Tree N)
      → IsSound t
      → IsSound (cmd_worktree slug digest k branch prefix added t).0
  unfolding cmd_worktree
  IsSound-cmd_worktree k branch prefix added t sound =
      with_node_split (λ (o : CommandResult N). IsSound o.0) t k _ (λ _. sound)
        (λ n at.
          if_cases (λ (o : CommandResult N). IsSound o.0) added _ _
            (IsSound-put t k n _ sound at
              (record { id = refl; parent = refl; children = refl; depth = refl }) refl)
            sound)

  IsSound-save_meta :
      (t : Tree N) (r : Result (Dict (Scalar N))) → IsSound t → IsSound (save_meta lit t r).0
  IsSound-save_meta t (ok meta) sound = IsSound-meta t meta sound
  IsSound-save_meta t (err r) sound = sound

  IsSound-cmd_meta :
      (items : List String) (t : Tree N) → IsSound t → IsSound (cmd_meta lit items t).0
  unfolding cmd_meta
  IsSound-cmd_meta items t sound = IsSound-save_meta t _ sound

  -- Every command keeps the tree sound, with any arguments and whatever happens outside.
  pub run_command-IsSound :
      (c : Command N) (s : Session N) → IsSound s.tree → IsSound (run_command c s).tree
  unfolding run_command
  run_command-IsSound (add p hypothesis) s sound = cmd_add-IsSound p hypothesis s.tree sound
  run_command-IsSound (update k u) s sound = IsSound-cmd_update k u s.tree sound
  run_command-IsSound (prune k reason) s sound = IsSound-cmd_prune k reason s.tree sound
  run_command-IsSound (propagate k summary) s sound =
      IsSound-cmd_propagate num k summary s.tree sound
  run_command-IsSound (report k a) s sound = IsSound-cmd_record num find k a s.tree sound
  run_command-IsSound (set_meta items) s sound = IsSound-cmd_meta items s.tree sound
  run_command-IsSound (evaluate mode cmd split rc output) s sound =
      IsSound-cmd_eval num find mode cmd split rc output s.tree sound
  run_command-IsSound (worktree k branch prefix added) s sound =
      IsSound-cmd_worktree k branch prefix added s.tree sound
  run_command-IsSound (merge a w) s sound = IsSound-cmd_merge num find a w s.tree s.repo sound

  pub run_session-IsSound :
      (cs : List (Command N)) (s : Session N) → IsSound s.tree → IsSound (run_session cs s).tree
  unfolding run_session
  run_session-IsSound [] s sound = sound
  run_session-IsSound (c ∷ cs) s sound =
      run_session-IsSound cs (run_command c s) (run_command-IsSound c s sound)

lookup-single :
    {N : Type 0} (j k : String) (r n : Node N) → lookup k ((j, r) ∷ []) ≡ some n → (j ≡ k) × (r ≡ n)
unfolding lookup
lookup-single j k r n at = elim (Bool-cases (j == k)) [
  | inl e ↦ ((eq_iff j k).0 e, some_injective r n (rw e at at))
  | inr e ↦ absurd (none≢some (rw e at at))
]
  where
    none≢some : none ≢ some n
    none≢some q = cc

pub IsSound-default_tree :
    {N : Type 0} (task : String) (most : Option ℕ) → IsSound (default_tree {N = N} task most)
unfolding lookup
IsSound-default_tree {N} task most = record {
  version = refl;
  root = refl;
  has_root = refl;
  forest = λ k n at.
      let (key, node) = lookup-single "ROOT" k root n at in
      subst (λ x. IsPlaced nodes x n) key (subst (λ x. IsPlaced nodes "ROOT" x) node placed);
}
  where
    root : Node N
    root =
        new_node "ROOT" none 0 (if task == empty_text then "Research optimization" else task) "done"

    nodes : Dict (Node N)
    nodes = ("ROOT", root) ∷ []

    placed : IsPlaced nodes "ROOT" root
    placed = record {
      own_id = refl;
      known = refl;
      linked = (refl, refl);
      children = λ c mem. absurd (false≢true mem);
    }

-- After any commands on the tree that init makes, with any arguments and whatever happens outside, the
-- check finds no fault in the tree.
pub session_without_faults :
    {N : Type 0} (num : Numbers N) (find : Finder N) (lit : Literals N)
    (slug digest : String → String) (cs : List (Command N)) (task : String) (most : Option ℕ)
    (repo : Repo)
    → is_nil (
        tree_faults
          (run_session num find lit slug digest cs
            (record { tree = default_tree task most; repo = repo })).tree)
      ≡ true
session_without_faults num find lit slug digest cs task most repo =
    IsSound-tree_faults _
      (run_session-IsSound num find lit slug digest cs _ (IsSound-default_tree task most))
