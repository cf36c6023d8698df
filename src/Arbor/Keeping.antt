-- ===== src/Arbor/Keeping.antt =====
-- Each command of arbor_state.py keeps the tree sound.
use Prim.Native.String.{[] as empty_text}
use go_agent_llm_orchestrato.Prelude.{
  ℕ, String, ◌==◌, true, false, Option, none, some, Dict, lookup, insert, contains, or_default, eqb,
  ◌≡◌, refl, sym, subst, inl, inr, arith, Option-cases, if_cases, if_split, if◌then◌else◌,
}
use go_agent_llm_orchestrato.Arbor.{Numbers, Scalar, Node, Tree, statuses}
use go_agent_llm_orchestrato.Arbor.Commands.{
  CommandResult, Update, stopped, finished, put, with_node_split, with_node-missing, node_not_found,
  is_bad_status, changes_any, updated, invalid_status, cmd_update,
}
use go_agent_llm_orchestrato.Arbor.Walks.{cmd_prune, cmd_propagate}
use go_agent_llm_orchestrato.Arbor.Record.{Finder, Report, recorded_node, record_text, cmd_record}
use go_agent_llm_orchestrato.Arbor.Meta.{
  Result, ok, err, cmd_eval, keep_result, keep_score, with_code,
}
use go_agent_llm_orchestrato.Arbor.Merge.{MergeArgs, MergeWorld, Repo, Merged, cmd_merge}
use go_agent_llm_orchestrato.Arbor.Merging.{Effect, unmerged, unrecorded, recorded}
use go_agent_llm_orchestrato.Arbor.Effects.{cmd_merge-Effect}
use go_agent_llm_orchestrato.Arbor.Shape.{
  IsSound, SameShape, IsForest-Similar, Similar-insert, KnownStatuses-insert,
  KnownStatuses-IsForest,
}
use go_agent_llm_orchestrato.Arbor.Pruning.{has_root-Similar, cmd_prune-PrunedBelow}
use go_agent_llm_orchestrato.Arbor.Upward.{cmd_propagate-NotedAbove}

known-status :
    (new : Option String) (old : String)
    → is_bad_status new ≡ false
    → contains statuses old ≡ true
    → contains statuses (or_default new old) ≡ true
known-status none old good known = known
known-status (some s) old good known = ground (arith, good)

module _ {N : Type 0} where
  -- A node is replaced by one of its shape with a known status.
  pub IsSound-put :
      (t : Tree N) (key : String) (n n' : Node N)
      → IsSound t
      → lookup key t.nodes ≡ some n
      → SameShape n n'
      → contains statuses n'.status ≡ true
      → IsSound (put key n' t)
  IsSound-put t key n n' sound at same known =
      let similar = Similar-insert t.nodes key n n' at same in
      record {
        version = sound.version;
        root = sound.root;
        has_root = has_root-Similar t.nodes (insert key n' t.nodes) similar sound.has_root;
        forest =
            IsForest-Similar t.nodes (insert key n' t.nodes) similar
              (KnownStatuses-insert t.nodes key n' (KnownStatuses-IsForest t.nodes sound.forest)
                known)
              sound.forest;
      }

  pub IsSound-meta :
      (t : Tree N) (m : Dict (Scalar N)) → IsSound t → IsSound (record t { meta = m })
  IsSound-meta t m sound = record {
    version = sound.version;
    root = sound.root;
    has_root = sound.has_root;
    forest = sound.forest;
  }

  pub IsSound-cmd_update :
      (node_id : String) (u : Update N) (t : Tree N)
      → IsSound t
      → IsSound (cmd_update node_id u t).0
  unfolding cmd_update updated
  IsSound-cmd_update node_id u t sound =
      with_node_split (λ (o : CommandResult N). IsSound o.0) t node_id
        (λ n.
          if is_bad_status u.status
          then stopped t invalid_status
          else if changes_any u
          then finished (put node_id (updated u n) t)
          else finished t)
        (λ _. sound)
        (λ n at.
          if_split (λ (o : CommandResult N). IsSound o.0) (is_bad_status u.status)
            (stopped t invalid_status) _ (λ _. sound)
            (λ good.
              if_cases (λ (o : CommandResult N). IsSound o.0) (changes_any u)
                (finished (put node_id (updated u n) t)) (finished t)
                (IsSound-put t node_id n (updated u n) sound at
                  (record { id = refl; parent = refl; children = refl; depth = refl })
                  (known-status u.status n.status good ((sound.forest node_id n at).known)))
                sound))

  cmd_prune-missing :
      (node_id reason : String) (t : Tree N)
      → lookup node_id t.nodes ≡ none
      → cmd_prune node_id reason t ≡ stopped t (node_not_found node_id)
  unfolding cmd_prune
  cmd_prune-missing node_id reason t missing = with_node-missing t node_id _ missing

  pub IsSound-cmd_prune :
      (node_id reason : String) (t : Tree N) → IsSound t → IsSound (cmd_prune node_id reason t).0
  IsSound-cmd_prune node_id reason t sound = elim (Option-cases (lookup node_id t.nodes)) [
    | inl missing ↦
        subst (λ (o : CommandResult N). IsSound o.0)
          (sym (cmd_prune-missing node_id reason t missing)) sound
    | inr (n, at) ↦
        let (t', ran, result) = cmd_prune-PrunedBelow t node_id reason sound (rw at refl) in
        subst (λ (o : CommandResult N). IsSound o.0) (sym ran) result.sound
  ]

  module _ (num : Numbers N) where
    propagate-missing :
        (node_id summary : String) (t : Tree N)
        → lookup node_id t.nodes ≡ none
        → cmd_propagate num node_id summary t ≡ stopped t (node_not_found node_id)
    unfolding cmd_propagate
    propagate-missing node_id summary t missing = with_node-missing t node_id _ missing

    pub IsSound-cmd_propagate :
        (node_id summary : String) (t : Tree N)
        → IsSound t
        → IsSound (cmd_propagate num node_id summary t).0
    IsSound-cmd_propagate node_id summary t sound = elim (Option-cases (lookup node_id t.nodes)) [
      | inl missing ↦
          subst (λ (o : CommandResult N). IsSound o.0)
            (sym (propagate-missing node_id summary t missing)) sound
      | inr (n, at) ↦
          let (t', ran, result) =
            cmd_propagate-NotedAbove num t node_id summary sound (rw at refl) in
          subst (λ (o : CommandResult N). IsSound o.0) (sym ran) result.sound
    ]

    module _ (find : Finder N) where
      IsSound-record_text :
          (a : Report N) (node_id : String) (t : Tree N) (n : Node N) (raw : Option String)
          → IsSound t
          → lookup node_id t.nodes ≡ some n
          → IsSound (record_text num find a node_id t n raw).0
      unfolding record_text recorded_node
      IsSound-record_text a node_id t n none sound at = sound
      IsSound-record_text a node_id t n (some raw) sound at =
          let t' = put node_id (recorded_node num find a raw n) t in
          let kept =
            IsSound-put t node_id n (recorded_node num find a raw n) sound at
              (record { id = refl; parent = refl; children = refl; depth = refl }) refl in
          if_cases (λ (o : CommandResult N). IsSound o.0) a.no_propagate (finished t')
            (cmd_propagate num node_id empty_text t') kept
            (IsSound-cmd_propagate node_id empty_text t' kept)

      pub IsSound-cmd_record :
          (node_id : String) (a : Report N) (t : Tree N)
          → IsSound t
          → IsSound (cmd_record num find node_id a t).0
      unfolding cmd_record
      IsSound-cmd_record node_id a t sound =
          with_node_split (λ (o : CommandResult N). IsSound o.0) t node_id _ (λ _. sound)
            (λ n at. IsSound-record_text a node_id t n _ sound at)

      IsSound-keep_result :
          (t : Tree N) (r : Result (Dict (Scalar N))) → IsSound t → IsSound (keep_result num t r).0
      IsSound-keep_result t (ok meta) sound = IsSound-meta t meta sound
      IsSound-keep_result t (err r) sound = sound

      IsSound-keep_score :
          (set_meta cmd split : String) (t : Tree N) (o : Option N)
          → IsSound t
          → IsSound (keep_score num set_meta cmd split t o).0
      unfolding keep_score
      IsSound-keep_score set_meta cmd split t none sound = sound
      IsSound-keep_score set_meta cmd split t (some score) sound =
          if_cases (λ (o : CommandResult N). IsSound o.0) (set_meta == "none") (finished t) _ sound
            (IsSound-keep_result t _ sound)

      IsSound-with_code :
          (rc : ℕ) (o : CommandResult N) → IsSound o.0 → IsSound (with_code num rc o).0
      IsSound-with_code rc (t, some r) sound = sound
      IsSound-with_code rc (t, none) sound =
          if_cases (λ (o : CommandResult N). IsSound o.0) (eqb rc 0) (finished t) _ sound sound

      pub IsSound-cmd_eval :
          (set_meta cmd split : String) (rc : ℕ) (output : String) (t : Tree N)
          → IsSound t
          → IsSound (cmd_eval num find set_meta cmd split rc output t).0
      unfolding cmd_eval
      IsSound-cmd_eval set_meta cmd split rc output t sound =
          IsSound-with_code rc _ (IsSound-keep_score set_meta cmd split t _ sound)

      pub IsSound-cmd_merge :
          (a : MergeArgs N) (w : MergeWorld) (t : Tree N) (repo : Repo)
          → IsSound t
          → IsSound (cmd_merge num find a w t repo).tree
      IsSound-cmd_merge a w t repo sound =
          of_effect (cmd_merge num find a w t repo) (cmd_merge-Effect num find a w t repo)
        where
          of_effect : (m : Merged N) → Effect num find a w t repo m → IsSound m.tree
          of_effect m (unmerged same made) = subst (λ x. IsSound x) (sym same) sound
          of_effect m (unrecorded passed missing made same why) =
              subst (λ x. IsSound x) (sym same) sound
          of_effect m (recorded {n = n} passed at made is why) =
              subst (λ x. IsSound x) (sym is)
                (IsSound-meta _ _ (
                  IsSound-put t a.node_id n _ sound at
                    (record { id = refl; parent = refl; children = refl; depth = refl }) refl))
