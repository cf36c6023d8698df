-- ===== src/Arbor/Walks.antt =====
-- cmd_prune and cmd_propagate of arbor_state.py: the walk down from a node, and the climb to the root.
use Prim.Native.String.{[] as empty_text, ◌++◌ as append_text}
use go_agent_llm_orchestrato.Prelude.{
  ℕ, zero, suc, ◌+◌, max, String, ◌==◌, not, ◌&&◌, Option, none, some, List, [], ◌∷◌, Dict, lookup,
  insert, is_nil, if◌then◌else◌,
}
use go_agent_llm_orchestrato.Prelude.Words.{strip, join}
use go_agent_llm_orchestrato.Arbor.{Numbers, Node, Tree, present}
use go_agent_llm_orchestrato.Arbor.Commands.{
  Walked, done, failed, out_of_fuel, node_not_found, CommandResult, stopped, finished, with_node,
  found_or, text_or_empty, has_text, short,
}

module _ {N : Type 0} where
  abbrev pub walk_then : Walked N → (Dict (Node N) → Walked N) → Walked N
  walk_then (done d) f = f d
  walk_then (failed r) f = failed r

  -- for child in children: walk(child)
  unfoldable pub each :
      (String → Dict (Node N) → Walked N) → List (String × Node N) → Dict (Node N) → Walked N
  each walk_child [] d = done d
  each walk_child ((c, n) ∷ cs) d = walk_then (walk_child c d) (each walk_child cs)

  -- The loop's body on one node; only the node where the walk starts notes the reason.
  unfoldable pub pruned : String → String → String → Node N → Node N
  unfolding strip
  pruned root reason key n = record n {
    status = "pruned";
    insight =
        if key == root && not (reason == empty_text)
        then some (
            strip (
              append_text (text_or_empty n.insight)
                (append_text "\n[Pruned: " (append_text reason "]"))))
        else n.insight;
  }

  unfoldable pub walk : String → String → ℕ → String → Dict (Node N) → Walked N
  unfolding each pruned present
  walk root reason zero key d = failed out_of_fuel
  walk root reason (suc fuel) key d = found_or (lookup key d) (failed (node_not_found key)) (λ n.
      let d' = insert key (pruned root reason key n) d in
      found_or (lookup n.id d') (failed (node_not_found n.id))
        (λ m. each (walk root reason fuel) (present d' m.children_ids) d'))

  -- The largest depth of a node.
  unfoldable pub deepest : Dict (Node N) → ℕ
  deepest [] = 0
  deepest ((k, n) ∷ d) = max n.depth (deepest d)

  abbrev pub save_nodes : Tree N → Walked N → CommandResult N
  save_nodes t (done d) = finished (record t { nodes = d })
  save_nodes t (failed r) = stopped t r

  unfoldable pub cmd_prune : String → String → Tree N → CommandResult N
  unfolding walk deepest
  cmd_prune node_id reason t =
      with_node t node_id
        (λ n. save_nodes t (walk node_id reason (deepest t.nodes + 1) node_id t.nodes))

  module _ (num : Numbers N) where
    abbrev pub score_text : Option N → String
    score_text none = ""
    score_text (some x) = append_text ", score=" (num.show x)

    -- parts, one for each child with an insight
    unfoldable pub findings : List (String × Node N) → List String
    findings [] = []
    findings ((c, n) ∷ cs) =
        let rest = findings cs in
        if has_text n.insight
        then join empty_text (
            "[" ∷ n.id ∷ ", " ∷ n.status ∷ score_text n.score ∷ "] " ∷ text_or_empty n.insight ∷ [])
          ∷ rest
        else rest

    unfoldable pub synthesize_parent_insight : Dict (Node N) → Node N → Option String
    unfolding findings present short
    synthesize_parent_insight d ancestor = found_or (lookup ancestor.id d) none (λ n.
        let parts = findings (present d n.children_ids) in
        some (
          if is_nil parts
          then text_or_empty ancestor.insight
          else short (append_text "Children findings: " (join " | " parts)) 1200))

    -- current["insight"] = summary, if there is one
    abbrev pub note_insight : String → Node N → String → Dict (Node N) → Dict (Node N)
    note_insight key n summary d =
        if summary == empty_text then d else insert key (record n { insight = some summary }) d

    unfoldable pub summary_of : String → String → Node N → Dict (Node N) → Option String
    unfolding synthesize_parent_insight
    summary_of root summary n d =
        if n.id == root && not (summary == empty_text)
        then some summary
        else synthesize_parent_insight d n

    abbrev pub noted : Option String → Walked N → (String → Walked N) → Walked N
    noted none missing f = missing
    noted (some text) missing f = f text

    -- while current.get("parent_id")
    unfoldable pub climb : String → String → ℕ → Option String → Dict (Node N) → Walked N
    unfolding summary_of
    climb root summary zero parent d = failed out_of_fuel
    climb root summary (suc fuel) none d = done d
    climb root summary (suc fuel) (some p) d =
        if p == empty_text
        then done d
        else found_or (lookup p d) (failed (node_not_found p)) (λ n.
          noted (summary_of root summary n d) (failed (node_not_found n.id))
            (λ text. climb root summary fuel n.parent_id (note_insight p n text d)))

    unfoldable pub cmd_propagate : String → String → Tree N → CommandResult N
    unfolding climb
    cmd_propagate node_id summary t =
        with_node t node_id
          (λ n. save_nodes t (climb t.root_id summary (n.depth + 1) n.parent_id t.nodes))
