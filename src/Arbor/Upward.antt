-- ===== src/Arbor/Upward.antt =====
-- cmd_propagate of arbor_state.py: the climb ends at the root, and changes the insights of the ancestors,
-- nothing else.
use Prim.Native.String.{[] as empty_text}
use mathlib.Core.Logic.{⊎_elim}
use go_agent_llm_orchestrato.Prelude.{
  ℕ, zero, suc, ◌+◌, ◌<◌, String, ◌==◌, true, false, not, ◌&&◌, Option, none, some, Dict, lookup,
  insert, is_some, ◌≡◌, ◌⊎◌, refl, sym, ◌∙◌, subst, arith, ap, Bool-cases, inl, inr, if◌then◌else◌,
  if_cases,
}
use go_agent_llm_orchestrato.Arbor.{Numbers, Node, Tree}
use go_agent_llm_orchestrato.Arbor.Commands.{
  done, failed, found_or, node_not_found, finished, stopped,
}
use go_agent_llm_orchestrato.Arbor.Walks.{
  noted, save_nodes, summary_of, synthesize_parent_insight, note_insight, climb, cmd_propagate,
}
use go_agent_llm_orchestrato.Arbor.Shape.{Linked, Linked-Similar, IsForest, IsSound, Similar}
use go_agent_llm_orchestrato.Arbor.Pruning.{has_root-Similar}
use go_agent_llm_orchestrato.Arbor.Children.{is_some_value}
use go_agent_llm_orchestrato.Arbor.Noting.{
  Ancestor, parent, further, Ancestor-back, SameButInsight, Noted, Noted_refl, Noted_trans,
  Noted-insert, IsForest-Noted,
}

found_or_total :
    {N : Type 0} (o : Option (Node N)) (n : Node N) (f : Node N → Option String)
    → o ≡ some n
    → ((m : Node N) → (text : String) × (f m ≡ some text))
    → (text : String) × (found_or o none f ≡ some text)
found_or_total none n f e total = absurd (cc)
found_or_total (some m) n f e total = total m

module _ {N : Type 0} (num : Numbers N) (root summary : String) where
  -- At a node that has its own id, there is always a summary.
  summary_exists :
      (d : Dict (Node N)) (p : String) (n : Node N)
      → lookup p d ≡ some n
      → n.id ≡ p
      → (text : String) × (summary_of num root summary n d ≡ some text)
  unfolding summary_of synthesize_parent_insight
  summary_exists d p n at own =
      let found = subst (λ x. lookup x d ≡ some n) (sym own) at in
      if_cases (λ (o : Option String). (text : String) × (o ≡ some text))
        (n.id == root && not (summary == empty_text)) (some summary)
        (synthesize_parent_insight num d n) (summary, refl)
        (found_or_total (lookup n.id d) n _ found (λ m. (_, refl)))

  climb-step :
      (fuel : ℕ) (p text : String) (d : Dict (Node N)) (n : Node N)
      → (p == empty_text) ≡ false
      → lookup p d ≡ some n
      → summary_of num root summary n d ≡ some text
      → climb num root summary (suc fuel) (some p) d
        ≡ climb num root summary fuel n.parent_id (note_insight num p n text d)
  unfolding climb
  climb-step fuel p text d n named at total =
      let rest = λ (m : Node N).
        noted num (summary_of num root summary m d) (failed (node_not_found m.id))
          (λ text. climb num root summary fuel m.parent_id (note_insight num p m text d)) in
      ap (λ b. if b then done d else found_or (lookup p d) (failed (node_not_found p)) rest) named
      ∙ ap (λ o. found_or o (failed (node_not_found p)) rest) at
      ∙ ap
          (λ o.
            noted num o (failed (node_not_found n.id))
              (λ text. climb num root summary fuel n.parent_id (note_insight num p n text d)))
          total

  climb-nameless :
      (fuel : ℕ) (p : String) (d : Dict (Node N))
      → (p == empty_text) ≡ true
      → climb num root summary (suc fuel) (some p) d ≡ done d
  unfolding climb
  climb-nameless fuel p d nameless =
      ap
        (λ b.
          if b
          then done d
          else found_or (lookup p d) (failed (node_not_found p)) (λ (m : Node N).
            noted num (summary_of num root summary m d) (failed (node_not_found m.id))
              (λ text. climb num root summary fuel m.parent_id (note_insight num p m text d))))
        nameless

  climb-top : (fuel : ℕ) (d : Dict (Node N)) → climb num root summary (suc fuel) none d ≡ done d
  unfolding climb
  climb-top fuel d = refl

  Noted-note_insight :
      (d : Dict (Node N)) (p text : String) (n : Node N)
      → IsForest d
      → lookup p d ≡ some n
      → Noted d (note_insight num p n text d) (λ k. k ≡ p)
  Noted-note_insight d p text n forest at =
      if_cases (λ (e : Dict (Node N)). Noted d e (λ k. k ≡ p)) (text == empty_text) d
        (insert p (record n { insight = some text }) d) (Noted_refl d (λ k. k ≡ p) forest)
        (Noted-insert d p text n forest at)

  -- The nodes on the way up from a node whose parent is `up`.
  abbrev Above : Dict (Node N) → Option String → String → Type 0
  Above d up k = (q : String) × (up ≡ some q) × ((k ≡ q) ⊎ Ancestor d k q)

  climb_ends :
      (fuel : ℕ) (nid : String) (depth : ℕ) (up : Option String) (d : Dict (Node N))
      → IsForest d
      → Linked d nid depth up
      → depth < fuel
      → (e : Dict (Node N)) × (climb num root summary fuel up d ≡ done e) × Noted d e (Above d up)
  climb_ends zero nid depth up d forest l low = absurd (omega (arith, low))
  climb_ends (suc fuel) nid depth none d forest l low =
      (d, climb-top fuel d, Noted_refl d (Above d none) forest)
  climb_ends (suc fuel) nid depth (some p) d forest (n, at, mem, deep, j, made) low =
      elim (Bool-cases (p == empty_text)) [
        | inl nameless ↦
            (d, climb-nameless fuel p d nameless, Noted_refl d (Above d (some p)) forest)
        | inr named ↦
            let placed = forest p n at in
            let (text, total) = summary_exists d p n at placed.own_id in
            let first = Noted-note_insight d p text n forest at in
            let d' = note_insight num p n text d in
            let (e, ran, more) =
              climb_ends fuel p n.depth n.parent_id d' (IsForest-Noted forest first)
                (Linked-Similar d d' p n.depth n.parent_id first.similar placed.linked)
                (omega (arith, deep, low)) in
            (
              e,
              climb-step fuel p text d n named at total ∙ ran,
              Noted_trans (λ k same. (p, refl, inl same))
                  (λ k above. (p, refl, inr (higher first.similar above))) first more,
            )
      ]
    where
      higher :
          {e : Dict (Node N)} {k : String} → Similar d e → Above e n.parent_id k → Ancestor d k p
      higher s (q, up, inl same) = rw same (parent at up)
      higher s (q, up, inr a) = further at up (Ancestor-back s a)

module _ {N : Type 0} where
  pub record NotedAbove (t t' : Tree N) (node_id : String) : Type 0 where
    pub sound : IsSound t'
    pub same : (k : String) → SameButInsight (lookup k t.nodes) (lookup k t'.nodes)
    pub outside : (k : String) → ¬ Ancestor t.nodes k node_id → lookup k t'.nodes ≡ lookup k t.nodes

module _ {N : Type 0} (num : Numbers N) where
  cmd_propagate-at :
      (t : Tree N) (node_id summary : String) (n : Node N) (e : Dict (Node N))
      → lookup node_id t.nodes ≡ some n
      → climb num t.root_id summary (n.depth + 1) n.parent_id t.nodes ≡ done e
      → cmd_propagate num node_id summary t ≡ finished (record t { nodes = e })
  unfolding cmd_propagate
  cmd_propagate-at t node_id summary n e at ran =
      ap
        (λ o. found_or o (stopped t (node_not_found node_id)) (λ (m : Node N).
          save_nodes t (climb num t.root_id summary (m.depth + 1) m.parent_id t.nodes)))
        at
      ∙ ap (save_nodes t) ran

  -- cmd_propagate from a node of a sound tree comes to an end; then the tree is still sound, every
  -- node is as it was but for its insight, and a node that is no ancestor of the given one is unchanged.
  pub cmd_propagate-NotedAbove :
      (t : Tree N) (node_id summary : String)
      → IsSound t
      → is_some (lookup node_id t.nodes) ≡ true
      → (t' : Tree N) × (cmd_propagate num node_id summary t ≡ finished t')
        × NotedAbove t t' node_id
  cmd_propagate-NotedAbove t node_id summary sound there =
      let (n, at) = is_some_value (lookup node_id t.nodes) there in
      let (e, ran, noted) =
        climb_ends num t.root_id summary (n.depth + 1) node_id n.depth n.parent_id t.nodes
          sound.forest ((sound.forest node_id n at).linked) (omega arith) in
      (
        record t { nodes = e },
        cmd_propagate-at t node_id summary n e at ran,
        record {
          sound = record {
            version = sound.version;
            root = sound.root;
            has_root = has_root-Similar t.nodes e noted.similar sound.has_root;
            forest = IsForest-Noted sound.forest noted;
          };
          same = noted.same;
          outside = λ k away.
              ⊎_elim (λ p. p) (λ (q, up, way). absurd (away (up_to n q k at up way)))
                (noted.outside k);
        },
      )
    where
      up_to :
          (n : Node N) (q k : String)
          → lookup node_id t.nodes ≡ some n
          → n.parent_id ≡ some q
          → (k ≡ q) ⊎ Ancestor t.nodes k q
          → Ancestor t.nodes k node_id
      up_to n q k at up (inl same) = rw same (parent at up)
      up_to n q k at up (inr a) = further at up a
