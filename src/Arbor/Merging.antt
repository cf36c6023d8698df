-- ===== src/Arbor/Merging.antt =====
-- Whatever cmd_merge of arbor_state.py merges has passed every test.
use Prim.Native.String.{[] as empty_text}
use go_agent_llm_orchestrato.Prelude.{
  String, ◌==◌, Bool, true, false, not, Option, none, some, List, [], ◌∷◌, lookup, contains, ◌≡◌,
  ◌≢◌, refl, subst, inl, inr, arith, All, Bool-cases, Option-cases, if◌then◌else◌,
}
use go_agent_llm_orchestrato.Arbor.{
  Numbers, Node, Tree, protected_branches, as_number, is_improvement,
}
use go_agent_llm_orchestrato.Arbor.Commands.{Reason, node_not_found}
use go_agent_llm_orchestrato.Arbor.Meta.{Result, ok, err}
use go_agent_llm_orchestrato.Arbor.Record.{Finder}
use go_agent_llm_orchestrato.Arbor.Merge.{
  MergeArgs, MergeWorld, Repo, Merged, Verdict, refused, accepted, first_match, or_refuse,
  protected_hit, merge_target, test_score_of, reference, falls_short, path_hit, missing_output,
  judged, merge_verdict, merged_tree,
}

-- No element of the list passes the test that first_match looks for.
first_match-All :
    (p : String → Bool) (xs : List String) → first_match p xs ≡ none → All (λ x. p x ≡ false) xs
first_match-All p [] h = tt
first_match-All p (x ∷ xs) h = elim (Bool-cases (p x)) [
  | inl e ↦ absurd (some≢none (rw e at h))
  | inr e ↦ (e, first_match-All p xs (rw e at h))
]
  where
    some≢none : some x ≢ none
    some≢none e = cc

module _ {N : Type 0} {target : String} {score : N} where
  -- What is accepted after a test has passed the test.
  if_refuse :
      (b : Bool) (r : Reason) (v : Verdict N)
      → (if b then refused r else v) ≡ accepted target score
      → (b ≡ false) × (v ≡ accepted target score)
  if_refuse true r v e = absurd (cc)
  if_refuse false r v e = (refl, e)

  or_refuse-accepted :
      (o : Option String) (f : String → Reason) (v : Verdict N)
      → or_refuse o f v ≡ accepted target score
      → (o ≡ none) × (v ≡ accepted target score)
  or_refuse-accepted none f v e = (refl, e)
  or_refuse-accepted (some x) f v e = absurd (cc)

  accepted_inj :
      (target' : String) (score' : N)
      → accepted target' score' ≡ accepted target score
      → (target' ≡ target) × (score' ≡ score)
  accepted_inj target' score' e = (cc, cc)

module _ {N : Type 0} (num : Numbers N) (find : Finder N) (a : MergeArgs N) (w : MergeWorld)
    (t : Tree N) where
  -- No file matches a protected pattern.
  abbrev pub Untouched : List String → List String → Type 0
  Untouched files patterns =
      All (λ pattern. All (λ path. w.fnmatch path pattern ≡ false) files) patterns

  -- What a merge of the source into `target` at `score` has passed.
  pub record Passed (target : String) (score : N) : Type 0 where
    pub named : target ≡ merge_target a t
    pub unprotected : contains protected_branches target ≡ false
    pub scored : test_score_of num find w t a.test_score ≡ ok score
    pub improves :
        (old : N)
        → as_number num (reference num find t) ≡ some old
        → is_improvement num t score old ≡ true
    -- `none`: git diff fails, and the test is skipped.
    pub untouched : (files : List String) → w.diff ≡ some files → Untouched files a.protected_paths
    pub outputs : All (λ output. w.shows output ≡ true) a.required_outputs

  Untouched-hit :
      (files : List String) (patterns : List String)
      → protected_hit w.fnmatch files patterns ≡ none
      → Untouched files patterns
  Untouched-hit files [] h = tt
  Untouched-hit files (pattern ∷ patterns) h =
      elim (Option-cases (first_match (λ path. w.fnmatch path pattern) files)) [
        | inl clean ↦ (
          first_match-All (λ path. w.fnmatch path pattern) files clean,
          Untouched-hit files patterns (rw clean at h),
        )
        | inr (path, hit) ↦ absurd (some≢none path (rw hit at h))
      ]
    where
      some≢none : (path : String) → some path ≢ none
      some≢none path e = cc

  Untouched-path_hit :
      (files : List String)
      → w.diff ≡ some files
      → path_hit num find a w ≡ none
      → Untouched files a.protected_paths
  Untouched-path_hit files e h = Untouched-hit files a.protected_paths (rw e at h)

  shown :
      (outputs : List String)
      → All (λ o. not (w.shows o) ≡ false) outputs
      → All (λ o. w.shows o ≡ true) outputs
  shown [] h = tt
  shown (o ∷ os) (h, hs) = (ground (arith, h), shown os hs)

  improves_of-falls_short :
      (score : N) (o : Option N)
      → falls_short num find t score o ≡ false
      → (old : N) → o ≡ some old
      → is_improvement num t score old ≡ true
  unfolding falls_short
  improves_of-falls_short score none h old e = absurd (cc)
  improves_of-falls_short score (some x) h old e =
      let same : x ≡ old = cc in
      subst (λ y. is_improvement num t score y ≡ true) same (ground (arith, h))

  judged-Passed :
      (result : Result N) (target : String) (score : N)
      → test_score_of num find w t a.test_score ≡ result
      → (merge_target a t == empty_text) ≡ false
      → contains protected_branches (merge_target a t) ≡ false
      → judged num find a w t (merge_target a t) result ≡ accepted target score
      → Passed target score
  unfolding judged
  judged-Passed (err r) target score scored named unprotected e = absurd (cc)
  judged-Passed (ok s) target score scored named unprotected e =
      let (better, e1) =
        if_refuse (falls_short num find t s (as_number num (reference num find t))) _ _ e in
      let (clean, e2) = or_refuse-accepted (path_hit num find a w) _ _ e1 in
      let (present, e3) = or_refuse-accepted (missing_output num find a w) _ _ e2 in
      let (same_target, same_score) = accepted_inj (merge_target a t) s e3 in
      subst (λ x. Passed x score) same_target
        (subst (λ x. Passed (merge_target a t) x) same_score
          (record {
            named = refl;
            unprotected = unprotected;
            scored = scored;
            improves = improves_of-falls_short s (as_number num (reference num find t)) better;
            untouched = λ files e. Untouched-path_hit files e clean;
            outputs =
                shown a.required_outputs
                  (first_match-All (λ output. not (w.shows output)) a.required_outputs present);
          }))

  pub merge_verdict-Passed :
      (target : String) (score : N)
      → merge_verdict num find a w t ≡ accepted target score
      → Passed target score
  unfolding merge_verdict
  merge_verdict-Passed target score e =
      let (named, e1) = if_refuse (merge_target a t == empty_text) _ _ e in
      let (unprotected, e2) = if_refuse (contains protected_branches (merge_target a t)) _ _ e1 in
      judged-Passed (test_score_of num find w t a.test_score) target score refl named unprotected e2

  -- What a run of cmd_merge did: nothing; a merge that the tree does not record, since the node does not
  -- exist; or a merge that the tree records.
  pub data Effect (repo : Repo) (m : Merged N) : Type 0 where
    unmerged : m.tree ≡ t → m.repo.merged ≡ repo.merged → Effect repo m
    unrecorded :
        {target : String} {score : N}
        → Passed target score
        → lookup a.node_id t.nodes ≡ none
        → m.repo.merged ≡ (a.source_branch, target) ∷ repo.merged
        → m.tree ≡ t
        → m.reason ≡ some (node_not_found a.node_id)
        → Effect repo m
    recorded :
        {target : String} {score : N} {n : Node N}
        → Passed target score
        → lookup a.node_id t.nodes ≡ some n
        → m.repo.merged ≡ (a.source_branch, target) ∷ repo.merged
        → m.tree ≡ merged_tree num find a score t n
        → m.reason ≡ none
        → Effect repo m
