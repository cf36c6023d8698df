-- ===== src/Arbor/Effects.antt =====
-- What cmd_merge of arbor_state.py leaves behind, and that the score of the trunk only gets better.
use go_agent_llm_orchestrato.Prelude.{
  String, ◌==◌, Bool, true, false, not, Option, none, some, List, [], ◌∷◌, lookup, lookup-insert,
  ◌≡◌, ◌⊎◌, refl, sym, ◌∙◌, subst, ap, inl, inr, Bool-cases, if_cases, if◌then◌else◌,
}
use go_agent_llm_orchestrato.Arbor.{
  Scalar, null, flag, number, text, json, Numbers, Node, Tree, or_null, meta_get, is_null_value,
  is_minimize, as_number, is_improvement,
}
use go_agent_llm_orchestrato.Arbor.Commands.{found_or, node_not_found, git_failed}
use go_agent_llm_orchestrato.Arbor.Record.{Finder}
use go_agent_llm_orchestrato.Arbor.Merge.{
  MergeArgs, MergeWorld, Repo, Merged, Verdict, refused, accepted, reference, merge_verdict,
  back_to, merge_ended, merged_tree, carry_out, cmd_merge,
}
use go_agent_llm_orchestrato.Arbor.Merging.{
  Passed, merge_verdict-Passed, Effect, unmerged, unrecorded, recorded,
}

module _ {N : Type 0} (num : Numbers N) (find : Finder N) (a : MergeArgs N) (w : MergeWorld)
    (t : Tree N) (repo : Repo) where
  -- The repository after the merge into `target`.
  abbrev merged_repo : String → Repo
  merged_repo target = record {
    current = back_to w target repo;
    merged = (a.source_branch, target) ∷ repo.merged;
  }

  carried :
      (target : String) (score : N) (o : Option (Node N))
      → Passed num find a w t target score
      → lookup a.node_id t.nodes ≡ o
      → Effect num find a w t repo (
          found_or o
            (merge_ended t (some (node_not_found a.node_id)) (merged_repo target))
            (λ n. merge_ended (merged_tree num find a score t n) none (merged_repo target)))
  carried target score none passed e = unrecorded passed e refl refl refl
  carried target score (some n) passed e = recorded passed e refl refl refl

  carry_out-Effect :
      (v : Verdict N)
      → merge_verdict num find a w t ≡ v
      → Effect num find a w t repo (carry_out num find a w t repo v)
  carry_out-Effect (refused r) e = unmerged refl refl
  carry_out-Effect (accepted target score) e =
      let P = λ (m : Merged N). Effect num find a w t repo m in
      if_cases P a.dry_run (merge_ended t none repo) _ (unmerged refl refl) (
        if_cases P (not w.checkout_ok) (merge_ended t (some git_failed) repo) _ (unmerged refl refl)
          (if_cases P (not w.merge_ok)
            (merge_ended t (some git_failed) (record repo { current = back_to w target repo })) _
            (unmerged refl refl)
            (carried target score (lookup a.node_id t.nodes)
              (merge_verdict-Passed num find a w t target score e) refl)))

  -- Each run of cmd_merge leaves tree and merges alone, or it makes one merge, which passed every test:
  -- the target is not protected, the score improves on the reference if that is a number, no file that
  -- git lists as changed is a protected one, and every required output is there. Where git cannot list
  -- the changed files, the test of the protected ones is skipped. The merge is recorded in the tree, at the
  -- node and as the score of the trunk, unless there is no such node.
  pub cmd_merge-Effect : Effect num find a w t repo (cmd_merge num find a w t repo)
  unfolding cmd_merge
  cmd_merge-Effect = carry_out-Effect (merge_verdict num find a w t) refl

module _ {N : Type 0} (num : Numbers N) (find : Finder N) where
  meta_get-merged :
      (a : MergeArgs N) (score : N) (t : Tree N) (n : Node N) (key : String)
      → meta_get (merged_tree num find a score t n) key
        ≡ (if "test_trunk_score" == key then number score else meta_get t key)
  meta_get-merged a score t n key =
      ap or_null (lookup-insert "test_trunk_score" key (number score) t.meta)
      ∙ or_null-if ("test_trunk_score" == key) (lookup key t.meta)
    where
      or_null-if :
          (b : Bool) (o : Option (Scalar N))
          → or_null (if b then some (number score) else o) ≡ (if b then number score else or_null o)
      or_null-if true o = refl
      or_null-if false o = refl

  is_improvement-merged :
      (a : MergeArgs N) (score : N) (t : Tree N) (n : Node N) (new old : N)
      → is_improvement num (merged_tree num find a score t n) new old ≡ is_improvement num t new old
  unfolding is_improvement
  is_improvement-merged a score t n new old =
      ap (λ v. if is_minimize v then num.less new old else num.less old new)
        (meta_get-merged a score t n "metric_direction")

  -- The score of the trunk, where it is a number.
  abbrev pub trunk_score : Tree N → Option N
  trunk_score t = as_number num (meta_get t "test_trunk_score")

  reference-trunk :
      (t : Tree N) (s : N) → trunk_score t ≡ some s → as_number num (reference num find t) ≡ some s
  reference-trunk t s e = at_trunk (meta_get t "test_trunk_score") refl e
    where
      at_trunk :
          (v : Scalar N)
          → meta_get t "test_trunk_score" ≡ v
          → as_number num v ≡ some s
          → as_number num (reference num find t) ≡ some s
      at_trunk null e h = absurd (cc)
      at_trunk (flag b) e h =
          ap (λ v. as_number num (if is_null_value v then meta_get t "test_baseline_score" else v))
            e
          ∙ h
      at_trunk (number x) e h =
          ap (λ v. as_number num (if is_null_value v then meta_get t "test_baseline_score" else v))
            e
          ∙ h
      at_trunk (text x) e h = absurd (cc)
      at_trunk (json x b) e h = absurd (cc)

  -- A number of merges, one after the other.
  unfoldable pub merge_all : List (MergeArgs N × MergeWorld) → Tree N → Repo → Tree N
  unfolding cmd_merge
  merge_all [] t repo = t
  merge_all ((a, w) ∷ runs) t repo =
      let m = cmd_merge num find a w t repo in merge_all runs m.tree m.repo

  module _
      (less_trans : (x y z : N)
        → num.less x y ≡ true
        → num.less y z ≡ true
        → num.less x z ≡ true) where
    is_improvement_trans :
        (t : Tree N) (x y z : N)
        → is_improvement num t x y ≡ true
        → is_improvement num t y z ≡ true
        → is_improvement num t x z ≡ true
    unfolding is_improvement
    is_improvement_trans t x y z h k =
        elim (Bool-cases (is_minimize (meta_get t "metric_direction"))) [
          | inl e ↦ rw e (less_trans x y z (rw e at h) (rw e at k))
          | inr e ↦ rw e (less_trans z y x (rw e at k) (rw e at h))
        ]

    -- `new` is `old` or improves on it.
    abbrev pub NoWorse : Tree N → N → N → Type 0
    NoWorse t new old = (new ≡ old) ⊎ (is_improvement num t new old ≡ true)

    NoWorse-trans : (t : Tree N) (x y z : N) → NoWorse t x y → NoWorse t y z → NoWorse t x z
    NoWorse-trans t x y z (inl e) k = subst (λ v. NoWorse t v z) (sym e) k
    NoWorse-trans t x y z (inr h) (inl e) = inr (subst (λ v. is_improvement num t x v ≡ true) e h)
    NoWorse-trans t x y z (inr h) (inr k) = inr (is_improvement_trans t x y z h k)

    -- A tree with a trunk score that is no worse, and the same direction.
    abbrev pub StaysGood : Tree N → N → Tree N → Type 0
    StaysGood t s t' =
        (s' : N) × (trunk_score t' ≡ some s')
        × NoWorse t s' s
        × ((x y : N) → is_improvement num t' x y ≡ is_improvement num t x y)

    StaysGood-Effect :
        (a : MergeArgs N) (w : MergeWorld) (t : Tree N) (repo : Repo) (m : Merged N) (s : N)
        → trunk_score t ≡ some s
        → Effect num find a w t repo m
        → StaysGood t s m.tree
    StaysGood-Effect a w t repo m s e (unmerged same none_made) =
        subst (λ x. StaysGood t s x) (sym same) (s, e, inl refl, λ x y. refl)
    StaysGood-Effect a w t repo m s e (unrecorded passed missing made same why) =
        subst (λ x. StaysGood t s x) (sym same) (s, e, inl refl, λ x y. refl)
    StaysGood-Effect a w t repo m s e (recorded {target} {score} {n} passed at made is why) =
        subst (λ x. StaysGood t s x) (sym is)
          (
            score,
            ap (λ v. as_number num v) (meta_get-merged a score t n "test_trunk_score"),
            inr (passed.improves s (reference-trunk t s e)),
            is_improvement-merged a score t n,
          )

    -- Where the order of scores is transitive and the trunk has a number for a score, then after any
    -- number of runs of cmd_merge it has one that is the same or improves on the first.
    pub merge_all-NoWorse :
        (runs : List (MergeArgs N × MergeWorld)) (t : Tree N) (repo : Repo) (s : N)
        → trunk_score t ≡ some s
        → (s' : N) × (trunk_score (merge_all runs t repo) ≡ some s') × NoWorse t s' s
    unfolding merge_all
    merge_all-NoWorse [] t repo s e = (s, e, inl refl)
    merge_all-NoWorse ((a, w) ∷ runs) t repo s e =
        let m = cmd_merge num find a w t repo in
        let (s1, e1, better, same) =
          StaysGood-Effect a w t repo m s e (cmd_merge-Effect num find a w t repo) in
        let (s2, e2, more) = merge_all-NoWorse runs m.tree m.repo s1 e1 in
        (s2, e2, NoWorse-trans t s2 s1 s (moved m.tree t same s2 s1 more) better)
      where
        moved :
            (t' t : Tree N)
            → ((x y : N) → is_improvement num t' x y ≡ is_improvement num t x y)
            → (x y : N) → NoWorse t' x y
            → NoWorse t x y
        moved t' t same x y (inl e) = inl e
        moved t' t same x y (inr h) = inr (sym (same x y) ∙ h)
