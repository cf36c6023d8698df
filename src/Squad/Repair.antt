-- ===== src/Squad/Repair.antt =====
-- What the repair of squad_orchestrator.py leaves behind: the outcome of the last tests, and the files that
-- the hypotheses changed.
use go_agent_llm_orchestrato.Prelude.{
  ℕ, zero, suc, ◌+◌, ◌≤◌, String, Bool, true, false, not, Option, none, some, List, [], ◌∷◌, lookup,
  insert, ◌≡◌, ◌⊎◌, inl, inr, refl, ◌∙◌, ap, arith, if_split, if_cases,
}
use go_agent_llm_orchestrato.Prelude.Words.{has_part}
use go_agent_llm_orchestrato.DeadEnds.{is_dead_end}
use go_agent_llm_orchestrato.Squad.Healing.{
  Hypothesis, Repo, Measures, World, Place, Tried, Candidate, Healed, patched, patch_text,
  worktree_with, in_worktree, apply_back, run_isolated_worktree, dead, candidate_of, with_candidate,
  try_all, completed, failed, Verified, repaired, attempts_from, verification_loop,
}

module _ {M : Type 0} (w : World M) (ms : Measures M) (bench : Bool) (dev_agent : String) where
  -- The tests of the last attempt were run on the files as they are, and `last` is the last attempt.
  abbrev pub IsVerified : ℕ → Verified M → Type 0
  IsVerified last v =
      ((v.status ≡ completed) × ((w.tests v.attempts v.place.repo ≡ true) × (v.attempts ≤ last)))
      ⊎ ((v.status ≡ failed) × ((w.tests v.attempts v.place.repo ≡ false) × (v.attempts ≡ last)))

  attempts_from-IsVerified :
      (left n last : ℕ) (p : Place)
      → n + left ≡ last
      → IsVerified last (attempts_from w ms bench dev_agent left n p)
  unfolding attempts_from repaired
  attempts_from-IsVerified zero n last p e =
      if_split (IsVerified last) (w.tests n p.repo) _ _
        (λ passed. inl (refl, (passed, omega (arith, e))))
        (λ broken. inr (refl, (broken, omega (arith, e))))
  attempts_from-IsVerified (suc left) n last p e =
      if_split (IsVerified last) (w.tests n p.repo) _ _
        (λ passed. inl (refl, (passed, omega (arith, e))))
        (λ _.
          attempts_from-IsVerified left (n + 1) last (try_all w (w.hypotheses n) p).place
            (omega (arith, e)))

  -- After three attempts at most the state is completed, and the tests have passed on the files as they
  -- are at the end, or it is failed, and the third run of the tests, on these files, has failed.
  pub verification_loop-IsVerified :
      (p : Place) → IsVerified 3 (verification_loop w ms bench dev_agent p)
  unfolding verification_loop
  verification_loop-IsVerified p = attempts_from-IsVerified 2 1 3 p refl

-- The patch of a hypothesis on the files as they are.
abbrev pub patched_in : Hypothesis → Repo → Repo
patched_in h r = put_back (lookup h.file r)
  where
    put_back : Option String → Repo
    put_back none = r
    put_back (some content) = insert h.file (patched h content) r

-- The patches of all the candidates, in their order.
abbrev pub applied : {M : Type 0} → List (Candidate M) → Repo → Repo
applied [] r = r
applied (c ∷ cs) r = applied cs (patched_in c.hypothesis r)

module _ {M : Type 0} (w : World M) where
  -- A patch is in the files exactly if the trial is a success.
  IsFaithful : Hypothesis → Place → Tried → Type 0
  IsFaithful h p t =
      ((t.success ≡ true) × (t.place.repo ≡ patched_in h p.repo))
      ⊎ ((t.success ≡ false) × (t.place.repo ≡ p.repo))

  dead-IsFaithful :
      (h : Hypothesis) (error : String) (p : Place) → IsFaithful h p (dead w h error p)
  unfolding IsFaithful dead
  dead-IsFaithful h error p = inr (refl, refl)

  apply_back-IsFaithful :
      (h : Hypothesis) (p : Place) (o : Option String)
      → lookup h.file p.repo ≡ o
      → IsFaithful h p (apply_back w h p o)
  unfolding IsFaithful apply_back
  apply_back-IsFaithful h p none e = dead-IsFaithful h w.unreadable p
  apply_back-IsFaithful h p (some content) e =
      if_cases (IsFaithful h p) (has_part content h.target) _ _ (inl (refl, rw e refl))
        (dead-IsFaithful h "Target content no longer exists in main file" p)

  in_worktree-IsFaithful :
      (h : Hypothesis) (p : Place) (o : Option String) → IsFaithful h p (in_worktree w h p o)
  unfolding IsFaithful in_worktree
  in_worktree-IsFaithful h p none = inr (refl, refl)
  in_worktree-IsFaithful h p (some content) =
      if_cases (IsFaithful h p) (not (has_part content h.target)) _ _
        (dead-IsFaithful h "Target content not found in file" p)
        (if_cases (IsFaithful h p) (w.passes (worktree_with w h content)) _ _
          (apply_back-IsFaithful h p (lookup h.file p.repo) refl)
          (dead-IsFaithful h (w.output (worktree_with w h content)) p))

  run_isolated_worktree-IsFaithful :
      (h : Hypothesis) (p : Place) → IsFaithful h p (run_isolated_worktree w h p)
  unfolding IsFaithful run_isolated_worktree
  run_isolated_worktree-IsFaithful h p =
      if_cases (IsFaithful h p) (not (w.makes_worktree h)) _ _ (inr (refl, refl))
        (in_worktree-IsFaithful h p (lookup h.file w.head))

  -- What a trial adds to the candidates, it has added to the files.
  with_candidate-applied :
      (h : Hypothesis) (p : Place) (t : Tried) (r : Healed M)
      → r.place.repo ≡ applied r.candidates t.place.repo
      → IsFaithful h p t
      → (with_candidate w t.success (candidate_of w h) r).place.repo
        ≡ applied (with_candidate w t.success (candidate_of w h) r).candidates p.repo
  unfolding IsFaithful
  with_candidate-applied h p t r rest (inl (good, q)) = rw good (rest ∙ ap (applied r.candidates) q)
  with_candidate-applied h p t r rest (inr (bad, q)) = rw bad (rest ∙ ap (applied r.candidates) q)

  -- After the hypotheses of an attempt are tried, the files of the main repository are those from before
  -- with the patches of all candidates, one after another: also of the candidates that are not selected
  -- afterwards. A hypothesis that is skipped, or is no candidate, has changed no file.
  pub repo-try_all :
      (hs : List Hypothesis) (p : Place)
      → (try_all w hs p).place.repo ≡ applied (try_all w hs p).candidates p.repo
  unfolding try_all
  repo-try_all [] p = refl
  repo-try_all (h ∷ hs) p =
      if_cases (λ (r : Healed M). r.place.repo ≡ applied r.candidates p.repo)
        (is_dead_end w.lower h.file (patch_text h) p.registry) (try_all w hs p) _
        (repo-try_all hs p)
        (with_candidate-applied h p (run_isolated_worktree w h p)
          (try_all w hs (run_isolated_worktree w h p).place)
          (repo-try_all hs (run_isolated_worktree w h p).place)
          (run_isolated_worktree-IsFaithful h p))
