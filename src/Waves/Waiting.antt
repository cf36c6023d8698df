-- ===== src/Waves/Waiting.antt =====
-- When the JIT dispatcher of wave_dispatcher.py waits for ever: a dependency whose name its list of
-- completed tasks never shows.
use Prim.Native.String.{[] as empty_text, ◌++◌ as append_text}
use go_agent_llm_orchestrato.Prelude.{
  ℕ, zero, suc, String, ◌==◌, Bool, true, false, ◌||◌, not, some, List, [], ◌∷◌, Dict, lookup,
  insert, lookup-insert, contains, any, All, select, is_nil, values, ◌≡◌, ◌⊎◌, refl, sym, ◌∙◌, ap,
  subst, arith, eq_iff, false≢true, Bool-cases, inl, inr, if_cases, if_split,
}
use go_agent_llm_orchestrato.Prelude.Words.{replace}
use go_agent_llm_orchestrato.Waves.{Edges}
use go_agent_llm_orchestrato.Waves.Dispatcher.{
  State, task_key, completed_tasks, sources, is_ready, check_ready_nodes, mark_pending,
  is_recursive, execute_node, execute_all, Ending, all_done, unreadable, still_waiting, turns,
  run_jit_dispatcher,
}
use go_agent_llm_orchestrato.Waves.Listing.{
  task_key_apart, sub_key_apart, unlisted-insert, any-pending, all-missing,
}

module _ (b d : String) where
  -- `b` is not among the completed tasks, and `d` is pending.
  record Waits (s : State) : Type 0 where
    unlisted : contains (completed_tasks s) b ≡ false
    pending : lookup (task_key d) s ≡ some "pending"

  -- The node is listed under another name than `b`.
  abbrev pub Unlisted : String → Type 0
  Unlisted n = (replace "task_" empty_text (task_key n) == b) ≡ false

  lookup-mark_pending :
      (nodes : List String) (s : State)
      → (contains nodes d ≡ true) ⊎ (lookup (task_key d) s ≡ some "pending")
      → lookup (task_key d) (mark_pending nodes s) ≡ some "pending"
  unfolding mark_pending
  lookup-mark_pending [] s (inl mem) = absurd (false≢true mem)
  lookup-mark_pending [] s (inr at) = at
  lookup-mark_pending (n ∷ nodes) s h = elim (Bool-cases (task_key n == task_key d)) [
    | inl e ↦
        lookup-mark_pending nodes (insert (task_key n) "pending" s)
          (inr (rw (lookup-insert (task_key n) (task_key d) "pending" s, e) refl))
    | inr e ↦ lookup-mark_pending nodes (insert (task_key n) "pending" s) (still h e)
  ]
    where
      still :
          (contains (n ∷ nodes) d ≡ true) ⊎ (lookup (task_key d) s ≡ some "pending")
          → (task_key n == task_key d) ≡ false
          → (contains nodes d ≡ true)
            ⊎ (lookup (task_key d) (insert (task_key n) "pending" s) ≡ some "pending")
      still (inl mem) e = elim (Bool-cases (n == d)) [
        | inl same ↦ absurd (
            false≢true
              (sym e ∙ (eq_iff (task_key n) (task_key d)).1 (ap task_key ((eq_iff n d).0 same))))
        | inr other ↦ inl (rw other at mem)
      ]
      still (inr at) e = inr (rw (lookup-insert (task_key n) (task_key d) "pending" s, e) at)

  unlisted-mark_pending :
      (nodes : List String) (s : State)
      → contains (completed_tasks s) b ≡ false
      → contains (completed_tasks (mark_pending nodes s)) b ≡ false
  unfolding mark_pending
  unlisted-mark_pending [] s h = h
  unlisted-mark_pending (n ∷ nodes) s h =
      unlisted-mark_pending nodes (insert (task_key n) "pending" s)
        (unlisted-insert b (task_key n) "pending" s h refl)

  module _ (descriptions : Dict String) (sub_session : String → String)
      (sub : (n : String) → (sub_session n == "completed") ≡ false) where
    Waits-subsession :
        (n : String) (s : State)
        → Waits s
        → Waits (insert (append_text "subsession_" n) (sub_session n) s)
    Waits-subsession n s w = record {
      unlisted =
          unlisted-insert b (append_text "subsession_" n) (sub_session n) s w.unlisted
            (rw (sub n) refl);
      pending =
          rw
            (
              lookup-insert (append_text "subsession_" n) (task_key d) (sub_session n) s,
              sub_key_apart n d,
            )
            w.pending;
    }

    Waits-completed :
        (n : String) (s : State)
        → (n == d) ≡ false
        → Unlisted n
        → Waits s
        → Waits (insert (task_key n) "completed" s)
    Waits-completed n s other name w = record {
      unlisted = unlisted-insert b (task_key n) "completed" s w.unlisted (ground (arith, name));
      pending =
          rw (lookup-insert (task_key n) (task_key d) "completed" s, task_key_apart n d other)
            w.pending;
    }

    Waits-execute_node :
        (n : String) (s : State)
        → (n == d) ≡ false
        → Unlisted n
        → Waits s
        → Waits (execute_node descriptions sub_session n s)
    unfolding execute_node
    Waits-execute_node n s other name w =
        Waits-completed n _ other name
          (if_cases Waits (is_recursive descriptions sub_session n) _ s (Waits-subsession n s w) w)

    Waits-execute_all :
        (ns : List String) (s : State)
        → All (λ n. ((n == d) ≡ false) × Unlisted n) ns
        → Waits s
        → Waits (execute_all descriptions sub_session ns s)
    unfolding execute_all
    Waits-execute_all [] s h w = w
    Waits-execute_all (n ∷ ns) s ((other, name), h) w =
        Waits-execute_all ns (execute_node descriptions sub_session n s) h
          (Waits-execute_node n s other name w)

    module _ (nodes : List String) (edges : Edges) (readable : ℕ → Bool)
        (on : (n : ℕ) → readable n ≡ true) (edge : contains (sources d edges) b ≡ true) where
      not_ready : (s : State) → Waits s → is_ready edges s d ≡ false
      not_ready s w =
          let open_source =
            all-missing (contains (completed_tasks s)) b (sources d edges) edge w.unlisted in
          ground (arith, open_source)

      other_node : (s : State) (n : String) → Waits s → is_ready edges s n ≡ true → (n == d) ≡ false
      other_node s n w ready = elim (Bool-cases (n == d)) [
        | inl same ↦
            let at_d = subst (λ x. is_ready edges s x ≡ true) ((eq_iff n d).0 same) ready in
            absurd (false≢true (sym (not_ready s w) ∙ at_d))
        | inr other ↦ other
      ]

      ready-All :
          (s : State) (ns : List String)
          → Waits s
          → All Unlisted ns
          → All (λ n. ((n == d) ≡ false) × Unlisted n) (select (is_ready edges s) ns)
      ready-All s [] w h = tt
      ready-All s (n ∷ ns) w (name, h) =
          let rest = ready-All s ns w h in
          if_split (All (λ n. ((n == d) ≡ false) × Unlisted n)) (is_ready edges s n)
            (n ∷ select (is_ready edges s) ns) (select (is_ready edges s) ns)
            (λ ready. ((other_node s n w ready, name), rest)) (λ _. rest)

      turns-still_waiting :
          All Unlisted nodes
          → (fuel n : ℕ) (s : State) → Waits s
          → (s' : State) × (turns descriptions sub_session nodes edges readable fuel n s
              ≡ still_waiting s')
      unfolding turns check_ready_nodes
      turns-still_waiting names zero n s w = (s, refl)
      turns-still_waiting names (suc fuel) n s w =
          let P = λ (e : Ending). (s' : State) × (e ≡ still_waiting s') in
          let ready = check_ready_nodes nodes edges s in
          let held = any-pending (task_key d) s w.pending in
          if_split P (not (readable n)) (unreadable s) _
            (λ off. absurd (false≢true (rw (on n) at off)))
            (λ _.
              if_cases P (is_nil ready) _ _
                (if_split P
                  (any (λ v. v == "running") (values s) || any (λ v. v == "pending") (values s)) _
                  (all_done s) (λ _. turns-still_waiting names fuel (suc n) s w)
                  (λ none_left. absurd (false≢true (ground (arith, none_left, held)))))
                (turns-still_waiting names fuel (suc n)
                  (execute_all descriptions sub_session ready s)
                  (Waits-execute_all ready s (ready-All s nodes w names) w)))

-- A plan in which the node `d` depends on `b`, and each node is listed as completed under another name
-- than `b`, since every "task_" is taken out of its key: if `b` is not listed at the start, no id of a new
-- session is "completed" and the state can always be read, the JIT dispatcher never comes to an end,
-- however many turns it makes.
pub run_jit_dispatcher_waits :
    (descriptions : Dict String) (sub_session : String → String) (nodes : List String)
    (edges : Edges) (readable : ℕ → Bool) (b d : String) (fuel : ℕ) (s : State)
    → ((n : String) → (sub_session n == "completed") ≡ false)
    → ((n : ℕ) → readable n ≡ true)
    → contains (sources d edges) b ≡ true
    → contains nodes d ≡ true
    → All (Unlisted b d) nodes
    → contains (completed_tasks s) b ≡ false
    → (s' : State) × (run_jit_dispatcher descriptions sub_session nodes edges readable fuel s
        ≡ still_waiting s')
unfolding run_jit_dispatcher
run_jit_dispatcher_waits descriptions sub_session nodes edges readable b d fuel s sub on edge mem
      names fresh =
    turns-still_waiting b d descriptions sub_session sub nodes edges readable on edge names fuel 0
      (mark_pending nodes s)
      (record {
        unlisted = unlisted-mark_pending b d nodes s fresh;
        pending = lookup-mark_pending b d nodes s (inl mem);
      })
