-- ===== src/Waves/Samples.antt =====
-- A plan with a cycle at its end.
use go_agent_llm_orchestrato.Prelude.{String, true, ◌≡◌, refl, some, [], ◌∷◌}
use go_agent_llm_orchestrato.Waves.{Edges, Waves, nodes_of, get_execution_waves}
use go_agent_llm_orchestrato.Waves.Start.{IsPlanned, get_execution_waves-IsPlanned}
use go_agent_llm_orchestrato.Prelude.{lookup, insert}
use go_agent_llm_orchestrato.Prelude.Words.{replace}
use go_agent_llm_orchestrato.Waves.Dispatcher.{
  State, completed_tasks, sources, all_done, still_waiting, run_jit_dispatcher,
}
use go_agent_llm_orchestrato.Waves.Waiting.{run_jit_dispatcher_waits}
use go_agent_llm_orchestrato.Prelude.{remove}

abbrev plan : Edges
plan = ("a", "b") ∷ ("a", "c") ∷ ("b", "d") ∷ ("c", "d") ∷ ("d", "e") ∷ ("e", "f") ∷ ("f", "e") ∷ []

waves :
    get_execution_waves (nodes_of plan []) plan
    ≡ some (("a" ∷ []) ∷ ("b" ∷ "c" ∷ []) ∷ ("d" ∷ []) ∷ [])
unfolding get_execution_waves nodes_of remove
waves = refl

get_execution_waves-IsPlanned_example :
    (ws : Waves) × ((get_execution_waves (nodes_of plan []) plan ≡ some ws) × IsPlanned plan ws)
get_execution_waves-IsPlanned_example = get_execution_waves-IsPlanned plan

abbrev no_session : String → String
no_session n = "s1"

-- Two nodes in order; and the same plan with a name that has "task_" in it.
dispatched :
    (run_jit_dispatcher [] no_session ("a" ∷ "b" ∷ []) (("a", "b") ∷ []) (λ n. true) 3 []
      ≡ all_done (("task_a", "completed") ∷ ("task_b", "completed") ∷ []))
    × (run_jit_dispatcher [] no_session
          ("task_a" ∷ "b" ∷ [])
          (("task_a", "b") ∷ [])
          (λ n. true)
          3
          []
        ≡ still_waiting (("task_task_a", "completed") ∷ ("task_b", "pending") ∷ []))
unfolding run_jit_dispatcher lookup insert
dispatched = (refl, refl)

run_jit_dispatcher_waits_example :
    (s : State) × (run_jit_dispatcher [] no_session
        ("task_a" ∷ "b" ∷ [])
        (("task_a", "b") ∷ [])
        (λ n. true)
        9
        []
      ≡ still_waiting s)
unfolding replace sources completed_tasks
run_jit_dispatcher_waits_example =
    run_jit_dispatcher_waits [] no_session ("task_a" ∷ "b" ∷ []) (("task_a", "b") ∷ []) (λ n. true)
      "task_a" "b" 9 [] (λ n. refl) (λ n. refl) refl refl (refl, (refl, tt)) refl
