-- ===== src/DeadEnds/Samples.antt =====
-- Two patches, and a registry.
use go_agent_llm_orchestrato.Prelude.{
  String, true, false, none, [], ◌∷◌, ◌≡◌, refl, ◌&&◌, ◌||◌, ◌==◌,
}
use go_agent_llm_orchestrato.Prelude.Text.{text_after}
use go_agent_llm_orchestrato.DeadEnds.{
  Registry, load_registry, written, normalize_code, log_dead_end, is_dead_end,
}
use go_agent_llm_orchestrato.DeadEnds.Registered.{
  log, clear, Distinct, operate_all, operate_all-Distinct, is_dead_end-log_dead_end,
}
use go_agent_llm_orchestrato.DeadEnds.Comments.{OneLine, NoBlock, other_patch_dead}

abbrev same : String → String
same s = s

abbrev registry : Registry
registry = none

normalized : normalize_code same "x = 1 // one\r\n/* two\nthree */ y  # four\n" ≡ "x=1y"
unfolding normalize_code
normalized = refl

logged :
    (is_dead_end same "a.go" "x  =  1" (log_dead_end same written "a.go" "x = 1" "fails" registry)
      ≡ true)
    × (is_dead_end same "b.go" "x = 1" (log_dead_end same written "a.go" "x = 1" "fails" registry)
        ≡ false)
unfolding is_dead_end log_dead_end
logged = (refl, refl)

is_dead_end-log_dead_end_example :
    is_dead_end same "a.go" "x=2" (log_dead_end same written "a.go" "x = 1" "fails" registry)
    ≡ is_dead_end same "a.go" "x=2" registry
      || (("a.go" == "a.go") && (normalize_code same "x = 1" == normalize_code same "x=2"))
is_dead_end-log_dead_end_example =
    is_dead_end-log_dead_end same "a.go" "x = 1" "fails" "a.go" "x=2" registry

operate_all-Distinct_example : Distinct (
    load_registry (
      operate_all same
        (log written "a.go" "x = 1" "fails" ∷ log written "a.go" "x=1" "fails" ∷ clear false ∷ [])
        registry))
operate_all-Distinct_example =
    operate_all-Distinct same
      (log written "a.go" "x = 1" "fails" ∷ log written "a.go" "x=1" "fails" ∷ clear false ∷ [])
      registry tt

other_patch_dead_example :
    is_dead_end same "a.go" "u://b" (log_dead_end same written "a.go" "u://a" "fails" registry)
    ≡ true
unfolding OneLine NoBlock text_after
other_patch_dead_example =
    other_patch_dead same "a.go" "fails" "u:" "a" "b" registry (refl, (refl, tt)) (refl, tt)
      (refl, tt) (refl, (refl, (refl, (refl, (refl, tt)))))
      (refl, (refl, (refl, (refl, (refl, tt)))))
