-- ===== src/Dag/Models.antt =====
-- The model concurrency guard: `active_models` and DAG_MAX_CONCURRENT_MODELS.
use go_agent_llm_orchestrato.Prelude.{
  ◌≤◌, ◌<◌, String, ◌==◌, ◌≡◌, refl, Bool, true, false, some, List, [], ◌∷◌, ◌++◌, inl, inr, lookup,
  contains, length, arith, eq_iff, Bool-cases, subst, length-append, contains-append,
}
use go_agent_llm_orchestrato.Dag.{Status, running, TaskNode}
use go_agent_llm_orchestrato.Dag.Run.{
  Config, Run, Entry, dep_is, is_running, can_run, concrete_model, remove_model, start, submit,
  finish, verdict, turn, continue, Steps, here, next, looped, ended,
}
use go_agent_llm_orchestrato.Dag.Progress.{eligible, turn_lem}
use go_agent_llm_orchestrato.Dag.Statuses.{lookup-set_status}

-- The set never holds more models than it may, and no model twice.
abbrev pub IsSetOf : List String → Type 0
IsSetOf [] = Unit {0}
IsSetOf (m ∷ ms) = (contains ms m ≡ false) × IsSetOf ms

IsSetOf-add :
    (m : String) (ms : List String) → IsSetOf ms → contains ms m ≡ false → IsSetOf (ms ++ m ∷ [])
IsSetOf-add m [] s n = (refl, tt)
IsSetOf-add m (x ∷ ms) s n = (
  ground (arith, contains-append ms (m ∷ []) x, eq_iff x m, eq_iff m x),
  IsSetOf-add m ms s.1 (ground arith),
)

contains-remove_ne :
    (m d : String) (ms : List String)
    → contains ms d ≡ false
    → contains (remove_model m ms) d ≡ false
unfolding remove_model
contains-remove_ne m d [] n = refl
contains-remove_ne m d (x ∷ ms) n = ground (arith, contains-remove_ne m d ms)

IsSetOf-remove : (m : String) (ms : List String) → IsSetOf ms → IsSetOf (remove_model m ms)
unfolding remove_model
IsSetOf-remove m [] s = tt
IsSetOf-remove m (x ∷ ms) s = ground (arith, IsSetOf-remove m ms s.1, contains-remove_ne m x ms s.0)

contains-remove_self :
    (m : String) (ms : List String) → IsSetOf ms → contains (remove_model m ms) m ≡ false
unfolding remove_model
contains-remove_self m [] s = refl
contains-remove_self m (x ∷ ms) s = ground (arith, contains-remove_self m ms s.1, eq_iff x m)

length-remove : (m : String) (ms : List String) → length (remove_model m ms) ≤ length ms
unfolding remove_model
length-remove m [] = omega arith
length-remove m (x ∷ ms) = ground (arith, length-remove m ms)

pub record IsBounded (c : Config) (models : List String) : Type 0 where
  pub distinct : IsSetOf models
  pub within : length models ≤ c.max_concurrent_models

start-IsBounded :
    (c : Config) (r : Run) (e : Entry)
    → can_run c r (concrete_model c e.1) ≡ true
    → IsBounded c r.active_models
    → IsBounded c (start c r e).active_models
unfolding start can_run
start-IsBounded c r e t b = elim (Bool-cases (contains r.active_models (concrete_model c e.1))) [
  | inl old ↦ rw old b
  | inr new ↦ rw new (record {
    distinct = IsSetOf-add (concrete_model c e.1) r.active_models b.distinct new;
    within = ground (arith, length-append {0} r.active_models (concrete_model c e.1 ∷ []));
  })
]

submit-IsBounded :
    (c : Config) (es : List Entry) (r : Run)
    → IsBounded c r.active_models
    → IsBounded c (submit c r es).0.active_models
unfolding submit
submit-IsBounded c [] r b = b
submit-IsBounded c (e ∷ es) r b = elim (Bool-cases (can_run c r (concrete_model c e.1))) [
  | inl t ↦ rw t (submit-IsBounded c es (start c r e) (start-IsBounded c r e t b))
  | inr f ↦ rw f (submit-IsBounded c es r b)
]

turn-IsBounded :
    (c : Config) (r r' : Run)
    → turn c r ≡ continue r'
    → IsBounded c r.active_models
    → IsBounded c r'.active_models
turn-IsBounded c r r' h b =
    let e : (submit c r (eligible r.nodes)).0 ≡ r' = ground (arith, turn_lem c r) in
    subst (λ (q : Run). IsBounded c q.active_models) e (submit-IsBounded c (eligible r.nodes) r b)

finish-IsBounded :
    (c : Config) (r : Run) (e : Entry) (st : Status)
    → IsBounded c r.active_models
    → IsBounded c (finish c r e st).active_models
unfolding finish
finish-IsBounded c r e st b = record {
  distinct = IsSetOf-remove (concrete_model c e.1) r.active_models b.distinct;
  within = omega (arith, length-remove (concrete_model c e.1) r.active_models, b.within);
}

-- Every run keeps `active_models` a set of at most `max_concurrent_models` models.
pub Steps-IsBounded :
    (c : Config) (r r' : Run)
    → IsBounded c r.active_models
    → Steps c r r'
    → IsBounded c r'.active_models
Steps-IsBounded c r r' b here = b
Steps-IsBounded c r r' b (next {r' = q} rs (looped h)) =
    turn-IsBounded c q r' h (Steps-IsBounded c r q b rs)
Steps-IsBounded c r r' b (next {r' = q} rs (ended id n s e w)) =
    finish-IsBounded c q (id, n) (verdict s) (Steps-IsBounded c r q b rs)

length-remove_lt :
    (m : String) (ms : List String) → contains ms m ≡ true → length (remove_model m ms) < length ms
unfolding remove_model
length-remove_lt m [] h = cc
length-remove_lt m (x ∷ ms) h = ground (arith, length-remove_lt m ms)

-- Two tasks that run on one model hold it once. When the first of them ends, the second still runs
-- on the model and the model is no longer in the set, so that any other model may start as well.
pub finish_releases_shared_model :
    (c : Config) (r : Run) (i j : String) (n k : TaskNode) (success : Bool) (m : String)
    → IsBounded c r.active_models
    → contains r.active_models (concrete_model c n) ≡ true
    → lookup j r.nodes ≡ some k
    → k.status ≡ running
    → (i == j) ≡ false
    → concrete_model c k ≡ concrete_model c n
    → (dep_is is_running (finish c r (i, n) (verdict success)).nodes j ≡ true)
      × (contains (finish c r (i, n) (verdict success)).active_models (concrete_model c k) ≡ false)
      × (can_run c (finish c r (i, n) (verdict success)) m ≡ true)
unfolding finish can_run
finish_releases_shared_model c r i j n k success m b held e run ne same = (
  ground (arith, lookup-set_status i j (verdict success) r.nodes),
  rw same (contains-remove_self (concrete_model c n) r.active_models b.distinct),
  ground (arith, length-remove_lt (concrete_model c n) r.active_models held, b.within),
)
