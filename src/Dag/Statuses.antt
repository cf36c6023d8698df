-- ===== src/Dag/Statuses.antt =====
-- How `set_status` changes what the loop reads.
use go_agent_llm_orchestrato.Prelude.{
  String, ◌==◌, ◌≡◌, refl, Bool, true, false, Option, none, some, List, [], ◌∷◌, All, inl, inr,
  lookup, all, select, arith, eq_iff, if◌then◌else◌, Bool-cases, eq_refl,
}
use go_agent_llm_orchestrato.Dag.{Status, TaskNode, Nodes, has_node}
use go_agent_llm_orchestrato.Dag.Run.{is_completed, dep_is, set_status, Entry}

abbrev pub restatus : Status → Option TaskNode → Option TaskNode
restatus st none = none
restatus st (some n) = some (record n { status = st })

pub lookup-set_status :
    (id j : String) (st : Status) (nodes : Nodes)
    → lookup j (set_status id st nodes)
      ≡ (if id == j then restatus st (lookup j nodes) else lookup j nodes)
unfolding lookup set_status
lookup-set_status id j st [] = ground arith
lookup-set_status id j st ((k, n) ∷ nodes) =
    ground (arith, lookup-set_status id j st nodes, eq_iff k id, eq_iff k j, eq_iff id j)

-- No key stands twice, as in a Python dict.
abbrev pub IsUnique : Nodes → Type 0
IsUnique [] = Unit {0}
IsUnique ((k, n) ∷ nodes) = (has_node nodes k ≡ false) × IsUnique nodes

has_node-set_status :
    (id j : String) (st : Status) (nodes : Nodes)
    → has_node (set_status id st nodes) j ≡ has_node nodes j
has_node-set_status id j st nodes = ground (arith, lookup-set_status id j st nodes)

pub set_status-IsUnique :
    (id : String) (st : Status) (nodes : Nodes) → IsUnique nodes → IsUnique (set_status id st nodes)
unfolding set_status
set_status-IsUnique id st [] u = tt
set_status-IsUnique id st ((k, n) ∷ nodes) u =
    ground (arith, has_node-set_status id k st nodes, set_status-IsUnique id st nodes u.1)

-- A node that is not completed may change its status, and what was completed stays so.
pub set_status_keeps_completed :
    (id d : String) (st : Status) (nodes : Nodes)
    → dep_is is_completed nodes id ≡ false
    → dep_is is_completed nodes d ≡ true
    → dep_is is_completed (set_status id st nodes) d ≡ true
set_status_keeps_completed id d st nodes i h =
    ground (arith, lookup-set_status id d st nodes, eq_iff id d)

pub all_mono :
    (p q : String → Bool) (xs : List String)
    → ((x : String) → p x ≡ true → q x ≡ true)
    → all p xs ≡ true
    → all q xs ≡ true
all_mono p q [] f h = refl
all_mono p q (x ∷ xs) f h = ground (arith, f x, all_mono p q xs f)

-- An entry of a selection is what its key names, and passes the test.
pub lookup-select :
    (p : Entry → Bool) (nodes : Nodes)
    → IsUnique nodes
    → All (λ e. (lookup e.0 nodes ≡ some e.1) × (p e ≡ true)) (select p nodes)
unfolding lookup
lookup-select p [] u = tt
lookup-select p ((k, n) ∷ nodes) u = elim (Bool-cases (p (k, n))) [
  | inl t ↦ rw t ((rw eq_refl, t), weaken (select p nodes) (lookup-select p nodes u.1))
  | inr f ↦ rw f (weaken (select p nodes) (lookup-select p nodes u.1))
]
  where
    weaken :
        (es : List Entry)
        → All (λ e. (lookup e.0 nodes ≡ some e.1) × (p e ≡ true)) es
        → All (λ e. ((if k == e.0 then some n else lookup e.0 nodes) ≡ some e.1) × (p e ≡ true)) es
    weaken [] h = tt
    weaken (e ∷ es) h = ((ground (arith, eq_iff k e.0), h.0.1), weaken es h.1)
