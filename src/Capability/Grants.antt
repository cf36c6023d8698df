-- ===== src/Capability/Grants.antt =====
-- What `check` grants: exactly what an entry of the role's list grants.
use Prim.Native.String.{[] as empty_text}
use go_agent_llm_orchestrato.Prelude.{
  String, ◌≡◌, ◌≢◌, refl, ◌↔◌, inl, inr, true, Option, none, some, or_default, List, [], ◌∷◌, Any,
  lookup, arith, eq_iff,
}
use go_agent_llm_orchestrato.Capability.{
  CapEntry, junk, entry, RoleData, blank, role, Matrix, scope_matches, target_of, names_cap,
  any_entry, check_cap, check, capabilities_of,
}

-- An entry grants a capability on a target: it names the capability, and its scope (`global` if it
-- has none) covers the target.
abbrev pub Grants : String → String → CapEntry → Type 0
Grants name target junk = ⊥
Grants name target (entry cap scope) =
    (cap ≡ some name) × (scope_matches (or_default scope "global") target ≡ true)

names_cap_iff :
    (cap : Option String) (name : String) → (names_cap cap name ≡ true) ↔ (cap ≡ some name)
names_cap_iff none name = (λ h. cc, λ h. cc)
names_cap_iff (some c) name =
    (λ h. ground (arith, eq_iff c name), λ h. ground (arith, eq_iff c name))

pub any_entry_sound :
    (caps : List CapEntry) (name target : String)
    → any_entry caps name target ≡ true
    → Any (Grants name target) caps
unfolding any_entry
any_entry_sound [] name target h = cc
any_entry_sound (junk ∷ caps) name target h = inr (any_entry_sound caps name target h)
any_entry_sound (entry cap scope ∷ caps) name target h =
    ground (arith, names_cap_iff cap name, any_entry_sound caps name target)

any_entry_complete :
    (caps : List CapEntry) (name target : String)
    → Any (Grants name target) caps
    → any_entry caps name target ≡ true
unfolding any_entry
any_entry_complete [] name target h = absurd h
any_entry_complete (junk ∷ caps) name target (inl h) = absurd h
any_entry_complete (junk ∷ caps) name target (inr h) = any_entry_complete caps name target h
any_entry_complete (entry cap scope ∷ caps) name target (inl h) =
    ground (arith, names_cap_iff cap name)
any_entry_complete (entry cap scope ∷ caps) name target (inr h) =
    ground (arith, any_entry_complete caps name target h)

-- What must be in the matrix for a permission.
pub record Permits (m : Matrix) (role_name operation : String) (scope : Option String)
    : Type 0 where
  pub cap_name : String
  pub caps : Option (List CapEntry)
  pub operation_known : lookup operation (or_default m.operations []) ≡ some cap_name
  pub cap_named : cap_name ≢ empty_text
  pub role_known : lookup role_name (or_default m.roles []) ≡ some (role caps)
  pub granted : Any (Grants cap_name (target_of scope)) (capabilities_of caps)

module _ (m : Matrix) (role_name operation : String) (scope : Option String) where
  Permits-of :
      (o : Option String) (r : Option RoleData)
      → lookup operation (or_default m.operations []) ≡ o
      → lookup role_name (or_default m.roles []) ≡ r
      → check_cap o r (target_of scope) ≡ true
      → Permits m role_name operation scope
  unfolding check_cap
  Permits-of none r eo er h = cc
  Permits-of (some name) none eo er h = ground arith
  Permits-of (some name) (some blank) eo er h = ground arith
  Permits-of (some name) (some (role caps)) eo er h = record {
    cap_name = name;
    caps = caps;
    operation_known = eo;
    cap_named = ground (arith, eq_iff name empty_text);
    role_known = er;
    granted = any_entry_sound (capabilities_of caps) name (target_of scope) (ground arith);
  }

  check_of : Permits m role_name operation scope → check m role_name operation scope ≡ true
  unfolding check
  check_of p =
      rw (p.operation_known, p.role_known)
        (ground (
          arith,
          eq_iff p.cap_name empty_text,
          any_entry_complete (capabilities_of p.caps) p.cap_name (target_of scope) p.granted,
        ))

-- The gate opens exactly when the operation names a non-empty capability, the role is in the
-- matrix, and an entry of the role names that capability with a scope that covers the target.
pub check_iff :
    (m : Matrix) (role_name operation : String) (scope : Option String)
    → (check m role_name operation scope ≡ true) ↔ Permits m role_name operation scope
unfolding check
check_iff m role_name operation scope = (
  λ h. Permits-of m role_name operation scope _ _ refl refl h,
  check_of m role_name operation scope,
)
