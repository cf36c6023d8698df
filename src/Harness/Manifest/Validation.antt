-- ===== src/Harness/Manifest/Validation.antt =====
-- What a loaded manifest guarantees of its entries.
use go_agent_llm_orchestrato.Prelude.{
  is_nil, is_nil-append, String, ◌≡◌, refl, ◌⊎◌, inl, inr, Bool, true, false, Option, none, some,
  is_some, or_default, List, [], ◌∷◌, ◌++◌, All, arith, eq_iff, if◌then◌else◌, Bool-cases, subst,
  sym, ◌↔◌, ◌≢◌,
}
use go_agent_llm_orchestrato.Harness.Manifest.{
  Sandbox, Entry, EntryError, no_capabilities, missing_sandbox_keys, missing_keys,
  sandbox_not_required, absent_of, key_table, missing_of, sandbox_missing_of, has_keys, is_nil,
  report, sandbox_errors, validate_entry, Harnesses, no_key, no_list, list, ManifestFile, no_file,
  no_mapping, mapping, ManifestError, unsupported_version, Manifest, failed, entries, prepend,
  validated, version_supported, load_harnesses, load_manifest, named, get_manifest_entry,
}

-- What validation guarantees of an entry's sandbox: it is there, and it is null, or has no key at
-- all, or has every required key and says that it is required.
abbrev pub IsChecked : Option (Option Sandbox) → Type 0
IsChecked none = ⊥
IsChecked (some none) = Unit {0}
IsChecked (some (some b)) =
    (has_keys b ≡ false) ⊎ ((sandbox_missing_of b ≡ []) × (b.required ≡ some true))

-- A valid entry has a name and a binary, a capability that it requires, and a checked sandbox.
pub record IsValid (e : Entry) : Type 0 where
  pub no_missing : missing_of e ≡ []
  pub has_name : is_some e.name ≡ true
  pub has_binary : is_some e.binary ≡ true
  pub has_capability : is_nil (or_default e.capabilities_required []) ≡ false
  pub sandbox_checked : IsChecked e.sandbox

report-nil :
    (e : List String → EntryError) (keys : List String) → is_nil (report e keys) ≡ true → keys ≡ []
report-nil e [] h = refl
report-nil e (k ∷ keys) h = cc

sandbox_errors-IsChecked :
    (s : Option (Option Sandbox))
    → is_some s ≡ true
    → is_nil (sandbox_errors s) ≡ true
    → IsChecked s
unfolding sandbox_errors
sandbox_errors-IsChecked none p h = cc
sandbox_errors-IsChecked (some none) p h = tt
sandbox_errors-IsChecked (some (some b)) p h = elim (Bool-cases (has_keys b)) [
  | inl e ↦
      let h' : is_nil (
            report missing_sandbox_keys (sandbox_missing_of b)
            ++ (if or_default b.required false then [] else sandbox_not_required ∷ []))
          ≡ true =
        rw e at h in
      let (k, r) = is_nil-append _ _ h' in
      inr (report-nil missing_sandbox_keys _ k, required_true b.required r)
  | inr e ↦ inl e
]
  where
    required_true :
        (o : Option Bool)
        → is_nil (if or_default o false then [] else sandbox_not_required ∷ []) ≡ true
        → o ≡ some true
    required_true none h = cc
    required_true (some true) h = refl
    required_true (some false) h = cc

absent_of-All : (keys : List (String × Bool)) → absent_of keys ≡ [] → All (λ k. k.1 ≡ true) keys
absent_of-All [] h = tt
absent_of-All ((k, true) ∷ keys) h = (refl, absent_of-All keys h)
absent_of-All ((k, false) ∷ keys) h = cc

-- The keys that have to be there are.
present_of :
    (e : Entry)
    → missing_of e ≡ []
    → (is_some e.name ≡ true) × ((is_some e.binary ≡ true) × (is_some e.sandbox ≡ true))
unfolding missing_of
present_of e h = let a = absent_of-All (key_table e) h in (a.1.1.1.1.1.0, (a.1.0, a.1.1.1.1.1.1.0))

validate_entry-IsValid : (e : Entry) → is_nil (validate_entry e) ≡ true → IsValid e
unfolding validate_entry
validate_entry-IsValid e h =
    let no_cap : List EntryError =
      if is_nil (or_default e.capabilities_required []) then no_capabilities ∷ [] else [] in
    let (r, c) =
      is_nil-append (report missing_keys (missing_of e) ++ sandbox_errors e.sandbox) no_cap h in
    let (a, b) = is_nil-append (report missing_keys (missing_of e)) (sandbox_errors e.sandbox) r in
    let none_missing : missing_of e ≡ [] = report-nil missing_keys _ a in
    let (n, (y, s)) = present_of e none_missing in
    record {
      no_missing = none_missing;
      has_name = n;
      has_binary = y;
      has_capability = ground arith;
      sandbox_checked = sandbox_errors-IsChecked e.sandbox s b;
    }

is_nil-nil : {A : Type 0} (xs : List A) → is_nil xs ≡ true → xs ≡ []
is_nil-nil [] h = refl
is_nil-nil (x ∷ xs) h = cc

IsChecked-sandbox_errors : (s : Option (Option Sandbox)) → IsChecked s → sandbox_errors s ≡ []
unfolding sandbox_errors
IsChecked-sandbox_errors none c = absurd c
IsChecked-sandbox_errors (some none) c = refl
IsChecked-sandbox_errors (some (some b)) (inl e) = rw e refl
IsChecked-sandbox_errors (some (some b)) (inr (k, r)) = elim (Bool-cases (has_keys b)) [
  | inl e ↦ rw (e, k, r) refl
  | inr e ↦ rw e refl
]

-- An entry passes validation exactly when no key is missing, it requires a capability, and its
-- sandbox is null, or has no key at all, or has every required key and says that it is required.
pub validate_entry_iff : (e : Entry) → (validate_entry e ≡ []) ↔ IsValid e
unfolding validate_entry
validate_entry_iff e = (
  λ h. validate_entry-IsValid e (rw h refl),
  λ v.
      rw (v.no_missing, IsChecked-sandbox_errors e.sandbox v.sandbox_checked, v.has_capability)
        refl,
)

prepend-entries :
    (e : Entry) (m : Manifest) (es : List Entry)
    → prepend e m ≡ entries es
    → (xs : List Entry) × ((m ≡ entries xs) × (es ≡ e ∷ xs))
prepend-entries e (failed x) es h = cc
prepend-entries e (entries xs) es h = (xs, (refl, cc))

validated-IsValid : (hs es : List Entry) → validated hs ≡ entries es → All IsValid es
unfolding validated
validated-IsValid [] es h = let n : es ≡ [] = cc in subst (λ xs. All IsValid xs) (sym n) tt
validated-IsValid (e ∷ hs) es h = elim (Bool-cases (is_nil (validate_entry e))) [
  | inl v ↦
      let (xs, (m, eq)) = prepend-entries e (validated hs) es (rw v at h) in
      subst (λ q. All IsValid q) (sym eq) (validate_entry-IsValid e v, validated-IsValid hs xs m)
  | inr v ↦ absurd (failed≢entries (rw v at h))
]
  where
    failed≢entries : {x : ManifestError} {q : List Entry} → failed x ≢ entries q
    failed≢entries h = cc

load_manifest-IsValid :
    (f : ManifestFile) (es : List Entry) → load_manifest f ≡ entries es → All IsValid es
unfolding load_manifest
load_manifest-IsValid no_file es h = cc
load_manifest-IsValid no_mapping es h = cc
load_manifest-IsValid (mapping v hs) es h = elim (Bool-cases (version_supported v)) [
  | inl e ↦ harnesses-IsValid hs (rw e at h)
  | inr e ↦ absurd (other (rw e at h))
]
  where
    other : failed (unsupported_version v) ≢ entries es
    other h = cc

    harnesses-IsValid : (hs : Harnesses) → load_harnesses hs ≡ entries es → All IsValid es
    harnesses-IsValid no_key h = subst (λ q. All IsValid q) (sym (nil_of h)) tt
      where
        nil_of : entries [] ≡ entries es → es ≡ []
        nil_of h = cc
    harnesses-IsValid no_list h = cc
    harnesses-IsValid (list xs) h = validated-IsValid xs es h

named-some : (name : String) (o : Option String) → named name o ≡ true → o ≡ some name
named-some name none h = cc
named-some name (some n) h = ground (arith, eq_iff n name)

get-IsValid :
    (name : String) (es : List Entry) (e : Entry)
    → All IsValid es
    → get_manifest_entry name es ≡ some e
    → IsValid e × (e.name ≡ some name)
unfolding get_manifest_entry
get-IsValid name [] e a h = cc
get-IsValid name (x ∷ es) e a h = elim (Bool-cases (named name x.name)) [
  | inl n ↦
      let same : x ≡ e = ground arith in
      subst (λ y. IsValid y × (y.name ≡ some name)) same (a.0, named-some name x.name n)
  | inr n ↦ get-IsValid name es e a.1 (ground arith)
]

-- What a name finds in a loaded manifest is a valid entry of that name.
pub get_manifest_entry-IsValid :
    (f : ManifestFile) (es : List Entry) (name : String) (e : Entry)
    → load_manifest f ≡ entries es
    → get_manifest_entry name es ≡ some e
    → IsValid e × (e.name ≡ some name)
get_manifest_entry-IsValid f es name e l g = get-IsValid name es e (load_manifest-IsValid f es l) g
