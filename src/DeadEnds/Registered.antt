-- ===== src/DeadEnds/Registered.antt =====
-- What dead_ends.py remembers: the registry as a set of pairs of a file and a normalised patch.
use go_agent_llm_orchestrato.Prelude.{
  String, ◌==◌, Bool, true, false, ◌&&◌, ◌||◌, Option, none, some, List, [], ◌∷◌, ◌++◌, any, ◌≡◌,
  refl, subst, arith, eq_iff, Bool-cases, inl, inr, if_split, str_eq_comm,
}
use go_agent_llm_orchestrato.DeadEnds.{
  DeadEnd, Registry, load_registry, Writing, written, not_opened, cut_short, save_registry, is_text,
  is_entry, normalize_code, is_dead_end, log_dead_end, clear_dead_ends,
}

any-snoc :
    (p : DeadEnd → Bool) (es : List DeadEnd) (e : DeadEnd) → any p (es ++ e ∷ []) ≡ any p es || p e
any-snoc p [] e = ground (arith)
any-snoc p (x ∷ es) e = ground (arith, any-snoc p es e)

-- An entry of the same file and patch is there.
listed_again :
    (file norm file' norm' : String) (es : List DeadEnd)
    → any (is_entry file norm) es ≡ true
    → ((file == file') && (norm == norm')) ≡ true
    → any (is_entry file' norm') es ≡ true
listed_again file norm file' norm' es at same =
    let f : (file == file') ≡ true = ground (arith, same) in
    let n : (norm == norm') ≡ true = ground (arith, same) in
    subst (λ x. any (is_entry x norm') es ≡ true) ((eq_iff file file').0 f)
      (subst (λ y. any (is_entry file y) es ≡ true) ((eq_iff norm norm').0 n) at)

module _ (lower : String → String) where
  abbrev same_patch : String → String → String → String → Bool
  same_patch file patch file' patch' =
      (file == file') && (normalize_code lower patch == normalize_code lower patch')

  -- After a patch is logged, and the registry can be written, the dead ends are those of before, and all
  -- patches of that file with the same normalised text.
  pub is_dead_end-log_dead_end :
      (file patch error file' patch' : String) (r : Registry)
      → is_dead_end lower file' patch' (log_dead_end lower written file patch error r)
        ≡ is_dead_end lower file' patch' r
          || ((file == file') && (normalize_code lower patch == normalize_code lower patch'))
  unfolding is_dead_end log_dead_end
  is_dead_end-log_dead_end file patch error file' patch' r =
      let n = normalize_code lower patch in
      let n' = normalize_code lower patch' in
      if_split
        (λ x.
          any (is_entry file' n') (load_registry x)
          ≡ any (is_entry file' n') (load_registry r) || ((file == file') && (n == n')))
        (any (is_entry file n) (load_registry r)) r _
        (λ at. elim (Bool-cases ((file == file') && (n == n'))) [
          | inl same ↦ rw (same, listed_again file n file' n' (load_registry r) at same) refl
          | inr other ↦ ground (arith, other)
        ])
        (λ _. any-snoc (is_entry file' n') (load_registry r) _)

-- The two fields are those of an entry.
abbrev pub is_again : Option String → Option String → List DeadEnd → Bool
is_again none o es = false
is_again (some file) none es = false
is_again (some file) (some norm) es = any (is_entry file norm) es

-- No two entries have the same file and normalised patch.
abbrev pub Distinct : List DeadEnd → Type 0
Distinct [] = Unit
Distinct (e ∷ es) = (is_again e.file e.patch_normalized es ≡ false) × Distinct es

is_again-snoc :
    (o p : Option String) (file norm : String) (es : List DeadEnd) (new : DeadEnd)
    → new.file ≡ some file
    → new.patch_normalized ≡ some norm
    → (is_text o file && is_text p norm) ≡ false
    → is_again o p es ≡ false
    → is_again o p (es ++ new ∷ []) ≡ false
is_again-snoc none p file norm es new f n other h = refl
is_again-snoc (some s) none file norm es new f n other h = refl
is_again-snoc (some s) (some t) file norm es new f n other h =
    rw (any-snoc (is_entry s t) es new, h, f, n, str_eq_comm file s, str_eq_comm norm t) other

Distinct-snoc :
    (file norm : String) (es : List DeadEnd) (new : DeadEnd)
    → new.file ≡ some file
    → new.patch_normalized ≡ some norm
    → any (is_entry file norm) es ≡ false
    → Distinct es
    → Distinct (es ++ new ∷ [])
Distinct-snoc file norm [] new f n fresh h = (alone new.file new.patch_normalized, tt)
  where
    alone : (o p : Option String) → is_again o p [] ≡ false
    alone none p = refl
    alone (some s) none = refl
    alone (some s) (some t) = refl
Distinct-snoc file norm (e ∷ es) new f n fresh (once, h) = (
  is_again-snoc e.file e.patch_normalized file norm es new f n (ground (arith, fresh)) once,
  Distinct-snoc file norm es new f n (ground (arith, fresh)) h,
)

-- One call that changes the registry.
pub data Operation : Type 0 where
  log : Writing → String → String → String → Operation
  clear : Bool → Operation

module _ (lower : String → String) where
  abbrev pub operate : Operation → Registry → Registry
  unfolding log_dead_end
  operate (log how file patch error) r = log_dead_end lower how file patch error r
  operate (clear deleted) r = clear_dead_ends deleted r

  unfoldable pub operate_all : List Operation → Registry → Registry
  operate_all [] r = r
  operate_all (o ∷ os) r = operate_all os (operate o r)

  save_registry-Distinct :
      (how : Writing) (es : List DeadEnd) (r : Registry)
      → Distinct es
      → Distinct (load_registry r)
      → Distinct (load_registry (save_registry how es r))
  save_registry-Distinct written es r new old = new
  save_registry-Distinct not_opened es r new old = old
  save_registry-Distinct cut_short es r new old = tt

  operate-Distinct :
      (o : Operation) (r : Registry)
      → Distinct (load_registry r)
      → Distinct (load_registry (operate o r))
  unfolding log_dead_end
  operate-Distinct (log how file patch error) r h =
      let n = normalize_code lower patch in
      if_split (λ x. Distinct (load_registry x)) (any (is_entry file n) (load_registry r)) r _
        (λ _. h)
        (λ fresh.
          save_registry-Distinct how _ r
            (Distinct-snoc file n (load_registry r) _ refl refl fresh h) h)
  operate-Distinct (clear true) r h = tt
  operate-Distinct (clear false) r h = h

  -- However often patches are logged and the registry is cleared, and whatever becomes of the writes, no
  -- file and normalised patch stand in the registry twice, if none did at the start.
  pub operate_all-Distinct :
      (os : List Operation) (r : Registry)
      → Distinct (load_registry r)
      → Distinct (load_registry (operate_all os r))
  unfolding operate_all
  operate_all-Distinct [] r h = h
  operate_all-Distinct (o ∷ os) r h = operate_all-Distinct os (operate o r) (operate-Distinct o r h)
