-- ===== src/Daemon/Db/Locks.antt =====
-- The workspace lock excludes, until it is released or expires.
use go_agent_llm_orchestrato.Prelude.{
  ℕ, ◌+◌, ◌≤◌, String, ◌≡◌, ◌≢◌, ◌⊎◌, inl, inr, Bool, true, false, not, ◌&&◌, List, [], ◌∷◌, ◌++◌,
  All, any, select, ltb, arith, eq_iff, eq_refl, Bool-cases,
}
use go_agent_llm_orchestrato.Daemon.Db.{Lock, unexpired, named, acquire_lock, held_by, release_lock}

-- What the clients of the table do, in the order in which the database takes the statements.
pub data Event : Type 0 where
  acquire : (now : ℕ) (name holder : String) (ttl : ℕ) → Event
  release : (name holder : String) → Event

unfoldable pub apply : Event → List Lock → List Lock
apply (acquire now name holder ttl) locks = (acquire_lock now name holder ttl locks).0
apply (release name holder) locks = release_lock name holder locks

unfoldable pub run_events : List Event → List Lock → List Lock
unfolding apply
run_events [] locks = locks
run_events (e ∷ es) locks = run_events es (apply e locks)

-- A live row of the name and the holder, that expires at `until` at the earliest.
abbrev keeps_until : String → String → ℕ → Lock → Bool
keeps_until name holder until l = held_by name holder l && not (ltb l.expires_at until)

-- The holder's row is in the table.
abbrev pub IsHeld : String → String → ℕ → List Lock → Type 0
IsHeld name holder until locks = any (keeps_until name holder until) locks ≡ true

-- Neither an expiry nor a release by the holder: the clock of an acquire is not past `until`.
abbrev pub Leaves : String → String → ℕ → Event → Type 0
Leaves name holder until (acquire now n h ttl) = now ≤ until
Leaves name holder until (release n h) = (n ≢ name) ⊎ (h ≢ holder)

module _ (name holder : String) (until : ℕ) where
  any-append_left :
      (xs ys : List Lock)
      → any (keeps_until name holder until) xs ≡ true
      → any (keeps_until name holder until) (xs ++ ys) ≡ true
  any-append_left [] ys h = cc
  any-append_left (x ∷ xs) ys h = ground (arith, any-append_left xs ys)

  select-IsHeld :
      (p : Lock → Bool) (locks : List Lock)
      → ((l : Lock) → keeps_until name holder until l ≡ true → p l ≡ true)
      → IsHeld name holder until locks
      → IsHeld name holder until (select p locks)
  select-IsHeld p [] k h = cc
  select-IsHeld p (l ∷ locks) k h = ground (arith, k l, select-IsHeld p locks k)

  IsHeld-named :
      (locks : List Lock) → IsHeld name holder until locks → any (named name) locks ≡ true
  IsHeld-named [] h = cc
  IsHeld-named (l ∷ locks) h = ground (arith, IsHeld-named locks)

  live_kept :
      (now : ℕ) (locks : List Lock)
      → now ≤ until
      → IsHeld name holder until locks
      → IsHeld name holder until (select (unexpired now) locks)
  live_kept now locks t = select-IsHeld (unexpired now) locks (λ l k. ground arith)

  pub acquire_lock-IsHeld :
      (now : ℕ) (n h : String) (ttl : ℕ) (locks : List Lock)
      → now ≤ until
      → IsHeld name holder until locks
      → IsHeld name holder until (acquire_lock now n h ttl locks).0
  unfolding acquire_lock
  acquire_lock-IsHeld now n h ttl locks t k =
      elim (Bool-cases (any (named n) (select (unexpired now) locks))) [
        | inl taken ↦ rw taken (live_kept now locks t k)
        | inr free ↦
            rw free (any-append_left (select (unexpired now) locks) _ (live_kept now locks t k))
      ]

  apply-IsHeld :
      (e : Event) (locks : List Lock)
      → Leaves name holder until e
      → IsHeld name holder until locks
      → IsHeld name holder until (apply e locks)
  unfolding apply release_lock
  apply-IsHeld (acquire now n h ttl) locks t k = acquire_lock-IsHeld now n h ttl locks t k
  apply-IsHeld (release n h) locks other k =
      select-IsHeld _ locks
        (λ l q.
          ground
            (arith, eq_iff l.name name, eq_iff l.holder holder, eq_iff l.name n, eq_iff l.holder h))
        k

  pub release_lock-IsHeld :
      (id : String) (locks : List Lock)
      → id ≢ holder
      → IsHeld name holder until locks
      → IsHeld name holder until (release_lock name id locks)
  release_lock-IsHeld id locks other h =
      unfold apply in (apply-IsHeld (release name id) locks (inr other) h)

  run_events-IsHeld :
      (es : List Event) (locks : List Lock)
      → All (Leaves name holder until) es
      → IsHeld name holder until locks
      → IsHeld name holder until (run_events es locks)
  unfolding run_events
  run_events-IsHeld [] locks a h = h
  run_events-IsHeld (e ∷ es) locks a h =
      run_events-IsHeld es (apply e locks) a.1 (apply-IsHeld e locks a.0 h)

  pub refused_while_held :
      (now : ℕ) (other : String) (ttl : ℕ) (locks : List Lock)
      → now ≤ until
      → IsHeld name holder until locks
      → (acquire_lock now name other ttl locks).1 ≡ false
  unfolding acquire_lock
  refused_while_held now other ttl locks t h =
      ground (arith, IsHeld-named (select (unexpired now) locks) (live_kept now locks t h))

any-last :
    (name holder : String) (until : ℕ) (xs : List Lock) (l : Lock)
    → keeps_until name holder until l ≡ true
    → any (keeps_until name holder until) (xs ++ l ∷ []) ≡ true
any-last name holder until [] l h = rw h
any-last name holder until (x ∷ xs) l h = ground (arith, any-last name holder until xs l h)

pub acquired-IsHeld :
    (now : ℕ) (name holder : String) (ttl : ℕ) (locks : List Lock)
    → (acquire_lock now name holder ttl locks).1 ≡ true
    → IsHeld name holder (now + ttl) (acquire_lock now name holder ttl locks).0
unfolding acquire_lock
acquired-IsHeld now name holder ttl locks h = ground (
  arith,
  any-last name holder (now + ttl) (select (unexpired now) locks)
      (record { name = name; holder = holder; expires_at = now + ttl })
      (ground (arith, eq_refl name, eq_refl holder)),
)

-- Once a holder has acquired a lock, everybody's attempts to acquire it fail, the holder's own too,
-- after any statements of the clients with clocks up to its expiry, as long as the holder does not
-- release it.
pub acquire_lock_excludes :
    (now : ℕ) (name holder : String) (ttl : ℕ) (locks : List Lock) (es : List Event) (later : ℕ)
    (other : String) (ttl' : ℕ)
    → (acquire_lock now name holder ttl locks).1 ≡ true
    → All (Leaves name holder (now + ttl)) es
    → later ≤ now + ttl
    → (acquire_lock later name other ttl'
        (run_events es (acquire_lock now name holder ttl locks).0)).1
      ≡ false
acquire_lock_excludes now name holder ttl locks es later other ttl' got leaves soon =
    refused_while_held name holder (now + ttl) later other ttl' _ soon (
      run_events-IsHeld name holder (now + ttl) es _ leaves
        (acquired-IsHeld now name holder ttl locks got))
