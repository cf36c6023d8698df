-- ===== src/Inbox/Loss.antt =====
-- What an acknowledgement in inbox.py destroys: a line that str.splitlines divides.
use go_agent_llm_orchestrato.Prelude.{
  String, List, [], ◌∷◌, ◌++◌, map, All, ◌≡◌, refl, sym, ap, subst, Bool-cases, inl, inr,
}
use go_agent_llm_orchestrato.Inbox.{
  Line, blank, malformed, scalar, mapping, World, value_of, is_falsy,
}
use go_agent_llm_orchestrato.Inbox.Reading.{
  Filter, is_text, entry_of, keeps, add_if, read_entries, Json, read_file, pieces_of, divided,
  unchanged, acked, after, with_ack, ack_line, ack_lines, ack_entry,
}
use go_agent_llm_orchestrato.Inbox.Delivery.{after_inv, acked_inj}

module _ (j : Json) where
  -- The second list is the first one without some lines that are no JSON.
  data Drops : List String → List String → Type 0 where
    all_read : Drops [] []
    stays : {xs ys : List String} (x : String) → Drops xs ys → Drops (x ∷ xs) (x ∷ ys)
    dropped :
        {xs ys : List String} (x : String) → j.loads x ≡ malformed → Drops xs ys → Drops (x ∷ xs) ys

  Drops-refl : (xs : List String) → Drops xs xs
  Drops-refl [] = all_read
  Drops-refl (x ∷ xs) = stays x (Drops-refl xs)

  Drops-kept : (ps : List String) {xs ys : List String} → Drops xs ys → Drops (ps ++ xs) (ps ++ ys)
  Drops-kept [] h = h
  Drops-kept (p ∷ ps) h = stays p (Drops-kept ps h)

  Drops-dropped : (ps xs : List String) → All (λ p. j.loads p ≡ malformed) ps → Drops (ps ++ xs) xs
  Drops-dropped [] xs h = Drops-refl xs
  Drops-dropped (p ∷ ps) xs (bad, h) = dropped p bad (Drops-dropped ps xs h)

  Drops-divided :
      (before : List String) (l : String) (rest : List String)
      → All (λ p. j.loads p ≡ malformed) (pieces_of l)
      → Drops (divided (before ++ l ∷ rest)) (divided (before ++ rest))
  unfolding divided
  Drops-divided [] l rest bad = Drops-dropped (pieces_of l) (divided rest) bad
  Drops-divided (x ∷ before) l rest bad = Drops-kept (pieces_of x) (Drops-divided before l rest bad)

  -- Lines that are no JSON are not read.
  read_file-Drops :
      {xs ys : List String} (w : World) (f : Filter)
      → Drops xs ys
      → read_file j w f xs ≡ read_file j w f ys
  unfolding read_file read_entries
  read_file-Drops w f all_read = refl
  read_file-Drops w f (stays {xs = xs} {ys = ys} x d) = of_line (j.loads x) (read_file-Drops w f d)
    where
      of_line :
          (k : Line)
          → read_entries w f (map j.loads xs) ≡ read_entries w f (map j.loads ys)
          → read_entries w f (k ∷ map j.loads xs) ≡ read_entries w f (k ∷ map j.loads ys)
      of_line blank ih = ih
      of_line malformed ih = ih
      of_line scalar ih = refl
      of_line (mapping e) ih = ap (add_if (keeps w f (entry_of e)) (entry_of e)) ih
  read_file-Drops w f (dropped x bad d) = rw bad (read_file-Drops w f d)

  -- The acknowledgement of the one list and of the other.
  AcksAlike : World → (i by : String) → (out ys : List String) → Type 0
  AcksAlike w i by out ys =
      (out' : List String) × ((ack_lines j w i by ys ≡ acked out') × Drops out out')

  AcksAlike-after :
      (w : World) (i by x : String) (xs ys out : List String)
      → ((rest : List String) → ack_lines j w i by xs ≡ acked rest → AcksAlike w i by rest ys)
      → after x (ack_lines j w i by xs) ≡ acked out
      → (out' : List String) × ((after x (ack_lines j w i by ys) ≡ acked out') × Drops out out')
  unfolding AcksAlike
  AcksAlike-after w i by x xs ys out ih h =
      let (rest, (a, e)) = after_inv x (ack_lines j w i by xs) out h in
      let (rest', (a', d)) = ih rest a in
      (x ∷ rest', (rw a' refl, subst (λ o. Drops o (x ∷ rest')) (sym e) (stays x d)))

  ack_lines-Drops :
      {xs ys : List String} (w : World) (i by : String) (out : List String)
      → Drops xs ys
      → ack_lines j w i by xs ≡ acked out
      → AcksAlike w i by out ys
  unfolding ack_lines AcksAlike
  ack_lines-Drops w i by out all_read h = absurd (cc)
  ack_lines-Drops w i by out (stays {xs = xs} {ys = ys} x d) h =
      of_line (j.loads x) (λ rest a. ack_lines-Drops w i by rest d a) h
    where
      of_line :
          (k : Line)
          → ((rest : List String) → ack_lines j w i by xs ≡ acked rest → AcksAlike w i by rest ys)
          → ack_line j w i by x xs k (ack_lines j w i by xs) ≡ acked out
          → (out' : List String) × ((ack_line j w i by x ys k (ack_lines j w i by ys) ≡ acked out')
              × Drops out out')
      of_line blank ih h = AcksAlike-after w i by x xs ys out ih h
      of_line malformed ih h = AcksAlike-after w i by x xs ys out ih h
      of_line scalar ih h = absurd (cc)
      of_line (mapping e) ih h = elim (Bool-cases (is_text i (value_of e.id))) [
        | inl m ↦ elim (Bool-cases (is_falsy (value_of e.acked_ts))) [
          | inl f ↦
              let new = j.dumps (with_ack w by e) in
              let out_is = acked_inj (new ∷ xs) out (rw (m, f) at h) in
              (
                new ∷ ys,
                (rw (m, f) refl, subst (λ o. Drops o (new ∷ ys)) (sym out_is) (stays new d)),
              )
          | inr f ↦ let q : unchanged ≡ acked out = rw (m, f) at h in absurd (cc)
        ]
        | inr m ↦ rw m (AcksAlike-after w i by x xs ys out ih (rw m at h))
      ]
  ack_lines-Drops {ys = ys} w i by out (dropped {xs = xs} x bad d) h =
      let (rest, (a, e)) = after_inv x (ack_lines j w i by xs) out (rw bad at h) in
      let (rest', (a', d')) = ack_lines-Drops w i by rest d a in
      (rest', (a', subst (λ o. Drops o rest') (sym e) (dropped x bad d')))

  -- When an entry is acknowledged, any other line that str.splitlines divides into pieces which are
  -- no JSON is lost, also if it is an entry itself: afterwards every reading gives what it would
  -- give if that line had never been in the file.
  pub ack_entry_loses :
      (w : World) (i by : String) (before : List String) (l : String) (rest file' : List String)
      → All (λ p. j.loads p ≡ malformed) (pieces_of l)
      → ack_entry j w i by (before ++ l ∷ rest) ≡ acked file'
      → (file'' : List String) × ((ack_entry j w i by (before ++ rest) ≡ acked file'')
          × ((f : Filter) → read_file j w f file' ≡ read_file j w f file''))
  unfolding ack_entry AcksAlike
  ack_entry_loses w i by before l rest file' bad h =
      let (file'', (a, d)) = ack_lines-Drops w i by file' (Drops-divided before l rest bad) h in
      (file'', (a, λ f. read_file-Drops w f d))
