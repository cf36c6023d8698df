-- ===== src/Inbox/Division.antt =====
-- What ack_entry of inbox.py does to the lines of the file, which it divides otherwise than read_entries.
use go_agent_llm_orchestrato.Prelude.{
  String, ◌==◌, false, some, List, [], ◌∷◌, map, All, ◌≡◌, refl, sym, ◌∙◌, ap, Bool-cases, inl, inr,
}
use Prim.Native.String.{[] as empty_text}
use go_agent_llm_orchestrato.Inbox.{
  Fields, Line, blank, malformed, scalar, mapping, World, value_of, is_falsy,
}
use go_agent_llm_orchestrato.Inbox.Reading.{
  InboxEntry, is_text, Json, read_file, pieces_of, divided, Ack, raises, unchanged, acked, after,
  with_ack, ack_line, ack_lines, ack_entry,
}
use go_agent_llm_orchestrato.Inbox.Delivery.{
  open_ones, without_first, ack_parsed, read_entries-ack_parsed,
}

-- json.loads reads back what json.dumps makes of each entry of the file that is acknowledged.
abbrev pub RoundTrips : Json → World → String → List String → Type 0
RoundTrips j w by file =
    All
      (λ l.
        (d : Fields)
        → j.loads l ≡ mapping d
        → j.loads (j.dumps (with_ack w by d)) ≡ mapping (with_ack w by d))
      file

-- No line has a boundary for str.splitlines in it.
abbrev pub Undivided : List String → Type 0
Undivided file = All (λ l. pieces_of l ≡ l ∷ []) file

divided-Undivided : (file : List String) → Undivided file → divided file ≡ file
unfolding divided
divided-Undivided [] h = refl
divided-Undivided (l ∷ ls) (whole, h) = rw (whole, divided-Undivided ls h) refl

module _ (j : Json) where
  loaded_ack : Ack String → Ack Line
  loaded_ack raises = raises
  loaded_ack unchanged = unchanged
  loaded_ack (acked ls) = acked (map j.loads ls)

  loaded_ack-after :
      (l : String) (a : Ack String) → loaded_ack (after l a) ≡ after (j.loads l) (loaded_ack a)
  unfolding loaded_ack
  loaded_ack-after l raises = refl
  loaded_ack-after l unchanged = refl
  loaded_ack-after l (acked ls) = refl

  -- The acknowledgement of texts is that of what json.loads makes of them.
  loaded_ack-ack_lines :
      (w : World) (i by : String) (ls : List String)
      → RoundTrips j w by ls
      → loaded_ack (ack_lines j w i by ls) ≡ ack_parsed w i by (map j.loads ls)
  unfolding loaded_ack ack_lines ack_parsed
  loaded_ack-ack_lines w i by [] rt = refl
  loaded_ack-ack_lines w i by (l ∷ ls) (back, rt) =
      of_line (j.loads l) refl (loaded_ack-ack_lines w i by ls rt)
    where
      of_line :
          (k : Line)
          → j.loads l ≡ k
          → loaded_ack (ack_lines j w i by ls) ≡ ack_parsed w i by (map j.loads ls)
          → loaded_ack (ack_line j w i by l ls k (ack_lines j w i by ls))
            ≡ ack_parsed w i by (k ∷ map j.loads ls)
      of_line blank e ih = loaded_ack-after l _ ∙ rw (e, ih) refl
      of_line malformed e ih = loaded_ack-after l _ ∙ rw (e, ih) refl
      of_line scalar e ih = refl
      of_line (mapping d) e ih = elim (Bool-cases (is_text i (value_of d.id))) [
        | inl m ↦ elim (Bool-cases (is_falsy (value_of d.acked_ts))) [
          | inl f ↦ rw (m, f, back d e) refl
          | inr f ↦ rw (m, f) refl
        ]
        | inr m ↦ rw m (loaded_ack-after l _ ∙ rw (e, ih) refl)
      ]

  -- Where no line has a boundary for str.splitlines in it, json.loads reads back what json.dumps
  -- makes of an acknowledged entry, and neither the id nor the time is empty: after an entry is
  -- acknowledged in a file that can be read, what is still open is what was open before without the
  -- first entry of that id.
  pub read_file-ack_entry :
      (w : World) (i by : String) (file file' : List String) (es : List InboxEntry)
      → RoundTrips j w by file
      → Undivided file
      → (i == empty_text) ≡ false
      → (w.now == empty_text) ≡ false
      → read_file j w open_ones file ≡ some es
      → ack_entry j w i by file ≡ acked file'
      → read_file j w open_ones file' ≡ some (without_first i es)
  unfolding read_file ack_entry loaded_ack
  read_file-ack_entry w i by file file' es rt whole n t r h =
      let same : ack_entry j w i by file ≡ ack_lines j w i by file =
        ap (ack_lines j w i by) (divided-Undivided file whole) in
      let done : ack_parsed w i by (map j.loads file) ≡ acked (map j.loads file') =
        sym (loaded_ack-ack_lines w i by file rt) ∙ ap loaded_ack (sym same ∙ h) in
      read_entries-ack_parsed w i by (map j.loads file) (map j.loads file') es n t r done
