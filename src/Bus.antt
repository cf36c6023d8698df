-- ===== src/Bus.antt =====
-- The context bus, .agent/scripts/context/bus_manager.py: the objects of the file context.json. An
-- operation reads the file and writes it as a whole.
pub mod Identity
pub mod Map
mod Samples
use go_agent_llm_orchestrato.Prelude.{
  String, ◌==◌, ◌≡◌, Bool, true, false, not, ◌&&◌, ◌||◌, Option, none, some, is_some, or_default,
  List, [], ◌∷◌, ◌++◌, any, select, contains, length, ltb, if◌then◌else◌,
}

-- An object whose content and metadata are JSON values `V`.
pub record Object (V : Type 0) : Type 0 where
  pub id : String
  pub kind : String
  pub author : String
  pub timestamp : String
  pub content : V
  pub metadata : Option V

-- What load_json_safe gives: the mapping of the file, which may lack its keys. It has none where the
-- file is missing or no JSON.
pub record Document (V : Type 0) : Type 0 where
  pub version : Option String
  pub objects : Option (List (Object V))

abbrev pub is_blank : {V : Type 0} → Document V → Bool
is_blank d = not (is_some d.version || is_some d.objects)

abbrev pub objects_of : {V : Type 0} → Document V → List (Object V)
objects_of d = or_default d.objects []

abbrev pub fresh : {V : Type 0} → Document V
fresh = record { version = some "1.0.0"; objects = some [] }

abbrev pub valid_types : List String
valid_types =
    "requirement" ∷ "api_spec" ∷ "code_chunk" ∷ "verification_result" ∷ "memory_note"
    ∷ "state_snapshot" ∷ "telemetry" ∷ "proposed_fix" ∷ "incident" ∷ "routing_event" ∷ []

-- What the operations find: json.loads, the two wrappers of a text that it refuses, the truth of a
-- value and whether it is a mapping, whether the watchdog has rules, and whether the file can be saved.
pub record World (V : Type 0) : Type 0 where
  pub loads : String → Option V
  pub as_text : String → V
  pub as_raw : String → V
  pub truthy : V → Bool
  pub is_mapping : V → Bool
  -- total_tokens and total_cost_usd, where they are there, are numbers
  pub has_numbers : V → Bool
  pub has_rules : Bool
  pub saves : Bool
  pub now : String

pub data Push : Type 0 where
  refused accepted : Push
  raises : Push

module _ {V : Type 0} where
  abbrev pub has_id : String → Object V → Bool
  has_id i o = o.id == i

  -- save_json_atomic: a failure is logged, and the result is not looked at.
  abbrev pub save : World V → Document V → Document V → Document V
  save w new old = if w.saves then new else old

  abbrev pub content_of : World V → String → V
  content_of w s = or_default (w.loads s) (w.as_text s)

  abbrev truthy_only : World V → V → Option V
  truthy_only w v = if w.truthy v then some v else none

  abbrev pub metadata_of : World V → Option String → Option V
  metadata_of w none = none
  metadata_of w (some s) =
      if s == "" then none else truthy_only w (or_default (w.loads s) (w.as_raw s))

  -- `_check_telemetry_limits` prints an alert at most; with rules, a content that is no mapping has no
  -- `get`, and a limit is not compared with what is no number.
  abbrev pub alert_raises : World V → String → V → Bool
  alert_raises w kind content =
      kind == "telemetry" && (w.has_rules && not (w.is_mapping content && w.has_numbers content))

  abbrev pub add_object : Object V → Option (List (Object V)) → Option (List (Object V))
  add_object o none = none
  add_object o (some os) = some (os ++ o ∷ [])

  abbrev pub new_object : World V → (i kind author content : String) → Option String → Object V
  new_object w i kind author content metadata = record {
    id = i;
    kind = kind;
    author = author;
    timestamp = w.now;
    content = content_of w content;
    metadata = metadata_of w metadata;
  }

  -- `data["objects"].append`, which raises where the mapping has no objects, and the save
  appended : World V → Object V → Document V → Document V → Document V × Push
  appended w o old doc =
      if is_some doc.objects
      then (save w (record doc { objects = add_object o doc.objects }) old, accepted)
      else (old, raises)

  unfoldable pub push :
      World V → (i kind author content : String) → Option String → Document V → Document V × Push
  unfolding appended
  push w i kind author content metadata d =
      let doc = if is_blank d then fresh else d in
      if not (contains valid_types kind)
      then (d, refused)
      else if any (has_id i) (objects_of doc)
      then (d, refused)
      else if alert_raises w kind (content_of w content)
      then (d, raises)
      else appended w (new_object w i kind author content metadata) d doc

  abbrev pub first : (Object V → Bool) → List (Object V) → Option (Object V)
  first p [] = none
  first p (o ∷ os) = let rest = first p os in if p o then some o else rest

  -- `none`: the exit with code 1
  unfoldable pub pull : String → Document V → Option (Object V)
  pull i d = first (has_id i) (objects_of d)

  -- The objects that stay; nothing is written if none goes.
  kept : World V → (Object V → Bool) → Document V → Document V
  kept w p d =
      let left = select p (objects_of d) in
      if is_blank d
      then d
      else if ltb (length left) (length (objects_of d))
      then save w (record d { objects = some left }) d
      else d

  unfoldable pub delete : World V → String → Document V → Document V
  unfolding kept
  delete w i d = kept w (λ o. not (has_id i o)) d

  unfoldable pub clean_author : World V → String → Document V → Document V
  unfolding kept
  clean_author w a d = kept w (λ o. not (o.author == a)) d

  unfoldable pub clear : World V → Document V → Document V
  clear w d = save w fresh d

  unfoldable pub get_objects_by_type : String → Document V → List (Object V)
  get_objects_by_type kind d = select (λ o. o.kind == kind) (objects_of d)
