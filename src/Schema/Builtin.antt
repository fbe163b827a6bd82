-- ===== src/Schema/Builtin.antt =====
-- wide-log-macros/src/codegen.rs: the built-in subtrees `duration` and `event`, `validate` and
-- `generate` up to the emission of code.
use wide_log.Prelude.{
  ℕ, Bool, true, false, not, Option, none, some, List, [], ◌∷◌, Str, str_eq, if◌then◌else◌, ◌||◌,
}
use wide_log.Parse.{JsonNode, Entries, Marker}
use wide_log.Schema.{
  Builtins, GenContext, DefaultEntry, Outcome, ok, err, ◌and_then◌, new, add_key, add_path,
  add_node, mark_duration, walk, walk_entries, ambiguous_duration, event_not_object, no_duration,
  empty_duration, empty_timestamp, empty_id, id_default,
}

-- `entries.iter().find(|(k, _)| *k == name)`
unfoldable pub find : Str → Entries → Option JsonNode
find name Entries.nil = none
find name (Entries.entry k v rest) = if str_eq k name then some v else find name rest

abbrev pub is_duration_marker : JsonNode → Bool
is_duration_marker (JsonNode.marker Marker.duration) = true
is_duration_marker _ = false

-- Whether an entry is a `duration!` marker.
unfoldable pub has_marker : Entries → Bool
has_marker Entries.nil = false
has_marker (Entries.entry k v rest) = if is_duration_marker v then true else has_marker rest

-- The keys of the entries that are none.
unfoldable pub non_duration_leaves : Entries → List Str
non_duration_leaves Entries.nil = []
non_duration_leaves (Entries.entry k v rest) =
    if is_duration_marker v then non_duration_leaves rest else k ∷ non_duration_leaves rest

-- The entries with another key.
unfoldable pub without : Str → Entries → Entries
without name Entries.nil = Entries.nil
without name (Entries.entry k v rest) =
    if str_eq k name then without name rest else Entries.entry k v (without name rest)

abbrev pub is_some : {A : Type 0} → Option A → Bool
is_some none = false
is_some (some a) = true

-- Equality of paths.
unfoldable pub path_eq : List Str → List Str → Bool
path_eq [] [] = true
path_eq [] (t ∷ ts) = false
path_eq (s ∷ ss) [] = false
path_eq (s ∷ ss) (t ∷ ts) = if str_eq s t then path_eq ss ts else false

unfoldable pub has_default : List Str → List DefaultEntry → Bool
unfolding path_eq
has_default path [] = false
has_default path (d ∷ rest) = if path_eq d.segments path then true else has_default path rest

abbrev pub is_empty : List Str → Bool
is_empty [] = true
is_empty (s ∷ ss) = false

module _ (upper : ℕ → Str) (b : Builtins) where
  unfoldable pub add_duration_subtree : Str → GenContext → GenContext
  unfolding add_key add_path
  add_duration_subtree leaf c =
      let c₁ = add_key upper leaf (add_key upper b.duration c) in
      let path = b.duration ∷ leaf ∷ [] in
      mark_duration path (add_path path (add_path (b.duration ∷ []) c₁))

  -- The loop over a `duration` object that has the key `total_ms` and no marker.
  unfoldable pub walk_total : Entries → GenContext → GenContext
  walk_total Entries.nil c = c
  walk_total (Entries.entry k v rest) c = walk_total rest (
      if str_eq k b.duration_total_ms
      then mark_duration (b.duration ∷ b.duration_total_ms ∷ [])
          (add_node upper (b.duration ∷ []) b.duration_total_ms c)
      else walk upper v (b.duration ∷ []) k c)

  -- The case of one leaf that is no marker.
  abbrev pub resolve_leaves : List Str → Entries → GenContext → Outcome GenContext
  resolve_leaves (leaf ∷ []) entries c =
      ok (walk_entries upper (without leaf entries) (b.duration ∷ []) (add_duration_subtree leaf c))
  resolve_leaves _ entries c = err ambiguous_duration

  -- The cases of an object that is not empty.
  abbrev pub resolve_entries : Entries → GenContext → Outcome GenContext
  resolve_entries entries c =
      if c.has_duration_marker
      then ok (walk_entries upper entries (b.duration ∷ []) c)
      else if has_marker entries
      then ok (walk_entries upper entries (b.duration ∷ []) c)
      else if is_some (find b.duration_total_ms entries)
      then ok (walk_total entries c)
      else resolve_leaves (non_duration_leaves entries) entries c

  -- The key and the path of the object itself.
  abbrev pub add_root : Str → GenContext → GenContext
  add_root name c = add_path (name ∷ []) (add_key upper name c)

  unfoldable pub resolve_duration_subtree : JsonNode → GenContext → Outcome GenContext
  unfolding find has_marker non_duration_leaves without add_duration_subtree walk_total walk
  resolve_duration_subtree (JsonNode.object Entries.nil) c =
      ok (add_duration_subtree b.duration_total_ms (add_root b.duration c))
  resolve_duration_subtree (JsonNode.object (Entries.entry k v rest)) c =
      resolve_entries (Entries.entry k v rest) (add_root b.duration c)
  resolve_duration_subtree _ c = ok (add_duration_subtree b.duration_total_ms c)

  abbrev pub resolve_duration : Option JsonNode → GenContext → Outcome GenContext
  resolve_duration none c = ok (add_duration_subtree b.duration_total_ms c)
  resolve_duration (some v) c = resolve_duration_subtree v c

  -- The root is an object, which the parser has seen to.
  unfoldable pub auto_add_duration : Entries → GenContext → Outcome GenContext
  unfolding find
  auto_add_duration entries c = resolve_duration (find b.duration entries) c

  abbrev pub timestamp_path : List Str
  timestamp_path = b.event ∷ b.event_timestamp ∷ []

  abbrev pub id_path : List Str
  id_path = b.event ∷ b.event_id ∷ []

  unfoldable pub add_event_subtree : GenContext → GenContext
  unfolding add_key add_path
  add_event_subtree c =
      let c₁ =
        add_key upper b.event_id (add_key upper b.event_timestamp (add_key upper b.event c)) in
      let c₂ = add_path id_path (add_path timestamp_path (add_path (b.event ∷ []) c₁)) in
      record c₂ { timestamp_segments = timestamp_path; id_segments = id_path; has_event_key = true }

  -- A declared `timestamp` or `id` is walked, another is added.
  abbrev pub walk_or_add : Str → Option JsonNode → GenContext → GenContext
  walk_or_add name none c = add_node upper (b.event ∷ []) name c
  walk_or_add name (some v) c = walk upper v (b.event ∷ []) name c

  -- The last loop: every other entry.
  unfoldable pub walk_others : Entries → GenContext → GenContext
  walk_others Entries.nil c = c
  walk_others (Entries.entry k v rest) c = walk_others rest (
      if str_eq k b.event_timestamp || str_eq k b.event_id
      then c
      else walk upper v (b.event ∷ []) k c)

  abbrev pub resolve_event_entries : Entries → GenContext → GenContext
  resolve_event_entries entries c =
      let c₁ = walk_or_add b.event_timestamp (find b.event_timestamp entries) c in
      let c₂ = record c₁ { timestamp_segments = timestamp_path } in
      let c₃ = walk_or_add b.event_id (find b.event_id entries) c₂ in
      let c₄ = record c₃ { id_segments = id_path } in
      let c₅ = walk_others entries c₄ in record c₅ { has_event_key = true }

  unfoldable pub resolve_event_subtree : JsonNode → GenContext → Outcome GenContext
  unfolding find add_event_subtree walk_others walk
  resolve_event_subtree (JsonNode.object Entries.nil) c =
      ok (add_event_subtree (add_root b.event c))
  resolve_event_subtree (JsonNode.object (Entries.entry k v rest)) c =
      ok (resolve_event_entries (Entries.entry k v rest) (add_root b.event c))
  resolve_event_subtree _ c = err event_not_object

  abbrev pub resolve_event : Option JsonNode → GenContext → Outcome GenContext
  resolve_event none c = ok (add_event_subtree c)
  resolve_event (some v) c = resolve_event_subtree v c

  unfoldable pub auto_add_event : Entries → GenContext → Outcome GenContext
  unfolding find
  auto_add_event entries c = resolve_event (find b.event entries) c

  unfoldable pub validate : GenContext → Outcome GenContext
  unfolding has_default
  validate c =
      if not c.has_duration_marker
      then err no_duration
      else if is_empty c.duration_segments
      then err empty_duration
      else if is_empty c.timestamp_segments
      then err empty_timestamp
      else if is_empty c.id_segments
      then err empty_id
      else if has_default c.id_segments c.defaults
      then err id_default
      else ok c

  -- `generate`, up to `emit`.
  unfoldable pub generate : Entries → Outcome GenContext
  unfolding auto_add_duration auto_add_event validate walk
  generate entries = auto_add_duration entries (walk_entries upper entries [] new) and_then λ c₁.
      auto_add_event entries c₁ and_then λ c₂. validate c₂
