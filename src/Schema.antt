-- ===== src/Schema.antt =====
-- wide-log-macros/src/codegen.rs: `GenContext`, the tables of keys, paths and defaults that the macro
-- makes of a schema, and `generate` up to the emission of code.
-- `char::to_uppercase` (a Unicode table) is the parameter `upper`.
pub mod Keywords
pub mod Index
pub mod Tables
pub mod Walk
pub mod Subtrees
pub mod EventSubtree
pub mod Generate
pub mod Declared
pub mod Defaults
pub mod Emit
pub mod Builtin
use wide_log.Prelude.{
  ℕ, Bool, true, false, not, ◌||◌, Option, none, some, List, [], ◌∷◌, ◌++◌, Str, chars, str_eq,
  length, ◌==◌, if◌then◌else◌,
}
use wide_log.Prelude.Int.{ℤ}
use wide_log.Parse.{JsonNode, Entries, Number, Marker}
use wide_log.Parse.Overrides.{KeyOverrides}
use wide_log.Schema.Keywords.{is_rust_keyword}

-- The messages of the `syn::Error`s.
pub data SchemaError : Type 0 where
  ambiguous_duration : SchemaError
  event_not_object : SchemaError
  no_duration : SchemaError
  empty_duration : SchemaError
  empty_timestamp : SchemaError
  empty_id : SchemaError
  id_default : SchemaError

pub data Outcome {ℓ} (A : Type ℓ) : Type ℓ where
  ok : A → Outcome A
  err : SchemaError → Outcome A

-- The operator `?` with the code behind it.
infixl 5 ◌and_then◌
abbrev pub ◌and_then◌ {ℓ κ} : {A : Type ℓ} {B : Type κ} → Outcome A → (A → Outcome B) → Outcome B
ok a and_then f = f a
err e and_then f = err e

pub record KeyEntry : Type 0 where
  pub json_name : Str
  pub variant : Str

pub record PathEntry : Type 0 where
  pub dotted : Str
  pub segments : List Str

pub data DefaultValue : Type 0 where
  str : Str → DefaultValue
  bool : Bool → DefaultValue
  int : ℤ → DefaultValue
  uint : ℕ → DefaultValue
  float : ℕ → DefaultValue

pub record DefaultEntry : Type 0 where
  pub segments : List Str
  pub value : DefaultValue

-- The fields `builtin_*`, which `new` sets and nothing changes.
pub record Builtins : Type 0 where
  pub log : Str
  pub level : Str
  pub message : Str
  pub event : Str
  pub event_id : Str
  pub event_timestamp : Str
  pub duration : Str
  pub duration_total_ms : Str

-- The other fields. A `BTreeMap` is an association list.
pub record GenContext : Type 0 where
  pub keys : List KeyEntry
  pub key_index : List (Str × ℕ)
  pub paths : List PathEntry
  pub path_index : List (Str × ℕ)
  pub defaults : List DefaultEntry
  pub duration_segments : List Str
  pub has_duration_marker : Bool
  pub timestamp_segments : List Str
  pub id_segments : List Str
  pub has_event_key : Bool

abbrev pub unwrap_or : Str → Option Str → Str
unwrap_or name none = name
unwrap_or name (some override) = override

-- `GenContext::new`, in its two parts.
abbrev pub builtins : KeyOverrides → Builtins
builtins ovr = record {
  log = unwrap_or (chars "log") ovr.log.key;
  level = unwrap_or (chars "level") ovr.log.level;
  message = unwrap_or (chars "message") ovr.log.message;
  event = unwrap_or (chars "event") ovr.event.key;
  event_id = unwrap_or (chars "id") ovr.event.id;
  event_timestamp = unwrap_or (chars "timestamp") ovr.event.timestamp;
  duration = unwrap_or (chars "duration") ovr.duration.key;
  duration_total_ms = unwrap_or (chars "total_ms") ovr.duration.total_ms;
}

abbrev pub new : GenContext
new = record {
  keys = [];
  key_index = [];
  paths = [];
  path_index = [];
  defaults = [];
  duration_segments = [];
  has_duration_marker = false;
  timestamp_segments = [];
  id_segments = [];
  has_event_key = false;
}

-- `BTreeMap::get`
unfoldable pub get_index : Str → List (Str × ℕ) → Option ℕ
get_index name [] = none
get_index name ((k, i) ∷ index) = if str_eq k name then some i else get_index name index

-- `segments.join(".")`
unfoldable pub join : List Str → Str
join [] = []
join (s ∷ []) = s
join (s ∷ t ∷ rest) = s ++ b'.' ∷ join (t ∷ rest)

-- A character in front of the words behind it; a separator begins a new word.
abbrev pub put_char : ℕ → List Str → List Str
put_char c [] = []
put_char c (w ∷ ws) = if c == b'_' || c == b'.' then [] ∷ w ∷ ws else (c ∷ w) ∷ ws

-- `name.split(['_', '.'])`
unfoldable pub split_words : Str → List Str
split_words [] = [] ∷ []
split_words (c ∷ s) = put_char c (split_words s)

-- A path that is not empty, from its parent and its last segment.
abbrev pub snoc : List Str → Str → List Str
snoc parent name = parent ++ name ∷ []

abbrev pub enter_path : List Str → GenContext → Option ℕ → GenContext
enter_path segments c (some i) = c
enter_path segments c none = record c {
  paths = c.paths ++ record { dotted = join segments; segments = segments } ∷ [];
  path_index = (join segments, length c.paths) ∷ c.path_index;
}

unfoldable pub add_path : List Str → GenContext → GenContext
unfolding get_index join
add_path segments c = enter_path segments c (get_index (join segments) c.path_index)

abbrev pub push_default : List Str → DefaultValue → GenContext → GenContext
push_default segments v c = record c {
  defaults = c.defaults ++ record { segments = segments; value = v } ∷ [];
}

abbrev pub number_value : Number → DefaultValue
number_value (Number.int x) = int x
number_value (Number.uint x) = uint x
number_value (Number.float x) = float x

-- `has_duration_marker = true` and the path that the guard is to set.
abbrev pub mark_duration : List Str → GenContext → GenContext
mark_duration path c = record c { has_duration_marker = true; duration_segments = path }

module _ (upper : ℕ → Str) where
  -- A word with its first character in upper case.
  abbrev pub capitalize : Str → Str
  capitalize [] = []
  capitalize (c ∷ s) = upper c ++ s

  abbrev pub pascal_words : List Str → Str
  pascal_words [] = []
  pascal_words (w ∷ ws) = capitalize w ++ pascal_words ws

  unfoldable pub to_pascal_case : Str → Str
  unfolding is_rust_keyword split_words
  to_pascal_case name =
      let result = pascal_words (split_words name) in
      if is_rust_keyword result then result ++ b'_' ∷ [] else result

  -- The entry that `add_key` makes, unless the name has an index.
  abbrev pub enter_key : Str → GenContext → Option ℕ → GenContext
  enter_key name c (some i) = c
  enter_key name c none = record c {
    keys = c.keys ++ record { json_name = name; variant = to_pascal_case name } ∷ [];
    key_index = (name, length c.keys) ∷ c.key_index;
  }

  -- Its callers do not use the index that it returns.
  unfoldable pub add_key : Str → GenContext → GenContext
  unfolding get_index to_pascal_case
  add_key name c = enter_key name c (get_index name c.key_index)

  -- The first two calls of each arm of `walk`.
  abbrev pub add_node : List Str → Str → GenContext → GenContext
  add_node parent name c = add_path (snoc parent name) (add_key name c)

  -- `walk` at the path `snoc parent name`, and its loops over an object's entries. The empty path
  -- comes with the root object only, where `walk` is the loop.
  unfoldable mutual
    unfolding add_key add_path

    pub walk : JsonNode → List Str → Str → GenContext → GenContext
    walk (JsonNode.object entries) parent name c =
        walk_entries entries (snoc parent name) (add_node parent name c)
    walk JsonNode.null parent name c = add_node parent name c
    walk (JsonNode.bool b) parent name c =
        push_default (snoc parent name) (bool b) (add_node parent name c)
    walk (JsonNode.number n) parent name c =
        push_default (snoc parent name) (number_value n) (add_node parent name c)
    walk (JsonNode.str s) parent name c =
        push_default (snoc parent name) (str s) (add_node parent name c)
    walk (JsonNode.marker Marker.duration) parent name c =
        mark_duration (snoc parent name) (add_node parent name c)
    walk (JsonNode.marker Marker.counter) parent name c = add_node parent name c

    pub walk_entries : Entries → List Str → GenContext → GenContext
    walk_entries Entries.nil path c = c
    walk_entries (Entries.entry k v rest) path c = walk_entries rest path (walk v path k c)
