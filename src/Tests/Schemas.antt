-- ===== src/Tests/Schemas.antt =====
-- The theorems on the generator at a small schema.
use wide_log.Prelude.{
  ◌≢◌, ◌↔◌, ℕ, ◌-◌, true, map, length, All, ◌&&◌, ◌≡◌, refl, some, List, [], ◌∷◌, Str, chars,
  str_eq, contains, leb, if◌then◌else◌, Bool-cases, inl, inr, arith,
}
use wide_log.Parse.{Entries, nil, entry, object, str}
use wide_log.Parse.Overrides.{no_overrides}
use wide_log.Key.{Key}
use wide_log.Value.{Value, WideEvent}
use wide_log.Schema.{
  Builtins, builtins, GenContext, KeyEntry, PathEntry, DefaultEntry, DefaultValue, ok, join,
  to_pascal_case, split_words,
}
use wide_log.Schema.Keywords.{is_rust_keyword, is_one_of}
use wide_log.Schema.Builtin.{
  timestamp_path, id_path, generate, add_event_subtree, add_duration_subtree,
}
use wide_log.Schema.Tables.{Placed, Has}
use wide_log.Schema.Subtrees.{Ends}
use wide_log.Schema.Generate.{IsSchema, generate-Ends}
use wide_log.Schema.Declared.{here, below, generate-Placed}
use wide_log.Schema.Emit.{
  first, next, key_of, path_idents, variant_named, Variant, key_str, is_accepted, key_impl,
  default_stmts, resolve_arms, resolve_path,
}
use wide_log.Schema.Emit.Names.{IsFree, IsUpper, generate-IsFree}
use wide_log.Word.{release}
use wide_log.Event.{Context}
use wide_log.Event.Lookup.{Observes, PathUpdate}
use wide_log.Guard.{build, drop, last_key, duration_to_unit_f64}
use wide_log.Guard.Fields.{SetsBoth}
use wide_log.Guard.Built.{Defaulted, after_preset, returning}
use wide_log.Schema.Defaults.{IsDeclared}
use wide_log.Schema.Defaults.Leaves.{Contains, generate-IsDeclared}
use wide_log.Schema.Defaults.Built.{generate-build-Defaulted}
use wide_log.Schema.Emit.Variants.{generate-one_variant}
use wide_log.Parse.Unique.{IsUniqueEntries}
use wide_log.Value
use wide_log.Tests.{whole, unary}
use wide_log.Json.Reader.{Json}
use wide_log.Schema.Defaults.Written.{HasLeaf, Sets, generate-Sets}
use wide_log.Schema.Emit.Dropped.{generate-drop-SetsBoth}
use wide_log.Schema.Emit.Exact.{IsName, name, generate-resolve_path-exact}
use wide_log.Schema.Emit.Generated.{
  IsEmitted, IsPathTable, stmt_text, default_text, generate-IsEmitted, generate-IsPathTable,
  generate-resolve_path,
}

-- `char::to_uppercase` on ASCII.
abbrev ascii_upper : ℕ → Str
ascii_upper c = if leb b'a' c && leb c b'z' then (c - 32) ∷ [] else c ∷ []

abbrev names : Builtins
names = builtins no_overrides

abbrev key : Str → Str → KeyEntry
key json_name variant = record { json_name = json_name; variant = variant }

abbrev path : List Str → PathEntry
path segments = record { dotted = join segments; segments = segments }

-- `{ "user": { "self": "root" } }`
abbrev schema : Entries
schema = entry (chars "user") (object (entry (chars "self") (str (chars "root")) nil)) nil

-- What the macro makes of it.
abbrev made : GenContext
made = record {
  keys =
      key (chars "user") (chars "User")
      ∷ key (chars "self") (chars "Self_")
      ∷ key (chars "duration") (chars "Duration")
      ∷ key (chars "total_ms") (chars "TotalMs")
      ∷ key (chars "event") (chars "Event")
      ∷ key (chars "timestamp") (chars "Timestamp")
      ∷ key (chars "id") (chars "Id")
      ∷ [];
  key_index =
      (chars "id", 6)
      ∷ (chars "timestamp", 5)
      ∷ (chars "event", 4)
      ∷ (chars "total_ms", 3)
      ∷ (chars "duration", 2)
      ∷ (chars "self", 1)
      ∷ (chars "user", 0)
      ∷ [];
  paths =
      path (chars "user" ∷ [])
      ∷ path (chars "user" ∷ chars "self" ∷ [])
      ∷ path (chars "duration" ∷ [])
      ∷ path (chars "duration" ∷ chars "total_ms" ∷ [])
      ∷ path (chars "event" ∷ [])
      ∷ path (chars "event" ∷ chars "timestamp" ∷ [])
      ∷ path (chars "event" ∷ chars "id" ∷ [])
      ∷ [];
  path_index =
      (chars "event.id", 6)
      ∷ (chars "event.timestamp", 5)
      ∷ (chars "event", 4)
      ∷ (chars "duration.total_ms", 3)
      ∷ (chars "duration", 2)
      ∷ (chars "user.self", 1)
      ∷ (chars "user", 0)
      ∷ [];
  defaults =
      record {
        segments = chars "user" ∷ chars "self" ∷ [];
        value = DefaultValue.str (chars "root");
      }
      ∷ [];
  duration_segments = chars "duration" ∷ chars "total_ms" ∷ [];
  has_duration_marker = true;
  timestamp_segments = chars "event" ∷ chars "timestamp" ∷ [];
  id_segments = chars "event" ∷ chars "id" ∷ [];
  has_event_key = true;
}

made_from_schema : generate ascii_upper names schema ≡ ok made
unfolding generate str_eq add_event_subtree add_duration_subtree
made_from_schema = refl

made-is_accepted : is_accepted made.keys ≡ true
unfolding is_accepted str_eq
made-is_accepted = refl

generate-Ends_example : Ends (IsSchema ascii_upper names) (generate ascii_upper names schema)
generate-Ends_example = generate-Ends ascii_upper names schema

generate-Placed_example : Placed made (chars "user" ∷ chars "self" ∷ [])
generate-Placed_example =
    generate-Placed ascii_upper names schema made (chars "user" ∷ chars "self" ∷ [])
      made_from_schema (below here)

ascii_upper-IsUpper : IsUpper ascii_upper
ascii_upper-IsUpper c = elim (Bool-cases (leb b'a' c && leb c b'z')) [
  | inl low ↦ (c - 32, [], rw low refl, ground arith)
  | inr other ↦ (c, [], rw other refl, other)
]

generate-IsFree_example : All (λ e. IsFree e.variant) made.keys
generate-IsFree_example =
    generate-IsFree ascii_upper ascii_upper-IsUpper names schema made made_from_schema

generate-IsEmitted_example :
    (key : Key (Variant (length made.keys))) × (key_impl ascii_upper names made ≡ some key)
    × IsEmitted ascii_upper names made key
generate-IsEmitted_example =
    generate-IsEmitted ascii_upper names schema made made_from_schema made-is_accepted

generate-IsPathTable_example :
    (arms : List (Str × List (Variant (length made.keys)))) × (resolve_arms ascii_upper made.keys
        made.paths
      ≡ some arms)
    × IsPathTable ascii_upper names made arms
generate-IsPathTable_example =
    generate-IsPathTable ascii_upper names schema made made_from_schema made-is_accepted

generate-resolve_path_example :
    (arms : List (Str × List (Variant (length made.keys)))) × (ks : List
      (Variant (length made.keys)))
    × (resolve_arms ascii_upper made.keys made.paths ≡ some arms)
    × (resolve_path arms (join (chars "user" ∷ chars "self" ∷ [])) ≡ some ks)
    × (join (map (key_str made.keys) ks) ≡ join (chars "user" ∷ chars "self" ∷ []))
generate-resolve_path_example =
    generate-resolve_path ascii_upper names schema made (chars "user" ∷ chars "self" ∷ [])
      made_from_schema made-is_accepted (below here)

made-names : All (λ e. IsName e.json_name) made.keys
unfolding contains
made-names =
    (name refl, (name refl, (name refl, (name refl, (name refl, (name refl, (name refl, tt)))))))

generate-resolve_path-exact_example :
    (arms : List (Str × List (Variant (length made.keys)))) × (ks : List
      (Variant (length made.keys)))
    × (resolve_arms ascii_upper made.keys made.paths ≡ some arms)
    × (resolve_path arms (join (chars "user" ∷ chars "self" ∷ [])) ≡ some ks)
    × (map (key_str made.keys) ks ≡ chars "user" ∷ chars "self" ∷ [])
generate-resolve_path-exact_example =
    generate-resolve_path-exact ascii_upper names schema made (chars "user" ∷ chars "self" ∷ [])
      made_from_schema made-is_accepted made-names (below here)

abbrev third : Variant (length made.keys)
third = next (next first)

abbrev fifth : Variant (length made.keys)
fifth = next (next (next (next first)))

-- The key that the macro generates, and a site that uses it.
abbrev generated : Key (Variant (length made.keys))
generated =
    key_of names made (third ∷ next (next (next first)) ∷ [])
      (fifth ∷ next (next (next (next (next first)))) ∷ [])
      (fifth ∷ next (next (next (next (next (next first))))) ∷ [])

made-generated : key_impl ascii_upper names made ≡ some generated
unfolding key_impl path_idents variant_named to_pascal_case split_words is_rust_keyword is_one_of
    str_eq
made-generated = refl

abbrev generated_site : Context (Variant (length made.keys))
generated_site = record { key = generated; profile = release; call = λ f e k. e }

generated_site-Observes : Observes generated_site
generated_site-Observes = record { unchanged = λ f e k. refl }

not_event : chars "duration" ≢ chars "event"
not_event h = cc

generate-drop-SetsBoth_example :
    (leaf : Variant (length made.keys)) × (e' : WideEvent) × (last_key generated.duration_path
      ≡ some leaf)
    × (drop generated_site whole 5 (chars "now") Value.new ≡ some e')
    × SetsBoth generated_site generated.duration_path generated.timestamp_path
        (Value.f64 (duration_to_unit_f64 whole (generated.as_str leaf) 5))
        (Value.str (chars "now"))
        Value.new
        e'
    × (map generated.as_str generated.duration_path ≡ made.duration_segments)
    × (map generated.as_str generated.timestamp_path ≡ timestamp_path ascii_upper names)
generate-drop-SetsBoth_example =
    generate-drop-SetsBoth ascii_upper names schema made generated_site (chars "duration")
      (chars "total_ms" ∷ []) made_from_schema made-is_accepted made-generated
      generated_site-Observes refl not_event whole 5 (chars "now") Value.new

no_duplicates : IsUniqueEntries schema
unfolding str_eq
no_duplicates = (refl, (refl, tt, tt), tt)

generate-build-Defaulted_example :
    (stmts : List (List (Variant (length made.keys)) × Value)) × (start e : WideEvent)
    × (default_stmts ascii_upper made.keys made.defaults ≡ some stmts)
    × (map (stmt_text ascii_upper names made.keys) stmts
        ≡ map (default_text ascii_upper names) made.defaults)
    × (build generated_site stmts (returning (some (λ e. e))) (chars "01") ≡ some e)
    × Defaulted generated_site stmts start
    × PathUpdate generated_site
        (λ o. some (Value.str (chars "01")))
        generated.id_path
        (after_preset (some (λ e. e)) start)
        e
    × (map generated.as_str generated.id_path ≡ id_path ascii_upper names)
generate-build-Defaulted_example =
    generate-build-Defaulted ascii_upper names schema made generated_site (some (λ e. e))
      (chars "01") no_duplicates made_from_schema made-is_accepted made-generated
      generated_site-Observes

generate-one_variant_example :
    IsProp ((k : Variant (length made.keys)) × (key_str made.keys k ≡ chars "self"))
    × (Has made.key_index (chars "self")
        ↔ ((k : Variant (length made.keys)) × (key_str made.keys k ≡ chars "self")))
generate-one_variant_example =
    generate-one_variant ascii_upper names schema made (chars "self") made_from_schema

abbrev self_default : DefaultEntry
self_default = record {
  segments = chars "user" ∷ chars "self" ∷ [];
  value = DefaultValue.str (chars "root");
}

generate-IsDeclared_example : Contains self_default made.defaults ↔ IsDeclared schema self_default
generate-IsDeclared_example =
    generate-IsDeclared ascii_upper names schema made self_default no_duplicates made_from_schema

generate-Sets_example :
    (stmts : List (List (Variant (length made.keys)) × Value)) × (default_stmts ascii_upper
        made.keys made.defaults
      ≡ some stmts)
    × ((p : List Str) (j : Json)
        → Sets unary generated p j (map (stmt_text ascii_upper names made.keys) stmts)
          ↔ HasLeaf unary schema p j)
generate-Sets_example =
    generate-Sets unary generated ascii_upper names schema made no_duplicates made_from_schema
      made-is_accepted
