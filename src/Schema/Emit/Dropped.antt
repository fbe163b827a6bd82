-- ===== src/Schema/Emit/Dropped.antt =====
-- The guard of src/guard.rs over the key that wide-log-macros/src/codegen.rs generates for a schema.
use wide_log.Prelude.{
  ℕ, ◌≡◌, ◌≢◌, refl, sym, ◌∙◌, ap, subst, true, some, List, [], ◌∷◌, map, Str, length, get_elem?,
}
use wide_log.Key.{Key, IsKey}
use wide_log.Value.{Value, WideEvent, f64}
use wide_log.Event.{Context}
use wide_log.Event.Lookup.{Observes}
use wide_log.Guard.{FloatOps, duration_to_unit_f64, last_key, drop}
use wide_log.Guard.Fields.{SetsBoth, drop-SetsBoth}
use wide_log.Parse.{Entries}
use wide_log.Schema.{Builtins, GenContext, ok}
use wide_log.Schema.Builtin.{generate, timestamp_path}
use wide_log.Schema.Emit.{Variant, is_accepted, key_impl}
use wide_log.Schema.Emit.Generated.{IsEmitted, generate-IsEmitted}

-- Variants of different names have different indices.
as_index-differ :
    {K : Type 0} (key : Key K) (d t : K)
    → IsKey key
    → key.as_str d ≢ key.as_str t
    → key.as_index d ≢ key.as_index t
as_index-differ key d t lawful ne same =
    let at_d = lawful.indexed d in
    let at_t = subst (λ i. get_elem? key.keys i ≡ some t) (sym same) (lawful.indexed t) in
    let one : d ≡ t = cc in ne (ap key.as_str one)

-- The fields that the drop sets, over paths that begin with different names.
drop-SetsBoth-named :
    {K : Type 0} (cx : Context K) (dur ts : List K) (d t : Str) (ds us : List Str)
    → Observes cx
    → IsKey cx.key
    → cx.key.duration_path ≡ dur
    → cx.key.timestamp_path ≡ ts
    → map cx.key.as_str dur ≡ d ∷ ds
    → map cx.key.as_str ts ≡ t ∷ us
    → d ≢ t
    → (ops : FloatOps) (nanos : ℕ) (now : Str) (e : WideEvent)
    → (leaf : K) × (e' : WideEvent) × (last_key dur ≡ some leaf)
      × (drop cx ops nanos now e ≡ some e')
      × SetsBoth cx dur ts
          (f64 (duration_to_unit_f64 ops (cx.key.as_str leaf) nanos))
          (Value.str now)
          e
          e'
drop-SetsBoth-named cx [] ts d t ds us obs lawful at_d at_t h k ne ops nanos now e = cc
drop-SetsBoth-named cx (d₀ ∷ p) [] d t ds us obs lawful at_d at_t h k ne ops nanos now e = cc
drop-SetsBoth-named cx (d₀ ∷ p) (t₀ ∷ q) d t ds us obs lawful at_d at_t h k ne ops nanos now e =
    let name_d : cx.key.as_str d₀ ≡ d = cc in
    let name_t : cx.key.as_str t₀ ≡ t = cc in
    drop-SetsBoth cx obs ops nanos now e d₀ t₀ p q at_d at_t
      (as_index-differ cx.key d₀ t₀ lawful (λ eq. ne (sym name_d ∙ eq ∙ name_t)))

module _ (upper : ℕ → Str) (b : Builtins) where
  -- For every schema that `generate` accepts, with an enumeration that the compiler accepts, whose duration
  -- path does not begin with the key `event` (under its overridden name): when a guard over the generated key
  -- is dropped, whatever its event was, it emits an event that has the elapsed time at the schema's duration
  -- path, in the unit that the last key's name asks for, the time text at `event.timestamp`, and at every
  -- path apart from both the value that it had. The callbacks must leave the event alone.
  pub generate-drop-SetsBoth :
      (entries : Entries) (c : GenContext) (cx : Context (Variant (length c.keys))) (d : Str)
      (ds : List Str)
      → generate upper b entries ≡ ok c
      → is_accepted c.keys ≡ true
      → key_impl upper b c ≡ some cx.key
      → Observes cx
      → c.duration_segments ≡ d ∷ ds
      → d ≢ b.event
      → (ops : FloatOps) (nanos : ℕ) (now : Str) (e : WideEvent)
      → (leaf : Variant (length c.keys)) × (e' : WideEvent) × (last_key cx.key.duration_path
          ≡ some leaf)
        × (drop cx ops nanos now e ≡ some e')
        × SetsBoth cx cx.key.duration_path cx.key.timestamp_path
            (f64 (duration_to_unit_f64 ops (cx.key.as_str leaf) nanos))
            (Value.str now)
            e
            e'
        × (map cx.key.as_str cx.key.duration_path ≡ c.duration_segments)
        × (map cx.key.as_str cx.key.timestamp_path ≡ timestamp_path upper b)
  generate-drop-SetsBoth entries c cx d ds made accepted over obs begins apart ops nanos now e =
      let (key, there, emitted) = generate-IsEmitted upper b entries c made accepted in
      let same : key ≡ cx.key = cc in
      let h = subst (IsEmitted upper b c) same emitted in
      let (leaf, e', last, emits, sets) =
        drop-SetsBoth-named cx cx.key.duration_path cx.key.timestamp_path d b.event ds _ obs
          h.lawful refl refl (h.duration ∙ begins) h.timestamp apart ops nanos now e in
      (leaf, e', last, emits, sets, h.duration, h.timestamp)
