-- ===== src/Schema/Defaults/Built.antt =====
-- A guard over the key that wide-log-macros/src/codegen.rs generates starts with the schema's defaults.
use wide_log.Prelude.{ℕ, ◌≡◌, subst, true, Option, some, List, [], ◌∷◌, map, Str, length}
use wide_log.Value.{Value, WideEvent, str}
use wide_log.Event.{Context}
use wide_log.Event.Lookup.{Observes, PathUpdate}
use wide_log.Guard.{build}
use wide_log.Guard.Built.{HasSegment, Defaulted, after_preset, returning, build-Defaulted}
use wide_log.Parse.{Entries}
use wide_log.Parse.Unique.{IsUniqueEntries}
use wide_log.Schema.{Builtins, GenContext, ok}
use wide_log.Schema.Builtin.{generate, id_path}
use wide_log.Schema.Defaults.Declared.{generate-AllDeclared}
use wide_log.Schema.Emit.{Variant, is_accepted, key_impl, default_stmts}
use wide_log.Schema.Emit.Generated.{
  IsEmitted, stmt_text, default_text, accepted-IsSchema, generate-IsEmitted, generate-default_stmts,
}
use wide_log.Schema.Defaults.Apart.{key_impl-tables, All-OfLeaf, All-IsSpread, All-HasSegment}

HasSegment-of-map :
    {K : Type 0} (name : K → Str) (p : List K) (s : Str) (ss : List Str)
    → map name p ≡ s ∷ ss
    → HasSegment p
HasSegment-of-map name [] s ss h = cc
HasSegment-of-map name (k ∷ p) s ss h = tt

module _ (upper : ℕ → Str) (b : Builtins) where
  -- For every schema that `generate` accepts, in which no object has a key twice, with an enumeration that
  -- the compiler accepts: the default statements are built, and they set the defaults of the schema in order.
  -- When a guard or scope over the generated key starts, with any preset that returns, none of them panics or
  -- undoes another one: there is first an event with all of them at their paths and nothing elsewhere;
  -- the preset gets it; and then the id is put at `event.id` (under its overridden name), and every path
  -- apart from that has what the preset left there. The callbacks must leave the event alone.
  pub generate-build-Defaulted :
      (root : Entries) (c : GenContext) (cx : Context (Variant (length c.keys)))
      (preset : Option (WideEvent → WideEvent)) (id : Str)
      → IsUniqueEntries root
      → generate upper b root ≡ ok c
      → is_accepted c.keys ≡ true
      → key_impl upper b c ≡ some cx.key
      → Observes cx
      → (stmts : List (List (Variant (length c.keys)) × Value)) × (start e : WideEvent)
        × (default_stmts upper c.keys c.defaults ≡ some stmts)
        × (map (stmt_text upper b c.keys) stmts ≡ map (default_text upper b) c.defaults)
        × (build cx stmts (returning preset) id ≡ some e)
        × Defaulted cx stmts start
        × PathUpdate cx (λ o. some (str id)) cx.key.id_path (after_preset preset start) e
        × (map cx.key.as_str cx.key.id_path ≡ id_path upper b)
  generate-build-Defaulted root c cx preset id unique made accepted over obs =
      let (stmts, built, spelled) = generate-default_stmts upper b root c made accepted in
      let (key, there, emitted) = generate-IsEmitted upper b root c made accepted in
      let same : key ≡ cx.key = cc in
      let named = subst (IsEmitted upper b c) same emitted in
      let good = (accepted-IsSchema upper b root c made).good in
      let tabled = (key_impl-tables upper b c cx.key over).1 in
      let leaves =
        All-OfLeaf upper b c cx good tabled root stmts c.defaults spelled
          (generate-AllDeclared upper b root unique c made) in
      let (start, e, ran, defaulted, updated) =
        build-Defaulted cx obs stmts preset id
          (All-HasSegment upper b c cx good tabled root stmts leaves)
          (All-IsSpread upper b c cx good tabled root stmts leaves)
          (HasSegment-of-map cx.key.as_str cx.key.id_path b.event (b.event_id ∷ []) named.id) in
      (stmts, start, e, built, spelled, ran, defaulted, updated, named.id)
