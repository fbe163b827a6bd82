-- ===== src/Schema/Defaults/Declared.antt =====
-- Every default of an accepted schema is a leaf that the schema declares (wide-log-macros/src/codegen.rs).
use wide_log.Prelude.{
  ℕ, ◌≡◌, refl, ◌∙◌, subst, Option, none, some, [], ◌∷◌, Str, str_eq, if◌then◌else◌, ◌||◌, not,
  List, All, All-append,
}
use wide_log.Parse.{JsonNode, Entries}
use wide_log.Parse.Unique.{IsUniqueEntries}
use wide_log.Schema.{
  walk_entries, GenContext, DefaultEntry, Builtins, ok, new, add_key, add_node, walk,
}
use wide_log.Schema.Builtin.{
  find, add_root, auto_add_duration, add_event_subtree, walk_or_add, walk_others,
  resolve_event_entries, resolve_event_subtree, resolve_event, auto_add_event, validate, generate,
  has_default, is_empty,
}
use wide_log.Schema.Defaults.{
  node_at, node_at-snoc, IsDeclared, AllDeclared, Located, Located-root, add_path-defaults,
  add_key-defaults, add_node-defaults, Kept, Pushes, same-Kept, walk-Kept, entries-Kept,
}
use wide_log.Schema.Defaults.Duration.{
  OkAll, OkAll-if, OkAll-then, found-IsUnique, section_Located, root-Kept, either, duration-Kept,
}

module _ (upper : ℕ → Str) (b : Builtins) (root : Entries) (unique : IsUniqueEntries root)
    (P : List DefaultEntry → Type 0) (push : Pushes root P) where
  event_subtree-Kept : (c : GenContext) → Kept P c → Kept P (add_event_subtree upper b c)
  unfolding add_event_subtree
  event_subtree-Kept c =
      let c₁ =
        add_key upper b.event_id (add_key upper b.event_timestamp (add_key upper b.event c)) in
      same-Kept P c (add_event_subtree upper b c) (
        add_path-defaults (b.event ∷ b.event_id ∷ []) _
        ∙ add_path-defaults (b.event ∷ b.event_timestamp ∷ []) _
        ∙ add_path-defaults (b.event ∷ []) c₁
        ∙ add_key-defaults upper b.event_id _
        ∙ add_key-defaults upper b.event_timestamp _
        ∙ add_key-defaults upper b.event c)

  walk_others-Kept :
      (es : Entries) (c : GenContext)
      → Located root (b.event ∷ []) es
      → Kept P c
      → Kept P (walk_others upper b es c)
  unfolding walk_others
  walk_others-Kept Entries.nil c l h = h
  walk_others-Kept (Entries.entry k v rest) c l h =
      walk_others-Kept rest
        (if str_eq k b.event_timestamp || str_eq k b.event_id
          then c
          else walk upper v (b.event ∷ []) k c)
        l.1
        (either upper b root unique P push (str_eq k b.event_timestamp || str_eq k b.event_id) c _ h
          (walk-Kept upper root P push v (b.event ∷ []) k c l.0.0 l.0.1 h))

  walk_or_add-Kept :
      (es : Entries) (name : Str) (o : Option JsonNode) (c : GenContext)
      → find name es ≡ o
      → node_at (b.event ∷ []) root ≡ some (JsonNode.object es)
      → IsUniqueEntries es
      → Kept P c
      → Kept P (walk_or_add upper b name o c)
  walk_or_add-Kept es name none c found at u h =
      same-Kept P c (add_node upper (b.event ∷ []) name c)
        (add_node-defaults upper (b.event ∷ []) name c) h
  walk_or_add-Kept es name (some v) c found at u h =
      walk-Kept upper root P push v (b.event ∷ []) name c
        (node_at-snoc (b.event ∷ []) root es name v at found) (found-IsUnique name v es u found) h

  event_entries-Kept :
      (es : Entries) (c : GenContext)
      → find b.event root ≡ some (JsonNode.object es)
      → Kept P c
      → Kept P (resolve_event_entries upper b es c)
  unfolding node_at
  event_entries-Kept es c found h =
      let at : node_at (b.event ∷ []) root ≡ some (JsonNode.object es) = rw found in
      let u = found-IsUnique b.event (JsonNode.object es) root unique found in
      let c₁ = walk_or_add upper b b.event_timestamp (find b.event_timestamp es) c in
      let h₁ = walk_or_add-Kept es b.event_timestamp (find b.event_timestamp es) c refl at u h in
      let h₂ =
        walk_or_add-Kept es b.event_id (find b.event_id es)
          (record c₁ { timestamp_segments = b.event ∷ b.event_timestamp ∷ [] }) refl at u h₁ in
      walk_others-Kept es _ (section_Located upper b root unique P push b.event es found) h₂

  event-Kept :
      (o : Option JsonNode) (c : GenContext)
      → find b.event root ≡ o
      → Kept P c
      → OkAll (Kept P) (resolve_event upper b o c)
  unfolding resolve_event_subtree
  event-Kept none c found h = event_subtree-Kept c h
  event-Kept (some (JsonNode.object Entries.nil)) c found h =
      event_subtree-Kept (add_root upper b b.event c)
        (root-Kept upper b root unique P push b.event c h)
  event-Kept (some (JsonNode.object (Entries.entry k v rest))) c found h =
      event_entries-Kept (Entries.entry k v rest) (add_root upper b b.event c) found
        (root-Kept upper b root unique P push b.event c h)
  event-Kept (some JsonNode.null) c found h = tt
  event-Kept (some (JsonNode.bool x)) c found h = tt
  event-Kept (some (JsonNode.number n)) c found h = tt
  event-Kept (some (JsonNode.str s)) c found h = tt
  event-Kept (some (JsonNode.marker m)) c found h = tt

  validate-Kept : (c : GenContext) → Kept P c → OkAll (Kept P) (validate upper b c)
  unfolding validate
  validate-Kept c h = OkAll-if (Kept P) (not c.has_duration_marker) _ _ tt (
      OkAll-if (Kept P) (is_empty c.duration_segments) _ _ tt (
        OkAll-if (Kept P) (is_empty c.timestamp_segments) _ _ tt (
          OkAll-if (Kept P) (is_empty c.id_segments) _ _ tt
            (OkAll-if (Kept P) (has_default c.id_segments c.defaults) _ _ tt h))))

  generate-OkAll : Kept P (walk_entries upper root [] new) → OkAll (Kept P) (generate upper b root)
  unfolding generate auto_add_duration auto_add_event
  generate-OkAll h =
      OkAll-then (Kept P) (Kept P) (auto_add_duration upper b root _) _
        (duration-Kept upper b root unique P push (find b.duration root)
          (walk_entries upper root [] new) refl h)
        (λ c₁ h₁.
          OkAll-then (Kept P) (Kept P) (auto_add_event upper b root c₁) _
            (event-Kept (find b.event root) c₁ refl h₁) (λ c₂ h₂. validate-Kept c₂ h₂))

  -- What holds after the walk of the whole schema holds at the end.
  pub generate-Kept :
      (c : GenContext)
      → Kept P (walk_entries upper root [] new)
      → generate upper b root ≡ ok c
      → Kept P c
  generate-Kept c h made = subst (OkAll (Kept P)) made (generate-OkAll h)

-- In every schema that `generate` accepts and in which no object has a key twice, each default is the
-- value of a leaf that the schema declares, at the leaf's own path.
pub generate-AllDeclared :
    (upper : ℕ → Str) (b : Builtins) (root : Entries)
    → IsUniqueEntries root
    → (c : GenContext) → generate upper b root ≡ ok c
    → AllDeclared root c
generate-AllDeclared upper b root unique c made =
    let push =
      λ (ds : List DefaultEntry) (d : DefaultEntry) (h : IsDeclared root d)
          (hs : All (IsDeclared root) ds).
        All-append (IsDeclared root) ds (d ∷ []) hs (h, tt) in
    generate-Kept upper b root unique (All (IsDeclared root)) push c
      (entries-Kept upper root (All (IsDeclared root)) push root [] new (Located-root root unique)
        tt)
      made
