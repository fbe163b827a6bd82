-- ===== src/Schema/Defaults/Leaves.antt =====
-- Every leaf that the schema declares with a value becomes a default (wide-log-macros/src/codegen.rs).
use wide_log.Prelude.{
  ℕ, ◌≡◌, refl, sym, ◌∙◌, ap, subst, some, List, [], ◌∷◌, ◌++◌, append_assoc, ◌⊎◌, inl, inr, Str,
  str_eq, str_eq→eq, Bool-cases, ◌>>=◌, ◌↔◌, All,
}
use wide_log.Parse.{JsonNode, Entries, Marker}
use wide_log.Parse.Unique.{IsUniqueEntries}
use wide_log.Schema.{
  Builtins, GenContext, DefaultEntry, DefaultValue, ok, new, snoc, add_node, push_default,
  number_value, walk, walk_entries,
}
use wide_log.Schema.Builtin.{find, generate}
use wide_log.Schema.Defaults.{
  default_of, below, node_at, IsDeclared, add_node-defaults, Kept, Pushes, same-Kept,
}
use wide_log.Schema.Defaults.Declared.{generate-Kept, generate-AllDeclared}

-- The default is in the list.
abbrev pub Contains : DefaultEntry → List DefaultEntry → Type 0
Contains d [] = ⊥
Contains d (x ∷ xs) = (x ≡ d) ⊎ Contains d xs

Contains-append :
    (d : DefaultEntry) (xs ys : List DefaultEntry) → Contains d xs → Contains d (xs ++ ys)
Contains-append d [] ys h = absurd h
Contains-append d (x ∷ xs) ys (inl same) = inl same
Contains-append d (x ∷ xs) ys (inr h) = inr (Contains-append d xs ys h)

Contains-last : (d : DefaultEntry) (xs : List DefaultEntry) → Contains d (xs ++ d ∷ [])
Contains-last d [] = inl refl
Contains-last d (x ∷ xs) = inr (Contains-last d xs)

module _ (upper : ℕ → Str) (d : DefaultEntry) where
  abbrev Has : GenContext → Type 0
  Has = Kept (Contains d)

  node-Has :
      (parent : List Str) (k : Str) (c : GenContext) → Has c → Has (add_node upper parent k c)
  node-Has parent k c =
      same-Kept (Contains d) c (add_node upper parent k c) (add_node-defaults upper parent k c)

  push-Has :
      (path : List Str) (v : DefaultValue) (c : GenContext) → Has c → Has (push_default path v c)
  push-Has path v c h = Contains-append d c.defaults _ h

  -- The walk drops no default.
  mutual
    unfolding walk

    walk-Has :
        (v : JsonNode) (parent : List Str) (k : Str) (c : GenContext)
        → Has c
        → Has (walk upper v parent k c)
    walk-Has (JsonNode.object es) parent k c h =
        entries-Has es (snoc parent k) (add_node upper parent k c) (node-Has parent k c h)
    walk-Has JsonNode.null parent k c h = node-Has parent k c h
    walk-Has (JsonNode.bool b) parent k c h =
        push-Has (snoc parent k) (DefaultValue.bool b) (add_node upper parent k c)
          (node-Has parent k c h)
    walk-Has (JsonNode.number n) parent k c h =
        push-Has (snoc parent k) (number_value n) (add_node upper parent k c)
          (node-Has parent k c h)
    walk-Has (JsonNode.str s) parent k c h =
        push-Has (snoc parent k) (DefaultValue.str s) (add_node upper parent k c)
          (node-Has parent k c h)
    walk-Has (JsonNode.marker Marker.duration) parent k c h = node-Has parent k c h
    walk-Has (JsonNode.marker Marker.counter) parent k c h = node-Has parent k c h

    entries-Has :
        (es : Entries) (path : List Str) (c : GenContext)
        → Has c
        → Has (walk_entries upper es path c)
    entries-Has Entries.nil path c h = h
    entries-Has (Entries.entry k v rest) path c h =
        entries-Has rest path (walk upper v path k c) (walk-Has v path k c h)

  snoc-append : (p : List Str) (k : Str) (q : List Str) → p ++ k ∷ q ≡ snoc p k ++ q
  snoc-append p k q = sym (append_assoc p (k ∷ []) q)

  leaf-Has :
      (path : List Str) (v : DefaultValue) (c : GenContext)
      → d.segments ≡ path
      → v ≡ d.value
      → Has (push_default path v c)
  leaf-Has path v c at same =
      let one : d ≡ record { segments = path; value = v } = cc in
      subst (λ e. Contains d (c.defaults ++ e ∷ [])) one (Contains-last d c.defaults)

  -- The walk of a node adds the default of each leaf at or below it.
  mutual
    unfolding walk node_at find

    walk-adds :
        (v : JsonNode) (parent : List Str) (k : Str) (q : List Str) (c : GenContext)
        → d.segments ≡ parent ++ k ∷ q
        → (below q (some v) (node_at q) >>= default_of) ≡ some d.value
        → Has (walk upper v parent k c)
    walk-adds (JsonNode.object es) parent k [] c at h = cc
    walk-adds (JsonNode.object es) parent k (s ∷ q) c at h =
        entries-adds es (snoc parent k) s q (add_node upper parent k c)
          (at ∙ snoc-append parent k (s ∷ q)) h
    walk-adds (JsonNode.bool b) parent k [] c at h =
        leaf-Has (snoc parent k) (DefaultValue.bool b) (add_node upper parent k c) at (cc h)
    walk-adds (JsonNode.number n) parent k [] c at h =
        leaf-Has (snoc parent k) (number_value n) (add_node upper parent k c) at (cc h)
    walk-adds (JsonNode.str s) parent k [] c at h =
        leaf-Has (snoc parent k) (DefaultValue.str s) (add_node upper parent k c) at (cc h)
    walk-adds JsonNode.null parent k [] c at h = cc
    walk-adds (JsonNode.marker m) parent k [] c at h = cc
    walk-adds JsonNode.null parent k (s ∷ q) c at h = cc
    walk-adds (JsonNode.bool b) parent k (s ∷ q) c at h = cc
    walk-adds (JsonNode.number n) parent k (s ∷ q) c at h = cc
    walk-adds (JsonNode.str x) parent k (s ∷ q) c at h = cc
    walk-adds (JsonNode.marker m) parent k (s ∷ q) c at h = cc

    entries-adds :
        (es : Entries) (path : List Str) (s : Str) (q : List Str) (c : GenContext)
        → d.segments ≡ path ++ s ∷ q
        → (below q (find s es) (node_at q) >>= default_of) ≡ some d.value
        → Has (walk_entries upper es path c)
    entries-adds Entries.nil path s [] c at h = cc
    entries-adds Entries.nil path s (t ∷ q) c at h = cc
    entries-adds (Entries.entry k v rest) path s q c at h = elim (Bool-cases (str_eq k s)) [
      | inl same ↦
          let e = str_eq→eq k s same in
          entries-Has rest path (walk upper v path k c)
            (walk-adds v path k q c (at ∙ ap (λ x. path ++ x ∷ q) (sym e)) (rw same at h))
      | inr other ↦ entries-adds rest path s q (walk upper v path k c) at (rw other at h)
    ]

  -- Every declared leaf with a value is a default of the accepted schema.
  generate-Contains :
      (b : Builtins) (root : Entries) (c : GenContext)
      → IsUniqueEntries root
      → generate upper b root ≡ ok c
      → IsDeclared root d
      → Contains d c.defaults
  unfolding node_at
  generate-Contains b root c unique made declared = by_path d.segments refl declared
    where
      push : Pushes root (Contains d)
      push ds e h has = Contains-append d ds _ has

      by_path :
          (p : List Str)
          → d.segments ≡ p
          → (node_at p root >>= default_of) ≡ some d.value
          → Contains d c.defaults
      by_path [] at h = cc
      by_path (s ∷ q) at h =
          generate-Kept upper b root unique (Contains d) push c (entries-adds root [] s q new at h)
            made

Contains-All :
    (P : DefaultEntry → Type 0) (d : DefaultEntry) (ds : List DefaultEntry)
    → Contains d ds
    → All P ds
    → P d
Contains-All P d [] h all = absurd h
Contains-All P d (x ∷ xs) (inl same) all = subst P same all.0
Contains-All P d (x ∷ xs) (inr h) all = Contains-All P d xs h all.1

module _ (upper : ℕ → Str) (b : Builtins) where
  -- In every schema that `generate` accepts and in which no object has a key twice, the defaults are exactly
  -- the leaves that the schema declares with a value: a path and a value are among them just when the schema
  -- has a leaf with that value at that path, at whatever depth, in the built-in objects too.
  pub generate-IsDeclared :
      (root : Entries) (c : GenContext) (d : DefaultEntry)
      → IsUniqueEntries root
      → generate upper b root ≡ ok c
      → Contains d c.defaults ↔ IsDeclared root d
  generate-IsDeclared root c d unique made = (
    λ h.
        Contains-All (IsDeclared root) d c.defaults h
          (generate-AllDeclared upper b root unique c made),
    generate-Contains upper d b root c unique made,
  )
