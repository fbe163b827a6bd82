-- ===== src/Schema/Declared.antt =====
-- The paths that a schema declares, and that `generate` of wide-log-macros/src/codegen.rs has them all.
use wide_log.Prelude.{ℕ, ◌≡◌, subst, List, [], ◌∷◌, ◌++◌, append_assoc, Str}
use wide_log.Parse.{JsonNode, Entries}
use wide_log.Schema.{Builtins, GenContext, ok, new, snoc, add_node, walk, walk_entries}
use wide_log.Schema.Builtin.{generate}
use wide_log.Schema.Tables.{
  Registered, Placed, Placed-Keeps, Placed-Grows, Registered-Extends, IsGood,
}
use wide_log.Schema.Walk.{add_node-Leads, walk_step, walk_entries-Leads}
use wide_log.Schema.Generate.{new-IsGood, generate-Grows}

-- There is a node of the tree at the path.
pub data Declares : Entries → List Str → Type 0 where
  here : {k : Str} {v : JsonNode} {rest : Entries} → Declares (Entries.entry k v rest) (k ∷ [])
  below :
      {k : Str} {entries rest : Entries} {path : List Str}
      → Declares entries path
      → Declares (Entries.entry k (JsonNode.object entries) rest) (k ∷ path)
  later :
      {k : Str} {v : JsonNode} {rest : Entries} {path : List Str}
      → Declares rest path
      → Declares (Entries.entry k v rest) path

module _ (upper : ℕ → Str) where
  -- The rest of a loop keeps what an entry placed.
  rest-Placed :
      (entries : Entries) (parent path : List Str) (c c₁ : GenContext)
      → IsGood upper c₁
      → Registered c₁.key_index parent
      → Placed c₁ path
      → Placed (walk_entries upper entries parent c₁) path
  rest-Placed entries parent path c c₁ g r placed =
      Placed-Keeps upper c₁ (walk_entries upper entries parent c₁) path
        (walk_entries-Leads upper entries parent c₁ g r).1 placed

  walk_entries-Placed :
      {entries : Entries} {path : List Str} (parent : List Str) (c : GenContext)
      → Declares entries path
      → IsGood upper c
      → Registered c.key_index parent
      → Placed (walk_entries upper entries parent c) (parent ++ path)
  unfolding walk
  walk_entries-Placed parent c (here {k} {v} {rest}) g r =
      let c₁ = walk upper v parent k c in
      let (s, placed) = walk_step upper v parent k c g r in
      rest-Placed rest parent (snoc parent k) c c₁ s.0
        (Registered-Extends c.key_index c₁.key_index parent s.1.keys r) placed
  walk_entries-Placed parent c (below {k} {entries} {rest} {path} inside) g r =
      let c₀ = add_node upper parent k c in
      let c₁ = walk upper (JsonNode.object entries) parent k c in
      let (s₀, placed₀) = add_node-Leads upper parent k c g r in
      let placed = walk_entries-Placed (snoc parent k) c₀ inside s₀.0 placed₀.0 in
      let (s, _) = walk_step upper (JsonNode.object entries) parent k c g r in
      rest-Placed rest parent (parent ++ k ∷ path) c c₁ s.0
        (Registered-Extends c.key_index c₁.key_index parent s.1.keys r)
        (subst (Placed c₁) (append_assoc parent (k ∷ []) path) placed)
  walk_entries-Placed parent c (later {k} {v} {rest} {path} after) g r =
      let c₁ = walk upper v parent k c in
      let (s, _) = walk_step upper v parent k c g r in
      walk_entries-Placed parent c₁ after s.0
        (Registered-Extends c.key_index c₁.key_index parent s.1.keys r)

  -- In every schema that `generate` accepts, each node that it declares, at whatever depth, has all its
  -- segments among the keys and its dotted path in the table of paths.
  pub generate-Placed :
      (b : Builtins) (entries : Entries) (c : GenContext) (path : List Str)
      → generate upper b entries ≡ ok c
      → Declares entries path
      → Placed c path
  generate-Placed b entries c path made declared =
      Placed-Grows (walk_entries upper entries [] new) c path
        (generate-Grows upper b entries c made)
        (walk_entries-Placed [] new declared (new-IsGood upper b) tt)
