-- ===== src/Schema/Walk.antt =====
-- `add_path` and `walk` of wide-log-macros/src/codegen.rs keep the tables good.
use wide_log.Prelude.{
  ℕ, ◌≡◌, refl, Option, none, some, List, [], ◌∷◌, Str, str_eq_refl, length, All-append,
}
use wide_log.Parse.{JsonNode, Entries, Marker}
use wide_log.Schema.{
  GenContext, DefaultValue, bool, str, get_index, join, snoc, add_key, enter_path, add_path,
  push_default, mark_duration, add_node, number_value, walk, walk_entries,
}
use wide_log.Schema.Index.{Extends-cons, push-IsIndexed}
use wide_log.Schema.Tables.{
  Has, Registered, Placed, All-map, Registered-Extends, IsGood, Keeps, Leads, Keeps-refl,
  Leads-trans, Placed-Keeps, PlacedIfSet-Keeps, add_key-Leads,
}

module _ (upper : ℕ → Str) where
  enter_path-Leads :
      (segments : List Str) (c : GenContext) (o : Option ℕ)
      → get_index (join segments) c.path_index ≡ o
      → IsGood upper c
      → Registered c.key_index segments
      → Leads upper c (enter_path segments c o) × Placed (enter_path segments c o) segments
  enter_path-Leads segments c (some i) at g r = ((g, Keeps-refl upper c), (r, (i, at)))
  enter_path-Leads segments c none at g r =
      let c' = enter_path segments c none in
      let k : Keeps upper c c' = record {
        keys = λ n i h. h;
        paths = Extends-cons (join segments) (length c.paths) c.path_index at;
        marker = λ h. h;
        timestamp = refl;
        id = refl;
      } in
      let g' : IsGood upper c' = record {
        keys = g.keys;
        variants = g.variants;
        paths =
            push-IsIndexed (λ p. p.dotted) c.paths c.path_index
              (record { dotted = join segments; segments = segments }) at g.paths;
        path_keys =
            All-append (λ p. (p.dotted ≡ join p.segments) × Registered c.key_index p.segments)
              c.paths _ g.path_keys ((refl, r), tt);
        defaults =
            All-map _ _ (λ d placed. Placed-Keeps upper c c' d.segments k placed) c.defaults
              g.defaults;
        duration = PlacedIfSet-Keeps upper c c' c.duration_segments k g.duration;
        timestamp = PlacedIfSet-Keeps upper c c' c.timestamp_segments k g.timestamp;
        id = PlacedIfSet-Keeps upper c c' c.id_segments k g.id;
        marked = g.marked;
      } in
      ((g', k), (r, (length c.paths, unfold get_index in rw (str_eq_refl (join segments)))))

  pub add_path-Leads :
      (segments : List Str) (c : GenContext)
      → IsGood upper c
      → Registered c.key_index segments
      → Leads upper c (add_path segments c) × Placed (add_path segments c) segments
  unfolding add_path
  add_path-Leads segments c g r =
      enter_path-Leads segments c (get_index (join segments) c.path_index) refl g r

  pub add_node-Leads :
      (parent : List Str) (name : Str) (c : GenContext)
      → IsGood upper c
      → Registered c.key_index parent
      → Leads upper c (add_node upper parent name c)
        × Placed (add_node upper parent name c) (snoc parent name)
  add_node-Leads parent name c g r =
      let c₁ = add_key upper name c in
      let (step₁, here) = add_key-Leads upper name c g in
      let whole =
        All-append (Has c₁.key_index) parent (name ∷ [])
          (Registered-Extends c.key_index c₁.key_index parent step₁.1.keys r) (here, tt) in
      let (step₂, placed) = add_path-Leads (snoc parent name) c₁ step₁.0 whole in
      (Leads-trans upper c c₁ (add_node upper parent name c) step₁ step₂, placed)

  push_default-Leads :
      (segments : List Str) (v : DefaultValue) (c : GenContext)
      → IsGood upper c
      → Placed c segments
      → Leads upper c (push_default segments v c)
  push_default-Leads segments v c g placed = (
    record {
      keys = g.keys;
      variants = g.variants;
      paths = g.paths;
      path_keys = g.path_keys;
      defaults = All-append (λ d. Placed c d.segments) c.defaults _ g.defaults (placed, tt);
      duration = g.duration;
      timestamp = g.timestamp;
      id = g.id;
      marked = g.marked;
    },
    record { keys = λ n i h. h; paths = λ n i h. h; marker = λ h. h; timestamp = refl; id = refl },
  )

  pub mark_duration-Leads :
      (s : Str) (rest : List Str) (c : GenContext)
      → IsGood upper c
      → Placed c (s ∷ rest)
      → Leads upper c (mark_duration (s ∷ rest) c)
  mark_duration-Leads s rest c g placed = (
    record {
      keys = g.keys;
      variants = g.variants;
      paths = g.paths;
      path_keys = g.path_keys;
      defaults = g.defaults;
      duration = placed;
      timestamp = g.timestamp;
      id = g.id;
      marked = λ h. refl;
    },
    record {
      keys = λ n i h. h;
      paths = λ n i h. h;
      marker = λ h. refl;
      timestamp = refl;
      id = refl;
    },
  )

  -- The same, at a path that has a last segment.
  mark_snoc-Leads :
      (parent : List Str) (name : Str) (c : GenContext)
      → IsGood upper c
      → Placed c (snoc parent name)
      → Leads upper c (mark_duration (snoc parent name) c)
  mark_snoc-Leads [] name c g placed = mark_duration-Leads name [] c g placed
  mark_snoc-Leads (p ∷ parent) name c g placed = mark_duration-Leads p (snoc parent name) c g placed

  -- An arm of `walk`: the node, then a step from it.
  arm-Leads :
      (parent : List Str) (name : Str) (c c' : GenContext)
      → IsGood upper c
      → Registered c.key_index parent
      → (IsGood upper (add_node upper parent name c)
          → Placed (add_node upper parent name c) (snoc parent name)
          → Leads upper (add_node upper parent name c) c')
      → Leads upper c c' × Placed c' (snoc parent name)
  arm-Leads parent name c c' g r step =
      let (first, placed) = add_node-Leads parent name c g r in
      let then_on = step first.0 placed in
      (
        Leads-trans upper c (add_node upper parent name c) c' first then_on,
        Placed-Keeps upper (add_node upper parent name c) c' (snoc parent name) then_on.1 placed,
      )

  mutual
    unfolding walk

    pub walk_step :
        (v : JsonNode) (parent : List Str) (name : Str) (c : GenContext)
        → IsGood upper c
        → Registered c.key_index parent
        → Leads upper c (walk upper v parent name c)
          × Placed (walk upper v parent name c) (snoc parent name)
    walk_step (JsonNode.object entries) parent name c g r =
        arm-Leads parent name c _ g r (λ g₁ placed.
          walk_entries-Leads entries (snoc parent name) (add_node upper parent name c) g₁ placed.0)
    walk_step JsonNode.null parent name c g r = add_node-Leads parent name c g r
    walk_step (JsonNode.bool b) parent name c g r =
        arm-Leads parent name c _ g r
          (push_default-Leads (snoc parent name) (bool b) (add_node upper parent name c))
    walk_step (JsonNode.number n) parent name c g r =
        arm-Leads parent name c _ g r
          (push_default-Leads (snoc parent name) (number_value n) (add_node upper parent name c))
    walk_step (JsonNode.str s) parent name c g r =
        arm-Leads parent name c _ g r
          (push_default-Leads (snoc parent name) (str s) (add_node upper parent name c))
    walk_step (JsonNode.marker Marker.duration) parent name c g r =
        arm-Leads parent name c _ g r (mark_snoc-Leads parent name (add_node upper parent name c))
    walk_step (JsonNode.marker Marker.counter) parent name c g r = add_node-Leads parent name c g r

    pub walk_entries-Leads :
        (entries : Entries) (path : List Str) (c : GenContext)
        → IsGood upper c
        → Registered c.key_index path
        → Leads upper c (walk_entries upper entries path c)
    walk_entries-Leads Entries.nil path c g r = (g, Keeps-refl upper c)
    walk_entries-Leads (Entries.entry k v rest) path c g r =
        let c₁ = walk upper v path k c in
        let step₁ = (walk_step v path k c g r).0 in
        let step₂ =
          walk_entries-Leads rest path c₁ step₁.0
            (Registered-Extends c.key_index c₁.key_index path step₁.1.keys r) in
        Leads-trans upper c c₁ (walk_entries upper rest path c₁) step₁ step₂

  pub walk-Leads :
      (v : JsonNode) (parent : List Str) (name : Str) (c : GenContext)
      → IsGood upper c
      → Registered c.key_index parent
      → Leads upper c (walk upper v parent name c)
  walk-Leads v parent name c g r = (walk_step v parent name c g r).0
