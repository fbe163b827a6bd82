-- ===== src/Schema/EventSubtree.antt =====
-- The subtree `event` of wide-log-macros/src/codegen.rs: the timestamp's path and the id's are set.
use wide_log.Prelude.{
  ℕ, ◌≡◌, refl, ◌∙◌, Bool, true, false, ◌||◌, Option, none, some, [], ◌∷◌, Str, str_eq,
  if◌then◌else◌,
}
use wide_log.Parse.{JsonNode, Entries}
use wide_log.Schema.{Builtins, GenContext, add_key, add_path, walk}
use wide_log.Schema.Builtin.{
  find, add_root, timestamp_path, id_path, add_event_subtree, walk_or_add, walk_others,
  resolve_event_entries, resolve_event_subtree, resolve_event, auto_add_event,
}
use wide_log.Schema.Tables.{
  Has, Registered, Placed, Grows, Grows-trans, Registered-Extends, IsGood, Leads, Keeps-refl,
  Leads-trans, Placed-Keeps, add_key-Leads,
}
use wide_log.Schema.Walk.{add_path-Leads, add_node-Leads, walk_step, walk-Leads}
use wide_log.Schema.Subtrees.{Ends, add_root-Leads}

module _ (upper : ℕ → Str) (b : Builtins) where
  -- The context after the event subtree: good, grown from the one at the start, still marked, and with
  -- the two paths.
  pub record HasEvent (start c : GenContext) : Type 0 where
    pub good : IsGood upper c
    pub grown : Grows start c
    pub marked : c.has_duration_marker ≡ true
    pub timestamp : c.timestamp_segments ≡ timestamp_path upper b
    pub id : c.id_segments ≡ id_path upper b

  -- The three fields that `add_event_subtree` sets at its end.
  set_event-HasEvent :
      (start c : GenContext)
      → IsGood upper c
      → Grows start c
      → c.has_duration_marker ≡ true
      → Placed c (timestamp_path upper b)
      → Placed c (id_path upper b)
      → HasEvent start (record c {
        timestamp_segments = timestamp_path upper b;
        id_segments = id_path upper b;
        has_event_key = true;
      })
  set_event-HasEvent start c g grown m pt pi = record {
    good = record {
      keys = g.keys;
      variants = g.variants;
      paths = g.paths;
      path_keys = g.path_keys;
      defaults = g.defaults;
      duration = g.duration;
      timestamp = pt;
      id = pi;
      marked = g.marked;
    };
    grown = grown;
    marked = m;
    timestamp = refl;
    id = refl;
  }

  add_event_subtree-HasEvent :
      (c : GenContext)
      → IsGood upper c
      → c.has_duration_marker ≡ true
      → HasEvent c (add_event_subtree upper b c)
  unfolding add_event_subtree
  add_event_subtree-HasEvent c g m =
      let c₁ = add_key upper b.event c in
      let c₂ = add_key upper b.event_timestamp c₁ in
      let c₃ = add_key upper b.event_id c₂ in
      let c₄ = add_path (b.event ∷ []) c₃ in
      let c₅ = add_path (timestamp_path upper b) c₄ in
      let c₆ = add_path (id_path upper b) c₅ in
      let (s₁, (i, at)) = add_key-Leads upper b.event c g in
      let (s₂, (j, there)) = add_key-Leads upper b.event_timestamp c₁ s₁.0 in
      let (s₃, here) = add_key-Leads upper b.event_id c₂ s₂.0 in
      let root : Has c₃.key_index b.event = (i, s₃.1.keys b.event i (s₂.1.keys b.event i at)) in
      let stamp : Has c₃.key_index b.event_timestamp = (j, s₃.1.keys b.event_timestamp j there) in
      let (s₄, _) = add_path-Leads upper (b.event ∷ []) c₃ s₃.0 (root, tt) in
      let all =
        Registered-Extends c₃.key_index c₄.key_index (b.event ∷ b.event_timestamp ∷ b.event_id ∷ [])
          s₄.1.keys (root, (stamp, (here, tt))) in
      let (s₅, pt) = add_path-Leads upper (timestamp_path upper b) c₄ s₄.0 (all.0, (all.1.0, tt)) in
      let both =
        Registered-Extends c₄.key_index c₅.key_index (id_path upper b) s₅.1.keys
          (all.0, (all.1.1.0, tt)) in
      let (s₆, pi) = add_path-Leads upper (id_path upper b) c₅ s₅.0 both in
      let s =
        Leads-trans upper c c₃ c₆ (Leads-trans upper c c₂ c₃ (Leads-trans upper c c₁ c₂ s₁ s₂) s₃)
          (Leads-trans upper c₃ c₅ c₆ (Leads-trans upper c₃ c₄ c₅ s₄ s₅) s₆) in
      set_event-HasEvent c c₆ s₆.0 (s.1.keys, s.1.paths) (s.1.marker m)
        (Placed-Keeps upper c₅ c₆ (timestamp_path upper b) s₆.1 pt) pi

  walk_or_add-Leads :
      (name : Str) (o : Option JsonNode) (c : GenContext)
      → IsGood upper c
      → Registered c.key_index (b.event ∷ [])
      → Leads upper c (walk_or_add upper b name o c)
        × Placed (walk_or_add upper b name o c) (b.event ∷ name ∷ [])
  walk_or_add-Leads name none c g r = add_node-Leads upper (b.event ∷ []) name c g r
  walk_or_add-Leads name (some v) c g r = walk_step upper v (b.event ∷ []) name c g r

  other_round-Leads :
      (k : Str) (v : JsonNode) (c : GenContext) (skip : Bool)
      → IsGood upper c
      → Registered c.key_index (b.event ∷ [])
      → Leads upper c (if skip then c else walk upper v (b.event ∷ []) k c)
  other_round-Leads k v c true g r = (g, Keeps-refl upper c)
  other_round-Leads k v c false g r = walk-Leads upper v (b.event ∷ []) k c g r

  walk_others-Leads :
      (entries : Entries) (c : GenContext)
      → IsGood upper c
      → Registered c.key_index (b.event ∷ [])
      → Leads upper c (walk_others upper b entries c)
  unfolding walk_others
  walk_others-Leads Entries.nil c g r = (g, Keeps-refl upper c)
  walk_others-Leads (Entries.entry k v rest) c g r =
      let s₁ = other_round-Leads k v c (str_eq k b.event_timestamp || str_eq k b.event_id) g r in
      let r₁ = Registered-Extends c.key_index _ (b.event ∷ []) s₁.1.keys r in
      Leads-trans upper c _ _ s₁ (walk_others-Leads rest _ s₁.0 r₁)

  set_timestamp-IsGood :
      (c : GenContext)
      → IsGood upper c
      → Placed c (timestamp_path upper b)
      → IsGood upper (record c { timestamp_segments = timestamp_path upper b })
  set_timestamp-IsGood c g pt = record {
    keys = g.keys;
    variants = g.variants;
    paths = g.paths;
    path_keys = g.path_keys;
    defaults = g.defaults;
    duration = g.duration;
    timestamp = pt;
    id = g.id;
    marked = g.marked;
  }

  set_id-IsGood :
      (c : GenContext)
      → IsGood upper c
      → Placed c (id_path upper b)
      → IsGood upper (record c { id_segments = id_path upper b })
  set_id-IsGood c g pi = record {
    keys = g.keys;
    variants = g.variants;
    paths = g.paths;
    path_keys = g.path_keys;
    defaults = g.defaults;
    duration = g.duration;
    timestamp = g.timestamp;
    id = pi;
    marked = g.marked;
  }

  set_flag-HasEvent :
      (start c : GenContext) → HasEvent start c → HasEvent start (record c { has_event_key = true })
  set_flag-HasEvent start c h = record {
    good = record {
      keys = h.good.keys;
      variants = h.good.variants;
      paths = h.good.paths;
      path_keys = h.good.path_keys;
      defaults = h.good.defaults;
      duration = h.good.duration;
      timestamp = h.good.timestamp;
      id = h.good.id;
      marked = h.good.marked;
    };
    grown = h.grown;
    marked = h.marked;
    timestamp = h.timestamp;
    id = h.id;
  }

  resolve_event_entries-HasEvent :
      (entries : Entries) (c : GenContext)
      → IsGood upper c
      → c.has_duration_marker ≡ true
      → Registered c.key_index (b.event ∷ [])
      → HasEvent c (resolve_event_entries upper b entries c)
  resolve_event_entries-HasEvent entries c g m r =
      let c₁ = walk_or_add upper b b.event_timestamp (find b.event_timestamp entries) c in
      let c₂ = record c₁ { timestamp_segments = timestamp_path upper b } in
      let c₃ = walk_or_add upper b b.event_id (find b.event_id entries) c₂ in
      let c₄ = record c₃ { id_segments = id_path upper b } in
      let c₅ = walk_others upper b entries c₄ in
      let (s₁, pt) = walk_or_add-Leads b.event_timestamp (find b.event_timestamp entries) c g r in
      let g₂ = set_timestamp-IsGood c₁ s₁.0 pt in
      let r₂ = Registered-Extends c.key_index c₁.key_index (b.event ∷ []) s₁.1.keys r in
      let (s₃, pi) = walk_or_add-Leads b.event_id (find b.event_id entries) c₂ g₂ r₂ in
      let g₄ = set_id-IsGood c₃ s₃.0 pi in
      let r₄ = Registered-Extends c₁.key_index c₃.key_index (b.event ∷ []) s₃.1.keys r₂ in
      let s₅ = walk_others-Leads entries c₄ g₄ r₄ in
      let g₁₃ = Grows-trans c c₁ c₃ (s₁.1.keys, s₁.1.paths) (s₃.1.keys, s₃.1.paths) in
      set_flag-HasEvent c c₅ (record {
        good = s₅.0;
        grown = Grows-trans c c₃ c₅ g₁₃ (s₅.1.keys, s₅.1.paths);
        marked = s₅.1.marker (s₃.1.marker (s₁.1.marker m));
        timestamp = s₅.1.timestamp ∙ s₃.1.timestamp;
        id = s₅.1.id;
      })

  pub from_root :
      (c root : GenContext) {c' : GenContext} → Grows c root → HasEvent root c' → HasEvent c c'
  from_root c root {c'} more h = record {
    good = h.good;
    grown = Grows-trans c root c' more h.grown;
    marked = h.marked;
    timestamp = h.timestamp;
    id = h.id;
  }

  resolve_event_subtree-Ends :
      (v : JsonNode) (c : GenContext)
      → IsGood upper c
      → c.has_duration_marker ≡ true
      → Ends (HasEvent c) (resolve_event_subtree upper b v c)
  unfolding resolve_event_subtree
  resolve_event_subtree-Ends (JsonNode.object Entries.nil) c g m =
      let (s₁, placed) = add_root-Leads upper b b.event c g in
      from_root c (add_root upper b b.event c) (s₁.1.keys, s₁.1.paths)
        (add_event_subtree-HasEvent (add_root upper b b.event c) s₁.0 (s₁.1.marker m))
  resolve_event_subtree-Ends (JsonNode.object (Entries.entry k v rest)) c g m =
      let (s₁, placed) = add_root-Leads upper b b.event c g in
      from_root c (add_root upper b b.event c) (s₁.1.keys, s₁.1.paths)
        (resolve_event_entries-HasEvent (Entries.entry k v rest) (add_root upper b b.event c) s₁.0
          (s₁.1.marker m) placed.0)
  resolve_event_subtree-Ends JsonNode.null c g m = tt
  resolve_event_subtree-Ends (JsonNode.bool x) c g m = tt
  resolve_event_subtree-Ends (JsonNode.number n) c g m = tt
  resolve_event_subtree-Ends (JsonNode.str s) c g m = tt
  resolve_event_subtree-Ends (JsonNode.marker x) c g m = tt

  pub auto_add_event-Ends :
      (entries : Entries) (c : GenContext)
      → IsGood upper c
      → c.has_duration_marker ≡ true
      → Ends (HasEvent c) (auto_add_event upper b entries c)
  unfolding auto_add_event
  auto_add_event-Ends entries c g m = by_entry (find b.event entries)
    where
      by_entry : (o : Option JsonNode) → Ends (HasEvent c) (resolve_event upper b o c)
      by_entry none = add_event_subtree-HasEvent c g m
      by_entry (some v) = resolve_event_subtree-Ends v c g m
