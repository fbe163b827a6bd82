-- ===== src/Schema/Subtrees.antt =====
-- The subtrees `duration` and `event` of wide-log-macros/src/codegen.rs: what they do to the tables, and
-- that the guard's three paths are set.
use wide_log.Prelude.{
  ℕ, ◌≡◌, refl, Bool, true, false, Option, none, some, List, [], ◌∷◌, Str, str_eq, if◌then◌else◌,
  Bool-cases, inl, inr,
}
use wide_log.Parse.{JsonNode, Entries, Marker}
use wide_log.Schema.{
  Builtins, GenContext, SchemaError, Outcome, ok, err, add_key, add_path, add_node, mark_duration,
  walk, walk_entries, ambiguous_duration, event_not_object, id_default,
}
use wide_log.Schema.Builtin.{
  find, is_duration_marker, has_marker, non_duration_leaves, without, is_some, add_duration_subtree,
  walk_total, resolve_leaves, resolve_entries, add_root, resolve_duration_subtree, resolve_duration,
  auto_add_duration,
}
use wide_log.Schema.Tables.{
  Has, Registered, Placed, Registered-Extends, IsGood, Leads, Keeps-refl, Leads-trans,
  add_key-Leads,
}
use wide_log.Schema.Walk.{
  add_path-Leads, add_node-Leads, mark_duration-Leads, walk-Leads, walk_entries-Leads,
}

-- The errors that a schema can cause; the others are the internal ones of `validate`.
abbrev pub IsUserError : SchemaError → Type 0
IsUserError ambiguous_duration = Unit
IsUserError event_not_object = Unit
IsUserError id_default = Unit
IsUserError _ = ⊥

-- An outcome with the property, or such an error.
abbrev pub Ends : (GenContext → Type 0) → Outcome GenContext → Type 0
Ends P (ok c) = P c
Ends P (err e) = IsUserError e

pub Ends-if :
    (P : GenContext → Type 0) (b : Bool) (x y : Outcome GenContext)
    → (b ≡ true → Ends P x)
    → (b ≡ false → Ends P y)
    → Ends P (if b then x else y)
Ends-if P true x y hx hy = hx refl
Ends-if P false x y hx hy = hy refl

module _ (upper : ℕ → Str) where
  pub add_root-Leads :
      (b : Builtins) (name : Str) (c : GenContext)
      → IsGood upper c
      → Leads upper c (add_root upper b name c) × Placed (add_root upper b name c) (name ∷ [])
  add_root-Leads b name c g =
      let (step₁, here) = add_key-Leads upper name c g in
      let (step₂, placed) =
        add_path-Leads upper (name ∷ []) (add_key upper name c) step₁.0 (here, tt) in
      (Leads-trans upper c (add_key upper name c) (add_root upper b name c) step₁ step₂, placed)

module _ (upper : ℕ → Str) (b : Builtins) where
  -- A step that also leaves the duration marked.
  abbrev pub Marks : GenContext → GenContext → Type 0
  Marks c c' = Leads upper c c' × (c'.has_duration_marker ≡ true)

  add_duration_subtree-Marks :
      (leaf : Str) (c : GenContext) → IsGood upper c → Marks c (add_duration_subtree upper b leaf c)
  unfolding add_duration_subtree
  add_duration_subtree-Marks leaf c g =
      let c₁ = add_key upper b.duration c in
      let c₂ = add_key upper leaf c₁ in
      let c₃ = add_path (b.duration ∷ []) c₂ in
      let c₄ = add_path (b.duration ∷ leaf ∷ []) c₃ in
      let c₅ = mark_duration (b.duration ∷ leaf ∷ []) c₄ in
      let (s₁, (i, at)) = add_key-Leads upper b.duration c g in
      let (s₂, here) = add_key-Leads upper leaf c₁ s₁.0 in
      let root : Has c₂.key_index b.duration = (i, s₂.1.keys b.duration i at) in
      let (s₃, _) = add_path-Leads upper (b.duration ∷ []) c₂ s₂.0 (root, tt) in
      let both =
        Registered-Extends c₂.key_index c₃.key_index (b.duration ∷ leaf ∷ []) s₃.1.keys
          (root, (here, tt)) in
      let (s₄, placed) = add_path-Leads upper (b.duration ∷ leaf ∷ []) c₃ s₃.0 both in
      let s₅ = mark_duration-Leads upper b.duration (leaf ∷ []) c₄ s₄.0 placed in
      (
        Leads-trans upper c c₁ c₅ s₁ (
            Leads-trans upper c₁ c₂ c₅ s₂
              (Leads-trans upper c₂ c₃ c₅ s₃ (Leads-trans upper c₃ c₄ c₅ s₄ s₅))),
        refl,
      )

  walk-marks :
      (v : JsonNode) (parent : List Str) (name : Str) (c : GenContext)
      → is_duration_marker v ≡ true
      → (walk upper v parent name c).has_duration_marker ≡ true
  unfolding walk
  walk-marks (JsonNode.marker Marker.duration) parent name c h = refl
  walk-marks (JsonNode.marker Marker.counter) parent name c h = cc
  walk-marks (JsonNode.object es) parent name c h = cc
  walk-marks JsonNode.null parent name c h = cc
  walk-marks (JsonNode.bool x) parent name c h = cc
  walk-marks (JsonNode.number n) parent name c h = cc
  walk-marks (JsonNode.str s) parent name c h = cc

  walk_entries-marks :
      (entries : Entries) (path : List Str) (c : GenContext)
      → IsGood upper c
      → Registered c.key_index path
      → has_marker entries ≡ true
      → (walk_entries upper entries path c).has_duration_marker ≡ true
  unfolding walk has_marker
  walk_entries-marks Entries.nil path c g r h = cc
  walk_entries-marks (Entries.entry k v rest) path c g r h =
      let c₁ = walk upper v path k c in
      let step = walk-Leads upper v path k c g r in
      let r₁ = Registered-Extends c.key_index c₁.key_index path step.1.keys r in
      elim (Bool-cases (is_duration_marker v)) [
        | inl is ↦
            (walk_entries-Leads upper rest path c₁ step.0 r₁).1.marker (walk-marks v path k c is)
        | inr isnt ↦ walk_entries-marks rest path c₁ step.0 r₁ (rw isnt at h)
      ]

  -- One round of the loop over an object that has `total_ms`.
  total_round-Leads :
      (k : Str) (v : JsonNode) (c : GenContext) (is : Bool)
      → IsGood upper c
      → Registered c.key_index (b.duration ∷ [])
      → Leads upper c (
          if is
          then mark_duration
              (b.duration ∷ b.duration_total_ms ∷ [])
              (add_node upper (b.duration ∷ []) b.duration_total_ms c)
          else walk upper v (b.duration ∷ []) k c)
  total_round-Leads k v c true g r =
      let c₁ = add_node upper (b.duration ∷ []) b.duration_total_ms c in
      let (s₁, placed) = add_node-Leads upper (b.duration ∷ []) b.duration_total_ms c g r in
      Leads-trans upper c c₁ (mark_duration (b.duration ∷ b.duration_total_ms ∷ []) c₁) s₁
        (mark_duration-Leads upper b.duration (b.duration_total_ms ∷ []) c₁ s₁.0 placed)
  total_round-Leads k v c false g r = walk-Leads upper v (b.duration ∷ []) k c g r

  walk_total-Leads :
      (entries : Entries) (c : GenContext)
      → IsGood upper c
      → Registered c.key_index (b.duration ∷ [])
      → Leads upper c (walk_total upper b entries c)
  unfolding walk_total
  walk_total-Leads Entries.nil c g r = (g, Keeps-refl upper c)
  walk_total-Leads (Entries.entry k v rest) c g r =
      let s₁ = total_round-Leads k v c (str_eq k b.duration_total_ms) g r in
      let r₁ = Registered-Extends c.key_index _ (b.duration ∷ []) s₁.1.keys r in
      Leads-trans upper c _ _ s₁ (walk_total-Leads rest _ s₁.0 r₁)

  walk_total-marks :
      (entries : Entries) (c : GenContext)
      → IsGood upper c
      → Registered c.key_index (b.duration ∷ [])
      → is_some (find b.duration_total_ms entries) ≡ true
      → (walk_total upper b entries c).has_duration_marker ≡ true
  unfolding walk_total find
  walk_total-marks Entries.nil c g r h = cc
  walk_total-marks (Entries.entry k v rest) c g r h =
      let s₁ = total_round-Leads k v c (str_eq k b.duration_total_ms) g r in
      let r₁ = Registered-Extends c.key_index _ (b.duration ∷ []) s₁.1.keys r in
      elim (Bool-cases (str_eq k b.duration_total_ms)) [
        | inl is ↦ (walk_total-Leads rest _ s₁.0 r₁).1.marker (rw is refl)
        | inr isnt ↦ walk_total-marks rest _ s₁.0 r₁ (rw isnt at h)
      ]

  resolve_leaves-Ends :
      (leaves : List Str) (entries : Entries) (c : GenContext)
      → IsGood upper c
      → Registered c.key_index (b.duration ∷ [])
      → Ends (Marks c) (resolve_leaves upper b leaves entries c)
  resolve_leaves-Ends [] entries c g r = tt
  resolve_leaves-Ends (leaf ∷ other ∷ more) entries c g r = tt
  resolve_leaves-Ends (leaf ∷ []) entries c g r =
      let c₁ = add_duration_subtree upper b leaf c in
      let (s₁, marked) = add_duration_subtree-Marks leaf c g in
      let r₁ = Registered-Extends c.key_index c₁.key_index (b.duration ∷ []) s₁.1.keys r in
      let s₂ = walk_entries-Leads upper (without leaf entries) (b.duration ∷ []) c₁ s₁.0 r₁ in
      (Leads-trans upper c c₁ _ s₁ s₂, s₂.1.marker marked)

  resolve_entries-Ends :
      (entries : Entries) (c : GenContext)
      → IsGood upper c
      → Registered c.key_index (b.duration ∷ [])
      → Ends (Marks c) (resolve_entries upper b entries c)
  resolve_entries-Ends entries c g r =
      let all = walk_entries-Leads upper entries (b.duration ∷ []) c g r in
      Ends-if (Marks c) c.has_duration_marker _ _ (λ marked. (all, all.1.marker marked))
        λ _.
          Ends-if (Marks c) (has_marker entries) _ _
            (λ marked. (all, walk_entries-marks entries (b.duration ∷ []) c g r marked))
            λ _.
              Ends-if (Marks c) (is_some (find b.duration_total_ms entries)) _ _
                (λ declared.
                  (walk_total-Leads entries c g r, walk_total-marks entries c g r declared))
                (λ _. resolve_leaves-Ends (non_duration_leaves entries) entries c g r)

  -- A step behind another.
  Ends-behind :
      (c c₁ : GenContext) (o : Outcome GenContext)
      → Leads upper c c₁
      → Ends (Marks c₁) o
      → Ends (Marks c) o
  Ends-behind c c₁ (ok c₂) s₁ (s₂, marked) = (Leads-trans upper c c₁ c₂ s₁ s₂, marked)
  Ends-behind c c₁ (err e) s₁ h = h

  resolve_duration_subtree-Ends :
      (v : JsonNode) (c : GenContext)
      → IsGood upper c
      → Ends (Marks c) (resolve_duration_subtree upper b v c)
  unfolding resolve_duration_subtree
  resolve_duration_subtree-Ends (JsonNode.object Entries.nil) c g =
      let (s₁, placed) = add_root-Leads upper b b.duration c g in
      Ends-behind c (add_root upper b b.duration c)
        (ok (add_duration_subtree upper b b.duration_total_ms (add_root upper b b.duration c))) s₁
        (add_duration_subtree-Marks b.duration_total_ms (add_root upper b b.duration c) s₁.0)
  resolve_duration_subtree-Ends (JsonNode.object (Entries.entry k v rest)) c g =
      let (s₁, placed) = add_root-Leads upper b b.duration c g in
      Ends-behind c (add_root upper b b.duration c)
        (resolve_entries upper b (Entries.entry k v rest) (add_root upper b b.duration c)) s₁
        (resolve_entries-Ends (Entries.entry k v rest) (add_root upper b b.duration c) s₁.0
          placed.0)
  resolve_duration_subtree-Ends JsonNode.null c g =
      add_duration_subtree-Marks b.duration_total_ms c g
  resolve_duration_subtree-Ends (JsonNode.bool x) c g =
      add_duration_subtree-Marks b.duration_total_ms c g
  resolve_duration_subtree-Ends (JsonNode.number n) c g =
      add_duration_subtree-Marks b.duration_total_ms c g
  resolve_duration_subtree-Ends (JsonNode.str s) c g =
      add_duration_subtree-Marks b.duration_total_ms c g
  resolve_duration_subtree-Ends (JsonNode.marker m) c g =
      add_duration_subtree-Marks b.duration_total_ms c g

  pub auto_add_duration-Ends :
      (entries : Entries) (c : GenContext)
      → IsGood upper c
      → Ends (Marks c) (auto_add_duration upper b entries c)
  unfolding auto_add_duration
  auto_add_duration-Ends entries c g = by_entry (find b.duration entries)
    where
      by_entry : (o : Option JsonNode) → Ends (Marks c) (resolve_duration upper b o c)
      by_entry none = add_duration_subtree-Marks b.duration_total_ms c g
      by_entry (some v) = resolve_duration_subtree-Ends v c g
