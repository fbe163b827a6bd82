-- ===== src/Schema/Tables.antt =====
-- What `walk` of wide-log-macros/src/codegen.rs keeps true of the tables of keys, paths and defaults.
use wide_log.Prelude.{
  ℕ, ◌≡◌, refl, ◌∙◌, true, false, Option, none, some, List, [], ◌∷◌, Str, str_eq_refl, length, All,
  All-append,
}
use wide_log.Schema.{GenContext, get_index, join, to_pascal_case, enter_key, add_key}
use wide_log.Schema.Builtin.{is_empty}
use wide_log.Schema.Index.{Extends, Extends-cons, IsIndexed, push-IsIndexed}

-- The name has an index.
abbrev pub Has : List (Str × ℕ) → Str → Type 0
Has index name = (i : ℕ) × (get_index name index ≡ some i)

-- Each segment is the name of a key.
abbrev pub Registered : List (Str × ℕ) → List Str → Type 0
Registered index segments = All (Has index) segments

-- Each segment is a key, and the path is in the table of paths.
abbrev pub Placed : GenContext → List Str → Type 0
Placed c segments = Registered c.key_index segments × Has c.path_index (join segments)

-- A path that may not be set yet.
abbrev pub PlacedIfSet : GenContext → List Str → Type 0
PlacedIfSet c [] = Unit
PlacedIfSet c (s ∷ rest) = Placed c (s ∷ rest)

pub All-map :
    {A : Type 0} → (P Q : A → Type 0) → ((a : A) → P a → Q a) → (xs : List A) → All P xs → All Q xs
All-map P Q f [] h = tt
All-map P Q f (x ∷ xs) h = (f x h.0, All-map P Q f xs h.1)

pub Registered-Extends :
    (index index' : List (Str × ℕ)) (segments : List Str)
    → Extends index index'
    → Registered index segments
    → Registered index' segments
Registered-Extends index index' segments more h =
    All-map (Has index) (Has index') (λ name (i, there). (i, more name i there)) segments h

-- The later tables answer at least what the earlier ones do.
abbrev pub Grows : GenContext → GenContext → Type 0
Grows c c' = Extends c.key_index c'.key_index × Extends c.path_index c'.path_index

pub Grows-trans : (a b c : GenContext) → Grows a b → Grows b c → Grows a c
Grows-trans a b c (keys, paths) (keys', paths') =
    (λ n i there. keys' n i (keys n i there), λ n i there. paths' n i (paths n i there))

pub Placed-Grows :
    (c c' : GenContext) (segments : List Str) → Grows c c' → Placed c segments → Placed c' segments
Placed-Grows c c' segments (more, more') (keys, (i, there)) = (
  Registered-Extends c.key_index c'.key_index segments more keys,
  (i, more' (join segments) i there),
)

module _ (upper : ℕ → Str) where
  -- The two tables are indexed; each variant is its name in Pascal case; the segments of each path are
  -- keys, and those of each default and of the built-in paths are a path too; a set marker has a path.
  pub record IsGood (c : GenContext) : Type 0 where
    pub keys : IsIndexed (λ e. e.json_name) c.keys c.key_index
    pub variants : All (λ e. e.variant ≡ to_pascal_case upper e.json_name) c.keys
    pub paths : IsIndexed (λ p. p.dotted) c.paths c.path_index
    pub path_keys :
        All (λ p. (p.dotted ≡ join p.segments) × Registered c.key_index p.segments) c.paths
    pub defaults : All (λ d. Placed c d.segments) c.defaults
    pub duration : PlacedIfSet c c.duration_segments
    pub timestamp : PlacedIfSet c c.timestamp_segments
    pub id : PlacedIfSet c c.id_segments
    pub marked : c.has_duration_marker ≡ true → is_empty c.duration_segments ≡ false

  -- What a step keeps of the context before it.
  pub record Keeps (c c' : GenContext) : Type 0 where
    pub keys : Extends c.key_index c'.key_index
    pub paths : Extends c.path_index c'.path_index
    pub marker : c.has_duration_marker ≡ true → c'.has_duration_marker ≡ true
    pub timestamp : c'.timestamp_segments ≡ c.timestamp_segments
    pub id : c'.id_segments ≡ c.id_segments

  -- A good context after a step.
  abbrev pub Leads : GenContext → GenContext → Type 0
  Leads c c' = IsGood c' × Keeps c c'

  pub Keeps-refl : (c : GenContext) → Keeps c c
  Keeps-refl c = record {
    keys = λ n i h. h;
    paths = λ n i h. h;
    marker = λ h. h;
    timestamp = refl;
    id = refl;
  }

  pub Keeps-trans : (a b c : GenContext) → Keeps a b → Keeps b c → Keeps a c
  Keeps-trans a b c h k = record {
    keys = λ n i there. k.keys n i (h.keys n i there);
    paths = λ n i there. k.paths n i (h.paths n i there);
    marker = λ there. k.marker (h.marker there);
    timestamp = k.timestamp ∙ h.timestamp;
    id = k.id ∙ h.id;
  }

  pub Leads-trans : (a b c : GenContext) → Leads a b → Leads b c → Leads a c
  Leads-trans a b c h k = (k.0, Keeps-trans a b c h.1 k.1)

  pub Placed-Keeps :
      (c c' : GenContext) (segments : List Str)
      → Keeps c c'
      → Placed c segments
      → Placed c' segments
  Placed-Keeps c c' segments k placed = Placed-Grows c c' segments (k.keys, k.paths) placed

  pub PlacedIfSet-Keeps :
      (c c' : GenContext) (segments : List Str)
      → Keeps c c'
      → PlacedIfSet c segments
      → PlacedIfSet c' segments
  PlacedIfSet-Keeps c c' [] k h = tt
  PlacedIfSet-Keeps c c' (s ∷ rest) k h = Placed-Keeps c c' (s ∷ rest) k h

  enter_key-Leads :
      (name : Str) (c : GenContext) (o : Option ℕ)
      → get_index name c.key_index ≡ o
      → IsGood c
      → Leads c (enter_key upper name c o) × Has (enter_key upper name c o).key_index name
  enter_key-Leads name c (some i) at g = ((g, Keeps-refl c), (i, at))
  enter_key-Leads name c none at g =
      let c' = enter_key upper name c none in
      let more = Extends-cons name (length c.keys) c.key_index at in
      let k : Keeps c c' = record {
        keys = more;
        paths = λ n i h. h;
        marker = λ h. h;
        timestamp = refl;
        id = refl;
      } in
      let g' : IsGood c' = record {
        keys =
            push-IsIndexed (λ e. e.json_name) c.keys c.key_index
              (record { json_name = name; variant = to_pascal_case upper name }) at g.keys;
        variants =
            All-append (λ e. e.variant ≡ to_pascal_case upper e.json_name) c.keys _ g.variants
              (refl, tt);
        paths = g.paths;
        path_keys =
            All-map _ _
              (λ p (dot, keys).
                (dot, Registered-Extends c.key_index c'.key_index p.segments more keys))
              c.paths g.path_keys;
        defaults =
            All-map _ _ (λ d placed. Placed-Keeps c c' d.segments k placed) c.defaults g.defaults;
        duration = PlacedIfSet-Keeps c c' c.duration_segments k g.duration;
        timestamp = PlacedIfSet-Keeps c c' c.timestamp_segments k g.timestamp;
        id = PlacedIfSet-Keeps c c' c.id_segments k g.id;
        marked = g.marked;
      } in
      ((g', k), (length c.keys, unfold get_index in rw (str_eq_refl name)))

  pub add_key-Leads :
      (name : Str) (c : GenContext)
      → IsGood c
      → Leads c (add_key upper name c) × Has (add_key upper name c).key_index name
  unfolding add_key
  add_key-Leads name c g = enter_key-Leads name c (get_index name c.key_index) refl g
