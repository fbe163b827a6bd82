-- ===== src/Schema/Defaults.antt =====
-- The defaults that wide-log-macros/src/codegen.rs collects are the leaves of the schema.
pub mod Duration
pub mod Declared
pub mod Apart
pub mod Built
pub mod Leaves
pub mod Written
use wide_log.Prelude.{
  ℕ, ◌≡◌, ◌≢◌, refl, sym, ◌∙◌, ap, subst, Bool, true, false, Option, none, some, List, [], ◌∷◌,
  ◌++◌, Str, str_eq, str_eq_refl, str_eq→eq, All, All-append, if◌then◌else◌, Bool-cases, inl, inr,
  ◌||◌, ◌>>=◌,
}
use wide_log.Parse.{JsonNode, Entries, Marker, Number}
use wide_log.Parse.Unique.{has_key, IsUnique, IsUniqueEntries}
use wide_log.Schema.{
  GenContext, DefaultEntry, DefaultValue, Builtins, Outcome, ok, err, ◌and_then◌, new, snoc,
  get_index, join, add_key, add_path, enter_key, enter_path, add_node, mark_duration, push_default,
  number_value, walk, walk_entries,
}
use wide_log.Schema.Builtin.{find}

-- The default that a leaf gives.
abbrev pub default_of : JsonNode → Option DefaultValue
default_of (JsonNode.bool b) = some (DefaultValue.bool b)
default_of (JsonNode.number n) = some (number_value n)
default_of (JsonNode.str s) = some (DefaultValue.str s)
default_of _ = none

-- The node that the schema declares at a path.
abbrev pub below : List Str → Option JsonNode → (Entries → Option JsonNode) → Option JsonNode
below [] o more = o
below (s ∷ p) (some (JsonNode.object es)) more = more es
below (s ∷ p) _ more = none

unfoldable pub node_at : List Str → Entries → Option JsonNode
unfolding find
node_at [] es = none
node_at (s ∷ p) es = below p (find s es) (node_at p)

-- The default is the one of the leaf that the schema declares at its path.
abbrev pub IsDeclared : Entries → DefaultEntry → Type 0
IsDeclared root d = (node_at d.segments root >>= default_of) ≡ some d.value

abbrev pub AllDeclared : Entries → GenContext → Type 0
AllDeclared root c = All (IsDeclared root) c.defaults

pub node_at-snoc :
    (p : List Str) (root es : Entries) (k : Str) (v : JsonNode)
    → node_at p root ≡ some (JsonNode.object es)
    → find k es ≡ some v
    → node_at (snoc p k) root ≡ some v
unfolding node_at
node_at-snoc [] root es k v at there = cc
node_at-snoc (s ∷ []) root es k v at there = rw at there
node_at-snoc (s ∷ t ∷ p) root es k v at there =
    by_node (find s root) at (λ fs h. node_at-snoc (t ∷ p) fs es k v h there)
  where
    by_node :
        (o : Option JsonNode)
        → below (t ∷ p) o (node_at (t ∷ p)) ≡ some (JsonNode.object es)
        → ((fs : Entries)
            → node_at (t ∷ p) fs ≡ some (JsonNode.object es)
            → node_at (t ∷ snoc p k) fs ≡ some v)
        → below (t ∷ snoc p k) o (node_at (t ∷ snoc p k)) ≡ some v
    by_node none h deeper = cc
    by_node (some (JsonNode.object fs)) h deeper = deeper fs h
    by_node (some JsonNode.null) h deeper = cc
    by_node (some (JsonNode.bool b)) h deeper = cc
    by_node (some (JsonNode.number n)) h deeper = cc
    by_node (some (JsonNode.str x)) h deeper = cc
    by_node (some (JsonNode.marker m)) h deeper = cc

-- Each of the entries has a property.
abbrev pub Each : (Str → JsonNode → Type 0) → Entries → Type 0
Each P Entries.nil = Unit
Each P (Entries.entry k v rest) = P k v × Each P rest

find-has_key : (k : Str) (v : JsonNode) (es : Entries) → find k es ≡ some v → has_key k es ≡ true
unfolding find
find-has_key k v Entries.nil h = cc
find-has_key k v (Entries.entry j w es) h = elim (Bool-cases (str_eq j k)) [
  | inl same ↦ rw same
  | inr other ↦ rw other (find-has_key k v es (rw other at h))
]

-- In an object without duplicate keys, what holds of each key and what `find` finds holds of each entry.
Each-found :
    (P : Str → JsonNode → Type 0) (es : Entries)
    → IsUniqueEntries es
    → ((k : Str) (v : JsonNode) → find k es ≡ some v → P k v)
    → Each (λ k v. P k v × IsUnique v) es
unfolding find
Each-found P Entries.nil u h = tt
Each-found P (Entries.entry k v rest) u h = (
  (h k v (rw (str_eq_refl k)), u.1),
  Each-found P rest u.2 λ j w found. h j w (elim (Bool-cases (str_eq k j)) [
    | inl same ↦
        let e = str_eq→eq k j same in
        let there = find-has_key j w rest found in
        let absent = subst (λ x. has_key x rest ≡ false) e u.0 in cc
    | inr other ↦ rw other found
  ]),
)

-- The entries stand in the schema below a path, and no object in them has a key twice.
abbrev pub Located : Entries → List Str → Entries → Type 0
Located root path es = Each (λ k v. (node_at (snoc path k) root ≡ some v) × IsUnique v) es

Located-object :
    (root : Entries) (path : List Str) (es : Entries)
    → node_at path root ≡ some (JsonNode.object es)
    → IsUniqueEntries es
    → Located root path es
Located-object root path es at u =
    Each-found (λ k v. node_at (snoc path k) root ≡ some v) es u
      (λ k v found. node_at-snoc path root es k v at found)

Located-root : (root : Entries) → IsUniqueEntries root → Located root [] root
unfolding node_at
Located-root root u =
    Each-found (λ k v. node_at (snoc [] k) root ≡ some v) root u (λ k v found. rw found)

add_path-defaults :
    (segments : List Str) (c : GenContext) → (add_path segments c).defaults ≡ c.defaults
unfolding add_path
add_path-defaults segments c = kept (get_index (join segments) c.path_index)
  where
    kept : (o : Option ℕ) → (enter_path segments c o).defaults ≡ c.defaults
    kept none = refl
    kept (some i) = refl

module _ (upper : ℕ → Str) where
  add_key-defaults : (k : Str) (c : GenContext) → (add_key upper k c).defaults ≡ c.defaults
  unfolding add_key
  add_key-defaults k c = kept (get_index k c.key_index)
    where
      kept : (o : Option ℕ) → (enter_key upper k c o).defaults ≡ c.defaults
      kept none = refl
      kept (some i) = refl

  pub add_node-defaults :
      (parent : List Str) (k : Str) (c : GenContext)
      → (add_node upper parent k c).defaults ≡ c.defaults
  add_node-defaults parent k c =
      add_path-defaults (snoc parent k) (add_key upper k c) ∙ add_key-defaults k c

-- A property of the defaults.
abbrev pub Kept : (List DefaultEntry → Type 0) → GenContext → Type 0
Kept P c = P c.defaults

-- It stays when a declared leaf is added.
abbrev pub Pushes : Entries → (List DefaultEntry → Type 0) → Type 0
Pushes root P =
    (ds : List DefaultEntry) (d : DefaultEntry) → IsDeclared root d → P ds → P (ds ++ d ∷ [])

pub same-Kept :
    (P : List DefaultEntry → Type 0) (c c' : GenContext)
    → c'.defaults ≡ c.defaults
    → Kept P c
    → Kept P c'
same-Kept P c c' same h = subst P (sym same) h

module _ (upper : ℕ → Str) (root : Entries) (P : List DefaultEntry → Type 0)
    (push : Pushes root P) where
  node-Kept :
      (parent : List Str) (k : Str) (c : GenContext) → Kept P c → Kept P (add_node upper parent k c)
  node-Kept parent k c h =
      same-Kept P c (add_node upper parent k c) (add_node-defaults upper parent k c) h

  leaf-Kept :
      (path : List Str) (v : JsonNode) (d : DefaultValue) (c : GenContext)
      → node_at path root ≡ some v
      → default_of v ≡ some d
      → Kept P c
      → Kept P (push_default path d c)
  leaf-Kept path v d c at gives h =
      push c.defaults (record { segments = path; value = d }) (rw at gives) h

  mutual
    unfolding walk

    pub walk-Kept :
        (v : JsonNode) (parent : List Str) (k : Str) (c : GenContext)
        → node_at (snoc parent k) root ≡ some v
        → IsUnique v
        → Kept P c
        → Kept P (walk upper v parent k c)
    walk-Kept (JsonNode.object es) parent k c at u h =
        entries-Kept es (snoc parent k) (add_node upper parent k c)
          (Located-object root (snoc parent k) es at u) (node-Kept parent k c h)
    walk-Kept JsonNode.null parent k c at u h = node-Kept parent k c h
    walk-Kept (JsonNode.bool b) parent k c at u h =
        leaf-Kept (snoc parent k) (JsonNode.bool b) (DefaultValue.bool b)
          (add_node upper parent k c) at refl (node-Kept parent k c h)
    walk-Kept (JsonNode.number n) parent k c at u h =
        leaf-Kept (snoc parent k) (JsonNode.number n) (number_value n) (add_node upper parent k c)
          at refl (node-Kept parent k c h)
    walk-Kept (JsonNode.str s) parent k c at u h =
        leaf-Kept (snoc parent k) (JsonNode.str s) (DefaultValue.str s) (add_node upper parent k c)
          at refl (node-Kept parent k c h)
    walk-Kept (JsonNode.marker Marker.duration) parent k c at u h = node-Kept parent k c h
    walk-Kept (JsonNode.marker Marker.counter) parent k c at u h = node-Kept parent k c h

    pub entries-Kept :
        (es : Entries) (path : List Str) (c : GenContext)
        → Located root path es
        → Kept P c
        → Kept P (walk_entries upper es path c)
    entries-Kept Entries.nil path c l h = h
    entries-Kept (Entries.entry k v rest) path c l h =
        entries-Kept rest path (walk upper v path k c) l.1 (walk-Kept v path k c l.0.0 l.0.1 h)
