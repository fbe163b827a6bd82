-- ===== src/Schema/Defaults/Duration.antt =====
-- The defaults of the subtree `duration` are leaves of the schema (wide-log-macros/src/codegen.rs).
use wide_log.Prelude.{
  ℕ, ◌≡◌, ◌∙◌, subst, Bool, true, false, Option, none, some, List, [], ◌∷◌, Str, str_eq,
  if◌then◌else◌, Bool-cases, inl, inr,
}
use wide_log.Parse.{JsonNode, Entries}
use wide_log.Parse.Unique.{IsUnique, IsUniqueEntries}
use wide_log.Schema.{
  GenContext, DefaultEntry, Builtins, Outcome, ok, err, ◌and_then◌, add_key, add_node,
  mark_duration, walk,
}
use wide_log.Schema.Builtin.{
  find, has_marker, is_some, non_duration_leaves, without, add_duration_subtree, walk_total,
  resolve_leaves, resolve_entries, add_root, resolve_duration_subtree, resolve_duration,
}
use wide_log.Schema.Defaults.{
  node_at, Located, Located-object, add_path-defaults, add_key-defaults, add_node-defaults, Kept,
  Pushes, same-Kept, walk-Kept, entries-Kept,
}

-- The context that a step leaves, if it leaves one, has the property.
abbrev pub OkAll : (GenContext → Type 0) → Outcome GenContext → Type 0
OkAll P (ok c) = P c
OkAll P (err e) = Unit

pub OkAll-if :
    (P : GenContext → Type 0) (b : Bool) (x y : Outcome GenContext)
    → OkAll P x
    → OkAll P y
    → OkAll P (if b then x else y)
OkAll-if P true x y hx hy = hx
OkAll-if P false x y hx hy = hy

pub OkAll-then :
    (P Q : GenContext → Type 0) (o : Outcome GenContext) (f : GenContext → Outcome GenContext)
    → OkAll P o
    → ((c : GenContext) → P c → OkAll Q (f c))
    → OkAll Q (o and_then f)
OkAll-then P Q (ok c) f h next = next c h
OkAll-then P Q (err e) f h next = tt

pub found-IsUnique :
    (k : Str) (v : JsonNode) (es : Entries) → IsUniqueEntries es → find k es ≡ some v → IsUnique v
unfolding find
found-IsUnique k v Entries.nil u h = cc
found-IsUnique k v (Entries.entry j w es) u h = elim (Bool-cases (str_eq j k)) [
  | inl same ↦ subst IsUnique {x = w} (cc (rw same at h)) u.1
  | inr other ↦ found-IsUnique k v es u.2 (rw other at h)
]

module _ (upper : ℕ → Str) (b : Builtins) (root : Entries) (unique : IsUniqueEntries root)
    (P : List DefaultEntry → Type 0) (push : Pushes root P) where
  -- The entries of a top-level object, each at its path.
  pub section_Located :
      (name : Str) (es : Entries)
      → find name root ≡ some (JsonNode.object es)
      → Located root (name ∷ []) es
  unfolding node_at
  section_Located name es found =
      Located-object root (name ∷ []) es (rw found)
        (found-IsUnique name (JsonNode.object es) root unique found)

  without-Located :
      (leaf : Str) (path : List Str) (es : Entries)
      → Located root path es
      → Located root path (without leaf es)
  unfolding without
  without-Located leaf path Entries.nil l = tt
  without-Located leaf path (Entries.entry k v rest) l = elim (Bool-cases (str_eq k leaf)) [
    | inl gone ↦ rw gone (without-Located leaf path rest l.1)
    | inr kept ↦ rw kept (l.0, without-Located leaf path rest l.1)
  ]

  duration_subtree-defaults :
      (leaf : Str) (c : GenContext) → (add_duration_subtree upper b leaf c).defaults ≡ c.defaults
  unfolding add_duration_subtree
  duration_subtree-defaults leaf c =
      add_path-defaults (b.duration ∷ leaf ∷ []) _
      ∙ add_path-defaults (b.duration ∷ []) _
      ∙ add_key-defaults upper leaf _
      ∙ add_key-defaults upper b.duration c

  pub root-Kept : (name : Str) (c : GenContext) → Kept P c → Kept P (add_root upper b name c)
  root-Kept name c =
      same-Kept P c (add_root upper b name c)
        (add_path-defaults (name ∷ []) (add_key upper name c) ∙ add_key-defaults upper name c)

  duration_subtree-Kept :
      (leaf : Str) (c : GenContext) → Kept P c → Kept P (add_duration_subtree upper b leaf c)
  duration_subtree-Kept leaf c =
      same-Kept P c (add_duration_subtree upper b leaf c) (duration_subtree-defaults leaf c)

  pub either : (t : Bool) (x y : GenContext) → Kept P x → Kept P y → Kept P (if t then x else y)
  either true x y hx hy = hx
  either false x y hx hy = hy

  walk_total-Kept :
      (es : Entries) (c : GenContext)
      → Located root (b.duration ∷ []) es
      → Kept P c
      → Kept P (walk_total upper b es c)
  unfolding walk_total
  walk_total-Kept Entries.nil c l h = h
  walk_total-Kept (Entries.entry k v rest) c l h =
      walk_total-Kept rest
        (if str_eq k b.duration_total_ms
          then mark_duration (b.duration ∷ b.duration_total_ms ∷ [])
              (add_node upper (b.duration ∷ []) b.duration_total_ms c)
          else walk upper v (b.duration ∷ []) k c)
        l.1
        (either (str_eq k b.duration_total_ms) _ _
          (same-Kept P c (add_node upper (b.duration ∷ []) b.duration_total_ms c)
            (add_node-defaults upper (b.duration ∷ []) b.duration_total_ms c) h)
          (walk-Kept upper root P push v (b.duration ∷ []) k c l.0.0 l.0.1 h))

  leaves-Kept :
      (leaves : List Str) (es : Entries) (c : GenContext)
      → Located root (b.duration ∷ []) es
      → Kept P c
      → OkAll (Kept P) (resolve_leaves upper b leaves es c)
  leaves-Kept (leaf ∷ []) es c l h =
      entries-Kept upper root P push (without leaf es) (b.duration ∷ [])
        (add_duration_subtree upper b leaf c) (without-Located leaf (b.duration ∷ []) es l)
        (duration_subtree-Kept leaf c h)
  leaves-Kept [] es c l h = tt
  leaves-Kept (a ∷ a' ∷ rest) es c l h = tt

  duration_entries-Kept :
      (es : Entries) (c : GenContext)
      → Located root (b.duration ∷ []) es
      → Kept P c
      → OkAll (Kept P) (resolve_entries upper b es c)
  duration_entries-Kept es c l h =
      let walked = entries-Kept upper root P push es (b.duration ∷ []) c l h in
      OkAll-if (Kept P) c.has_duration_marker _ _ walked (
        OkAll-if (Kept P) (has_marker es) _ _ walked (
          OkAll-if (Kept P) (is_some (find b.duration_total_ms es)) _ _ (walk_total-Kept es c l h)
            (leaves-Kept (non_duration_leaves es) es c l h)))

  pub duration-Kept :
      (o : Option JsonNode) (c : GenContext)
      → find b.duration root ≡ o
      → Kept P c
      → OkAll (Kept P) (resolve_duration upper b o c)
  unfolding resolve_duration_subtree
  duration-Kept none c found h = duration_subtree-Kept b.duration_total_ms c h
  duration-Kept (some (JsonNode.object Entries.nil)) c found h =
      duration_subtree-Kept b.duration_total_ms (add_root upper b b.duration c)
        (root-Kept b.duration c h)
  duration-Kept (some (JsonNode.object (Entries.entry k v rest))) c found h =
      duration_entries-Kept (Entries.entry k v rest) (add_root upper b b.duration c)
        (section_Located b.duration (Entries.entry k v rest) found) (root-Kept b.duration c h)
  duration-Kept (some JsonNode.null) c found h = duration_subtree-Kept b.duration_total_ms c h
  duration-Kept (some (JsonNode.bool x)) c found h = duration_subtree-Kept b.duration_total_ms c h
  duration-Kept (some (JsonNode.number n)) c found h = duration_subtree-Kept b.duration_total_ms c h
  duration-Kept (some (JsonNode.str s)) c found h = duration_subtree-Kept b.duration_total_ms c h
  duration-Kept (some (JsonNode.marker m)) c found h = duration_subtree-Kept b.duration_total_ms c h
