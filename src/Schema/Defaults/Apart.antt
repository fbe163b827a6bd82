-- ===== src/Schema/Defaults/Apart.antt =====
-- The default statements that wide-log-macros/src/codegen.rs generates do not touch one another's paths.
use wide_log.Prelude.{
  ℕ, ◌≡◌, ◌≢◌, refl, sym, ◌∙◌, ap, subst, true, Option, none, some, List, [], ◌∷◌, map, ◌⊎◌, inl,
  inr, Str, str_eq, str_eq→eq, str_eq_refl, length, All, Bool-cases, ◌>>=◌, >>=-eq-some,
}
use mathlib.Core.Path.{ap₂}
use wide_log.Key.{Key}
use wide_log.Value.{Value}
use wide_log.Event.{Context}
use wide_log.Event.Lookup.{Apart}
use wide_log.Guard.Built.{HasSegment, Leaves, IsSpread}
use wide_log.Parse.{JsonNode, Entries}
use wide_log.Schema.{Builtins, GenContext, DefaultEntry, DefaultValue}
use wide_log.Schema.Builtin.{find}
use wide_log.Schema.Tables.{IsGood}
use wide_log.Schema.Defaults.{default_of, below, node_at, IsDeclared}
use wide_log.Schema.Emit.Variants.{discriminant-injective, key_str-injective}
use wide_log.Schema.Emit.{
  Variant, discriminant, key_str, key_of, key_impl, default_value, path_idents,
}
use wide_log.Schema.Emit.Generated.{stmt_text, default_text}

-- The paths part at some segment.
abbrev Part : List Str → List Str → Type 0
Part (s ∷ p) (t ∷ q) = (s ≢ t) ⊎ ((s ≡ t) × Part p q)
Part _ _ = ⊥

-- Below one node: both paths end there at one leaf, or both go on.
leaf_or_deeper :
    (p q : List Str) (o : Option JsonNode) (v w : DefaultValue)
    → ((es : Entries)
        → (node_at p es >>= default_of) ≡ some v
        → (node_at q es >>= default_of) ≡ some w
        → Part q p ⊎ ((p ≡ q) × (v ≡ w)))
    → (below p o (node_at p) >>= default_of) ≡ some v
    → (below q o (node_at q) >>= default_of) ≡ some w
    → Part q p ⊎ ((p ≡ q) × (v ≡ w))
leaf_or_deeper [] [] o v w deeper h k = inr (refl, cc)
leaf_or_deeper [] (t ∷ q) (some (JsonNode.object es)) v w deeper h k = cc
leaf_or_deeper [] (t ∷ q) none v w deeper h k = cc
leaf_or_deeper [] (t ∷ q) (some JsonNode.null) v w deeper h k = cc
leaf_or_deeper [] (t ∷ q) (some (JsonNode.bool b)) v w deeper h k = cc
leaf_or_deeper [] (t ∷ q) (some (JsonNode.number n)) v w deeper h k = cc
leaf_or_deeper [] (t ∷ q) (some (JsonNode.str s)) v w deeper h k = cc
leaf_or_deeper [] (t ∷ q) (some (JsonNode.marker m)) v w deeper h k = cc
leaf_or_deeper (s ∷ p) [] (some (JsonNode.object es)) v w deeper h k = cc
leaf_or_deeper (s ∷ p) q none v w deeper h k = cc
leaf_or_deeper (s ∷ p) q (some JsonNode.null) v w deeper h k = cc
leaf_or_deeper (s ∷ p) q (some (JsonNode.bool b)) v w deeper h k = cc
leaf_or_deeper (s ∷ p) q (some (JsonNode.number n)) v w deeper h k = cc
leaf_or_deeper (s ∷ p) q (some (JsonNode.str x)) v w deeper h k = cc
leaf_or_deeper (s ∷ p) q (some (JsonNode.marker m)) v w deeper h k = cc
leaf_or_deeper (s ∷ p) (t ∷ q) (some (JsonNode.object es)) v w deeper h k = deeper es h k

-- Two leaves of one schema stand at paths that part, or they are one leaf.
leaves-Part :
    (p q : List Str) (root : Entries) (v w : DefaultValue)
    → (node_at p root >>= default_of) ≡ some v
    → (node_at q root >>= default_of) ≡ some w
    → Part q p ⊎ ((p ≡ q) × (v ≡ w))
unfolding node_at
leaves-Part [] q root v w h k = cc
leaves-Part (s ∷ p) [] root v w h k = cc
leaves-Part (s ∷ p) (t ∷ q) root v w h k = elim (Bool-cases (str_eq t s)) [
  | inr other ↦ inl (
      inl λ same.
        let e : str_eq t s ≡ true = subst (λ x. str_eq t x ≡ true) same (str_eq_refl t) in cc)
  | inl one ↦
      let same = str_eq→eq t s one in
      let at : (below q (find s root) (node_at q) >>= default_of) ≡ some w =
        subst (λ x. (below q (find x root) (node_at q) >>= default_of) ≡ some w) same k in
      elim (leaf_or_deeper p q (find s root) v w (λ es. leaves-Part p q es v w) h at) [
        | inl apart ↦ inl (inr (same, apart))
        | inr (paths, values) ↦ inr (ap₂ (λ x xs. x ∷ xs) (sym same) paths, values)
      ]
]

module _ (upper : ℕ → Str) (b : Builtins) (c : GenContext) where
  -- The two tables of the generated key.
  pub key_impl-tables :
      (key : Key (Variant (length c.keys)))
      → key_impl upper b c ≡ some key
      → (key.as_str ≡ key_str c.keys) × (key.as_index ≡ discriminant)
  unfolding key_impl
  key_impl-tables key made =
      let (ds, _, made₁) = >>=-eq-some (path_idents upper c.keys c.duration_segments) _ made in
      let (ts, _, made₂) = >>=-eq-some (path_idents upper c.keys c.timestamp_segments) _ made₁ in
      let (is, _, made₃) = >>=-eq-some (path_idents upper c.keys c.id_segments) _ made₂ in
      let one : key_of b c ds ts is ≡ key = cc in
      (ap (λ k. k.as_str) (sym one), ap (λ k. k.as_index) (sym one))

  module _ (cx : Context (Variant (length c.keys))) (good : IsGood upper c)
      (tabled : cx.key.as_index ≡ discriminant) (root : Entries) where
    -- Paths whose names part are apart.
    Part-Apart :
        (p q : List (Variant (length c.keys)))
        → Part (map (key_str c.keys) p) (map (key_str c.keys) q)
        → Apart cx p q
    Part-Apart [] q h = absurd h
    Part-Apart (i ∷ p) [] h = absurd h
    Part-Apart (i ∷ p) (j ∷ q) (inl differ) =
        inl λ same. differ (ap (key_str c.keys) (discriminant-injective i j (rw (sym tabled) same)))
    Part-Apart (i ∷ p) (j ∷ q) (inr (same, h)) =
        inr (ap cx.key.as_index (key_str-injective upper c i j good same), Part-Apart p q h)

    names-injective :
        (p q : List (Variant (length c.keys)))
        → map (key_str c.keys) p ≡ map (key_str c.keys) q
        → p ≡ q
    names-injective [] [] h = refl
    names-injective [] (j ∷ q) h = cc
    names-injective (i ∷ p) [] h = cc
    names-injective (i ∷ p) (j ∷ q) h =
        ap₂ (λ x xs. x ∷ xs) (key_str-injective upper c i j good (cc h))
          (names-injective p q (cc h))

    -- What `default_stmts` writes for a declared leaf.
    abbrev pub OfLeaf : List (Variant (length c.keys)) × Value → Type 0
    OfLeaf x =
        (d : DefaultEntry) × IsDeclared root d
        × (map (key_str c.keys) x.0 ≡ d.segments)
        × (x.1 ≡ default_value d.value)

    pub All-OfLeaf :
        (stmts : List (List (Variant (length c.keys)) × Value)) (defaults : List DefaultEntry)
        → map (stmt_text upper b c.keys) stmts ≡ map (default_text upper b) defaults
        → All (IsDeclared root) defaults
        → All OfLeaf stmts
    All-OfLeaf [] defaults same h = tt
    All-OfLeaf (x ∷ xs) [] same h = cc
    All-OfLeaf (x ∷ xs) (d ∷ ds) same h =
        let front : stmt_text upper b c.keys x ≡ default_text upper b d = cc in
        ((d, h.0, ap (λ y. y.0) front, ap (λ y. y.1) front), All-OfLeaf xs ds (cc same) h.1)

    OfLeaf-Leaves :
        (x y : List (Variant (length c.keys)) × Value) → OfLeaf x → OfLeaf y → Leaves cx x y
    OfLeaf-Leaves x y (d, declared, spelled, valued) (f, declared', spelled', valued') =
        elim (leaves-Part d.segments f.segments root d.value f.value declared declared') [
          | inl part ↦ inl (Part-Apart y.0 x.0 (rw (spelled, spelled') part))
          | inr (paths, values) ↦ inr (
              ap₂ (λ p v. (p, v)) (names-injective x.0 y.0 (spelled ∙ paths ∙ sym spelled'))
                (valued ∙ ap default_value values ∙ sym valued'))
        ]

    pub All-IsSpread :
        (stmts : List (List (Variant (length c.keys)) × Value))
        → All OfLeaf stmts
        → IsSpread cx stmts
    All-IsSpread [] h = tt
    All-IsSpread (x ∷ xs) h = (later xs h.1, All-IsSpread xs h.1)
      where
        later :
            (ys : List (List (Variant (length c.keys)) × Value))
            → All OfLeaf ys
            → All (Leaves cx x) ys
        later [] k = tt
        later (y ∷ ys) k = (OfLeaf-Leaves x y h.0 k.0, later ys k.1)

    has_segment :
        (p : List (Variant (length c.keys))) (d : DefaultEntry)
        → map (key_str c.keys) p ≡ d.segments
        → IsDeclared root d
        → HasSegment p
    unfolding node_at
    has_segment [] d spelled declared =
        let nowhere : (node_at [] root >>= default_of) ≡ some d.value =
          subst (λ q. (node_at q root >>= default_of) ≡ some d.value) (sym spelled) declared in
        cc
    has_segment (i ∷ p) d spelled declared = tt

    pub All-HasSegment :
        (stmts : List (List (Variant (length c.keys)) × Value))
        → All OfLeaf stmts
        → All (λ x. HasSegment x.0) stmts
    All-HasSegment [] h = tt
    All-HasSegment (x ∷ xs) h =
        let (d, declared, spelled, valued) = h.0 in
        (has_segment x.0 d spelled declared, All-HasSegment xs h.1)
