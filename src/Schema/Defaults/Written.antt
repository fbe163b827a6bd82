-- ===== src/Schema/Defaults/Written.antt =====
-- The default statements of wide-log-macros/src/codegen.rs, by the JSON that the serializer makes of them.
use wide_log.Prelude.{
  ℕ, ◌≡◌, refl, sym, ◌∙◌, ap, subst, >>=-eq-some, true, not, Option, none, some, List, [], ◌∷◌, map,
  length, ◌⊎◌, inl, inr, Str, All, ◌>>=◌, ◌↔◌, if◌then◌else◌,
}
use wide_log.Key.{Key}
use wide_log.Value.{Value, is_finite}
use wide_log.Json.{NumberFormat}
use wide_log.Json.Tree.{serialize}
use wide_log.Json.Meaning.{json}
use wide_log.Json.Reader.{Json, null, bool, number, string}
use wide_log.Parse.{JsonNode, Entries, Number}
use wide_log.Parse.Unique.{IsUniqueEntries}
use wide_log.Schema.{Builtins, GenContext, DefaultEntry, DefaultValue, ok}
use wide_log.Schema.Builtin.{generate}
use wide_log.Schema.Defaults.{default_of, node_at, IsDeclared}
use wide_log.Schema.Defaults.Declared.{generate-AllDeclared}
use wide_log.Schema.Defaults.Leaves.{Contains, generate-IsDeclared}
use wide_log.Schema.Emit.{Variant, is_accepted, default_value, default_stmts}
use wide_log.Schema.Emit.Generated.{stmt_text, default_text, generate-default_stmts}

module _ (fmt : NumberFormat) where
  -- The JSON value of a leaf that is a value: the numbers as they are written for their own type, and
  -- `null` for a float that is not finite.
  abbrev pub leaf_json : JsonNode → Option Json
  leaf_json (JsonNode.bool x) = some (bool x)
  leaf_json (JsonNode.number (Number.int i)) = some (number (fmt.i64_text i))
  leaf_json (JsonNode.number (Number.uint n)) = some (number (fmt.u64_text n))
  leaf_json (JsonNode.number (Number.float x)) =
      some (if not (is_finite x) then null else number (fmt.f64_text x))
  leaf_json (JsonNode.str s) = some (string s)
  leaf_json _ = none

  -- The schema declares a leaf with this JSON value at the path.
  abbrev pub HasLeaf : Entries → List Str → Json → Type 0
  HasLeaf root p j = (node : JsonNode) × (node_at p root ≡ some node) × (leaf_json node ≡ some j)

  module _ {K : Type 0} (key : Key K) where
    -- One of the statements is for the path, with a value whose `Serialize` calls stand for the JSON value.
    abbrev pub Sets : List Str → Json → List (List Str × Value) → Type 0
    Sets p j [] = ⊥
    Sets p j ((q, v) ∷ rest) = ((q ≡ p) × (json fmt (serialize key v) ≡ j)) ⊎ Sets p j rest

    -- What becomes of a leaf's value.
    default_json : DefaultValue → Json
    default_json v = json fmt (serialize key (default_value v))

    leaf_json-default_of :
        (node : JsonNode) → (default_of node >>= λ v. some (default_json v)) ≡ leaf_json node
    unfolding default_json json serialize
    leaf_json-default_of JsonNode.null = refl
    leaf_json-default_of (JsonNode.bool x) = refl
    leaf_json-default_of (JsonNode.number (Number.int i)) = refl
    leaf_json-default_of (JsonNode.number (Number.uint n)) = refl
    leaf_json-default_of (JsonNode.number (Number.float x)) = refl
    leaf_json-default_of (JsonNode.str s) = refl
    leaf_json-default_of (JsonNode.object es) = refl
    leaf_json-default_of (JsonNode.marker m) = refl

    -- A declared default comes from a leaf with its JSON value.
    IsDeclared-HasLeaf :
        (root : Entries) (d : DefaultEntry)
        → IsDeclared root d
        → HasLeaf root d.segments (default_json d.value)
    IsDeclared-HasLeaf root d declared =
        let (node, there, leaf) = >>=-eq-some (node_at d.segments root) default_of declared in
        (
          node,
          there,
          sym (leaf_json-default_of node) ∙ ap (λ o. o >>= λ v. some (default_json v)) leaf,
        )

    HasLeaf-IsDeclared :
        (root : Entries) (p : List Str) (j : Json)
        → HasLeaf root p j
        → (v : DefaultValue) × IsDeclared root (record { segments = p; value = v })
          × (default_json v ≡ j)
    HasLeaf-IsDeclared root p j (node, there, leaf) =
        let (v, given, same) =
          >>=-eq-some (default_of node) (λ v. some (default_json v))
            (leaf_json-default_of node ∙ leaf) in
        (v, ap (λ o. o >>= default_of) there ∙ given, cc)

    module _ (upper : ℕ → Str) (b : Builtins) where
      Sets-HasLeaf :
          (root : Entries) (p : List Str) (j : Json) (defaults : List DefaultEntry)
          → All (IsDeclared root) defaults
          → Sets p j (map (default_text upper b) defaults)
          → HasLeaf root p j
      unfolding default_json
      Sets-HasLeaf root p j [] h sets = absurd sets
      Sets-HasLeaf root p j (d ∷ rest) h (inl (path, value)) =
          subst (λ q. HasLeaf root q j) path
            (subst (HasLeaf root d.segments) value (IsDeclared-HasLeaf root d h.0))
      Sets-HasLeaf root p j (d ∷ rest) h (inr sets) = Sets-HasLeaf root p j rest h.1 sets

      Contains-Sets :
          (d : DefaultEntry) (defaults : List DefaultEntry)
          → Contains d defaults
          → Sets d.segments (default_json d.value) (map (default_text upper b) defaults)
      unfolding default_json
      Contains-Sets d [] h = absurd h
      Contains-Sets d (x ∷ rest) (inl same) =
          inl (ap (λ e. e.segments) same, ap (λ e. default_json e.value) same)
      Contains-Sets d (x ∷ rest) (inr h) = inr (Contains-Sets d rest h)

      -- For every schema that `generate` accepts, in which no object has a key twice, with an enumeration
      -- that the compiler accepts: the default statements are built; and one of them is for a path, with a
      -- value whose `Serialize` calls stand for a JSON value, just when the schema declares at that path a
      -- leaf with this JSON value: a Boolean, a text, or a number in the form of its own type (`null` for
      -- a float that is not finite).
      pub generate-Sets :
          (root : Entries) (c : GenContext)
          → IsUniqueEntries root
          → generate upper b root ≡ ok c
          → is_accepted c.keys ≡ true
          → (stmts : List (List (Variant (length c.keys)) × Value)) × (default_stmts upper c.keys
                c.defaults
              ≡ some stmts)
            × ((p : List Str) (j : Json)
                → Sets p j (map (stmt_text upper b c.keys) stmts) ↔ HasLeaf root p j)
      generate-Sets root c unique made accepted =
          let (stmts, built, spelled) = generate-default_stmts upper b root c made accepted in
          (
            stmts,
            built,
            λ p j. (
              λ sets.
                  Sets-HasLeaf root p j c.defaults (generate-AllDeclared upper b root unique c made)
                    (subst (Sets p j) spelled sets),
              λ leaf.
                  let (v, declared, same) = HasLeaf-IsDeclared root p j leaf in
                  let d : DefaultEntry = record { segments = p; value = v } in
                  subst (λ i. Sets p i (map (stmt_text upper b c.keys) stmts)) same
                    (subst (Sets p (default_json v)) (sym spelled) (
                      Contains-Sets d c.defaults
                        ((generate-IsDeclared upper b root c d unique made).1 declared))),
            ),
          )
