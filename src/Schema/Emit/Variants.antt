-- ===== src/Schema/Emit/Variants.antt =====
-- The enumeration that wide-log-macros/src/codegen.rs generates: its variants are the names of the keys.
use wide_log.Prelude.{
  ℕ, zero, suc, ◌≡◌, ◌↔◌, refl, sym, ◌∙◌, ap, subst, Str, List, [], ◌∷◌, some, length, get_elem?,
  arith,
}
use mathlib.Core.HLevel.{Σ_prop_path}
use wide_log.Parse.{Entries}
use wide_log.Schema.{Builtins, GenContext, KeyEntry, ok, get_index}
use wide_log.Schema.Builtin.{generate}
use wide_log.Schema.Tables.{Has, IsGood}
use wide_log.Schema.Emit.{Variant, first, next, discriminant, key_str}
use wide_log.Schema.Emit.Generated.{accepted-IsSchema}

pub discriminant-injective : {n : ℕ} (i j : Variant n) → discriminant i ≡ discriminant j → i ≡ j
discriminant-injective first first h = refl
discriminant-injective first (next j) h = cc
discriminant-injective (next i) first h = cc
discriminant-injective (next i) (next j) h = ap next (discriminant-injective i j (omega arith))

entry_of :
    (keys : List KeyEntry) (k : Variant (length keys))
    → (e : KeyEntry) × (get_elem? keys (discriminant k) ≡ some e) × (e.json_name ≡ key_str keys k)
entry_of [] k = elim k [ ]
entry_of (e ∷ keys) first = (e, refl, refl)
entry_of (e ∷ keys) (next k) = entry_of keys k

variant_at :
    (keys : List KeyEntry) (i : ℕ) (e : KeyEntry)
    → get_elem? keys i ≡ some e
    → (k : Variant (length keys)) × (key_str keys k ≡ e.json_name)
variant_at [] i e at = cc
variant_at (x ∷ keys) zero e at = let same : x ≡ e = cc in (first, ap (λ y. y.json_name) same)
variant_at (x ∷ keys) (suc i) e at = let (k, name) = variant_at keys i e at in (next k, name)

names_set : (s t : Str) → IsProp (s ≡ t)
names_set s t = hlevel

module _ (upper : ℕ → Str) (c : GenContext) where
  -- The name of a variant is the name of no other one.
  pub key_str-injective :
      (i j : Variant (length c.keys)) → IsGood upper c → key_str c.keys i ≡ key_str c.keys j → i ≡ j
  key_str-injective i j g same =
      let (e, at, name) = entry_of c.keys i in
      let (f, at', name') = entry_of c.keys j in
      let there = g.keys.listed (discriminant i) e at in
      let there' = g.keys.listed (discriminant j) f at' in
      let one : e.json_name ≡ f.json_name = name ∙ same ∙ sym name' in
      discriminant-injective i j (cc)

  named-IsProp :
      IsGood upper c
      → (name : Str) → IsProp ((k : Variant (length c.keys)) × (key_str c.keys k ≡ name))
  named-IsProp g name (i, p) (j, q) =
      Σ_prop_path (λ k. names_set (key_str c.keys k) name) (key_str-injective i j g (p ∙ sym q))

  name-Has :
      IsGood upper c
      → (name : Str)
      → Has c.key_index name ↔ ((k : Variant (length c.keys)) × (key_str c.keys k ≡ name))
  name-Has g name = (
    λ (i, there).
        let (e, at, is) = g.keys.found name i there in
        let (k, spelled) = variant_at c.keys i e at in (k, spelled ∙ is),
    λ (k, is).
        let (e, at, spelled) = entry_of c.keys k in
        (
          discriminant k,
          subst (λ s. get_index s c.key_index ≡ some (discriminant k)) (spelled ∙ is)
              (g.keys.listed (discriminant k) e at),
        ),
  )

module _ (upper : ℕ → Str) (b : Builtins) where
  -- For every schema that `generate` accepts, the type `EventKey` is the set of the schema's keys: for every
  -- name, the variants with that name form a proposition (there is at most one, and it has the name in at
  -- most one way), and there is one exactly if the name is in the table of keys.
  pub generate-one_variant :
      (entries : Entries) (c : GenContext) (name : Str)
      → generate upper b entries ≡ ok c
      → IsProp ((k : Variant (length c.keys)) × (key_str c.keys k ≡ name))
        × (Has c.key_index name ↔ ((k : Variant (length c.keys)) × (key_str c.keys k ≡ name)))
  generate-one_variant entries c name made =
      let good = (accepted-IsSchema upper b entries c made).good in
      (named-IsProp upper c good name, name-Has upper c good name)
