-- ===== src/Schema/Emit/Resolve.antt =====
-- The identifiers that `emit` of wide-log-macros/src/codegen.rs writes: each names the variant of its
-- segment.
use mathlib.Core.Option
use wide_log.Prelude.{
  ℕ, zero, suc, ◌≡◌, ◌<◌, refl, ◌∙◌, ap, subst, true, false, Option, none, some, List, [], ◌∷◌, map,
  Str, str_eq, str_eq_refl, str_eq→eq, length, get_elem?, All, if◌then◌else◌, Bool-cases, inl, inr,
  arith,
}
use mathlib.Core.Path.{ap₂}
use wide_log.Key.{Key, IsKey}
use wide_log.Schema.{GenContext, KeyEntry, to_pascal_case}
use wide_log.Schema.Tables.{Has, Registered, IsGood}
use wide_log.Schema.Emit.{
  Variant, first, next, discriminant, all_variants, key_str, variant_named, variants_differ,
  path_idents,
}

-- An accepted enumeration has no second variant of the first one's name.
variants_differ-step :
    (e : KeyEntry) (keys : List KeyEntry)
    → variants_differ (e ∷ keys) ≡ true
    → (variant_named e.variant keys ≡ none) × (variants_differ keys ≡ true)
unfolding variants_differ
variants_differ-step e keys h = by_name (variant_named e.variant keys) h
  where
    by_name :
        (o : Option (Variant (length keys)))
        → elim o [ none ↦ variants_differ keys | some k ↦ false ] ≡ true
        → (o ≡ none) × (variants_differ keys ≡ true)
    by_name none h' = (refl, h')
    by_name (some k) h' = cc

-- The name of a variant names that variant.
pub variant_named-key_str :
    (keys : List KeyEntry) (i : ℕ) (e : KeyEntry)
    → variants_differ keys ≡ true
    → get_elem? keys i ≡ some e
    → (k : Variant (length keys)) × (variant_named e.variant keys ≡ some k)
      × (key_str keys k ≡ e.json_name)
unfolding variant_named
variant_named-key_str [] i e differ at = cc
variant_named-key_str (x ∷ keys) zero e differ at =
    let same : x ≡ e = cc in
    subst
      (λ y.
        (k : Variant (suc (length keys))) × ((if str_eq x.variant y.variant
            then some first
            else Option.map next (variant_named y.variant keys))
          ≡ some k)
        × (key_str (x ∷ keys) k ≡ y.json_name))
      same (first, rw (str_eq_refl x.variant) refl, refl)
variant_named-key_str (x ∷ keys) (suc i) e differ at =
    let (fresh, rest) = variants_differ-step x keys differ in
    let (k, there, spelled) = variant_named-key_str keys i e rest at in
    elim (Bool-cases (str_eq x.variant e.variant)) [
      | inl same ↦ let one = str_eq→eq x.variant e.variant same in cc
      | inr other ↦ (next k, rw other (rw there refl), spelled)
    ]

-- A segment's identifier stands for the variant that spells the segment.
abbrev pub Spells :
    (keys : List KeyEntry) → List Str → Option (List (Variant (length keys))) → Type 0
Spells keys segments o =
    (ks : List (Variant (length keys))) × (o ≡ some ks) × (map (key_str keys) ks ≡ segments)

module _ (upper : ℕ → Str) where
  variant_named-Has :
      (c : GenContext) (s : Str)
      → IsGood upper c
      → variants_differ c.keys ≡ true
      → Has c.key_index s
      → (k : Variant (length c.keys)) × (variant_named (to_pascal_case upper s) c.keys ≡ some k)
        × (key_str c.keys k ≡ s)
  variant_named-Has c s g differ (i, there) =
      let (e, at, name) = g.keys.found s i there in
      let (k, found, spelled) = variant_named-key_str c.keys i e differ at in
      let variant = All-get_elem? _ c.keys i e g.variants at ∙ ap (to_pascal_case upper) name in
      (k, subst (λ v. variant_named v c.keys ≡ some k) variant found, spelled ∙ name)
    where
      All-get_elem? :
          (P : KeyEntry → Type 0) (es : List KeyEntry) (i : ℕ) (e : KeyEntry)
          → All P es
          → get_elem? es i ≡ some e
          → P e
      All-get_elem? P [] i e h at = cc
      All-get_elem? P (x ∷ es) zero e h at = let same : x ≡ e = cc in subst P same h.0
      All-get_elem? P (x ∷ es) (suc i) e h at = All-get_elem? P es i e h.1 at

  pub path_idents-Spells :
      (c : GenContext) (segments : List Str)
      → IsGood upper c
      → variants_differ c.keys ≡ true
      → Registered c.key_index segments
      → Spells c.keys segments (path_idents upper c.keys segments)
  unfolding path_idents
  path_idents-Spells c [] g differ h = ([], refl, refl)
  path_idents-Spells c (s ∷ rest) g differ h =
      let (k, found, spelled) = variant_named-Has c s g differ h.0 in
      let (ks, founds, spelleds) = path_idents-Spells c rest g differ h.1 in
      (k ∷ ks, rw found (rw founds refl), ap₂ (λ x xs. x ∷ xs) spelled spelleds)

length-all_variants : (n : ℕ) → length (all_variants n) ≡ n
length-all_variants zero = refl
length-all_variants (suc n) = ap suc (length-map next (all_variants n) ∙ length-all_variants n)
  where
    length-map : {A B : Type 0} (f : A → B) (xs : List A) → length (map f xs) ≡ length xs
    length-map f [] = refl
    length-map f (x ∷ xs) = ap suc (length-map f xs)

get_elem?-all_variants :
    {n : ℕ} (k : Variant n) → get_elem? (all_variants n) (discriminant k) ≡ some k
get_elem?-all_variants first = refl
get_elem?-all_variants {n = suc m} (next k) =
    get_elem?-map next (all_variants m) (discriminant k)
    ∙ ap (Option.map next) (get_elem?-all_variants k)
  where
    get_elem?-map :
        {A B : Type 0} (f : A → B) (xs : List A) (i : ℕ)
        → get_elem? (map f xs) i ≡ Option.map f (get_elem? xs i)
    get_elem?-map f [] i = refl
    get_elem?-map f (x ∷ xs) zero = refl
    get_elem?-map f (x ∷ xs) (suc i) = get_elem?-map f xs i

pub discriminant-bounded : {n : ℕ} (k : Variant n) → discriminant k < n
discriminant-bounded first = omega arith
discriminant-bounded (next k) = omega (arith, discriminant-bounded k)

spelled-all_variants :
    (keys : List KeyEntry)
    → map (λ e. e.json_name) keys ≡ map (key_str keys) (all_variants (length keys))
spelled-all_variants [] = refl
spelled-all_variants (e ∷ keys) =
    ap (λ names. e.json_name ∷ names)
      (spelled-all_variants keys ∙ map-map next (key_str (e ∷ keys)) (all_variants (length keys)))
  where
    map-map :
        {A B C : Type 0} (f : A → B) (g : B → C) (xs : List A)
        → map (λ a. g (f a)) xs ≡ map g (map f xs)
    map-map f g [] = refl
    map-map f g (x ∷ xs) = ap (λ ys. g (f x) ∷ ys) (map-map f g xs)

-- Whatever the paths, an implementation over these tables keeps the laws of `Key`.
pub enumeration-IsKey :
    (keys : List KeyEntry) (key : Key (Variant (length keys)))
    → key.max_keys ≡ length keys
    → key.keys ≡ all_variants (length keys)
    → key.as_index ≡ discriminant
    → key.as_str ≡ key_str keys
    → key.key_strs ≡ map (λ e. e.json_name) keys
    → IsKey key
enumeration-IsKey keys key count all index str strs = record {
  counted = rw (count, all) (length-all_variants (length keys));
  indexed = λ k. rw (all, index) (get_elem?-all_variants k);
  bounded = λ k. rw (count, index) (discriminant-bounded k);
  spelled = rw (strs, all, str) (spelled-all_variants keys);
}
