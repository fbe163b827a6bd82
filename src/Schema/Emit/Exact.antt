-- ===== src/Schema/Emit/Exact.antt =====
-- Dotted paths of wide-log-macros/src/codegen.rs when no key contains a dot: each stands for one path.
use wide_log.Prelude.{
  ℕ, zero, suc, ◌≡◌, ◌≢◌, refl, sym, ap, subst, true, false, some, List, [], ◌∷◌, ◌++◌, map, Str,
  contains, length, get_elem?, All, arith,
}
use mathlib.Core.Path.{ap₂}
use wide_log.Parse.{Entries}
use wide_log.Schema.{Builtins, GenContext, KeyEntry, ok, join}
use wide_log.Schema.Builtin.{generate}
use wide_log.Schema.Tables.{Registered, IsGood}
use wide_log.Schema.Subtrees.{Ends}
use wide_log.Schema.Generate.{IsSchema, generate-Ends}
use wide_log.Schema.Declared.{Declares, generate-Placed}
use wide_log.Schema.Emit.{Variant, first, next, key_str, is_accepted, resolve_arms, resolve_path}
use wide_log.Schema.Emit.Generated.{generate-resolve_path}

-- A name that is not empty and has no dot.
pub data IsName : Str → Type 0 where
  name : {c : ℕ} {s : Str} → contains b'.' (c ∷ s) ≡ false → IsName (c ∷ s)

dotless-head :
    (c : ℕ) (s : Str) → contains b'.' (c ∷ s) ≡ false → (c ≢ b'.') × (contains b'.' s ≡ false)
unfolding contains
dotless-head c s h = ground arith

-- A dotless text and what stands behind the first dot.
first_dot :
    (s t x y : Str)
    → contains b'.' s ≡ false
    → contains b'.' t ≡ false
    → s ++ b'.' ∷ x ≡ t ++ b'.' ∷ y
    → (s ≡ t) × (x ≡ y)
first_dot [] [] x y hs ht h = (refl, cc)
first_dot [] (d ∷ t) x y hs ht h = let dot : d ≡ b'.' = cc in absurd ((dotless-head d t ht).0 dot)
first_dot (c ∷ s) [] x y hs ht h = let dot : c ≡ b'.' = cc in absurd ((dotless-head c s hs).0 dot)
first_dot (c ∷ s) (d ∷ t) x y hs ht h =
    let (ne, hs') = dotless-head c s hs in
    let (ne', ht') = dotless-head d t ht in
    let tails : s ++ b'.' ∷ x ≡ t ++ b'.' ∷ y = cc in
    let same : c ≡ d = cc in
    let (heads, rests) = first_dot s t x y hs' ht' tails in (ap₂ (λ z zs. z ∷ zs) same heads, rests)

no_dot : (s t y : Str) → contains b'.' s ≡ false → s ≢ t ++ b'.' ∷ y
no_dot [] [] y hs h = cc
no_dot [] (d ∷ t) y hs h = cc
no_dot (c ∷ s) [] y hs h = let dot : c ≡ b'.' = cc in absurd ((dotless-head c s hs).0 dot)
no_dot (c ∷ s) (d ∷ t) y hs h =
    let (ne, hs') = dotless-head c s hs in
    let tails : s ≡ t ++ b'.' ∷ y = cc in no_dot s t y hs' tails

dotless : (s : Str) → IsName s → contains b'.' s ≡ false
dotless [] h = elim h [ ]
dotless (c ∷ s) (name h) = h

join-nonempty : (p : Str) (ps : List Str) → IsName p → join (p ∷ ps) ≢ []
unfolding join
join-nonempty [] ps n h = elim n [ ]
join-nonempty (c ∷ s) [] n h = cc
join-nonempty (c ∷ s) (q ∷ ps) n h = cc

-- Paths of names with one dotted text are one path.
join-injective : (p q : List Str) → All IsName p → All IsName q → join p ≡ join q → p ≡ q
unfolding join
join-injective [] [] hp hq h = refl
join-injective [] (t ∷ q) hp hq h = absurd (join-nonempty t q hq.0 (sym h))
join-injective (s ∷ p) [] hp hq h = absurd (join-nonempty s p hp.0 h)
join-injective (s ∷ []) (t ∷ []) hp hq h = ap (λ x. x ∷ []) h
join-injective (s ∷ []) (t ∷ u ∷ q) hp hq h = absurd (no_dot s t (join (u ∷ q)) (dotless s hp.0) h)
join-injective (s ∷ r ∷ p) (t ∷ []) hp hq h =
    absurd (no_dot t s (join (r ∷ p)) (dotless t hq.0) (sym h))
join-injective (s ∷ r ∷ p) (t ∷ u ∷ q) hp hq h =
    let (heads, tails) =
      first_dot s t (join (r ∷ p)) (join (u ∷ q)) (dotless s hp.0) (dotless t hq.0) h in
    ap₂ (λ x xs. x ∷ xs) heads (join-injective (r ∷ p) (u ∷ q) hp.1 hq.1 tails)

-- Each variant stands for a name.
key_str-IsName :
    (keys : List KeyEntry) (k : Variant (length keys))
    → All (λ e. IsName e.json_name) keys
    → IsName (key_str keys k)
key_str-IsName [] k h = elim k [ ]
key_str-IsName (e ∷ keys) first h = h.0
key_str-IsName (e ∷ keys) (next k) h = key_str-IsName keys k h.1

spelled-IsName :
    (keys : List KeyEntry) (ks : List (Variant (length keys)))
    → All (λ e. IsName e.json_name) keys
    → All IsName (map (key_str keys) ks)
spelled-IsName keys [] h = tt
spelled-IsName keys (k ∷ ks) h = (key_str-IsName keys k h, spelled-IsName keys ks h)

module _ (upper : ℕ → Str) where
  Registered-IsName :
      (c : GenContext) (segments : List Str)
      → IsGood upper c
      → All (λ e. IsName e.json_name) c.keys
      → Registered c.key_index segments
      → All IsName segments
  Registered-IsName c [] g names h = tt
  Registered-IsName c (s ∷ rest) g names ((i, there), more) =
      let (e, at, same) = g.keys.found s i there in
      (subst IsName same (stands c.keys i e names at), Registered-IsName c rest g names more)
    where
      stands :
          (es : List KeyEntry) (i : ℕ) (e : KeyEntry)
          → All (λ x. IsName x.json_name) es
          → get_elem? es i ≡ some e
          → IsName e.json_name
      stands [] i e h at = cc
      stands (x ∷ es) zero e h at =
          let same : x ≡ e = cc in subst (λ y. IsName y.json_name) same h.0
      stands (x ∷ es) (suc i) e h at = stands es i e h.1 at

  -- For every schema that `generate` accepts, with an enumeration that the compiler accepts and with keys
  -- that are not empty and contain no dot: the dotted path of each node that the schema declares resolves
  -- through `__wl_resolve_path` to the variants of exactly the node's own path, segment by segment.
  pub generate-resolve_path-exact :
      (b : Builtins) (entries : Entries) (c : GenContext) (path : List Str)
      → generate upper b entries ≡ ok c
      → is_accepted c.keys ≡ true
      → All (λ e. IsName e.json_name) c.keys
      → Declares entries path
      → (arms : List (Str × List (Variant (length c.keys)))) × (ks : List (Variant (length c.keys)))
        × (resolve_arms upper c.keys c.paths ≡ some arms)
        × (resolve_path arms (join path) ≡ some ks)
        × (map (key_str c.keys) ks ≡ path)
  generate-resolve_path-exact b entries c path made accepted names declared =
      let (arms, ks, built, found, spelled) =
        generate-resolve_path upper b entries c path made accepted declared in
      let good = (subst (Ends (IsSchema upper b)) made (generate-Ends upper b entries)).good in
      let keys = (generate-Placed upper b entries c path made declared).0 in
      let exact =
        join-injective (map (key_str c.keys) ks) path (spelled-IsName c.keys ks names)
          (Registered-IsName c path good names keys) spelled in
      (arms, ks, built, found, exact)
