-- ===== src/Schema/Emit/Generated.antt =====
-- What `emit` of wide-log-macros/src/codegen.rs writes for an accepted schema: the implementation of
-- `Key`, the calls that set the defaults, and `__wl_resolve_path`.
use wide_log.Prelude.{
  ℕ, zero, suc, ◌≡◌, ◌<◌, refl, sym, ◌∙◌, ap, subst, Bool, true, false, ◌&&◌, some, List, [], ◌∷◌,
  map, Str, str_eq, str_eq_refl, str_eq→eq, length, get_elem?, All, leb, leb→le, >>=-eq-some,
  Bool-cases, inl, inr, arith,
}
use mathlib.Core.Path.{ap₂}
use wide_log.Key.{Key, IsKey}
use wide_log.Value.{Value}
use wide_log.Parse.{Entries}
use wide_log.Schema.{Builtins, GenContext, KeyEntry, PathEntry, DefaultEntry, ok, get_index, join}
use wide_log.Schema.Builtin.{timestamp_path, id_path, generate}
use wide_log.Schema.Tables.{Registered, Placed, PlacedIfSet, IsGood, All-map}
use wide_log.Schema.Subtrees.{Ends}
use wide_log.Schema.Generate.{IsSchema, generate-Ends}
use wide_log.Schema.Declared.{Declares, generate-Placed}
use wide_log.Schema.Emit.{
  Variant, key_str, variants_differ, is_accepted, path_idents, key_of, key_impl, default_value,
  default_stmts, resolve_arms, resolve_path,
}
use wide_log.Schema.Emit.Resolve.{path_idents-Spells, discriminant-bounded, enumeration-IsKey}

module _ (upper : ℕ → Str) (b : Builtins) where
  -- The implementation keeps the trait's laws, its indices fit into a `u8`, and its paths spell the
  -- guard's: the duration's own one, `event.timestamp` and `event.id`.
  pub record IsEmitted (c : GenContext) (key : Key (Variant (length c.keys))) : Type 0 where
    pub lawful : IsKey key
    pub byte : (k : Variant (length c.keys)) → key.as_index k < 256
    pub duration : map key.as_str key.duration_path ≡ c.duration_segments
    pub timestamp : map key.as_str key.timestamp_path ≡ timestamp_path upper b
    pub id : map key.as_str key.id_path ≡ id_path upper b

  set-Registered :
      (c : GenContext) (segments : List Str)
      → PlacedIfSet c segments
      → Registered c.key_index segments
  set-Registered c [] h = tt
  set-Registered c (s ∷ rest) h = h.0

  is_accepted-both :
      (keys : List KeyEntry)
      → is_accepted keys ≡ true
      → (variants_differ keys ≡ true) × (leb (length keys) 256 ≡ true)
  unfolding is_accepted
  is_accepted-both keys h = both (variants_differ keys) (leb (length keys) 256) h
    where
      both : (x y : Bool) → (x && y) ≡ true → (x ≡ true) × (y ≡ true)
      both true y h' = (refl, h')
      both false y h' = cc

  key_impl-IsEmitted :
      (c : GenContext)
      → IsSchema upper b c
      → is_accepted c.keys ≡ true
      → (key : Key (Variant (length c.keys))) × (key_impl upper b c ≡ some key) × IsEmitted c key
  unfolding key_impl
  key_impl-IsEmitted c schema accepted =
      let g = schema.good in
      let (differ, few) = is_accepted-both c.keys accepted in
      let (ds, found_d, spelled_d) =
        path_idents-Spells upper c c.duration_segments g differ
          (set-Registered c c.duration_segments g.duration) in
      let (ts, found_t, spelled_t) =
        path_idents-Spells upper c c.timestamp_segments g differ
          (set-Registered c c.timestamp_segments g.timestamp) in
      let (is, found_i, spelled_i) =
        path_idents-Spells upper c c.id_segments g differ (set-Registered c c.id_segments g.id) in
      (
        key_of b c ds ts is,
        rw found_d (rw found_t (rw found_i refl)),
        record {
          lawful = enumeration-IsKey c.keys _ refl refl refl refl refl;
          byte = λ k. omega (arith, discriminant-bounded k, leb→le (length c.keys) 256 few);
          duration = spelled_d;
          timestamp = spelled_t ∙ schema.timestamp;
          id = spelled_i ∙ schema.id;
        },
      )

  abbrev pub stmt_text :
      (keys : List KeyEntry) → List (Variant (length keys)) × Value → List Str × Value
  stmt_text keys (path, v) = (map (key_str keys) path, v)

  abbrev pub default_text : DefaultEntry → List Str × Value
  default_text d = (d.segments, default_value d.value)

  default_stmts-spelled :
      (c : GenContext) (defaults : List DefaultEntry)
      → IsGood upper c
      → variants_differ c.keys ≡ true
      → All (λ d. Placed c d.segments) defaults
      → (stmts : List (List (Variant (length c.keys)) × Value)) × (default_stmts upper c.keys
            defaults
          ≡ some stmts)
        × (map (stmt_text c.keys) stmts ≡ map default_text defaults)
  unfolding default_stmts
  default_stmts-spelled c [] g differ h = ([], refl, refl)
  default_stmts-spelled c (d ∷ rest) g differ h =
      let (path, found, spelled) = path_idents-Spells upper c d.segments g differ h.0.0 in
      let (stmts, founds, spelleds) = default_stmts-spelled c rest g differ h.1 in
      let front : stmt_text c.keys (path, default_value d.value) ≡ default_text d =
        ap (λ p. (p, default_value d.value)) spelled in
      (
        (path, default_value d.value) ∷ stmts,
        rw found (rw founds refl),
        ap₂ (λ x xs. x ∷ xs) front spelleds,
      )

  -- A path of the table resolves to variants that spell it.
  abbrev Resolves :
      (c : GenContext) → List (Str × List (Variant (length c.keys))) → PathEntry → Type 0
  Resolves c arms p =
      (ks : List (Variant (length c.keys))) × (resolve_path arms p.dotted ≡ some ks)
      × (join (map (key_str c.keys) ks) ≡ p.dotted)

  Resolves-cons :
      (c : GenContext) (q : PathEntry) (path : List (Variant (length c.keys)))
      (arms : List (Str × List (Variant (length c.keys)))) (p : PathEntry)
      → join (map (key_str c.keys) path) ≡ q.dotted
      → Resolves c arms p
      → Resolves c ((q.dotted, path) ∷ arms) p
  unfolding resolve_path
  Resolves-cons c q path arms p spelled (ks, found, spelleds) =
      elim (Bool-cases (str_eq q.dotted p.dotted)) [
        | inl same ↦ (path, rw same refl, spelled ∙ str_eq→eq q.dotted p.dotted same)
        | inr other ↦ (ks, rw other found, spelleds)
      ]

  resolve_arms-Resolves :
      (c : GenContext) (paths : List PathEntry)
      → IsGood upper c
      → variants_differ c.keys ≡ true
      → All (λ p. (p.dotted ≡ join p.segments) × Registered c.key_index p.segments) paths
      → (arms : List (Str × List (Variant (length c.keys)))) × (resolve_arms upper c.keys paths
          ≡ some arms)
        × All (Resolves c arms) paths
  unfolding resolve_arms resolve_path
  resolve_arms-Resolves c [] g differ h = ([], refl, tt)
  resolve_arms-Resolves c (p ∷ rest) g differ h =
      let (path, found, spelled) = path_idents-Spells upper c p.segments g differ h.0.1 in
      let (arms, founds, resolves) = resolve_arms-Resolves c rest g differ h.1 in
      let dots = ap join spelled ∙ sym h.0.0 in
      (
        (p.dotted, path) ∷ arms,
        rw found (rw founds refl),
        (
          (path, rw (str_eq_refl p.dotted) refl, dots),
          All-map _ _ (λ q r. Resolves-cons c p path arms q dots r) rest resolves,
        ),
      )

  All-get_elem? :
      {A : Type 0} (P : A → Type 0) (xs : List A) (i : ℕ) (x : A)
      → All P xs
      → get_elem? xs i ≡ some x
      → P x
  All-get_elem? P [] i x h at = cc
  All-get_elem? P (y ∷ xs) zero x h at = let same : y ≡ x = cc in subst P same h.0
  All-get_elem? P (y ∷ xs) (suc i) x h at = All-get_elem? P xs i x h.1 at

  -- No arm has a path that the table does not have.
  resolve_arms-found :
      (keys : List KeyEntry) (paths : List PathEntry)
      (arms : List (Str × List (Variant (length keys)))) (dotted : Str)
      (ks : List (Variant (length keys)))
      → resolve_arms upper keys paths ≡ some arms
      → resolve_path arms dotted ≡ some ks
      → (i : ℕ) × (p : PathEntry) × (get_elem? paths i ≡ some p) × (p.dotted ≡ dotted)
  unfolding resolve_arms resolve_path
  resolve_arms-found keys [] arms dotted ks h found = cc
  resolve_arms-found keys (p ∷ rest) arms dotted ks h found =
      let (path, there, h') = >>=-eq-some (path_idents upper keys p.segments) _ h in
      let (more, theres, h'') = >>=-eq-some (resolve_arms upper keys rest) _ h' in
      let same : (p.dotted, path) ∷ more ≡ arms = cc in
      let first_arm = subst (λ xs. resolve_path xs dotted ≡ some ks) (sym same) found in
      elim (Bool-cases (str_eq p.dotted dotted)) [
        | inl here ↦ (zero, p, refl, str_eq→eq p.dotted dotted here)
        | inr other ↦
            let (i, q, at, named) =
              resolve_arms-found keys rest more dotted ks theres (rw other at first_arm) in
            (suc i, q, at, named)
      ]

  -- The function `__wl_resolve_path` is the table of paths, with the variants for the segments.
  pub record IsPathTable (c : GenContext) (arms : List (Str × List (Variant (length c.keys))))
      : Type 0 where
    pub known :
        (dotted : Str) (i : ℕ)
        → get_index dotted c.path_index ≡ some i
        → (ks : List (Variant (length c.keys))) × (resolve_path arms dotted ≡ some ks)
          × (join (map (key_str c.keys) ks) ≡ dotted)
    pub only :
        (dotted : Str) (ks : List (Variant (length c.keys)))
        → resolve_path arms dotted ≡ some ks
        → (i : ℕ) × (get_index dotted c.path_index ≡ some i)

  resolve_arms-IsPathTable :
      (c : GenContext)
      → IsGood upper c
      → variants_differ c.keys ≡ true
      → (arms : List (Str × List (Variant (length c.keys)))) × (resolve_arms upper c.keys c.paths
          ≡ some arms)
        × IsPathTable c arms
  resolve_arms-IsPathTable c g differ =
      let (arms, built, resolves) = resolve_arms-Resolves c c.paths g differ g.path_keys in
      (
        arms,
        built,
        record {
          known = λ dotted i at.
              let (p, stands, named) = g.paths.found dotted i at in
              subst
                (λ d.
                  (ks : List (Variant (length c.keys))) × (resolve_path arms d ≡ some ks)
                  × (join (map (key_str c.keys) ks) ≡ d))
                named (All-get_elem? (Resolves c arms) c.paths i p resolves stands);
          only = λ dotted ks found.
              let (i, p, stands, named) =
                resolve_arms-found c.keys c.paths arms dotted ks built found in
              (i, subst (λ d. get_index d c.path_index ≡ some i) named (g.paths.listed i p stands));
        },
      )

  pub accepted-IsSchema :
      (entries : Entries) (c : GenContext) → generate upper b entries ≡ ok c → IsSchema upper b c
  accepted-IsSchema entries c made =
      subst (Ends (IsSchema upper b)) made (generate-Ends upper b entries)

  -- For every schema that `generate` accepts, with an enumeration that the compiler accepts (at most 256
  -- variants, no two of one name): every identifier in `impl Key` is a variant, the implementation keeps
  -- the laws of the trait, its indices are below 256, and its duration, timestamp and id paths spell the
  -- schema's duration path, `event.timestamp` and `event.id` (under their overridden names).
  pub generate-IsEmitted :
      (entries : Entries) (c : GenContext)
      → generate upper b entries ≡ ok c
      → is_accepted c.keys ≡ true
      → (key : Key (Variant (length c.keys))) × (key_impl upper b c ≡ some key) × IsEmitted c key
  generate-IsEmitted entries c made = key_impl-IsEmitted c (accepted-IsSchema entries c made)

  -- For every schema that `generate` accepts, with an enumeration that the compiler accepts: the default
  -- statements are built, and they set the defaults of the schema in order, each at variants that spell
  -- its path and to the same value.
  pub generate-default_stmts :
      (entries : Entries) (c : GenContext)
      → generate upper b entries ≡ ok c
      → is_accepted c.keys ≡ true
      → (stmts : List (List (Variant (length c.keys)) × Value)) × (default_stmts upper c.keys
            c.defaults
          ≡ some stmts)
        × (map (stmt_text c.keys) stmts ≡ map default_text c.defaults)
  generate-default_stmts entries c made accepted =
      let g = (accepted-IsSchema entries c made).good in
      default_stmts-spelled c c.defaults g (is_accepted-both c.keys accepted).0 g.defaults

  -- For every schema that `generate` accepts, with an enumeration that the compiler accepts: the arms of
  -- `__wl_resolve_path` are built, each dotted path of the schema's table resolves to variants whose names
  -- joined by dots are that path, and no other path resolves.
  pub generate-IsPathTable :
      (entries : Entries) (c : GenContext)
      → generate upper b entries ≡ ok c
      → is_accepted c.keys ≡ true
      → (arms : List (Str × List (Variant (length c.keys)))) × (resolve_arms upper c.keys c.paths
          ≡ some arms)
        × IsPathTable c arms
  generate-IsPathTable entries c made accepted =
      resolve_arms-IsPathTable c (accepted-IsSchema entries c made).good
        (is_accepted-both c.keys accepted).0

  -- For every schema that `generate` accepts, with an enumeration that the compiler accepts: the dotted path
  -- of each node that the schema declares, at whatever depth, resolves through `__wl_resolve_path`, to
  -- variants whose names joined by dots are that path.
  pub generate-resolve_path :
      (entries : Entries) (c : GenContext) (path : List Str)
      → generate upper b entries ≡ ok c
      → is_accepted c.keys ≡ true
      → Declares entries path
      → (arms : List (Str × List (Variant (length c.keys)))) × (ks : List (Variant (length c.keys)))
        × (resolve_arms upper c.keys c.paths ≡ some arms)
        × (resolve_path arms (join path) ≡ some ks)
        × (join (map (key_str c.keys) ks) ≡ join path)
  generate-resolve_path entries c path made accepted declared =
      let (arms, built, table) = generate-IsPathTable entries c made accepted in
      let (keys, (i, at)) = generate-Placed upper b entries c path made declared in
      let (ks, found, spelled) = table.known (join path) i at in (arms, ks, built, found, spelled)
