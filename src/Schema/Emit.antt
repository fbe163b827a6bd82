-- ===== src/Schema/Emit.antt =====
-- `emit` of wide-log-macros/src/codegen.rs: the enumeration `EventKey`, its implementation of `Key`,
-- `__wl_resolve_path` and the statements that set the defaults. rustc's part is to find the variant
-- that an identifier names, and to refuse an enumeration with two variants of one name or with more
-- than a `u8` can number.
pub mod Resolve
pub mod Generated
pub mod Names
pub mod Exact
pub mod Dropped
pub mod Variants
use mathlib.Core.Option
use wide_log.Prelude.{
  ℕ, zero, suc, Bool, true, false, not, ◌&&◌, Option, none, some, List, [], ◌∷◌, map, Str, str_eq,
  length, leb, if◌then◌else◌, ◌>>=◌,
}
use wide_log.Key.{Key}
use wide_log.Value.{Value}
use wide_log.Schema.{
  Builtins, GenContext, KeyEntry, PathEntry, DefaultEntry, DefaultValue, to_pascal_case,
}

-- The variants of an enumeration of `n`, in order.
pub data Variant : ℕ → Type 0 where
  first : {n : ℕ} → Variant (suc n)
  next : {n : ℕ} → Variant n → Variant (suc n)

-- `self as usize`
abbrev pub discriminant : {n : ℕ} → Variant n → ℕ
discriminant first = 0
discriminant (next k) = suc (discriminant k)

-- `KEYS`
abbrev pub all_variants : (n : ℕ) → List (Variant n)
all_variants zero = []
all_variants (suc n) = first ∷ map next (all_variants n)

-- `KEY_STRS[self as usize]`
abbrev pub key_str : (keys : List KeyEntry) → Variant (length keys) → Str
key_str [] k = elim k [ ]
key_str (e ∷ keys) first = e.json_name
key_str (e ∷ keys) (next k) = key_str keys k

-- What `EventKey::ident` means to rustc; `none` is an error of the build.
unfoldable pub variant_named : Str → (keys : List KeyEntry) → Option (Variant (length keys))
variant_named ident [] = none
variant_named ident (e ∷ keys) =
    if str_eq e.variant ident then some first else Option.map next (variant_named ident keys)

-- Whether rustc accepts the enumeration: no variant stands twice, and there are at most 256.
unfoldable pub variants_differ : List KeyEntry → Bool
unfolding variant_named
variants_differ [] = true
variants_differ (e ∷ keys) = elim (variant_named e.variant keys) [
  | none ↦ variants_differ keys
  | some k ↦ false
]

unfoldable pub is_accepted : List KeyEntry → Bool
unfolding variants_differ
is_accepted keys = variants_differ keys && leb (length keys) 256

-- `Value::from` of a default.
abbrev pub default_value : DefaultValue → Value
default_value (DefaultValue.str s) = Value.str s
default_value (DefaultValue.bool x) = Value.bool x
default_value (DefaultValue.int i) = Value.i64 i
default_value (DefaultValue.uint n) = Value.u64 n
default_value (DefaultValue.float x) = Value.f64 x

-- The `impl Key`, over the identifiers of its three paths.
abbrev pub key_of :
    Builtins
    → (c : GenContext) → List (Variant (length c.keys))
    → List (Variant (length c.keys))
    → List (Variant (length c.keys))
    → Key (Variant (length c.keys))
key_of b c duration timestamp id = record {
  as_str = key_str c.keys;
  max_keys = length c.keys;
  keys = all_variants (length c.keys);
  key_strs = map (λ e. e.json_name) c.keys;
  as_index = discriminant;
  duration_path = duration;
  timestamp_path = timestamp;
  id_path = id;
  log_key = b.log;
  level_key = b.level;
  message_key = b.message;
}

module _ (upper : ℕ → Str) where
  -- `#(EventKey::#ident),*` of a list of segments.
  unfoldable pub path_idents :
      (keys : List KeyEntry) → List Str → Option (List (Variant (length keys)))
  unfolding to_pascal_case variant_named
  path_idents keys [] = some []
  path_idents keys (s ∷ rest) = variant_named (to_pascal_case upper s) keys >>= λ k.
      path_idents keys rest >>= λ ks. some (k ∷ ks)

  -- `default_stmts`: the calls of `add_path`, in order.
  unfoldable pub default_stmts :
      (keys : List KeyEntry)
      → List DefaultEntry
      → Option (List (List (Variant (length keys)) × Value))
  unfolding path_idents
  default_stmts keys [] = some []
  default_stmts keys (d ∷ rest) = path_idents keys d.segments >>= λ path.
      default_stmts keys rest >>= λ stmts. some ((path, default_value d.value) ∷ stmts)

  -- `resolve_arms`
  unfoldable pub resolve_arms :
      (keys : List KeyEntry) → List PathEntry → Option (List (Str × List (Variant (length keys))))
  unfolding path_idents
  resolve_arms keys [] = some []
  resolve_arms keys (p ∷ rest) = path_idents keys p.segments >>= λ path.
      resolve_arms keys rest >>= λ arms. some ((p.dotted, path) ∷ arms)

  -- `key_impl`
  unfoldable pub key_impl : Builtins → (c : GenContext) → Option (Key (Variant (length c.keys)))
  unfolding path_idents
  key_impl b c = path_idents c.keys c.duration_segments >>= λ duration.
      path_idents c.keys c.timestamp_segments >>= λ timestamp.
      path_idents c.keys c.id_segments >>= λ id. some (key_of b c duration timestamp id)

-- `__wl_resolve_path`: a path that no arm has is `none`, a debug assertion or the empty path.
unfoldable pub resolve_path : {K : Type 0} → List (Str × List K) → Str → Option (List K)
resolve_path [] path = none
resolve_path ((dotted, ks) ∷ arms) path =
    if str_eq dotted path then some ks else resolve_path arms path
