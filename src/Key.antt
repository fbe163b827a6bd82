-- ===== src/Key.antt =====
-- src/key.rs: the interface that the generated key enumeration implements, and what it promises.
use wide_log.Prelude.{ℕ, ◌<◌, ◌≡◌, some, List, length, get_elem?, map, Str}

-- The associated constants and methods of the trait, over the enumeration's type `K`.
pub record Key (K : Type 0) : Type 0 where
  pub as_str : K → Str
  pub max_keys : ℕ
  pub keys : List K
  pub key_strs : List Str
  pub as_index : K → ℕ
  pub duration_path : List K
  pub timestamp_path : List K
  pub id_path : List K
  pub log_key : Str
  pub level_key : Str
  pub message_key : Str

-- The documented laws: `KEYS` and `KEY_STRS` are in enum order, indexed by `as_index`.
pub record IsKey {K : Type 0} (key : Key K) : Type 0 where
  pub counted : length key.keys ≡ key.max_keys
  pub indexed : (k : K) → get_elem? key.keys (key.as_index k) ≡ some k
  pub bounded : (k : K) → key.as_index k < key.max_keys
  pub spelled : key.key_strs ≡ map key.as_str key.keys
