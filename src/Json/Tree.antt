-- ===== src/Json/Tree.antt =====
-- The `Serialize` impls of src/value.rs, src/log.rs and src/wide_event.rs: the calls that they make
-- of a serializer, as a tree, and the JSON value that the tree stands for.
use wide_log.Prelude.{ℕ, ◌+◌, Bool, List, [], ◌∷◌, Str}
use wide_log.Prelude.Int.{ℤ}
use wide_log.Key.{Key}
use wide_log.Value.{Value, Items, WideEvent, Slots, LogEntry, as_str}

-- serde's data model, as far as it is used. `map` has the length that is announced.
mutual
  pub data Ser : Type 0 where
    unit : Ser
    bool : Bool → Ser
    i64 : ℤ → Ser
    u64 : ℕ → Ser
    f64 : ℕ → Ser
    str : Str → Ser
    seq : SerItems → Ser
    map : ℕ → SerEntries → Ser

  pub data SerItems : Type 0 where
    nil : SerItems
    cons : Ser → SerItems → SerItems

  pub data SerEntries : Type 0 where
    done : SerEntries
    entry : Str → Ser → SerEntries → SerEntries

module _ {K : Type 0} (key : Key K) where
  -- `impl Serialize for LogEntry`
  unfoldable pub serialize_entry : LogEntry → Ser
  serialize_entry e =
      map 2
        (entry key.level_key (str e.level) (entry key.message_key (str (as_str e.message)) done))

  unfoldable pub serialize_entries : List LogEntry → SerItems
  serialize_entries [] = nil
  serialize_entries (e ∷ rest) = cons (serialize_entry e) (serialize_entries rest)

  -- The `"log"` entry, if there is one.
  unfoldable pub serialize_log : List LogEntry → SerEntries
  serialize_log [] = done
  serialize_log (e ∷ rest) = entry key.log_key (seq (serialize_entries (e ∷ rest))) done

  -- `present + if self.log_entries.is_empty() { 0 } else { 1 }`
  abbrev pub total : ℕ → List LogEntry → ℕ
  total present [] = present + 0
  total present (e ∷ rest) = present + 1

  unfoldable mutual
    pub serialize : Value → Ser
    serialize Value.null = unit
    serialize (Value.bool b) = bool b
    serialize (Value.i64 i) = i64 i
    serialize (Value.u64 u) = u64 u
    serialize (Value.f64 f) = f64 f
    serialize (Value.str s) = str s
    serialize (Value.static_str s) = str s
    serialize (Value.array xs) = seq (serialize_items xs)
    serialize (Value.object e) = serialize_event e

    pub serialize_items : Items → SerItems
    serialize_items Items.nil = nil
    serialize_items (Items.cons v xs) = cons (serialize v) (serialize_items xs)

    pub serialize_event : WideEvent → Ser
    serialize_event (WideEvent.event s l c n) =
        map (total n l) (serialize_slots s key.keys (serialize_log l))

    -- The loop over `K::KEYS`, before the entries that follow it.
    pub serialize_slots : Slots → List K → SerEntries → SerEntries
    serialize_slots Slots.end keys tail = tail
    serialize_slots (Slots.vacant s) [] tail = tail
    serialize_slots (Slots.filled v s) [] tail = tail
    serialize_slots (Slots.vacant s) (k ∷ keys) tail = serialize_slots s keys tail
    serialize_slots (Slots.filled v s) (k ∷ keys) tail =
        entry (key.as_str k) (serialize v) (serialize_slots s keys tail)
