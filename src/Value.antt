-- ===== src/Value.antt =====
-- src/value.rs, src/log.rs and the structs of src/wide_event.rs: the values that an event holds.
-- `Value`, `SmallVec<Value>`, `WideEvent` and `SmallVec<Option<Value>>` are one recursive block.
-- A string is the list of its characters; an `f64` is its 64-bit pattern. `K` is a phantom type in
-- all of them but `ConflictFn`, which is a function's address here.
pub mod SlotVec
use wide_log.Prelude.{
  ℕ, ◌/◌, ◌%◌, ◌^◌, Bool, true, false, not, Option, none, some, List, [], Str, ◌==◌,
}
use wide_log.Prelude.Int.{ℤ}

-- A message known at compile time, or a formatted one.
pub data LogMsg : Type 0 where
  static : Str → LogMsg
  owned : Str → LogMsg

pub as_str : LogMsg → Str
as_str (static s) = s
as_str (owned s) = s

pub record LogEntry : Type 0 where
  pub level : Str
  pub message : LogMsg

-- The address of a callback.
abbrev pub ConflictFn : Type 0
ConflictFn = ℕ

mutual
  pub data Value : Type 0 where
    null : Value
    bool : Bool → Value
    i64 : ℤ → Value
    u64 : ℕ → Value
    f64 : ℕ → Value
    str : Str → Value
    static_str : Str → Value
    array : Items → Value
    object : WideEvent → Value

  pub data Items : Type 0 where
    nil : Items
    cons : Value → Items → Items

  -- values, log_entries, on_type_conflict, present_count
  pub data WideEvent : Type 0 where
    event : Slots → List LogEntry → Option ConflictFn → ℕ → WideEvent

  pub data Slots : Type 0 where
    end : Slots
    vacant : Slots → Slots
    filled : Value → Slots → Slots

abbrev pub values : WideEvent → Slots
values (event s l c n) = s

abbrev pub log_entries : WideEvent → List LogEntry
log_entries (event s l c n) = l

abbrev pub on_type_conflict : WideEvent → Option ConflictFn
on_type_conflict (event s l c n) = c

abbrev pub present_count : WideEvent → ℕ
present_count (event s l c n) = n

abbrev pub is_object : Value → Bool
is_object (object e) = true
is_object _ = false

-- `f64::is_finite`: the exponent bits are not all ones.
unfoldable pub is_finite : ℕ → Bool
is_finite bits = not (bits / 2 ^ 52 % 2 ^ 11 == 2047)

-- `WideEvent::new`
abbrev pub new : WideEvent
new = event end [] none 0
