-- ===== src/Event.antt =====
-- src/wide_event.rs: the operations of `WideEvent`. A `&mut self` method returns the new event;
-- `none` is a panic. A callback is an address, and `call` says what the code at an address does.
pub mod Counted
pub mod Run
pub mod Total
pub mod Lookup
pub mod Runs
use wide_log.Prelude.{
  ℕ, ◌+◌, ◌-◌, Bool, true, false, not, Option, none, some, List, [], ◌∷◌, ◌++◌, Str, ltb, leb,
  if◌then◌else◌, ◌>>=◌,
}
use wide_log.Prelude.Int.{ℤ, pos, negsuc}
use wide_log.Word.{Profile, add_u64, add_i64, saturating_add_signed}
use wide_log.Key.{Key}
use wide_log.Value.{
  Value, WideEvent, ConflictFn, event, i64, u64, object, end, static, owned, values,
  on_type_conflict, present_count, is_object,
}
use wide_log.Value.SlotVec
use wide_log.Value.SlotVec.{is_none}

-- What the methods depend on: the key enumeration, the build profile and the callbacks' code.
pub record Context (K : Type 0) : Type 0 where
  pub key : Key K
  pub profile : Profile
  pub call : ConflictFn → WideEvent → K → WideEvent

-- `let Some(v) = ... && !v.is_object()`, and an empty slot.
abbrev pub needs_replace : Option Value → Bool
needs_replace none = true
needs_replace (some v) = not (is_object v)

unfoldable pub ensure_capacity : ℕ → WideEvent → WideEvent
ensure_capacity idx (event s l c n) =
    event (if leb (SlotVec.length s) idx then SlotVec.resize (idx + 1) s else s) l c n

unfoldable pub new_child : WideEvent → WideEvent
new_child e = event end [] (on_type_conflict e) 0

-- `values[idx] = Some(v)`, and one more present slot if `fresh`.
abbrev pub store : ℕ → Value → Bool → WideEvent → WideEvent
store idx v fresh (event s l c n) = event (SlotVec.set s idx v) l c (if fresh then n + 1 else n)

-- `values[idx]`
abbrev pub slot : ℕ → WideEvent → Option Value
slot idx e = SlotVec.get (values e) idx

-- The common end of `add`, `inc`, `dec` and `add_n`, on an event that has room for `idx`.
abbrev put : ℕ → Value → WideEvent → WideEvent
put idx v e = store idx v (is_none (slot idx e)) e

unfoldable pub append_log_entry : Str → Str → WideEvent → WideEvent
append_log_entry level message (event s l c n) =
    event s (l ++ record { level = level; message = owned message } ∷ []) c n

unfoldable pub append_log_entry_static : Str → Str → WideEvent → WideEvent
append_log_entry_static level message (event s l c n) =
    event s (l ++ record { level = level; message = static message } ∷ []) c n

-- `len` and `count_present`
abbrev pub len : WideEvent → ℕ
len e = present_count e

module _ {K : Type 0} (cx : Context K) where
  unfoldable pub add : K → Value → WideEvent → WideEvent
  unfolding ensure_capacity
  add k v e = let idx = cx.key.as_index k in put idx v (ensure_capacity idx e)

  -- `if let Some(cb) = self.on_type_conflict && self.values[idx].is_some()`
  abbrev pub fire : Option ConflictFn → Bool → K → WideEvent → WideEvent
  fire none occupied k e = e
  fire (some f) occupied k e = if occupied then cx.call f e k else e

  -- The event that `object` leaves, before its caller writes through the returned `&mut`.
  unfoldable pub object_slot : K → WideEvent → WideEvent
  unfolding ensure_capacity new_child
  object_slot k e =
      let idx = cx.key.as_index k in
      let e₁ = ensure_capacity idx e in
      let prev_was_none = is_none (slot idx e₁) in
      let e₂ = fire (on_type_conflict e₁) (not prev_was_none) k e₁ in
      if needs_replace (slot idx e₁) then store idx (object (new_child e₂)) prev_was_none e₂ else e₁

  -- What the caller of `object` does with the child goes back into the slot; `unreachable!()` panics.
  abbrev pub write_back :
      ℕ → Option Value → (WideEvent → Option WideEvent) → WideEvent → Option WideEvent
  write_back idx (some (object child)) f e =
      f child >>= λ child'. some (store idx (object child') false e)
  write_back idx _ f e = none

  unfoldable pub with_object : K → (WideEvent → Option WideEvent) → WideEvent → Option WideEvent
  unfolding object_slot
  with_object k f e =
      let idx = cx.key.as_index k in let e' = object_slot k e in write_back idx (slot idx e') f e'

  -- `Some(Value::U64(n)) => n + 1`, ..., with the arithmetic of the build.
  abbrev pub inc_value : Option Value → Option Value
  inc_value (some (u64 n)) = add_u64 cx.profile n 1 >>= λ m. some (u64 m)
  inc_value (some (i64 n)) = add_i64 cx.profile n (pos 1) >>= λ m. some (i64 m)
  inc_value _ = some (u64 1)

  abbrev pub dec_value : Option Value → Option Value
  dec_value (some (u64 n)) = if ltb 0 n then some (u64 (n - 1)) else some (u64 0)
  dec_value (some (i64 n)) = add_i64 cx.profile n (negsuc 0) >>= λ m. some (i64 m)
  dec_value _ = some (i64 (negsuc 0))

  -- `if n >= 0 { Value::from(n as u64) } else { Value::from(n) }`
  abbrev pub from_signed : ℤ → Value
  from_signed (pos n) = u64 n
  from_signed (negsuc n) = i64 (negsuc n)

  abbrev pub add_n_value : ℤ → Option Value → Option Value
  add_n_value n (some (u64 u)) = some (u64 (saturating_add_signed u n))
  add_n_value n (some (i64 i)) = add_i64 cx.profile i n >>= λ m. some (i64 m)
  add_n_value n _ = some (from_signed n)

  unfoldable pub inc : K → WideEvent → Option WideEvent
  unfolding ensure_capacity
  inc k e =
      let idx = cx.key.as_index k in
      let e' = ensure_capacity idx e in inc_value (slot idx e') >>= λ v. some (put idx v e')

  unfoldable pub dec : K → WideEvent → Option WideEvent
  unfolding ensure_capacity
  dec k e =
      let idx = cx.key.as_index k in
      let e' = ensure_capacity idx e in dec_value (slot idx e') >>= λ v. some (put idx v e')

  unfoldable pub add_n : K → ℤ → WideEvent → Option WideEvent
  unfolding ensure_capacity
  add_n k n e =
      let idx = cx.key.as_index k in
      let e' = ensure_capacity idx e in add_n_value n (slot idx e') >>= λ v. some (put idx v e')

  -- The loop of `descend_mut` over `path[..path.len() - 1]`, with `f` at the last segment.
  unfoldable pub descend_mut :
      K → List K → (K → WideEvent → Option WideEvent) → WideEvent → Option WideEvent
  descend_mut seg [] f e = f seg e
  descend_mut seg (next ∷ rest) f e = with_object seg (descend_mut next rest f) e

  -- The shape that the four `_path` methods share: two segments, one, none (a panic), or more.
  abbrev pub at_path : List K → (K → WideEvent → Option WideEvent) → WideEvent → Option WideEvent
  at_path [] f e = none
  at_path (a ∷ []) f e = f a e
  at_path (a ∷ b ∷ []) f e = with_object a (f b) e
  at_path (a ∷ b ∷ c ∷ rest) f e = descend_mut a (b ∷ c ∷ rest) f e

  unfoldable pub add_path : List K → Value → WideEvent → Option WideEvent
  add_path path v = at_path path (λ k e. some (add k v e))

  unfoldable pub inc_path : List K → WideEvent → Option WideEvent
  inc_path path = at_path path inc

  unfoldable pub dec_path : List K → WideEvent → Option WideEvent
  dec_path path = at_path path dec

  unfoldable pub add_n_path : List K → ℤ → WideEvent → Option WideEvent
  add_n_path path n = at_path path (λ k. add_n k n)
