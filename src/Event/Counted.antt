-- ===== src/Event/Counted.antt =====
-- The cached `present_count` of src/wide_event.rs, at every depth of an event.
pub mod Methods
use wide_log.Prelude.{
  ℕ, zero, suc, ◌+◌, ◌<◌, ◌≤◌, ◌≡◌, refl, Bool, true, false, not, Option, none, some, List, [], ◌∷◌,
  arith, leb, if◌then◌else◌, ◌>>=◌, >>=-eq-some, Bool-cases, inl, inr, ap, ◌∙◌,
}
use wide_log.Key.{Key}
use wide_log.Value.{
  Value, Items, WideEvent, Slots, event, null, bool, i64, u64, f64, str, static_str, array, object,
  nil, cons, end, vacant, filled, values, ConflictFn,
}
use wide_log.Value.SlotVec
use wide_log.Value.SlotVec.{is_none, length-resize, get-resize, count-resize, length-set, count-set}
use wide_log.Event.{Context, slot, store, ensure_capacity, add}

-- The cache equals the number of present slots, here and in every object below.
abbrev mutual
  pub IsCountedValue : Value → Type 0
  IsCountedValue (array xs) = IsCountedItems xs
  IsCountedValue (object e) = IsCounted e
  IsCountedValue _ = Unit

  pub IsCountedItems : Items → Type 0
  IsCountedItems nil = Unit
  IsCountedItems (cons v xs) = IsCountedValue v × IsCountedItems xs

  pub IsCounted : WideEvent → Type 0
  IsCounted (event s l c n) = (SlotVec.count s ≡ n) × IsCountedSlots s

  pub IsCountedSlots : Slots → Type 0
  IsCountedSlots end = Unit
  IsCountedSlots (vacant s) = IsCountedSlots s
  IsCountedSlots (filled v s) = IsCountedValue v × IsCountedSlots s

IsCountedSlots-resize : (n : ℕ) (s : Slots) → IsCountedSlots s → IsCountedSlots (SlotVec.resize n s)
IsCountedSlots-resize zero s h = tt
IsCountedSlots-resize (suc n) end h = IsCountedSlots-resize n end tt
IsCountedSlots-resize (suc n) (vacant s) h = IsCountedSlots-resize n s h
IsCountedSlots-resize (suc n) (filled v s) h = (h.0, IsCountedSlots-resize n s h.1)

IsCountedSlots-set :
    (s : Slots) (i : ℕ) (v : Value)
    → IsCountedSlots s
    → IsCountedValue v
    → IsCountedSlots (SlotVec.set s i v)
IsCountedSlots-set end i v h hv = tt
IsCountedSlots-set (vacant s) zero v h hv = (hv, h)
IsCountedSlots-set (vacant s) (suc i) v h hv = IsCountedSlots-set s i v h hv
IsCountedSlots-set (filled w s) zero v h hv = (hv, h.1)
IsCountedSlots-set (filled w s) (suc i) v h hv = (h.0, IsCountedSlots-set s i v h.1 hv)

-- What a slot of a counted vector holds is counted.
abbrev pub IsCountedSlot : Option Value → Type 0
IsCountedSlot none = Unit
IsCountedSlot (some v) = IsCountedValue v

pub IsCountedSlots-get : (s : Slots) (i : ℕ) → IsCountedSlots s → IsCountedSlot (SlotVec.get s i)
IsCountedSlots-get end i h = tt
IsCountedSlots-get (vacant s) zero h = tt
IsCountedSlots-get (vacant s) (suc i) h = IsCountedSlots-get s i h
IsCountedSlots-get (filled v s) zero h = h.0
IsCountedSlots-get (filled v s) (suc i) h = IsCountedSlots-get s i h.1

pub length-ensure_capacity :
    (idx : ℕ) (e : WideEvent) → idx < SlotVec.length (values (ensure_capacity idx e))
unfolding ensure_capacity
length-ensure_capacity idx (event s l c n) = ground (arith, length-resize (idx + 1) s)

pub slot-ensure_capacity : (idx j : ℕ) (e : WideEvent) → slot j (ensure_capacity idx e) ≡ slot j e
unfolding ensure_capacity
slot-ensure_capacity idx j (event s l c n) = ground (arith, get-resize (idx + 1) s j)

pub ensure_capacity-IsCounted :
    (idx : ℕ) (e : WideEvent) → IsCounted e → IsCounted (ensure_capacity idx e)
unfolding ensure_capacity
ensure_capacity-IsCounted idx (event s l c n) h = elim (Bool-cases (leb (SlotVec.length s) idx)) [
  | inl small ↦
      rw small
        (count-resize (idx + 1) s (ground arith) ∙ h.0, IsCountedSlots-resize (idx + 1) s h.1)
  | inr large ↦ rw large h
]

one_more :
    (fresh : Bool) (c n : ℕ) → c ≡ n → c + (if fresh then 1 else 0) ≡ (if fresh then n + 1 else n)
one_more true c n h = omega arith
one_more false c n h = omega arith

-- A write in range with the flag of the source, `prev.is_none()`, keeps the cache exact.
pub store-IsCounted :
    (idx : ℕ) (v : Value) (e : WideEvent)
    → idx < SlotVec.length (values e)
    → IsCounted e
    → IsCountedValue v
    → IsCounted (store idx v (is_none (slot idx e)) e)
store-IsCounted idx v (event s l c n) room h hv = (
  count-set s idx v room ∙ one_more (is_none (SlotVec.get s idx)) (SlotVec.count s) n h.0,
  IsCountedSlots-set s idx v h.1 hv,
)

-- What a callback may do to an event: it keeps the cache exact, and removes no value.
pub record KeepsCount {K : Type 0} (cx : Context K) : Type 0 where
  pub counted : (f : ConflictFn) (e : WideEvent) (k : K) → IsCounted e → IsCounted (cx.call f e k)
  pub occupied :
      (f : ConflictFn) (e : WideEvent) (k : K) (i : ℕ)
      → is_none (slot i e) ≡ false
      → is_none (slot i (cx.call f e k)) ≡ false

pub in_range_of_some :
    (s : Slots) (i : ℕ) → is_none (SlotVec.get s i) ≡ false → i < SlotVec.length s
in_range_of_some end i h = cc
in_range_of_some (vacant s) zero h = cc
in_range_of_some (vacant s) (suc i) h = omega (arith, in_range_of_some s i h)
in_range_of_some (filled v s) zero h = omega arith
in_range_of_some (filled v s) (suc i) h = omega (arith, in_range_of_some s i h)

module _ {K : Type 0} (cx : Context K) where
  pub add-IsCounted :
      (k : K) (v : Value) (e : WideEvent)
      → IsCountedValue v
      → IsCounted e
      → IsCounted (add cx k v e)
  unfolding add
  add-IsCounted k v e hv h =
      let idx = cx.key.as_index k in
      store-IsCounted idx v (ensure_capacity idx e) (length-ensure_capacity idx e)
        (ensure_capacity-IsCounted idx e h) hv

  -- An action on an event keeps the cache exact wherever it does not panic.
  abbrev pub Keeps : (WideEvent → Option WideEvent) → Type 0
  Keeps f = (e e' : WideEvent) → IsCounted e → f e ≡ some e' → IsCounted e'
