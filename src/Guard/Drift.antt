-- ===== src/Guard/Drift.antt =====
-- The cached count when `drop` of src/guard.rs takes its fast path.
use wide_log.Prelude.{
  ℕ, ◌+◌, ◌<◌, max, ◌≡◌, ◌≢◌, refl, sym, ◌∙◌, ap, Bool, true, false, Option, none, some, arith,
  if◌then◌else◌, Bool-cases, inl, inr, subst, leb,
}
use mathlib.Core.Path.{subst₂}
use wide_log.Value.{Value, WideEvent, Slots, event, object, null, values, present_count, is_object}
use wide_log.Value.SlotVec
use wide_log.Value.SlotVec.{is_none, count-set, count-resize, length-set, get-set}
use wide_log.Event.{Context, slot, store, needs_replace, ensure_capacity, new_child, add}
use wide_log.Event.Counted.{length-ensure_capacity, slot-ensure_capacity, in_range_of_some}
use wide_log.Event.Total.{slot-store}
use wide_log.Guard.{put_child, write_leaf, drop_fast}

-- 1 for a slot that holds something else than an object.
abbrev pub clash : Option Value → ℕ
clash none = 0
clash (some v) = if is_object v then 0 else 1

-- The cache is `d` above the number of present slots.
abbrev pub Over : ℕ → WideEvent → Type 0
Over d e = present_count e ≡ SlotVec.count (values e) + d

pub length-store :
    (i : ℕ) (v : Value) (b : Bool) (e : WideEvent)
    → SlotVec.length (values (store i v b e)) ≡ SlotVec.length (values e)
length-store i v b (event s l c n) = length-set s i v

count-set_vacant :
    (s : Slots) (i : ℕ) (v : Value)
    → i < SlotVec.length s
    → SlotVec.get s i ≡ none
    → SlotVec.count (SlotVec.set s i v) ≡ SlotVec.count s + 1
count-set_vacant s i v room at = count-set s i v room ∙ rw at

count-set_occupied :
    (s : Slots) (i : ℕ) (v w : Value)
    → SlotVec.get s i ≡ some w
    → SlotVec.count (SlotVec.set s i v) ≡ SlotVec.count s
count-set_occupied s i v w at = count-set s i v (in_range_of_some s i (rw at)) ∙ rw at (omega arith)

put_child-Over :
    (i d : ℕ) (e : WideEvent)
    → i < SlotVec.length (values e)
    → Over d e
    → Over (d + clash (slot i e)) (put_child i (needs_replace (slot i e)) e)
put_child-Over i d (event s l c n) room h = go (SlotVec.get s i) refl
  where
    child : Value
    child = object (new_child (event s l c n))

    go :
        (o : Option Value)
        → SlotVec.get s i ≡ o
        → Over (d + clash o) (put_child i (needs_replace o) (event s l c n))
    go none at = omega (arith, count-set_vacant s i child room at)
    go (some (object w)) at = omega arith
    go (some null) at = omega (arith, count-set_occupied s i child null at)
    go (some w) at = omega (arith, count-set_occupied s i child w at)

pub slot-put_child_ne :
    (i j : ℕ) (b : Bool) (e : WideEvent)
    → i < SlotVec.length (values e)
    → i ≢ j
    → slot j (put_child i b e) ≡ slot j e
slot-put_child_ne i j false e room ne = refl
slot-put_child_ne i j true e room ne =
    slot-store i j (object (new_child e)) true e room ∙ ground arith

pub length-put_child :
    (i : ℕ) (b : Bool) (e : WideEvent)
    → SlotVec.length (values (put_child i b e)) ≡ SlotVec.length (values e)
length-put_child i false e = refl
length-put_child i true e = length-store i (object (new_child e)) true e

module _ {K : Type 0} (cx : Context K) where
  write_leaf-Over :
      (i d : ℕ) (o : Option Value) (k : K) (v : Value) (e : WideEvent)
      → slot i e ≡ o
      → Over d e
      → Over d (write_leaf cx i o k v e)
  write_leaf-Over i d none k v e at h = h
  write_leaf-Over i d (some (object child)) k v (event s l c n) at h =
      h
      ∙ ap (λ m. m + d) (sym (count-set_occupied s i (object (add cx k v child)) (object child) at))
  write_leaf-Over i d (some null) k v e at h = h
  write_leaf-Over i d (some w) k v e at h = h

ensure_capacity-Over : (i d : ℕ) (e : WideEvent) → Over d e → Over d (ensure_capacity i e)
unfolding ensure_capacity
ensure_capacity-Over i d (event s l c n) h = elim (Bool-cases (leb (SlotVec.length s) i)) [
  | inl small ↦ rw small (omega (arith, count-resize (i + 1) s (ground arith)))
  | inr large ↦ rw large h
]

module _ {K : Type 0} (cx : Context K) where
  -- The fast path of the guard's drop leaves the cached count of the event above the true number of
  -- present fields by one for each of its two parents (the first keys of the duration path and of the
  -- timestamp path, when these differ) that held a value other than an object, and exact if it was
  -- exact and there was none.
  pub drop_fast-Over :
      (d₀ d₁ t₀ t₁ : K) (duration now : Value) (e : WideEvent) (d : ℕ)
      → cx.key.as_index d₀ ≢ cx.key.as_index t₀
      → Over d e
      → Over
          (d + clash (slot (cx.key.as_index d₀) e) + clash (slot (cx.key.as_index t₀) e))
          (drop_fast cx d₀ d₁ t₀ t₁ duration now e)
  unfolding drop_fast
  drop_fast-Over d₀ d₁ t₀ t₁ duration now e d ne h =
      let i = cx.key.as_index d₀ in
      let j = cx.key.as_index t₀ in
      let e₁ = ensure_capacity (max i j) e in
      let room = length-ensure_capacity (max i j) e in
      let h₁ = ensure_capacity-Over (max i j) d e h in
      let e₂ = put_child i (needs_replace (slot i e₁)) e₁ in
      let h₂ = put_child-Over i d e₁ (omega arith) h₁ in
      let same = slot-put_child_ne i j (needs_replace (slot i e₁)) e₁ (omega arith) ne in
      let longer = length-put_child i (needs_replace (slot i e₁)) e₁ in
      let e₃ = put_child j (needs_replace (slot j e₁)) e₂ in
      let h₃ : Over (d + clash (slot i e₁) + clash (slot j e₁)) e₃ =
        subst (λ o. Over (d + clash (slot i e₁) + clash o) (put_child j (needs_replace o) e₂)) same
          (put_child-Over j (d + clash (slot i e₁)) e₂ (omega arith) h₂) in
      let e₄ = write_leaf cx i (slot i e₃) d₁ duration e₃ in
      let h₄ = write_leaf-Over cx i _ (slot i e₃) d₁ duration e₃ refl h₃ in
      subst₂ (λ o p. Over (d + clash o + clash p) (write_leaf cx j (slot j e₄) t₁ now e₄))
        (slot-ensure_capacity (max i j) i e) (slot-ensure_capacity (max i j) j e)
        (write_leaf-Over cx j _ (slot j e₄) t₁ now e₄ refl h₄)
