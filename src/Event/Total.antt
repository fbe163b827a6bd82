-- ===== src/Event/Total.antt =====
-- `object` always leaves an object, so the `_path` methods of src/wide_event.rs reach their target
-- and `unreachable!()` is not reached.
use wide_log.Prelude.{
  ℕ, ◌<◌, ◌≡◌, refl, ◌∙◌, Bool, false, not, Option, none, some, List, [], ◌∷◌, if◌then◌else◌,
  Bool-cases, inl, inr, ◌==◌, ==_iff,
}
use wide_log.Value.{Value, WideEvent, event, object, null, values, on_type_conflict}
use wide_log.Value.SlotVec
use wide_log.Value.SlotVec.{is_none, get-set}
use wide_log.Event.{
  Context, slot, store, ensure_capacity, new_child, needs_replace, fire, object_slot, with_object,
  descend_mut, at_path, add, add_path,
}
use wide_log.Event.Counted.{KeepsCount, length-ensure_capacity}
use wide_log.Event.Counted.Methods.{fire-room}

pub slot-store :
    (i j : ℕ) (v : Value) (b : Bool) (e : WideEvent)
    → i < SlotVec.length (values e)
    → slot j (store i v b e) ≡ (if i == j then some v else slot j e)
slot-store i j v b (event s l c n) h = get-set s i j v h

pub slot-store_self :
    (i : ℕ) (v : Value) (b : Bool) (e : WideEvent)
    → i < SlotVec.length (values e)
    → slot i (store i v b e) ≡ some v
slot-store_self i v b e h = slot-store i i v b e h ∙ rw ((==_iff i i).1 refl)

pub object_of_kept :
    (o : Option Value) → needs_replace o ≡ false → (child : WideEvent) × (o ≡ some (object child))
object_of_kept none h = cc
object_of_kept (some (object c)) h = (c, refl)
object_of_kept (some null) h = cc
object_of_kept (some v) h = cc

module _ {K : Type 0} (cx : Context K) (ok : KeepsCount cx) where
  pub slot-object_slot :
      (k : K) (e : WideEvent)
      → (child : WideEvent) × (slot (cx.key.as_index k) (object_slot cx k e) ≡ some (object child))
  unfolding object_slot
  slot-object_slot k e =
      let i = cx.key.as_index k in
      let e₁ = ensure_capacity i e in
      let e₂ = fire cx (on_type_conflict e₁) (not (is_none (slot i e₁))) k e₁ in
      elim (Bool-cases (needs_replace (slot i e₁))) [
        | inl again ↦ (
          new_child e₂,
          rw again (
              slot-store_self i (object (new_child e₂)) (is_none (slot i e₁)) e₂
                (fire-room cx ok (on_type_conflict e₁) i k e₁ (length-ensure_capacity i e))),
        )
        | inr kept ↦ let (child, there) = object_of_kept (slot i e₁) kept in (child, rw kept there)
      ]

  -- The action always returns an event.
  abbrev pub Returns : (WideEvent → Option WideEvent) → Type 0
  Returns f = (e : WideEvent) → (e' : WideEvent) × (f e ≡ some e')

  with_object-Returns :
      (k : K) (f : WideEvent → Option WideEvent) → Returns f → Returns (with_object cx k f)
  unfolding with_object
  with_object-Returns k f total e =
      let i = cx.key.as_index k in
      let e₁ = object_slot cx k e in
      let (child, there) = slot-object_slot k e in
      let (child', made) = total child in (store i (object child') false e₁, rw there (rw made))

  descend_mut-Returns :
      (k : K) (rest : List K) (f : K → WideEvent → Option WideEvent)
      → ((j : K) → Returns (f j))
      → Returns (descend_mut cx k rest f)
  unfolding descend_mut
  descend_mut-Returns k [] f total = total k
  descend_mut-Returns k (next ∷ rest) f total =
      with_object-Returns k (descend_mut cx next rest f) (descend_mut-Returns next rest f total)

  pub at_path-Returns :
      (k : K) (rest : List K) (f : K → WideEvent → Option WideEvent)
      → ((j : K) → Returns (f j))
      → Returns (at_path cx (k ∷ rest) f)
  at_path-Returns k [] f total = total k
  at_path-Returns k (b ∷ []) f total = with_object-Returns k (f b) (total b)
  at_path-Returns k (b ∷ c ∷ rest) f total = descend_mut-Returns k (b ∷ c ∷ rest) f total

  -- `add_path` cannot fail.
  pub add_path-Returns : (k : K) (rest : List K) (v : Value) → Returns (add_path cx (k ∷ rest) v)
  unfolding add_path
  add_path-Returns k rest v =
      at_path-Returns k rest (λ j e. some (add cx j v e)) (λ j e. (add cx j v e, refl))
