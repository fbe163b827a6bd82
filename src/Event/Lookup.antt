-- ===== src/Event/Lookup.antt =====
-- An event as a partial map from key paths to values: the abstract view that the `_path` methods of
-- src/wide_event.rs are to update. Nothing in the program reads an event this way.
pub mod Paths
use wide_log.Prelude.{
  ℕ, ◌≡◌, ◌≢◌, refl, sym, ◌∙◌, ap, Bool, true, false, not, Option, none, some, List, [], ◌∷◌, arith,
  ◌⊎◌, inl, inr, if◌then◌else◌, ◌>>=◌, >>=-eq-some, Bool-cases, subst, ◌==◌,
}
use wide_log.Value.{Value, WideEvent, Slots, event, object, null, values, on_type_conflict, end}
use wide_log.Value.SlotVec
use wide_log.Value.SlotVec.{is_none}
use wide_log.Event.{
  Context, slot, store, ensure_capacity, new_child, needs_replace, fire, object_slot, write_back,
  with_object, descend_mut, at_path,
}
use wide_log.Event.Counted.{
  KeepsCount, length-ensure_capacity, slot-ensure_capacity, in_range_of_some, IsCounted,
}
use wide_log.Event.Counted.Methods.{fire-room}
use wide_log.Event.Total.{slot-store, slot-store_self, slot-object_slot, object_of_kept}

-- The callbacks look and do not touch. (Only test code installs one.)
pub record Observes {K : Type 0} (cx : Context K) : Type 0 where
  pub unchanged : (f : ℕ) (e : WideEvent) (k : K) → cx.call f e k ≡ e

pub Observes-KeepsCount : {K : Type 0} (cx : Context K) → Observes cx → KeepsCount cx
Observes-KeepsCount cx obs = record {
  counted = λ f e k h. subst IsCounted (sym (obs.unchanged f e k)) h;
  occupied = λ f e k i h. rw (obs.unchanged f e k) h;
}

module _ {K : Type 0} (cx : Context K) where
  -- What lies below a slot's content at the keys of a path.
  unfoldable pub follow : List K → Option Value → Option Value
  follow [] o = o
  follow (k ∷ q) (some (object child)) = follow q (slot (cx.key.as_index k) child)
  follow (k ∷ q) _ = none

  -- The value at a path.
  unfoldable pub lookup : List K → WideEvent → Option Value
  lookup [] e = none
  lookup (k ∷ q) e = follow q (slot (cx.key.as_index k) e)

  -- The paths part at some segment: neither is a prefix of the other.
  abbrev pub Apart : List K → List K → Type 0
  Apart (a ∷ p) (b ∷ q) =
      (cx.key.as_index a ≢ cx.key.as_index b)
      ⊎ ((cx.key.as_index a ≡ cx.key.as_index b) × Apart p q)
  Apart _ _ = ⊥

  -- `f` replaces what the slot of its key holds, as `value` says, and touches no other slot.
  pub record Updates (value : Option Value → Option Value) (f : K → WideEvent → Option WideEvent)
      : Type 0 where
    pub written :
        (k : K) (e e' : WideEvent)
        → f k e ≡ some e'
        → (v : Value) × (value (slot (cx.key.as_index k) e) ≡ some v)
          × (slot (cx.key.as_index k) e' ≡ some v)
    pub untouched :
        (k : K) (e e' : WideEvent) (j : ℕ)
        → f k e ≡ some e'
        → cx.key.as_index k ≢ j
        → slot j e' ≡ slot j e

  pub follow-none : (q : List K) → follow q none ≡ none
  unfolding follow
  follow-none [] = refl
  follow-none (k ∷ q) = refl

module _ {K : Type 0} (cx : Context K) (obs : Observes cx) where
  fire-Observes : (c : Option ℕ) (b : Bool) (k : K) (e : WideEvent) → fire cx c b k e ≡ e
  fire-Observes none b k e = refl
  fire-Observes (some f) true k e = obs.unchanged f e k
  fire-Observes (some f) false k e = refl

  -- `object` leaves every other slot as it was.
  slot-object_slot_ne :
      (k : K) (e : WideEvent) (j : ℕ)
      → cx.key.as_index k ≢ j
      → slot j (object_slot cx k e) ≡ slot j e
  unfolding object_slot
  slot-object_slot_ne k e j ne =
      let i = cx.key.as_index k in
      let e₁ = ensure_capacity i e in
      let kept = slot-ensure_capacity i j e in
      elim (Bool-cases (needs_replace (slot i e₁))) [
        | inl again ↦
            rw (again, fire-Observes (on_type_conflict e₁) (not (is_none (slot i e₁))) k e₁)
              (slot-store i j (object (new_child e₁)) (is_none (slot i e₁)) e₁
                  (length-ensure_capacity i e)
                ∙ ground (arith, kept))
        | inr stays ↦ rw stays kept
      ]

  pub follow-replaced :
      (n : K) (q : List K) (o : Option Value) → needs_replace o ≡ true → follow cx (n ∷ q) o ≡ none
  unfolding follow
  follow-replaced n q none h = refl
  follow-replaced n q (some (object c)) h = cc
  follow-replaced n q (some null) h = refl
  follow-replaced n q (some v) h = refl

  -- The slot that `object` leaves: an empty child, or the object that was there.
  object_slot_cases :
      (k : K) (e : WideEvent)
      → ((needs_replace (slot (cx.key.as_index k) e) ≡ true)
          × (c : WideEvent) × (slot (cx.key.as_index k) (object_slot cx k e)
              ≡ some (object (new_child c))))
        ⊎ (slot (cx.key.as_index k) (object_slot cx k e) ≡ slot (cx.key.as_index k) e)
  unfolding object_slot
  object_slot_cases k e =
      let i = cx.key.as_index k in
      let e₁ = ensure_capacity i e in
      let kept = slot-ensure_capacity i i e in
      elim (Bool-cases (needs_replace (slot i e₁))) [
        | inl again ↦ inl (
          rw kept at again,
          e₁,
          rw (again, fire-Observes (on_type_conflict e₁) (not (is_none (slot i e₁))) k e₁)
              (slot-store_self i (object (new_child e₁)) (is_none (slot i e₁)) e₁
                (length-ensure_capacity i e)),
        )
        | inr stays ↦ inr (rw stays kept)
      ]

  abbrev below : Option Value → ℕ → Option Value
  below (some (object c)) i = slot i c
  below _ i = none

  slot-new_child :
      (i : ℕ) (e child : WideEvent)
      → some (object (new_child e)) ≡ some (object child)
      → slot i child ≡ none
  unfolding new_child
  slot-new_child i e child same = ap (λ o. below o i) (sym same)

  -- What `object` hands out has, below it, what the slot had below it.
  follow-object_slot :
      (k n : K) (q : List K) (e child : WideEvent)
      → slot (cx.key.as_index k) (object_slot cx k e) ≡ some (object child)
      → follow cx (n ∷ q) (slot (cx.key.as_index k) e)
        ≡ follow cx q (slot (cx.key.as_index n) child)
  follow-object_slot k n q e child there = elim (object_slot_cases k e) [
    | inl (again, c, fresh) ↦
        follow-replaced n q (slot (cx.key.as_index k) e) again
        ∙ sym (
            ap (follow cx q) (slot-new_child (cx.key.as_index n) c child (sym fresh ∙ there))
            ∙ follow-none cx q)
    | inr same ↦ rw (sym same ∙ there) (unfold follow in refl)
  ]

  -- One step of the descent: the child is updated, and written back.
  with_object_inv :
      (k : K) (f : WideEvent → Option WideEvent) (e e' : WideEvent)
      → with_object cx k f e ≡ some e'
      → (child : WideEvent) × (child' : WideEvent) × (slot (cx.key.as_index k) (object_slot cx k e)
          ≡ some (object child))
        × (f child ≡ some child')
        × (slot (cx.key.as_index k) e' ≡ some (object child'))
        × ((j : ℕ) → cx.key.as_index k ≢ j → slot j e' ≡ slot j e)
  unfolding with_object
  with_object_inv k f e e' eq =
      let i = cx.key.as_index k in
      let e₁ = object_slot cx k e in
      let (child, there) = slot-object_slot cx (Observes-KeepsCount cx obs) k e in
      let (child', made, stored) = >>=-eq-some (f child) _ (rw there at eq) in
      let room = in_range_of_some (values e₁) i (rw there refl) in
      let same : store i (object child') false e₁ ≡ e' = cc stored in
      (
        child,
        child',
        there,
        made,
        ap (slot i) (sym same) ∙ slot-store_self i (object child') false e₁ room,
        λ j ne.
            ap (slot j) (sym same)
            ∙ slot-store i j (object child') false e₁ room
            ∙ ground (arith, slot-object_slot_ne k e j ne),
      )

-- From `e` to `e'` the value at `path` is replaced as `value` says, and every path apart from it
-- keeps its value.
pub record PathUpdate {K : Type 0} (cx : Context K) (value : Option Value → Option Value)
    (path : List K) (e e' : WideEvent) : Type 0 where
  pub written : (v : Value) × (value (lookup cx path e) ≡ some v) × (lookup cx path e' ≡ some v)
  pub untouched : (q : List K) → Apart cx path q → lookup cx q e' ≡ lookup cx q e
