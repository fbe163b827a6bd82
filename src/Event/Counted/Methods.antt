-- ===== src/Event/Counted/Methods.antt =====
-- Every method of src/wide_event.rs keeps the cached count exact, at every depth.
use wide_log.Prelude.{
  ℕ, ◌-◌, ◌<◌, ltb, ◌≡◌, refl, Bool, true, false, not, Option, none, some, List, [], ◌∷◌,
  if◌then◌else◌, ◌>>=◌, >>=-eq-some, Bool-cases, inl, inr, subst,
}
use wide_log.Prelude.Int.{ℤ, pos, negsuc}
use wide_log.Word.{add_u64, add_i64}
use wide_log.Value.{
  Value, WideEvent, ConflictFn, event, i64, u64, object, null, values, on_type_conflict,
}
use wide_log.Value.SlotVec
use wide_log.Value.SlotVec.{is_none}
use wide_log.Event.{
  Context, slot, store, ensure_capacity, new_child, needs_replace, fire, object_slot, write_back,
  with_object, inc_value, dec_value, add_n_value, inc, dec, add_n, add, descend_mut, at_path,
  add_path,
}
use wide_log.Event.Counted.{
  IsCounted, IsCountedValue, IsCountedSlot, IsCountedSlots-get, KeepsCount, Keeps, store-IsCounted,
  in_range_of_some, length-ensure_capacity, ensure_capacity-IsCounted, add-IsCounted,
}

slot-IsCounted : (i : ℕ) (e : WideEvent) → IsCounted e → IsCountedSlot (slot i e)
slot-IsCounted i (event s l c n) h = IsCountedSlots-get s i h.1

module _ {K : Type 0} (cx : Context K) (ok : KeepsCount cx) where
  fire-IsCounted :
      (c : Option ConflictFn) (b : Bool) (k : K) (e : WideEvent)
      → IsCounted e
      → IsCounted (fire cx c b k e)
  fire-IsCounted none b k e h = h
  fire-IsCounted (some f) true k e h = ok.counted f e k h
  fire-IsCounted (some f) false k e h = h

  -- The slot is as empty after the callback as before.
  is_none-fire :
      (c : Option ConflictFn) (i : ℕ) (k : K) (e : WideEvent)
      → is_none (slot i (fire cx c (not (is_none (slot i e))) k e)) ≡ is_none (slot i e)
  is_none-fire none i k e = refl
  is_none-fire (some f) i k e = elim (Bool-cases (is_none (slot i e))) [
    | inl vacant ↦ rw vacant vacant
    | inr there ↦ rw there (ok.occupied f e k i there)
  ]

  -- There is room for the slot after the callback.
  pub fire-room :
      (c : Option ConflictFn) (i : ℕ) (k : K) (e : WideEvent)
      → i < SlotVec.length (values e)
      → i < SlotVec.length (values (fire cx c (not (is_none (slot i e))) k e))
  fire-room none i k e h = h
  fire-room (some f) i k e h = elim (Bool-cases (is_none (slot i e))) [
    | inl vacant ↦ rw vacant h
    | inr there ↦ rw there (in_range_of_some (values (cx.call f e k)) i (ok.occupied f e k i there))
  ]

  new_child-IsCounted : (e : WideEvent) → IsCounted (new_child e)
  unfolding new_child
  new_child-IsCounted e = (refl, tt)

  replace-IsCounted :
      (i : ℕ) (k : K) (e : WideEvent)
      → i < SlotVec.length (values e)
      → IsCounted e
      → let e₂ = fire cx (on_type_conflict e) (not (is_none (slot i e))) k e in
        IsCounted (store i (object (new_child e₂)) (is_none (slot i e)) e₂)
  replace-IsCounted i k e room h =
      let e₂ = fire cx (on_type_conflict e) (not (is_none (slot i e))) k e in
      subst (λ b. IsCounted (store i (object (new_child e₂)) b e₂))
        (is_none-fire (on_type_conflict e) i k e)
        (store-IsCounted i (object (new_child e₂)) e₂ (fire-room (on_type_conflict e) i k e room)
          (fire-IsCounted (on_type_conflict e) (not (is_none (slot i e))) k e h)
          (new_child-IsCounted e₂))

  object_slot-IsCounted : (k : K) (e : WideEvent) → IsCounted e → IsCounted (object_slot cx k e)
  unfolding object_slot
  object_slot-IsCounted k e h =
      let i = cx.key.as_index k in
      let e₁ = ensure_capacity i e in
      let h₁ = ensure_capacity-IsCounted i e h in
      elim (Bool-cases (needs_replace (slot i e₁))) [
        | inl yes' ↦ rw yes' (replace-IsCounted i k e₁ (length-ensure_capacity i e) h₁)
        | inr no' ↦ rw no' h₁
      ]

  write_back-Keeps :
      (i : ℕ) (o : Option Value) (f : WideEvent → Option WideEvent) (e e' : WideEvent)
      → Keeps cx f
      → slot i e ≡ o
      → IsCounted e
      → IsCountedSlot o
      → write_back cx i o f e ≡ some e'
      → IsCounted e'
  write_back-Keeps i (some (object child)) f e e' kf at h hc eq =
      let (child', made, stored) = >>=-eq-some (f child) _ eq in
      let vacant : is_none (slot i e) ≡ false = rw at refl in
      let room = in_range_of_some (values e) i vacant in
      subst IsCounted (cc stored) (
        subst (λ b. IsCounted (store i (object child') b e)) vacant
          (store-IsCounted i (object child') e room h (kf child child' hc made)))
  write_back-Keeps i none f e e' kf at h hc eq = cc
  write_back-Keeps i (some null) f e e' kf at h hc eq = cc
  write_back-Keeps i (some v) f e e' kf at h hc eq = cc

  with_object-Keeps :
      (k : K) (f : WideEvent → Option WideEvent) → Keeps cx f → Keeps cx (with_object cx k f)
  unfolding with_object
  with_object-Keeps k f kf e e' h eq =
      let i = cx.key.as_index k in
      let e₁ = object_slot cx k e in
      let h₁ = object_slot-IsCounted k e h in
      write_back-Keeps i (slot i e₁) f e₁ e' kf refl h₁ (slot-IsCounted i e₁ h₁) eq

  -- `inc`, `dec` and `add_n` write a number, which holds no object.
  put-Keeps :
      (k : K) (value : Option Value → Option Value)
      → ((o : Option Value) (v : Value) → value o ≡ some v → IsCountedValue v)
      → Keeps cx (λ e.
        value (slot (cx.key.as_index k) (ensure_capacity (cx.key.as_index k) e)) >>= λ v. some (
          store
            (cx.key.as_index k)
            v
            (is_none (slot (cx.key.as_index k) (ensure_capacity (cx.key.as_index k) e)))
            (ensure_capacity (cx.key.as_index k) e)))
  put-Keeps k value flat e e' h eq =
      let i = cx.key.as_index k in
      let e₁ = ensure_capacity i e in
      let (v, made, stored) = >>=-eq-some (value (slot i e₁)) _ eq in
      subst IsCounted (cc stored) (
        store-IsCounted i v e₁ (length-ensure_capacity i e) (ensure_capacity-IsCounted i e h)
          (flat (slot i e₁) v made))

  sum_flat : (m : Option ℤ) (v : Value) → (m >>= λ n. some (i64 n)) ≡ some v → IsCountedValue v
  sum_flat none v eq = cc
  sum_flat (some n) v eq = subst (λ o. IsCountedSlot o) eq tt

  usum_flat : (m : Option ℕ) (v : Value) → (m >>= λ n. some (u64 n)) ≡ some v → IsCountedValue v
  usum_flat none v eq = cc
  usum_flat (some n) v eq = subst (λ o. IsCountedSlot o) eq tt

  either_flat :
      (b : Bool) (m n : ℕ) (v : Value)
      → (if b then some (u64 m) else some (u64 n)) ≡ some v
      → IsCountedValue v
  either_flat true m n v eq = subst (λ o. IsCountedSlot o) eq tt
  either_flat false m n v eq = subst (λ o. IsCountedSlot o) eq tt

  inc_flat : (o : Option Value) (v : Value) → inc_value cx o ≡ some v → IsCountedValue v
  inc_flat (some (u64 n)) v eq = usum_flat (add_u64 cx.profile n 1) v eq
  inc_flat (some (i64 n)) v eq = sum_flat (add_i64 cx.profile n (pos 1)) v eq
  inc_flat none v eq = subst (λ o. IsCountedSlot o) eq tt
  inc_flat (some w) v eq = subst (λ o. IsCountedSlot o) eq tt

  dec_flat : (o : Option Value) (v : Value) → dec_value cx o ≡ some v → IsCountedValue v
  dec_flat (some (u64 n)) v eq = either_flat (ltb 0 n) (n - 1) 0 v eq
  dec_flat (some (i64 n)) v eq = sum_flat (add_i64 cx.profile n (negsuc 0)) v eq
  dec_flat none v eq = subst (λ o. IsCountedSlot o) eq tt
  dec_flat (some w) v eq = subst (λ o. IsCountedSlot o) eq tt

  add_n_flat :
      (n : ℤ) (o : Option Value) (v : Value) → add_n_value cx n o ≡ some v → IsCountedValue v
  add_n_flat n (some (u64 u)) v eq = subst (λ o. IsCountedSlot o) eq tt
  add_n_flat n (some (i64 i)) v eq = sum_flat (add_i64 cx.profile i n) v eq
  add_n_flat (pos n) none v eq = subst (λ o. IsCountedSlot o) eq tt
  add_n_flat (pos n) (some w) v eq = subst (λ o. IsCountedSlot o) eq tt
  add_n_flat (negsuc n) none v eq = subst (λ o. IsCountedSlot o) eq tt
  add_n_flat (negsuc n) (some w) v eq = subst (λ o. IsCountedSlot o) eq tt

  pub inc-Keeps : (k : K) → Keeps cx (inc cx k)
  unfolding inc
  inc-Keeps k = put-Keeps k (inc_value cx) inc_flat

  pub dec-Keeps : (k : K) → Keeps cx (dec cx k)
  unfolding dec
  dec-Keeps k = put-Keeps k (dec_value cx) dec_flat

  pub add_n-Keeps : (k : K) (n : ℤ) → Keeps cx (add_n cx k n)
  unfolding add_n
  add_n-Keeps k n = put-Keeps k (add_n_value cx n) (add_n_flat n)

  descend_mut-Keeps :
      (k : K) (rest : List K) (f : K → WideEvent → Option WideEvent)
      → ((j : K) → Keeps cx (f j))
      → Keeps cx (descend_mut cx k rest f)
  unfolding descend_mut
  descend_mut-Keeps k [] f kf = kf k
  descend_mut-Keeps k (next ∷ rest) f kf =
      with_object-Keeps k (descend_mut cx next rest f) (descend_mut-Keeps next rest f kf)

  pub at_path-Keeps :
      (path : List K) (f : K → WideEvent → Option WideEvent)
      → ((j : K) → Keeps cx (f j))
      → Keeps cx (at_path cx path f)
  at_path-Keeps [] f kf = λ e e' h eq. cc
  at_path-Keeps (a ∷ []) f kf = kf a
  at_path-Keeps (a ∷ b ∷ []) f kf = with_object-Keeps a (f b) (kf b)
  at_path-Keeps (a ∷ b ∷ c ∷ rest) f kf = descend_mut-Keeps a (b ∷ c ∷ rest) f kf

  pub add_path-Keeps :
      (path : List K) (v : Value) → IsCountedValue v → Keeps cx (add_path cx path v)
  unfolding add_path
  add_path-Keeps path v hv =
      at_path-Keeps path (λ k e. some (add cx k v e))
        λ k e e' h eq. subst IsCounted (cc eq) (add-IsCounted cx k v e hv h)
