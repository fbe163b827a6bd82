-- ===== src/Guard/Fields.antt =====
-- The fields that `drop` of src/guard.rs sets, on its fast path and on its general one.
use wide_log.Prelude.{
  ℕ, ◌<◌, max, ◌≡◌, ◌≢◌, refl, sym, ◌∙◌, ap, Bool, true, false, none, some, List, [], ◌∷◌, arith,
  inl, inr, ◌==◌, leb, ◌>>=◌, Bool-cases, subst, Str,
}
use mathlib.Core.Path.{ap₂}
use wide_log.Value.{Value, WideEvent, event, object, values, f64, str}
use wide_log.Value.SlotVec
use wide_log.Value.SlotVec.{is_none}
use wide_log.Event.{
  Context, slot, needs_replace, ensure_capacity, new_child, object_slot, with_object, add, add_path,
}
use wide_log.Event.Counted.{length-ensure_capacity, slot-ensure_capacity, in_range_of_some}
use wide_log.Event.Total.{slot-store, slot-store_self, object_of_kept, add_path-Returns}
use wide_log.Event.Lookup.{
  Observes, Observes-KeepsCount, follow, lookup, Apart, PathUpdate, follow-none, follow-replaced,
}
use wide_log.Event.Lookup.Paths.{add_path-PathUpdate}
use wide_log.Guard.{
  FloatOps, duration_to_unit_f64, last_key, drop, drop_at, put_child, write_leaf, drop_fast,
  drop_paths,
}
use wide_log.Guard.Drift.{slot-put_child_ne, length-put_child}

ensure_capacity-eq :
    (i : ℕ) (e : WideEvent) → i < SlotVec.length (values e) → ensure_capacity i e ≡ e
unfolding ensure_capacity
ensure_capacity-eq i (event s l c n) room =
    let roomy : leb (SlotVec.length s) i ≡ false = ground arith in rw roomy

-- A slot with room holds an object after `put_child`.
put_child-object :
    (i : ℕ) (e : WideEvent)
    → i < SlotVec.length (values e)
    → (child : WideEvent) × (slot i (put_child i (needs_replace (slot i e)) e)
        ≡ some (object child))
put_child-object i e room = elim (Bool-cases (needs_replace (slot i e))) [
  | inl again ↦ (new_child e, rw again (slot-store_self i (object (new_child e)) true e room))
  | inr kept ↦ let (child, there) = object_of_kept (slot i e) kept in (child, rw kept there)
]

module _ {K : Type 0} (cx : Context K) where
  -- A path that does not end at the slot `i`.
  abbrev Passes : ℕ → List K → Type 0
  Passes i [] = ⊥
  Passes i (b ∷ []) = i ≢ cx.key.as_index b
  Passes i (b ∷ c ∷ q) = Unit

  Apart-Passes : (a b : K) (r : List K) → Apart cx (a ∷ b ∷ []) r → Passes (cx.key.as_index a) r
  Apart-Passes a b [] h = absurd h
  Apart-Passes a b (c ∷ []) (inl ne) = ne
  Apart-Passes a b (c ∷ []) (inr (same, h)) = absurd h
  Apart-Passes a b (c ∷ d ∷ q) h = tt

  follow-new_child :
      (k : K) (q : List K) (e : WideEvent) → follow cx (k ∷ q) (some (object (new_child e))) ≡ none
  unfolding follow new_child
  follow-new_child k q e = follow-none cx q

module _ {K : Type 0} (cx : Context K) (obs : Observes cx) where
  -- The new child holds nothing, and neither did the slot below it.
  follow-put_child :
      (i : ℕ) (need : Bool) (e : WideEvent) (k : K) (q : List K)
      → i < SlotVec.length (values e)
      → (need ≡ true → needs_replace (slot i e) ≡ true)
      → follow cx (k ∷ q) (slot i (put_child i need e)) ≡ follow cx (k ∷ q) (slot i e)
  follow-put_child i false e k q room h = refl
  follow-put_child i true e k q room h =
      ap (follow cx (k ∷ q)) (slot-store_self i (object (new_child e)) true e room)
      ∙ follow-new_child cx k q e
      ∙ sym (follow-replaced cx obs k q (slot i e) (h refl))

  lookup-put_child :
      (i : ℕ) (need : Bool) (e : WideEvent) (r : List K)
      → i < SlotVec.length (values e)
      → (need ≡ true → needs_replace (slot i e) ≡ true)
      → Passes cx i r
      → lookup cx r (put_child i need e) ≡ lookup cx r e
  unfolding lookup
  lookup-put_child i need e [] room h pass = absurd pass
  lookup-put_child i need e (b ∷ []) room h pass =
      ap (follow cx []) (slot-put_child_ne i (cx.key.as_index b) need e room pass)
  lookup-put_child i need e (b ∷ c ∷ q) room h pass = elim (Bool-cases (i == cx.key.as_index b)) [
    | inl same ↦
        let at : i ≡ cx.key.as_index b = ground arith in
        subst (λ x. follow cx (c ∷ q) (slot x (put_child i need e)) ≡ follow cx (c ∷ q) (slot x e))
          at (follow-put_child i need e c q room h)
    | inr other ↦
        ap (follow cx (c ∷ q)) (slot-put_child_ne i (cx.key.as_index b) need e room (ground arith))
  ]

  lookup-ensure_capacity :
      (i : ℕ) (e : WideEvent) (r : List K) → lookup cx r (ensure_capacity i e) ≡ lookup cx r e
  unfolding lookup
  lookup-ensure_capacity i e [] = refl
  lookup-ensure_capacity i e (b ∷ q) =
      ap (follow cx q) (slot-ensure_capacity i (cx.key.as_index b) e)

  -- Writing through the reference that the slot holds is `add_path` with two segments.
  write_leaf-add_path :
      (a b : K) (v : Value) (e child : WideEvent)
      → slot (cx.key.as_index a) e ≡ some (object child)
      → add_path cx (a ∷ b ∷ []) v e
        ≡ some (write_leaf cx (cx.key.as_index a) (slot (cx.key.as_index a) e) b v e)
  unfolding add_path with_object object_slot
  write_leaf-add_path a b v e child at =
      let room = in_range_of_some (values e) (cx.key.as_index a) (rw at refl) in
      rw (ensure_capacity-eq (cx.key.as_index a) e room) (rw at (rw at refl))

-- From `e` to `e'` the two paths are set, and every path apart from both keeps its value.
pub record SetsBoth {K : Type 0} (cx : Context K) (dur ts : List K) (duration now : Value)
    (e e' : WideEvent) : Type 0 where
  pub duration_set : lookup cx dur e' ≡ some duration
  pub timestamp_set : lookup cx ts e' ≡ some now
  pub others : (r : List K) → Apart cx dur r → Apart cx ts r → lookup cx r e' ≡ lookup cx r e

module _ {K : Type 0} (cx : Context K) (obs : Observes cx) where
  in_turn :
      (dur ts : List K) (duration now : Value) (e e₁ e₂ : WideEvent)
      → PathUpdate cx (λ o. some duration) dur e e₁
      → PathUpdate cx (λ o. some now) ts e₁ e₂
      → Apart cx ts dur
      → SetsBoth cx dur ts duration now e e₂
  in_turn dur ts duration now e e₁ e₂ first second apart =
      let (v, is_duration, at_dur) = first.written in
      let (w, is_now, at_ts) = second.written in
      record {
        duration_set = second.untouched dur apart ∙ at_dur ∙ sym is_duration;
        timestamp_set = at_ts ∙ sym is_now;
        others = λ r from_dur from_ts. second.untouched r from_ts ∙ first.untouched r from_dur;
      }

  -- The two writes of the fast path, on an event whose two parents are objects.
  leaves-SetsBoth :
      (d₀ d₁ t₀ t₁ : K) (duration now : Value) (e c₁ c₂ : WideEvent)
      → cx.key.as_index d₀ ≢ cx.key.as_index t₀
      → slot (cx.key.as_index d₀) e ≡ some (object c₁)
      → slot (cx.key.as_index t₀) e ≡ some (object c₂)
      → let e₁ = write_leaf cx (cx.key.as_index d₀) (slot (cx.key.as_index d₀) e) d₁ duration e in
        SetsBoth cx
          (d₀ ∷ d₁ ∷ [])
          (t₀ ∷ t₁ ∷ [])
          duration
          now
          e
          (write_leaf cx (cx.key.as_index t₀) (slot (cx.key.as_index t₀) e₁) t₁ now e₁)
  leaves-SetsBoth d₀ d₁ t₀ t₁ duration now e c₁ c₂ ne at₁ at₂ =
      let i = cx.key.as_index d₀ in
      let j = cx.key.as_index t₀ in
      let e₁ = write_leaf cx i (slot i e) d₁ duration e in
      let room = in_range_of_some (values e) i (rw at₁ refl) in
      let kept : slot j e₁ ≡ some (object c₂) =
        rw at₁ (slot-store i j (object (add cx d₁ duration c₁)) false e room ∙ ground arith) in
      in_turn (d₀ ∷ d₁ ∷ []) (t₀ ∷ t₁ ∷ []) duration now e e₁
        (write_leaf cx j (slot j e₁) t₁ now e₁)
        (add_path-PathUpdate cx obs d₀ (d₁ ∷ []) duration e e₁
          (write_leaf-add_path cx obs d₀ d₁ duration e c₁ at₁))
        (add_path-PathUpdate cx obs t₀ (t₁ ∷ []) now e₁ (write_leaf cx j (slot j e₁) t₁ now e₁)
          (write_leaf-add_path cx obs t₀ t₁ now e₁ c₂ kept))
        (inl (λ p. ne (sym p)))

  drop_fast-SetsBoth :
      (d₀ d₁ t₀ t₁ : K) (duration now : Value) (e : WideEvent)
      → cx.key.as_index d₀ ≢ cx.key.as_index t₀
      → SetsBoth cx
          (d₀ ∷ d₁ ∷ [])
          (t₀ ∷ t₁ ∷ [])
          duration
          now
          e
          (drop_fast cx d₀ d₁ t₀ t₁ duration now e)
  unfolding drop_fast
  drop_fast-SetsBoth d₀ d₁ t₀ t₁ duration now e ne =
      let i = cx.key.as_index d₀ in
      let j = cx.key.as_index t₀ in
      let e₁ = ensure_capacity (max i j) e in
      let room = length-ensure_capacity (max i j) e in
      let need₁ = needs_replace (slot i e₁) in
      let need₂ = needs_replace (slot j e₁) in
      let e₂ = put_child i need₁ e₁ in
      let longer = length-put_child i need₁ e₁ in
      let same = slot-put_child_ne i j need₁ e₁ (omega arith) ne in
      let e₃ = put_child j need₂ e₂ in
      let (c₁, at₁) = put_child-object i e₁ (omega arith) in
      let (c₂, at₂) = put_child-object j e₂ (omega arith) in
      let at₁' = slot-put_child_ne j i need₂ e₂ (omega arith) (λ p. ne (sym p)) ∙ at₁ in
      let at₂' =
        subst (λ o. slot j (put_child j (needs_replace o) e₂) ≡ some (object c₂)) same at₂ in
      let last = leaves-SetsBoth d₀ d₁ t₀ t₁ duration now e₃ c₁ c₂ ne at₁' at₂' in
      record {
        duration_set = last.duration_set;
        timestamp_set = last.timestamp_set;
        others = λ r from_dur from_ts.
            last.others r from_dur from_ts
            ∙ lookup-put_child cx obs j need₂ e₂ r (omega arith) (λ h. ap needs_replace same ∙ h)
                (Apart-Passes cx t₀ t₁ r from_ts)
            ∙ lookup-put_child cx obs i need₁ e₁ r (omega arith) (λ h. h)
                (Apart-Passes cx d₀ d₁ r from_dur)
            ∙ lookup-ensure_capacity cx obs (max i j) e r;
      }

  -- The general branch.
  add_paths-SetsBoth :
      (d₀ t₀ : K) (p q : List K) (duration now : Value) (e : WideEvent)
      → cx.key.as_index d₀ ≢ cx.key.as_index t₀
      → (e' : WideEvent) × ((add_path cx (d₀ ∷ p) duration e >>= add_path cx (t₀ ∷ q) now)
          ≡ some e')
        × SetsBoth cx (d₀ ∷ p) (t₀ ∷ q) duration now e e'
  add_paths-SetsBoth d₀ t₀ p q duration now e ne =
      let (e₁, first) = add_path-Returns cx (Observes-KeepsCount cx obs) d₀ p duration e in
      let (e₂, second) = add_path-Returns cx (Observes-KeepsCount cx obs) t₀ q now e₁ in
      (
        e₂,
        rw first second,
        in_turn (d₀ ∷ p) (t₀ ∷ q) duration now e e₁ e₂
            (add_path-PathUpdate cx obs d₀ p duration e e₁ first)
            (add_path-PathUpdate cx obs t₀ q now e₁ e₂ second) (inl (λ same. ne (sym same))),
      )

  drop_paths-SetsBoth :
      (d₀ t₀ : K) (p q : List K) (duration now : Value) (e : WideEvent)
      → cx.key.as_index d₀ ≢ cx.key.as_index t₀
      → (e' : WideEvent) × (drop_paths cx (d₀ ∷ p) (t₀ ∷ q) duration now e ≡ some e')
        × SetsBoth cx (d₀ ∷ p) (t₀ ∷ q) duration now e e'
  drop_paths-SetsBoth d₀ t₀ (d₁ ∷ []) (t₁ ∷ []) duration now e ne = (
    drop_fast cx d₀ d₁ t₀ t₁ duration now e,
    refl,
    drop_fast-SetsBoth d₀ d₁ t₀ t₁ duration now e ne,
  )
  drop_paths-SetsBoth d₀ t₀ (d₁ ∷ []) [] duration now e ne =
      add_paths-SetsBoth d₀ t₀ (d₁ ∷ []) [] duration now e ne
  drop_paths-SetsBoth d₀ t₀ (d₁ ∷ []) (t₁ ∷ t₂ ∷ q) duration now e ne =
      add_paths-SetsBoth d₀ t₀ (d₁ ∷ []) (t₁ ∷ t₂ ∷ q) duration now e ne
  drop_paths-SetsBoth d₀ t₀ [] q duration now e ne = add_paths-SetsBoth d₀ t₀ [] q duration now e ne
  drop_paths-SetsBoth d₀ t₀ (d₁ ∷ d₂ ∷ p) q duration now e ne =
      add_paths-SetsBoth d₀ t₀ (d₁ ∷ d₂ ∷ p) q duration now e ne

  last_key_total : (k : K) (p : List K) → (leaf : K) × (last_key (k ∷ p) ≡ some leaf)
  last_key_total k [] = (k, refl)
  last_key_total k (j ∷ p) = last_key_total j p

  -- When the guard is dropped it emits an event, whatever the event was. If the duration path and the
  -- timestamp path begin with different keys, the emitted event has the elapsed time at the duration
  -- path, in the unit that the last key's name asks for, the time text at the timestamp path, and at
  -- every path apart from both the value that it had. The callbacks must leave the event alone.
  pub drop-SetsBoth :
      (ops : FloatOps) (nanos : ℕ) (now : Str) (e : WideEvent) (d₀ t₀ : K) (p q : List K)
      → cx.key.duration_path ≡ d₀ ∷ p
      → cx.key.timestamp_path ≡ t₀ ∷ q
      → cx.key.as_index d₀ ≢ cx.key.as_index t₀
      → (leaf : K) × (e' : WideEvent) × (last_key (d₀ ∷ p) ≡ some leaf)
        × (drop cx ops nanos now e ≡ some e')
        × SetsBoth cx
            (d₀ ∷ p)
            (t₀ ∷ q)
            (f64 (duration_to_unit_f64 ops (cx.key.as_str leaf) nanos))
            (str now)
            e
            e'
  unfolding drop
  drop-SetsBoth ops nanos now e d₀ t₀ p q is_dur is_ts ne =
      let (leaf, last) = last_key_total d₀ p in
      let duration = f64 (duration_to_unit_f64 ops (cx.key.as_str leaf) nanos) in
      let (e', ran, sets) = drop_paths-SetsBoth d₀ t₀ p q duration (str now) e ne in
      let here : drop_at cx ops (d₀ ∷ p) (t₀ ∷ q) nanos now e ≡ some e' = rw last ran in
      (leaf, e', last, ap₂ (λ d t. drop_at cx ops d t nanos now e) is_dur is_ts ∙ here, sets)
