-- ===== src/Parse/Overrides/Valid.antt =====
-- What an override list of wide-log-macros/src/parse.rs can set.
use wide_log.Prelude.{
  ℕ, zero, suc, ◌≡◌, Bool, true, false, Option, none, some, List, [], Str, chars, str_eq,
  if◌then◌else◌, Bool-cases, inl, inr, subst,
}
use wide_log.Parse.{Result, ok, err, ◌and_then◌, and_then-eq-ok, Tokens, end, next, expected_comma}
use wide_log.Parse.Overrides.{
  KeyOverrides, no_overrides, OverridePath, top, sub, validate_override_value, assign, assign_top,
  assign_sub, assign_path, assign_override, both_eq, parse_override, parse_override_path,
  parse_arrow, parse_override_value, seen_path, path_str, After, stop, again, wrong, after_round,
  override_loop, parse_overrides,
}
use wide_log.Parse.Overrides.Plain.{IsPlain, validate_override_value-IsPlain}

-- A field that is set holds a plain name.
abbrev pub IsValidField : Option Str → Type 0
IsValidField none = Unit
IsValidField (some value) = IsPlain value

abbrev pub IsValid : KeyOverrides → Type 0
IsValid ovr =
    IsValidField ovr.log.key
    × IsValidField ovr.log.level
    × IsValidField ovr.log.message
    × IsValidField ovr.event.key
    × IsValidField ovr.event.id
    × IsValidField ovr.event.timestamp
    × IsValidField ovr.duration.key
    × IsValidField ovr.duration.total_ms

-- A result that, if there is one, has the property.
abbrev pub Gives : {A : Type 0} → (A → Type 0) → Result A → Type 0
Gives P (ok a) = P a
Gives P (err e) = Unit

Gives-if :
    {A : Type 0}
    → (P : A → Type 0) (b : Bool) (x y : Result A) → Gives P x
    → Gives P y
    → Gives P (if b then x else y)
Gives-if P true x y hx hy = hx
Gives-if P false x y hx hy = hy

-- A field that is assigned gets the value.
Gives-assign :
    {A : Type 0}
    → (P : A → Type 0) (o : Option Str) (value : Str) (f : Option Str → A) → P (f (some value))
    → Gives P (assign o value and_then (λ o'. ok (f o')))
Gives-assign P none value f h = h
Gives-assign P (some old) value f h = tt

assign_top-IsValid :
    (ovr : KeyOverrides) (name value : Str)
    → IsValid ovr
    → IsPlain value
    → Gives IsValid (assign_top ovr name value)
unfolding assign_top
assign_top-IsValid ovr name value h fine =
    let (lk, lv, ms, ek, ei, et, dk, tm) = h in
    Gives-if IsValid (str_eq name (chars "Log")) _ _
      (Gives-assign IsValid ovr.log.key value (λ o. record ovr { log = record ovr.log { key = o } })
        (fine, lv, ms, ek, ei, et, dk, tm))
      (Gives-if IsValid (str_eq name (chars "Event")) _ _
        (Gives-assign IsValid ovr.event.key value
          (λ o. record ovr { event = record ovr.event { key = o } })
          (lk, lv, ms, fine, ei, et, dk, tm))
        (Gives-if IsValid (str_eq name (chars "Duration")) _ _
          (Gives-assign IsValid ovr.duration.key value
            (λ o. record ovr { duration = record ovr.duration { key = o } })
            (lk, lv, ms, ek, ei, et, fine, tm))
          tt))

assign_sub-IsValid :
    (ovr : KeyOverrides) (parent name value : Str)
    → IsValid ovr
    → IsPlain value
    → Gives IsValid (assign_sub ovr parent name value)
unfolding assign_sub
assign_sub-IsValid ovr parent name value h fine =
    let (lk, lv, ms, ek, ei, et, dk, tm) = h in
    Gives-if IsValid (both_eq parent name (chars "Log") (chars "Level")) _ _
      (Gives-assign IsValid ovr.log.level value
        (λ o. record ovr { log = record ovr.log { level = o } }) (lk, fine, ms, ek, ei, et, dk, tm))
      (Gives-if IsValid (both_eq parent name (chars "Log") (chars "Message")) _ _
        (Gives-assign IsValid ovr.log.message value
          (λ o. record ovr { log = record ovr.log { message = o } })
          (lk, lv, fine, ek, ei, et, dk, tm))
        (Gives-if IsValid (both_eq parent name (chars "Event") (chars "Id")) _ _
          (Gives-assign IsValid ovr.event.id value
            (λ o. record ovr { event = record ovr.event { id = o } })
            (lk, lv, ms, ek, fine, et, dk, tm))
          (Gives-if IsValid (both_eq parent name (chars "Event") (chars "Timestamp")) _ _
            (Gives-assign IsValid ovr.event.timestamp value
              (λ o. record ovr { event = record ovr.event { timestamp = o } })
              (lk, lv, ms, ek, ei, fine, dk, tm))
            (Gives-if IsValid (both_eq parent name (chars "Duration") (chars "TotalMs")) _ _
              (Gives-assign IsValid ovr.duration.total_ms value
                (λ o. record ovr { duration = record ovr.duration { total_ms = o } })
                (lk, lv, ms, ek, ei, et, dk, fine))
              tt))))

assign_override-IsValid :
    (ovr : KeyOverrides) (path : OverridePath) (value : Str)
    → IsValid ovr
    → Gives IsValid (assign_override ovr path value)
unfolding assign_override
assign_override-IsValid ovr path value h = elim (Bool-cases (validate_override_value value)) [
  | inr bad ↦ rw bad tt
  | inl fine ↦ rw fine (by_path (validate_override_value-IsPlain value fine) path)
]
  where
    by_path : IsPlain value → (p : OverridePath) → Gives IsValid (assign_path ovr p value)
    by_path fine (top name) = assign_top-IsValid ovr name value h fine
    by_path fine (sub parent name) = assign_sub-IsValid ovr parent name value h fine

Gives-ok : {A : Type 0} → (P : A → Type 0) (r : Result A) {a : A} → Gives P r → r ≡ ok a → P a
Gives-ok P (ok b) h eq = subst P {x = b} (cc eq) h
Gives-ok P (err e) h eq = cc

parse_override-IsValid :
    (ovr ovr' : KeyOverrides) (seen seen' : List Str) (ts rest : Tokens)
    → IsValid ovr
    → parse_override ovr seen ts ≡ ok (ovr', (seen', rest))
    → IsValid ovr'
parse_override-IsValid ovr ovr' seen seen' ts rest h eq =
    let ((path, ts₁), _, eq₁) = and_then-eq-ok (parse_override_path ts) _ eq in
    let (ts₂, _, eq₂) = and_then-eq-ok (parse_arrow ts₁) _ eq₁ in
    let ((value, ts₃), _, eq₃) = and_then-eq-ok (parse_override_value ts₂) _ eq₂ in
    elim (Bool-cases (seen_path (path_str path) seen)) [
      | inl twice ↦ cc (rw twice at eq₃)
      | inr new ↦
          let (made, assigned, eq₄) =
            and_then-eq-ok (assign_override ovr path value) _ (rw new at eq₃) in
          let same : made ≡ ovr' = cc in
          subst IsValid same (
            Gives-ok IsValid (assign_override ovr path value)
              (assign_override-IsValid ovr path value h) assigned)
    ]

override_loop-IsValid :
    (f : ℕ) (ovr ovr' : KeyOverrides) (seen : List Str) (ts : Tokens)
    → IsValid ovr
    → override_loop f ovr seen ts ≡ ok ovr'
    → IsValid ovr'
unfolding override_loop
override_loop-IsValid zero ovr ovr' seen ts h eq = cc
override_loop-IsValid (suc f) ovr ovr' seen ts h eq =
    let ((ovr₁, (seen₁, rest)), round, eq₁) = and_then-eq-ok (parse_override ovr seen ts) _ eq in
    by_after ovr₁ seen₁ (after_round rest)
      (λ ts' h₁ e. override_loop-IsValid f ovr₁ ovr' seen₁ ts' h₁ e)
      (parse_override-IsValid ovr ovr₁ seen seen₁ ts rest h round) eq₁
  where
    by_after :
        (ovr₁ : KeyOverrides) (seen₁ : List Str) (a : After)
        → ((ts' : Tokens) → IsValid ovr₁ → override_loop f ovr₁ seen₁ ts' ≡ ok ovr' → IsValid ovr')
        → IsValid ovr₁
        → elim a [
          | stop ↦ ok ovr₁
          | wrong ↦ err expected_comma
          | again ts' ↦ override_loop f ovr₁ seen₁ ts'
        ]
          ≡ ok ovr'
        → IsValid ovr'
    by_after ovr₁ seen₁ stop more h₁ e = subst IsValid {x = ovr₁} (cc e) h₁
    by_after ovr₁ seen₁ wrong more h₁ e = cc
    by_after ovr₁ seen₁ (again ts') more h₁ e = more ts' h₁ e

no_overrides-IsValid : IsValid no_overrides
no_overrides-IsValid = (tt, tt, tt, tt, tt, tt, tt, tt)

-- Every name that an accepted override list sets is plain.
pub parse_overrides-IsValid :
    (ts : Tokens) (ovr : KeyOverrides) → parse_overrides ts ≡ ok ovr → IsValid ovr
unfolding parse_overrides
parse_overrides-IsValid end ovr eq = cc
parse_overrides-IsValid (next t ts) ovr eq =
    override_loop-IsValid _ no_overrides ovr [] (next t ts) no_overrides-IsValid eq
