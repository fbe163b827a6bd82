-- ===== src/Parse/Overrides/Total.antt =====
-- The override list of wide-log-macros/src/parse.rs always gets a verdict.
use wide_log.Prelude.{
  ℕ, zero, suc, ◌+◌, ◌<◌, ◌≤◌, Bool, true, false, Option, none, some, List, [], ◌∷◌, Str, chars,
  str_eq, ◌==◌, arith, if◌then◌else◌, Bool-cases, inl, inr,
}
use wide_log.Parse
use wide_log.Parse.{
  Result, ok, err, ◌and_then◌, Tokens, Token, JsonNode, Entries, end, next, ident, punct, literal,
  group, brace, bracket, parenthesis, invisible, weight, expected_comma, expected_arrow, null, bool,
  number, str, object, marker,
}
use wide_log.Parse.Text.{unescape_json_string}
use wide_log.Parse.Overrides.{
  KeyOverrides, OverridePath, top, sub, no_overrides, parse_override_path, parse_arrow,
  parse_override_value, override_string, seen_path, path_str, assign, assign_top, assign_sub,
  assign_path, assign_override, both_eq, validate_override_value, parse_override, stop, again,
  wrong, after_round, override_loop, parse_overrides,
}
use wide_log.Parse.Verdicts.{
  IsVerdict, Decides, Consumes, Decides-if, Consumes-if, Consumes-node,
  unescape_json_string-Decides,
}
use wide_log.Parse.Fuel.{Shortens}

assign-Decides :
    {A : Type 0}
    → (o : Option Str) (value : Str) (f : Option Str → A)
    → Decides (assign o value and_then (λ o'. ok (f o')))
assign-Decides none value f = tt
assign-Decides (some old) value f = tt

assign_top-Decides : (ovr : KeyOverrides) (name value : Str) → Decides (assign_top ovr name value)
unfolding assign_top
assign_top-Decides ovr name value =
    Decides-if (str_eq name (chars "Log")) _ _
      (assign-Decides ovr.log.key value (λ o. record ovr { log = record ovr.log { key = o } }))
      (Decides-if (str_eq name (chars "Event")) _ _
        (assign-Decides ovr.event.key value
          (λ o. record ovr { event = record ovr.event { key = o } }))
        (Decides-if (str_eq name (chars "Duration")) _ _
          (assign-Decides ovr.duration.key value
            (λ o. record ovr { duration = record ovr.duration { key = o } }))
          tt))

assign_sub-Decides :
    (ovr : KeyOverrides) (parent name value : Str) → Decides (assign_sub ovr parent name value)
unfolding assign_sub
assign_sub-Decides ovr parent name value =
    Decides-if (both_eq parent name (chars "Log") (chars "Level")) _ _
      (assign-Decides ovr.log.level value (λ o. record ovr { log = record ovr.log { level = o } }))
      (Decides-if (both_eq parent name (chars "Log") (chars "Message")) _ _
        (assign-Decides ovr.log.message value
          (λ o. record ovr { log = record ovr.log { message = o } }))
        (Decides-if (both_eq parent name (chars "Event") (chars "Id")) _ _
          (assign-Decides ovr.event.id value
            (λ o. record ovr { event = record ovr.event { id = o } }))
          (Decides-if (both_eq parent name (chars "Event") (chars "Timestamp")) _ _
            (assign-Decides ovr.event.timestamp value
              (λ o. record ovr { event = record ovr.event { timestamp = o } }))
            (Decides-if (both_eq parent name (chars "Duration") (chars "TotalMs")) _ _
              (assign-Decides ovr.duration.total_ms value
                (λ o. record ovr { duration = record ovr.duration { total_ms = o } }))
              tt))))

assign_path-Decides :
    (ovr : KeyOverrides) (path : OverridePath) (value : Str) → Decides (assign_path ovr path value)
assign_path-Decides ovr (top name) value = assign_top-Decides ovr name value
assign_path-Decides ovr (sub parent name) value = assign_sub-Decides ovr parent name value

assign_override-Decides :
    (ovr : KeyOverrides) (path : OverridePath) (value : Str)
    → Decides (assign_override ovr path value)
unfolding assign_override
assign_override-Decides ovr path value =
    Decides-if (validate_override_value value) (assign_path ovr path value)
      (err Parse.invalid_override) (assign_path-Decides ovr path value) tt

parse_override_path-Consumes : (ts : Tokens) → Consumes (weight ts) (parse_override_path ts)
unfolding parse_override_path
parse_override_path-Consumes end = tt
parse_override_path-Consumes (next (punct c) ts) = tt
parse_override_path-Consumes (next (literal s) ts) = tt
parse_override_path-Consumes (next (group d inner) ts) = tt
parse_override_path-Consumes (next (ident first) end) = omega arith
parse_override_path-Consumes (next (ident first) (next (ident s) ts)) = omega arith
parse_override_path-Consumes (next (ident first) (next (literal s) ts)) = omega arith
parse_override_path-Consumes (next (ident first) (next (group d inner) ts)) = omega arith
parse_override_path-Consumes (next (ident first) (next (punct c) end)) =
    Consumes-if 2 (c == b'.') (err Parse.expected_path) (ok (top first, next (punct c) end)) tt
      (omega arith)
parse_override_path-Consumes (next (ident first) (next (punct c) (next (ident second) ts))) =
    Consumes-if (suc (suc (suc (weight ts)))) (c == b'.') (ok (sub first second, ts))
      (ok (top first, next (punct c) (next (ident second) ts))) (omega arith) (omega arith)
parse_override_path-Consumes (next (ident first) (next (punct c) (next (punct d) ts))) =
    Consumes-if (suc (suc (suc (weight ts)))) (c == b'.') (err Parse.expected_path)
      (ok (top first, next (punct c) (next (punct d) ts))) tt (omega arith)
parse_override_path-Consumes (next (ident first) (next (punct c) (next (literal s) ts))) =
    Consumes-if (suc (suc (suc (weight ts)))) (c == b'.') (err Parse.expected_path)
      (ok (top first, next (punct c) (next (literal s) ts))) tt (omega arith)
parse_override_path-Consumes (next (ident first) (next (punct c) (next (group d inner) ts))) =
    Consumes-if (suc (suc (suc (suc (weight inner + weight ts))))) (c == b'.')
      (err Parse.expected_path) (ok (top first, next (punct c) (next (group d inner) ts))) tt
      (omega arith)

pub Shortens-if :
    (n : ℕ) (b : Bool) (x y : Result Tokens)
    → Shortens n x
    → Shortens n y
    → Shortens n (if b then x else y)
Shortens-if n true x y hx hy = hx
Shortens-if n false x y hx hy = hy

parse_arrow-Shortens : (ts : Tokens) → Shortens (weight ts) (parse_arrow ts)
parse_arrow-Shortens end = tt
parse_arrow-Shortens (next (ident s) ts) = tt
parse_arrow-Shortens (next (literal s) ts) = tt
parse_arrow-Shortens (next (group d inner) ts) = tt
parse_arrow-Shortens (next (punct c) end) = tt
parse_arrow-Shortens (next (punct c) (next (ident s) ts)) = tt
parse_arrow-Shortens (next (punct c) (next (literal s) ts)) = tt
parse_arrow-Shortens (next (punct c) (next (group d inner) ts)) = tt
parse_arrow-Shortens (next (punct c) (next (punct d) ts)) =
    let n = suc (suc (weight ts)) in
    Shortens-if n (c == b'=') (if d == b'>' then ok ts else err expected_arrow) (err expected_arrow)
      (Shortens-if n (d == b'>') (ok ts) (err expected_arrow) (omega arith) tt) tt

override_string-Decides : (s : Str) → Decides (override_string s)
override_string-Decides [] = tt
override_string-Decides (c ∷ s) =
    Decides-if (c == b'"') (unescape_json_string (c ∷ s)) (err Parse.invalid_override)
      (unescape_json_string-Decides (c ∷ s)) tt

parse_override_value-Consumes : (ts : Tokens) → Consumes (weight ts) (parse_override_value ts)
parse_override_value-Consumes end = tt
parse_override_value-Consumes (next (literal s) ts) =
    Consumes-node (suc (weight ts)) (override_string s) (λ value. value) ts
      (override_string-Decides s) (omega arith)
parse_override_value-Consumes (next (ident s) ts) = tt
parse_override_value-Consumes (next (punct c) ts) = tt
parse_override_value-Consumes (next (group d inner) ts) = tt

-- The two ways on from a round.
round-Decides :
    {A : Type 0}
    → (ts : Tokens) (done : Result A) (more : Tokens → Result A) → Decides done
    → ((ts' : Tokens) → weight ts' < weight ts → Decides (more ts'))
    → Decides
        (elim (after_round ts) [ stop ↦ done | wrong ↦ err expected_comma | again ts' ↦ more ts' ])
round-Decides end done more hd h = hd
round-Decides (next (punct c) end) done more hd h = elim (Bool-cases (c == b',')) [
  | inl is ↦ rw is hd
  | inr isnt ↦ rw isnt tt
]
round-Decides (next (punct c) (next t ts)) done more hd h = elim (Bool-cases (c == b',')) [
  | inl is ↦ rw is (h (next t ts) (omega arith))
  | inr isnt ↦ rw isnt tt
]
round-Decides (next (ident s) ts) done more hd h = tt
round-Decides (next (literal s) ts) done more hd h = tt
round-Decides (next (group d inner) ts) done more hd h = tt

-- A round's result: what is left is lighter than `n`.
abbrev Round : ℕ → Result (KeyOverrides × (List Str × Tokens)) → Type 0
Round n (ok (ovr, (seen, rest))) = weight rest < n
Round n (err e) = IsVerdict e

module _ (n : ℕ) where
  Round-step :
      {A : Type 0}
      → (m : ℕ) (r : Result (A × Tokens))
        (f : A × Tokens → Result (KeyOverrides × (List Str × Tokens)))
      → Consumes m r
      → ((a : A) (rest : Tokens) → weight rest < m → Round n (f (a, rest)))
      → Round n (r and_then f)
  Round-step m (ok (a, rest)) f h others = others a rest h
  Round-step m (err e) f h others = h

  Round-arrow :
      (m : ℕ) (r : Result Tokens) (f : Tokens → Result (KeyOverrides × (List Str × Tokens)))
      → Shortens m r
      → ((rest : Tokens) → weight rest < m → Round n (f rest))
      → Round n (r and_then f)
  Round-arrow m (ok rest) f h others = others rest h
  Round-arrow m (err e) f h others = h

  Round-assign :
      (twice : Bool) (r : Result KeyOverrides) (seen : List Str) (rest : Tokens)
      → Decides r
      → weight rest < n
      → Round n (
          if twice
          then err Parse.duplicate_override
          else r and_then (λ ovr'. ok (ovr', (seen, rest))))
  Round-assign true r seen rest h lt = tt
  Round-assign false (ok ovr) seen rest h lt = lt
  Round-assign false (err e) seen rest h lt = h

parse_override-Round :
    (ovr : KeyOverrides) (seen : List Str) (ts : Tokens)
    → Round (weight ts) (parse_override ovr seen ts)
parse_override-Round ovr seen ts =
    let n = weight ts in
    Round-step n n (parse_override_path ts) _ (parse_override_path-Consumes ts) λ path ts₁ lt₁.
      Round-arrow n (weight ts₁) (parse_arrow ts₁) _ (parse_arrow-Shortens ts₁) λ ts₂ lt₂.
        Round-step n (weight ts₂) (parse_override_value ts₂) _ (parse_override_value-Consumes ts₂)
          λ value ts₃ lt₃.
            Round-assign n (seen_path (path_str path) seen) (assign_override ovr path value)
              (path_str path ∷ seen) ts₃ (assign_override-Decides ovr path value) (omega arith)

after_Round :
    {B : Type 0}
    → (n : ℕ) (r : Result (KeyOverrides × (List Str × Tokens)))
      (f : KeyOverrides × (List Str × Tokens) → Result B)
    → Round n r
    → ((ovr' : KeyOverrides) (seen' : List Str) (rest : Tokens)
        → weight rest < n
        → Decides (f (ovr', (seen', rest))))
    → Decides (r and_then f)
after_Round n (ok (ovr', (seen', rest))) f h others = others ovr' seen' rest h
after_Round n (err e) f h others = h

override_loop-Decides :
    (f : ℕ) (ovr : KeyOverrides) (seen : List Str) (ts : Tokens)
    → weight ts ≤ f
    → 0 < f
    → Decides (override_loop f ovr seen ts)
unfolding override_loop
override_loop-Decides zero ovr seen ts h pos = absurd (omega arith)
override_loop-Decides (suc f) ovr seen ts h pos =
    after_Round (weight ts) (parse_override ovr seen ts) _ (parse_override-Round ovr seen ts)
      λ ovr' seen' rest lt.
        round-Decides rest (ok ovr') (override_loop f ovr' seen') tt
          (λ ts' lt'. override_loop-Decides f ovr' seen' ts' (omega arith) (omega arith))

weight-positive : (t : Token) (ts : Tokens) → 0 < weight (next t ts)
weight-positive (ident s) ts = omega arith
weight-positive (punct c) ts = omega arith
weight-positive (literal s) ts = omega arith
weight-positive (group d inner) ts = omega arith

pub parse_overrides-Decides : (ts : Tokens) → Decides (parse_overrides ts)
unfolding parse_overrides
parse_overrides-Decides end = tt
parse_overrides-Decides (next t ts) =
    override_loop-Decides (weight (next t ts)) no_overrides [] (next t ts) (omega arith)
      (weight-positive t ts)
