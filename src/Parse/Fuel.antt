-- ===== src/Parse/Fuel.antt =====
-- Enough fuel for the functions of wide-log-macros/src/parse.rs that recur on tokens.
use wide_log.Prelude.{
  ℕ, zero, suc, ◌+◌, ◌<◌, ◌≤◌, ◌||◌, Option, List, [], ◌∷◌, Str, chars, str_eq, Bool-cases, inl,
  inr, ◌==◌, arith,
}
use wide_log.Parse.{
  ParseError, Result, ok, err, ◌and_then◌, JsonNode, Entries, Marker, Number, str, nil, entry,
  Tokens, Token, end, next, ident, punct, literal, group, brace, bracket, parenthesis, invisible,
  out_of_fuel, expected_comma, weight,
}
use wide_log.Parse
use wide_log.Parse.Literals.{parse_literal_str}
use wide_log.Parse.Overrides.{seen_path, stop, again, wrong, after_round}
use wide_log.Parse.Tree.{
  parse_key, key_string, parse_colon, check_key, only, parse_negative, parse_value, parse_object,
  parse_fields,
}
use wide_log.Parse.Verdicts.{
  IsVerdict, Decides, Consumes, Decides-if, Consumes-if, Consumes-node, Decides-step,
  parse_literal_str-Decides, key_string-Decides, parse_ident-Consumes,
}

parse_key-Consumes : (ts : Tokens) → Consumes (weight ts) (parse_key ts)
unfolding parse_key
parse_key-Consumes end = tt
parse_key-Consumes (next (literal s) ts) =
    Consumes-node (suc (weight ts)) (key_string s) (λ key. key) ts (key_string-Decides s)
      (omega arith)
parse_key-Consumes (next (ident s) ts) =
    Consumes-if (suc (weight ts))
      (str_eq s (chars "true") || str_eq s (chars "false") || str_eq s (chars "null"))
      (err Parse.invalid_key) (ok (s, ts)) tt (omega arith)
parse_key-Consumes (next (punct c) ts) = tt
parse_key-Consumes (next (group d inner) ts) = tt

-- What is left, if anything, is lighter than `n`.
abbrev pub Shortens : ℕ → Result Tokens → Type 0
Shortens n (ok rest) = weight rest < n
Shortens n (err e) = IsVerdict e

parse_colon-Shortens : (ts : Tokens) → Shortens (weight ts) (parse_colon ts)
parse_colon-Shortens end = tt
parse_colon-Shortens (next (punct c) ts) = elim (Bool-cases (c == b':')) [
  | inl is ↦ rw is (omega arith)
  | inr isnt ↦ rw isnt tt
]
parse_colon-Shortens (next (ident s) ts) = tt
parse_colon-Shortens (next (literal s) ts) = tt
parse_colon-Shortens (next (group d inner) ts) = tt

parse_negative-Consumes :
    (f64 : Str → Option ℕ) (ts : Tokens) → Consumes (suc (weight ts)) (parse_negative f64 ts)
parse_negative-Consumes f64 end = tt
parse_negative-Consumes f64 (next (literal s) ts) =
    Consumes-node (suc (suc (weight ts))) (parse_literal_str f64 (b'-' ∷ s)) (λ node. node) ts
      (parse_literal_str-Decides f64 (b'-' ∷ s)) (omega arith)
parse_negative-Consumes f64 (next (ident s) ts) = tt
parse_negative-Consumes f64 (next (punct c) ts) = tt
parse_negative-Consumes f64 (next (group d inner) ts) = tt

pub Consumes-step :
    {A B : Type 0}
    → (n : ℕ) (r : Result (A × Tokens)) (f : A × Tokens → Result B) → Consumes n r
    → ((a : A) (rest : Tokens) → weight rest < n → Decides (f (a, rest)))
    → Decides (r and_then f)
Consumes-step n (ok (a, rest)) f h others = others a rest h
Consumes-step n (err e) f h others = h

pub Shortens-step :
    {B : Type 0}
    → (n : ℕ) (r : Result Tokens) (f : Tokens → Result B) → Shortens n r
    → ((rest : Tokens) → weight rest < n → Decides (f rest))
    → Decides (r and_then f)
Shortens-step n (ok rest) f h others = others rest h
Shortens-step n (err e) f h others = h

-- What follows a round is decided if the loop is on the lighter rest.
after-Decides :
    (ts : Tokens) (more : Tokens → Result Entries) (key : Str) (value : JsonNode)
    → ((ts' : Tokens) → weight ts' < weight ts → Decides (more ts'))
    → Decides (elim (after_round ts) [
      | stop ↦ ok (entry key value nil)
      | wrong ↦ err expected_comma
      | again ts' ↦ more ts' and_then λ rest. ok (entry key value rest)
    ])
after-Decides end more key value h = tt
after-Decides (next (punct c) end) more key value h = elim (Bool-cases (c == b',')) [
  | inl is ↦ rw is tt
  | inr isnt ↦ rw isnt tt
]
after-Decides (next (punct c) (next t ts)) more key value h = elim (Bool-cases (c == b',')) [
  | inl is ↦ rw is (
      Decides-step (more (next t ts)) (λ rest. ok (entry key value rest))
        (h (next t ts) (omega arith)) (λ rest. tt))
  | inr isnt ↦ rw isnt tt
]
after-Decides (next (ident s) ts) more key value h = tt
after-Decides (next (literal s) ts) more key value h = tt
after-Decides (next (group d inner) ts) more key value h = tt

check_key-Decides : (key : Str) (seen : List Str) → Decides (check_key key seen)
check_key-Decides key seen =
    Decides-if (seen_path key seen) (err Parse.duplicate_key) (ok key) tt tt

pub only-Decides : (v : JsonNode) (ts : Tokens) → Decides (only (v, ts))
only-Decides v end = tt
only-Decides v (next t ts) = tt

paren-Consumes :
    (n m : ℕ) (r : Result (JsonNode × Tokens)) (ts : Tokens)
    → Consumes n r
    → weight ts < m
    → Consumes m (r and_then (λ parsed. only parsed and_then (λ node. ok (node, ts))))
paren-Consumes n m (ok (v, end)) ts h lt = lt
paren-Consumes n m (ok (v, next t us)) ts h lt = tt
paren-Consumes n m (err e) ts h lt = h

module _ (f64 : Str → Option ℕ) where
  mutual
    unfolding parse_value

    pub value-Consumes :
        (f : ℕ) (ts : Tokens) → weight ts ≤ f → Consumes (weight ts) (parse_value f64 f ts)
    value-Consumes f end h = tt
    value-Consumes f (next (ident s) ts) h = parse_ident-Consumes s ts
    value-Consumes f (next (punct c) ts) h =
        Consumes-if (suc (weight ts)) (c == b'-') (parse_negative f64 ts)
          (err Parse.unexpected_token) (parse_negative-Consumes f64 ts) tt
    value-Consumes f (next (literal s) ts) h =
        Consumes-node (suc (weight ts)) (parse_literal_str f64 s) (λ node. node) ts
          (parse_literal_str-Decides f64 s) (omega arith)
    value-Consumes f (next (group bracket inner) ts) h = tt
    value-Consumes f (next (group invisible inner) ts) h = tt
    value-Consumes zero (next (group brace inner) ts) h = absurd (omega arith)
    value-Consumes zero (next (group parenthesis inner) ts) h = absurd (omega arith)
    value-Consumes (suc f) (next (group brace end) ts) h = omega arith
    value-Consumes (suc f) (next (group brace (next t us)) ts) h =
        Consumes-node (suc (suc (weight (next t us) + weight ts)))
          (parse_object (next t us) (parse_fields f64 f [] (next t us))) (λ node. node) ts
          (Decides-step (parse_fields f64 f [] (next t us)) (λ es. ok (Parse.object es))
            (fields-Decides f [] (next t us) (omega arith)) (λ es. tt))
          (omega arith)
    value-Consumes (suc f) (next (group parenthesis inner) ts) h =
        paren-Consumes (weight inner) (suc (suc (weight inner + weight ts)))
          (parse_value f64 f inner) ts (value-Consumes f inner (omega arith)) (omega arith)

    fields-Decides :
        (f : ℕ) (seen : List Str) (ts : Tokens)
        → weight ts < f
        → Decides (parse_fields f64 f seen ts)
    fields-Decides zero seen ts h = absurd (omega arith)
    fields-Decides (suc f) seen ts h =
        Consumes-step (weight ts) (parse_key ts) _ (parse_key-Consumes ts) λ key ts₁ lt₁.
          Shortens-step (weight ts₁) (parse_colon ts₁) _ (parse_colon-Shortens ts₁) λ ts₂ lt₂.
            Consumes-step (weight ts₂) (parse_value f64 f ts₂) _
              (value-Consumes f ts₂ (omega arith))
              λ value ts₃ lt₃. Decides-step (check_key key seen) _ (check_key-Decides key seen) λ _.
                after-Decides ts₃ (parse_fields f64 f (key ∷ seen)) key value
                  (λ ts' lt'. fields-Decides f (key ∷ seen) ts' (omega arith))
