-- ===== src/Parse/Total.antt =====
-- The macro's parser of wide-log-macros/src/parse.rs always comes to a verdict.
use wide_log.Prelude.{ℕ, suc, ◌+◌, ◌≤◌, Option, Str, ◌==◌, arith}
use wide_log.Parse.{
  Result, ok, err, ◌and_then◌, Tokens, JsonNode, end, next, ident, punct, literal, group, brace,
  bracket, parenthesis, invisible, weight, expected_comma, null, bool, number, str, object, marker,
}
use wide_log.Parse.Overrides.{KeyOverrides, parse_overrides}
use wide_log.Parse.Tree.{
  parse_value, only, parse_comma, parse_prefix, expect_object, parse_wide_log_input,
}
use wide_log.Parse.Verdicts.{Decides, Consumes, Decides-step}
use wide_log.Parse.Fuel.{Shortens, Consumes-step, only-Decides, value-Consumes}
use wide_log.Parse.Overrides.Total.{Shortens-if, parse_overrides-Decides}

parse_comma-Shortens : (ts : Tokens) → Shortens (weight ts) (parse_comma ts)
parse_comma-Shortens end = tt
parse_comma-Shortens (next (punct c) ts) =
    Shortens-if (suc (weight ts)) (c == b',') (ok ts) (err expected_comma) (omega arith) tt
parse_comma-Shortens (next (ident s) ts) = tt
parse_comma-Shortens (next (literal s) ts) = tt
parse_comma-Shortens (next (group d inner) ts) = tt

comma-Consumes :
    (m n : ℕ) (ovr : KeyOverrides) (r : Result Tokens)
    → Shortens m r
    → m ≤ n
    → Consumes n (r and_then (λ rest. ok (ovr, rest)))
comma-Consumes m n ovr (ok rest) h le = omega arith
comma-Consumes m n ovr (err e) h le = h

after_overrides :
    (n : ℕ) (r : Result KeyOverrides) (c : Result Tokens) (m : ℕ)
    → Decides r
    → Shortens m c
    → m ≤ n
    → Consumes n (r and_then (λ ovr. c and_then (λ rest. ok (ovr, rest))))
after_overrides n (ok ovr) c m h short le = comma-Consumes m n ovr c short le
after_overrides n (err e) c m h short le = h

pub parse_prefix-Consumes : (ts : Tokens) → Consumes (suc (weight ts)) (parse_prefix ts)
parse_prefix-Consumes (next (group bracket inner) ts) =
    after_overrides (suc (suc (suc (weight inner + weight ts)))) (parse_overrides inner)
      (parse_comma ts) (weight ts) (parse_overrides-Decides inner) (parse_comma-Shortens ts)
      (omega arith)
parse_prefix-Consumes end = omega arith
parse_prefix-Consumes (next (ident s) ts) = omega arith
parse_prefix-Consumes (next (punct c) ts) = omega arith
parse_prefix-Consumes (next (literal s) ts) = omega arith
parse_prefix-Consumes (next (group brace inner) ts) = omega arith
parse_prefix-Consumes (next (group parenthesis inner) ts) = omega arith
parse_prefix-Consumes (next (group invisible inner) ts) = omega arith

expect_object-Decides : (node : JsonNode) → Decides (expect_object node)
expect_object-Decides (object es) = tt
expect_object-Decides null = tt
expect_object-Decides (bool b) = tt
expect_object-Decides (number n) = tt
expect_object-Decides (str s) = tt
expect_object-Decides (marker m) = tt

-- The macro's parser comes to a verdict on every input: with fuel for the number of tokens, where a
-- group counts for two, it accepts or it refuses for a reason other than a lack of fuel.
pub parse_wide_log_input-Decides :
    (f64 : Str → Option ℕ) (f : ℕ) (ts : Tokens)
    → weight ts ≤ f
    → Decides (parse_wide_log_input f64 f ts)
unfolding parse_wide_log_input
parse_wide_log_input-Decides f64 f ts h =
    Consumes-step (suc (weight ts)) (parse_prefix ts) _ (parse_prefix-Consumes ts) λ ovr ts₁ lt₁.
      Consumes-step (weight ts₁) (parse_value f64 f ts₁) _ (value-Consumes f64 f ts₁ (omega arith))
        λ v rest lt₂.
          Decides-step (only (v, rest)) _ (only-Decides v rest)
            λ node. Decides-step (expect_object node) _ (expect_object-Decides node) (λ es. tt)
