-- ===== src/Parse/Grammar/Complete.antt =====
-- `parse_value` of wide-log-macros/src/parse.rs accepts what is in the grammar, and nothing else.
use wide_log.Prelude.{
  ℕ, zero, suc, ◌≡◌, ◌<◌, ◌≤◌, ◌↔◌, refl, ap, ◌∙◌, subst, true, false, Option, List, [], ◌∷◌, Str,
  str_eq, str_eq_refl, str_eq→eq, Bool-cases, inl, inr, arith,
}
use wide_log.Parse.{
  Result, ok, err, ◌and_then◌, and_then-eq-ok, JsonNode, Entries, null, bool, number, str, object,
  marker, nil, entry, Tokens, Token, end, next, ident, punct, literal, group, expected_comma,
  weight,
}
use wide_log.Parse.Overrides.{KeyOverrides, After, stop, again, wrong, after_round, seen_path}
use wide_log.Parse.Tree.{
  parse_key, parse_colon, check_key, only, parse_value, parse_object, parse_fields, parse_prefix,
  expect_object, parse_wide_log_input,
}
use wide_log.Parse.Unique.{has_key}
use wide_log.Parse.Verdicts.{Consumes}
use wide_log.Parse.Total.{parse_prefix-Consumes}
use wide_log.Parse.Grammar.{
  IsKey, IsEnd, HasDistinctKeys, IsValue, IsFields, true_word, false_word, null_word,
  duration_marker, counter_marker, negative, plain, empty_braces, braces, parens, one_field,
  more_fields,
}
use wide_log.Parse.Grammar.Sound.{value-InGrammar, InGrammar-ok, only-end}

weight-next : (t : Token) (ts : Tokens) → weight ts < weight (next t ts)
weight-next (ident s) ts = omega arith
weight-next (punct c) ts = omega arith
weight-next (literal s) ts = omega arith
weight-next (group d inner) ts = omega arith

key-parse :
    (t : Token) (key : Str) (ts : Tokens) → IsKey t key → parse_key (next t ts) ≡ ok (key, ts)
unfolding parse_key
key-parse (literal s) key ts h = rw h
key-parse (ident s) key ts h = rw h.0 (rw h.1)
key-parse (punct c) key ts h = absurd h
key-parse (group d inner) key ts h = absurd h

colon-parse : (c : ℕ) (ts : Tokens) → c ≡ b':' → parse_colon (next (punct c) ts) ≡ ok ts
colon-parse c ts h = rw h

IsEnd-stop : (ts : Tokens) → IsEnd ts → after_round ts ≡ stop
IsEnd-stop end h = refl
IsEnd-stop (next (punct c) end) h = rw h
IsEnd-stop (next (punct c) (next t ts)) h = absurd h
IsEnd-stop (next (ident s) ts) h = absurd h
IsEnd-stop (next (literal s) ts) h = absurd h
IsEnd-stop (next (group d inner) ts) h = absurd h

-- None of the keys seen is a key of the entries.
abbrev Unseen : List Str → Entries → Type 0
Unseen seen es = (k : Str) → seen_path k seen ≡ true → has_key k es ≡ false

Unseen-check_key :
    (key : Str) (v : JsonNode) (es : Entries) (seen : List Str)
    → Unseen seen (entry key v es)
    → check_key key seen ≡ ok key
Unseen-check_key key v es seen h = elim (Bool-cases (seen_path key seen)) [
  | inl was ↦ cc (rw (str_eq_refl key) at (h key was))
  | inr new ↦ rw new
]

Unseen-rest :
    (key : Str) (v : JsonNode) (es : Entries) (seen : List Str)
    → has_key key es ≡ false
    → Unseen seen (entry key v es)
    → Unseen (key ∷ seen) es
Unseen-rest key v es seen absent h k was = elim (Bool-cases (str_eq key k)) [
  | inl same ↦ subst (λ j. has_key j es ≡ false) (str_eq→eq key k same) absent
  | inr differs ↦ rw differs at (h k (rw differs at was))
]

module _ (f64 : Str → Option ℕ) where
  -- A node takes at least one token.
  lighter : {ts rest : Tokens} {v : JsonNode} → IsValue f64 ts v rest → weight rest < weight ts
  lighter (true_word h) = omega arith
  lighter (false_word h) = omega arith
  lighter (null_word h) = omega arith
  lighter (duration_marker h k) = omega arith
  lighter (counter_marker h k) = omega arith
  lighter (negative h k) = omega arith
  lighter (plain h) = omega arith
  lighter empty_braces = omega arith
  lighter (braces h k) = omega arith
  lighter (parens h) = omega arith

  -- A round of the loop that the grammar allows, up to what follows the value.
  round-parse :
      (f : ℕ) (seen : List Str) (t : Token) (key : Str) (c : ℕ) (ts rest : Tokens) (v : JsonNode)
      (a : After)
      → IsKey t key
      → c ≡ b':'
      → parse_value f64 f ts ≡ ok (v, rest)
      → check_key key seen ≡ ok key
      → after_round rest ≡ a
      → parse_fields f64 (suc f) seen (next t (next (punct c) ts)) ≡ elim a [
        | stop ↦ ok (entry key v nil)
        | wrong ↦ err expected_comma
        | again ts' ↦ parse_fields f64 f (key ∷ seen) ts' and_then λ es. ok (entry key v es)
      ]
  unfolding parse_value
  round-parse f seen t key c ts rest v a k colon value new behind =
      rw (key-parse t key (next (punct c) ts) k, colon-parse c ts colon, value, new, behind)

  fields-object :
      (inner : Tokens) {es : Entries} (fields : Result Entries)
      → IsFields f64 inner es
      → fields ≡ ok es
      → parse_object inner fields ≡ ok (object es)
  fields-object end fields h eq = elim h [ ]
  fields-object (next t ts) fields h eq = rw eq

  -- Fuel for the tokens is enough for what the grammar allows.
  mutual
    unfolding parse_value str_eq

    pub IsValue-parse :
        (f : ℕ) {ts rest : Tokens} {v : JsonNode}
        → IsValue f64 ts v rest
        → weight ts ≤ f
        → parse_value f64 f ts ≡ ok (v, rest)
    IsValue-parse f (true_word h) le = rw h
    IsValue-parse f (false_word h) le = rw h
    IsValue-parse f (null_word h) le = rw h
    IsValue-parse f (duration_marker h k) le = rw (h, k)
    IsValue-parse f (counter_marker h k) le = rw (h, k)
    IsValue-parse f (negative h k) le = rw (h, k)
    IsValue-parse f (plain h) le = rw h
    IsValue-parse zero empty_braces le = absurd (omega arith)
    IsValue-parse zero (braces h k) le = absurd (omega arith)
    IsValue-parse zero (parens h) le = absurd (omega arith)
    IsValue-parse (suc f) empty_braces le = refl
    IsValue-parse (suc f) (braces {inner} {es} {ts} h distinct) le = rw (
        fields-object inner (parse_fields f64 f [] inner) h
          (IsFields-parse f [] h distinct (λ k was. cc was) (omega arith)))
    IsValue-parse (suc f) (parens {inner} {v} {ts} h) le = rw (IsValue-parse f h (omega arith))

    pub IsFields-parse :
        (f : ℕ) (seen : List Str) {ts : Tokens} {es : Entries}
        → IsFields f64 ts es
        → HasDistinctKeys es
        → Unseen seen es
        → weight ts ≤ f
        → parse_fields f64 f seen ts ≡ ok es
    IsFields-parse zero seen (one_field {t} {key} {c} {ts} k colon value last) distinct unseen le =
        absurd (omega (arith, weight-next t (next (punct c) ts)))
    IsFields-parse zero seen (more_fields {t} {key} {c} {ts} k colon value comma h) distinct unseen
          le =
        absurd (omega (arith, weight-next t (next (punct c) ts)))
    IsFields-parse (suc f) seen (one_field {t} {key} {c} {ts} {v} {rest} k colon value last)
          distinct unseen le =
        round-parse f seen t key c ts rest v stop k colon
          (IsValue-parse f value (omega (arith, weight-next t (next (punct c) ts))))
          (Unseen-check_key key v nil seen unseen) (IsEnd-stop rest last)
    IsFields-parse (suc f) seen
          (more_fields {t} {key} {c} {ts} {v} {d} {u} {us} {es} k colon value comma h) distinct
          unseen le =
        round-parse f seen t key c ts (next (punct d) (next u us)) v (again (next u us)) k colon
          (IsValue-parse f value (omega (arith, weight-next t (next (punct c) ts))))
          (Unseen-check_key key v es seen unseen) (rw comma)
        ∙ rw (
            IsFields-parse f (key ∷ seen) h distinct.1 (Unseen-rest key v es seen distinct.0 unseen)
              (omega (arith, weight-next t (next (punct c) ts), lighter value)))

  expect_object-eq :
      (node : JsonNode) (es : Entries) → expect_object node ≡ ok es → node ≡ object es
  expect_object-eq (object fs) es eq = cc eq
  expect_object-eq null es eq = cc
  expect_object-eq (bool b) es eq = cc
  expect_object-eq (number n) es eq = cc
  expect_object-eq (str s) es eq = cc
  expect_object-eq (marker m) es eq = cc

  prefix-lighter :
      (ts : Tokens) (ovr : KeyOverrides) (rest : Tokens)
      → parse_prefix ts ≡ ok (ovr, rest)
      → weight rest ≤ weight ts
  prefix-lighter ts ovr rest eq =
      let lt : weight rest < suc (weight ts) =
        subst (Consumes (suc (weight ts))) eq (parse_prefix-Consumes ts) in
      omega arith

  -- The macro accepts exactly the inputs of the grammar, with the tree that the grammar gives: behind
  -- what `parse_prefix` takes for the override list stands one object and nothing else, in braces and
  -- perhaps in parentheses, whose fields are a key, a colon and a value, with commas between them and
  -- perhaps one behind the last, and no object has two fields with one key. Any fuel from the number of
  -- tokens up, where a group counts for two, is enough.
  pub parse_wide_log_input-IsValue :
      (f : ℕ) (ts : Tokens) (ovr : KeyOverrides) (es : Entries)
      → weight ts ≤ f
      → (parse_wide_log_input f64 f ts ≡ ok (ovr, es))
        ↔ ((rest : Tokens) × (parse_prefix ts ≡ ok (ovr, rest)) × IsValue f64 rest (object es) end)
  unfolding parse_wide_log_input
  parse_wide_log_input-IsValue f ts ovr es enough = (
    λ eq.
        let ((ovr₁, ts₁), before, eq₁) = and_then-eq-ok (parse_prefix ts) _ eq in
        let ((v, rest), read, eq₂) = and_then-eq-ok (parse_value f64 f ts₁) _ eq₁ in
        let (node, alone, eq₃) = and_then-eq-ok (only (v, rest)) _ eq₂ in
        let (es₁, is_object, eq₄) = and_then-eq-ok (expect_object node) _ eq₃ in
        let (same, at_end) = only-end f64 v rest alone in
        let an_object : v ≡ object es =
          same ∙ expect_object-eq node es₁ is_object ∙ ap (λ fs. object fs) (cc eq₄) in
        (
          ts₁,
          cc (before, eq₄),
          subst (λ r. IsValue f64 ts₁ (object es) r) at_end
              (subst (λ n. IsValue f64 ts₁ n rest) an_object
                (InGrammar-ok f64 ts₁ (parse_value f64 f ts₁) (value-InGrammar f64 f ts₁) read)),
        ),
    λ (rest, before, value).
        rw before
          (rw (IsValue-parse f value (omega (arith, enough, prefix-lighter ts ovr rest before)))),
  )
