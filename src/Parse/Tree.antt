-- ===== src/Parse/Tree.antt =====
-- `parse_value`, `parse_object` and `parse_wide_log_input` of wide-log-macros/src/parse.rs, on fuel.
use wide_log.Prelude.{
  ℕ, zero, suc, true, false, ◌||◌, Option, List, [], ◌∷◌, Str, chars, str_eq, ◌==◌, if◌then◌else◌,
}
use wide_log.Parse.{
  Result, ok, err, ◌and_then◌, JsonNode, Entries, null, bool, object, marker, nil, entry, Marker,
  Tokens, end, next, ident, punct, literal, group, brace, bracket, parenthesis, invisible,
  unexpected_end, unexpected_token, unexpected_ident, expected_bang, expected_literal,
  expected_colon, expected_comma, invalid_key, duplicate_key, trailing_tokens, expected_object,
  out_of_fuel,
}
use wide_log.Parse.Text.{unescape_json_string}
use wide_log.Parse.Literals.{parse_literal_str}
use wide_log.Parse.Overrides.{
  KeyOverrides, no_overrides, parse_overrides, seen_path, stop, again, wrong, after_round,
}

abbrev pub parse_marker : Marker → Tokens → Result (JsonNode × Tokens)
parse_marker m (next (punct c) ts) = if c == b'!' then ok (marker m, ts) else err expected_bang
parse_marker m _ = err expected_bang

-- An identifier in the place of a value.
abbrev pub parse_ident : Str → Tokens → Result (JsonNode × Tokens)
parse_ident s ts =
    if str_eq s (chars "true")
    then ok (bool true, ts)
    else if str_eq s (chars "false")
    then ok (bool false, ts)
    else if str_eq s (chars "null")
    then ok (null, ts)
    else if str_eq s (chars "duration")
    then parse_marker Marker.duration ts
    else if str_eq s (chars "counter")
    then parse_marker Marker.counter ts
    else err unexpected_ident

abbrev pub key_string : Str → Result Str
key_string [] = err invalid_key
key_string (c ∷ s) = if c == b'"' then unescape_json_string (c ∷ s) else err invalid_key

unfoldable pub parse_key : Tokens → Result (Str × Tokens)
parse_key end = err unexpected_end
parse_key (next (literal s) ts) = key_string s and_then λ key. ok (key, ts)
parse_key (next (ident s) ts) =
    if str_eq s (chars "true") || str_eq s (chars "false") || str_eq s (chars "null")
    then err invalid_key
    else ok (s, ts)
parse_key (next _ ts) = err invalid_key

abbrev pub parse_colon : Tokens → Result Tokens
parse_colon (next (punct c) ts) = if c == b':' then ok ts else err expected_colon
parse_colon _ = err expected_colon

-- `seen_keys.contains_key(&key)`
abbrev pub check_key : Str → List Str → Result Str
check_key key seen = if seen_path key seen then err duplicate_key else ok key

-- `if iter.peek().is_some()`
abbrev pub only : {A : Type 0} → A × Tokens → Result A
only (a, end) = ok a
only (a, next t ts) = err trailing_tokens

-- `parse_object`, over what its loop gives for tokens that are not empty.
abbrev pub parse_object : Tokens → Result Entries → Result JsonNode
parse_object end fields = ok (object nil)
parse_object (next t ts) fields = fields and_then λ entries. ok (object entries)

abbrev pub parse_comma : Tokens → Result Tokens
parse_comma (next (punct c) ts) = if c == b',' then ok ts else err expected_comma
parse_comma _ = err expected_comma

-- The override list, if the input begins with one, and what is left of the input.
abbrev pub parse_prefix : Tokens → Result (KeyOverrides × Tokens)
parse_prefix (next (group bracket inner) ts) =
    parse_overrides inner and_then λ ovr. parse_comma ts and_then λ rest. ok (ovr, rest)
parse_prefix ts = ok (no_overrides, ts)

abbrev pub expect_object : JsonNode → Result Entries
expect_object (object entries) = ok entries
expect_object _ = err expected_object

module _ (parse_f64 : Str → Option ℕ) where
  abbrev pub parse_negative : Tokens → Result (JsonNode × Tokens)
  parse_negative (next (literal s) ts) =
      parse_literal_str parse_f64 (b'-' ∷ s) and_then λ node. ok (node, ts)
  parse_negative _ = err expected_literal

  unfoldable mutual
    unfolding parse_literal_str parse_key

    pub parse_value : ℕ → Tokens → Result (JsonNode × Tokens)
    parse_value f end = err unexpected_end
    parse_value f (next (ident s) ts) = parse_ident s ts
    parse_value f (next (punct c) ts) =
        if c == b'-' then parse_negative ts else err unexpected_token
    parse_value f (next (literal s) ts) =
        parse_literal_str parse_f64 s and_then λ node. ok (node, ts)
    parse_value f (next (group bracket inner) ts) = err unexpected_token
    parse_value f (next (group invisible inner) ts) = err unexpected_token
    parse_value zero (next (group brace inner) ts) = err out_of_fuel
    parse_value zero (next (group parenthesis inner) ts) = err out_of_fuel
    parse_value (suc f) (next (group brace inner) ts) =
        parse_object inner (parse_fields f [] inner) and_then λ node. ok (node, ts)
    parse_value (suc f) (next (group parenthesis inner) ts) =
        parse_value f inner and_then λ parsed. only parsed and_then λ node. ok (node, ts)

    -- The loop, with the keys seen so far.
    pub parse_fields : ℕ → List Str → Tokens → Result Entries
    parse_fields zero seen ts = err out_of_fuel
    parse_fields (suc f) seen ts = parse_key ts and_then λ (key, ts₁).
        parse_colon ts₁ and_then λ ts₂. parse_value f ts₂ and_then λ (value, ts₃).
        check_key key seen and_then λ _. elim (after_round ts₃) [
          | stop ↦ ok (entry key value nil)
          | wrong ↦ err expected_comma
          | again ts' ↦ parse_fields f (key ∷ seen) ts' and_then λ rest. ok (entry key value rest)
        ]

  unfoldable pub parse_wide_log_input : ℕ → Tokens → Result (KeyOverrides × Entries)
  unfolding parse_overrides parse_value
  parse_wide_log_input f ts = parse_prefix ts and_then λ (ovr, ts₁).
      parse_value f ts₁ and_then λ parsed.
      only parsed and_then λ node. expect_object node and_then λ entries. ok (ovr, entries)
