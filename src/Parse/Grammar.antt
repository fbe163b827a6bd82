-- ===== src/Parse/Grammar.antt =====
-- The syntax that `parse_value` of wide-log-macros/src/parse.rs reads, as a grammar over token trees: no
-- loop, no fuel and no set of the keys seen. A literal's text has the meaning that `parse_literal_str` and
-- `unescape_json_string` give it.
pub mod Sound
pub mod Complete
use wide_log.Prelude.{ℕ, ◌≡◌, Bool, true, false, ◌||◌, Option, ◌∷◌, Str, chars, str_eq}
use wide_log.Parse.{
  ok, JsonNode, Entries, null, bool, object, marker, nil, entry, Marker, Token, Tokens, end, next,
  ident, punct, literal, group, brace, parenthesis,
}
use wide_log.Parse.Literals.{parse_literal_str}
use wide_log.Parse.Tree.{key_string}
use wide_log.Parse.Unique.{has_key}

-- A key is a string literal, or an identifier that is no constant of JSON.
abbrev pub is_constant : Str → Bool
is_constant s = str_eq s (chars "true") || str_eq s (chars "false") || str_eq s (chars "null")

abbrev pub IsKey : Token → Str → Type 0
IsKey (literal s) key = key_string s ≡ ok key
IsKey (ident s) key = (is_constant s ≡ false) × (s ≡ key)
IsKey _ key = ⊥

-- What may stand behind the last field: nothing, or a comma.
abbrev pub IsEnd : Tokens → Type 0
IsEnd end = Unit
IsEnd (next (punct c) end) = c ≡ b','
IsEnd _ = ⊥

-- The fields of one object have different keys.
abbrev pub HasDistinctKeys : Entries → Type 0
HasDistinctKeys nil = Unit
HasDistinctKeys (entry k v es) = (has_key k es ≡ false) × HasDistinctKeys es

-- `IsValue ts v rest`: the tokens begin with the node `v`, and `rest` follows it.
mutual
  pub data IsValue (f64 : Str → Option ℕ) : Tokens → JsonNode → Tokens → Type 0 where
    true_word :
        {s : Str} {ts : Tokens} → s ≡ chars "true" → IsValue f64 (next (ident s) ts) (bool true) ts
    false_word :
        {s : Str} {ts : Tokens}
        → s ≡ chars "false"
        → IsValue f64 (next (ident s) ts) (bool false) ts
    null_word : {s : Str} {ts : Tokens} → s ≡ chars "null" → IsValue f64 (next (ident s) ts) null ts
    duration_marker :
        {s : Str} {c : ℕ} {ts : Tokens}
        → s ≡ chars "duration"
        → c ≡ b'!'
        → IsValue f64 (next (ident s) (next (punct c) ts)) (marker Marker.duration) ts
    counter_marker :
        {s : Str} {c : ℕ} {ts : Tokens}
        → s ≡ chars "counter"
        → c ≡ b'!'
        → IsValue f64 (next (ident s) (next (punct c) ts)) (marker Marker.counter) ts
    negative :
        {c : ℕ} {s : Str} {v : JsonNode} {ts : Tokens}
        → c ≡ b'-'
        → parse_literal_str f64 (b'-' ∷ s) ≡ ok v
        → IsValue f64 (next (punct c) (next (literal s) ts)) v ts
    plain :
        {s : Str} {v : JsonNode} {ts : Tokens}
        → parse_literal_str f64 s ≡ ok v
        → IsValue f64 (next (literal s) ts) v ts
    empty_braces : {ts : Tokens} → IsValue f64 (next (group brace end) ts) (object nil) ts
    braces :
        {inner : Tokens} {es : Entries} {ts : Tokens}
        → IsFields f64 inner es
        → HasDistinctKeys es
        → IsValue f64 (next (group brace inner) ts) (object es) ts
    parens :
        {inner : Tokens} {v : JsonNode} {ts : Tokens}
        → IsValue f64 inner v end
        → IsValue f64 (next (group parenthesis inner) ts) v ts

  -- One field or more, with commas between them and perhaps one behind the last.
  pub data IsFields (f64 : Str → Option ℕ) : Tokens → Entries → Type 0 where
    one_field :
        {t : Token} {key : Str} {c : ℕ} {ts : Tokens} {v : JsonNode} {rest : Tokens}
        → IsKey t key
        → c ≡ b':'
        → IsValue f64 ts v rest
        → IsEnd rest
        → IsFields f64 (next t (next (punct c) ts)) (entry key v nil)
    more_fields :
        {t : Token} {key : Str} {c : ℕ} {ts : Tokens} {v : JsonNode} {d : ℕ} {u : Token}
        {us : Tokens} {es : Entries}
        → IsKey t key
        → c ≡ b':'
        → IsValue f64 ts v (next (punct d) (next u us))
        → d ≡ b','
        → IsFields f64 (next u us) es
        → IsFields f64 (next t (next (punct c) ts)) (entry key v es)
