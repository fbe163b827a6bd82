-- ===== src/Tests/Macros.antt =====
-- The theorems on the macro's input at concrete tokens.
use wide_log.Prelude.{◌≡◌, ◌↔◌, refl, none, some, [], ◌∷◌, chars, arith, contains, str_eq}
use wide_log.Json.{write_json_str}
use wide_log.Parse.{
  ok, Tokens, end, next, ident, punct, literal, group, brace, bracket, Entries, nil, entry, object,
  null,
}
use wide_log.Parse.Text.{strip_quote, unescape_from, turn, unescape_json_string}
use wide_log.Parse.Unescape.{unescape_json_string-write_json_str}
use wide_log.Parse.Overrides
use wide_log.Parse.Overrides.{KeyOverrides, no_overrides, parse_overrides}
use wide_log.Parse.Overrides.Valid.{IsValid}
use wide_log.Parse.Overrides.Meaning.{Items, IsItems, IsDistinct, overrides_of}
use wide_log.Parse.Overrides.Meaning.Exact.{parse_overrides-exact}
use wide_log.Parse.Tree.{parse_wide_log_input, parse_value, parse_prefix}
use wide_log.Parse.Grammar.{IsValue}
use wide_log.Parse.Grammar.Complete.{parse_wide_log_input-IsValue}
use wide_log.Macro.{expand}
use wide_log.Macro.Expanded.{IsExpanded, expand-IsExpanded}
use wide_log.Parse.Verdicts.{Decides}
use wide_log.Parse.Total.{parse_wide_log_input-Decides}
use wide_log.Parse.Unique.{IsUniqueEntries, parse_wide_log_input-IsUnique}

unescape_json_string-write_json_str_example :
    unescape_json_string (write_json_str (b'a' ∷ 0x01 ∷ 0x2028 ∷ b'"' ∷ []))
    ≡ ok (b'a' ∷ 0x01 ∷ 0x2028 ∷ b'"' ∷ [])
unescape_json_string-write_json_str_example =
    unescape_json_string-write_json_str (b'a' ∷ 0x01 ∷ 0x2028 ∷ b'"' ∷ [])

-- `Log.Level => "lvl",`
abbrev renames : Tokens
renames = next (ident (chars "Log")) (
    next (punct b'.') (
      next (ident (chars "Level")) (
        next (punct b'=') (
          next (punct b'>')
            (next (literal (b'"' ∷ b'l' ∷ b'v' ∷ b'"' ∷ [])) (next (punct b',') end))))))

abbrev renamed : KeyOverrides
renamed = record no_overrides {
  log = record { key = none; level = some (chars "lv"); message = none };
}

renames-parsed : parse_overrides renames ≡ ok renamed
unfolding parse_overrides unescape_json_string Overrides.override_loop strip_quote unescape_from
    turn Overrides.validate_override_value contains str_eq
renames-parsed = refl

parse_overrides-exact_example :
    (parse_overrides renames ≡ ok renamed)
    ↔ ((items : Items) × IsItems renames items × IsDistinct items × (overrides_of items ≡ renamed))
parse_overrides-exact_example = parse_overrides-exact renames renamed

-- `[Log.Level => "lv",], { user: { id: null }, }`
abbrev input : Tokens
input = next (group bracket renames) (
    next (punct b',') (
      next
        (group brace (
          next (ident (chars "user")) (
            next (punct b':') (
              next
                (group brace
                  (next (ident (chars "id")) (next (punct b':') (next (ident (chars "null")) end))))
                (next (punct b',') end)))))
        end))

abbrev tree : Entries
tree = entry (chars "user") (object (entry (chars "id") null nil)) nil

input-parsed : parse_wide_log_input (λ s. none) 9 input ≡ ok (renamed, tree)
unfolding parse_wide_log_input parse_value parse_overrides unescape_json_string
    Overrides.override_loop strip_quote unescape_from turn Overrides.validate_override_value
    contains str_eq
input-parsed = refl

parse_wide_log_input-IsUnique_example : IsValid renamed × IsUniqueEntries tree
parse_wide_log_input-IsUnique_example =
    parse_wide_log_input-IsUnique (λ s. none) 9 input renamed tree input-parsed

parse_wide_log_input-Decides_example : Decides (parse_wide_log_input (λ s. none) 30 input)
parse_wide_log_input-Decides_example =
    parse_wide_log_input-Decides (λ s. none) 30 input (omega arith)

parse_wide_log_input-IsValue_example :
    (parse_wide_log_input (λ s. none) 30 input ≡ ok (renamed, tree)) ↔ (
      (rest : Tokens) × (parse_prefix input ≡ ok (renamed, rest))
      × IsValue (λ s. none) rest (object tree) end)
parse_wide_log_input-IsValue_example =
    parse_wide_log_input-IsValue (λ s. none) 30 input renamed tree (omega arith)

expand-IsExpanded_example :
    IsExpanded (λ c. c ∷ []) (λ s. none) input (expand (λ c. c ∷ []) (λ s. none) 30 input)
expand-IsExpanded_example = expand-IsExpanded (λ c. c ∷ []) (λ s. none) 30 input (omega arith)
