-- ===== src/Parse/Overrides.antt =====
-- The override list of wide-log-macros/src/parse.rs: `parse_overrides` and what it calls.
pub mod Plain
pub mod Valid
pub mod Total
pub mod Meaning
use wide_log.Prelude.{
  ℕ, zero, suc, Bool, true, false, ◌||◌, Option, none, some, List, [], ◌∷◌, ◌++◌, Str, chars,
  str_eq, contains, ◌==◌, if◌then◌else◌,
}
use wide_log.Parse
use wide_log.Parse.{
  Result, ok, err, ◌and_then◌, Token, Tokens, end, next, ident, punct, literal, group, bracket,
  Delimiter, expected_path, expected_arrow, expected_comma, empty_overrides, invalid_override,
  duplicate_override, unknown_override, out_of_fuel, weight,
}
use wide_log.Parse.Text.{unescape_json_string}

pub record LogOverride : Type 0 where
  pub key : Option Str
  pub level : Option Str
  pub message : Option Str

pub record EventOverride : Type 0 where
  pub key : Option Str
  pub id : Option Str
  pub timestamp : Option Str

pub record DurationOverride : Type 0 where
  pub key : Option Str
  pub total_ms : Option Str

pub record KeyOverrides : Type 0 where
  pub log : LogOverride
  pub event : EventOverride
  pub duration : DurationOverride

-- `KeyOverrides::default`
abbrev pub no_overrides : KeyOverrides
no_overrides = record {
  log = record { key = none; level = none; message = none };
  event = record { key = none; id = none; timestamp = none };
  duration = record { key = none; total_ms = none };
}

-- An identifier, or two with a dot between: `Vec<String>` of length 1 or 2.
pub data OverridePath : Type 0 where
  top : Str → OverridePath
  sub : Str → Str → OverridePath

unfoldable pub parse_override_path : Tokens → Result (OverridePath × Tokens)
parse_override_path (next (ident first) (next (punct c) (next (ident second) ts))) =
    if c == b'.'
    then ok (sub first second, ts)
    else ok (top first, next (punct c) (next (ident second) ts))
parse_override_path (next (ident first) (next (punct c) ts)) =
    if c == b'.' then err expected_path else ok (top first, next (punct c) ts)
parse_override_path (next (ident first) ts) = ok (top first, ts)
parse_override_path _ = err expected_path

-- `validate_override_value`: true if the value is fine.
unfoldable pub validate_override_value : Str → Bool
validate_override_value [] = false
validate_override_value (c ∷ s) =
    if contains b'.' (c ∷ s)
    then false
    else if contains b'"' (c ∷ s) || contains b'\\' (c ∷ s)
    then false
    else true

-- `if field.is_some() { return Err(...) }; field = Some(value)`
abbrev pub assign : Option Str → Str → Result (Option Str)
assign (some old) value = err duplicate_override
assign none value = ok (some value)

unfoldable pub assign_top : KeyOverrides → Str → Str → Result KeyOverrides
assign_top ovr name value =
    if str_eq name (chars "Log")
    then assign ovr.log.key value
      and_then (λ o. ok (record ovr { log = record ovr.log { key = o } }))
    else if str_eq name (chars "Event")
    then assign ovr.event.key value
      and_then (λ o. ok (record ovr { event = record ovr.event { key = o } }))
    else if str_eq name (chars "Duration")
    then assign ovr.duration.key value
      and_then (λ o. ok (record ovr { duration = record ovr.duration { key = o } }))
    else err unknown_override

-- `(parent, sub) == (p, s)`
abbrev pub both_eq : Str → Str → Str → Str → Bool
both_eq parent name p s = if str_eq parent p then str_eq name s else false

unfoldable pub assign_sub : KeyOverrides → Str → Str → Str → Result KeyOverrides
assign_sub ovr parent name value =
    if both_eq parent name (chars "Log") (chars "Level")
    then assign ovr.log.level value
      and_then (λ o. ok (record ovr { log = record ovr.log { level = o } }))
    else if both_eq parent name (chars "Log") (chars "Message")
    then assign ovr.log.message value
      and_then (λ o. ok (record ovr { log = record ovr.log { message = o } }))
    else if both_eq parent name (chars "Event") (chars "Id")
    then assign ovr.event.id value
      and_then (λ o. ok (record ovr { event = record ovr.event { id = o } }))
    else if both_eq parent name (chars "Event") (chars "Timestamp")
    then assign ovr.event.timestamp value
      and_then (λ o. ok (record ovr { event = record ovr.event { timestamp = o } }))
    else if both_eq parent name (chars "Duration") (chars "TotalMs")
    then assign ovr.duration.total_ms value
      and_then (λ o. ok (record ovr { duration = record ovr.duration { total_ms = o } }))
    else err unknown_override

abbrev pub assign_path : KeyOverrides → OverridePath → Str → Result KeyOverrides
assign_path ovr (top name) value = assign_top ovr name value
assign_path ovr (sub parent name) value = assign_sub ovr parent name value

unfoldable pub assign_override : KeyOverrides → OverridePath → Str → Result KeyOverrides
unfolding assign_top assign_sub
assign_override ovr path value =
    if validate_override_value value then assign_path ovr path value else err invalid_override

-- The two tokens of `=>`.
abbrev pub parse_arrow : Tokens → Result Tokens
parse_arrow (next (punct c) (next (punct d) ts)) =
    if c == b'=' then if d == b'>' then ok ts else err expected_arrow else err expected_arrow
parse_arrow _ = err expected_arrow

abbrev pub override_string : Str → Result Str
override_string [] = err invalid_override
override_string (c ∷ s) = if c == b'"' then unescape_json_string (c ∷ s) else err invalid_override

abbrev pub parse_override_value : Tokens → Result (Str × Tokens)
parse_override_value (next (literal s) ts) = override_string s and_then λ value. ok (value, ts)
parse_override_value _ = err invalid_override

-- `path.join(".")`
abbrev pub path_str : OverridePath → Str
path_str (top name) = name
path_str (sub parent name) = parent ++ b'.' ∷ name

abbrev pub seen_path : Str → List Str → Bool
seen_path path [] = false
seen_path path (p ∷ seen) = if str_eq p path then true else seen_path path seen

-- One round of the loop: the overrides so far, the paths seen, and what follows.
abbrev pub parse_override :
    KeyOverrides → List Str → Tokens → Result (KeyOverrides × (List Str × Tokens))
parse_override ovr seen ts = parse_override_path ts and_then λ (path, ts₁).
    parse_arrow ts₁ and_then λ ts₂. parse_override_value ts₂ and_then λ (value, ts₃).
    if seen_path (path_str path) seen
    then err duplicate_override
    else assign_override ovr path value and_then λ ovr'. ok (ovr', (path_str path ∷ seen, ts₃))

-- What follows a round: the end, or a comma that may be the last token.
pub data After : Type 0 where
  stop : After
  again : Tokens → After
  wrong : After

abbrev pub after_round : Tokens → After
after_round end = stop
after_round (next (punct c) end) = if c == b',' then stop else wrong
after_round (next (punct c) (next t ts)) = if c == b',' then again (next t ts) else wrong
after_round (next _ ts) = wrong

-- The loop, on fuel.
unfoldable pub override_loop : ℕ → KeyOverrides → List Str → Tokens → Result KeyOverrides
unfolding parse_override_path assign_override
override_loop zero ovr seen ts = err out_of_fuel
override_loop (suc f) ovr seen ts = parse_override ovr seen ts and_then λ (ovr', (seen', rest)).
    elim (after_round rest) [
      | stop ↦ ok ovr'
      | wrong ↦ err expected_comma
      | again ts' ↦ override_loop f ovr' seen' ts'
    ]

-- On the bracketed group; the caller has seen that it is one.
unfoldable pub parse_overrides : Tokens → Result KeyOverrides
parse_overrides end = err empty_overrides
parse_overrides (next t ts) = override_loop (weight (next t ts)) no_overrides [] (next t ts)
