-- ===== src/Parse/Text.antt =====
-- `unescape_json_string` of wide-log-macros/src/parse.rs.
use wide_log.Prelude.{
  ℕ, ◌+◌, ◌*◌, ◌-◌, ◌&&◌, Option, none, some, [], ◌∷◌, ◌++◌, Str, length, ltb, leb, ◌==◌,
  if◌then◌else◌,
}
use wide_log.Parse.{
  ParseError, Result, ok, err, invalid_string, unterminated_escape, invalid_escape, invalid_unicode,
}

-- `char::to_digit(16)`
unfoldable pub to_digit : ℕ → Option ℕ
to_digit c =
    if leb b'0' c && leb c b'9'
    then some (c - b'0')
    else if leb b'a' c && leb c b'f'
    then some (c - 87)
    else if leb b'A' c && leb c b'F'
    then some (c - 55)
    else none

abbrev pub hex_number : ℕ → Str → Option ℕ
hex_number acc [] = some acc
hex_number acc (c ∷ s) = elim (to_digit c) [ none ↦ none | some d ↦ hex_number (acc * 16 + d) s ]

-- `u32::from_str_radix(hex, 16)`, for at most four characters: a plus sign may come first.
unfoldable pub from_str_radix_16 : Str → Option ℕ
from_str_radix_16 [] = none
from_str_radix_16 (c ∷ []) = hex_number 0 (c ∷ [])
from_str_radix_16 (c ∷ d ∷ s) = if c == b'+' then hex_number 0 (d ∷ s) else hex_number 0 (c ∷ d ∷ s)

-- `char::from_u32(code).unwrap_or('\u{FFFD}')`, for a code below 2 ^ 16
unfoldable pub char_of : ℕ → ℕ
char_of code = if leb 0xD800 code && leb code 0xDFFF then 0xFFFD else code

-- The escapes of one letter.
unfoldable pub short_escape : ℕ → Option ℕ
short_escape c =
    if c == b'"'
    then some b'"'
    else if c == b'\\'
    then some b'\\'
    else if c == b'n'
    then some 0x0A
    else if c == b't'
    then some 0x09
    else if c == b'r'
    then some 0x0D
    else if c == b'/'
    then some b'/'
    else if c == b'b'
    then some 0x08
    else if c == b'f'
    then some 0x0C
    else none

-- Where the loop stands: between characters, behind a backslash, or behind `\u` and these digits.
pub data Place : Type 0 where
  plain escape : Place
  unicode : Str → Place

-- What a character does.
pub data Turn : Type 0 where
  emit : Str → Place → Turn
  refuse : ParseError → Turn

abbrev pub unicode_turn : Option ℕ → Turn
unicode_turn none = refuse invalid_unicode
unicode_turn (some code) = emit (char_of code ∷ []) plain

abbrev pub escape_turn : Option ℕ → Turn
escape_turn none = refuse invalid_escape
escape_turn (some c) = emit (c ∷ []) plain

unfoldable pub turn : Place → ℕ → Turn
turn plain c = if c == b'\\' then emit [] escape else emit (c ∷ []) plain
turn escape c = if c == b'u' then emit [] (unicode []) else escape_turn (short_escape c)
turn (unicode digits) c =
    if ltb (length digits) 3
    then emit [] (unicode (digits ++ c ∷ []))
    else unicode_turn (from_str_radix_16 (digits ++ c ∷ []))

abbrev pub push : Str → Result Str → Result Str
push out (ok s) = ok (out ++ s)
push out (err e) = err e

-- `chars.next().unwrap_or('0')` up to four digits
abbrev pub pad : Str → Str
pad [] = b'0' ∷ b'0' ∷ b'0' ∷ b'0' ∷ []
pad (a ∷ []) = a ∷ b'0' ∷ b'0' ∷ b'0' ∷ []
pad (a ∷ b ∷ []) = a ∷ b ∷ b'0' ∷ b'0' ∷ []
pad (a ∷ b ∷ c ∷ s) = a ∷ b ∷ c ∷ b'0' ∷ []

abbrev pub at_end : Turn → Result Str
at_end (emit out place) = ok out
at_end (refuse e) = err e

unfoldable pub unescape_from : Place → Str → Result Str
unescape_from plain [] = ok []
unescape_from escape [] = err unterminated_escape
unescape_from (unicode digits) [] = at_end (unicode_turn (from_str_radix_16 (pad digits)))
unescape_from place (c ∷ s) = elim (turn place c) [
  | emit out place' ↦ push out (unescape_from place' s)
  | refuse e ↦ err e
]

-- All but the last character, which must be a quote.
unfoldable pub strip_quote : Str → Option Str
strip_quote [] = none
strip_quote (c ∷ []) = if c == b'"' then some [] else none
strip_quote (c ∷ d ∷ s) = elim (strip_quote (d ∷ s)) [ none ↦ none | some t ↦ some (c ∷ t) ]

abbrev pub unescape_inner : Option Str → Result Str
unescape_inner none = err invalid_string
unescape_inner (some inner) = unescape_from plain inner

unfoldable pub unescape_json_string : Str → Result Str
unescape_json_string [] = err invalid_string
unescape_json_string (c ∷ s) =
    if c == b'"' then unescape_inner (strip_quote s) else err invalid_string
