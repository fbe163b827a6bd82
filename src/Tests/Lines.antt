-- ===== src/Tests/Lines.antt =====
-- The theorems on JSON text at a concrete schema.
use wide_log.Prelude.{
  ℕ, List, ◌≡◌, some, none, [], ◌∷◌, ◌++◌, Str, chars, All, ◌≤◌, ◌==◌, true, refl, arith,
}
use wide_log.Prelude.Int.{negsuc}
use wide_log.Value.{WideEvent, event, filled, vacant, end, object, i64, static_str, static}
use wide_log.Json.{
  write_json_str, write_event, write_slots, write_value, write_log, escape_chars, escape_char,
}
use wide_log.Json.Tree.{serialize_event}
use wide_log.Json.Reader.{read_string, read_value}
use wide_log.Json.Reader
use wide_log.Json.Meaning.{json}
use wide_log.Json.Escape.{read-write_json_str}
use wide_log.Json.RoundTrip.{read-write_event, weight_event}
use wide_log.Json.Utf8.{utf8, serialize_to, emitted_line}
use wide_log.Json.Lines.{emitted_line-one_line, AllSafe}
use wide_log.Capture.{on_event}
use wide_log.Capture.Emitted.{default_emit, event_record, default_emit-not_captured}
use wide_log.Tests.{fields, unary, unary-IsNumberFormat}

-- A quote, a newline, a control character and a line separator.
abbrev awkward : Str
awkward = b'"' ∷ b'a' ∷ 0x0A ∷ 0x01 ∷ 0x2028 ∷ []

read-write_json_str_example :
    (tail : Str) × (write_json_str awkward ++ chars ", " ≡ b'"' ∷ tail)
    × (read_string Reader.plain tail ≡ some (awkward, chars ", "))
read-write_json_str_example = read-write_json_str awkward (chars ", ")

abbrev nested : WideEvent
nested =
    event
      (filled (object (event (vacant (filled (i64 (negsuc 1)) end)) [] none 1))
        (vacant (filled (static_str awkward) end)))
      (record { level = chars "info"; message = static awkward } ∷ []) none 2

read-write_event_example :
    read_value 200 (write_event fields unary nested ++ chars ", ")
    ≡ some (json unary (serialize_event fields nested), chars ", ")
unfolding weight_event
read-write_event_example =
    read-write_event fields unary unary-IsNumberFormat nested 200 (chars ", ") (omega arith)

emitted_line-one_line_example :
    (text : Str) × (emitted_line fields unary nested ≡ utf8 text ++ 0x0A ∷ [])
    × All (λ b. 32 ≤ b) (utf8 text)
    × AllSafe text
emitted_line-one_line_example = emitted_line-one_line fields unary unary-IsNumberFormat nested

-- An event of one number, whose bytes are its characters.
abbrev plain_event : WideEvent
plain_event = event (vacant (filled (i64 (negsuc 1)) end)) [] none 1

reads_back :
    (λ (bytes : List ℕ). some bytes) (emitted_line fields unary plain_event)
    ≡ some (write_event fields unary plain_event ++ 0x0A ∷ [])
unfolding emitted_line serialize_to utf8 write_event write_slots write_value write_log escape_chars
    escape_char write_json_str
reads_back = refl

default_emit-not_captured_example :
    (text : Str) × (default_emit fields unary (λ bytes. some bytes) plain_event
      ≡ some (event_record text))
    × (emitted_line fields unary plain_event ≡ utf8 text ++ 0x0A ∷ [])
    × (on_event (λ c. c == b' ') none true (event_record text) (some nested) ≡ some nested)
default_emit-not_captured_example =
    default_emit-not_captured fields unary unary-IsNumberFormat (λ bytes. some bytes)
      (λ c. c == b' ') plain_event (some nested) none true reads_back
