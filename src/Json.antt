-- ===== src/Json.antt =====
-- src/wide_event.rs, the direct serializer: `write_event`, `write_value` and `write_json_str`.
-- The writers are functions into the text written. The sink is the `Vec<u8>` of `default_emit`,
-- whose `write_all` does not fail, and the bytes are the text in UTF-8: every byte string in the
-- source is ASCII, and the last arm of `write_json_str` encodes its character.
pub mod Tree
pub mod Reader
pub mod Escape
pub mod Utf8
pub mod Lines
pub mod RoundTrip
pub mod Meaning
pub mod Steps
use wide_log.Prelude.{
  ℕ, suc, ◌+◌, ◌*◌, ◌/◌, ◌%◌, ◌<◌, Bool, true, false, not, ◌&&◌, List, [], ◌∷◌, ◌++◌, Str, chars,
  ltb, ◌==◌, if◌then◌else◌,
}
use wide_log.Prelude.Int.{ℤ}
use wide_log.Key.{Key}
use wide_log.Value.{
  Value, Items, WideEvent, Slots, LogEntry, event, null, bool, i64, u64, f64, str, static_str,
  array, object, nil, cons, end, vacant, filled, is_finite, as_str,
}

-- The crates itoa and ryu: the decimal texts of an `i64`, a `u64` and the 64-bit pattern of a float.
pub record NumberFormat : Type 0 where
  pub i64_text : ℤ → Str
  pub u64_text : ℕ → Str
  pub f64_text : ℕ → Str

-- A digit of `{:x}`.
abbrev pub hex_digit : ℕ → ℕ
hex_digit d = if ltb d 10 then b'0' + d else 87 + d

-- `format!("\\u{:04x}", c as u32)`, for a character that four digits hold.
abbrev pub unicode_escape : ℕ → Str
unicode_escape c =
    b'\\'
    ∷ b'u'
    ∷ hex_digit (c / 4096 % 16)
    ∷ hex_digit (c / 256 % 16)
    ∷ hex_digit (c / 16 % 16)
    ∷ hex_digit (c % 16)
    ∷ []

-- One round of the loop of `write_json_str`.
unfoldable pub escape_char : ℕ → Str
escape_char c =
    if c == b'"'
    then b'\\' ∷ b'"' ∷ []
    else if c == b'\\'
    then b'\\' ∷ b'\\' ∷ []
    else if c == 0x0A
    then b'\\' ∷ b'n' ∷ []
    else if c == 0x09
    then b'\\' ∷ b't' ∷ []
    else if c == 0x0D
    then b'\\' ∷ b'r' ∷ []
    else if c == 0x08
    then b'\\' ∷ b'b' ∷ []
    else if c == 0x0C
    then b'\\' ∷ b'f' ∷ []
    else if c == 0x2028
    then unicode_escape 0x2028
    else if c == 0x2029
    then unicode_escape 0x2029
    else if ltb c 0x20
    then unicode_escape c
    else c ∷ []

unfoldable pub escape_chars : Str → Str
escape_chars [] = []
escape_chars (c ∷ s) = escape_char c ++ escape_chars s

unfoldable pub write_json_str : Str → Str
write_json_str s = b'"' ∷ (escape_chars s ++ b'"' ∷ [])

-- `if !first { w.write_all(b",") }`
abbrev pub sep : Bool → Str
sep first = if first then [] else b',' ∷ []

module _ {K : Type 0} (key : Key K) (fmt : NumberFormat) where
  -- The object written for one log entry.
  unfoldable pub write_entry : LogEntry → Str
  write_entry entry =
      b'{'
      ∷ (write_json_str key.level_key
          ++ b':'
            ∷ (write_json_str entry.level
                ++ b','
                  ∷ (write_json_str key.message_key
                      ++ b':' ∷ (write_json_str (as_str entry.message) ++ b'}' ∷ []))))

  -- The loop over the log entries; `first` is `j == 0`.
  unfoldable pub write_entries : Bool → List LogEntry → Str
  write_entries first [] = []
  write_entries first (entry ∷ rest) = sep first ++ (write_entry entry ++ write_entries false rest)

  -- `if !ev.log_entries.is_empty() { ... }`
  unfoldable pub write_log : Bool → List LogEntry → Str
  write_log first [] = []
  write_log first (entry ∷ rest) =
      sep first
      ++ (write_json_str key.log_key
          ++ b':' ∷ b'[' ∷ (write_entries true (entry ∷ rest) ++ b']' ∷ []))

  -- The variable `first` after the loop over `K::KEYS`.
  unfoldable pub first_after : Bool → Slots → List K → Bool
  first_after first end keys = first
  first_after first (vacant s) [] = first
  first_after first (filled v s) [] = first
  first_after first (vacant s) (k ∷ keys) = first_after first s keys
  first_after first (filled v s) (k ∷ keys) = first_after false s keys

  unfoldable mutual
    pub write_value : Value → Str
    write_value null = chars "null"
    write_value (bool true) = chars "true"
    write_value (bool false) = chars "false"
    write_value (i64 i) = fmt.i64_text i
    write_value (u64 u) = fmt.u64_text u
    write_value (f64 f) = if not (is_finite f) then chars "null" else fmt.f64_text f
    write_value (str s) = write_json_str s
    write_value (static_str s) = write_json_str s
    write_value (array xs) = b'[' ∷ (write_items true xs ++ b']' ∷ [])
    write_value (object e) = write_event e

    -- The loop over an array; `first` is `i == 0`.
    pub write_items : Bool → Items → Str
    write_items first nil = []
    write_items first (cons v xs) = sep first ++ (write_value v ++ write_items false xs)

    pub write_event : WideEvent → Str
    write_event (event s l c n) =
        b'{'
        ∷ (write_slots true s key.keys ++ (write_log (first_after true s key.keys) l ++ b'}' ∷ []))

    -- The loop over `K::KEYS.iter().enumerate()`, beside the slot of the same index.
    pub write_slots : Bool → Slots → List K → Str
    write_slots first end keys = []
    write_slots first (vacant s) [] = []
    write_slots first (filled v s) [] = []
    write_slots first (vacant s) (k ∷ keys) = write_slots first s keys
    write_slots first (filled v s) (k ∷ keys) =
        sep first
        ++ (write_json_str (key.as_str k) ++ b':' ∷ (write_value v ++ write_slots false s keys))
