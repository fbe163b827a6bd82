-- ===== src/Json/Reader.antt =====
-- A reader of compact JSON text (no white space between tokens), the independent description that
-- the serializer of src/wide_event.rs is held to. It is no part of the program.
use wide_log.Prelude.{
  ℕ, zero, suc, ◌+◌, ◌-◌, ◌*◌, Bool, true, false, ◌&&◌, ◌||◌, Option, none, some, [], ◌∷◌, ◌++◌,
  Str, chars, ltb, leb, ◌==◌, if◌then◌else◌, ◌>>=◌,
}

-- A number is kept as its text.
mutual
  pub data Json : Type 0 where
    null : Json
    bool : Bool → Json
    number : Str → Json
    string : Str → Json
    array : JsonItems → Json
    object : JsonFields → Json

  pub data JsonItems : Type 0 where
    nil : JsonItems
    cons : Json → JsonItems → JsonItems

  pub data JsonFields : Type 0 where
    done : JsonFields
    field : Str → Json → JsonFields → JsonFields

-- Inside a string: plain, after a backslash, or before `n` more hex digits of a `\u` escape.
pub data Mode : Type 0 where
  plain escaped : Mode
  hex : ℕ → ℕ → Mode

-- What a character does: it gives characters, ends the string, or is refused.
pub data Step : Type 0 where
  emit : Str → Mode → Step
  finish fail : Step

unfoldable pub hex_value : ℕ → Option ℕ
hex_value c =
    if leb b'0' c && leb c b'9'
    then some (c - b'0')
    else if leb b'a' c && leb c b'f'
    then some (c - 87)
    else if leb b'A' c && leb c b'F'
    then some (c - 55)
    else none

abbrev plain_step : ℕ → Step
plain_step c =
    if c == b'"'
    then finish
    else if c == b'\\'
    then emit [] escaped
    else if ltb c 0x20
    then fail
    else emit (c ∷ []) plain

abbrev escaped_step : ℕ → Step
escaped_step c =
    if c == b'u'
    then emit [] (hex 3 0)
    else if c == b'"' || c == b'\\' || c == b'/'
    then emit (c ∷ []) plain
    else if c == b'n'
    then emit (0x0A ∷ []) plain
    else if c == b't'
    then emit (0x09 ∷ []) plain
    else if c == b'r'
    then emit (0x0D ∷ []) plain
    else if c == b'b'
    then emit (0x08 ∷ []) plain
    else if c == b'f'
    then emit (0x0C ∷ []) plain
    else fail

abbrev hex_step : ℕ → ℕ → Option ℕ → Step
hex_step n acc none = fail
hex_step zero acc (some d) = emit ((acc * 16 + d) ∷ []) plain
hex_step (suc n) acc (some d) = emit [] (hex n (acc * 16 + d))

unfoldable pub step : Mode → ℕ → Step
unfolding hex_value
step plain c = plain_step c
step escaped c = escaped_step c
step (hex n acc) c = hex_step n acc (hex_value c)

abbrev pub push : Str → Option (Str × Str) → Option (Str × Str)
push out none = none
push out (some (s, rest)) = some (out ++ s, rest)

-- A string's characters up to its closing quote, and the text behind it.
unfoldable pub read_string : Mode → Str → Option (Str × Str)
read_string m [] = none
read_string m (c ∷ rest) = elim (step m c) [
  | emit out m' ↦ push out (read_string m' rest)
  | finish ↦ some ([], rest)
  | fail ↦ none
]

abbrev pub is_number_char : ℕ → Bool
is_number_char c =
    leb b'0' c && leb c b'9' || c == b'-' || c == b'+' || c == b'.' || c == b'e' || c == b'E'

-- The longest prefix of number characters, and the rest.
unfoldable pub span_number : Str → Str × Str
span_number [] = ([], [])
span_number (c ∷ rest) =
    let (digits, after) = span_number rest in
    if is_number_char c then (c ∷ digits, after) else ([], c ∷ rest)

unfoldable pub expect : Str → Str → Option Str
expect [] text = some text
expect (c ∷ word) [] = none
expect (c ∷ word) (d ∷ text) = let more = expect word text in if c == d then more else none

abbrev pub keep : Json → Option Str → Option (Json × Str)
keep j none = none
keep j (some rest) = some (j, rest)

abbrev pub quoted : Option (Str × Str) → Option (Json × Str)
quoted none = none
quoted (some (s, rest)) = some (string s, rest)

abbrev pub numeral : Str × Str → Option (Json × Str)
numeral ([], rest) = none
numeral (c ∷ digits, rest) = some (number (c ∷ digits), rest)

unfoldable pub scalar : ℕ → Str → Option (Json × Str)
unfolding expect span_number
scalar c rest =
    if c == b'"'
    then quoted (read_string plain rest)
    else if c == b'n'
    then keep null (expect (chars "ull") rest)
    else if c == b't'
    then keep (bool true) (expect (chars "rue") rest)
    else if c == b'f'
    then keep (bool false) (expect (chars "alse") rest)
    else numeral (span_number (c ∷ rest))

abbrev pub expect_sep : Bool → Str → Option Str
expect_sep first text = if first then some text else expect (b',' ∷ []) text

abbrev pub starts : ℕ → Str → Bool
starts p [] = false
starts p (c ∷ rest) = c == p

abbrev pub tail : Str → Str
tail [] = []
tail (c ∷ rest) = rest

-- `none` is a refused text, or too little fuel: one unit for each value, item and field.
unfoldable mutual
  pub read_value : ℕ → Str → Option (Json × Str)
  read_value zero text = none
  read_value (suc f) [] = none
  read_value (suc f) (c ∷ rest) =
      let items = read_items f true rest >>= λ (xs, after). some (array xs, after) in
      let fields = read_fields f true rest >>= λ (fs, after). some (object fs, after) in
      if c == b'[' then items else if c == b'{' then fields else scalar c rest

  pub read_items : ℕ → Bool → Str → Option (JsonItems × Str)
  read_items zero first text = none
  read_items (suc f) first text =
      let more = expect_sep first text >>= λ t₁.
      read_value f t₁ >>= λ (v, t₂). read_items f false t₂ >>= λ (xs, t₃). some (cons v xs, t₃) in
      if starts b']' text then some (nil, tail text) else more

  pub read_fields : ℕ → Bool → Str → Option (JsonFields × Str)
  read_fields zero first text = none
  read_fields (suc f) first text =
      let more = expect_sep first text >>= λ t₁. expect (b'"' ∷ []) t₁ >>= λ t₂.
      read_string plain t₂ >>= λ (name, t₃). expect (b':' ∷ []) t₃ >>= λ t₄.
      read_value f t₄ >>= λ (v, t₅).
      read_fields f false t₅ >>= λ (fs, t₆). some (field name v fs, t₆) in
      if starts b'}' text then some (done, tail text) else more
