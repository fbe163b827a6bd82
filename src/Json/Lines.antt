-- ===== src/Json/Lines.antt =====
-- The text that the serializer of src/wide_event.rs writes is one line: no control character and
-- neither of the two Unicode line separators stands in it.
use wide_log.Prelude.{
  ℕ, ◌≤◌, ◌%◌, ◌/◌, ◌<◌, ◌≡◌, ◌≢◌, refl, Bool, true, false, List, [], ◌∷◌, ◌++◌, Str, All,
  All-append, arith, ltb, Bool-cases, inl, inr,
}
use wide_log.Key.{Key}
use wide_log.Value.{
  Value, Items, WideEvent, Slots, LogEntry, event, null, bool, i64, u64, f64, str, static_str,
  array, object, nil, cons, end, vacant, filled, is_finite, as_str,
}
use wide_log.Json.{
  NumberFormat, hex_digit, unicode_escape, escape_char, escape_chars, write_json_str, sep,
  write_entry, write_entries, write_log, first_after, write_value, write_items, write_event,
  write_slots,
}
use wide_log.Json.Escape.{by_test}
use wide_log.Json.Reader.{is_number_char}
use wide_log.Json.Meaning.{IsNumeral, IsNumberFormat}
use wide_log.Json.Utf8.{utf8, utf8-printable, serialize_to, emitted_line}

-- No control character, and not U+2028 or U+2029.
abbrev pub IsSafe : ℕ → Type 0
IsSafe c = (32 ≤ c) × (c ≢ 0x2028) × (c ≢ 0x2029)

abbrev pub AllSafe : Str → Type 0
AllSafe = All IsSafe

ascii-IsSafe : (c : ℕ) → 32 ≤ c → c < 128 → IsSafe c
ascii-IsSafe c h k = (h, omega arith, omega arith)

hex_digit-IsSafe : (d : ℕ) → d < 16 → IsSafe (hex_digit d)
hex_digit-IsSafe d h = ascii-IsSafe (hex_digit d) (ground arith) (ground arith)

-- The four hex digits of any character are safe.
unicode_escape-AllSafe : (c : ℕ) → AllSafe (unicode_escape c)
unicode_escape-AllSafe c =
    let digit = λ (x : ℕ). hex_digit-IsSafe (x % 16) (omega arith) in
    (
      omega arith,
      (omega arith, (digit (c / 4096), (digit (c / 256), (digit (c / 16), (digit c, tt))))),
    )

escape_char-AllSafe : (c : ℕ) → AllSafe (escape_char c)
unfolding escape_char
escape_char-AllSafe c =
    let P = λ (x : ℕ). AllSafe (escape_char x) in
    by_test P c b'"' (omega arith) λ n₁. by_test P c b'\\' (omega arith) λ n₂.
      by_test P c 0x0A (omega arith) λ n₃. by_test P c 0x09 (omega arith) λ n₄.
        by_test P c 0x0D (omega arith) λ n₅. by_test P c 0x08 (omega arith) λ n₆.
          by_test P c 0x0C (omega arith) λ n₇.
            by_test P c 0x2028 (unicode_escape-AllSafe 0x2028) λ n₈.
              by_test P c 0x2029 (unicode_escape-AllSafe 0x2029) λ n₉.
                elim (Bool-cases (ltb c 0x20)) [
                  | inl small ↦
                      rw (n₁, n₂, n₃, n₄, n₅, n₆, n₇, n₈, n₉, small) (unicode_escape-AllSafe c)
                  | inr big ↦
                      rw (n₁, n₂, n₃, n₄, n₅, n₆, n₇, n₈, n₉, big)
                        ((ground arith, ground arith, ground arith), tt)
                ]

escape_chars-AllSafe : (s : Str) → AllSafe (escape_chars s)
unfolding escape_chars
escape_chars-AllSafe [] = tt
escape_chars-AllSafe (c ∷ s) =
    All-append IsSafe (escape_char c) (escape_chars s) (escape_char-AllSafe c)
      (escape_chars-AllSafe s)

join : (a b : Str) → AllSafe a → AllSafe b → AllSafe (a ++ b)
join = All-append IsSafe

write_json_str-AllSafe : (s : Str) → AllSafe (write_json_str s)
unfolding write_json_str
write_json_str-AllSafe s =
    (omega arith, join (escape_chars s) _ (escape_chars-AllSafe s) (omega arith))

sep-AllSafe : (first : Bool) → AllSafe (sep first)
sep-AllSafe true = tt
sep-AllSafe false = omega arith

number_char-IsSafe : (c : ℕ) → is_number_char c ≡ true → IsSafe c
number_char-IsSafe c h = ascii-IsSafe c (ground arith) (ground arith)

number_chars-AllSafe : (s : Str) → All (λ d. is_number_char d ≡ true) s → AllSafe s
number_chars-AllSafe [] h = tt
number_chars-AllSafe (c ∷ s) h = (number_char-IsSafe c h.0, number_chars-AllSafe s h.1)

numeral-AllSafe : (s : Str) → IsNumeral s → AllSafe s
numeral-AllSafe [] h = tt
numeral-AllSafe (c ∷ s) h = number_chars-AllSafe (c ∷ s) h

module _ {K : Type 0} (key : Key K) (fmt : NumberFormat) (ok : IsNumberFormat fmt) where
  -- `"name":` and a text behind it.
  named-AllSafe : (name text : Str) → AllSafe text → AllSafe (write_json_str name ++ b':' ∷ text)
  named-AllSafe name text h =
      join (write_json_str name) _ (write_json_str-AllSafe name) (omega arith, h)

  write_entry-AllSafe : (e : LogEntry) → AllSafe (write_entry key fmt e)
  unfolding write_entry
  write_entry-AllSafe e = (
    omega arith,
    named-AllSafe key.level_key _ (
        join (write_json_str e.level) _ (write_json_str-AllSafe e.level) (
          omega arith,
          named-AllSafe key.message_key _ (
              join (write_json_str (as_str e.message)) _ (write_json_str-AllSafe (as_str e.message))
                (omega arith)),
        )),
  )

  write_entries-AllSafe :
      (first : Bool) (l : List LogEntry) → AllSafe (write_entries key fmt first l)
  unfolding write_entries
  write_entries-AllSafe first [] = tt
  write_entries-AllSafe first (e ∷ l) =
      join (sep first) _ (sep-AllSafe first)
        (join (write_entry key fmt e) _ (write_entry-AllSafe e) (write_entries-AllSafe false l))

  write_log-AllSafe : (first : Bool) (l : List LogEntry) → AllSafe (write_log key fmt first l)
  unfolding write_log
  write_log-AllSafe first [] = tt
  write_log-AllSafe first (e ∷ l) = join (sep first) _ (sep-AllSafe first) (
      named-AllSafe key.log_key _ (
        omega arith,
        join (write_entries key fmt true (e ∷ l)) _ (write_entries-AllSafe true (e ∷ l))
            (omega arith),
      ))

  f64-AllSafe : (b : ℕ) → AllSafe (write_value key fmt (f64 b))
  unfolding write_value
  f64-AllSafe b = elim (Bool-cases (is_finite b)) [
    | inl fin ↦ rw fin (numeral-AllSafe (fmt.f64_text b) (ok.f64_numeral b fin))
    | inr inf ↦ rw inf (omega arith)
  ]

  mutual
    unfolding write_value

    write_value-AllSafe : (v : Value) → AllSafe (write_value key fmt v)
    write_value-AllSafe null = omega arith
    write_value-AllSafe (bool true) = omega arith
    write_value-AllSafe (bool false) = omega arith
    write_value-AllSafe (i64 i) = numeral-AllSafe (fmt.i64_text i) (ok.i64_numeral i)
    write_value-AllSafe (u64 u) = numeral-AllSafe (fmt.u64_text u) (ok.u64_numeral u)
    write_value-AllSafe (f64 b) = f64-AllSafe b
    write_value-AllSafe (str s) = write_json_str-AllSafe s
    write_value-AllSafe (static_str s) = write_json_str-AllSafe s
    write_value-AllSafe (array xs) = (
      omega arith,
      join (write_items key fmt true xs) _ (write_items-AllSafe xs true) (omega arith),
    )
    write_value-AllSafe (object e) = write_event-AllSafe e

    write_items-AllSafe : (xs : Items) (first : Bool) → AllSafe (write_items key fmt first xs)
    write_items-AllSafe nil first = tt
    write_items-AllSafe (cons v xs) first =
        join (sep first) _ (sep-AllSafe first)
          (join (write_value key fmt v) _ (write_value-AllSafe v) (write_items-AllSafe xs false))

    write_event-AllSafe : (e : WideEvent) → AllSafe (write_event key fmt e)
    write_event-AllSafe (event s l c n) = (
      omega arith,
      join (write_slots key fmt true s key.keys) _ (write_slots-AllSafe s true key.keys) (
          join (write_log key fmt (first_after key fmt true s key.keys) l) _
            (write_log-AllSafe (first_after key fmt true s key.keys) l) (omega arith)),
    )

    write_slots-AllSafe :
        (s : Slots) (first : Bool) (keys : List K) → AllSafe (write_slots key fmt first s keys)
    write_slots-AllSafe end first keys = tt
    write_slots-AllSafe (vacant s) first [] = tt
    write_slots-AllSafe (filled v s) first [] = tt
    write_slots-AllSafe (vacant s) first (k ∷ keys) = write_slots-AllSafe s first keys
    write_slots-AllSafe (filled v s) first (k ∷ keys) = join (sep first) _ (sep-AllSafe first) (
        named-AllSafe (key.as_str k) _ (
          join (write_value key fmt v) _ (write_value-AllSafe v)
            (write_slots-AllSafe s false keys)))

  -- Every character written for an event is safe, whatever strings it holds.
  pub write_event-safe : (e : WideEvent) → AllSafe (write_event key fmt e)
  write_event-safe = write_event-AllSafe

pub weaken : (s : Str) → AllSafe s → All (λ c. 32 ≤ c) s
weaken [] h = tt
weaken (c ∷ s) h = (h.0.0, weaken s h.1)

module _ {K : Type 0} (key : Key K) (fmt : NumberFormat) (ok : IsNumberFormat fmt) where
  -- An emitted line is one line: it is some bytes of which none is a control character, so none ends
  -- a line, and one newline behind them. The text behind those bytes has no control character and
  -- neither U+2028 nor U+2029, whatever keys, strings and log messages the event holds. That itoa and
  -- ryu write JSON numbers is a hypothesis.
  pub emitted_line-one_line :
      (e : WideEvent)
      → (text : Str) × (emitted_line key fmt e ≡ utf8 text ++ 0x0A ∷ [])
        × All (λ b. 32 ≤ b) (utf8 text)
        × AllSafe text
  unfolding emitted_line serialize_to
  emitted_line-one_line e =
      let safe = write_event-safe key fmt ok e in
      (write_event key fmt e, refl, utf8-printable (write_event key fmt e) (weaken _ safe), safe)
