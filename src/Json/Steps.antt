-- ===== src/Json/Steps.antt =====
-- How the reader takes back each kind of text that the serializer of src/wide_event.rs writes.
use wide_log.Prelude.{
  ℕ, suc, ◌≡◌, refl, sym, ap, Bool, true, false, some, [], ◌∷◌, ◌++◌, Str, chars, All, arith, ◌==◌,
  subst,
}
use wide_log.Json.{write_json_str, sep}
use wide_log.Json.Escape.{read-write_json_str}
use wide_log.Json.Reader.{
  Json, JsonItems, JsonFields, null, bool, number, string, array, object, nil, cons, done, field,
  is_number_char, span_number, expect, scalar, numeral, starts, tail, read_value, read_items,
  read_fields,
}
use wide_log.Json.Meaning.{IsNumeral}

-- What follows a number ends it.
abbrev pub Stops : Str → Type 0
Stops [] = Unit
Stops (c ∷ rest) = is_number_char c ≡ false

pub read-null : (f : ℕ) (rest : Str) → read_value (suc f) (chars "null" ++ rest) ≡ some (null, rest)
unfolding read_value scalar
read-null f rest = refl

pub read-true :
    (f : ℕ) (rest : Str) → read_value (suc f) (chars "true" ++ rest) ≡ some (bool true, rest)
unfolding read_value scalar
read-true f rest = refl

pub read-false :
    (f : ℕ) (rest : Str) → read_value (suc f) (chars "false" ++ rest) ≡ some (bool false, rest)
unfolding read_value scalar
read-false f rest = refl

span_number-Stops : (rest : Str) → Stops rest → span_number rest ≡ ([], rest)
unfolding span_number
span_number-Stops [] h = refl
span_number-Stops (c ∷ rest) h = rw h

span_number-append :
    (s rest : Str)
    → All (λ d. is_number_char d ≡ true) s
    → Stops rest
    → span_number (s ++ rest) ≡ (s, rest)
unfolding span_number
span_number-append [] rest h stop = span_number-Stops rest stop
span_number-append (c ∷ s) rest h stop = rw (span_number-append s rest h.1 stop) (rw h.0)

-- A character of a number is no bracket, quote or letter of a word.
no_mark :
    (c : ℕ)
    → is_number_char c ≡ true
    → ((c == b'[') ≡ false)
      × ((c == b'{') ≡ false)
      × ((c == b'"') ≡ false)
      × ((c == b'n') ≡ false)
      × ((c == b't') ≡ false)
      × ((c == b'f') ≡ false)
no_mark c h = ground arith

pub read-numeral :
    (f : ℕ) (s rest : Str)
    → IsNumeral s
    → Stops rest
    → read_value (suc f) (s ++ rest) ≡ some (number s, rest)
unfolding read_value scalar
read-numeral f [] rest h stop = absurd h
read-numeral f (c ∷ s) rest h stop =
    let (n₁, n₂, n₃, n₄, n₅, n₆) = no_mark c h.0 in
    rw (n₁, n₂, n₃, n₄, n₅, n₆) (ap numeral (span_number-append (c ∷ s) rest h stop))

pub read-quoted :
    (f : ℕ) (s rest : Str) → read_value (suc f) (write_json_str s ++ rest) ≡ some (string s, rest)
unfolding read_value scalar
read-quoted f s rest =
    let (tail, begins, reads) = read-write_json_str s rest in rw begins (rw reads)

pub read-array :
    (f : ℕ) (text rest : Str) (xs : JsonItems)
    → read_items f true text ≡ some (xs, rest)
    → read_value (suc f) (b'[' ∷ text) ≡ some (array xs, rest)
unfolding read_value
read-array f text rest xs h = rw h

pub read-object :
    (f : ℕ) (text rest : Str) (fs : JsonFields)
    → read_fields f true text ≡ some (fs, rest)
    → read_value (suc f) (b'{' ∷ text) ≡ some (object fs, rest)
unfolding read_value
read-object f text rest fs h = rw h

pub read-items_end :
    (f : ℕ) (first : Bool) (rest : Str) → read_items (suc f) first (b']' ∷ rest) ≡ some (nil, rest)
unfolding read_items
read-items_end f first rest = refl

pub read-fields_end :
    (f : ℕ) (first : Bool) (rest : Str)
    → read_fields (suc f) first (b'}' ∷ rest) ≡ some (done, rest)
unfolding read_fields
read-fields_end f first rest = refl

pub read-item :
    (f : ℕ) (first : Bool) (text after rest : Str) (v : Json) (xs : JsonItems)
    → starts b']' text ≡ false
    → read_value f text ≡ some (v, after)
    → read_items f false after ≡ some (xs, rest)
    → read_items (suc f) first (sep first ++ text) ≡ some (cons v xs, rest)
unfolding read_items expect
read-item f true text after rest v xs open' h k = rw (open', h, k)
read-item f false text after rest v xs open' h k = rw (h, k)

pub read-field :
    (f : ℕ) (first : Bool) (name text after rest : Str) (v : Json) (fs : JsonFields)
    → read_value f text ≡ some (v, after)
    → read_fields f false after ≡ some (fs, rest)
    → read_fields (suc f) first (sep first ++ (write_json_str name ++ b':' ∷ text))
      ≡ some (field name v fs, rest)
unfolding read_fields expect
read-field f true name text after rest v fs h k =
    let (tail, begins, reads) = read-write_json_str name (b':' ∷ text) in
    rw begins (rw reads (rw (h, k)))
read-field f false name text after rest v fs h k =
    let (tail, begins, reads) = read-write_json_str name (b':' ∷ text) in
    rw begins (rw reads (rw (h, k)))

pub starts-numeral : (s rest : Str) → IsNumeral s → starts b']' (s ++ rest) ≡ false
starts-numeral [] rest h = absurd h
starts-numeral (c ∷ s) rest h = let numeric = h.0 in ground arith

pub starts-quoted : (s rest : Str) → starts b']' (write_json_str s ++ rest) ≡ false
starts-quoted s rest = let (tail, begins, reads) = read-write_json_str s rest in rw begins

pub Stops-sep : (text : Str) → Stops (sep false ++ text)
Stops-sep text = refl

pub Stops-quoted : (s rest : Str) → Stops (write_json_str s ++ rest)
Stops-quoted s rest =
    let (tail, begins, reads) = read-write_json_str s rest in subst Stops (sym begins) refl
