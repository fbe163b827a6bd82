-- ===== src/Parse/Literals.antt =====
-- The literals of wide-log-macros/src/parse.rs: `parse_literal_str`. How the text of a float is read is
-- a parameter.
use wide_log.Prelude.{
  ℕ, zero, suc, ◌+◌, ◌*◌, ◌-◌, ◌&&◌, Option, none, some, List, [], ◌∷◌, Str, chars, str_eq, leb,
  ◌==◌, if◌then◌else◌,
}
use wide_log.Prelude.Int.{ℤ, pos, negsuc}
use wide_log.Word.{u64_max, i64_max}
use wide_log.Parse.{
  Result, ok, err, ◌and_then◌, Number, int, uint, float, JsonNode, str, number, invalid_literal,
}
use wide_log.Parse.Text.{unescape_json_string}

-- `s.strip_suffix(suffix)`
unfoldable pub strip_suffix : Str → Str → Option Str
strip_suffix suffix [] = if str_eq [] suffix then some [] else none
strip_suffix suffix (c ∷ s) =
    let shorter = strip_suffix suffix s in
    if str_eq (c ∷ s) suffix then some [] else elim shorter [ none ↦ none | some t ↦ some (c ∷ t) ]

-- The value of decimal digits behind `acc`.
unfoldable pub decimal : ℕ → Str → Option ℕ
decimal acc [] = some acc
decimal acc (c ∷ s) =
    let more = decimal (acc * 10 + (c - b'0')) s in if leb b'0' c && leb c b'9' then more else none

-- At least one digit.
abbrev pub digits : Str → Option ℕ
digits [] = none
digits (c ∷ s) = decimal 0 (c ∷ s)

abbrev pub at_most : ℕ → Option ℕ → Option ℕ
at_most bound none = none
at_most bound (some n) = if leb n bound then some n else none

-- `s.parse::<u64>()`
unfoldable pub parse_u64 : Str → Option ℕ
unfolding decimal
parse_u64 [] = none
parse_u64 (c ∷ s) = at_most u64_max (if c == b'+' then digits s else digits (c ∷ s))

abbrev pub to_pos : Option ℕ → Option ℤ
to_pos none = none
to_pos (some n) = some (pos n)

abbrev pub to_neg : Option ℕ → Option ℤ
to_neg none = none
to_neg (some zero) = some (pos 0)
to_neg (some (suc n)) = some (negsuc n)

-- `s.parse::<i64>()`
unfoldable pub parse_i64 : Str → Option ℤ
unfolding decimal
parse_i64 [] = none
parse_i64 (c ∷ s) =
    if c == b'-'
    then to_neg (at_most (i64_max + 1) (digits s))
    else to_pos (at_most i64_max (if c == b'+' then digits s else digits (c ∷ s)))

abbrev pub suffixed : {A : Type 0} → (Str → Option A) → (A → Number) → Option Str → Option Number
suffixed parse tag none = none
suffixed parse tag (some s) = elim (parse s) [ none ↦ none | some n ↦ some (tag n) ]

-- The first of the tests that succeeds.
abbrev pub first_of : List (Option Number) → Result JsonNode
first_of [] = err invalid_literal
first_of (none ∷ rest) = first_of rest
first_of (some n ∷ rest) = ok (number n)

-- What a literal is tried as, in order.
abbrev pub number_tests : (Str → Option ℕ) → Str → List (Option Number)
number_tests parse_f64 s =
    suffixed parse_i64 int (strip_suffix (chars "i64") s)
    ∷ suffixed parse_u64 uint (strip_suffix (chars "u64") s)
    ∷ suffixed parse_f64 float (strip_suffix (chars "f64") s)
    ∷ suffixed parse_u64 uint (some s)
    ∷ suffixed parse_i64 int (some s)
    ∷ suffixed parse_f64 float (some s)
    ∷ []

unfoldable pub parse_literal_str : (Str → Option ℕ) → Str → Result JsonNode
unfolding parse_u64 parse_i64 strip_suffix
parse_literal_str parse_f64 [] = first_of (number_tests parse_f64 [])
parse_literal_str parse_f64 (c ∷ s) =
    if c == b'"'
    then unescape_json_string (c ∷ s) and_then (λ t. ok (str t))
    else first_of (number_tests parse_f64 (c ∷ s))
