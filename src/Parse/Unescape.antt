-- ===== src/Parse/Unescape.antt =====
-- `unescape_json_string` of the macro takes back what `write_json_str` writes.
use wide_log.Prelude.{
  ℕ, ◌+◌, ◌*◌, ◌/◌, ◌%◌, ◌<◌, ◌≡◌, refl, ◌∙◌, ap, false, some, [], ◌∷◌, ◌++◌, Str, arith, ltb, ◌==◌,
  Bool-cases, inl, inr,
}
use wide_log.Json.{hex_digit, unicode_escape, escape_char, escape_chars, write_json_str}
use wide_log.Json.Escape.{by_test}
use wide_log.Parse.{Result, ok, err}
use wide_log.Parse.Text.{
  to_digit, hex_number, from_str_radix_16, char_of, short_escape, Place, plain, escape, unicode,
  emit, unicode_turn, turn, push, unescape_from, strip_quote, unescape_inner, unescape_json_string,
}

push-nil : (r : Result Str) → push [] r ≡ r
push-nil (ok s) = refl
push-nil (err e) = refl

to_digit-hex_digit : (d : ℕ) → d < 16 → to_digit (hex_digit d) ≡ some d
unfolding to_digit
to_digit-hex_digit d h = ground arith

-- One character that is accepted.
unescape-emit :
    (p p' : Place) (c : ℕ) (out rest : Str)
    → turn p c ≡ emit out p'
    → unescape_from p (c ∷ rest) ≡ push out (unescape_from p' rest)
unfolding unescape_from
unescape-emit plain p' c out rest h = rw (h, unescape_from)
unescape-emit escape p' c out rest h = rw (h, unescape_from)
unescape-emit (unicode digits) p' c out rest h = rw (h, unescape_from)

unescape-backslash : (rest : Str) → unescape_from plain (b'\\' ∷ rest) ≡ unescape_from escape rest
unfolding turn
unescape-backslash rest = unescape-emit plain escape b'\\' [] rest refl ∙ push-nil _

hex_number-digit :
    (acc d : ℕ) (s : Str) → d < 16 → hex_number acc (hex_digit d ∷ s) ≡ hex_number (acc * 16 + d) s
hex_number-digit acc d s h = rw (to_digit-hex_digit d h, hex_number)

radix-digits :
    (x y z w : ℕ)
    → x < 16
    → y < 16
    → z < 16
    → w < 16
    → from_str_radix_16 (hex_digit x ∷ hex_digit y ∷ hex_digit z ∷ hex_digit w ∷ [])
      ≡ some ((((0 * 16 + x) * 16 + y) * 16 + z) * 16 + w)
unfolding from_str_radix_16
radix-digits x y z w hx hy hz hw =
    let no_plus : (hex_digit x == b'+') ≡ false = ground arith in
    rw no_plus (
      hex_number-digit 0 x (hex_digit y ∷ hex_digit z ∷ hex_digit w ∷ []) hx
      ∙ hex_number-digit (0 * 16 + x) y (hex_digit z ∷ hex_digit w ∷ []) hy
      ∙ hex_number-digit ((0 * 16 + x) * 16 + y) z (hex_digit w ∷ []) hz
      ∙ hex_number-digit (((0 * 16 + x) * 16 + y) * 16 + z) w [] hw)

four_digits :
    (c : ℕ)
    → c < 65536
    → (((0 * 16 + c / 4096 % 16) * 16 + c / 256 % 16) * 16 + c / 16 % 16) * 16 + c % 16 ≡ c
four_digits c h = omega arith

unescape-unicode_escape :
    (c : ℕ) (rest : Str)
    → c < 0xD800
    → unescape_from plain (unicode_escape c ++ rest) ≡ push (c ∷ []) (unescape_from plain rest)
unfolding turn
unescape-unicode_escape c rest h =
    let value =
      radix-digits (c / 4096 % 16) (c / 256 % 16) (c / 16 % 16) (c % 16) (omega arith) (omega arith)
        (omega arith) (omega arith)
      ∙ ap some (four_digits c (omega arith)) in
    let valid : char_of c ≡ c = unfold char_of in ground arith in
    unescape-backslash _
    ∙ unescape-emit escape (unicode []) b'u' [] _ refl
    ∙ push-nil _
    ∙ unescape-emit (unicode []) (unicode _) _ [] _ refl
    ∙ push-nil _
    ∙ unescape-emit (unicode _) (unicode _) _ [] _ refl
    ∙ push-nil _
    ∙ unescape-emit (unicode _) (unicode _) _ [] _ refl
    ∙ push-nil _
    ∙ unescape-emit (unicode _) plain _ (char_of c ∷ []) rest (ap unicode_turn value)
    ∙ ap (λ x. push (x ∷ []) (unescape_from plain rest)) valid

unescape-short :
    (letter c : ℕ) (rest : Str)
    → turn escape letter ≡ emit (c ∷ []) plain
    → unescape_from plain (b'\\' ∷ letter ∷ rest) ≡ push (c ∷ []) (unescape_from plain rest)
unescape-short letter c rest h =
    unescape-backslash _ ∙ unescape-emit escape plain letter (c ∷ []) rest h

unescape-escape_char :
    (c : ℕ) (rest : Str)
    → unescape_from plain (escape_char c ++ rest) ≡ push (c ∷ []) (unescape_from plain rest)
unfolding escape_char turn short_escape
unescape-escape_char c rest = by_test P c b'"' (unescape-short b'"' b'"' rest refl) λ n₁.
    by_test P c b'\\' (unescape-short b'\\' b'\\' rest refl) λ n₂.
      by_test P c 0x0A (unescape-short b'n' 0x0A rest refl) λ n₃.
        by_test P c 0x09 (unescape-short b't' 0x09 rest refl) λ n₄.
          by_test P c 0x0D (unescape-short b'r' 0x0D rest refl) λ n₅.
            by_test P c 0x08 (unescape-short b'b' 0x08 rest refl) λ n₆.
              by_test P c 0x0C (unescape-short b'f' 0x0C rest refl) λ n₇.
                by_test P c 0x2028 (unescape-unicode_escape 0x2028 rest (omega arith)) λ n₈.
                  by_test P c 0x2029 (unescape-unicode_escape 0x2029 rest (omega arith)) λ n₉.
                    elim (Bool-cases (ltb c 0x20)) [
                      | inl small ↦
                          rw (n₁, n₂, n₃, n₄, n₅, n₆, n₇, n₈, n₉, small)
                            (unescape-unicode_escape c rest (ground arith))
                      | inr big ↦
                          rw (n₁, n₂, n₃, n₄, n₅, n₆, n₇, n₈, n₉, big)
                            (unescape-emit plain plain c (c ∷ []) rest (rw n₂))
                    ]
  where
    P : ℕ → Type 0
    P x = unescape_from plain (escape_char x ++ rest) ≡ push (x ∷ []) (unescape_from plain rest)

unescape-escape_chars : (s : Str) → unescape_from plain (escape_chars s) ≡ ok s
unfolding escape_chars
unescape-escape_chars [] = unfold unescape_from in refl
unescape-escape_chars (c ∷ s) =
    unescape-escape_char c (escape_chars s) ∙ rw (unescape-escape_chars s)

strip_quote-append : (s : Str) → strip_quote (s ++ b'"' ∷ []) ≡ some s
unfolding strip_quote
strip_quote-append [] = refl
strip_quote-append (c ∷ []) = refl
strip_quote-append (c ∷ d ∷ s) = rw (strip_quote-append (d ∷ s))

-- The macro's string reader takes back what the serializer writes: `unescape_json_string` of
-- `write_json_str` of a string is that string, whatever characters it has.
pub unescape_json_string-write_json_str : (s : Str) → unescape_json_string (write_json_str s) ≡ ok s
unfolding unescape_json_string write_json_str
unescape_json_string-write_json_str s =
    ap unescape_inner (strip_quote-append (escape_chars s)) ∙ unescape-escape_chars s
