-- ===== src/Json/Escape.antt =====
-- What `write_json_str` of src/wide_event.rs writes is a JSON string that stands for its argument.
use wide_log.Prelude.{
  ℕ, zero, suc, ◌+◌, ◌*◌, ◌/◌, ◌%◌, ◌<◌, ◌≡◌, refl, sym, ◌∙◌, ap, false, Option, none, some, [],
  ◌∷◌, ◌++◌, append_assoc, Str, arith, ltb, ◌==◌, Bool-cases, inl, inr, subst, ==_iff,
}
use wide_log.Json.{hex_digit, unicode_escape, escape_char, escape_chars, write_json_str}
use wide_log.Json.Reader.{Mode, emit, plain, escaped, hex, hex_value, step, push, read_string}

push-nil : (o : Option (Str × Str)) → push [] o ≡ o
push-nil none = refl
push-nil (some (s, rest)) = refl

hex_value-hex_digit : (d : ℕ) → d < 16 → hex_value (hex_digit d) ≡ some d
unfolding hex_value
hex_value-hex_digit d h = ground arith

-- One character that goes on.
read-emit :
    (m m' : Mode) (c : ℕ) (out rest : Str)
    → step m c ≡ emit out m'
    → read_string m (c ∷ rest) ≡ push out (read_string m' rest)
unfolding read_string
read-emit m m' c out rest h = rw (h, read_string)

read-hex_suc :
    (n acc d x : ℕ) (rest : Str)
    → hex_value x ≡ some d
    → read_string (hex (suc n) acc) (x ∷ rest) ≡ read_string (hex n (acc * 16 + d)) rest
unfolding step
read-hex_suc n acc d x rest h =
    read-emit (hex (suc n) acc) (hex n (acc * 16 + d)) x [] rest (rw h) ∙ push-nil _

read-hex_zero :
    (acc d x : ℕ) (rest : Str)
    → hex_value x ≡ some d
    → read_string (hex zero acc) (x ∷ rest) ≡ push ((acc * 16 + d) ∷ []) (read_string plain rest)
unfolding step
read-hex_zero acc d x rest h = read-emit (hex zero acc) plain x ((acc * 16 + d) ∷ []) rest (rw h)

read-backslash : (rest : Str) → read_string plain (b'\\' ∷ rest) ≡ read_string escaped rest
unfolding step
read-backslash rest = read-emit plain escaped b'\\' [] rest refl ∙ push-nil _

-- Four digits of a number below 2 ^ 16, as the loop accumulates them.
four_digits :
    (c : ℕ)
    → c < 65536
    → (((0 * 16 + c / 4096 % 16) * 16 + c / 256 % 16) * 16 + c / 16 % 16) * 16 + c % 16 ≡ c
four_digits c h = omega arith

pub read-unicode_escape :
    (c : ℕ) (rest : Str)
    → c < 65536
    → read_string plain (unicode_escape c ++ rest) ≡ push (c ∷ []) (read_string plain rest)
unfolding step
read-unicode_escape c rest h =
    let d = λ (x : ℕ). hex_value-hex_digit (x % 16) (omega arith) in
    read-backslash _
    ∙ read-emit escaped (hex 3 0) b'u' [] _ refl
    ∙ push-nil _
    ∙ read-hex_suc 2 _ _ _ _ (d (c / 4096))
    ∙ read-hex_suc 1 _ _ _ _ (d (c / 256))
    ∙ read-hex_suc 0 _ _ _ _ (d (c / 16))
    ∙ read-hex_zero _ _ _ _ (d c)
    ∙ ap (λ x. push (x ∷ []) (read_string plain rest)) (four_digits c h)

-- A character equals `k` or is tested further.
pub by_test {ℓ} : (P : ℕ → Type ℓ) (c k : ℕ) → P k → ((c == k) ≡ false → P c) → P c
by_test P c k at other = elim (Bool-cases (c == k)) [
  | inl same ↦ subst P (sym ((==_iff c k).0 same)) at
  | inr differs ↦ other differs
]

-- The escapes of one letter.
read-short :
    (letter c : ℕ) (rest : Str)
    → step escaped letter ≡ emit (c ∷ []) plain
    → read_string plain (b'\\' ∷ letter ∷ rest) ≡ push (c ∷ []) (read_string plain rest)
read-short letter c rest h = read-backslash _ ∙ read-emit escaped plain letter (c ∷ []) rest h

-- The reader takes one written character back, whichever it is.
pub read-escape_char :
    (c : ℕ) (rest : Str)
    → read_string plain (escape_char c ++ rest) ≡ push (c ∷ []) (read_string plain rest)
unfolding escape_char step
read-escape_char c rest = by_test P c b'"' (read-short b'"' b'"' rest refl) λ n₁.
    by_test P c b'\\' (read-short b'\\' b'\\' rest refl) λ n₂.
      by_test P c 0x0A (read-short b'n' 0x0A rest refl) λ n₃.
        by_test P c 0x09 (read-short b't' 0x09 rest refl) λ n₄.
          by_test P c 0x0D (read-short b'r' 0x0D rest refl) λ n₅.
            by_test P c 0x08 (read-short b'b' 0x08 rest refl) λ n₆.
              by_test P c 0x0C (read-short b'f' 0x0C rest refl) λ n₇.
                by_test P c 0x2028 (read-unicode_escape 0x2028 rest (omega arith)) λ n₈.
                  by_test P c 0x2029 (read-unicode_escape 0x2029 rest (omega arith)) λ n₉.
                    elim (Bool-cases (ltb c 0x20)) [
                      | inl small ↦
                          rw (n₁, n₂, n₃, n₄, n₅, n₆, n₇, n₈, n₉, small)
                            (read-unicode_escape c rest (ground arith))
                      | inr big ↦
                          rw (n₁, n₂, n₃, n₄, n₅, n₆, n₇, n₈, n₉, big)
                            (read-emit plain plain c (c ∷ []) rest (rw (n₁, n₂, big)))
                    ]
  where
    P : ℕ → Type 0
    P x = read_string plain (escape_char x ++ rest) ≡ push (x ∷ []) (read_string plain rest)

push-push : (a b : Str) (o : Option (Str × Str)) → push a (push b o) ≡ push (a ++ b) o
push-push a b none = refl
push-push a b (some (s, rest)) = rw append_assoc

read-escape_chars :
    (s rest : Str) → read_string plain (escape_chars s ++ b'"' ∷ rest) ≡ some (s, rest)
unfolding escape_chars
read-escape_chars [] rest = unfold read_string step in refl
read-escape_chars (c ∷ s) rest =
    rw append_assoc
      (read-escape_char c (escape_chars s ++ b'"' ∷ rest) ∙ rw (read-escape_chars s rest))

-- What `write_json_str` writes begins with a quote, and a JSON string reader takes it back: it gives
-- exactly the characters of the argument, whatever they are, and stops behind the closing quote.
pub read-write_json_str :
    (s rest : Str)
    → (tail : Str) × (write_json_str s ++ rest ≡ b'"' ∷ tail)
      × (read_string plain tail ≡ some (s, rest))
unfolding write_json_str
read-write_json_str s rest =
    (escape_chars s ++ b'"' ∷ rest, rw append_assoc, read-escape_chars s rest)
