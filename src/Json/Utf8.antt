-- ===== src/Json/Utf8.antt =====
-- `char::encode_utf8`, and the bytes that `serialize_to` of src/wide_event.rs and `default_emit` of
-- wide-log-macros/src/codegen.rs produce.
use wide_log.Prelude.{
  ℕ, ◌+◌, ◌/◌, ◌%◌, ◌≤◌, List, [], ◌∷◌, ◌++◌, Str, All, All-append, arith, ltb, if◌then◌else◌,
}
use wide_log.Key.{Key}
use wide_log.Value.{WideEvent}
use wide_log.Json.{NumberFormat, write_event}

abbrev pub encode_utf8 : ℕ → List ℕ
encode_utf8 c =
    if ltb c 0x80
    then c ∷ []
    else if ltb c 0x800
    then (0xC0 + c / 64) ∷ (0x80 + c % 64) ∷ []
    else if ltb c 0x10000
    then (0xE0 + c / 4096) ∷ (0x80 + c / 64 % 64) ∷ (0x80 + c % 64) ∷ []
    else (0xF0 + c / 262144) ∷ (0x80 + c / 4096 % 64) ∷ (0x80 + c / 64 % 64) ∷ (0x80 + c % 64) ∷ []

unfoldable pub utf8 : Str → List ℕ
utf8 [] = []
utf8 (c ∷ s) = encode_utf8 c ++ utf8 s

module _ {K : Type 0} (key : Key K) (fmt : NumberFormat) where
  unfoldable pub serialize_to : WideEvent → List ℕ
  serialize_to e = utf8 (write_event key fmt e)

  -- The line that `default_emit` hands to `stdout_emit::submit`.
  unfoldable pub emitted_line : WideEvent → List ℕ
  emitted_line e = serialize_to e ++ 0x0A ∷ []

-- The bytes of a printable character are printable.
encode_utf8-printable : (c : ℕ) → 32 ≤ c → All (λ b. 32 ≤ b) (encode_utf8 c)
encode_utf8-printable c h = ground arith

pub utf8-printable : (s : Str) → All (λ c. 32 ≤ c) s → All (λ b. 32 ≤ b) (utf8 s)
unfolding utf8
utf8-printable [] h = tt
utf8-printable (c ∷ s) h =
    All-append (λ b. 32 ≤ b) (encode_utf8 c) (utf8 s) (encode_utf8-printable c h.0)
      (utf8-printable s h.1)
