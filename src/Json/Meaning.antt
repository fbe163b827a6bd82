-- ===== src/Json/Meaning.antt =====
-- The JSON value that the serializer calls of src/value.rs stand for. The direct writer is to give
-- the same: numbers as itoa and ryu write them, and `null` for a float that is not finite.
use wide_log.Prelude.{ℕ, ◌≡◌, true, not, [], ◌∷◌, Str, All, if◌then◌else◌}
use wide_log.Prelude.Int.{ℤ}
use wide_log.Value.{is_finite}
use wide_log.Json.{NumberFormat}
use wide_log.Json.Tree.{Ser, SerItems, SerEntries}
use wide_log.Json.Reader.{
  Json, JsonItems, JsonFields, null, bool, number, string, array, object, nil, cons, done, field,
  is_number_char,
}

module _ (fmt : NumberFormat) where
  unfoldable mutual
    pub json : Ser → Json
    json Ser.unit = null
    json (Ser.bool b) = bool b
    json (Ser.i64 i) = number (fmt.i64_text i)
    json (Ser.u64 u) = number (fmt.u64_text u)
    json (Ser.f64 f) = if not (is_finite f) then null else number (fmt.f64_text f)
    json (Ser.str s) = string s
    json (Ser.seq xs) = array (json_items xs)
    json (Ser.map n fs) = object (json_fields fs)

    pub json_items : SerItems → JsonItems
    json_items SerItems.nil = nil
    json_items (SerItems.cons v xs) = cons (json v) (json_items xs)

    pub json_fields : SerEntries → JsonFields
    json_fields SerEntries.done = done
    json_fields (SerEntries.entry name v fs) = field name (json v) (json_fields fs)

-- A nonempty text of digits, signs, points and exponent marks.
abbrev pub IsNumeral : Str → Type 0
IsNumeral [] = ⊥
IsNumeral (c ∷ s) = All (λ d. is_number_char d ≡ true) (c ∷ s)

-- What itoa and ryu document of their output; ryu's is said of finite floats only.
pub record IsNumberFormat (fmt : NumberFormat) : Type 0 where
  pub i64_numeral : (i : ℤ) → IsNumeral (fmt.i64_text i)
  pub u64_numeral : (u : ℕ) → IsNumeral (fmt.u64_text u)
  pub f64_numeral : (f : ℕ) → is_finite f ≡ true → IsNumeral (fmt.f64_text f)
