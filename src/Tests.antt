-- ===== src/Tests.antt =====
-- A small schema, like the ones that `wide_log!` generates, on which the theorems are tried.
pub mod Events
pub mod Lines
pub mod Channels
pub mod Macros
pub mod Schemas
pub mod Sessions
pub mod Builders
use wide_log.Prelude.{ℕ, zero, suc, ◌/◌, ◌≡◌, refl, true, List, [], ◌∷◌, Str, chars, All}
use wide_log.Prelude.Int.{ℤ, pos, negsuc}
use wide_log.Word.{release}
use wide_log.Key.{Key}
use wide_log.Event.{Context}
use wide_log.Event.Lookup.{Observes}
use wide_log.Json.{NumberFormat}
use wide_log.Json.Meaning.{IsNumeral, IsNumberFormat}
use wide_log.Json.Reader.{is_number_char}
use wide_log.Guard.{FloatOps}

pub data Field : Type 0 where
  request elapsed_ms stamp iso id count : Field

abbrev pub field_str : Field → Str
field_str request = chars "request"
field_str elapsed_ms = chars "elapsed_ms"
field_str stamp = chars "stamp"
field_str iso = chars "iso"
field_str id = chars "id"
field_str count = chars "count"

abbrev pub field_index : Field → ℕ
field_index request = 0
field_index elapsed_ms = 1
field_index stamp = 2
field_index iso = 3
field_index id = 4
field_index count = 5

abbrev pub fields : Key Field
fields = record {
  as_str = field_str;
  max_keys = 6;
  keys = request ∷ elapsed_ms ∷ stamp ∷ iso ∷ id ∷ count ∷ [];
  key_strs =
      chars "request"
      ∷ chars "elapsed_ms"
      ∷ chars "stamp"
      ∷ chars "iso"
      ∷ chars "id"
      ∷ chars "count"
      ∷ [];
  as_index = field_index;
  duration_path = request ∷ elapsed_ms ∷ [];
  timestamp_path = stamp ∷ iso ∷ [];
  id_path = id ∷ [];
  log_key = chars "log";
  level_key = chars "level";
  message_key = chars "message";
}

-- A release build, with callbacks that only look.
abbrev pub site : Context Field
site = record { key = fields; profile = release; call = λ f e k. e }

pub site-Observes : Observes site
site-Observes = record { unchanged = λ f e k. refl }

-- A number in unary, which is a JSON number too.
abbrev ones : ℕ → Str
ones zero = b'1' ∷ []
ones (suc n) = b'1' ∷ ones n

ones-numeral : (n : ℕ) → All (λ d. is_number_char d ≡ true) (ones n)
ones-numeral zero = (refl, tt)
ones-numeral (suc n) = (refl, ones-numeral n)

abbrev signed_ones : ℤ → Str
signed_ones (pos n) = b'1' ∷ ones n
signed_ones (negsuc n) = b'-' ∷ ones n

abbrev pub unary : NumberFormat
unary = record {
  i64_text = signed_ones;
  u64_text = λ n. b'1' ∷ ones n;
  f64_text = λ n. b'1' ∷ b'.' ∷ b'5' ∷ [];
}

signed_ones-IsNumeral : (i : ℤ) → IsNumeral (signed_ones i)
signed_ones-IsNumeral (pos n) = (refl, ones-numeral n)
signed_ones-IsNumeral (negsuc n) = (refl, ones-numeral n)

pub unary-IsNumberFormat : IsNumberFormat unary
unary-IsNumberFormat = record {
  i64_numeral = signed_ones-IsNumeral;
  u64_numeral = λ n. (refl, ones-numeral n);
  f64_numeral = λ n finite. (refl, (refl, (refl, tt)));
}

-- Floats as whole numbers.
abbrev pub whole : FloatOps
whole = record { from_nat = λ n. n; div = λ a b. a / b; as_secs_f64 = λ n. n / 1000000000 }
