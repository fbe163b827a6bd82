-- ===== src/Parse/Overrides/Plain.antt =====
-- The names that `validate_override_value` of wide-log-macros/src/parse.rs lets through.
use wide_log.Prelude.{
  ℕ, ◌≡◌, ◌≢◌, refl, true, false, [], ◌∷◌, Str, All, contains, ◌==◌, arith, Bool-cases, inl, inr,
}
use wide_log.Parse.Overrides.{validate_override_value}

-- A character that may stand in a name.
abbrev pub IsPlainChar : ℕ → Type 0
IsPlainChar c = (c ≢ b'.') × (c ≢ b'"') × (c ≢ b'\\')

-- The name is not empty and has no dot, no quote and no backslash.
abbrev pub IsPlain : Str → Type 0
IsPlain name = (name ≢ []) × All IsPlainChar name

contains-All : (c : ℕ) (s : Str) → contains c s ≡ false → All (λ d. d ≢ c) s
unfolding contains
contains-All c [] h = tt
contains-All c (d ∷ s) h = elim (Bool-cases (d == c)) [
  | inl same ↦ cc (rw same at h)
  | inr other ↦ (ground arith, contains-All c s (rw other at h))
]

All-IsPlainChar :
    (s : Str)
    → All (λ d. d ≢ b'.') s
    → All (λ d. d ≢ b'"') s
    → All (λ d. d ≢ b'\\') s
    → All IsPlainChar s
All-IsPlainChar [] dots quotes slashes = tt
All-IsPlainChar (c ∷ s) (d, ds) (q, qs) (b, bs) = ((d, q, b), All-IsPlainChar s ds qs bs)

-- What the validation lets through is plain.
pub validate_override_value-IsPlain :
    (value : Str) → validate_override_value value ≡ true → IsPlain value
unfolding validate_override_value
validate_override_value-IsPlain [] h = cc
validate_override_value-IsPlain (c ∷ s) h =
    let dots : contains b'.' (c ∷ s) ≡ false = ground arith in
    let quotes : contains b'"' (c ∷ s) ≡ false = ground arith in
    let slashes : contains b'\\' (c ∷ s) ≡ false = ground arith in
    (
      λ e. cc,
      All-IsPlainChar (c ∷ s) (contains-All b'.' (c ∷ s) dots) (contains-All b'"' (c ∷ s) quotes)
          (contains-All b'\\' (c ∷ s) slashes),
    )

All-contains :
    (c : ℕ) (s : Str) → ((d : ℕ) → IsPlainChar d → d ≢ c) → All IsPlainChar s → contains c s ≡ false
unfolding contains
All-contains c [] other h = refl
All-contains c (d ∷ s) other h =
    let differ = other d h.0 in ground (arith, All-contains c s other h.1)

-- Plain names pass the validation.
pub IsPlain-validate_override_value :
    (value : Str) → IsPlain value → validate_override_value value ≡ true
unfolding validate_override_value
IsPlain-validate_override_value [] (some_char, h) = absurd (some_char refl)
IsPlain-validate_override_value (c ∷ s) (some_char, h) =
    let dots = All-contains b'.' (c ∷ s) (λ d plain. plain.0) h in
    let quotes = All-contains b'"' (c ∷ s) (λ d plain. plain.1) h in
    let slashes = All-contains b'\\' (c ∷ s) (λ d plain. plain.2) h in
    rw dots (rw quotes (rw slashes refl))
