-- ===== src/Schema/Emit/Names.antt =====
-- The names of the variants that wide-log-macros/src/codegen.rs generates.
use wide_log.Prelude.{
  ℕ, ◌≡◌, ◌≢◌, refl, sym, ◌∙◌, ap, subst, Bool, true, false, ◌&&◌, List, [], ◌∷◌, ◌++◌, Str, chars,
  ◌==◌, leb, All, if◌then◌else◌, Bool-cases, inl, inr, str_eq,
}
use wide_log.Parse.{Entries}
use wide_log.Schema.{Builtins, GenContext, ok, to_pascal_case, pascal_words, split_words}
use wide_log.Schema.Keywords.{keywords, is_one_of, is_rust_keyword}
use wide_log.Schema.Builtin.{generate}
use wide_log.Schema.Tables.{All-map}
use wide_log.Schema.Subtrees.{Ends}
use wide_log.Schema.Generate.{IsSchema, generate-Ends}

-- The words that the Rust reference lists as strict, reserved or weak keywords, in any edition up to
-- 2024, but for `Self`, lifetimes and `_`.
abbrev lower_words : List Str
lower_words =
    chars "abstract"
    ∷ chars "as"
    ∷ chars "async"
    ∷ chars "await"
    ∷ chars "become"
    ∷ chars "box"
    ∷ chars "break"
    ∷ chars "const"
    ∷ chars "continue"
    ∷ chars "crate"
    ∷ chars "do"
    ∷ chars "dyn"
    ∷ chars "else"
    ∷ chars "enum"
    ∷ chars "extern"
    ∷ chars "false"
    ∷ chars "final"
    ∷ chars "fn"
    ∷ chars "for"
    ∷ chars "gen"
    ∷ chars "if"
    ∷ chars "impl"
    ∷ chars "in"
    ∷ chars "let"
    ∷ chars "loop"
    ∷ chars "macro"
    ∷ chars "macro_rules"
    ∷ chars "match"
    ∷ chars "mod"
    ∷ chars "move"
    ∷ chars "mut"
    ∷ chars "override"
    ∷ chars "priv"
    ∷ chars "pub"
    ∷ chars "raw"
    ∷ chars "ref"
    ∷ chars "return"
    ∷ chars "safe"
    ∷ chars "self"
    ∷ chars "static"
    ∷ chars "struct"
    ∷ chars "super"
    ∷ chars "trait"
    ∷ chars "true"
    ∷ chars "try"
    ∷ chars "type"
    ∷ chars "typeof"
    ∷ chars "union"
    ∷ chars "unsafe"
    ∷ chars "unsized"
    ∷ chars "use"
    ∷ chars "virtual"
    ∷ chars "where"
    ∷ chars "while"
    ∷ chars "yield"
    ∷ []

-- The name is none of Rust's keywords.
abbrev pub IsFree : Str → Type 0
IsFree name = (name ≢ chars "Self") × All (λ word. name ≢ word) lower_words

abbrev is_lower : ℕ → Bool
is_lower c = leb b'a' c && leb c b'z'

-- Unicode documents that no upper case of a character is empty or begins with one of `a` to `z`.
abbrev pub IsUpper : (ℕ → Str) → Type 0
IsUpper upper = (c : ℕ) → (h : ℕ) × (t : Str) × (upper c ≡ h ∷ t) × (is_lower h ≡ false)

starts_lower : Str → Bool
starts_lower [] = false
starts_lower (c ∷ s) = is_lower c

lower_words-start : All (λ w. starts_lower w ≡ true) lower_words
unfolding starts_lower
lower_words-start = search

starts_lower-append : (s : Str) → starts_lower s ≡ false → starts_lower (s ++ b'_' ∷ []) ≡ false
unfolding starts_lower
starts_lower-append [] h = refl
starts_lower-append (c ∷ s) h = h

-- The last character is an underscore.
ends_low : Str → Bool
ends_low [] = false
ends_low (c ∷ []) = c == b'_'
ends_low (c ∷ d ∷ s) = ends_low (d ∷ s)

ends_low-append : (s : Str) → ends_low (s ++ b'_' ∷ []) ≡ true
unfolding ends_low
ends_low-append [] = refl
ends_low-append (c ∷ []) = refl
ends_low-append (c ∷ d ∷ s) = ends_low-append (d ∷ s)

self-ends : ends_low (chars "Self") ≡ false
unfolding ends_low
self-ends = refl

self-is_rust_keyword : is_one_of (chars "Self") keywords ≡ true
unfolding is_one_of str_eq
self-is_rust_keyword = refl

starts-IsFree : (name : Str) → starts_lower name ≡ false → name ≢ chars "Self" → IsFree name
starts-IsFree name starts other = (
  other,
  All-map (λ w. starts_lower w ≡ true) (λ w. name ≢ w)
      (λ w low same. let e = ap starts_lower same in cc) lower_words lower_words-start,
)

module _ (upper : ℕ → Str) (is_upper : IsUpper upper) where
  pascal_words-starts : (words : List Str) → starts_lower (pascal_words upper words) ≡ false
  unfolding starts_lower
  pascal_words-starts [] = refl
  pascal_words-starts ([] ∷ words) = pascal_words-starts words
  pascal_words-starts ((c ∷ s) ∷ words) =
      let (h, t, upped, big) = is_upper c in
      ap (λ u. starts_lower ((u ++ s) ++ pascal_words upper words)) upped ∙ big

  to_pascal_case-IsFree : (name : Str) → IsFree (to_pascal_case upper name)
  unfolding to_pascal_case is_rust_keyword
  to_pascal_case-IsFree name =
      by_test (pascal_words upper (split_words name)) (pascal_words-starts (split_words name))
    where
      by_test :
          (result : Str)
          → starts_lower result ≡ false
          → IsFree (if is_one_of result keywords then result ++ b'_' ∷ [] else result)
      by_test result starts = elim (Bool-cases (is_one_of result keywords)) [
        | inl reserved ↦ rw reserved (
            starts-IsFree (result ++ b'_' ∷ []) (starts_lower-append result starts)
              (λ same. let e = ap ends_low same in cc (ends_low-append result, self-ends)))
        | inr free ↦ rw free (
            starts-IsFree result starts
              (λ same. let e = ap (λ r. is_one_of r keywords) same in cc self-is_rust_keyword))
      ]

  -- In every schema that `generate` accepts, with an upper case that is never empty and never begins with
  -- one of `a` to `z`: no variant of the enumeration is a keyword of Rust. These are `Self` and the strict,
  -- reserved and weak keywords of the Rust reference in any edition up to 2024, without `_` and lifetimes.
  pub generate-IsFree :
      (b : Builtins) (entries : Entries) (c : GenContext)
      → generate upper b entries ≡ ok c
      → All (λ e. IsFree e.variant) c.keys
  generate-IsFree b entries c made =
      let schema = subst (Ends (IsSchema upper b)) made (generate-Ends upper b entries) in
      All-map _ _ (λ e same. subst IsFree (sym same) (to_pascal_case-IsFree e.json_name)) c.keys
        schema.good.variants
