-- ===== src/Parse.antt =====
-- wide-log-macros/src/parse.rs: the tokens that the macro reads, the tree that it makes, and the ways
-- in which it refuses. A `TokenTree` of the crate proc_macro2 is kept as its text and structure.
pub mod Text
pub mod Unescape
pub mod Literals
pub mod Tree
pub mod Unique
pub mod Verdicts
pub mod Fuel
pub mod Total
pub mod Overrides
pub mod Grammar
use wide_log.Prelude.{ℕ, suc, ◌+◌, Bool, Option, none, some, Str, ◌≡◌, refl}
use wide_log.Prelude.Int.{ℤ}

-- The kinds of message that the functions return; their texts are left out.
pub data ParseError : Type 0 where
  invalid_string : ParseError
  unterminated_escape : ParseError
  invalid_escape : ParseError
  invalid_unicode : ParseError
  invalid_literal : ParseError
  unexpected_end : ParseError
  unexpected_token : ParseError
  unexpected_ident : ParseError
  expected_bang : ParseError
  expected_literal : ParseError
  expected_colon : ParseError
  expected_comma : ParseError
  expected_arrow : ParseError
  expected_path : ParseError
  invalid_key : ParseError
  duplicate_key : ParseError
  trailing_tokens : ParseError
  expected_object : ParseError
  empty_overrides : ParseError
  invalid_override : ParseError
  duplicate_override : ParseError
  unknown_override : ParseError
  out_of_fuel : ParseError

pub data Result {ℓ} (A : Type ℓ) : Type ℓ where
  ok : A → Result A
  err : ParseError → Result A

-- The operator `?` with the code behind it.
infixl 5 ◌and_then◌
abbrev pub ◌and_then◌ {ℓ κ} : {A : Type ℓ} {B : Type κ} → Result A → (A → Result B) → Result B
ok a and_then f = f a
err e and_then f = err e

pub and_then-eq-ok {ℓ κ} :
    {A : Type ℓ} {B : Type κ} (m : Result A) (f : A → Result B) {b : B}
    → (m and_then f) ≡ ok b
    → (a : A) × (m ≡ ok a) × (f a ≡ ok b)
and_then-eq-ok (ok a) f h = (a, refl, h)
and_then-eq-ok (err e) f h = cc

-- `Option::ok_or`
abbrev pub ok_or {ℓ} : {A : Type ℓ} → ParseError → Option A → Result A
ok_or e (some a) = ok a
ok_or e none = err e

pub data Number : Type 0 where
  int : ℤ → Number
  uint : ℕ → Number
  float : ℕ → Number

pub data Marker : Type 0 where
  duration counter : Marker

mutual
  pub data JsonNode : Type 0 where
    null : JsonNode
    bool : Bool → JsonNode
    number : Number → JsonNode
    str : Str → JsonNode
    object : Entries → JsonNode
    marker : Marker → JsonNode

  -- `Vec<(String, JsonNode)>`
  pub data Entries : Type 0 where
    nil : Entries
    entry : Str → JsonNode → Entries → Entries

pub data Delimiter : Type 0 where
  parenthesis brace bracket invisible : Delimiter

mutual
  pub data Token : Type 0 where
    ident : Str → Token
    punct : ℕ → Token
    literal : Str → Token
    group : Delimiter → Tokens → Token

  pub data Tokens : Type 0 where
    end : Tokens
    next : Token → Tokens → Tokens

-- The number of tokens, those in groups too; a group counts for two.
abbrev pub weight : Tokens → ℕ
weight end = 0
weight (next (group d inner) ts) = suc (suc (weight inner + weight ts))
weight (next (ident s) ts) = suc (weight ts)
weight (next (punct c) ts) = suc (weight ts)
weight (next (literal s) ts) = suc (weight ts)
