-- ===== src/Parse/Verdicts.antt =====
-- The functions of wide-log-macros/src/parse.rs that need no fuel never report a lack of it.
use wide_log.Prelude.{
  ℕ, suc, ◌<◌, Bool, true, false, Option, none, some, List, [], ◌∷◌, Str, chars, str_eq, ◌++◌,
  length, ltb, ◌==◌, arith, if◌then◌else◌,
}
use wide_log.Parse.{
  ParseError, Result, ok, err, ◌and_then◌, JsonNode, Entries, Marker, Number, str, nil, entry,
  Tokens, Token, end, next, ident, punct, literal, group, brace, bracket, parenthesis, invisible,
  out_of_fuel, expected_comma, weight,
}
use wide_log.Parse
use wide_log.Parse.Text.{
  Place, plain, escape, unicode, Turn, emit, refuse, turn, short_escape, unicode_turn, escape_turn,
  from_str_radix_16, at_end, pad, push, unescape_from, strip_quote, unescape_inner,
  unescape_json_string,
}
use wide_log.Parse.Literals.{parse_literal_str, first_of, number_tests}
use wide_log.Parse.Tree.{parse_marker, parse_ident, key_string}

-- The error is not a lack of fuel.
abbrev pub IsVerdict : ParseError → Type 0
IsVerdict out_of_fuel = ⊥
IsVerdict _ = Unit

-- A result for which the fuel was enough.
abbrev pub Decides {ℓ} : {A : Type ℓ} → Result A → Type 0
Decides (ok a) = Unit
Decides (err e) = IsVerdict e

-- It was enough, and what is left is lighter than `n`.
abbrev pub Consumes : {A : Type 0} → ℕ → Result (A × Tokens) → Type 0
Consumes n (ok (a, rest)) = weight rest < n
Consumes n (err e) = IsVerdict e

pub Decides-if :
    {A : Type 0}
    → (b : Bool) (x y : Result A) → Decides x
    → Decides y
    → Decides (if b then x else y)
Decides-if true x y hx hy = hx
Decides-if false x y hx hy = hy

pub Consumes-if :
    {A : Type 0}
    → (n : ℕ) (b : Bool) (x y : Result (A × Tokens)) → Consumes n x
    → Consumes n y
    → Consumes n (if b then x else y)
Consumes-if n true x y hx hy = hx
Consumes-if n false x y hx hy = hy

pub Consumes-node :
    {A B : Type 0}
    → (n : ℕ) (r : Result A) (f : A → B) (ts : Tokens) → Decides r
    → weight ts < n
    → Consumes n (r and_then (λ a. ok (f a, ts)))
Consumes-node n (ok a) f ts h lt = lt
Consumes-node n (err e) f ts h lt = h

pub Decides-push : (out : Str) (r : Result Str) → Decides r → Decides (push out r)
Decides-push out (ok s) h = h
Decides-push out (err e) h = h

-- A turn that refuses does so for another reason.
abbrev pub TurnDecides : Turn → Type 0
TurnDecides (emit out p) = Unit
TurnDecides (refuse e) = IsVerdict e

pub unicode_turn-TurnDecides : (o : Option ℕ) → TurnDecides (unicode_turn o)
unicode_turn-TurnDecides none = tt
unicode_turn-TurnDecides (some c) = tt

pub escape_turn-TurnDecides : (o : Option ℕ) → TurnDecides (escape_turn o)
escape_turn-TurnDecides none = tt
escape_turn-TurnDecides (some c) = tt

pub TurnDecides-if :
    (b : Bool) (x y : Turn) → TurnDecides x → TurnDecides y → TurnDecides (if b then x else y)
TurnDecides-if true x y hx hy = hx
TurnDecides-if false x y hx hy = hy

pub turn-TurnDecides : (p : Place) (c : ℕ) → TurnDecides (turn p c)
unfolding turn
turn-TurnDecides plain c = TurnDecides-if (c == b'\\') _ _ tt tt
turn-TurnDecides escape c =
    TurnDecides-if (c == b'u') _ _ tt (escape_turn-TurnDecides (short_escape c))
turn-TurnDecides (unicode ds) c =
    TurnDecides-if (ltb (length ds) 3) (emit [] (unicode (ds ++ c ∷ [])))
      (unicode_turn (from_str_radix_16 (ds ++ c ∷ []))) tt
      (unicode_turn-TurnDecides (from_str_radix_16 (ds ++ c ∷ [])))

pub at_end-Decides : (t : Turn) → TurnDecides t → Decides (at_end t)
at_end-Decides (emit out p) h = tt
at_end-Decides (refuse e) h = h

pub after_turn-Decides :
    (t : Turn) (more : Place → Result Str)
    → TurnDecides t
    → ((p : Place) → Decides (more p))
    → Decides (elim t [ emit out p ↦ push out (more p) | refuse e ↦ err e ])
after_turn-Decides (emit out p) more h others = Decides-push out (more p) (others p)
after_turn-Decides (refuse e) more h others = h

pub unescape_from-Decides : (s : Str) (p : Place) → Decides (unescape_from p s)
unfolding unescape_from
unescape_from-Decides [] plain = tt
unescape_from-Decides [] escape = tt
unescape_from-Decides [] (unicode ds) =
    at_end-Decides (unicode_turn (from_str_radix_16 (pad ds)))
      (unicode_turn-TurnDecides (from_str_radix_16 (pad ds)))
unescape_from-Decides (c ∷ s) p =
    after_turn-Decides (turn p c) (λ p'. unescape_from p' s) (turn-TurnDecides p c)
      (unescape_from-Decides s)

pub unescape_inner-Decides : (o : Option Str) → Decides (unescape_inner o)
unescape_inner-Decides none = tt
unescape_inner-Decides (some s) = unescape_from-Decides s plain

pub unescape_json_string-Decides : (s : Str) → Decides (unescape_json_string s)
unfolding unescape_json_string
unescape_json_string-Decides [] = tt
unescape_json_string-Decides (c ∷ s) =
    Decides-if (c == b'"') (unescape_inner (strip_quote s)) (err Parse.invalid_string)
      (unescape_inner-Decides (strip_quote s)) tt

pub first_of-Decides : (tests : List (Option Number)) → Decides (first_of tests)
first_of-Decides [] = tt
first_of-Decides (none ∷ rest) = first_of-Decides rest
first_of-Decides (some n ∷ rest) = tt

pub Decides-step :
    {A B : Type 0}
    → (r : Result A) (f : A → Result B) → Decides r
    → ((a : A) → Decides (f a))
    → Decides (r and_then f)
Decides-step (ok a) f h others = others a
Decides-step (err e) f h others = h

pub parse_literal_str-Decides : (f64 : Str → Option ℕ) (s : Str) → Decides (parse_literal_str f64 s)
unfolding parse_literal_str
parse_literal_str-Decides f64 [] = first_of-Decides (number_tests f64 [])
parse_literal_str-Decides f64 (c ∷ s) =
    Decides-if (c == b'"') (unescape_json_string (c ∷ s) and_then (λ t. ok (str t)))
      (first_of (number_tests f64 (c ∷ s)))
      (Decides-step (unescape_json_string (c ∷ s)) (λ t. ok (str t))
        (unescape_json_string-Decides (c ∷ s)) (λ t. tt))
      (first_of-Decides (number_tests f64 (c ∷ s)))

pub key_string-Decides : (s : Str) → Decides (key_string s)
key_string-Decides [] = tt
key_string-Decides (c ∷ s) =
    Decides-if (c == b'"') (unescape_json_string (c ∷ s)) (err Parse.invalid_key)
      (unescape_json_string-Decides (c ∷ s)) tt

pub parse_marker-Consumes :
    (m : Marker) (ts : Tokens) → Consumes (suc (weight ts)) (parse_marker m ts)
parse_marker-Consumes m end = tt
parse_marker-Consumes m (next (punct c) ts) =
    Consumes-if (suc (weight (next (punct c) ts))) (c == b'!') (ok (Parse.marker m, ts))
      (err Parse.expected_bang) (omega arith) tt
parse_marker-Consumes m (next (ident s) ts) = tt
parse_marker-Consumes m (next (literal s) ts) = tt
parse_marker-Consumes m (next (group d inner) ts) = tt

pub parse_ident-Consumes : (s : Str) (ts : Tokens) → Consumes (suc (weight ts)) (parse_ident s ts)
parse_ident-Consumes s ts =
    let n = suc (weight ts) in
    let less : weight ts < suc (weight ts) = omega arith in
    Consumes-if n (str_eq s (chars "true")) _ _ less (
      Consumes-if n (str_eq s (chars "false")) _ _ less (
        Consumes-if n (str_eq s (chars "null")) _ _ less (
          Consumes-if n (str_eq s (chars "duration")) _ _ (parse_marker-Consumes Marker.duration ts)
            (Consumes-if n (str_eq s (chars "counter")) _ _
              (parse_marker-Consumes Marker.counter ts) tt))))
