-- ===== src/Parse/Grammar/Sound.antt =====
-- What `parse_value` of wide-log-macros/src/parse.rs accepts is in the grammar.
use wide_log.Prelude.{
  ℕ, zero, suc, ◌≡◌, refl, subst, Bool, true, false, Option, List, [], ◌∷◌, Str, str_eq, str_eq→eq,
  chars, ◌==◌, if◌then◌else◌, Bool-cases, inl, inr, arith,
}
use wide_log.Parse.{
  Result, ok, err, ◌and_then◌, and_then-eq-ok, JsonNode, Entries, Marker, object, marker, nil,
  entry, Tokens, Token, end, next, ident, punct, literal, group, brace, bracket, parenthesis,
  invisible, expected_comma, expected_bang,
}
use wide_log.Parse.Literals.{parse_literal_str}
use wide_log.Parse.Overrides.{stop, again, wrong, after_round}
use wide_log.Parse.Tree.{
  parse_ident, parse_marker, parse_key, key_string, parse_colon, check_key, only, parse_negative,
  parse_value, parse_object, parse_fields,
}
use wide_log.Parse.Unique.{IsUniqueEntries, fields-IsUnique}
use wide_log.Parse.Grammar.{
  is_constant, IsKey, HasDistinctKeys, IsValue, IsFields, true_word, false_word, null_word,
  duration_marker, counter_marker, negative, plain, empty_braces, braces, parens, one_field,
  more_fields,
}

pub IsUniqueEntries-HasDistinctKeys : (es : Entries) → IsUniqueEntries es → HasDistinctKeys es
IsUniqueEntries-HasDistinctKeys nil h = tt
IsUniqueEntries-HasDistinctKeys (entry k v es) h = (h.0, IsUniqueEntries-HasDistinctKeys es h.2)

parse_key-IsKey :
    (ts : Tokens) (key : Str) (rest : Tokens)
    → parse_key ts ≡ ok (key, rest)
    → (t : Token) × (ts ≡ next t rest) × IsKey t key
unfolding parse_key
parse_key-IsKey end key rest eq = cc
parse_key-IsKey (next (literal s) ts) key rest eq =
    let (k, read, eq₁) = and_then-eq-ok (key_string s) _ eq in (literal s, cc eq₁, cc (read, eq₁))
parse_key-IsKey (next (ident s) ts) key rest eq = elim (Bool-cases (is_constant s)) [
  | inl is ↦ cc (rw is at eq)
  | inr isnt ↦ let same = rw isnt at eq in (ident s, cc same, (isnt, cc same))
]
parse_key-IsKey (next (punct c) ts) key rest eq = cc
parse_key-IsKey (next (group d inner) ts) key rest eq = cc

colon-eq :
    (ts rest : Tokens)
    → parse_colon ts ≡ ok rest
    → (c : ℕ) × (ts ≡ next (punct c) rest) × (c ≡ b':')
colon-eq end rest eq = cc
colon-eq (next (punct c) ts) rest eq = elim (Bool-cases (c == b':')) [
  | inl is ↦ (c, cc (rw is at eq), ground arith)
  | inr isnt ↦ cc (rw isnt at eq)
]
colon-eq (next (ident s) ts) rest eq = cc
colon-eq (next (literal s) ts) rest eq = cc
colon-eq (next (group d inner) ts) rest eq = cc

module _ (f64 : Str → Option ℕ) where
  -- A result that is in the grammar, if it is a node.
  abbrev pub InGrammar : Tokens → Result (JsonNode × Tokens) → Type 0
  InGrammar ts (ok (v, rest)) = IsValue f64 ts v rest
  InGrammar ts (err e) = Unit

  InGrammar-if :
      (ts : Tokens) (b : Bool) (x y : Result (JsonNode × Tokens))
      → (b ≡ true → InGrammar ts x)
      → InGrammar ts y
      → InGrammar ts (if b then x else y)
  InGrammar-if ts true x y hx hy = hx refl
  InGrammar-if ts false x y hx hy = hy

  pub InGrammar-ok :
      (ts : Tokens) (r : Result (JsonNode × Tokens)) {v : JsonNode} {rest : Tokens}
      → InGrammar ts r
      → r ≡ ok (v, rest)
      → IsValue f64 ts v rest
  InGrammar-ok ts r h eq = subst (InGrammar ts) eq h

  InGrammar-node :
      (ts rest : Tokens) (r : Result JsonNode)
      → ((v : JsonNode) → r ≡ ok v → IsValue f64 ts v rest)
      → InGrammar ts (r and_then λ node. ok (node, rest))
  InGrammar-node ts rest (ok v) h = h v refl
  InGrammar-node ts rest (err e) h = tt

  marker-InGrammar :
      (s : Str) (m : Marker) (ts : Tokens)
      → ((c : ℕ) (us : Tokens)
          → c ≡ b'!'
          → IsValue f64 (next (ident s) (next (punct c) us)) (marker m) us)
      → InGrammar (next (ident s) ts) (parse_marker m ts)
  marker-InGrammar s m end h = tt
  marker-InGrammar s m (next (punct c) ts) h =
      InGrammar-if (next (ident s) (next (punct c) ts)) (c == b'!') (ok (marker m, ts))
        (err expected_bang) (λ is. h c ts (ground arith)) tt
  marker-InGrammar s m (next (ident s') ts) h = tt
  marker-InGrammar s m (next (literal s') ts) h = tt
  marker-InGrammar s m (next (group d inner) ts) h = tt

  ident-InGrammar : (s : Str) (ts : Tokens) → InGrammar (next (ident s) ts) (parse_ident s ts)
  ident-InGrammar s ts =
      let is = λ (word : Str) (h : str_eq s word ≡ true). str_eq→eq s word h in
      let here = InGrammar-if (next (ident s) ts) in
      here (str_eq s (chars "true")) _ _ (λ h. true_word (is _ h))
        (here (str_eq s (chars "false")) _ _ (λ h. false_word (is _ h))
          (here (str_eq s (chars "null")) _ _ (λ h. null_word (is _ h))
            (here (str_eq s (chars "duration")) _ _
              (λ h.
                marker-InGrammar s Marker.duration ts λ c us bang. duration_marker (is _ h) bang)
              (here (str_eq s (chars "counter")) _ _
                (λ h.
                  marker-InGrammar s Marker.counter ts λ c us bang. counter_marker (is _ h) bang)
                tt))))

  negative-InGrammar :
      (c : ℕ) (ts : Tokens) → c ≡ b'-' → InGrammar (next (punct c) ts) (parse_negative f64 ts)
  negative-InGrammar c end minus = tt
  negative-InGrammar c (next (literal s) ts) minus =
      InGrammar-node (next (punct c) (next (literal s) ts)) ts (parse_literal_str f64 (b'-' ∷ s))
        (λ v read. negative minus read)
  negative-InGrammar c (next (ident s) ts) minus = tt
  negative-InGrammar c (next (punct d) ts) minus = tt
  negative-InGrammar c (next (group d inner) ts) minus = tt

  -- What a round of the loop makes of the tokens behind the value.
  after-IsFields :
      (t : Token) (key : Str) (c : ℕ) (ts : Tokens) (v : JsonNode) (rest : Tokens) (es : Entries)
      (more : Tokens → Result Entries)
      → IsKey t key
      → c ≡ b':'
      → IsValue f64 ts v rest
      → ((u : Token) (us : Tokens) (fs : Entries)
          → more (next u us) ≡ ok fs
          → IsFields f64 (next u us) fs)
      → elim (after_round rest) [
        | stop ↦ ok (entry key v nil)
        | wrong ↦ err expected_comma
        | again ts' ↦ more ts' and_then λ fs. ok (entry key v fs)
      ]
        ≡ ok es
      → IsFields f64 (next t (next (punct c) ts)) es
  after-IsFields t key c ts v end es more k colon value others eq =
      subst (IsFields f64 (next t (next (punct c) ts))) {x = entry key v nil} (cc eq)
        (one_field k colon value tt)
  after-IsFields t key c ts v (next (punct d) end) es more k colon value others eq =
      elim (Bool-cases (d == b',')) [
        | inl is ↦
            subst (IsFields f64 (next t (next (punct c) ts))) {x = entry key v nil}
              (cc (rw is at eq)) (one_field k colon value (ground arith))
        | inr isnt ↦ cc (rw isnt at eq)
      ]
  after-IsFields t key c ts v (next (punct d) (next u us)) es more k colon value others eq =
      elim (Bool-cases (d == b',')) [
        | inl is ↦
            let (fs, made, eq₁) = and_then-eq-ok (more (next u us)) _ (rw is at eq) in
            subst (IsFields f64 (next t (next (punct c) ts))) {x = entry key v fs} (cc eq₁)
              (more_fields k colon value (ground arith) (others u us fs made))
        | inr isnt ↦ cc (rw isnt at eq)
      ]
  after-IsFields t key c ts v (next (ident s) us) es more k colon value others eq = cc
  after-IsFields t key c ts v (next (literal s) us) es more k colon value others eq = cc
  after-IsFields t key c ts v (next (group d inner) us) es more k colon value others eq = cc

  pub only-end :
      {A : Type 0} → (a : A) (ts : Tokens) {b : A} → only (a, ts) ≡ ok b → (a ≡ b) × (ts ≡ end)
  only-end a end eq = (cc eq, refl)
  only-end a (next t ts) eq = cc

  mutual
    unfolding parse_value

    pub value-InGrammar : (f : ℕ) (ts : Tokens) → InGrammar ts (parse_value f64 f ts)
    value-InGrammar f end = tt
    value-InGrammar f (next (ident s) ts) = ident-InGrammar s ts
    value-InGrammar f (next (punct c) ts) =
        InGrammar-if (next (punct c) ts) (c == b'-') _ _
          (λ is. negative-InGrammar c ts (ground arith)) tt
    value-InGrammar f (next (literal s) ts) =
        InGrammar-node (next (literal s) ts) ts (parse_literal_str f64 s) (λ v read. plain read)
    value-InGrammar f (next (group bracket inner) ts) = tt
    value-InGrammar f (next (group invisible inner) ts) = tt
    value-InGrammar zero (next (group brace inner) ts) = tt
    value-InGrammar zero (next (group parenthesis inner) ts) = tt
    value-InGrammar (suc f) (next (group brace end) ts) = empty_braces
    value-InGrammar (suc f) (next (group brace (next t us)) ts) =
        let inner = next t us in
        InGrammar-node (next (group brace inner) ts) ts
          (parse_object inner (parse_fields f64 f [] inner))
          (λ v made.
            let (es, read, eq) = and_then-eq-ok (parse_fields f64 f [] inner) _ made in
            let distinct =
              IsUniqueEntries-HasDistinctKeys es (fields-IsUnique f64 f [] inner es read).0 in
            subst (λ n. IsValue f64 (next (group brace inner) ts) n ts) {x = object es} (cc eq)
              (braces (parse_fields-IsFields f [] inner es read) distinct))
    value-InGrammar (suc f) (next (group parenthesis inner) ts) =
        after_value (parse_value f64 f inner) (value-InGrammar f inner)
      where
        after_value :
            (r : Result (JsonNode × Tokens))
            → InGrammar inner r
            → InGrammar
                (next (group parenthesis inner) ts)
                (r and_then λ parsed. only parsed and_then λ node. ok (node, ts))
        after_value (ok (v, end)) h = parens h
        after_value (ok (v, next t us)) h = tt
        after_value (err e) h = tt

    pub parse_fields-IsFields :
        (f : ℕ) (seen : List Str) (ts : Tokens) (es : Entries)
        → parse_fields f64 f seen ts ≡ ok es
        → IsFields f64 ts es
    parse_fields-IsFields zero seen ts es eq = cc
    parse_fields-IsFields (suc f) seen ts es eq =
        let ((key, ts₁), key_read, eq₁) = and_then-eq-ok (parse_key ts) _ eq in
        let (ts₂, colon_read, eq₂) = and_then-eq-ok (parse_colon ts₁) _ eq₁ in
        let ((value, ts₃), read, eq₃) = and_then-eq-ok (parse_value f64 f ts₂) _ eq₂ in
        let (same, checked, eq₄) = and_then-eq-ok (check_key key seen) _ eq₃ in
        let (t, at_key, is_key) = parse_key-IsKey ts key ts₁ key_read in
        let (c, at_colon, is_colon) = colon-eq ts₁ ts₂ colon_read in
        subst (λ us. IsFields f64 us es) {x = next t (next (punct c) ts₂)} (cc (at_key, at_colon))
          (after-IsFields t key c ts₂ value ts₃ es (parse_fields f64 f (key ∷ seen)) is_key is_colon
            (InGrammar-ok ts₂ (parse_value f64 f ts₂) (value-InGrammar f ts₂) read)
            (λ u us fs made. parse_fields-IsFields f (key ∷ seen) (next u us) fs made) eq₄)
