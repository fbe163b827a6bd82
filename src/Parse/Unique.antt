-- ===== src/Parse/Unique.antt =====
-- The keys of the objects that `parse_value` of wide-log-macros/src/parse.rs accepts.
use wide_log.Prelude.{
  ℕ, zero, suc, ◌≡◌, refl, subst, Bool, true, false, Option, List, [], ◌∷◌, Str, str_eq,
  str_eq_refl, str_eq→eq, chars, none, some, ◌==◌, if◌then◌else◌, Bool-cases, inl, inr,
}
use wide_log.Parse.{
  Result, ok, err, ◌and_then◌, and_then-eq-ok, JsonNode, Entries, Marker, Number, null, bool,
  number, str, object, marker, nil, entry, Tokens, end, next, ident, punct, literal, group, brace,
  bracket, parenthesis, invisible, expected_comma,
}
use wide_log.Parse.Literals.{parse_literal_str, first_of, number_tests}
use wide_log.Parse.Text.{unescape_json_string}
use wide_log.Parse.Overrides.{
  KeyOverrides, no_overrides, parse_overrides, seen_path, After, stop, again, wrong, after_round,
}
use wide_log.Parse.Overrides.Valid.{IsValid, parse_overrides-IsValid}
use wide_log.Parse.Tree.{
  parse_ident, parse_marker, parse_key, parse_colon, check_key, only, parse_negative, parse_value,
  parse_object, parse_fields, parse_prefix, parse_comma, expect_object, parse_wide_log_input,
}

abbrev pub has_key : Str → Entries → Bool
has_key k nil = false
has_key k (entry j v es) = if str_eq j k then true else has_key k es

-- No object has a key twice, at any depth.
abbrev mutual
  pub IsUnique : JsonNode → Type 0
  IsUnique (object es) = IsUniqueEntries es
  IsUnique _ = Unit

  pub IsUniqueEntries : Entries → Type 0
  IsUniqueEntries nil = Unit
  IsUniqueEntries (entry k v es) = (has_key k es ≡ false) × IsUnique v × IsUniqueEntries es

-- None of the keys seen is a key of the entries.
abbrev Unseen : List Str → Entries → Type 0
Unseen seen es = (k : Str) → seen_path k seen ≡ true → has_key k es ≡ false

Unseen-entry :
    (key : Str) (value : JsonNode) (es : Entries) (seen : List Str)
    → seen_path key seen ≡ false
    → Unseen (key ∷ seen) es
    → (has_key key es ≡ false) × Unseen seen (entry key value es)
Unseen-entry key value es seen new rest = (
  rest key (rw (str_eq_refl key)),
  λ k was. elim (Bool-cases (str_eq key k)) [
    | inl same ↦ let e = str_eq→eq key k same in cc
    | inr differs ↦ rw differs (rest k (rw differs was))
  ],
)

-- The node that a result carries, if there is one, is unique.
abbrev Good : Result (JsonNode × Tokens) → Type 0
Good (ok (v, rest)) = IsUnique v
Good (err e) = Unit

abbrev GoodNode : Result JsonNode → Type 0
GoodNode (ok v) = IsUnique v
GoodNode (err e) = Unit

Good-if :
    (b : Bool) (x y : Result (JsonNode × Tokens)) → Good x → Good y → Good (if b then x else y)
Good-if true x y hx hy = hx
Good-if false x y hx hy = hy

Good-node :
    (r : Result JsonNode) (ts : Tokens) → GoodNode r → Good (r and_then (λ node. ok (node, ts)))
Good-node (ok v) ts h = h
Good-node (err e) ts h = tt

Good-ok :
    (r : Result (JsonNode × Tokens)) (v : JsonNode) (rest : Tokens)
    → Good r
    → r ≡ ok (v, rest)
    → IsUnique v
Good-ok (ok (w, more)) v rest h eq = subst IsUnique {x = w} (cc eq) h
Good-ok (err e) v rest h eq = cc

parse_marker-Good : (m : Marker) (ts : Tokens) → Good (parse_marker m ts)
parse_marker-Good m end = tt
parse_marker-Good m (next (punct c) ts) = Good-if (c == b'!') _ _ tt tt
parse_marker-Good m (next (ident s) ts) = tt
parse_marker-Good m (next (literal s) ts) = tt
parse_marker-Good m (next (group d inner) ts) = tt

parse_ident-Good : (s : Str) (ts : Tokens) → Good (parse_ident s ts)
parse_ident-Good s ts = Good-if (str_eq s (chars "true")) _ _ tt (
    Good-if (str_eq s (chars "false")) _ _ tt (
      Good-if (str_eq s (chars "null")) _ _ tt (
        Good-if (str_eq s (chars "duration")) _ _ (parse_marker-Good Marker.duration ts)
          (Good-if (str_eq s (chars "counter")) _ _ (parse_marker-Good Marker.counter ts) tt))))

first_of-GoodNode : (tests : List (Option Number)) → GoodNode (first_of tests)
first_of-GoodNode [] = tt
first_of-GoodNode (none ∷ rest) = first_of-GoodNode rest
first_of-GoodNode (some n ∷ rest) = tt

GoodNode-if :
    (b : Bool) (x y : Result JsonNode) → GoodNode x → GoodNode y → GoodNode (if b then x else y)
GoodNode-if true x y hx hy = hx
GoodNode-if false x y hx hy = hy

GoodNode-str : (r : Result Str) → GoodNode (r and_then (λ t. ok (str t)))
GoodNode-str (ok t) = tt
GoodNode-str (err e) = tt

parse_literal_str-GoodNode : (f64 : Str → Option ℕ) (s : Str) → GoodNode (parse_literal_str f64 s)
unfolding parse_literal_str
parse_literal_str-GoodNode f64 [] = first_of-GoodNode (number_tests f64 [])
parse_literal_str-GoodNode f64 (c ∷ s) =
    GoodNode-if (c == b'"') _ _ (GoodNode-str (unescape_json_string (c ∷ s)))
      (first_of-GoodNode (number_tests f64 (c ∷ s)))

parse_negative-Good : (f64 : Str → Option ℕ) (ts : Tokens) → Good (parse_negative f64 ts)
parse_negative-Good f64 end = tt
parse_negative-Good f64 (next (literal s) ts) =
    Good-node (parse_literal_str f64 (b'-' ∷ s)) ts (parse_literal_str-GoodNode f64 (b'-' ∷ s))
parse_negative-Good f64 (next (ident s) ts) = tt
parse_negative-Good f64 (next (punct c) ts) = tt
parse_negative-Good f64 (next (group d inner) ts) = tt

-- The rest of a round, once its key is known to be new.
after-Unique :
    (key : Str) (value : JsonNode) (seen : List Str) (es : Entries) (more : Tokens → Result Entries)
    (a : After)
    → seen_path key seen ≡ false
    → IsUnique value
    → ((ts : Tokens) (rest : Entries)
        → more ts ≡ ok rest
        → IsUniqueEntries rest × Unseen (key ∷ seen) rest)
    → elim a [
      | stop ↦ ok (entry key value nil)
      | wrong ↦ err expected_comma
      | again ts' ↦ more ts' and_then λ rest. ok (entry key value rest)
    ]
      ≡ ok es
    → IsUniqueEntries es × Unseen seen es
after-Unique key value seen es more stop new h others eq =
    let (absent, unseen) = Unseen-entry key value nil seen new (λ k was. refl) in
    subst (λ x. IsUniqueEntries x × Unseen seen x) {x = entry key value nil} (cc eq)
      ((absent, h, tt), unseen)
after-Unique key value seen es more wrong new h others eq = cc
after-Unique key value seen es more (again ts') new h others eq =
    let (rest, made, eq') = and_then-eq-ok (more ts') _ eq in
    let (unique, hidden) = others ts' rest made in
    let (absent, unseen) = Unseen-entry key value rest seen new hidden in
    subst (λ x. IsUniqueEntries x × Unseen seen x) {x = entry key value rest} (cc eq')
      ((absent, h, unique), unseen)

only-eq-ok : {A : Type 0} → (a : A) (ts : Tokens) {b : A} → only (a, ts) ≡ ok b → a ≡ b
only-eq-ok a end eq = cc eq
only-eq-ok a (next t ts) eq = cc

check_key-new :
    (key : Str) (seen : List Str) (same : Str)
    → check_key key seen ≡ ok same
    → seen_path key seen ≡ false
check_key-new key seen same checked = elim (Bool-cases (seen_path key seen)) [
  | inl twice ↦ cc (rw twice at checked)
  | inr new ↦ new
]

module _ (f64 : Str → Option ℕ) where
  mutual
    unfolding parse_value

    value-IsUnique :
        (f : ℕ) (ts rest : Tokens) (v : JsonNode) → parse_value f64 f ts ≡ ok (v, rest) → IsUnique v
    value-IsUnique f end rest v eq = cc
    value-IsUnique f (next (ident s) ts) rest v eq =
        Good-ok (parse_ident s ts) v rest (parse_ident-Good s ts) eq
    value-IsUnique f (next (punct c) ts) rest v eq =
        Good-ok _ v rest (Good-if (c == b'-') _ _ (parse_negative-Good f64 ts) tt) eq
    value-IsUnique f (next (literal s) ts) rest v eq =
        Good-ok _ v rest (Good-node (parse_literal_str f64 s) ts (parse_literal_str-GoodNode f64 s))
          eq
    value-IsUnique f (next (group bracket inner) ts) rest v eq = cc
    value-IsUnique f (next (group invisible inner) ts) rest v eq = cc
    value-IsUnique zero (next (group brace inner) ts) rest v eq = cc
    value-IsUnique zero (next (group parenthesis inner) ts) rest v eq = cc
    value-IsUnique (suc f) (next (group brace end) ts) rest v eq =
        subst IsUnique {x = object nil} (cc eq) tt
    value-IsUnique (suc f) (next (group brace (next t us)) ts) rest v eq =
        let (node, made, eq₁) =
          and_then-eq-ok (parse_object (next t us) (parse_fields f64 f [] (next t us))) _ eq in
        let (es, read, eq₂) = and_then-eq-ok (parse_fields f64 f [] (next t us)) _ made in
        subst IsUnique {x = object es} (cc (eq₁, eq₂)) (fields-IsUnique f [] (next t us) es read).0
    value-IsUnique (suc f) (next (group parenthesis inner) ts) rest v eq =
        let ((w, left), read, eq₁) = and_then-eq-ok (parse_value f64 f inner) _ eq in
        let (node, alone, eq₂) = and_then-eq-ok (only (w, left)) _ eq₁ in
        let same = only-eq-ok w left alone in
        subst IsUnique {x = w} (cc (same, eq₂)) (value-IsUnique f inner left w read)

    pub fields-IsUnique :
        (f : ℕ) (seen : List Str) (ts : Tokens) (es : Entries)
        → parse_fields f64 f seen ts ≡ ok es
        → IsUniqueEntries es × Unseen seen es
    fields-IsUnique zero seen ts es eq = cc
    fields-IsUnique (suc f) seen ts es eq =
        let ((key, ts₁), _, eq₁) = and_then-eq-ok (parse_key ts) _ eq in
        let (ts₂, _, eq₂) = and_then-eq-ok (parse_colon ts₁) _ eq₁ in
        let ((value, ts₃), read, eq₃) = and_then-eq-ok (parse_value f64 f ts₂) _ eq₂ in
        let (same, checked, eq₄) = and_then-eq-ok (check_key key seen) _ eq₃ in
        let new = check_key-new key seen same checked in
        after-Unique key value seen es (parse_fields f64 f (key ∷ seen)) (after_round ts₃) new
          (value-IsUnique f ts₂ ts₃ value read)
          (λ ts' rest made. fields-IsUnique f (key ∷ seen) ts' rest made) eq₄

expect_object-IsUnique :
    (node : JsonNode) (es : Entries)
    → IsUnique node
    → expect_object node ≡ ok es
    → IsUniqueEntries es
expect_object-IsUnique (object fs) es h eq = subst IsUniqueEntries {x = fs} (cc eq) h
expect_object-IsUnique null es h eq = cc
expect_object-IsUnique (bool b) es h eq = cc
expect_object-IsUnique (number n) es h eq = cc
expect_object-IsUnique (str s) es h eq = cc
expect_object-IsUnique (marker m) es h eq = cc

default-IsValid :
    {ts : Tokens} {ovr : KeyOverrides} {rest : Tokens}
    → ◌≡◌ {A = Result (KeyOverrides × Tokens)} (ok (no_overrides, ts)) (ok (ovr, rest))
    → IsValid ovr
default-IsValid eq = subst IsValid {x = no_overrides} (cc eq) (tt, tt, tt, tt, tt, tt, tt, tt)

prefix-IsValid :
    (ts : Tokens) (ovr : KeyOverrides) (rest : Tokens)
    → parse_prefix ts ≡ ok (ovr, rest)
    → IsValid ovr
prefix-IsValid (next (group bracket inner) ts) ovr rest eq =
    let (made, set, eq₁) = and_then-eq-ok (parse_overrides inner) _ eq in
    let (left, _, eq₂) = and_then-eq-ok (parse_comma ts) _ eq₁ in
    subst IsValid {x = made} (cc eq₂) (parse_overrides-IsValid inner made set)
prefix-IsValid end ovr rest eq = default-IsValid eq
prefix-IsValid (next (ident s) ts) ovr rest eq = default-IsValid eq
prefix-IsValid (next (punct c) ts) ovr rest eq = default-IsValid eq
prefix-IsValid (next (literal s) ts) ovr rest eq = default-IsValid eq
prefix-IsValid (next (group brace inner) ts) ovr rest eq = default-IsValid eq
prefix-IsValid (next (group parenthesis inner) ts) ovr rest eq = default-IsValid eq
prefix-IsValid (next (group invisible inner) ts) ovr rest eq = default-IsValid eq

-- When the macro accepts its input, no object of the tree it makes, at any depth, has a key twice, and
-- every name that the override list sets is not empty and has no dot, no quote and no backslash.
pub parse_wide_log_input-IsUnique :
    (f64 : Str → Option ℕ) (f : ℕ) (ts : Tokens) (ovr : KeyOverrides) (es : Entries)
    → parse_wide_log_input f64 f ts ≡ ok (ovr, es)
    → IsValid ovr × IsUniqueEntries es
unfolding parse_wide_log_input
parse_wide_log_input-IsUnique f64 f ts ovr es eq =
    let ((ovr₁, ts₁), before, eq₁) = and_then-eq-ok (parse_prefix ts) _ eq in
    let ((v, rest), read, eq₂) = and_then-eq-ok (parse_value f64 f ts₁) _ eq₁ in
    let (node, alone, eq₃) = and_then-eq-ok (only (v, rest)) _ eq₂ in
    let (es₁, is_object, eq₄) = and_then-eq-ok (expect_object node) _ eq₃ in
    let same_ovr : ovr₁ ≡ ovr = cc eq₄ in
    let same_es : es₁ ≡ es = cc eq₄ in
    let same_node : v ≡ node = only-eq-ok v rest alone in
    (
      subst IsValid same_ovr (prefix-IsValid ts ovr₁ ts₁ before),
      subst IsUniqueEntries same_es (
          expect_object-IsUnique node es₁
            (subst IsUnique same_node (value-IsUnique f64 f ts₁ rest v read)) is_object),
    )
