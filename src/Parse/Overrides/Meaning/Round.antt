-- ===== src/Parse/Overrides/Meaning/Round.antt =====
-- One round of the override loop of wide-log-macros/src/parse.rs reads one item.
use wide_log.Prelude.{
  ◌<◌, ◌≡◌, refl, ◌∙◌, ap, subst, false, none, List, ◌∷◌, Str, Bool-cases, inl, inr, arith,
}
use wide_log.Parse.{
  Result, ok, and_then-eq-ok, Tokens, end, next, ident, punct, literal, group, weight,
}
use wide_log.Parse.Grammar.{IsEnd}
use wide_log.Parse.Overrides.{
  KeyOverrides, OverridePath, parse_override_path, parse_arrow, parse_override_value,
  override_string, seen_path, path_str, assign_override, validate_override_value, parse_override,
  stop, again, after_round,
}
use wide_log.Parse.Overrides.Plain.{
  IsPlain, validate_override_value-IsPlain, IsPlain-validate_override_value,
}
use wide_log.Parse.Overrides.Meaning.{BuiltinKey, path_of, IsPath, IsItem}
use wide_log.Parse.Overrides.Meaning.Items.{
  field_of, set_field, IsAssigned, assign_path-set_field, assign_path-IsAssigned,
}

parse_override_path-IsPath :
    (ts rest : Tokens) (path : OverridePath)
    → parse_override_path ts ≡ ok (path, rest)
    → IsPath ts path rest
unfolding parse_override_path
parse_override_path-IsPath ts rest path h = ground arith

-- What an arrow and a text stand for.
parse_arrow-eq :
    (ts rest : Tokens) → parse_arrow ts ≡ ok rest → ts ≡ next (punct b'=') (next (punct b'>') rest)
parse_arrow-eq ts rest h = ground arith

parse_override_value-eq :
    (ts rest : Tokens) (value : Str)
    → parse_override_value ts ≡ ok (value, rest)
    → (s : Str) × (ts ≡ next (literal s) rest) × (override_string s ≡ ok value)
parse_override_value-eq (next (literal s) ts) rest value h =
    let (v, meant, same) = and_then-eq-ok (override_string s) _ h in (s, cc, cc)
parse_override_value-eq (next (ident s) ts) rest value h = cc
parse_override_value-eq (next (punct c) ts) rest value h = cc
parse_override_value-eq (next (group d inner) ts) rest value h = cc
parse_override_value-eq end rest value h = cc

pub after_round-stop : (rest : Tokens) → after_round rest ≡ stop → IsEnd rest
after_round-stop rest h = ground arith

pub after_round-again :
    (rest ts : Tokens) → after_round rest ≡ again ts → rest ≡ next (punct b',') ts
after_round-again rest ts h = ground arith

pub IsEnd-after_round : (rest : Tokens) → IsEnd rest → after_round rest ≡ stop
IsEnd-after_round rest h = ground arith

assign_override-IsAssigned :
    (o o' : KeyOverrides) (path : OverridePath) (name : Str)
    → assign_override o path name ≡ ok o'
    → IsPlain name × IsAssigned o path name o'
unfolding assign_override
assign_override-IsAssigned o o' path name h = elim (Bool-cases (validate_override_value name)) [
  | inl fine ↦ (
    validate_override_value-IsPlain name fine,
    assign_path-IsAssigned o o' name path (rw fine at h),
  )
  | inr bad ↦ cc (rw bad at h)
]

ok-parts :
    {A B C : Type 0}
    → (a a' : A) (b b' : B) (c c' : C)
    → ◌≡◌ {A = Result (A × (B × C))} (ok (a, (b, c))) (ok (a', (b', c')))
    → (a ≡ a') × (c ≡ c')
ok-parts a a' b b' c c' h = (cc, cc)

-- A round that ends well has read an item for a key that was not set, and has set it.
pub parse_override-IsItem :
    (o o' : KeyOverrides) (seen seen' : List Str) (ts rest : Tokens)
    → parse_override o seen ts ≡ ok (o', (seen', rest))
    → (k : BuiltinKey) × (name : Str) × IsItem ts k name rest
      × (field_of k o ≡ none)
      × (set_field k name o ≡ o')
parse_override-IsItem o o' seen seen' ts rest h =
    let ((path, ts₁), pathed, h₁) = and_then-eq-ok (parse_override_path ts) _ h in
    let (ts₂, arrow, h₂) = and_then-eq-ok (parse_arrow ts₁) _ h₁ in
    let ((name, ts₃), valued, h₃) = and_then-eq-ok (parse_override_value ts₂) _ h₂ in
    elim (Bool-cases (seen_path (path_str path) seen)) [
      | inl twice ↦ cc (rw twice at h₃)
      | inr new ↦
          let (made, assigned, h₄) =
            and_then-eq-ok (assign_override o path name) _ (rw new at h₃) in
          let (plain, (k, same, unset, set)) =
            assign_override-IsAssigned o made path name assigned in
          let (s, text, meant) = parse_override_value-eq ts₂ ts₃ name valued in
          let (made_is, left) = ok-parts made o' _ seen' ts₃ rest h₄ in
          let follows : ts₁ ≡ next (punct b'=') (next (punct b'>') (next (literal s) rest)) =
            parse_arrow-eq ts₁ ts₂ arrow
            ∙ ap (λ t. next (punct b'=') (next (punct b'>') t))
                (text ∙ ap (next (literal s)) left) in
          (
            k,
            name,
            (
              s,
              subst
                  (λ p. IsPath ts p (next (punct b'=') (next (punct b'>') (next (literal s) rest))))
                  same
                  (subst (IsPath ts path) follows (parse_override_path-IsPath ts ts₁ path pathed)),
              meant,
              plain,
            ),
            unset,
            set ∙ made_is,
          )
    ]

-- The tokens of a key's path, with an arrow behind them, are read as that path.
IsPath-parse_override_path :
    (k : BuiltinKey) (ts rest : Tokens)
    → IsPath ts (path_of k) (next (punct b'=') (next (punct b'>') rest))
    → parse_override_path ts ≡ ok (path_of k, next (punct b'=') (next (punct b'>') rest))
unfolding parse_override_path
IsPath-parse_override_path k ts rest h = ground arith

-- A round reads an item whose key is neither set nor seen.
pub IsItem-parse_override :
    (k : BuiltinKey) (name : Str) (o : KeyOverrides) (seen : List Str) (ts rest : Tokens)
    → IsItem ts k name rest
    → field_of k o ≡ none
    → seen_path (path_str (path_of k)) seen ≡ false
    → parse_override o seen ts ≡ ok (set_field k name o, (path_str (path_of k) ∷ seen, rest))
unfolding assign_override
IsItem-parse_override k name o seen ts rest (s, path, meant, plain) unset new =
    rw (IsPath-parse_override_path k ts (next (literal s) rest) path) (
      rw meant (
        rw new (
          rw (IsPlain-validate_override_value name plain)
            (rw (assign_path-set_field k name o unset) refl))))

-- An item takes more than its last token.
pub IsItem-weight :
    (k : BuiltinKey) (name : Str) (ts rest : Tokens)
    → IsItem ts k name rest
    → weight rest < weight ts
IsItem-weight k name ts rest (s, path, meant, plain) = ground arith
