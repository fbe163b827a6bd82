-- ===== src/Parse/Overrides/Meaning/Exact.antt =====
-- The override loop of wide-log-macros/src/parse.rs reads exactly the lists of items.
use wide_log.Prelude.{
  ℕ, zero, suc, ◌≤◌, ◌≡◌, refl, sym, ◌∙◌, ap, subst, false, none, List, [], ◌∷◌, Str, Bool-cases,
  inl, inr, ◌↔◌, arith, All,
}
use wide_log.Parse.{ok, err, and_then-eq-ok, Tokens, end, next, punct, weight, expected_comma}
use wide_log.Parse.Overrides.{
  KeyOverrides, no_overrides, seen_path, path_str, parse_override, After, stop, again, wrong,
  after_round, override_loop, parse_overrides,
}
use wide_log.Parse.Overrides.Meaning.{
  BuiltinKey, path_of, is_same, Items, lookup, IsDistinct, overrides_of, IsItem, IsItems,
}
use wide_log.Parse.Overrides.Meaning.Items.{
  field_of, set_field, merge, merge-set_field, field_of-set_field, is_same_comm, merge-no_overrides,
  no_overrides-field_of,
}
use wide_log.Parse.Overrides.Meaning.Round.{
  parse_override-IsItem, IsItem-parse_override, IsItem-weight, after_round-stop, after_round-again,
  IsEnd-after_round,
}

-- The keys of the items are not set yet.
abbrev AreUnset : KeyOverrides → Items → Type 0
AreUnset o items = All (λ i. field_of i.0 o ≡ none) items

-- What the list that the loop reads from these tokens is, where it gives these overrides.
abbrev IsList : Tokens → KeyOverrides → KeyOverrides → Type 0
IsList ts o o' =
    (items : Items) × IsItems ts items × IsDistinct items × AreUnset o items × (merge items o ≡ o')

-- A key that is set is not among those that are not set yet.
AreUnset-lookup :
    (k : BuiltinKey) (name : Str) (o : KeyOverrides) (items : Items)
    → AreUnset (set_field k name o) items
    → lookup k items ≡ none
AreUnset-lookup k name o [] h = refl
AreUnset-lookup k name o ((j, s) ∷ items) (unset, h) = elim (Bool-cases (is_same j k)) [
  | inl same ↦ let there = field_of-set_field k j name o in let there' = rw same at there in cc
  | inr other ↦ rw other (AreUnset-lookup k name o items h)
]

AreUnset-set_field :
    (k : BuiltinKey) (name : Str) (o : KeyOverrides) (items : Items)
    → AreUnset (set_field k name o) items
    → AreUnset o items
AreUnset-set_field k name o [] h = tt
AreUnset-set_field k name o ((j, s) ∷ items) (unset, h) =
    let there = field_of-set_field k j name o in
    let rest = AreUnset-set_field k name o items h in
    elim (Bool-cases (is_same j k)) [
      | inl same ↦ let there' = rw same at there in cc
      | inr other ↦ let there' = rw other at there in (cc, rest)
    ]

IsList-more :
    (k : BuiltinKey) (name : Str) (o o' : KeyOverrides) (ts rest : Tokens)
    → IsItem ts k name (next (punct b',') rest)
    → field_of k o ≡ none
    → IsList rest (set_field k name o) o'
    → IsList ts o o'
IsList-more k name o o' ts rest first unset ([], list, distinct, free, merged) = absurd list
IsList-more k name o o' ts rest first unset (i ∷ items, list, distinct, free, merged) =
    let fresh = AreUnset-lookup k name o (i ∷ items) free in
    (
      (k, name) ∷ i ∷ items,
      (rest, first, list),
      (fresh, distinct),
      (unset, AreUnset-set_field k name o (i ∷ items) free),
      merge-set_field k name (i ∷ items) o fresh ∙ merged,
    )

override_loop-IsList :
    (f : ℕ) (o o' : KeyOverrides) (seen : List Str) (ts : Tokens)
    → override_loop f o seen ts ≡ ok o'
    → IsList ts o o'
unfolding override_loop
override_loop-IsList zero o o' seen ts h = cc
override_loop-IsList (suc f) o o' seen ts h =
    let ((o₁, (seen₁, rest)), round, h₁) = and_then-eq-ok (parse_override o seen ts) _ h in
    let (k, name, first, unset, set) = parse_override-IsItem o o₁ seen seen₁ ts rest round in
    by_after o₁ seen₁ rest k name (after_round rest) refl
      (λ ts' e. override_loop-IsList f o₁ o' seen₁ ts' e) first unset set h₁
  where
    by_after :
        (o₁ : KeyOverrides) (seen₁ : List Str) (rest : Tokens) (k : BuiltinKey) (name : Str)
        (a : After)
        → after_round rest ≡ a
        → ((ts' : Tokens) → override_loop f o₁ seen₁ ts' ≡ ok o' → IsList ts' o₁ o')
        → IsItem ts k name rest
        → field_of k o ≡ none
        → set_field k name o ≡ o₁
        → elim a [
          | stop ↦ ok o₁
          | wrong ↦ err expected_comma
          | again ts' ↦ override_loop f o₁ seen₁ ts'
        ]
          ≡ ok o'
        → IsList ts o o'
    by_after o₁ seen₁ rest k name stop after more first unset set h₁ = (
      (k, name) ∷ [],
      (rest, first, after_round-stop rest after),
      (refl, tt),
      (unset, tt),
      merge-set_field k name [] o refl ∙ cc,
    )
    by_after o₁ seen₁ rest k name wrong after more first unset set h₁ = cc
    by_after o₁ seen₁ rest k name (again ts') after more first unset set h₁ =
        IsList-more k name o o' ts ts'
          (subst (IsItem ts k name) (after_round-again rest ts' after) first) unset
          (subst (λ q. IsList ts' q o') (sym set) (more ts' h₁))

-- The keys of the items are neither set nor seen yet.
abbrev AreNew : KeyOverrides → List Str → Items → Type 0
AreNew o seen items =
    All (λ i. (field_of i.0 o ≡ none) × (seen_path (path_str (path_of i.0)) seen ≡ false)) items

AreNew-set_field :
    (k : BuiltinKey) (name : Str) (o : KeyOverrides) (seen : List Str) (items : Items)
    → lookup k items ≡ none
    → AreNew o seen items
    → AreNew (set_field k name o) (path_str (path_of k) ∷ seen) items
AreNew-set_field k name o seen [] fresh h = tt
AreNew-set_field k name o seen ((j, s) ∷ items) fresh ((unset, new), h) =
    elim (Bool-cases (is_same j k)) [
      | inl same ↦ cc (rw same at fresh)
      | inr other ↦
          let there = field_of-set_field k j name o in
          let there' = rw other at there in
          let apart : is_same k j ≡ false = is_same_comm k j ∙ other in
          (
            (there' ∙ unset, rw apart new),
            AreNew-set_field k name o seen items (rw other at fresh) h,
          )
    ]

no_overrides-AreNew : (items : Items) → AreNew no_overrides [] items
no_overrides-AreNew [] = tt
no_overrides-AreNew ((k, name) ∷ items) =
    ((no_overrides-field_of k, refl), no_overrides-AreNew items)

IsItems-end : (items : Items) → IsItems end items → ⊥
IsItems-end [] h = h
IsItems-end ((k, name) ∷ []) (rest, (s, path, meant, plain), stops) = path
IsItems-end ((k, name) ∷ i ∷ items) (rest, (s, path, meant, plain), more) = path

IsItems-override_loop :
    (f : ℕ) (o : KeyOverrides) (seen : List Str) (ts : Tokens) (items : Items)
    → weight ts ≤ f
    → IsItems ts items
    → IsDistinct items
    → AreNew o seen items
    → override_loop f o seen ts ≡ ok (merge items o)
unfolding override_loop
IsItems-override_loop f o seen ts [] enough h distinct new = absurd h
IsItems-override_loop zero o seen ts ((k, name) ∷ []) enough (rest, first, stops) distinct new =
    let less = IsItem-weight k name ts rest first in absurd (omega arith)
IsItems-override_loop (suc f) o seen ts ((k, name) ∷ []) enough (rest, first, stops) distinct new =
    rw (IsItem-parse_override k name o seen ts rest first new.0.0 new.0.1) (
      ap
        (λ a. elim a [
          | stop ↦ ok (set_field k name o)
          | wrong ↦ err expected_comma
          | again ts' ↦ override_loop f (set_field k name o) (path_str (path_of k) ∷ seen) ts'
        ])
        (IsEnd-after_round rest stops)
      ∙ ap ok (sym (merge-set_field k name [] o refl)))
IsItems-override_loop zero o seen ts ((k, name) ∷ i ∷ items) enough (rest, first, more) distinct
      new =
    let less = IsItem-weight k name ts (next (punct b',') rest) first in absurd (omega arith)
IsItems-override_loop (suc f) o seen ts ((k, name) ∷ i ∷ items) enough (end, first, more) distinct
      new =
    absurd (IsItems-end (i ∷ items) more)
IsItems-override_loop (suc f) o seen ts ((k, name) ∷ i ∷ items) enough (next t rest, first, more)
      distinct new =
    let less = IsItem-weight k name ts (next (punct b',') (next t rest)) first in
    rw
      (IsItem-parse_override k name o seen ts (next (punct b',') (next t rest)) first new.0.0
        new.0.1)
      (IsItems-override_loop f (set_field k name o) (path_str (path_of k) ∷ seen) (next t rest)
          (i ∷ items) (omega arith) more distinct.1
          (AreNew-set_field k name o seen (i ∷ items) distinct.0 new.1)
        ∙ ap ok (sym (merge-set_field k name (i ∷ items) o distinct.0)))

-- An override list is accepted, with some overrides, just when its tokens are items `path => "name"` with
-- commas between them (and perhaps one more at the end), each path is that of a key that can be renamed, no
-- two are the same, and each name, as `unescape_json_string` reads the literal, is not empty and has no dot,
-- quote or backslash; and then the overrides have in each of the eight fields the name that the list gives
-- its key, or nothing where it gives none.
pub parse_overrides-exact :
    (ts : Tokens) (o : KeyOverrides)
    → (parse_overrides ts ≡ ok o)
      ↔ ((items : Items) × IsItems ts items × IsDistinct items × (overrides_of items ≡ o))
unfolding parse_overrides
parse_overrides-exact end o =
    (λ h. cc, λ (items, list, distinct, same). absurd (IsItems-end items list))
parse_overrides-exact (next t ts) o = (
  λ h.
      let (items, list, distinct, unset, merged) =
        override_loop-IsList _ no_overrides o [] (next t ts) h in
      (items, list, distinct, merge-no_overrides items ∙ merged),
  λ (items, list, distinct, same).
      IsItems-override_loop (weight (next t ts)) no_overrides [] (next t ts) items (omega arith)
        list distinct (no_overrides-AreNew items)
      ∙ ap ok (sym (merge-no_overrides items) ∙ same),
)
