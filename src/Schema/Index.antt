-- ===== src/Schema/Index.antt =====
-- The two tables of wide-log-macros/src/codegen.rs that are vectors with an index beside them.
use wide_log.Prelude.{
  ℕ, zero, suc, ◌≡◌, refl, sym, ap, subst, none, some, List, [], ◌∷◌, ◌++◌, Str, str_eq,
  str_eq_refl, str_eq→eq, length, get_elem?, Bool-cases, ◌⊎◌, inl, inr,
}
use wide_log.Schema.{get_index}

module _ {E : Type 0} where
  pub get_elem?-append :
      (es more : List E) (i : ℕ) {e : E}
      → get_elem? es i ≡ some e
      → get_elem? (es ++ more) i ≡ some e
  get_elem?-append [] more i h = cc
  get_elem?-append (x ∷ es) more zero h = h
  get_elem?-append (x ∷ es) more (suc i) h = get_elem?-append es more i h

  pub get_elem?-length : (es : List E) (e : E) → get_elem? (es ++ e ∷ []) (length es) ≡ some e
  get_elem?-length [] e = refl
  get_elem?-length (x ∷ es) e = get_elem?-length es e

  -- What stands in a list with one more element.
  get_elem?-push :
      (es : List E) (last : E) (i : ℕ) {e : E}
      → get_elem? (es ++ last ∷ []) i ≡ some e
      → (get_elem? es i ≡ some e) ⊎ ((i ≡ length es) × (last ≡ e))
  get_elem?-push [] last zero h = inr (refl, cc)
  get_elem?-push [] last (suc i) h = cc
  get_elem?-push (x ∷ es) last zero h = inl h
  get_elem?-push (x ∷ es) last (suc i) h = elim (get_elem?-push es last i h) [
    | inl old ↦ inl old
    | inr (at, same) ↦ inr (ap suc at, same)
  ]

-- The later index answers at least what the earlier one does, in the same way.
abbrev pub Extends : List (Str × ℕ) → List (Str × ℕ) → Type 0
Extends index index' =
    (name : Str) (i : ℕ) → get_index name index ≡ some i → get_index name index' ≡ some i

-- A name that is not there may come in front.
pub Extends-cons :
    (name : Str) (i : ℕ) (index : List (Str × ℕ))
    → get_index name index ≡ none
    → Extends index ((name, i) ∷ index)
unfolding get_index
Extends-cons name i index absent k j there = elim (Bool-cases (str_eq name k)) [
  | inl same ↦ let e = str_eq→eq name k same in cc
  | inr differs ↦ rw differs there
]

module _ {E : Type 0} (name_of : E → Str) where
  -- The index is the inverse of the vector: it gives each name the place where it stands, and no other.
  -- So no name stands twice.
  pub record IsIndexed (es : List E) (index : List (Str × ℕ)) : Type 0 where
    pub found :
        (name : Str) (i : ℕ)
        → get_index name index ≡ some i
        → (e : E) × (get_elem? es i ≡ some e) × (name_of e ≡ name)
    pub listed : (i : ℕ) (e : E) → get_elem? es i ≡ some e → get_index (name_of e) index ≡ some i

  pub empty-IsIndexed : IsIndexed [] []
  unfolding get_index
  empty-IsIndexed = record { found = λ name i h. cc; listed = λ i e h. cc }

  push-found :
      (es : List E) (index : List (Str × ℕ)) (last : E) (name : Str) (i : ℕ)
      → IsIndexed es index
      → get_index name ((name_of last, length es) ∷ index) ≡ some i
      → (e : E) × (get_elem? (es ++ last ∷ []) i ≡ some e) × (name_of e ≡ name)
  unfolding get_index
  push-found es index last name i h there = elim (Bool-cases (str_eq (name_of last) name)) [
    | inl same ↦
        let at : some (length es) ≡ some i = rw same at there in
        let place : length es ≡ i = cc in
        (
          last,
          subst (λ j. get_elem? (es ++ last ∷ []) j ≡ some last) place (get_elem?-length es last),
          str_eq→eq (name_of last) name same,
        )
    | inr differs ↦
        let (e, stands, named) = h.found name i (rw differs at there) in
        (e, get_elem?-append es (last ∷ []) i stands, named)
  ]

  push-listed :
      (es : List E) (index : List (Str × ℕ)) (last : E) (i : ℕ) (e : E)
      → get_index (name_of last) index ≡ none
      → IsIndexed es index
      → get_elem? (es ++ last ∷ []) i ≡ some e
      → get_index (name_of e) ((name_of last, length es) ∷ index) ≡ some i
  push-listed es index last i e absent h stands = elim (get_elem?-push es last i stands) [
    | inl old ↦
        Extends-cons (name_of last) (length es) index absent (name_of e) i (h.listed i e old)
    | inr (at, same) ↦
        subst (λ j. get_index (name_of e) ((name_of last, length es) ∷ index) ≡ some j) (sym at)
          (subst (λ x. get_index (name_of x) ((name_of last, length es) ∷ index) ≡ some (length es))
            same (unfold get_index in rw (str_eq_refl (name_of last))))
  ]

  -- A new name goes to the end of the vector, with its place in the index.
  pub push-IsIndexed :
      (es : List E) (index : List (Str × ℕ)) (last : E)
      → get_index (name_of last) index ≡ none
      → IsIndexed es index
      → IsIndexed (es ++ last ∷ []) ((name_of last, length es) ∷ index)
  push-IsIndexed es index last absent h = record {
    found = λ name i there. push-found es index last name i h there;
    listed = λ i e stands. push-listed es index last i e absent h stands;
  }
