-- ===== src/Capture/Text.antt =====
-- The text of a captured record: what the renderer of wide-log-macros/src/codegen.rs builds.
use wide_log.Prelude.{
  ℕ, ◌≡◌, refl, sym, ◌∙◌, ap, Bool, true, false, not, ◌&&◌, ◌||◌, Option, none, some, List, [], ◌∷◌,
  ◌++◌, append_assoc, append-nil, Str, chars, str_eq, All, if◌then◌else◌, Bool-cases, inl, inr,
}
use wide_log.Value.{WideEvent}
use wide_log.Capture.{
  Level, Field, Record, Renderer, record_field, record_all, is_empty, keep, trim_end, combine,
  message_of, rendered, above, append, on_event,
}

abbrev is_message : Field → Bool
is_message (name, value) = str_eq name (chars "message")

-- The values of the message fields, one behind the other.
pub messages : List Field → Str
messages [] = []
messages (f ∷ fs) = if is_message f then f.1 ++ messages fs else messages fs

pub has_message : List Field → Bool
has_message [] = false
has_message (f ∷ fs) = if is_message f then true else has_message fs

-- The other fields, as `k=v`.
unfoldable pub pairs : List Field → List Str
pairs [] = []
pairs (f ∷ fs) = if is_message f then pairs fs else (f.0 ++ b'=' ∷ f.1) ∷ pairs fs

-- Words with one space between them.
pub unwords : List Str → Str
unwords [] = []
unwords (p ∷ []) = p
unwords (p ∷ q ∷ ps) = p ++ b' ' ∷ unwords (q ∷ ps)

-- The words with a space behind each.
spaced : List Str → Str
spaced [] = []
spaced (p ∷ ps) = p ++ b' ' ∷ spaced ps

-- The text of a record: the message, then the other fields, all apart by one space; an empty message
-- has no space behind it, and there is no text without a message and without other fields.
abbrev pub words : Bool → Str → List Str → Option Str
words seen msg [] = if seen then some msg else none
words seen msg (p ∷ ps) =
    some (if is_empty msg then unwords (p ∷ ps) else msg ++ b' ' ∷ unwords (p ∷ ps))

pub text_of : List Field → Option Str
unfolding messages has_message pairs unwords
text_of fields = words (has_message fields) (messages fields) (pairs fields)

abbrev collected : List Field → Renderer → Renderer
collected fields r = record {
  msg = r.msg ++ messages fields;
  fields = r.fields ++ spaced (pairs fields);
  saw_message = r.saw_message || has_message fields;
}

||_true : (b : Bool) → (b || true) ≡ true
||_true true = refl
||_true false = refl

||_false : (b : Bool) → (b || false) ≡ b
||_false true = refl
||_false false = refl

same_renderer :
    {m m' f f' : Str} {s s' : Bool}
    → m ≡ m'
    → f ≡ f'
    → s ≡ s'
    → Path Renderer
        (record { msg = m; fields = f; saw_message = s })
        (record { msg = m'; fields = f'; saw_message = s' })
same_renderer em ef es i = record { msg = em i; fields = ef i; saw_message = es i }

pair_text :
    (before name value after : Str)
    → (before ++ name ++ b'=' ∷ value ++ b' ' ∷ []) ++ after
      ≡ before ++ ((name ++ b'=' ∷ value) ++ b' ' ∷ after)
pair_text before name value after =
    append_assoc (before ++ name ++ b'=' ∷ value) (b' ' ∷ []) after
    ∙ ap (λ s. s ++ b' ' ∷ after) (append_assoc before name (b'=' ∷ value))
    ∙ append_assoc before (name ++ b'=' ∷ value) (b' ' ∷ after)

-- The visits of all fields, at once.
record_all-collected :
    (fields : List Field) (r : Renderer) → record_all fields r ≡ collected fields r
unfolding record_all record_field messages has_message pairs spaced
record_all-collected [] r =
    same_renderer (sym (append-nil r.msg)) (sym (append-nil r.fields))
      (sym (||_false r.saw_message))
record_all-collected (f ∷ fs) r = elim (Bool-cases (is_message f)) [
  | inl named ↦ rw named (
      record_all-collected fs (record r { msg = r.msg ++ f.1; saw_message = true })
      ∙ same_renderer (append_assoc r.msg f.1 (messages fs)) refl (sym (||_true r.saw_message)))
  | inr other ↦ rw other (
      record_all-collected fs (record r { fields = r.fields ++ f.0 ++ b'=' ∷ f.1 ++ b' ' ∷ [] })
      ∙ same_renderer refl (pair_text r.fields f.0 f.1 (spaced (pairs fs))) refl)
]

module _ (is_space : ℕ → Bool) (space : is_space b' ' ≡ true) where
  trim_end-append :
      (s t : Str)
      → is_empty (trim_end is_space t) ≡ false
      → trim_end is_space (s ++ t) ≡ s ++ trim_end is_space t
  unfolding trim_end
  trim_end-append [] t h = refl
  trim_end-append (c ∷ s) t h =
      ap (keep is_space c) (trim_end-append s t h)
      ∙ kept (s ++ trim_end is_space t) (never_empty s (trim_end is_space t) h)
    where
      kept : (x : Str) → is_empty x ≡ false → keep is_space c x ≡ c ∷ x
      kept [] h' = cc
      kept (d ∷ x) h' = refl

      never_empty : (x y : Str) → is_empty y ≡ false → is_empty (x ++ y) ≡ false
      never_empty [] y h' = h'
      never_empty (d ∷ x) y h' = refl

  trim_end-space : (s : Str) → trim_end is_space (s ++ b' ' ∷ []) ≡ trim_end is_space s
  unfolding trim_end
  trim_end-space [] = rw space refl
  trim_end-space (c ∷ s) = ap (keep is_space c) (trim_end-space s)

  -- The last word does not end in white space.
  unfoldable pub EndsClean : List Str → Type 0
  EndsClean [] = Unit
  EndsClean (p ∷ []) = trim_end is_space p ≡ p
  EndsClean (p ∷ q ∷ ps) = EndsClean (q ∷ ps)

  abbrev Full : Str → Type 0
  Full p = is_empty p ≡ false

  append-Full : (x y : Str) → Full y → Full (x ++ y)
  append-Full [] y h = h
  append-Full (d ∷ x) y h = refl

  pairs-Full : (fields : List Field) → All Full (pairs fields)
  unfolding pairs
  pairs-Full [] = tt
  pairs-Full (f ∷ fs) = elim (Bool-cases (is_message f)) [
    | inl named ↦ rw named (pairs-Full fs)
    | inr other ↦ rw other (append-Full f.0 (b'=' ∷ f.1) refl, pairs-Full fs)
  ]

  unwords-Full : (p : Str) (ps : List Str) → Full p → Full (unwords (p ∷ ps))
  unfolding unwords
  unwords-Full p [] h = h
  unwords-Full p (q ∷ ps) h = append-Full p (b' ' ∷ unwords (q ∷ ps)) refl

  trim_end-spaced :
      (p : Str) (ps : List Str)
      → All Full (p ∷ ps)
      → EndsClean (p ∷ ps)
      → trim_end is_space (spaced (p ∷ ps)) ≡ unwords (p ∷ ps)
  unfolding unwords spaced EndsClean
  trim_end-spaced p [] full clean = trim_end-space p ∙ clean
  trim_end-spaced p (q ∷ ps) full clean =
      let tail = trim_end-spaced q ps full.1 clean in
      let rest : trim_end is_space (b' ' ∷ spaced (q ∷ ps)) ≡ b' ' ∷ unwords (q ∷ ps) =
        trim_end-append (b' ' ∷ []) (spaced (q ∷ ps)) (rw tail (unwords-Full q ps full.1.0))
        ∙ ap (λ s. b' ' ∷ s) tail in
      trim_end-append p (b' ' ∷ spaced (q ∷ ps)) (rw rest refl) ∙ ap (λ s. p ++ s) rest

  message_of-words :
      (seen : Bool) (msg : Str) (ps : List Str)
      → All Full ps
      → EndsClean ps
      → message_of is_space (record { msg = msg; fields = spaced ps; saw_message = seen })
        ≡ words seen msg ps
  unfolding spaced trim_end
  message_of-words true msg [] full clean = refl
  message_of-words false msg [] full clean = refl
  message_of-words seen msg (p ∷ ps) full clean =
      rw (trim_end-spaced p ps full clean)
        (by_word seen msg (unwords (p ∷ ps)) (unwords-Full p ps full.0))
    where
      by_word :
          (seen : Bool) (msg w : Str)
          → Full w
          → (if not seen && is_empty w then none else some (combine is_space msg w))
            ≡ some (if is_empty msg then w else msg ++ b' ' ∷ w)
      by_word seen msg [] h = cc
      by_word true [] (c ∷ w) h = refl
      by_word false [] (c ∷ w) h = refl
      by_word true (d ∷ msg) (c ∷ w) h = refl
      by_word false (d ∷ msg) (c ∷ w) h = refl

  rendered-text_of :
      (fields : List Field) → EndsClean (pairs fields) → rendered is_space fields ≡ text_of fields
  unfolding rendered text_of
  rendered-text_of fields clean =
      ap (message_of is_space)
        (record_all-collected fields (record { msg = []; fields = []; saw_message = false }))
      ∙ message_of-words (has_message fields) (messages fields) (pairs fields) (pairs-Full fields)
          clean

  -- For a record of another target than `wide_log`, not more verbose than the floor of the layer, with both
  -- buffers free and a current event: the layer appends to that event an entry of the record's level whose
  -- text is the message (all its `message` fields), then the other fields as `k=v`, all apart by one space,
  -- with an empty message left out; and it appends nothing just when there is neither a `message` field nor
  -- another one. The conditions
  -- are that white space includes the space, and that the last `k=v` does not end in white space (it is
  -- trimmed otherwise).
  pub on_event-text_of :
      (max_level : Option Level) (r : Record) (e : WideEvent)
      → str_eq r.target (chars "wide_log") ≡ false
      → above is_space r.level max_level ≡ false
      → EndsClean (pairs r.fields)
      → on_event is_space max_level true r (some e)
        ≡ some (append is_space r.level (text_of r.fields) e)
  unfolding on_event
  on_event-text_of max_level r e other low clean =
      rw (other, low, rendered-text_of r.fields clean) refl
