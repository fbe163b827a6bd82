-- ===== src/Json/RoundTrip.antt =====
-- What the direct serializer of src/wide_event.rs writes is JSON text, and stands for what the
-- `Serialize` impls describe.
use wide_log.Prelude.{
  ℕ, zero, suc, ◌+◌, ◌≤◌, ◌≡◌, refl, Bool, true, false, some, List, [], ◌∷◌, ◌++◌, append_assoc,
  Str, arith, Bool-cases, inl, inr,
}
use wide_log.Key.{Key}
use wide_log.Value.{
  Value, Items, WideEvent, Slots, LogEntry, event, null, bool, i64, u64, f64, str, static_str,
  array, object, nil, cons, end, vacant, filled, is_finite, as_str,
}
use wide_log.Json.{
  NumberFormat, write_entry, write_entries, write_log, first_after, write_value, write_items,
  write_event, write_slots,
}
use wide_log.Json.Tree.{
  Ser, SerEntries, serialize_entry, serialize_entries, serialize_log, serialize, serialize_items,
  serialize_event, serialize_slots,
}
use wide_log.Json.Reader.{starts, read_value, read_items, read_fields}
use wide_log.Json.Meaning.{json, json_items, json_fields, IsNumberFormat}
use wide_log.Json.Steps.{
  Stops, read-null, read-true, read-false, read-numeral, read-quoted, read-array, read-object,
  read-item, read-field, read-items_end, read-fields_end, starts-numeral, starts-quoted,
  Stops-quoted,
}

-- The fuel that reads each part: at most one unit for each value, item and field, and two for each
-- pair of brackets.
abbrev pub weight_entries : List LogEntry → ℕ
weight_entries [] = 1
weight_entries (e ∷ rest) = suc (4 + weight_entries rest)

abbrev pub weight_log : List LogEntry → ℕ
weight_log [] = 1
weight_log (e ∷ rest) = suc (suc (weight_entries (e ∷ rest)))

unfoldable mutual
  pub weight : Value → ℕ
  weight (array xs) = suc (weight_items xs)
  weight (object e) = weight_event e
  weight _ = 1

  pub weight_items : Items → ℕ
  weight_items nil = 1
  weight_items (cons v xs) = suc (weight v + weight_items xs)

  pub weight_event : WideEvent → ℕ
  weight_event (event s l c n) = suc (weight_slots s + weight_log l)

  pub weight_slots : Slots → ℕ
  weight_slots end = 0
  weight_slots (vacant s) = weight_slots s
  weight_slots (filled v s) = suc (weight v + weight_slots s)

module _ {K : Type 0} (key : Key K) (fmt : NumberFormat) (ok : IsNumberFormat fmt) where
  -- One log entry.
  read-entry :
      (f : ℕ) (e : LogEntry) (rest : Str)
      → 4 ≤ f
      → read_value f (write_entry key fmt e ++ rest) ≡ some (json fmt (serialize_entry key e), rest)
  unfolding write_entry serialize_entry json
  read-entry (suc (suc (suc (suc f)))) e rest h = simp append_assoc (
      read-object (suc (suc (suc f))) _ rest _ (
        read-field (suc (suc f)) true key.level_key _ _ rest _ _ (read-quoted (suc f) e.level _) (
          read-field (suc f) false key.message_key _ _ rest _ _ (read-quoted f (as_str e.message) _)
            (read-fields_end f false rest))))
  read-entry zero e rest h = absurd (omega arith)
  read-entry (suc zero) e rest h = absurd (omega arith)
  read-entry (suc (suc zero)) e rest h = absurd (omega arith)
  read-entry (suc (suc (suc zero))) e rest h = absurd (omega arith)

  starts-entry : (e : LogEntry) (rest : Str) → starts b']' (write_entry key fmt e ++ rest) ≡ false
  unfolding write_entry
  starts-entry e rest = refl

  read-entries :
      (f : ℕ) (first : Bool) (l : List LogEntry) (rest : Str)
      → weight_entries l ≤ f
      → read_items f first (write_entries key fmt first l ++ b']' ∷ rest)
        ≡ some (json_items fmt (serialize_entries key l), rest)
  unfolding write_entries serialize_entries json
  read-entries zero first [] rest h = absurd (omega arith)
  read-entries zero first (e ∷ l) rest h = absurd (omega arith)
  read-entries (suc f) first [] rest h = read-items_end f first rest
  read-entries (suc f) first (e ∷ l) rest h = simp append_assoc (
      read-item f first _ _ rest _ _ (starts-entry e _) (read-entry f e _ (omega arith))
        (read-entries f false l rest (omega arith)))

  -- The `"log"` field, if there is one, and the closing brace.
  read-log :
      (f : ℕ) (first : Bool) (l : List LogEntry) (rest : Str)
      → weight_log l ≤ f
      → read_fields f first (write_log key fmt first l ++ b'}' ∷ rest)
        ≡ some (json_fields fmt (serialize_log key l), rest)
  unfolding write_log serialize_log json
  read-log zero first [] rest h = absurd (omega arith)
  read-log zero first (e ∷ l) rest h = absurd (omega arith)
  read-log (suc f) first [] rest h = read-fields_end f first rest
  read-log (suc zero) first (e ∷ l) rest h = absurd (omega arith)
  read-log (suc (suc f)) first (e ∷ l) rest h = simp append_assoc (
      read-field (suc f) first key.log_key _ _ rest _ _
        (read-array f _ _ _ (read-entries f true (e ∷ l) (b'}' ∷ rest) (omega arith)))
        (read-fields_end f false rest))

  Stops-log :
      (first : Bool) (l : List LogEntry) (rest : Str)
      → Stops (write_log key fmt first l ++ b'}' ∷ rest)
  unfolding write_log
  Stops-log first [] rest = refl
  Stops-log true (e ∷ l) rest = simp append_assoc (Stops-quoted key.log_key _)
  Stops-log false (e ∷ l) rest = refl

  Stops-slots :
      (first : Bool) (s : Slots) (keys : List K) (rest : Str)
      → Stops rest
      → Stops (write_slots key fmt first s keys ++ rest)
  unfolding write_slots
  Stops-slots first end keys rest h = h
  Stops-slots first (vacant s) [] rest h = h
  Stops-slots first (filled v s) [] rest h = h
  Stops-slots first (vacant s) (k ∷ keys) rest h = Stops-slots first s keys rest h
  Stops-slots true (filled v s) (k ∷ keys) rest h =
      simp append_assoc (Stops-quoted (key.as_str k) _)
  Stops-slots false (filled v s) (k ∷ keys) rest h = refl

  Stops-items : (xs : Items) (rest : Str) → Stops (write_items key fmt false xs ++ b']' ∷ rest)
  unfolding write_items
  Stops-items nil rest = refl
  Stops-items (cons v xs) rest = refl

  starts-value : (v : Value) (rest : Str) → starts b']' (write_value key fmt v ++ rest) ≡ false
  unfolding write_value
  starts-value null rest = refl
  starts-value (bool true) rest = refl
  starts-value (bool false) rest = refl
  starts-value (i64 i) rest = starts-numeral (fmt.i64_text i) rest (ok.i64_numeral i)
  starts-value (u64 u) rest = starts-numeral (fmt.u64_text u) rest (ok.u64_numeral u)
  starts-value (f64 b) rest = elim (Bool-cases (is_finite b)) [
    | inl fin ↦ rw fin (starts-numeral (fmt.f64_text b) rest (ok.f64_numeral b fin))
    | inr inf ↦ rw inf
  ]
  starts-value (str s) rest = starts-quoted s rest
  starts-value (static_str s) rest = starts-quoted s rest
  starts-value (array xs) rest = refl
  starts-value (object (event s l c n)) rest = refl

  read-f64 :
      (f b : ℕ) (rest : Str)
      → Stops rest
      → read_value (suc f) (write_value key fmt (f64 b) ++ rest) ≡ some (json fmt (Ser.f64 b), rest)
  unfolding write_value json
  read-f64 f b rest stop = elim (Bool-cases (is_finite b)) [
    | inl fin ↦ rw fin (read-numeral f (fmt.f64_text b) rest (ok.f64_numeral b fin) stop)
    | inr inf ↦ rw inf (read-null f rest)
  ]

  mutual
    unfolding write_value serialize json weight first_after

    read-value :
        (v : Value) (f : ℕ) (rest : Str)
        → weight v ≤ f
        → Stops rest
        → read_value f (write_value key fmt v ++ rest) ≡ some (json fmt (serialize key v), rest)
    read-value null zero rest h stop = absurd (omega arith)
    read-value null (suc f) rest h stop = read-null f rest
    read-value (bool b) zero rest h stop = absurd (omega arith)
    read-value (bool true) (suc f) rest h stop = read-true f rest
    read-value (bool false) (suc f) rest h stop = read-false f rest
    read-value (i64 i) zero rest h stop = absurd (omega arith)
    read-value (i64 i) (suc f) rest h stop =
        read-numeral f (fmt.i64_text i) rest (ok.i64_numeral i) stop
    read-value (u64 u) zero rest h stop = absurd (omega arith)
    read-value (u64 u) (suc f) rest h stop =
        read-numeral f (fmt.u64_text u) rest (ok.u64_numeral u) stop
    read-value (f64 b) zero rest h stop = absurd (omega arith)
    read-value (f64 b) (suc f) rest h stop = read-f64 f b rest stop
    read-value (str s) zero rest h stop = absurd (omega arith)
    read-value (str s) (suc f) rest h stop = read-quoted f s rest
    read-value (static_str s) zero rest h stop = absurd (omega arith)
    read-value (static_str s) (suc f) rest h stop = read-quoted f s rest
    read-value (array xs) zero rest h stop = absurd (omega arith)
    read-value (array xs) (suc f) rest h stop =
        simp append_assoc (read-array f _ rest _ (read-items xs f true rest (omega arith)))
    read-value (object e) f rest h stop = read-event e f rest h

    read-items :
        (xs : Items) (f : ℕ) (first : Bool) (rest : Str)
        → weight_items xs ≤ f
        → read_items f first (write_items key fmt first xs ++ b']' ∷ rest)
          ≡ some (json_items fmt (serialize_items key xs), rest)
    read-items nil zero first rest h = absurd (omega arith)
    read-items nil (suc f) first rest h = read-items_end f first rest
    read-items (cons v xs) zero first rest h = absurd (omega arith)
    read-items (cons v xs) (suc f) first rest h = simp append_assoc (
        read-item f first _ _ rest _ _ (starts-value v _)
          (read-value v f _ (omega arith) (Stops-items xs rest))
          (read-items xs f false rest (omega arith)))

    read-event :
        (e : WideEvent) (f : ℕ) (rest : Str)
        → weight_event e ≤ f
        → read_value f (write_event key fmt e ++ rest)
          ≡ some (json fmt (serialize_event key e), rest)
    read-event (event s l c n) zero rest h = absurd (omega arith)
    read-event (event s l c n) (suc f) rest h = simp append_assoc (
        read-object f _ rest _ (
          read-slots s f true key.keys _ rest (serialize_log key l) (weight_log l)
            (λ g enough. read-log g (first_after key fmt true s key.keys) l rest enough)
            (Stops-log (first_after key fmt true s key.keys) l rest) (omega arith)))

    read-slots :
        (s : Slots) (f : ℕ) (first : Bool) (keys : List K) (after rest : Str) (tail : SerEntries)
        (b : ℕ)
        → ((g : ℕ)
            → b ≤ g
            → read_fields g (first_after key fmt first s keys) after
              ≡ some (json_fields fmt tail, rest))
        → Stops after
        → weight_slots s + b ≤ f
        → read_fields f first (write_slots key fmt first s keys ++ after)
          ≡ some (json_fields fmt (serialize_slots key s keys tail), rest)
    read-slots end f first keys after rest tail b ih stop h = ih f (omega arith)
    read-slots (vacant s) f first [] after rest tail b ih stop h = ih f (omega arith)
    read-slots (filled v s) f first [] after rest tail b ih stop h = ih f (omega arith)
    read-slots (vacant s) f first (k ∷ keys) after rest tail b ih stop h =
        read-slots s f first keys after rest tail b ih stop h
    read-slots (filled v s) zero first (k ∷ keys) after rest tail b ih stop h = absurd (omega arith)
    read-slots (filled v s) (suc f) first (k ∷ keys) after rest tail b ih stop h =
        simp append_assoc (
          read-field f first (key.as_str k) _ _ rest _ _
            (read-value v f _ (omega arith) (Stops-slots false s keys after stop))
            (read-slots s f false keys after rest tail b ih stop (omega arith)))

  -- The direct serializer and the `Serialize` impls agree: a JSON reader takes the text written for
  -- an event back, whatever follows it, and the value read is the one that the `Serialize` impls
  -- describe for `to_json`: the present keys in enum order, then the log entries, if there are any, and
  -- `null` for a float that is not finite. Any fuel from `weight_event` up is enough. That itoa and ryu
  -- write JSON numbers is a hypothesis.
  pub read-write_event :
      (e : WideEvent) (f : ℕ) (rest : Str)
      → weight_event e ≤ f
      → read_value f (write_event key fmt e ++ rest) ≡ some (json fmt (serialize_event key e), rest)
  read-write_event = read-event
