-- ===== src/Parse/Overrides/Meaning/Items.antt =====
-- The fields of the overrides of wide-log-macros/src/parse.rs, one at a time.
use wide_log.Prelude.{
  ◌≡◌, refl, ap, str_eq→eq, Bool-cases, inl, inr, Bool, true, false, Option, none, some, ◌∷◌, Str,
  chars, str_eq, if◌then◌else◌, arith,
}
use wide_log.Parse.{Result, ok, ◌and_then◌}
use wide_log.Parse.Overrides.{
  KeyOverrides, no_overrides, assign_path, assign, assign_top, assign_sub, both_eq, OverridePath,
  top, sub,
}
use wide_log.Parse.Overrides.Meaning.{
  BuiltinKey, log, log_level, log_message, event, event_id, event_timestamp, duration,
  duration_total_ms, path_of, is_same, Items, lookup, overrides_of,
}

-- The field of a key.
abbrev pub field_of : BuiltinKey → KeyOverrides → Option Str
field_of log o = o.log.key
field_of log_level o = o.log.level
field_of log_message o = o.log.message
field_of event o = o.event.key
field_of event_id o = o.event.id
field_of event_timestamp o = o.event.timestamp
field_of duration o = o.duration.key
field_of duration_total_ms o = o.duration.total_ms

abbrev pub set_field : BuiltinKey → Str → KeyOverrides → KeyOverrides
set_field log s o = record o { log = record o.log { key = some s } }
set_field log_level s o = record o { log = record o.log { level = some s } }
set_field log_message s o = record o { log = record o.log { message = some s } }
set_field event s o = record o { event = record o.event { key = some s } }
set_field event_id s o = record o { event = record o.event { id = some s } }
set_field event_timestamp s o = record o { event = record o.event { timestamp = some s } }
set_field duration s o = record o { duration = record o.duration { key = some s } }
set_field duration_total_ms s o = record o { duration = record o.duration { total_ms = some s } }

abbrev or_else : Option Str → Option Str → Option Str
or_else none o = o
or_else (some s) o = some s

-- The overrides with the names of the items put in.
abbrev pub merge : Items → KeyOverrides → KeyOverrides
merge items o = record {
  log = record {
    key = or_else (lookup log items) o.log.key;
    level = or_else (lookup log_level items) o.log.level;
    message = or_else (lookup log_message items) o.log.message;
  };
  event = record {
    key = or_else (lookup event items) o.event.key;
    id = or_else (lookup event_id items) o.event.id;
    timestamp = or_else (lookup event_timestamp items) o.event.timestamp;
  };
  duration = record {
    key = or_else (lookup duration items) o.duration.key;
    total_ms = or_else (lookup duration_total_ms items) o.duration.total_ms;
  };
}

or_else-none : (o : Option Str) → o ≡ or_else o none
or_else-none none = refl
or_else-none (some s) = refl

pub merge-no_overrides : (items : Items) → overrides_of items ≡ merge items no_overrides
merge-no_overrides items = λ i. record {
  log = record {
    key = or_else-none (lookup log items) i;
    level = or_else-none (lookup log_level items) i;
    message = or_else-none (lookup log_message items) i;
  };
  event = record {
    key = or_else-none (lookup event items) i;
    id = or_else-none (lookup event_id items) i;
    timestamp = or_else-none (lookup event_timestamp items) i;
  };
  duration = record {
    key = or_else-none (lookup duration items) i;
    total_ms = or_else-none (lookup duration_total_ms items) i;
  };
}

pub no_overrides-field_of : (k : BuiltinKey) → field_of k no_overrides ≡ none
no_overrides-field_of k = ground arith

pub merge-set_field :
    (k : BuiltinKey) (name : Str) (items : Items) (o : KeyOverrides)
    → lookup k items ≡ none
    → merge ((k, name) ∷ items) o ≡ merge items (set_field k name o)
unfolding str_eq
merge-set_field log name items o h = rw h refl
merge-set_field log_level name items o h = rw h refl
merge-set_field log_message name items o h = rw h refl
merge-set_field event name items o h = rw h refl
merge-set_field event_id name items o h = rw h refl
merge-set_field event_timestamp name items o h = rw h refl
merge-set_field duration name items o h = rw h refl
merge-set_field duration_total_ms name items o h = rw h refl

pub field_of-set_field :
    (k j : BuiltinKey) (name : Str) (o : KeyOverrides)
    → field_of j (set_field k name o) ≡ (if is_same j k then some name else field_of j o)
unfolding str_eq
field_of-set_field k j name o = ground arith

pub is_same_comm : (k j : BuiltinKey) → is_same k j ≡ is_same j k
unfolding str_eq
is_same_comm k j = ground arith

-- A plain name for a key that is not set yet goes into its field.
pub assign_path-set_field :
    (k : BuiltinKey) (name : Str) (o : KeyOverrides)
    → field_of k o ≡ none
    → assign_path o (path_of k) name ≡ ok (set_field k name o)
unfolding assign_top assign_sub str_eq
assign_path-set_field k name o h = ground arith

-- What a successful assignment has done.
abbrev pub IsAssigned : KeyOverrides → OverridePath → Str → KeyOverrides → Type 0
IsAssigned o path name o' =
    (k : BuiltinKey) × (path ≡ path_of k) × (field_of k o ≡ none) × (set_field k name o ≡ o')

by_if :
    {P : Type 0} {o' : KeyOverrides}
    → (b : Bool) (x y : Result KeyOverrides) → (b ≡ true → x ≡ ok o' → P)
    → (y ≡ ok o' → P)
    → (if b then x else y) ≡ ok o'
    → P
by_if true x y f g h = f refl h
by_if false x y f g h = g h

module _ (o o' : KeyOverrides) (name : Str) where
  assign-IsAssigned :
      (k : BuiltinKey) (path : OverridePath) (old : Option Str) (f : Option Str → KeyOverrides)
      → field_of k o ≡ old
      → f (some name) ≡ set_field k name o
      → path ≡ path_of k
      → (assign old name and_then (λ x. ok (f x))) ≡ ok o'
      → IsAssigned o path name o'
  assign-IsAssigned k path none f field set same h = (k, same, field, cc)
  assign-IsAssigned k path (some x) f field set same h = cc

  assign_top-IsAssigned : (n : Str) → assign_top o n name ≡ ok o' → IsAssigned o (top n) name o'
  unfolding assign_top
  assign_top-IsAssigned n =
      by_if (str_eq n (chars "Log")) _ _
        (λ e. assign-IsAssigned log (top n) o.log.key _ refl refl (ap top (str_eq→eq n _ e)))
        (by_if (str_eq n (chars "Event")) _ _
          (λ e. assign-IsAssigned event (top n) o.event.key _ refl refl (ap top (str_eq→eq n _ e)))
          (by_if (str_eq n (chars "Duration")) _ _
            (λ e.
              assign-IsAssigned duration (top n) o.duration.key _ refl refl
                (ap top (str_eq→eq n _ e)))
            (λ h. cc)))

  both_eq→eq : (parent n p s : Str) → both_eq parent n p s ≡ true → sub parent n ≡ sub p s
  both_eq→eq parent n p s h = elim (Bool-cases (str_eq parent p)) [
    | inl same ↦ let e = str_eq→eq parent p same in let e' = str_eq→eq n s (rw same at h) in cc
    | inr other ↦ cc (rw other at h)
  ]

  assign_sub-IsAssigned :
      (parent n : Str) → assign_sub o parent n name ≡ ok o' → IsAssigned o (sub parent n) name o'
  unfolding assign_sub
  assign_sub-IsAssigned parent n =
      by_if (both_eq parent n (chars "Log") (chars "Level")) _ _
        (λ e. assign-IsAssigned log_level _ o.log.level _ refl refl (both_eq→eq parent n _ _ e))
        (by_if (both_eq parent n (chars "Log") (chars "Message")) _ _
          (λ e.
            assign-IsAssigned log_message _ o.log.message _ refl refl (both_eq→eq parent n _ _ e))
          (by_if (both_eq parent n (chars "Event") (chars "Id")) _ _
            (λ e. assign-IsAssigned event_id _ o.event.id _ refl refl (both_eq→eq parent n _ _ e))
            (by_if (both_eq parent n (chars "Event") (chars "Timestamp")) _ _
              (λ e.
                assign-IsAssigned event_timestamp _ o.event.timestamp _ refl refl
                  (both_eq→eq parent n _ _ e))
              (by_if (both_eq parent n (chars "Duration") (chars "TotalMs")) _ _
                (λ e.
                  assign-IsAssigned duration_total_ms _ o.duration.total_ms _ refl refl
                    (both_eq→eq parent n _ _ e))
                (λ h. cc)))))

  pub assign_path-IsAssigned :
      (path : OverridePath) → assign_path o path name ≡ ok o' → IsAssigned o path name o'
  assign_path-IsAssigned (top n) = assign_top-IsAssigned n
  assign_path-IsAssigned (sub parent n) = assign_sub-IsAssigned parent n
