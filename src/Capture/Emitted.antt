-- ===== src/Capture/Emitted.antt =====
-- `default_emit` of wide-log-macros/src/codegen.rs with the feature `tracing`: the finished event is a
-- record of the reserved target. `String::from_utf8` is the parameter `from_utf8`.
use wide_log.Prelude.{
  ℕ, ◌≡◌, ◌≤◌, refl, ap, ◌∙◌, Bool, false, Option, none, some, List, [], ◌∷◌, ◌++◌, Str, chars,
  str_eq, All, ◌==◌, arith,
}
use wide_log.Key.{Key}
use wide_log.Value.{WideEvent}
use wide_log.Json.{NumberFormat, write_event}
use wide_log.Json.Meaning.{IsNumberFormat}
use wide_log.Json.Utf8.{utf8, serialize_to, emitted_line}
use wide_log.Json.Lines.{write_event-safe, weaken}
use wide_log.Capture.{Level, info, Record, keep, trim_end, on_event}

-- `char == '\n'`
abbrev pub is_newline : ℕ → Bool
is_newline c = c == 0x0A

-- `::tracing::info!(target: "wide_log", event = %s)`
abbrev pub event_record : Str → Record
event_record s = record {
  target = chars "wide_log";
  level = info;
  fields = (chars "event", s) ∷ [];
}

module _ {K : Type 0} (key : Key K) (fmt : NumberFormat) (from_utf8 : List ℕ → Option Str) where
  -- `if let Ok(s) = String::from_utf8(bytes)`, with `trim_end_matches('\n')`
  abbrev pub record_of : Option Str → Option Record
  record_of none = none
  record_of (some s) = some (event_record (trim_end is_newline s))

  -- The record that `tracing` gets.
  unfoldable pub default_emit : WideEvent → Option Record
  unfolding emitted_line trim_end
  default_emit e = record_of (from_utf8 (emitted_line key fmt e))

keep-newline : (c : ℕ) (s : Str) → 32 ≤ c → keep is_newline c s ≡ c ∷ s
keep-newline c [] h = let other : (c == 0x0A) ≡ false = ground arith in rw other
keep-newline c (d ∷ s) h = refl

-- The newline that `default_emit` pushes is trimmed, and no more.
trim_end-newline : (s : Str) → All (λ c. 32 ≤ c) s → trim_end is_newline (s ++ 0x0A ∷ []) ≡ s
unfolding trim_end
trim_end-newline [] h = refl
trim_end-newline (c ∷ s) h = ap (keep is_newline c) (trim_end-newline s h.1) ∙ keep-newline c s h.0

module _ {K : Type 0} (key : Key K) (fmt : NumberFormat) (ok : IsNumberFormat fmt)
    (from_utf8 : List ℕ → Option Str) (is_space : ℕ → Bool) where
  -- With the feature `tracing`, every finished event is handed over as one record, whose only field
  -- `event` is the JSON text of the event, no newline behind it: with one it is, as bytes, the line that
  -- goes to stdout without the feature. The capture layer leaves the current event as it was when it gets
  -- that record, whatever its floor and its buffers. That itoa and ryu write JSON numbers is a
  -- hypothesis, and so is that `from_utf8` reads the event's bytes back.
  pub default_emit-not_captured :
      (e : WideEvent) (current : Option WideEvent) (floor : Option Level) (free : Bool)
      → from_utf8 (emitted_line key fmt e) ≡ some (write_event key fmt e ++ 0x0A ∷ [])
      → (text : Str) × (default_emit key fmt from_utf8 e ≡ some (event_record text))
        × (emitted_line key fmt e ≡ utf8 text ++ 0x0A ∷ [])
        × (on_event is_space floor free (event_record text) current ≡ current)
  unfolding default_emit emitted_line serialize_to on_event str_eq
  default_emit-not_captured e current floor free reads = (
    write_event key fmt e,
    ap (record_of key fmt from_utf8) reads
        ∙ ap (λ text. some (event_record text))
            (trim_end-newline (write_event key fmt e) (weaken _ (write_event-safe key fmt ok e))),
    refl,
    refl,
  )
