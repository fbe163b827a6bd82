-- ===== src/Capture.antt =====
-- `WideLogCaptureLayer` of wide-log-macros/src/codegen.rs (feature `tracing`): a `tracing` record becomes
-- a log entry of the current event. A record is what the crate `tracing` hands over: its target and level,
-- and its fields as text, with `{}` or `{:?}` applied. `char::is_whitespace` is the parameter `is_space`.
pub mod Text
pub mod Emitted
use wide_log.Prelude.{
  ℕ, Bool, true, false, not, ◌&&◌, Option, none, some, List, [], ◌∷◌, ◌++◌, Str, chars, str_eq, ltb,
  if◌then◌else◌,
}
use wide_log.Value.{WideEvent}
use wide_log.Event.{append_log_entry}

-- `tracing::Level`: a more verbose one is greater.
pub data Level : Type 0 where
  trace debug info warn error : Level

abbrev pub verbosity : Level → ℕ
verbosity trace = 4
verbosity debug = 3
verbosity info = 2
verbosity warn = 1
verbosity error = 0

abbrev pub level_str : Level → Str
level_str trace = chars "trace"
level_str debug = chars "debug"
level_str info = chars "info"
level_str warn = chars "warn"
level_str error = chars "error"

abbrev pub Field : Type 0
Field = Str × Str

pub record Record : Type 0 where
  pub target : Str
  pub level : Level
  pub fields : List Field

-- The two buffers and the flag.
pub record Renderer : Type 0 where
  pub msg : Str
  pub fields : Str
  pub saw_message : Bool

-- `record_str` and `record_debug`
unfoldable pub record_field : Field → Renderer → Renderer
record_field (name, value) r =
    if str_eq name (chars "message")
    then record r { msg = r.msg ++ value; saw_message = true }
    else record r { fields = r.fields ++ name ++ b'=' ∷ value ++ b' ' ∷ [] }

-- `event.record(&mut renderer)`
unfoldable pub record_all : List Field → Renderer → Renderer
unfolding record_field
record_all [] r = r
record_all (f ∷ fs) r = record_all fs (record_field f r)

abbrev pub is_empty : Str → Bool
is_empty [] = true
is_empty (c ∷ s) = false

module _ (is_space : ℕ → Bool) where
  -- A character in front of what is trimmed.
  abbrev pub keep : ℕ → Str → Str
  keep c [] = if is_space c then [] else c ∷ []
  keep c (d ∷ s) = c ∷ d ∷ s

  -- `str::trim_end`
  unfoldable pub trim_end : Str → Str
  trim_end [] = []
  trim_end (c ∷ s) = keep c (trim_end s)

  -- The `match` on the two tests.
  abbrev pub combine : Str → Str → Str
  combine msg fields =
      if is_empty fields then msg else if is_empty msg then fields else msg ++ b' ' ∷ fields

  -- The message of the entry, if one is captured.
  abbrev pub message_of : Renderer → Option Str
  message_of r =
      let trimmed_fields = trim_end r.fields in
      if not r.saw_message && is_empty trimmed_fields
      then none
      else some (combine r.msg trimmed_fields)

  -- Both buffers are cleared before.
  unfoldable pub rendered : List Field → Option Str
  unfolding record_all trim_end
  rendered fields =
      message_of (record_all fields (record { msg = []; fields = []; saw_message = false }))

  abbrev pub above : Level → Option Level → Bool
  above level none = false
  above level (some floor) = ltb (verbosity floor) (verbosity level)

  abbrev pub append : Level → Option Str → WideEvent → WideEvent
  append level none e = e
  append level (some message) e = append_log_entry (level_str level) message e

  -- `on_event`, on the current event if there is one; `free` says that neither buffer is borrowed.
  unfoldable pub on_event : Option Level → Bool → Record → Option WideEvent → Option WideEvent
  unfolding rendered append_log_entry
  on_event max_level free r current =
      if str_eq r.target (chars "wide_log")
      then current
      else if above r.level max_level
      then current
      else elim current [
        | none ↦ none
        | some e ↦ if free then some (append r.level (rendered r.fields) e) else some e
      ]
