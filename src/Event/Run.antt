-- ===== src/Event/Run.antt =====
-- The public methods of src/wide_event.rs as one data type, and runs of them on one event.
use wide_log.Prelude.{Option, some, List, [], ◌∷◌, Str, ◌>>=◌}
use wide_log.Prelude.Int.{ℤ}
use wide_log.Value.{Value, WideEvent}
use wide_log.Event
use wide_log.Event.{Context}

pub data Op (K : Type 0) : Type 0 where
  add_path : List K → Value → Op K
  inc_path : List K → Op K
  dec_path : List K → Op K
  add_n_path : List K → ℤ → Op K
  append_log_entry : Str → Str → Op K
  append_log_entry_static : Str → Str → Op K

module _ {K : Type 0} (cx : Context K) where
  unfoldable pub apply : Op K → WideEvent → Option WideEvent
  apply (Op.add_path path v) e = Event.add_path cx path v e
  apply (Op.inc_path path) e = Event.inc_path cx path e
  apply (Op.dec_path path) e = Event.dec_path cx path e
  apply (Op.add_n_path path n) e = Event.add_n_path cx path n e
  apply (Op.append_log_entry level message) e = some (Event.append_log_entry level message e)
  apply (Op.append_log_entry_static level message) e =
      some (Event.append_log_entry_static level message e)

  unfoldable pub run : List (Op K) → WideEvent → Option WideEvent
  run [] e = some e
  run (op ∷ ops) e = apply op e >>= run ops
