-- ===== src/Tests/Sessions.antt =====
-- The theorems on guards, scopes and captured records at concrete code.
use wide_log.Prelude.{
  ℕ, Bool, true, false, ◌≡◌, refl, none, some, List, [], ◌∷◌, Str, chars, str_eq, length, ◌==◌,
}
use wide_log.Value.{u64, new}
use wide_log.Word.{add_u64}
use wide_log.Event.{add, add_path, inc, inc_path}
use wide_log.Hook.{pop_log_hook, push_log_hook, remove_hook, rposition, remove, innermost, last}
use wide_log.Guard.{build, drop}
use wide_log.Session.{Run, returned, undefined, World, Settings, with_current}
use wide_log.Session.Program.{
  Program, done, step, guarded, scoped, exec, wl_set, wl_inc, log_literal,
}
use wide_log.Session.Program.Lexical.{Visible, meaning}
use wide_log.Session.Represents.{Represents, Agrees}
use wide_log.Session.Refines.Programs.{exec-Agrees}
use wide_log.Session.Middleware.{
  Service, WideLogMiddleware, Readings, layer, with_preset, new_layer, settings_with, in_turn,
  handle, handle-Agrees,
}
use wide_log.Session.Root.{exec_root}
use wide_log.Session.Root.Hooked.{IsHooked, owned, exec_root-owned}
use wide_log.Session.Unnested.{unnested, unnested-undefined}
use wide_log.Capture
use wide_log.Capture.{Record, trim_end, on_event}
use wide_log.Capture.Text.{text_of, pairs, EndsClean, on_event-text_of}
use wide_log.Tests.{Field, count, site, whole}

-- A thread without guards.
abbrev pub start : World
start = record {
  next_address = 0;
  events = λ a. none;
  current_event = none;
  task_event = none;
  hooks = record { thread = []; task = none };
  emitted = [];
}

abbrev alone : Visible
alone = record { thread = none; task = none }

start-Represents : Represents start alone
start-Represents = record { thread = tt; task = tt; apart = tt }

abbrev settings : Settings
settings = record { id = chars "01"; preset = none; nanos = 5; now = chars "now" }

abbrev arms : List (Str × List Field)
arms = (chars "count", count ∷ []) ∷ []

-- A guard, a counter, a guard within it, and a scope in that.
abbrev code : Program
code =
    guarded settings
      (step (wl_inc (chars "count")) (
        guarded settings
          (scoped settings (step (wl_set (chars "count") (u64 3)) done)
            (step (log_literal (chars "info") (chars "in")) done))
          (step (wl_inc (chars "count")) done)))
      done

exec-Agrees_example :
    Agrees start (exec site whole [] arms 7 code start) (meaning site whole [] arms code alone)
exec-Agrees_example = exec-Agrees site whole [] arms 7 code start alone start-Represents

-- Hooks of other schemas would stop the thread.
abbrev stops : ℕ → Str → Str → World → Run World
stops h level message w = undefined

start-IsHooked : IsHooked 7 start
unfolding innermost last
start-IsHooked = refl

exec_root-owned_example :
    exec_root site whole [] arms 7 stops code start ≡ exec site whole [] arms 7 (owned code) start
exec_root-owned_example =
    exec_root-owned site whole [] arms 7 stops code start alone start-Represents start-IsHooked

-- A service that counts in its future, under a layer with a preset.
abbrev counting : Service ℕ
counting = record { call = λ req. done; future = λ req. step (wl_inc (chars "count")) done }

abbrev counted : WideLogMiddleware ℕ
counted = layer (with_preset (λ e. some e) new_layer) counting

abbrev readings : Readings
readings = record { id = chars "02"; nanos = 7; now = chars "then" }

handle-Agrees_example : Agrees start (handle site whole [] arms 7 counted 1 readings start) (
    in_turn site whole [] arms 7 done
      (scoped
        (settings_with readings (some (λ e. some e)))
        (step (wl_inc (chars "count")) done)
        done)
      alone)
handle-Agrees_example =
    handle-Agrees site whole [] arms 7 counted 1 readings start alone start-Represents

value_of : {A : Type 0} → A → Run A → A
value_of a (returned b) = b
value_of a Run.panicked = a
value_of a undefined = a

-- It returns, and the two guards and the scope emit an event each.
code-emits : length (value_of start (exec site whole [] arms 7 code start)).emitted ≡ 3
unfolding exec value_of build add_path str_eq inc_path inc add drop pop_log_hook push_log_hook
    remove_hook rposition add_u64 remove
code-emits = refl

-- The state after the two drops.
ended : World
unfolding unnested value_of
ended = value_of start (unnested site whole [] 7 settings settings start)

ends : unnested site whole [] 7 settings settings start ≡ returned ended
unfolding unnested ended value_of build drop add_path pop_log_hook push_log_hook remove_hook
    rposition remove
ends = refl

unnested-undefined_example : with_current (λ e. some e) ended ≡ undefined
unnested-undefined_example =
    unnested-undefined site whole [] 7 settings settings start ended (λ e. some e) refl ends

abbrev is_space : ℕ → Bool
is_space c = c == b' '

abbrev tracing_record : Record
tracing_record = record {
  target = chars "app";
  level = Capture.warn;
  fields =
      (chars "message", chars "slow") ∷ (chars "ms", chars "7") ∷ (chars "path", chars "a") ∷ [];
}

other_target : str_eq (chars "app") (chars "wide_log") ≡ false
unfolding str_eq
other_target = refl

clean_end : EndsClean is_space refl (pairs tracing_record.fields)
unfolding EndsClean pairs trim_end str_eq
clean_end = refl

on_event-text_of_example :
    on_event is_space (some Capture.info) true tracing_record (some new)
    ≡ some (Capture.append is_space Capture.warn (text_of tracing_record.fields) new)
on_event-text_of_example =
    on_event-text_of is_space refl (some Capture.info) tracing_record new other_target refl
      clean_end
