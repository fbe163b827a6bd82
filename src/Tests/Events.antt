-- ===== src/Tests/Events.antt =====
-- The theorems on events and guards at a concrete schema.
use wide_log.Prelude.{◌≡◌, refl, none, some, List, [], ◌∷◌, chars}
use wide_log.Prelude.Int.{negsuc}
use wide_log.Word.{saturating_add_signed}
use wide_log.Value.{WideEvent, event, u64, str, f64, object, end, filled, vacant, owned, new}
use wide_log.Event
use wide_log.Event.Run.{Op, apply, run}
use wide_log.Event.Counted.{IsCounted}
use wide_log.Event.Lookup.{Observes-KeepsCount}
use wide_log.Event.Runs.{run-IsCounted, apply-Promise, Promise}
use wide_log.Guard.{last_key, drop, drop_fast, duration_to_unit_f64}
use wide_log.Guard.Drift.{drop_fast-Over, Over}
use wide_log.Guard.Fields.{drop-SetsBoth, SetsBoth}
use wide_log.Tests.{
  Field, request, elapsed_ms, stamp, iso, id, count, field_str, site, site-Observes, whole,
}

-- A counter below an object, a number that is replaced by an object, and a log line.
abbrev ops : List (Op Field)
ops =
    Op.inc_path (request ∷ count ∷ [])
    ∷ Op.add_path (stamp ∷ []) (u64 7)
    ∷ Op.add_path (stamp ∷ iso ∷ []) (str (chars "now"))
    ∷ Op.add_n_path (request ∷ count ∷ []) (negsuc 4)
    ∷ Op.append_log_entry (chars "info") (chars "hello")
    ∷ []

-- What the run leaves: the request's object, the stamp's object, and one log entry.
abbrev after : WideEvent
after =
    event
      (filled
        (object (event (vacant (vacant (vacant (vacant (vacant (filled (u64 0) end)))))) [] none 1))
        (vacant (
          filled
            (object (event (vacant (vacant (vacant (filled (str (chars "now")) end)))) [] none 1))
            end)))
      (record { level = chars "info"; message = owned (chars "hello") } ∷ []) none 2

ran : run site ops new ≡ some after
unfolding run apply Event.inc_path Event.with_object Event.inc Event.add_path Event.add
    Event.add_n_path Event.add_n Event.append_log_entry saturating_add_signed
ran = refl

run-IsCounted_example : IsCounted after
run-IsCounted_example =
    run-IsCounted site (Observes-KeepsCount site site-Observes) ops new after
      (tt, (tt, (tt, (tt, (tt, tt))))) (refl, tt) ran

abbrev deep : WideEvent
deep =
    event
      (vacant (
        vacant (
          filled (object (event (vacant (vacant (vacant (vacant (filled (u64 7) end))))) [] none 1))
            end)))
      [] none 1

made : apply site (Op.add_path (stamp ∷ id ∷ []) (u64 7)) new ≡ some deep
unfolding apply Event.add_path Event.with_object Event.add
made = refl

apply-Promise_example : Promise site site-Observes (Op.add_path (stamp ∷ id ∷ []) (u64 7)) new deep
apply-Promise_example =
    apply-Promise site site-Observes (Op.add_path (stamp ∷ id ∷ []) (u64 7)) new deep made

-- The stamp is a number, which the fast path replaces: one too many.
abbrev numbered : WideEvent
numbered = event (vacant (vacant (filled (u64 7) end))) [] none 1

drop_fast-Over_example :
    Over 1 (drop_fast site request elapsed_ms stamp iso (f64 5) (str (chars "now")) numbered)
drop_fast-Over_example =
    drop_fast-Over site request elapsed_ms stamp iso (f64 5) (str (chars "now")) numbered 0
      (λ e. cc) refl

drop-SetsBoth_example :
    (leaf : Field) × (e' : WideEvent) × (last_key (request ∷ elapsed_ms ∷ []) ≡ some leaf)
    × (drop site whole 5000000 (chars "now") numbered ≡ some e')
    × SetsBoth site
        (request ∷ elapsed_ms ∷ [])
        (stamp ∷ iso ∷ [])
        (f64 (duration_to_unit_f64 whole (field_str leaf) 5000000))
        (str (chars "now"))
        numbered
        e'
drop-SetsBoth_example =
    drop-SetsBoth site site-Observes whole 5000000 (chars "now") numbered request stamp
      (elapsed_ms ∷ []) (iso ∷ []) refl refl (λ e. cc)
