-- ===== src/Session/Builder.antt =====
-- `WideLogGuardBuilder` of wide-log-macros/src/codegen.rs: its constructor, its setters and `build`.
-- Time zones, emit functions and what an id function reads (a clock, a source of random numbers) are
-- parameters, and so are the ids that the crates ulid and uuid make of a reading.
pub mod Chains
use wide_log.Prelude.{ℕ, Option, none, some, List, [], ◌∷◌, Str}
use wide_log.Value.{Value, WideEvent}
use wide_log.Event.{Context}
use wide_log.Guard
use wide_log.Guard.{FloatOps}
use wide_log.Session.{Run, returned, ◌and_then◌, or_panic, World, WideLogGuard, install}

-- A preset; `none` is a panic.
abbrev pub Preset : Type 0
Preset = WideEvent → Option WideEvent

module _ (Tz Emit Reading : Type 0) where
  pub record WideLogGuardBuilder : Type 0 where
    pub tz : Tz
    pub id_fn : Reading → Str
    pub emit_fn : Emit
    pub preset : Option Preset

  -- A call on the builder. `with_preset` puts its closure into an `Arc`, which `with_preset_arc` gets.
  pub data Setter : Type 0 where
    with_timezone : Tz → Setter
    with_preset : Preset → Setter
    with_preset_arc : Preset → Setter
    with_id_str : Str → Setter
    with_id : (Reading → Str) → Setter
    with_uuid : Setter
    with_emit : Emit → Setter

module _ {Tz Emit Reading : Type 0} (utc : Tz) (default_emit : Emit)
    (ulid uuid : Reading → Str) where
  -- `WideLogGuardBuilder::new`, which `WideLogGuard::builder` calls
  abbrev pub new_builder : WideLogGuardBuilder Tz Emit Reading
  new_builder = record { tz = utc; id_fn = ulid; emit_fn = default_emit; preset = none }

  unfoldable pub set :
      Setter Tz Emit Reading
      → WideLogGuardBuilder Tz Emit Reading
      → WideLogGuardBuilder Tz Emit Reading
  set (with_timezone tz) b = record b { tz = tz }
  set (with_preset preset) b = record b { preset = some preset }
  set (with_preset_arc preset) b = record b { preset = some preset }
  set (with_id_str id) b = record b { id_fn = λ r. id }
  set (with_id f) b = record b { id_fn = f }
  set with_uuid b = record b { id_fn = uuid }
  set (with_emit emit) b = record { tz = b.tz; id_fn = b.id_fn; emit_fn = emit; preset = b.preset }

  -- `builder().a().b()...`
  unfoldable pub chain :
      List (Setter Tz Emit Reading)
      → WideLogGuardBuilder Tz Emit Reading
      → WideLogGuardBuilder Tz Emit Reading
  unfolding set
  chain [] b = b
  chain (s ∷ rest) b = chain rest (set s b)

-- `ScopedGuard::new_with_tz` keeps the zone and the emit function beside the event.
pub record Guarded (Tz Emit : Type 0) : Type 0 where
  pub guard : WideLogGuard
  pub tz : Tz
  pub emit_fn : Emit

module _ {K Tz Emit Reading : Type 0} (cx : Context K) (ops : FloatOps)
    (defaults : List (List K × Value)) (hook : ℕ) where
  -- `build`
  unfoldable pub build_from :
      WideLogGuardBuilder Tz Emit Reading → Reading → World → Run (Guarded Tz Emit × World)
  build_from b reading w =
      or_panic (Guard.build cx defaults b.preset (b.id_fn reading)) and_then λ e.
      let (guard, w') = install cx ops defaults hook e w in
      returned (record { guard = guard; tz = b.tz; emit_fn = b.emit_fn }, w')
