-- ===== src/Session/Builder/Chains.antt =====
-- What a chain of calls on `WideLogGuardBuilder` (wide-log-macros/src/codegen.rs) builds.
use wide_log.Prelude.{ℕ, ◌≡◌, refl, ◌∙◌, ap, Option, none, some, List, [], ◌∷◌, Str, All}
use wide_log.Value.{Value, WideEvent, str}
use wide_log.Event.{Context}
use wide_log.Event.Lookup.{Observes, PathUpdate}
use wide_log.Guard.{FloatOps}
use wide_log.Guard.Built.{HasSegment, IsSpread, Defaulted, after_preset, returning, build-Defaulted}
use wide_log.Session.{returned, World, WideLogGuard, install}
use wide_log.Session.Represents.{write_same}
use wide_log.Session.Builder.{
  Preset, WideLogGuardBuilder, Setter, with_timezone, with_preset, with_preset_arc, with_id_str,
  with_id, with_uuid, with_emit, new_builder, set, chain, build_from,
}

abbrev pub or_else {ℓ} : {B : Type ℓ} → Option B → Option B → Option B
or_else (some b) o = some b
or_else none o = o

abbrev pub value_or {ℓ} : {B : Type ℓ} → Option B → B → B
value_or (some b) d = b
value_or none d = d

module _ {ℓ κ} {A : Type ℓ} {B : Type κ} where
  -- What the last element gives of those that give something.
  unfoldable pub last_of : (A → Option B) → List A → Option B
  last_of pick [] = none
  last_of pick (a ∷ rest) = or_else (last_of pick rest) (pick a)

  last_of-step :
      (pick : A → Option B) (a : A) (rest : List A) (d : B)
      → value_or (last_of pick rest) (value_or (pick a) d) ≡ value_or (last_of pick (a ∷ rest)) d
  unfolding last_of
  last_of-step pick a rest d = by_rest (last_of pick rest) (pick a)
    where
      by_rest : (o p : Option B) → value_or o (value_or p d) ≡ value_or (or_else o p) d
      by_rest (some b) p = refl
      by_rest none p = refl

module _ {Tz Emit Reading : Type 0} where
  abbrev pub tz_of : Setter Tz Emit Reading → Option Tz
  tz_of (with_timezone tz) = some tz
  tz_of _ = none

  abbrev pub emit_of : Setter Tz Emit Reading → Option Emit
  emit_of (with_emit emit) = some emit
  emit_of _ = none

  abbrev pub preset_of : Setter Tz Emit Reading → Option (Option Preset)
  preset_of (with_preset preset) = some (some preset)
  preset_of (with_preset_arc preset) = some (some preset)
  preset_of _ = none

  abbrev pub id_of : (Reading → Str) → Setter Tz Emit Reading → Option (Reading → Str)
  id_of uuid (with_id_str id) = some (λ r. id)
  id_of uuid (with_id f) = some f
  id_of uuid with_uuid = some uuid
  id_of uuid _ = none

module _ {Tz Emit Reading : Type 0} (utc : Tz) (default_emit : Emit)
    (ulid uuid : Reading → Str) where
  -- Each field has what the last call that sets it gave.
  pub record HasLast (setters : List (Setter Tz Emit Reading))
      (b b' : WideLogGuardBuilder Tz Emit Reading) : Type 0 where
    pub tz : b'.tz ≡ value_or (last_of tz_of setters) b.tz
    pub emit_fn : b'.emit_fn ≡ value_or (last_of emit_of setters) b.emit_fn
    pub preset : b'.preset ≡ value_or (last_of preset_of setters) b.preset
    pub id_fn : b'.id_fn ≡ value_or (last_of (id_of uuid) setters) b.id_fn

  set-HasLast :
      (s : Setter Tz Emit Reading) (b : WideLogGuardBuilder Tz Emit Reading)
      → let b' = set utc default_emit ulid uuid s b in
        (b'.tz ≡ value_or (tz_of s) b.tz)
        × (b'.emit_fn ≡ value_or (emit_of s) b.emit_fn)
        × (b'.preset ≡ value_or (preset_of s) b.preset)
        × (b'.id_fn ≡ value_or (id_of uuid s) b.id_fn)
  unfolding set
  set-HasLast (with_timezone tz) b = (refl, refl, refl, refl)
  set-HasLast (with_preset preset) b = (refl, refl, refl, refl)
  set-HasLast (with_preset_arc preset) b = (refl, refl, refl, refl)
  set-HasLast (with_id_str id) b = (refl, refl, refl, refl)
  set-HasLast (with_id f) b = (refl, refl, refl, refl)
  set-HasLast with_uuid b = (refl, refl, refl, refl)
  set-HasLast (with_emit emit) b = (refl, refl, refl, refl)

  chain-HasLast :
      (setters : List (Setter Tz Emit Reading)) (b : WideLogGuardBuilder Tz Emit Reading)
      → HasLast setters b (chain utc default_emit ulid uuid setters b)
  unfolding chain last_of
  chain-HasLast [] b = record { tz = refl; emit_fn = refl; preset = refl; id_fn = refl }
  chain-HasLast (s ∷ rest) b =
      let h = chain-HasLast rest (set utc default_emit ulid uuid s b) in
      let (tz, emit, preset, id) = set-HasLast s b in
      record {
        tz = h.tz ∙ ap (value_or (last_of tz_of rest)) tz ∙ last_of-step tz_of s rest b.tz;
        emit_fn =
            h.emit_fn
            ∙ ap (value_or (last_of emit_of rest)) emit
            ∙ last_of-step emit_of s rest b.emit_fn;
        preset =
            h.preset
            ∙ ap (value_or (last_of preset_of rest)) preset
            ∙ last_of-step preset_of s rest b.preset;
        id_fn =
            h.id_fn
            ∙ ap (value_or (last_of (id_of uuid) rest)) id
            ∙ last_of-step (id_of uuid) s rest b.id_fn;
      }

module _ {K Tz Emit Reading : Type 0} (cx : Context K) (obs : Observes cx) (ops : FloatOps)
    (defaults : List (List K × Value)) (hook : ℕ) where
  -- The guard of a chain of calls: it has the time zone and the emit function of the last call that sets
  -- them, or UTC and the default one. Its event, which is at a new address, is now the current one of the
  -- thread; the pointer that was current before is kept in the guard. The event began with the
  -- defaults and nothing else, went through the preset of the last call that sets one (a preset that
  -- returns, or none), and then got the id that the last id function, or the default one, makes of the
  -- reading, at the id's path and without a change at any path apart from it. The paths have a segment, and
  -- of two defaults the later one is for a path apart from the earlier one's, or is the same again. The
  -- callbacks must leave the event alone.
  pub chain-build_from :
      (utc : Tz) (default_emit : Emit) (ulid uuid : Reading → Str)
      (setters : List (Setter Tz Emit Reading)) (preset : Option (WideEvent → WideEvent))
      (reading : Reading) (w : World)
      → value_or (last_of preset_of setters) none ≡ returning preset
      → All (λ d. HasSegment d.0) defaults
      → IsSpread cx defaults
      → HasSegment cx.key.id_path
      → let id_fn = value_or (last_of (id_of uuid) setters) ulid in
        (g : WideLogGuard) × (w' : World) × (start e : WideEvent) × (build_from cx ops defaults hook
            (chain utc default_emit ulid uuid setters (new_builder utc default_emit ulid uuid))
            reading
            w
          ≡ returned (
            record {
              guard = g;
              tz = value_or (last_of tz_of setters) utc;
              emit_fn = value_or (last_of emit_of setters) default_emit;
            },
            w',
          ))
        × (g.inner ≡ w.next_address)
        × (g.prev ≡ w.current_event)
        × (w'.current_event ≡ some g.inner)
        × (w'.events g.inner ≡ some e)
        × Defaulted cx defaults start
        × PathUpdate cx
            (λ o. some (str (id_fn reading)))
            cx.key.id_path
            (after_preset preset start)
            e
  unfolding build_from
  chain-build_from utc default_emit ulid uuid setters preset reading w last paths spread named =
      let h =
        chain-HasLast utc default_emit ulid uuid setters (new_builder utc default_emit ulid uuid) in
      let (start, e, ran, defaulted, updated) =
        build-Defaulted cx obs defaults preset
          (value_or (last_of (id_of uuid) setters) ulid reading) paths spread named in
      let (g, w') = install cx ops defaults hook e w in
      (
        g,
        w',
        start,
        e,
        rw (h.preset ∙ last, h.id_fn, h.tz, h.emit_fn) (rw ran),
        refl,
        refl,
        refl,
        write_same w.next_address (some e) w.events,
        defaulted,
        updated,
      )
