-- ===== src/Session/Middleware.antt =====
-- `WideLogLayer`, `WideLogMiddleware` and `WideLogFuture` of wide-log-macros/src/codegen.rs, with the
-- `scope_default` family. A service is what the crate `tower` calls: the code that its `call` runs, and the
-- code of the future that it returns.
use wide_log.Prelude.{
  ℕ, ◌≡◌, subst, refl, ◌∙◌, ap, Option, none, some, List, ◌++◌, append_assoc, Str,
}
use wide_log.Value.{Value, WideEvent}
use wide_log.Event.{Context}
use wide_log.Guard.{FloatOps}
use wide_log.Session.{Run, returned, panicked, undefined, ◌and_then◌, World, Settings, scope}
use wide_log.Session.Program.{Program, done, scoped, exec}
use wide_log.Session.Program.Lexical.{Visible, meaning}
use wide_log.Session.Represents.{Represents, Agrees}
use wide_log.Session.Refines.Guards.{Agrees-behind}
use wide_log.Session.Refines.Programs.{exec-Agrees, block-Agrees}

-- A closure on the event; it may panic.
abbrev pub Preset : Type 0
Preset = WideEvent → Option WideEvent

pub record WideLogLayer : Type 0 where
  pub preset : Option Preset

-- `WideLogLayer::default` and `WideLogLayer::new`
abbrev pub new_layer : WideLogLayer
new_layer = record { preset = none }

-- `with_preset` and `with_preset_arc`
abbrev pub with_preset : Preset → WideLogLayer → WideLogLayer
with_preset p l = record { preset = some p }

pub record Service (Req : Type 0) : Type 0 where
  pub call : Req → Program
  pub future : Req → Program

pub record WideLogMiddleware (Req : Type 0) : Type 0 where
  pub inner : Service Req
  pub preset : Option Preset

-- `Layer::layer`
abbrev pub layer : {Req : Type 0} → WideLogLayer → Service Req → WideLogMiddleware Req
layer l inner = record { inner = inner; preset = l.preset }

-- What the scope of one request reads: the id and, at its end, the clock.
pub record Readings : Type 0 where
  pub id : Str
  pub nanos : ℕ
  pub now : Str

abbrev pub settings_with : Readings → Option Preset → Settings
settings_with r preset = record { id = r.id; preset = preset; nanos = r.nanos; now = r.now }

and_then-returned : {A : Type 0} (x : Run A) → (x and_then λ a. returned a) ≡ x
and_then-returned (returned a) = refl
and_then-returned panicked = refl
and_then-returned undefined = refl

module _ {K : Type 0} (cx : Context K) (ops : FloatOps) (defaults : List (List K × Value))
    (arms : List (Str × List K)) (hook : ℕ) where
  -- `scope_default(f)`, which is `scope(default_emit, f)`
  abbrev pub scope_default : Readings → Program → World → Run World
  scope_default r f =
      scope cx ops defaults hook (settings_with r none) (exec cx ops defaults arms hook f)

  -- `scope_default_with_defaults(preset, f)` and its variant for an `Arc`
  abbrev pub scope_default_with_defaults : Readings → Preset → Program → World → Run World
  scope_default_with_defaults r preset f =
      scope cx ops defaults hook (settings_with r (some preset)) (exec cx ops defaults arms hook f)

  -- `WideLogFuture::new`, and the polls of it until it is ready
  abbrev pub run_future : Readings → Program → Option Preset → World → Run World
  run_future r inner (some p) w = scope_default_with_defaults r p inner w
  run_future r inner none w = scope_default r inner w

  -- `Service::call`, then the future that it returns.
  unfoldable pub handle :
      {Req : Type 0} → WideLogMiddleware Req → Req → Readings → World → Run World
  unfolding exec scope
  handle m req r w =
      exec cx ops defaults arms hook (m.inner.call req) w
      and_then run_future r (m.inner.future req) m.preset

  -- Two pieces of code in turn, by their meanings.
  abbrev pub in_turn : Program → Program → Visible → Run (Visible × List WideEvent)
  in_turn first second v = meaning cx ops defaults arms first v and_then λ (v₁, out).
      meaning cx ops defaults arms second v₁ and_then λ (v₂, more). returned (v₂, out ++ more)

  run_future-exec :
      (r : Readings) (f : Program) (p : Option Preset) (w : World)
      → exec cx ops defaults arms hook (scoped (settings_with r p) f done) w ≡ run_future r f p w
  unfolding exec
  run_future-exec r f none w = and_then-returned (scope_default r f w)
  run_future-exec r f (some p) w = and_then-returned (scope_default_with_defaults r p f w)

  -- A request that goes through the layer, from every state that stands for the visible events: what the
  -- inner service's `call` does itself is done on the events that were visible before, and its future runs
  -- inside a new scope, whose event has the layer's preset, if there is one, is what the macros in the
  -- future mean, and is emitted at its end, after what the future emitted. It panics exactly where that
  -- reading does, leaves the cells and the hook stacks as they were, and nothing dangles.
  pub handle-Agrees :
      {Req : Type 0} (m : WideLogMiddleware Req) (req : Req) (r : Readings) (w : World)
      (v : Visible)
      → Represents w v
      → Agrees w (handle m req r w) (
          in_turn
            (m.inner.call req)
            (scoped (settings_with r m.preset) (m.inner.future req) done)
            v)
  unfolding handle
  handle-Agrees m req r w v rep =
      let body = scoped (settings_with r m.preset) (m.inner.future req) done in
      block-Agrees cx ops defaults arms hook w w _ _ (run_future r (m.inner.future req) m.preset)
        (λ (v₁, out).
          meaning cx ops defaults arms body v₁ and_then λ (v₂, more). returned (v₂, out ++ more))
        (exec-Agrees cx ops defaults arms hook (m.inner.call req) w v rep)
        (λ w₁ v₁ out r₁ f em.
          Agrees-behind w w₁ (λ more. out ++ more) (run_future r (m.inner.future req) m.preset w₁)
            (meaning cx ops defaults arms body v₁) f
            (λ more. ap (λ es. es ++ more) em ∙ append_assoc w.emitted out more)
            (subst (λ x. Agrees w₁ x (meaning cx ops defaults arms body v₁))
              (run_future-exec r (m.inner.future req) m.preset w₁)
              (exec-Agrees cx ops defaults arms hook body w₁ v₁ r₁)))
