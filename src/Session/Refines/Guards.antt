-- ===== src/Session/Refines/Guards.antt =====
-- Guards and scopes of wide-log-macros/src/codegen.rs: code that nests them runs as its meaning says.
use wide_log.Prelude.{
  ℕ, suc, ◌≡◌, ◌≢◌, ◌<◌, ◌≤◌, refl, sym, ◌∙◌, ap, subst, Option, none, some, List, [], ◌∷◌, ◌++◌,
  arith,
}
use wide_log.Value.{Value, WideEvent}
use wide_log.Event.{Context}
use wide_log.Guard
use wide_log.Guard.{FloatOps}
use wide_log.Session.{
  Run, returned, panicked, undefined, ◌and_then◌, or_panic, Ptr, World, write, Settings, install,
  drop_inner, enter,
}
use wide_log.Session.Program.Lexical.{Visible, finish}
use wide_log.Session.Represents.{
  write_same, write_other, task_ptr, Holds, Apart, IsNot, Represents, Frame, Frame-trans, Agrees,
  Touches, Holds-write, Holds-IsNot, Apart-IsNot,
}
use wide_log.Session.Refines.{IsNot-Apart, Apart-sym}

-- Code behind a state that emitted some events already.
pub Agrees-behind :
    (w w' : World) (prefix : List WideEvent → List WideEvent) (x : Run World)
    (y : Run (Visible × List WideEvent))
    → Frame w w'
    → ((out : List WideEvent) → w'.emitted ++ out ≡ w.emitted ++ prefix out)
    → Agrees w' x y
    → Agrees w x (y and_then λ (v, out). returned (v, prefix out))
Agrees-behind w w' prefix (returned w'') (returned (v, out)) f same (r, g, em) =
    (r, Frame-trans w w' w'' f g, em ∙ same out)
Agrees-behind w w' prefix panicked panicked f same h = tt
Agrees-behind w w' prefix (returned w'') panicked f same h = absurd h
Agrees-behind w w' prefix (returned w'') undefined f same h = absurd h
Agrees-behind w w' prefix panicked (returned z) f same h = absurd h
Agrees-behind w w' prefix panicked undefined f same h = absurd h
Agrees-behind w w' prefix undefined y f same h = absurd h

-- A macro, then the rest.
pub Touches-then :
    (w : World) (x : Run World) (y : Run Visible) (k : World → Run World)
    (l : Visible → Run (Visible × List WideEvent))
    → Touches w x y
    → ((w' : World) (v' : Visible) → Represents w' v' → Agrees w' (k w') (l v'))
    → Agrees w (x and_then k) (y and_then l)
Touches-then w (returned w') (returned v') k l (r, f, em) next = go (k w') (l v') (next w' v' r)
  where
    go : (x : Run World) (y : Run (Visible × List WideEvent)) → Agrees w' x y → Agrees w x y
    go (returned w'') (returned (v, out)) (r', g, em') =
        (r', Frame-trans w w' w'' f g, em' ∙ ap (λ es. es ++ out) em)
    go panicked panicked h = tt
    go (returned w'') panicked h = absurd h
    go (returned w'') undefined h = absurd h
    go panicked (returned z) h = absurd h
    go panicked undefined h = absurd h
    go undefined y h = absurd h
Touches-then w panicked panicked k l h next = tt
Touches-then w (returned w') panicked k l h next = absurd h
Touches-then w (returned w') undefined k l h next = absurd h
Touches-then w panicked (returned v') k l h next = absurd h
Touches-then w panicked undefined k l h next = absurd h
Touches-then w undefined y k l h next = absurd h

-- The event behind a pointer that is known.
pub live_event :
    (next n : ℕ) (events : ℕ → Option WideEvent) (p : Ptr) (o : Option WideEvent)
    → p ≡ some n
    → Holds next events p o
    → (e : WideEvent) × (o ≡ some e) × (events n ≡ some e)
live_event next n events none o at h = cc
live_event next n events (some m) none at h = absurd h
live_event next n events (some m) (some e) at h =
    let same : m ≡ n = cc in (e, refl, subst (λ a. events a ≡ some e) same h.1)

-- A pointer's event in a later store that has it too.
Holds-same :
    (next next' : ℕ) (events events' : ℕ → Option WideEvent) (p : Ptr) (e : Option WideEvent)
    → next ≤ next'
    → ((a : ℕ) → p ≡ some a → a < next → events' a ≡ events a)
    → Holds next events p e
    → Holds next' events' p e
Holds-same next next' events events' none none le same h = tt
Holds-same next next' events events' none (some e) le same h = h
Holds-same next next' events events' (some a) none le same h = h
Holds-same next next' events events' (some a) (some e) le same h =
    (omega (arith, h.0, le), same a refl h.0 ∙ h.1)

Apart-at : (p q : Ptr) (a : ℕ) → Apart p q → p ≡ some a → IsNot a q
Apart-at p q a h at = IsNot-Apart a q (subst (λ x. Apart x q) at h)

module _ {K : Type 0} (cx : Context K) (ops : FloatOps) (defaults : List (List K × Value))
    (hook : ℕ) where
  -- What the end of a block leaves: its event is gone, and is emitted as `e'`.
  abbrev pub closed : ℕ → WideEvent → World → World
  closed n e' w = record w { events = write n none w.events; emitted = w.emitted ++ e' ∷ [] }

  -- The end of a block, on the store and in the meaning.
  pub drop_inner-Agrees :
      (w w₂ : World) (n : ℕ) (s : Settings) (e : WideEvent) (o : Option WideEvent)
      (k : World → Run World) (l : WideEvent → Run (Visible × List WideEvent))
      → w₂.events n ≡ some e
      → o ≡ some e
      → ((e' : WideEvent) → Agrees w (k (closed n e' w₂)) (l e'))
      → Agrees w
          (drop_inner cx ops defaults hook n s w₂ and_then k)
          (finish cx ops defaults [] s o and_then l)
  drop_inner-Agrees w w₂ n s e o k l live known next =
      rw (live, known) (by_result (Guard.drop cx ops s.nanos s.now e))
    where
      by_result :
          (r : Option WideEvent)
          → Agrees w
              (or_panic r and_then (λ e'. returned (closed n e' w₂)) and_then k)
              (or_panic r and_then l)
      by_result none = tt
      by_result (some e') = next e'

  -- Inside a guard.
  abbrev pub inside : WideEvent → World → World
  inside e w = (install cx ops defaults hook e w).1

  pub inside-Represents :
      (w : World) (v : Visible) (e : WideEvent)
      → Represents w v
      → Represents (inside e w) (record { thread = some e; task = v.task })
  inside-Represents w v e r =
      let fresh = Holds-IsNot w.next_address w.events (task_ptr w.task_event) v.task r.task in
      record {
        thread = (omega arith, write_same w.next_address (some e) w.events);
        task =
            Holds-write w.next_address (suc w.next_address) w.next_address (some e) w.events
              (task_ptr w.task_event) v.task (omega arith) fresh r.task;
        apart = Apart-IsNot w.next_address (task_ptr w.task_event) fresh;
      }

  -- An older event, other than the task's, after a guard.
  guarded_older :
      (w w₂ : World) (e : WideEvent) (a : ℕ)
      → Frame (inside e w) w₂
      → a < w.next_address
      → IsNot a (task_ptr w.task_event)
      → write w.next_address none w₂.events a ≡ w.events a
  guarded_older w w₂ e a f old other =
      let ne : a ≢ w.next_address = λ same. ground arith in
      write_other w.next_address a none w₂.events ne
      ∙ f.others a (omega (arith, old)) ne other
      ∙ write_other w.next_address a (some e) w.events ne

  -- The state after a guard's drop.
  abbrev pub after_guard : World → World → WideEvent → World
  after_guard w w₂ e' =
      closed w.next_address e' (record w₂ { current_event = w.current_event; hooks = w.hooks })

  pub after_guard-Frame :
      (w w₂ : World) (e e' : WideEvent) → Frame (inside e w) w₂ → Frame w (after_guard w w₂ e')
  after_guard-Frame w w₂ e e' f = record {
    current_event = refl;
    task_event = f.task_event;
    hooks = refl;
    later = omega (arith, f.later);
    others = λ a old n m. guarded_older w w₂ e a f old m;
  }

  pub after_guard-Represents :
      (w w₂ : World) (v v₂ : Visible) (e e' : WideEvent)
      → Represents w v
      → Frame (inside e w) w₂
      → Represents w₂ v₂
      → Represents (after_guard w w₂ e') (record { thread = v.thread; task = v₂.task })
  after_guard-Represents w w₂ v v₂ e e' r f r₂ = record {
    thread =
        Holds-same w.next_address w₂.next_address w.events (write w.next_address none w₂.events)
          w.current_event v.thread (omega (arith, f.later))
          (λ a at old.
            guarded_older w w₂ e a f old
              (Apart-at w.current_event (task_ptr w.task_event) a r.apart at))
          r.thread;
    task =
        Holds-write w₂.next_address w₂.next_address w.next_address none w₂.events
          (task_ptr w₂.task_event) v₂.task (omega arith)
          (Apart-at w₂.current_event (task_ptr w₂.task_event) w.next_address r₂.apart
            f.current_event)
          r₂.task;
    apart = subst (λ t. Apart w.current_event (task_ptr t)) (sym f.task_event) r.apart;
  }

  -- Inside a scope.
  pub entered-Represents :
      (w : World) (v : Visible) (e : WideEvent)
      → Represents w v
      → Represents (enter cx ops defaults hook e w) (record { thread = v.thread; task = some e })
  entered-Represents w v e r =
      let fresh = Holds-IsNot w.next_address w.events w.current_event v.thread r.thread in
      record {
        thread =
            Holds-write w.next_address (suc w.next_address) w.next_address (some e) w.events
              w.current_event v.thread (omega arith) fresh r.thread;
        task = (omega arith, write_same w.next_address (some e) w.events);
        apart =
            Apart-sym (some w.next_address) w.current_event
              (Apart-IsNot w.next_address w.current_event fresh);
      }

  scoped_older :
      (w w₂ : World) (e : WideEvent) (a : ℕ)
      → Frame (enter cx ops defaults hook e w) w₂
      → a < w.next_address
      → IsNot a w.current_event
      → write w.next_address none w₂.events a ≡ w.events a
  scoped_older w w₂ e a f old other =
      let ne : a ≢ w.next_address = λ same. ground arith in
      write_other w.next_address a none w₂.events ne
      ∙ f.others a (omega (arith, old)) other ne
      ∙ write_other w.next_address a (some e) w.events ne

  -- The state after a scope.
  abbrev pub after_scope : World → World → WideEvent → World
  after_scope w w₂ e' = closed w.next_address e' (record w₂ {
    task_event = w.task_event;
    hooks = record { thread = w₂.hooks.thread; task = w.hooks.task };
  })

  pub after_scope-Frame :
      (w w₂ : World) (e e' : WideEvent)
      → Frame (enter cx ops defaults hook e w) w₂
      → Frame w (after_scope w w₂ e')
  after_scope-Frame w w₂ e e' f = record {
    current_event = f.current_event;
    task_event = refl;
    hooks = ap (λ h. record { thread = h.thread; task = w.hooks.task }) f.hooks;
    later = omega (arith, f.later);
    others = λ a old n m. scoped_older w w₂ e a f old n;
  }

  pub after_scope-Represents :
      (w w₂ : World) (v v₂ : Visible) (e e' : WideEvent)
      → Represents w v
      → Frame (enter cx ops defaults hook e w) w₂
      → Represents w₂ v₂
      → Represents (after_scope w w₂ e') (record { thread = v₂.thread; task = v.task })
  after_scope-Represents w w₂ v v₂ e e' r f r₂ = record {
    thread =
        Holds-write w₂.next_address w₂.next_address w.next_address none w₂.events w₂.current_event
          v₂.thread (omega arith)
          (Apart-at (task_ptr w₂.task_event) w₂.current_event w.next_address
            (Apart-sym w₂.current_event (task_ptr w₂.task_event) r₂.apart)
            (ap task_ptr f.task_event))
          r₂.thread;
    task =
        Holds-same w.next_address w₂.next_address w.events (write w.next_address none w₂.events)
          (task_ptr w.task_event) v.task (omega (arith, f.later))
          (λ a at old. scoped_older w w₂ e a f old (
            Apart-at (task_ptr w.task_event) w.current_event a
              (Apart-sym w.current_event (task_ptr w.task_event) r.apart) at))
          r.task;
    apart = subst (λ p. Apart p (task_ptr w.task_event)) (sym f.current_event) r.apart;
  }
