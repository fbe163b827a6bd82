-- ===== src/Session/Program/Lexical.antt =====
-- Code that uses the macros of wide-log, read without pointers: each guard and scope holds its event, and a
-- macro means the nearest one around it, of the task if there is a scope.
use wide_log.Prelude.{Option, none, some, List, [], ◌∷◌, ◌++◌, Str, ◌>>=◌}
use wide_log.Value.{Value, WideEvent}
use wide_log.Event.{Context}
use wide_log.Guard
use wide_log.Guard.{FloatOps}
use wide_log.Session.{Run, returned, ◌and_then◌, or_panic, Settings}
use wide_log.Session.Program.{Program, done, step, guarded, scoped, perform}

-- The nearest event of a guard on the thread, and of a scope of the task.
pub record Visible : Type 0 where
  pub thread : Option WideEvent
  pub task : Option WideEvent

abbrev pub touch_thread : (WideEvent → Option WideEvent) → Visible → Option WideEvent → Run Visible
touch_thread f v none = returned v
touch_thread f v (some e) = or_panic (f e) and_then λ e'. returned (record v { thread = some e' })

abbrev pub touch_task : (WideEvent → Option WideEvent) → Visible → Option WideEvent → Run Visible
touch_task f v none = touch_thread f v v.thread
touch_task f v (some e) = or_panic (f e) and_then λ e'. returned (record v { task = some e' })

abbrev pub touch : (WideEvent → Option WideEvent) → Visible → Run Visible
touch f v = touch_task f v v.task

module _ {K : Type 0} (cx : Context K) (ops : FloatOps) (defaults : List (List K × Value))
    (arms : List (Str × List K)) where
  -- The event at the end of its block, with the guard's fields set.
  abbrev pub finish : Settings → Option WideEvent → Run WideEvent
  finish s e = or_panic (e >>= Guard.drop cx ops s.nanos s.now)

  -- The events afterwards, and those that were emitted, in order.
  unfoldable pub meaning : Program → Visible → Run (Visible × List WideEvent)
  unfolding perform
  meaning done v = returned (v, [])
  meaning (step m rest) v = touch (perform cx arms m) v and_then meaning rest
  meaning (guarded s body rest) v = or_panic (Guard.build cx defaults s.preset s.id) and_then λ e.
      meaning body (record { thread = some e; task = v.task }) and_then λ (v₁, inner).
      finish s v₁.thread and_then λ e'.
      meaning rest (record { thread = v.thread; task = v₁.task }) and_then λ (v₂, outer).
      returned (v₂, inner ++ e' ∷ outer)
  meaning (scoped s body rest) v = or_panic (Guard.build cx defaults s.preset s.id) and_then λ e.
      meaning body (record { thread = v.thread; task = some e }) and_then λ (v₁, inner).
      finish s v₁.task and_then λ e'.
      meaning rest (record { thread = v₁.thread; task = v.task }) and_then λ (v₂, outer).
      returned (v₂, inner ++ e' ∷ outer)
