-- ===== src/Session/Refines.antt =====
-- A macro's block on the event behind the pointer that `current` of wide-log-macros/src/codegen.rs reads.
pub mod Guards
pub mod Programs
use wide_log.Prelude.{
  ℕ, suc, ◌≡◌, ◌≢◌, ◌<◌, ◌≤◌, refl, sym, ◌∙◌, ap, subst, Option, none, some, List, [], ◌∷◌, ◌++◌,
  append-nil, arith,
}
use wide_log.Value.{WideEvent}
use wide_log.Hook.{Stacks}
use wide_log.Session.{
  Run, returned, panicked, undefined, ◌and_then◌, or_panic, Ptr, World, write, current_of,
  with_current, at_pointer, deref,
}
use wide_log.Session.Program.Lexical.{Visible, touch, touch_task, touch_thread}
use wide_log.Session.Represents.{
  write_same, write_other, task_ptr, Holds, Apart, IsNot, Represents, Frame, Frame-refl,
  Frame-trans, Agrees, Touches, Holds-write, Apart-IsNot,
}

-- The state after a write at the pointer of one of the cells.
write-Frame :
    (w : World) (a : ℕ) (e : WideEvent)
    → ((x : ℕ) → IsNot x w.current_event → IsNot x (task_ptr w.task_event) → x ≢ a)
    → Frame w (record w { events = write a (some e) w.events })
write-Frame w a e apart = record {
  current_event = refl;
  task_event = refl;
  hooks = refl;
  later = omega arith;
  others = λ x old n m. write_other a x (some e) w.events (apart x n m);
}

pub Apart-sym : (p q : Ptr) → Apart p q → Apart q p
Apart-sym none none h = tt
Apart-sym none (some b) h = tt
Apart-sym (some a) none h = tt
Apart-sym (some a) (some b) h = λ same. h (sym same)

pub IsNot-Apart : (a : ℕ) (p : Ptr) → Apart (some a) p → IsNot a p
IsNot-Apart a none h = tt
IsNot-Apart a (some b) h = h

-- Both cells' events after a write at the thread's pointer.
thread_write-Represents :
    (w : World) (a : ℕ) (e' : WideEvent) (task : Option WideEvent)
    → w.current_event ≡ some a
    → a < w.next_address
    → Holds w.next_address w.events (task_ptr w.task_event) task
    → Apart (some a) (task_ptr w.task_event)
    → Represents
        (record w { events = write a (some e') w.events })
        (record { thread = some e'; task = task })
thread_write-Represents w a e' task at room held apart = record {
  thread =
      subst (λ p. Holds w.next_address (write a (some e') w.events) p (some e')) (sym at)
        (room, write_same a (some e') w.events);
  task =
      Holds-write w.next_address w.next_address a (some e') w.events (task_ptr w.task_event) task
        (omega arith) (IsNot-Apart a (task_ptr w.task_event) apart) held;
  apart = subst (λ p. Apart p (task_ptr w.task_event)) (sym at) apart;
}

-- And at the task's.
task_write-Represents :
    (w : World) (a : ℕ) (e' : WideEvent) (thread : Option WideEvent)
    → w.task_event ≡ some (some a)
    → a < w.next_address
    → Holds w.next_address w.events w.current_event thread
    → Apart w.current_event (some a)
    → Represents
        (record w { events = write a (some e') w.events })
        (record { thread = thread; task = some e' })
task_write-Represents w a e' thread at room held apart = record {
  thread =
      Holds-write w.next_address w.next_address a (some e') w.events w.current_event thread
        (omega arith) (IsNot-Apart a w.current_event (Apart-sym w.current_event (some a) apart))
        held;
  task =
      subst (λ t. Holds w.next_address (write a (some e') w.events) (task_ptr t) (some e')) (sym at)
        (room, write_same a (some e') w.events);
  apart = subst (λ t. Apart w.current_event (task_ptr t)) (sym at) apart;
}

-- A block of a macro at a live pointer of one of the cells.
block-Touches :
    (f : WideEvent → Option WideEvent) (w : World) (a : ℕ) (e : WideEvent)
    (after : WideEvent → Visible)
    → w.events a ≡ some e
    → ((x : ℕ) → IsNot x w.current_event → IsNot x (task_ptr w.task_event) → x ≢ a)
    → ((e' : WideEvent) → Represents (record w { events = write a (some e') w.events }) (after e'))
    → Touches w (at_pointer (some a) f w) (or_panic (f e) and_then λ e'. returned (after e'))
block-Touches f w a e after live cell stands = rw live (by_result (f e))
  where
    by_result :
        (r : Option WideEvent)
        → Touches w
            (or_panic r and_then λ e'. returned (record w { events = write a (some e') w.events }))
            (or_panic r and_then λ e'. returned (after e'))
    by_result none = tt
    by_result (some e') = (stands e', write-Frame w a e' cell, refl)

-- A macro does to the event behind the current pointer what it does to the nearest visible event.
pub with_current-Touches :
    (f : WideEvent → Option WideEvent) (w : World) (v : Visible)
    → Represents w v
    → Touches w (with_current f w) (touch f v)
unfolding with_current
with_current-Touches f w v r =
    by_cells w.task_event w.current_event v.task v.thread refl refl r.thread r.task r.apart
  where
    on_thread :
        (p : Ptr) (e : Option WideEvent) (task : Option WideEvent)
        → w.current_event ≡ p
        → Holds w.next_address w.events p e
        → Holds w.next_address w.events (task_ptr w.task_event) task
        → Apart p (task_ptr w.task_event)
        → Touches w (at_pointer p f w) (touch_thread f (record { thread = e; task = task }) e)
    on_thread none none task at h k apart = (
      record {
        thread = subst (λ p. Holds w.next_address w.events p none) (sym at) tt;
        task = k;
        apart = subst (λ p. Apart p (task_ptr w.task_event)) (sym at) tt;
      },
      Frame-refl w,
      refl,
    )
    on_thread none (some e) task at h k apart = absurd h
    on_thread (some a) none task at h k apart = absurd h
    on_thread (some a) (some e) task at h k apart =
        block-Touches f w a e (λ e'. record { thread = some e'; task = task }) h.1
          (λ x n m. subst (IsNot x) at n) (λ e'. thread_write-Represents w a e' task at h.0 k apart)

    outside :
        (p : Ptr) (thread : Option WideEvent)
        → task_ptr w.task_event ≡ none
        → w.current_event ≡ p
        → Holds w.next_address w.events p thread
        → Touches w
            (at_pointer p f w)
            (touch_thread f (record { thread = thread; task = none }) thread)
    outside p thread null at_p h =
        on_thread p thread none at_p h
          (subst (λ q. Holds w.next_address w.events q none) (sym null) tt)
          (subst (Apart p) (sym null) (no_other p))
      where
        no_other : (q : Ptr) → Apart q none
        no_other none = tt
        no_other (some a) = tt

    by_cells :
        (t : Option Ptr) (p : Ptr) (task thread : Option WideEvent)
        → w.task_event ≡ t
        → w.current_event ≡ p
        → Holds w.next_address w.events p thread
        → Holds w.next_address w.events (task_ptr t) task
        → Apart p (task_ptr t)
        → Touches w
            (at_pointer (current_of t p) f w)
            (touch_task f (record { thread = thread; task = task }) task)
    by_cells none p (some e) thread at_t at_p h k apart = absurd k
    by_cells none p none thread at_t at_p h k apart = outside p thread (ap task_ptr at_t) at_p h
    by_cells (some none) p (some e) thread at_t at_p h k apart = absurd k
    by_cells (some none) p none thread at_t at_p h k apart =
        outside p thread (ap task_ptr at_t) at_p h
    by_cells (some (some a)) p none thread at_t at_p h k apart = absurd k
    by_cells (some (some a)) p (some e) thread at_t at_p h k apart =
        block-Touches f w a e (λ e'. record { thread = thread; task = some e' }) k.1
          (λ x n m. subst (λ t. IsNot x (task_ptr t)) at_t m)
          (λ e'.
            task_write-Represents w a e' thread at_t k.0
              (subst (λ q. Holds w.next_address w.events q thread) (sym at_p) h)
              (subst (λ q. Apart q (some a)) (sym at_p) apart))
