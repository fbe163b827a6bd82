-- ===== src/Session/Represents.antt =====
-- How the state of src/context.rs and the generated guards stands for the events that code sees.
use wide_log.Prelude.{
  ℕ, ◌≡◌, ◌≢◌, ◌<◌, ◌≤◌, refl, sym, ◌∙◌, subst, true, false, Option, none, some, List, ◌++◌, ◌==◌,
  arith,
}
use wide_log.Value.{WideEvent}
use wide_log.Session.{Run, returned, panicked, Ptr, World, write}
use wide_log.Session.Program.Lexical.{Visible}

pub write_same :
    (a : ℕ) (o : Option WideEvent) (events : ℕ → Option WideEvent) → write a o events a ≡ o
write_same a o events = let same : (a == a) ≡ true = ground arith in rw same

pub write_other :
    (a x : ℕ) (o : Option WideEvent) (events : ℕ → Option WideEvent)
    → x ≢ a
    → write a o events x ≡ events x
write_other a x o events ne = let other : (x == a) ≡ false = ground arith in rw other

-- The pointer of a task-local cell; there is none outside a scope.
abbrev pub task_ptr : Option Ptr → Ptr
task_ptr none = none
task_ptr (some p) = p

-- The pointer is null and there is no event, or the event is live behind it.
abbrev pub Holds : ℕ → (ℕ → Option WideEvent) → Ptr → Option WideEvent → Type 0
Holds next events none none = Unit
Holds next events none (some e) = ⊥
Holds next events (some a) none = ⊥
Holds next events (some a) (some e) = (a < next) × (events a ≡ some e)

-- Two pointers to one event do not occur.
abbrev pub Apart : Ptr → Ptr → Type 0
Apart (some a) (some b) = a ≢ b
Apart _ _ = Unit

abbrev pub IsNot : ℕ → Ptr → Type 0
IsNot a none = Unit
IsNot a (some b) = a ≢ b

-- The state stands for the events that are visible.
pub record Represents (w : World) (v : Visible) : Type 0 where
  pub thread : Holds w.next_address w.events w.current_event v.thread
  pub task : Holds w.next_address w.events (task_ptr w.task_event) v.task
  pub apart : Apart w.current_event (task_ptr w.task_event)

-- From one state to a later one the cells and the hooks are the same, and so is every older event that the
-- cells do not point at.
pub record Frame (w w' : World) : Type 0 where
  pub current_event : w'.current_event ≡ w.current_event
  pub task_event : w'.task_event ≡ w.task_event
  pub hooks : w'.hooks ≡ w.hooks
  pub later : w.next_address ≤ w'.next_address
  pub others :
      (a : ℕ)
      → a < w.next_address
      → IsNot a w.current_event
      → IsNot a (task_ptr w.task_event)
      → w'.events a ≡ w.events a

-- A run of the code, beside its meaning.
abbrev pub Agrees : World → Run World → Run (Visible × List WideEvent) → Type 0
Agrees w (returned w') (returned (v', out)) =
    Represents w' v' × Frame w w' × (w'.emitted ≡ w.emitted ++ out)
Agrees w panicked panicked = Unit
Agrees w _ _ = ⊥

-- The same for a macro, which emits nothing.
abbrev pub Touches : World → Run World → Run Visible → Type 0
Touches w (returned w') (returned v') = Represents w' v' × Frame w w' × (w'.emitted ≡ w.emitted)
Touches w panicked panicked = Unit
Touches w _ _ = ⊥

pub Frame-refl : (w : World) → Frame w w
Frame-refl w = record {
  current_event = refl;
  task_event = refl;
  hooks = refl;
  later = omega arith;
  others = λ a old n m. refl;
}

pub Frame-trans : (a b c : World) → Frame a b → Frame b c → Frame a c
Frame-trans a b c f g = record {
  current_event = g.current_event ∙ f.current_event;
  task_event = g.task_event ∙ f.task_event;
  hooks = g.hooks ∙ f.hooks;
  later = omega (arith, f.later, g.later);
  others = λ x old n m.
      g.others x (omega (arith, f.later)) (subst (IsNot x) (sym f.current_event) n)
        (subst (λ t. IsNot x (task_ptr t)) (sym f.task_event) m)
      ∙ f.others x old n m;
}

-- What a later address does to an older event: nothing.
pub Holds-write :
    (next next' a : ℕ) (o : Option WideEvent) (events : ℕ → Option WideEvent) (p : Ptr)
    (e : Option WideEvent)
    → next ≤ next'
    → IsNot a p
    → Holds next events p e
    → Holds next' (write a o events) p e
Holds-write next next' a o events none none le ne h = tt
Holds-write next next' a o events none (some e) le ne h = h
Holds-write next next' a o events (some b) none le ne h = h
Holds-write next next' a o events (some b) (some e) le ne h =
    (omega (arith, h.0, le), write_other a b o events (λ same. ne (sym same)) ∙ h.1)

-- A pointer to a live event is below the next address.
pub Holds-IsNot :
    (next : ℕ) (events : ℕ → Option WideEvent) (p : Ptr) (e : Option WideEvent)
    → Holds next events p e
    → IsNot next p
Holds-IsNot next events none e h = tt
Holds-IsNot next events (some b) none h = absurd h
Holds-IsNot next events (some b) (some e) h = λ same. let lt = h.0 in ground arith

pub Apart-IsNot : (a : ℕ) (p : Ptr) → IsNot a p → Apart (some a) p
Apart-IsNot a none h = tt
Apart-IsNot a (some b) h = h
