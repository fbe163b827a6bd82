-- ===== src/Session/Root/Hooked.antt =====
-- The level macros of src/lib.rs and those that `wide_log!` generates do the same.
use wide_log.Prelude.{
  ℕ, ◌≡◌, refl, sym, ◌∙◌, ap, subst, true, Option, none, some, List, Str, ◌==◌, arith,
}
use wide_log.Value.{Value, WideEvent}
use wide_log.Event
use wide_log.Event.{Context}
use wide_log.Event.Run.{apply}
use wide_log.Guard
use wide_log.Guard.{FloatOps}
use wide_log.Hook.{innermost, last}
use wide_log.Hook.Nesting.{innermost-push}
use wide_log.Session
use wide_log.Session.{
  Run, returned, panicked, undefined, ◌and_then◌, and_then_assoc, or_panic, Ptr, World,
  with_current, current_of, Settings, build, drop_guard, scope, enter, leave,
}
use wide_log.Session.Program.{
  Macro, wl_set, wl_inc, wl_dec, wl_add, wl_null, log_literal, log_format, Program, done, step,
  guarded, scoped, perform, exec,
}
use wide_log.Session.Program.Lexical.{Visible, meaning}
use wide_log.Session.Represents.{Represents, Frame, Agrees}
use wide_log.Session.Refines.Guards.{inside, inside-Represents, entered-Represents}
use wide_log.Session.Refines.Programs.{exec-Agrees}
use wide_log.Session.Root.{
  wl_log_hook, call_hook, append_log_entry, append_log_entry_fmt, perform_root, exec_root,
}

-- The hook for an event: there is one just where there is an event.
abbrev pub hook_of : ℕ → Ptr → Option ℕ
hook_of hook none = none
hook_of hook (some a) = some hook

-- The innermost hook is the schema's where there is a current event, and there is none otherwise.
abbrev pub IsHooked : ℕ → World → Type 0
IsHooked hook w = innermost w.hooks ≡ hook_of hook (current_of w.task_event w.current_event)

-- The macro with an owned copy of its text.
abbrev pub owned_macro : Macro → Macro
owned_macro (log_literal level message) = log_format level message
owned_macro m = m

abbrev pub owned : Program → Program
owned done = done
owned (step m rest) = step (owned_macro m) (owned rest)
owned (guarded s body rest) = guarded s (owned body) (owned rest)
owned (scoped s body rest) = scoped s (owned body) (owned rest)

and_then-returned : {A : Type 0} (x : Run A) → (x and_then returned) ≡ x
and_then-returned (returned a) = refl
and_then-returned panicked = refl
and_then-returned undefined = refl

-- Two continuations that agree wherever the code may end.
Agrees-continue :
    (w : World) (x : Run World) (y : Run (Visible × List WideEvent)) (k l : World → Run World)
    → Agrees w x y
    → ((w' : World) (v' : Visible) → Represents w' v' → Frame w w' → k w' ≡ l w')
    → (x and_then k) ≡ (x and_then l)
Agrees-continue w (returned w') (returned (v', out)) k l h same = same w' v' h.0 h.1
Agrees-continue w panicked y k l h same = refl
Agrees-continue w (returned w') panicked k l h same = absurd h
Agrees-continue w (returned w') undefined k l h same = absurd h
Agrees-continue w undefined y k l h same = refl

Frame-IsHooked : (hook : ℕ) (w w' : World) → Frame w w' → IsHooked hook w → IsHooked hook w'
Frame-IsHooked hook w w' f h = rw (f.hooks, f.task_event, f.current_event) h

module _ (hook : ℕ) (other : ℕ → Str → Str → World → Run World) where
  -- The hook is called just where there is an event.
  append-with_current :
      (level message : Str) (w : World)
      → IsHooked hook w
      → append_log_entry hook other level message w
        ≡ with_current (λ e. some (Event.append_log_entry level message e)) w
  unfolding append_log_entry wl_log_hook with_current
  append-with_current level message w h =
      ap (call_hook hook other level message w) h
      ∙ by_pointer (current_of w.task_event w.current_event) refl
    where
      by_pointer :
          (p : Ptr)
          → current_of w.task_event w.current_event ≡ p
          → call_hook hook other level message w (hook_of hook p)
            ≡ with_current (λ e. some (Event.append_log_entry level message e)) w
      by_pointer none at = rw at
      by_pointer (some a) at = let same : (hook == hook) ≡ true = ground arith in rw same

module _ {K : Type 0} (cx : Context K) (ops : FloatOps) (defaults : List (List K × Value))
    (arms : List (Str × List K)) (hook : ℕ) (other : ℕ → Str → Str → World → Run World) where
  perform_root-with_current :
      (m : Macro) (w : World)
      → IsHooked hook w
      → perform_root cx ops defaults arms hook other m w
        ≡ with_current (perform cx arms (owned_macro m)) w
  unfolding perform_root perform apply append_log_entry_fmt
  perform_root-with_current (log_literal level message) w h =
      append-with_current hook other level message w h
  perform_root-with_current (log_format level text) w h =
      append-with_current hook other level text w h
  perform_root-with_current (wl_set path v) w h = refl
  perform_root-with_current (wl_inc path) w h = refl
  perform_root-with_current (wl_dec path) w h = refl
  perform_root-with_current (wl_add path n) w h = refl
  perform_root-with_current (wl_null path) w h = refl

  inside-IsHooked : (e : WideEvent) (w : World) → IsHooked hook (inside cx ops defaults hook e w)
  inside-IsHooked e w = innermost-push hook w.hooks ∙ by_task w.task_event
    where
      by_task : (t : Option Ptr) → some hook ≡ hook_of hook (current_of t (some w.next_address))
      by_task none = refl
      by_task (some none) = refl
      by_task (some (some a)) = refl

  -- What is proved of the code below a guard or scope.
  abbrev SameRun : Program → Type 0
  SameRun c =
      (w : World) (v : Visible)
      → Represents w v
      → IsHooked hook w
      → exec_root cx ops defaults arms hook other c w ≡ exec cx ops defaults arms hook (owned c) w

  -- The rest of the code runs the same from wherever the code before it may end.
  continue_same :
      (rest first : Program) (w : World) (v : Visible) (x : Run World)
      → SameRun rest
      → Represents w v
      → IsHooked hook w
      → exec cx ops defaults arms hook first w ≡ x
      → (x and_then exec_root cx ops defaults arms hook other rest)
        ≡ (x and_then exec cx ops defaults arms hook (owned rest))
  continue_same rest first w v x rest_same r h is_first =
      Agrees-continue w x (meaning cx ops defaults arms first v) _ _
        (subst (λ y. Agrees w y (meaning cx ops defaults arms first v)) is_first
          (exec-Agrees cx ops defaults arms hook first w v r))
        (λ w' v' r' f. rest_same w' v' r' (Frame-IsHooked hook w w' f h))

  step_same : (m : Macro) (rest : Program) → SameRun rest → SameRun (step m rest)
  unfolding exec_root exec
  step_same m rest rest_same w v r h =
      ap (λ x. x and_then exec_root cx ops defaults arms hook other rest)
        (perform_root-with_current m w h)
      ∙ continue_same rest (step (owned_macro m) done) w v _ rest_same r h (and_then-returned _)

  -- A block whose body runs the same, and the rest of the code.
  block_same :
      (rest first : Program) (w : World) (v : Visible) (x y : Run World) (close : World → Run World)
      → SameRun rest
      → Represents w v
      → IsHooked hook w
      → x ≡ y
      → exec cx ops defaults arms hook first w ≡ (y and_then close)
      → ((x and_then close) and_then exec_root cx ops defaults arms hook other rest)
        ≡ ((y and_then close) and_then exec cx ops defaults arms hook (owned rest))
  block_same rest first w v x y close rest_same r h same is_first =
      ap (λ z. (z and_then close) and_then exec_root cx ops defaults arms hook other rest) same
      ∙ continue_same rest first w v (y and_then close) rest_same r h is_first

  guarded_same :
      (s : Settings) (body rest : Program)
      → SameRun body
      → SameRun rest
      → SameRun (guarded s body rest)
  unfolding exec_root exec build
  guarded_same s body rest body_same rest_same w v r h =
      by_event (Guard.build cx defaults s.preset s.id) refl
    where
      by_event :
          (o : Option WideEvent)
          → Guard.build cx defaults s.preset s.id ≡ o
          → ((or_panic o and_then λ e. returned (Session.install cx ops defaults hook e w))
              and_then λ (g, w₁). exec_root cx ops defaults arms hook other body w₁ and_then λ w₂.
                  drop_guard cx ops defaults hook s g w₂
                  and_then exec_root cx ops defaults arms hook other rest)
            ≡ ((or_panic o and_then λ e. returned (Session.install cx ops defaults hook e w))
                and_then λ (g, w₁). exec cx ops defaults arms hook (owned body) w₁ and_then λ w₂.
                    drop_guard cx ops defaults hook s g w₂
                    and_then exec cx ops defaults arms hook (owned rest))
      by_event none is_event = refl
      by_event (some e) is_event =
          let w₁ = inside cx ops defaults hook e w in
          let body_run = exec cx ops defaults arms hook (owned body) w₁ in
          let close : World → Run World =
            drop_guard cx ops defaults hook s (Session.install cx ops defaults hook e w).0 in
          let is_first : exec cx ops defaults arms hook (guarded s (owned body) done) w
              ≡ (body_run and_then close) =
            rw is_event (
              sym (and_then_assoc body_run close returned)
              ∙ and_then-returned (body_run and_then close)) in
          sym (
            and_then_assoc (exec_root cx ops defaults arms hook other body w₁) close
              (exec_root cx ops defaults arms hook other rest))
          ∙ block_same rest (guarded s (owned body) done) w v _ _ close rest_same r h
              (body_same w₁ _ (inside-Represents cx ops defaults hook w v e r)
                (inside-IsHooked e w))
              is_first
          ∙ and_then_assoc body_run close (exec cx ops defaults arms hook (owned rest))

  scoped_same :
      (s : Settings) (body rest : Program)
      → SameRun body
      → SameRun rest
      → SameRun (scoped s body rest)
  unfolding exec_root exec scope innermost last
  scoped_same s body rest body_same rest_same w v r h =
      by_event (Guard.build cx defaults s.preset s.id) refl
    where
      by_event :
          (o : Option WideEvent)
          → Guard.build cx defaults s.preset s.id ≡ o
          → ((or_panic o and_then λ e.
                exec_root cx ops defaults arms hook other body (enter cx ops defaults hook e w)
                and_then leave cx ops defaults hook w s)
              and_then exec_root cx ops defaults arms hook other rest)
            ≡ ((or_panic o and_then λ e.
                  exec cx ops defaults arms hook (owned body) (enter cx ops defaults hook e w)
                  and_then leave cx ops defaults hook w s)
                and_then exec cx ops defaults arms hook (owned rest))
      by_event none is_event = refl
      by_event (some e) is_event =
          let w₁ = enter cx ops defaults hook e w in
          block_same rest (scoped s (owned body) done) w v _ _ (leave cx ops defaults hook w s)
            rest_same r h (body_same w₁ _ (entered-Represents cx ops defaults hook w v e r) refl)
            (rw is_event (and_then-returned _))

  -- Code with the crate root's `info!`, `warn!`, `error!`, `debug!` and `trace!` runs exactly as the same
  -- code with the macros that `wide_log!` generates, literals apart, whose text is then an owned copy:
  -- from every state that stands for the visible events, whose innermost hook is the schema's where there
  -- is a current event, and that has no hook where there is none. The hooks of other schemas, whatever
  -- they do, are not called.
  pub exec_root-owned :
      (c : Program) (w : World) (v : Visible)
      → Represents w v
      → IsHooked hook w
      → exec_root cx ops defaults arms hook other c w ≡ exec cx ops defaults arms hook (owned c) w
  unfolding exec_root exec
  exec_root-owned done w v r h = refl
  exec_root-owned (step m rest) w v r h = step_same m rest (exec_root-owned rest) w v r h
  exec_root-owned (guarded s body rest) w v r h =
      guarded_same s body rest (exec_root-owned body) (exec_root-owned rest) w v r h
  exec_root-owned (scoped s body rest) w v r h =
      scoped_same s body rest (exec_root-owned body) (exec_root-owned rest) w v r h
