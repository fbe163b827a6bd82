-- ===== src/Session/Refines/Programs.antt =====
-- Code that uses wide-log runs as its meaning says: the cells of src/context.rs and the generated guards.
use wide_log.Prelude.{
  ℕ, ◌≡◌, sym, ◌∙◌, ap, Option, none, some, List, [], ◌∷◌, ◌++◌, append_assoc, append-nil, Str,
}
use wide_log.Value.{Value, WideEvent}
use wide_log.Event.{Context}
use wide_log.Guard
use wide_log.Guard.{FloatOps}
use wide_log.Hook.{pop_log_hook}
use wide_log.Hook.Nesting.{pop-push}
use wide_log.Session
use wide_log.Session.{
  Run, returned, panicked, undefined, ◌and_then◌, and_then_assoc, or_panic, World, with_current,
  Settings, build, drop_inner, drop_guard, enter, leave, scope,
}
use wide_log.Session.Program.{Program, done, step, guarded, scoped, perform, exec}
use wide_log.Session.Program.Lexical.{Visible, touch, finish, meaning}
use wide_log.Session.Represents.{task_ptr, Represents, Frame, Frame-refl, Agrees}
use wide_log.Session.Refines.{with_current-Touches}
use wide_log.Session.Refines.Guards.{
  Agrees-behind, Touches-then, live_event, drop_inner-Agrees, inside, inside-Represents,
  after_guard, after_guard-Frame, after_guard-Represents, entered-Represents, after_scope,
  after_scope-Frame, after_scope-Represents,
}

-- Where the events of a block stand among those that were emitted.
emitted_order :
    (before inner : List WideEvent) (e : WideEvent) {now : List WideEvent}
    → now ≡ before ++ inner
    → (outer : List WideEvent) → (now ++ e ∷ []) ++ outer ≡ before ++ (inner ++ e ∷ outer)
emitted_order before inner e {now} same outer =
    append_assoc now (e ∷ []) outer
    ∙ ap (λ es. es ++ e ∷ outer) same
    ∙ append_assoc before inner (e ∷ outer)

module _ {K : Type 0} (cx : Context K) (ops : FloatOps) (defaults : List (List K × Value))
    (arms : List (Str × List K)) (hook : ℕ) where
  -- What is proved of the code below a guard or scope.
  abbrev Runs : Program → Type 0
  Runs c =
      (w : World) (v : Visible)
      → Represents w v
      → Agrees w (exec cx ops defaults arms hook c w) (meaning cx ops defaults arms c v)

  -- What follows the body of a guard.
  abbrev guard_end : Settings → Program → World → World → Run World
  guard_end s rest w w₂ =
      drop_guard cx ops defaults hook s
        (record { inner = w.next_address; prev = w.current_event; log_hook = hook }) w₂
      and_then exec cx ops defaults arms hook rest

  abbrev guard_meaning :
      Settings → Program → Visible → Visible × List WideEvent → Run (Visible × List WideEvent)
  guard_meaning s rest v (v₁, inner) = finish cx ops defaults arms s v₁.thread and_then λ e'.
      meaning cx ops defaults arms rest (record { thread = v.thread; task = v₁.task })
      and_then λ (v₂, outer). returned (v₂, inner ++ e' ∷ outer)

  guard_end-Agrees :
      (s : Settings) (rest : Program) (w w₂ : World) (v v₁ : Visible) (e : WideEvent)
      (inner : List WideEvent)
      → Runs rest
      → Represents w v
      → Represents w₂ v₁
      → Frame (inside cx ops defaults hook e w) w₂
      → w₂.emitted ≡ w.emitted ++ inner
      → Agrees w (guard_end s rest w w₂) (guard_meaning s rest v (v₁, inner))
  unfolding drop_guard
  guard_end-Agrees s rest w w₂ v v₁ e inner rest_runs r r₂ f em =
      let (e₁, known, live) =
        live_event w₂.next_address w.next_address w₂.events w₂.current_event v₁.thread
          f.current_event r₂.thread in
      let popped : pop_log_hook cx.profile hook w₂.hooks ≡ some w.hooks =
        ap (pop_log_hook cx.profile hook) f.hooks ∙ pop-push cx.profile hook w.hooks in
      rw popped (
        drop_inner-Agrees cx ops defaults hook w
          (record w₂ { current_event = w.current_event; hooks = w.hooks }) w.next_address s e₁
          v₁.thread _ _ live known
          (λ e'.
            Agrees-behind w (after_guard cx ops defaults hook w w₂ e')
              (λ outer. inner ++ e' ∷ outer) _ _
              (after_guard-Frame cx ops defaults hook w w₂ e e' f)
              (emitted_order w.emitted inner e' em)
              (rest_runs (after_guard cx ops defaults hook w w₂ e')
                (record { thread = v.thread; task = v₁.task })
                (after_guard-Represents cx ops defaults hook w w₂ v v₁ e e' r f r₂))))

  -- What follows the body of a scope.
  abbrev scope_end : Settings → Program → World → World → Run World
  scope_end s rest w w₂ =
      leave cx ops defaults hook w s w₂ and_then exec cx ops defaults arms hook rest

  abbrev scope_meaning :
      Settings → Program → Visible → Visible × List WideEvent → Run (Visible × List WideEvent)
  scope_meaning s rest v (v₁, inner) = finish cx ops defaults arms s v₁.task and_then λ e'.
      meaning cx ops defaults arms rest (record { thread = v₁.thread; task = v.task })
      and_then λ (v₂, outer). returned (v₂, inner ++ e' ∷ outer)

  scope_end-Agrees :
      (s : Settings) (rest : Program) (w w₂ : World) (v v₁ : Visible) (e : WideEvent)
      (inner : List WideEvent)
      → Runs rest
      → Represents w v
      → Represents w₂ v₁
      → Frame (enter cx ops defaults hook e w) w₂
      → w₂.emitted ≡ w.emitted ++ inner
      → Agrees w (scope_end s rest w w₂) (scope_meaning s rest v (v₁, inner))
  scope_end-Agrees s rest w w₂ v v₁ e inner rest_runs r r₂ f em =
      let (e₁, known, live) =
        live_event w₂.next_address w.next_address w₂.events (task_ptr w₂.task_event) v₁.task
          (ap task_ptr f.task_event) r₂.task in
      let ended = record w₂ {
        task_event = w.task_event;
        hooks = record { thread = w₂.hooks.thread; task = w.hooks.task };
      } in
      drop_inner-Agrees cx ops defaults hook w ended w.next_address s e₁ v₁.task
        (exec cx ops defaults arms hook rest)
        (λ e'.
          meaning cx ops defaults arms rest (record { thread = v₁.thread; task = v.task })
          and_then λ (v₂, outer). returned (v₂, inner ++ e' ∷ outer))
        live known
        (λ e'.
          Agrees-behind w (after_scope cx ops defaults hook w w₂ e') (λ outer. inner ++ e' ∷ outer)
            _ _ (after_scope-Frame cx ops defaults hook w w₂ e e' f)
            (emitted_order w.emitted inner e' em)
            (rest_runs (after_scope cx ops defaults hook w w₂ e')
              (record { thread = v₁.thread; task = v.task })
              (after_scope-Represents cx ops defaults hook w w₂ v v₁ e e' r f r₂)))

  -- A body, then the end of its block.
  pub block-Agrees :
      (w w₁ : World) (x : Run World) (y : Run (Visible × List WideEvent)) (k : World → Run World)
      (l : Visible × List WideEvent → Run (Visible × List WideEvent))
      → Agrees w₁ x y
      → ((w₂ : World) (v₁ : Visible) (inner : List WideEvent)
          → Represents w₂ v₁
          → Frame w₁ w₂
          → w₂.emitted ≡ w₁.emitted ++ inner
          → Agrees w (k w₂) (l (v₁, inner)))
      → Agrees w (x and_then k) (y and_then l)
  block-Agrees w w₁ (returned w₂) (returned (v₁, inner)) k l (r, f, em) next =
      next w₂ v₁ inner r f em
  block-Agrees w w₁ panicked panicked k l h next = tt
  block-Agrees w w₁ (returned w₂) panicked k l h next = absurd h
  block-Agrees w w₁ (returned w₂) undefined k l h next = absurd h
  block-Agrees w w₁ panicked (returned z) k l h next = absurd h
  block-Agrees w w₁ panicked undefined k l h next = absurd h
  block-Agrees w w₁ undefined y k l h next = absurd h

  guarded-Agrees :
      (s : Settings) (body rest : Program) → Runs body → Runs rest → Runs (guarded s body rest)
  unfolding exec meaning build
  guarded-Agrees s body rest body_runs rest_runs w v r =
      by_event (Guard.build cx defaults s.preset s.id)
    where
      by_event :
          (o : Option WideEvent)
          → Agrees w
              ((or_panic o and_then λ e. returned (Session.install cx ops defaults hook e w))
                and_then λ (g, w₁). exec cx ops defaults arms hook body w₁ and_then λ w₂.
                    drop_guard cx ops defaults hook s g w₂
                    and_then exec cx ops defaults arms hook rest)
              (or_panic o and_then λ e.
                meaning cx ops defaults arms body (record { thread = some e; task = v.task })
                and_then guard_meaning s rest v)
      by_event none = tt
      by_event (some e) =
          let w₁ = inside cx ops defaults hook e w in
          block-Agrees w w₁ _ _ (guard_end s rest w) (guard_meaning s rest v)
            (body_runs w₁ _ (inside-Represents cx ops defaults hook w v e r))
            (λ w₂ v₁ inner r₂ f em. guard_end-Agrees s rest w w₂ v v₁ e inner rest_runs r r₂ f em)

  scoped-Agrees :
      (s : Settings) (body rest : Program) → Runs body → Runs rest → Runs (scoped s body rest)
  unfolding exec meaning scope
  scoped-Agrees s body rest body_runs rest_runs w v r =
      by_event (Guard.build cx defaults s.preset s.id)
    where
      by_event :
          (o : Option WideEvent)
          → Agrees w
              ((or_panic o and_then λ e.
                  exec cx ops defaults arms hook body (enter cx ops defaults hook e w)
                  and_then leave cx ops defaults hook w s)
                and_then exec cx ops defaults arms hook rest)
              (or_panic o and_then λ e.
                meaning cx ops defaults arms body (record { thread = v.thread; task = some e })
                and_then scope_meaning s rest v)
      by_event none = tt
      by_event (some e) =
          let w₁ = enter cx ops defaults hook e w in
          rw
            (and_then_assoc (exec cx ops defaults arms hook body w₁)
              (leave cx ops defaults hook w s) (exec cx ops defaults arms hook rest))
            (block-Agrees w w₁ _ _ (scope_end s rest w) (scope_meaning s rest v)
              (body_runs w₁ _ (entered-Represents cx ops defaults hook w v e r))
              (λ w₂ v₁ inner r₂ f em.
                scope_end-Agrees s rest w w₂ v v₁ e inner rest_runs r r₂ f em))

  -- Code that nests guards and scopes runs, on the pointers of `CURRENT_EVENT` and `TASK_EVENT` and the
  -- hook stacks, as its lexical meaning says, from every state that stands for the visible events: it
  -- panics exactly where the meaning does and never dereferences a dangling pointer; otherwise the cells
  -- and the hook stacks are as before, every older event that no cell points at is unchanged, the state
  -- stands for the meaning's events, and exactly the meaning's events were emitted, in its order.
  pub exec-Agrees :
      (c : Program) (w : World) (v : Visible)
      → Represents w v
      → Agrees w (exec cx ops defaults arms hook c w) (meaning cx ops defaults arms c v)
  unfolding exec meaning
  exec-Agrees done w v r = (r, Frame-refl w, sym (append-nil w.emitted))
  exec-Agrees (step m rest) w v r =
      Touches-then w (with_current (perform cx arms m) w) (touch (perform cx arms m) v) _ _
        (with_current-Touches (perform cx arms m) w v r) (λ w' v' r'. exec-Agrees rest w' v' r')
  exec-Agrees (guarded s body rest) w v r =
      guarded-Agrees s body rest (exec-Agrees body) (exec-Agrees rest) w v r
  exec-Agrees (scoped s body rest) w v r =
      scoped-Agrees s body rest (exec-Agrees body) (exec-Agrees rest) w v r
