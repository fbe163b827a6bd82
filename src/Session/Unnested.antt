-- ===== src/Session/Unnested.antt =====
-- Two guards of wide-log-macros/src/codegen.rs that are dropped in the order in which they were built.
use wide_log.Prelude.{
  ℕ, suc, ◌≡◌, ◌≢◌, refl, sym, ◌∙◌, ap, subst, Option, none, some, List, [], ◌∷◌, ◌++◌, arith,
}
use wide_log.Value.{Value, WideEvent}
use wide_log.Event.{Context}
use wide_log.Guard
use wide_log.Guard.{FloatOps}
use wide_log.Hook.{Stacks, pop_log_hook}
use wide_log.Hook.Nesting.{pop-push}
use wide_log.Session.{
  Run, returned, undefined, ◌and_then◌, or_panic, World, write, with_current, Settings, build,
  drop_guard, install, WideLogGuard,
}
use wide_log.Session.Represents.{write_same, write_other}

module _ {K : Type 0} (cx : Context K) (ops : FloatOps) (defaults : List (List K × Value))
    (hook : ℕ) where
  -- `let a = ..build(); let b = ..build(); drop(a); drop(b);`
  unfoldable pub unnested : Settings → Settings → World → Run World
  unfolding build drop_guard
  unnested s₁ s₂ w = build cx ops defaults hook s₁ w and_then λ (a, w₁).
      build cx ops defaults hook s₂ w₁ and_then λ (b, w₂).
      drop_guard cx ops defaults hook s₁ a w₂ and_then drop_guard cx ops defaults hook s₂ b

  -- The state after a drop that does not panic.
  abbrev dropped : WideLogGuard → Stacks → WideEvent → World → World
  dropped g hooks e' w = record w {
    current_event = g.prev;
    hooks = hooks;
    events = write g.inner none w.events;
    emitted = w.emitted ++ e' ∷ [];
  }

  drop_guard-dropped :
      (s : Settings) (g : WideLogGuard) (w : World) (hooks : Stacks) (e : WideEvent)
      → pop_log_hook cx.profile g.log_hook w.hooks ≡ some hooks
      → w.events g.inner ≡ some e
      → drop_guard cx ops defaults hook s g w ≡ (
          or_panic (Guard.drop cx ops s.nanos s.now e) and_then λ e'.
          returned (dropped g hooks e' w))
  unfolding drop_guard
  drop_guard-dropped s g w hooks e popped live = rw (popped, live)

  -- The two addresses are the next ones, and the second guard restores the first.
  second_drop :
      (s₁ s₂ : Settings) (w w' : World) (e₁ e₂ : WideEvent) (f : WideEvent → Option WideEvent)
      → w.task_event ≡ none
      → (let (a, w₁) = install cx ops defaults hook e₁ w in
          let (b, w₂) = install cx ops defaults hook e₂ w₁ in
          (drop_guard cx ops defaults hook s₁ a w₂ and_then drop_guard cx ops defaults hook s₂ b)
          ≡ returned w')
      → with_current f w' ≡ undefined
  unfolding with_current
  second_drop s₁ s₂ w w' e₁ e₂ f outside h =
      let n = w.next_address in
      let (a, w₁) = install cx ops defaults hook e₁ w in
      let (b, w₂) = install cx ops defaults hook e₂ w₁ in
      let ne : n ≢ suc n = λ same. ground arith in
      let live : w₂.events n ≡ some e₁ =
        write_other (suc n) n (some e₂) w₁.events ne ∙ write_same n (some e₁) w.events in
      let first = drop_guard-dropped s₁ a w₂ w₁.hooks e₁ (pop-push cx.profile hook w₁.hooks) live in
      by_first (Guard.drop cx ops s₁.nanos s₁.now e₁)
        (sym (ap (λ r. r and_then drop_guard cx ops defaults hook s₂ b) first) ∙ h)
    where
      ending :
          (e₁' : WideEvent) (r : Option WideEvent)
          → (let (a, w₁) = install cx ops defaults hook e₁ w in
              let (b, w₂) = install cx ops defaults hook e₂ w₁ in
              (or_panic r and_then λ e₂'.
              returned (dropped b w.hooks e₂' (dropped a w₁.hooks e₁' w₂)))
              ≡ returned w')
          → with_current f w' ≡ undefined
      ending e₁' none h' = cc
      ending e₁' (some e₂') h' =
          let (a, w₁) = install cx ops defaults hook e₁ w in
          let (b, w₂) = install cx ops defaults hook e₂ w₁ in
          let last = dropped b w.hooks e₂' (dropped a w₁.hooks e₁' w₂) in
          let same : last ≡ w' = cc in
          let n = w.next_address in
          let gone : last.events n ≡ none =
            write_other (suc n) n none (write n none w₂.events) (λ eq. ground arith)
            ∙ write_same n none w₂.events in
          subst (λ x. with_current f x ≡ undefined) same (rw outside (rw gone refl))

      by_first :
          (r : Option WideEvent)
          → (let (a, w₁) = install cx ops defaults hook e₁ w in
              let (b, w₂) = install cx ops defaults hook e₂ w₁ in
              ((or_panic r and_then λ e'. returned (dropped a w₁.hooks e' w₂))
                and_then drop_guard cx ops defaults hook s₂ b)
              ≡ returned w')
          → with_current f w' ≡ undefined
      by_first none h' = cc
      by_first (some e₁') h' =
          let (a, w₁) = install cx ops defaults hook e₁ w in
          let (b, w₂) = install cx ops defaults hook e₂ w₁ in
          let n = w.next_address in
          let live : write n none w₂.events (suc n) ≡ some e₂ =
            write_other n (suc n) none w₂.events (λ eq. ground arith)
            ∙ write_same (suc n) (some e₂) w₁.events in
          let second =
            drop_guard-dropped s₂ b (dropped a w₁.hooks e₁' w₂) w.hooks e₂
              (pop-push cx.profile hook w.hooks) live in
          ending e₁' (Guard.drop cx ops s₂.nanos s₂.now e₂) (sym second ∙ h')

  -- Two guards on a thread outside every task scope, the first one dropped before the second: if nothing
  -- panics, the pointer of `CURRENT_EVENT` dangles afterwards, so that every macro is undefined behaviour.
  pub unnested-undefined :
      (s₁ s₂ : Settings) (w w' : World) (f : WideEvent → Option WideEvent)
      → w.task_event ≡ none
      → unnested s₁ s₂ w ≡ returned w'
      → with_current f w' ≡ undefined
  unfolding unnested build drop_guard with_current
  unnested-undefined s₁ s₂ w w' f outside h =
      by_events (Guard.build cx defaults s₁.preset s₁.id) (Guard.build cx defaults s₂.preset s₂.id)
        h
    where
      by_events :
          (o₁ o₂ : Option WideEvent)
          → ((or_panic o₁ and_then λ e. returned (install cx ops defaults hook e w))
              and_then λ (a, w₁).
                  (or_panic o₂ and_then λ e. returned (install cx ops defaults hook e w₁))
                  and_then λ (b, w₂).
                      drop_guard cx ops defaults hook s₁ a w₂
                      and_then drop_guard cx ops defaults hook s₂ b)
            ≡ returned w'
          → with_current f w' ≡ undefined
      by_events none o₂ h' = cc
      by_events (some e₁) none h' = cc
      by_events (some e₁) (some e₂) h' = second_drop s₁ s₂ w w' e₁ e₂ f outside h'
