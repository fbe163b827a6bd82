-- ===== src/Session.antt =====
-- src/context.rs, and what `wide_log!` generates around it (wide-log-macros/src/codegen.rs, without the
-- feature `tracing`): `CURRENT_EVENT`, `TASK_EVENT`, the guard's `build` and `drop`, `scope`, `current`.
-- Events live behind addresses, since the cells hold raw pointers: a fresh address is one that was not
-- used before. What the emit closures were called with is part of the state.
pub mod Program
pub mod Represents
pub mod Refines
pub mod Unnested
pub mod Middleware
pub mod Root
pub mod Builder
use wide_log.Prelude.{
  ℕ, suc, Bool, true, false, Option, none, some, List, [], ◌∷◌, ◌++◌, Str, ◌==◌, if◌then◌else◌,
  ◌>>=◌, ◌≡◌, refl,
}
use wide_log.Value.{Value, WideEvent}
use wide_log.Event.{Context}
use wide_log.Guard
use wide_log.Guard.{FloatOps}
use wide_log.Hook.{Stacks, push_log_hook, pop_log_hook}

-- What a run of Rust code comes to: `undefined` is the dereference of a dangling pointer.
pub data Run {ℓ} (A : Type ℓ) : Type ℓ where
  returned : A → Run A
  panicked : Run A
  undefined : Run A

infixl 5 ◌and_then◌
abbrev pub ◌and_then◌ {ℓ κ} : {A : Type ℓ} {B : Type κ} → Run A → (A → Run B) → Run B
returned a and_then f = f a
panicked and_then f = panicked
undefined and_then f = undefined

pub and_then_assoc {ℓ κ ι} :
    {A : Type ℓ} {B : Type κ} {C : Type ι} (x : Run A) (f : A → Run B) (g : B → Run C)
    → ((x and_then f) and_then g) ≡ (x and_then λ a. f a and_then g)
and_then_assoc (returned a) f g = refl
and_then_assoc panicked f g = refl
and_then_assoc undefined f g = refl

abbrev pub or_panic {ℓ} : {A : Type ℓ} → Option A → Run A
or_panic none = panicked
or_panic (some a) = returned a

-- A raw pointer; `none` is null.
abbrev pub Ptr : Type 0
Ptr = Option ℕ

-- The addresses below `next_address` have been used; `events` has the ones that are live.
pub record World : Type 0 where
  pub next_address : ℕ
  pub events : ℕ → Option WideEvent
  pub current_event : Ptr
  pub task_event : Option Ptr
  pub hooks : Stacks
  pub emitted : List WideEvent

-- `ContextCell::replace`: the pointer that was there, and the new one.
abbrev pub replace : Ptr → Ptr → Ptr × Ptr
replace cell ptr = (cell, ptr)

-- `ContextCell::restore`
abbrev pub restore : Ptr → Ptr → Ptr
restore cell ptr = ptr

-- The store with another content of an address.
abbrev pub write : ℕ → Option WideEvent → (ℕ → Option WideEvent) → ℕ → Option WideEvent
write a o events = λ x. if x == a then o else events x

-- `Box::new`
abbrev pub allocate : WideEvent → World → World
allocate e w = record w {
  next_address = suc w.next_address;
  events = write w.next_address (some e) w.events;
}

-- `current`, up to the dereference: a task's pointer unless it is null, then the thread's.
abbrev pub current_of : Option Ptr → Ptr → Ptr
current_of (some (some a)) thread = some a
current_of _ thread = thread

-- `if let Some(ev) = current() { ... }`, where the block is `f` on the event.
abbrev pub deref : ℕ → (WideEvent → Option WideEvent) → World → Option WideEvent → Run World
deref a f w none = undefined
deref a f w (some e) =
    or_panic (f e) and_then λ e'. returned (record w { events = write a (some e') w.events })

abbrev pub at_pointer : Ptr → (WideEvent → Option WideEvent) → World → Run World
at_pointer none f w = returned w
at_pointer (some a) f w = deref a f w (w.events a)

unfoldable pub with_current : (WideEvent → Option WideEvent) → World → Run World
with_current f w = at_pointer (current_of w.task_event w.current_event) f w

-- The fields of `WideLogGuard` that its `drop` uses; `inner` is the event's address.
pub record WideLogGuard : Type 0 where
  pub inner : ℕ
  pub prev : Ptr
  pub log_hook : ℕ

-- What one guard or scope depends on: the id that its `id_fn` returned, its preset, and at its drop the
-- nanoseconds elapsed and the time.
pub record Settings : Type 0 where
  pub id : Str
  pub preset : Option (WideEvent → Option WideEvent)
  pub nanos : ℕ
  pub now : Str

module _ {K : Type 0} (cx : Context K) (ops : FloatOps) (defaults : List (List K × Value))
    (hook : ℕ) where
  -- The event that `build` or `scope` makes.
  abbrev pub fresh_event : Settings → Run WideEvent
  fresh_event s = or_panic (Guard.build cx defaults s.preset s.id)

  -- The rest of `build`: the event is boxed, the cell points at it, the hook goes in.
  abbrev pub install : WideEvent → World → WideLogGuard × World
  install e w =
      let (prev, cell) = replace w.current_event (some w.next_address) in
      let w' = allocate e w in
      (
        record { inner = w.next_address; prev = prev; log_hook = hook },
        record w' { current_event = cell; hooks = push_log_hook hook w.hooks },
      )

  unfoldable pub build : Settings → World → Run (WideLogGuard × World)
  build s w = fresh_event s and_then λ e. returned (install e w)

  -- `Drop for ScopedGuard`, then the box is freed.
  abbrev pub emit : ℕ → Settings → World → Option WideEvent → Run World
  emit a s w none = undefined
  emit a s w (some e) = or_panic (Guard.drop cx ops s.nanos s.now e) and_then λ e'.
      returned (record w { events = write a none w.events; emitted = w.emitted ++ e' ∷ [] })

  abbrev pub drop_inner : ℕ → Settings → World → Run World
  drop_inner a s w = emit a s w (w.events a)

  -- `Drop for WideLogGuard`: its body, then its field `inner`.
  unfoldable pub drop_guard : Settings → WideLogGuard → World → Run World
  drop_guard s g w = or_panic (pop_log_hook cx.profile g.log_hook w.hooks) and_then λ hooks.
      drop_inner g.inner s
        (record w { current_event = restore w.current_event g.prev; hooks = hooks })

  -- The task-local cell and hook stack that the future runs in.
  abbrev pub enter : WideEvent → World → World
  enter e w =
      let w' = allocate e w in
      record w' {
        task_event = some (some w.next_address);
        hooks = record { thread = w.hooks.thread; task = some (hook ∷ []) };
      }

  -- At its end they are what they were outside, and `_inner` is dropped.
  abbrev pub leave : World → Settings → World → Run World
  leave outer s w = drop_inner outer.next_address s (record w {
    task_event = outer.task_event;
    hooks = record { thread = w.hooks.thread; task = outer.hooks.task };
  })

  -- `scope_with_defaults` (and `scope`, without a preset), around a future that runs to its end.
  unfoldable pub scope : Settings → (World → Run World) → World → Run World
  scope s f w = fresh_event s and_then λ e. f (enter e w) and_then leave w s
