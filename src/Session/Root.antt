-- ===== src/Session/Root.antt =====
-- The level macros of src/lib.rs at the crate root, for crates that do not invoke `wide_log!` (without
-- the feature `tracing`): an entry goes to the innermost hook of src/hook_registry.rs, which is the shim
-- `__wl_log_hook` of wide-log-macros/src/codegen.rs. An address that is not the shim's is the hook of
-- another schema; what it does is the parameter `other`.
pub mod Hooked
use wide_log.Prelude.{ℕ, Option, none, some, List, Str, ◌==◌, if◌then◌else◌}
use wide_log.Value.{Value}
use wide_log.Event
use wide_log.Event.{Context}
use wide_log.Guard.{FloatOps}
use wide_log.Hook.{innermost}
use wide_log.Session.{Run, returned, ◌and_then◌, World, with_current, build, drop_guard, scope}
use wide_log.Session.Program.{
  Macro, log_literal, log_format, Program, done, step, guarded, scoped, perform,
}

-- `__wl_log_hook`
unfoldable pub wl_log_hook : Str → Str → World → Run World
unfolding with_current
wl_log_hook level message = with_current (λ e. some (Event.append_log_entry level message e))

module _ (hook : ℕ) (other : ℕ → Str → Str → World → Run World) where
  -- The call of the function at an address.
  abbrev pub call_hook : Str → Str → World → Option ℕ → Run World
  call_hook level message w none = returned w
  call_hook level message w (some h) =
      if h == hook then wl_log_hook level message w else other h level message w

  -- `append_log_entry` of the registry
  unfoldable pub append_log_entry : Str → Str → World → Run World
  unfolding innermost
  append_log_entry level message w = call_hook level message w (innermost w.hooks)

  -- `append_log_entry_fmt`, with the rendered text; the buffer is free, since the shim does not log.
  unfoldable pub append_log_entry_fmt : Str → Str → World → Run World
  unfolding append_log_entry
  append_log_entry_fmt level text = append_log_entry level text

module _ {K : Type 0} (cx : Context K) (ops : FloatOps) (defaults : List (List K × Value))
    (arms : List (Str × List K)) (hook : ℕ) (other : ℕ → Str → Str → World → Run World) where
  -- A macro, where `info!`, `warn!`, `error!`, `debug!` and `trace!` are the crate root's.
  unfoldable pub perform_root : Macro → World → Run World
  unfolding append_log_entry append_log_entry_fmt with_current perform
  perform_root (log_literal level message) = append_log_entry hook other level message
  perform_root (log_format level text) = append_log_entry_fmt hook other level text
  perform_root m = with_current (perform cx arms m)

  -- A thread that runs the code with those macros.
  unfoldable pub exec_root : Program → World → Run World
  unfolding perform_root build drop_guard scope
  exec_root done w = returned w
  exec_root (step m rest) w = perform_root m w and_then exec_root rest
  exec_root (guarded s body rest) w = build cx ops defaults hook s w and_then λ (g, w₁).
      exec_root body w₁ and_then λ w₂.
      drop_guard cx ops defaults hook s g w₂ and_then exec_root rest
  exec_root (scoped s body rest) w =
      scope cx ops defaults hook s (exec_root body) w and_then exec_root rest
