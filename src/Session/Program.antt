-- ===== src/Session/Program.antt =====
-- The macros that wide-log-macros/src/codegen.rs generates, and code that uses them within guards and
-- scopes.
pub mod Lexical
use wide_log.Prelude.{ℕ, Option, none, some, List, [], Str, ◌>>=◌}
use wide_log.Prelude.Int.{ℤ}
use wide_log.Word.{Profile, debug, release}
use wide_log.Value.{Value, WideEvent, null}
use wide_log.Event.{Context}
use wide_log.Event.Run.{Op, apply}
use wide_log.Guard.{FloatOps}
use wide_log.Schema.Emit.{resolve_path}
use wide_log.Session.{
  Run, returned, panicked, undefined, ◌and_then◌, or_panic, World, with_current, Settings, build,
  drop_guard, scope,
}

-- The arguments of `wl_set!`, `wl_inc!`, `wl_dec!`, `wl_add!`, `wl_null!`; a level macro with a literal,
-- and one with a formatted message.
pub data Macro : Type 0 where
  wl_set : Str → Value → Macro
  wl_inc : Str → Macro
  wl_dec : Str → Macro
  wl_add : Str → ℤ → Macro
  wl_null : Str → Macro
  log_literal : Str → Str → Macro
  log_format : Str → Str → Macro

-- The code of a thread: macros, guards that live for a block, and scopes around a future.
pub data Program : Type 0 where
  done : Program
  step : Macro → Program → Program
  guarded : Settings → Program → Program → Program
  scoped : Settings → Program → Program → Program

module _ {K : Type 0} (cx : Context K) (arms : List (Str × List K)) where
  -- The arm `_` of `__wl_resolve_path`.
  abbrev pub or_unknown : Profile → Option (List K) → Option (List K)
  or_unknown p (some path) = some path
  or_unknown debug none = none
  or_unknown release none = some []

  abbrev pub resolved : Str → Option (List K)
  resolved path = or_unknown cx.profile (resolve_path arms path)

  -- The method that a macro calls, and with which path.
  abbrev pub op_of : Macro → Option (Op K)
  op_of (wl_set path v) = resolved path >>= λ p. some (Op.add_path p v)
  op_of (wl_inc path) = resolved path >>= λ p. some (Op.inc_path p)
  op_of (wl_dec path) = resolved path >>= λ p. some (Op.dec_path p)
  op_of (wl_add path n) = resolved path >>= λ p. some (Op.add_n_path p n)
  op_of (wl_null path) = resolved path >>= λ p. some (Op.add_path p null)
  op_of (log_literal level message) = some (Op.append_log_entry_static level message)
  op_of (log_format level message) = some (Op.append_log_entry level message)

  -- The block under `if let Some(ev) = current()`; it may panic.
  unfoldable pub perform : Macro → WideEvent → Option WideEvent
  unfolding apply resolve_path
  perform m e = op_of m >>= λ op. apply cx op e

module _ {K : Type 0} (cx : Context K) (ops : FloatOps) (defaults : List (List K × Value))
    (arms : List (Str × List K)) (hook : ℕ) where
  -- A thread that runs the code.
  unfoldable pub exec : Program → World → Run World
  unfolding with_current perform build drop_guard scope
  exec done w = returned w
  exec (step m rest) w = with_current (perform cx arms m) w and_then exec rest
  exec (guarded s body rest) w = build cx ops defaults hook s w and_then λ (g, w₁).
      exec body w₁ and_then λ w₂. drop_guard cx ops defaults hook s g w₂ and_then exec rest
  exec (scoped s body rest) w = scope cx ops defaults hook s (exec body) w and_then exec rest
