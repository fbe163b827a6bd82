-- ===== src/Macro.antt =====
-- wide-log-macros/src/lib.rs: the procedural macro `wide_log!`, from the tokens to a compile error or to the
-- tables of which the code is emitted.
pub mod Expanded
use wide_log.Prelude.{ℕ, Option, Str}
use wide_log.Parse.{ParseError, Tokens, Entries}
use wide_log.Parse
use wide_log.Parse.Overrides.{KeyOverrides}
use wide_log.Parse.Tree.{parse_wide_log_input}
use wide_log.Schema.{SchemaError, Builtins, builtins, GenContext, Outcome}
use wide_log.Schema
use wide_log.Schema.Builtin.{generate}

-- A `compile_error!` with the parser's or the generator's message, or the context of the code.
pub data Expansion : Type 0 where
  parse_error : ParseError → Expansion
  schema_error : SchemaError → Expansion
  code : Builtins → GenContext → Expansion

abbrev pub of_outcome : Builtins → Outcome GenContext → Expansion
of_outcome b (Schema.ok c) = code b c
of_outcome b (Schema.err e) = schema_error e

module _ (upper : ℕ → Str) (parse_f64 : Str → Option ℕ) where
  abbrev pub of_parsed : Parse.Result (KeyOverrides × Entries) → Expansion
  of_parsed (Parse.ok (ovr, node)) = of_outcome (builtins ovr) (generate upper (builtins ovr) node)
  of_parsed (Parse.err e) = parse_error e

  -- The macro, with fuel for the parser.
  unfoldable pub expand : ℕ → Tokens → Expansion
  unfolding parse_wide_log_input generate
  expand f input = of_parsed (parse_wide_log_input parse_f64 f input)
