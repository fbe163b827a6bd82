-- ===== src/Lib.antt =====
-- wide-log: one wide event per unit of work, written as one JSON line.
--
-- The parts and how they interact. A guard (src/guard.rs) owns a `WideEvent` (src/wide_event.rs),
-- whose slots are indexed by an enumeration of keys (src/key.rs) that the macro generates. Code under
-- the guard sets values and counters at paths and appends log entries, directly or through the
-- innermost hook (src/hook_registry.rs). When the guard is dropped it sets the duration and the time
-- and hands the event to the emit function, which serializes it and, by default, submits the line to
-- the channel of a writer thread (src/stdout_emit.rs).
-- The macro `wide_log!` reads a schema (wide-log-macros/src/parse.rs) and generates from it the keys, the
-- table of dotted paths, the guard that keeps the current event in a pointer cell (src/context.rs), the
-- macros that reach the event through it, and the layers for requests and for `tracing` records
-- (wide-log-macros/src/codegen.rs).
--
-- The files.
--   Prelude: shared names, Boolean tests, lists and characters over the native numbers.
--   Word: `u64` and `i64` arithmetic; a debug build panics on overflow, a release build wraps.
--   Key: the trait `Key` as a record.
--   Value: the types of src/value.rs, src/log.rs and `WideEvent`; Value/SlotVec the vector of slots,
--     with `resize` and `set` as `ensure_capacity` and the indexed writes use them.
--   Event: the methods of `WideEvent` under their own names. A `&mut self` method returns the new
--     event and `none` is a panic. `with_object` is `object` with the code that uses the returned
--     reference, `object_slot` what `object` does to the slot. Event/Run has the public methods as
--     data, and the other files the proofs: Counted the cached count, Total that nothing panics,
--     Lookup the map from paths to values, Runs what any run of methods does.
--   Json: `write_event`, `write_value` and `write_json_str` as functions to text. Json/Tree has the
--     calls that the `Serialize` impls make, Json/Reader a JSON reader made for the proofs, Json/Utf8
--     the bytes, Json/Meaning the value that the calls stand for.
--   Guard: `Drop for ScopedGuard` and the event that the `build` of the generated builder
--     (wide-log-macros/src/codegen.rs) makes; Guard/Built what that event starts with.
--   Stdout: the settings, the channel and the functions that producers call; Stdout/Writer the loop
--     of the writer thread, one round for each answer of `recv_timeout`; Stdout/System both together,
--     one action at a time, in any interleaving. The proofs: Batch, Delivery, Flushed.
--   Hook: the stacks of hooks; Hook/Nesting code with guards and task scopes;
--     Hook/Reentry hooks that log themselves.
--   Parse: the tokens and the tree of wide-log-macros/src/parse.rs, whose functions keep their names:
--     Parse/Text the string escapes, Parse/Literals the numbers, Parse/Overrides the override list,
--     Parse/Overrides/Plain its names, Parse/Overrides/Meaning what such a list means;
--     Parse/Tree values, objects and the whole input; Parse/Grammar the syntax as a grammar.
--   Schema: `GenContext` of wide-log-macros/src/codegen.rs and its methods under their own names, for the
--     root object's entries; Schema/Keywords `is_rust_keyword`, Schema/Builtin the subtrees `duration` and
--     `event`, `validate` and `generate`; Schema/Emit the enumeration, `impl Key`, the default statements
--     and `__wl_resolve_path`, with rustc's resolution of the identifiers. The proofs: Index, Tables and
--     Walk the tables, Subtrees, EventSubtree and Generate what is accepted, Declared the nodes of the tree,
--     Emit/Resolve, Emit/Generated, Emit/Exact, Emit/Names, Emit/Variants and Emit/Dropped the generated
--     code, Defaults what becomes of the schema's defaults, Defaults/Written their JSON values.
--   Macro: `wide_log` of wide-log-macros/src/lib.rs (`expand`), the parser and the generator together.
--   Session: src/context.rs and the generated `WideLogGuard`, `current` and `scope`
--     (wide-log-macros/src/codegen.rs), on addresses, with a dangling pointer as a result of its own;
--     Session/Program the generated macros and code that uses them, Session/Program/Lexical what such code
--     means without pointers. The proofs: Represents and Refines that both agree, Unnested what guards
--     that are not nested do. Session/Middleware has the layer for requests, Session/Builder the guard's
--     builder, Session/Root the level macros of src/lib.rs, which go through the hooks.
--   Capture: `WideLogCaptureLayer` (wide-log-macros/src/codegen.rs); Capture/Text the text of an entry,
--     Capture/Emitted the `default_emit` of the feature `tracing`.
--   Tests: a small schema and the theorems at concrete inputs.
--
-- Bounds and fuel. The JSON reader runs on fuel, which bounds the depth and length of what it
-- reads; `weight_event` of an event is enough. So do the macro's `parse_value` and its loops over
-- overrides and fields, where running out is an error of its own; the number of tokens, with two
-- for a group, is enough. Calls of hooks in each other run on fuel, where running out is a stack
-- overflow; two calls are enough for hooks that log with format arguments only. Everything else is
-- structural recursion. The writer's loop runs over the list of what its channel answers.
--
-- Parameters. The texts of itoa and ryu (`NumberFormat`), float arithmetic (`FloatOps`), the
-- reading of a float's text by the macro, the clock's readings, the ids of the crates ulid and
-- uuid, time zones, the code of callbacks (`Context.call`), the hooks of other schemas,
-- `String::from_utf8`, `char::to_uppercase` (`upper`) and `char::is_whitespace` (`is_space`) are
-- arguments. A string is the list of its characters, a float its 64 bits, a function pointer its
-- address.
--
-- Not modelled: the texts of the parser's messages, the Rust text around what Schema/Emit has,
-- `RestoreOnDrop` (the generated code does not use it), unwinding, futures that are cancelled, emit
-- closures that log themselves, I/O errors of the writer but for a failed `write_all`, a writer thread
-- that cannot be started (the code drops that error), a format argument that logs by itself (its text is
-- given, and the borrow of the generated buffer, which would panic then, does not fail), and
-- allocation: a box gets an address that was not used before. A future in a scope is run to its end,
-- since the task-local cells are its own while it is polled. A `usize` count of bytes or lines
-- is a natural number. A variant's name that is no identifier stops the build before rustc sees the
-- enumeration.
pub mod Prelude
pub mod Word
pub mod Key
pub mod Value
pub mod Event
pub mod Json
pub mod Guard
pub mod Stdout
pub mod Hook
pub mod Tests
pub mod Parse
pub mod Schema
pub mod Session
pub mod Capture
pub mod Macro
