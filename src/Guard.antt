-- ===== src/Guard.antt =====
-- src/guard.rs: `ScopedGuard`, and `WideLogGuardBuilder::build` of wide-log-macros/src/codegen.rs.
-- The clock is an argument: the nanoseconds elapsed and the time as an RFC 3339 text. What `emit` is
-- called with is the result.
pub mod Drift
pub mod Fields
pub mod Built
use wide_log.Prelude.{
  ℕ, max, Bool, true, false, Option, none, some, List, [], ◌∷◌, Str, chars, str_eq, contains, ◌==◌,
  if◌then◌else◌, ◌>>=◌,
}
use wide_log.Value.{Value, WideEvent, f64, str, object, new}
use wide_log.Event.{Context, slot, store, needs_replace, ensure_capacity, new_child, add, add_path}

-- Hardware floats, by their bit patterns: a number as a float, the quotient, and
-- `Duration::as_secs_f64` of a count of nanoseconds.
pub record FloatOps : Type 0 where
  pub from_nat : ℕ → ℕ
  pub div : ℕ → ℕ → ℕ
  pub as_secs_f64 : ℕ → ℕ

-- `leaf_name.rsplit('_').next()`: what stands behind the last underscore, or all of it.
unfoldable pub last_segment : Str → Str
last_segment [] = []
last_segment (c ∷ s) =
    let deeper = last_segment s in
    if contains b'_' s then deeper else if c == b'_' then s else c ∷ s

unfoldable pub duration_to_unit_f64 : FloatOps → Str → ℕ → ℕ
unfolding last_segment
duration_to_unit_f64 ops leaf_name nanos =
    let suffix = last_segment leaf_name in
    if str_eq suffix (chars "ns")
    then ops.from_nat nanos
    else if str_eq suffix (chars "us")
    then ops.div (ops.from_nat nanos) (ops.from_nat 1000)
    else if str_eq suffix (chars "ms")
    then ops.div (ops.from_nat nanos) (ops.from_nat 1000000)
    else if str_eq suffix (chars "s")
    then ops.as_secs_f64 nanos
    else if str_eq suffix (chars "m")
    then ops.div (ops.as_secs_f64 nanos) (ops.from_nat 60)
    else if str_eq suffix (chars "h")
    then ops.div (ops.as_secs_f64 nanos) (ops.from_nat 3600)
    else ops.div (ops.from_nat nanos) (ops.from_nat 1000000)

-- `path[path.len() - 1]`; an empty path panics.
abbrev pub last_key : {K : Type 0} → List K → Option K
last_key [] = none
last_key (k ∷ []) = some k
last_key (k ∷ j ∷ rest) = last_key (j ∷ rest)

-- `if need_child { values[idx] = Some(new_child()); present_count += 1 }`
abbrev pub put_child : ℕ → Bool → WideEvent → WideEvent
put_child idx need e = if need then store idx (object (new_child e)) true e else e

module _ {K : Type 0} (cx : Context K) where
  -- `if let Some(Some(Value::Object(obj))) = values.get_mut(idx) { obj.add(key, value) }`
  abbrev pub write_leaf : ℕ → Option Value → K → Value → WideEvent → WideEvent
  write_leaf idx (some (object child)) k v e = store idx (object (add cx k v child)) false e
  write_leaf idx _ k v e = e

  -- The fast path of `drop`, for two paths of two segments.
  unfoldable pub drop_fast : K → K → K → K → Value → Value → WideEvent → WideEvent
  drop_fast d₀ d₁ t₀ t₁ duration now e =
      let dur_idx = cx.key.as_index d₀ in
      let ts_idx = cx.key.as_index t₀ in
      let e₁ = ensure_capacity (max dur_idx ts_idx) e in
      let need_dur_child = needs_replace (slot dur_idx e₁) in
      let need_ts_child = needs_replace (slot ts_idx e₁) in
      let e₂ = put_child dur_idx need_dur_child e₁ in
      let e₃ = put_child ts_idx need_ts_child e₂ in
      let e₄ = write_leaf dur_idx (slot dur_idx e₃) d₁ duration e₃ in
      write_leaf ts_idx (slot ts_idx e₄) t₁ now e₄

  -- The test `DURATION_PATH.len() == 2 && TIMESTAMP_PATH.len() == 2`, and its two branches.
  abbrev pub drop_paths : List K → List K → Value → Value → WideEvent → Option WideEvent
  drop_paths (d₀ ∷ d₁ ∷ []) (t₀ ∷ t₁ ∷ []) duration now e =
      some (drop_fast d₀ d₁ t₀ t₁ duration now e)
  drop_paths dur ts duration now e = add_path cx dur duration e >>= add_path cx ts now

  -- `drop`, over the two paths.
  abbrev pub drop_at : FloatOps → List K → List K → ℕ → Str → WideEvent → Option WideEvent
  drop_at ops dur ts nanos now e = last_key dur >>= λ leaf.
      drop_paths dur ts (f64 (duration_to_unit_f64 ops (cx.key.as_str leaf) nanos)) (str now) e

  -- `Drop for ScopedGuard`: the event that `emit` is called with.
  unfoldable pub drop : FloatOps → ℕ → Str → WideEvent → Option WideEvent
  unfolding duration_to_unit_f64 drop_fast
  drop ops = drop_at ops cx.key.duration_path cx.key.timestamp_path

-- The `default_stmts` of the generated code.
unfoldable pub apply_defaults :
    {K : Type 0} → Context K → List (List K × Value) → WideEvent → Option WideEvent
apply_defaults cx [] e = some e
apply_defaults cx ((path, v) ∷ rest) e = add_path cx path v e >>= apply_defaults cx rest

-- `build`: the literal defaults, the preset, then the id.
unfoldable pub build :
    {K : Type 0}
    → Context K
    → List (List K × Value)
    → Option (WideEvent → Option WideEvent)
    → Str
    → Option WideEvent
unfolding apply_defaults
build cx defaults none id = apply_defaults cx defaults new >>= add_path cx cx.key.id_path (str id)
build cx defaults (some preset) id =
    apply_defaults cx defaults new >>= λ e. preset e >>= add_path cx cx.key.id_path (str id)
