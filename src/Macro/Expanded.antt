-- ===== src/Macro/Expanded.antt =====
-- What the macro of wide-log-macros/src/lib.rs makes of any input.
use wide_log.Prelude.{ℕ, ◌≡◌, ◌≤◌, refl, Option, none, some, Str, chars, contains}
use wide_log.Parse.{Tokens, end, Entries, object, weight}
use wide_log.Parse
use wide_log.Parse.Overrides.{KeyOverrides, validate_override_value}
use wide_log.Parse.Overrides.Plain.{IsPlain, validate_override_value-IsPlain}
use wide_log.Parse.Overrides.Valid.{IsValid, IsValidField}
use wide_log.Parse.Tree.{parse_prefix, parse_wide_log_input}
use wide_log.Parse.Grammar.{IsValue}
use wide_log.Parse.Grammar.Complete.{parse_wide_log_input-IsValue}
use wide_log.Parse.Verdicts.{IsVerdict, Decides}
use wide_log.Parse.Unique.{IsUniqueEntries, parse_wide_log_input-IsUnique}
use wide_log.Parse.Total.{parse_wide_log_input-Decides}
use wide_log.Schema.{Builtins, builtins, GenContext, Outcome, unwrap_or}
use wide_log.Schema
use wide_log.Schema.Builtin.{generate}
use wide_log.Schema.Subtrees.{IsUserError, Ends}
use wide_log.Schema.Generate.{IsSchema, generate-Ends}
use wide_log.Schema.Defaults.{AllDeclared}
use wide_log.Schema.Defaults.Declared.{generate-AllDeclared}
use wide_log.Macro.{Expansion, parse_error, schema_error, code, of_outcome, of_parsed, expand}

-- The built-in names are plain.
pub record HasPlainNames (b : Builtins) : Type 0 where
  pub log : IsPlain b.log
  pub level : IsPlain b.level
  pub message : IsPlain b.message
  pub event : IsPlain b.event
  pub event_id : IsPlain b.event_id
  pub event_timestamp : IsPlain b.event_timestamp
  pub duration : IsPlain b.duration
  pub duration_total_ms : IsPlain b.duration_total_ms

unwrap_or-IsPlain :
    (name : Str) (o : Option Str) → IsPlain name → IsValidField o → IsPlain (unwrap_or name o)
unwrap_or-IsPlain name none plain h = plain
unwrap_or-IsPlain name (some override) plain h = h

builtins-HasPlainNames : (ovr : KeyOverrides) → IsValid ovr → HasPlainNames (builtins ovr)
unfolding validate_override_value contains
builtins-HasPlainNames ovr (lk, lv, ms, ek, ei, et, dk, tm) = record {
  log =
      unwrap_or-IsPlain (chars "log") ovr.log.key
        (validate_override_value-IsPlain (chars "log") refl) lk;
  level =
      unwrap_or-IsPlain (chars "level") ovr.log.level
        (validate_override_value-IsPlain (chars "level") refl) lv;
  message =
      unwrap_or-IsPlain (chars "message") ovr.log.message
        (validate_override_value-IsPlain (chars "message") refl) ms;
  event =
      unwrap_or-IsPlain (chars "event") ovr.event.key
        (validate_override_value-IsPlain (chars "event") refl) ek;
  event_id =
      unwrap_or-IsPlain (chars "id") ovr.event.id
        (validate_override_value-IsPlain (chars "id") refl) ei;
  event_timestamp =
      unwrap_or-IsPlain (chars "timestamp") ovr.event.timestamp
        (validate_override_value-IsPlain (chars "timestamp") refl) et;
  duration =
      unwrap_or-IsPlain (chars "duration") ovr.duration.key
        (validate_override_value-IsPlain (chars "duration") refl) dk;
  duration_total_ms =
      unwrap_or-IsPlain (chars "total_ms") ovr.duration.total_ms
        (validate_override_value-IsPlain (chars "total_ms") refl) tm;
}

module _ (upper : ℕ → Str) (f64 : Str → Option ℕ) where
  -- By the grammar, the input is an override list and the object `root`.
  abbrev pub IsRead : Tokens → KeyOverrides → Entries → Type 0
  IsRead input ovr root =
      (rest : Tokens) × (parse_prefix input ≡ Parse.ok (ovr, rest))
      × IsValue f64 rest (object root) end

  -- What the expansion of an input may be.
  abbrev pub IsExpanded : Tokens → Expansion → Type 0
  IsExpanded input (parse_error e) =
      IsVerdict e × ¬ ((ovr : KeyOverrides) × (root : Entries) × IsRead input ovr root)
  IsExpanded input (schema_error e) =
      IsUserError e × ((ovr : KeyOverrides) × (root : Entries) × IsRead input ovr root)
  IsExpanded input (code b c) =
      (ovr : KeyOverrides) × (root : Entries) × IsRead input ovr root
      × (b ≡ builtins ovr)
      × HasPlainNames b
      × (generate upper b root ≡ Schema.ok c)
      × IsSchema upper b c
      × AllDeclared root c

  of_outcome-IsExpanded :
      (input : Tokens) (ovr : KeyOverrides) (root : Entries) (o : Outcome GenContext)
      → IsRead input ovr root
      → generate upper (builtins ovr) root ≡ o
      → HasPlainNames (builtins ovr)
      → IsUniqueEntries root
      → Ends (IsSchema upper (builtins ovr)) o
      → IsExpanded input (of_outcome (builtins ovr) o)
  of_outcome-IsExpanded input ovr root (Schema.ok c) read made plain unique h = (
    ovr,
    root,
    read,
    refl,
    plain,
    made,
    h,
    generate-AllDeclared upper (builtins ovr) root unique c made,
  )
  of_outcome-IsExpanded input ovr root (Schema.err e) read made plain unique h =
      (h, (ovr, root, read))

  of_parsed-IsExpanded :
      (f : ℕ) (input : Tokens) (r : Parse.Result (KeyOverrides × Entries))
      → weight input ≤ f
      → parse_wide_log_input f64 f input ≡ r
      → Decides r
      → IsExpanded input (of_parsed upper f64 r)
  of_parsed-IsExpanded f input (Parse.ok (ovr, root)) enough parsed h =
      let (valid, unique) = parse_wide_log_input-IsUnique f64 f input ovr root parsed in
      of_outcome-IsExpanded input ovr root (generate upper (builtins ovr) root)
        ((parse_wide_log_input-IsValue f64 f input ovr root enough).0 parsed) refl
        (builtins-HasPlainNames ovr valid) unique (generate-Ends upper (builtins ovr) root)
  of_parsed-IsExpanded f input (Parse.err e) enough parsed h = (
    h,
    λ (ovr, root, read).
        let accepted = (parse_wide_log_input-IsValue f64 f input ovr root enough).1 read in cc,
  )

  -- Whatever tokens the macro gets, with fuel for their number, where a group counts for two: it expands to
  -- a parse error, and then the grammar has no reading of the input (and the error is no lack of fuel); or
  -- to one of the three schema errors that are the user's; or to code for the schema and the overrides
  -- that the grammar reads. The code's tables agree (see `generate`), each of its built-in names is not
  -- empty and has no dot, no quote and no backslash, and each of its defaults is the value of a leaf that
  -- the schema declares, at that leaf's own path.
  pub expand-IsExpanded :
      (f : ℕ) (input : Tokens) → weight input ≤ f → IsExpanded input (expand upper f64 f input)
  unfolding expand
  expand-IsExpanded f input enough =
      of_parsed-IsExpanded f input (parse_wide_log_input f64 f input) enough refl
        (parse_wide_log_input-Decides f64 f input enough)
