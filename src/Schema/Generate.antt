-- ===== src/Schema/Generate.antt =====
-- `generate` of wide-log-macros/src/codegen.rs, up to the emission of code: what it accepts has good
-- tables and the guard's three paths.
use wide_log.Prelude.{ℕ, ◌≡◌, subst, false, [], Str}
use wide_log.Parse.{Entries}
use wide_log.Schema.{Builtins, GenContext, Outcome, ok, err, ◌and_then◌, new, walk_entries}
use wide_log.Schema.Builtin.{
  has_default, is_empty, timestamp_path, id_path, auto_add_duration, auto_add_event, validate,
  generate,
}
use wide_log.Schema.Index.{empty-IsIndexed}
use wide_log.Schema.Tables.{Grows, IsGood}
use wide_log.Schema.Walk.{walk_entries-Leads}
use wide_log.Schema.Subtrees.{Ends, Ends-if, auto_add_duration-Ends, Marks}
use wide_log.Schema.EventSubtree.{HasEvent, from_root, auto_add_event-Ends}

module _ (upper : ℕ → Str) (b : Builtins) where
  -- What `generate` promises of a context that it accepts.
  pub record IsSchema (c : GenContext) : Type 0 where
    pub good : IsGood upper c
    pub duration : is_empty c.duration_segments ≡ false
    pub timestamp : c.timestamp_segments ≡ timestamp_path upper b
    pub id : c.id_segments ≡ id_path upper b
    pub no_id_default : has_default (id_path upper b) c.defaults ≡ false

  abbrev Grown : GenContext → GenContext → Type 0
  Grown start c = IsSchema c × Grows start c

  validate-Ends :
      (start c : GenContext) → HasEvent upper b start c → Ends (Grown start) (validate upper b c)
  unfolding validate
  validate-Ends start c h =
      let filled = h.good.marked h.marked in
      let stamped : is_empty c.timestamp_segments ≡ false = rw h.timestamp in
      let named : is_empty c.id_segments ≡ false = rw h.id in
      simp (h.marked, filled, stamped, named)
        (Ends-if (Grown start) (has_default c.id_segments c.defaults) _ _ (λ clash. tt)
          (λ fine. (
            record {
              good = h.good;
              duration = filled;
              timestamp = h.timestamp;
              id = h.id;
              no_id_default = subst (λ p. has_default p c.defaults ≡ false) h.id fine;
            },
            h.grown,
          )))

  pub new-IsGood : IsGood upper new
  new-IsGood = record {
    keys = empty-IsIndexed (λ e. e.json_name);
    variants = tt;
    paths = empty-IsIndexed (λ p. p.dotted);
    path_keys = tt;
    defaults = tt;
    duration = tt;
    timestamp = tt;
    id = tt;
    marked = λ h. cc;
  }

  Ends-and_then :
      (P Q : GenContext → Type 0) (o : Outcome GenContext) (f : GenContext → Outcome GenContext)
      → Ends P o
      → ((c : GenContext) → P c → Ends Q (f c))
      → Ends Q (o and_then f)
  Ends-and_then P Q (ok c) f h next = next c h
  Ends-and_then P Q (err e) f h next = h

  generate-Grown :
      (entries : Entries)
      → Ends (Grown (walk_entries upper entries [] new)) (generate upper b entries)
  unfolding generate
  generate-Grown entries =
      let c = walk_entries upper entries [] new in
      let s = walk_entries-Leads upper entries [] new new-IsGood tt in
      Ends-and_then (Marks upper b c) (Grown c) (auto_add_duration upper b entries c) _
        (auto_add_duration-Ends upper b entries c s.0)
        (λ c₁ (s₁, marked).
          Ends-and_then (HasEvent upper b c₁) (Grown c) (auto_add_event upper b entries c₁) _
            (auto_add_event-Ends upper b entries c₁ s₁.0 marked)
            (λ c₂ h. validate-Ends c c₂ (from_root upper b c c₁ (s₁.1.keys, s₁.1.paths) h)))

  weaken : (start : GenContext) (o : Outcome GenContext) → Ends (Grown start) o → Ends IsSchema o
  weaken start (ok c) h = h.0
  weaken start (err e) h = h

  -- For every schema: `generate` either accepts it, or refuses it for one of the three faults that a schema
  -- can have (several leaves that could be the duration, an `event` that is no object, a default for
  -- `event.id`); the four internal errors of `validate` do not occur. What it accepts has tables that
  -- agree (each index is the inverse of its vector, each variant is the Pascal case of its key, each path,
  -- default and built-in path consists of keys and is in the table of paths), a duration path that is not
  -- empty, `event.timestamp` and `event.id` as the other two paths, and no default for the id.
  pub generate-Ends : (entries : Entries) → Ends IsSchema (generate upper b entries)
  generate-Ends entries =
      weaken (walk_entries upper entries [] new) (generate upper b entries) (generate-Grown entries)

  -- What the walk of the whole schema put into the tables is still there.
  pub generate-Grows :
      (entries : Entries) (c : GenContext)
      → generate upper b entries ≡ ok c
      → Grows (walk_entries upper entries [] new) c
  generate-Grows entries c made =
      (subst (Ends (Grown (walk_entries upper entries [] new))) made (generate-Grown entries)).1

  pub walked-IsGood : (entries : Entries) → IsGood upper (walk_entries upper entries [] new)
  walked-IsGood entries = (walk_entries-Leads upper entries [] new new-IsGood tt).0
