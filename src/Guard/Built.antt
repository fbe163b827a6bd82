-- ===== src/Guard/Built.antt =====
-- The event that `WideLogGuardBuilder::build` (and a scope) of wide-log-macros/src/codegen.rs starts with.
use wide_log.Prelude.{
  ◌≡◌, refl, sym, ◌∙◌, Option, none, some, List, [], ◌∷◌, ◌⊎◌, inl, inr, Str, All, subst,
}
use wide_log.Value.{Value, WideEvent, str, new}
use wide_log.Event.{Context, add_path}
use wide_log.Event.Total.{add_path-Returns}
use wide_log.Event.Lookup.{Observes, Observes-KeepsCount, lookup, Apart, PathUpdate, follow-none}
use wide_log.Event.Lookup.Paths.{add_path-PathUpdate}
use wide_log.Guard.{apply_defaults, build}

abbrev pub HasSegment : {K : Type 0} → List K → Type 0
HasSegment [] = ⊥
HasSegment (k ∷ p) = Unit

-- What a preset that returns makes of the event; without a preset, nothing.
abbrev pub after_preset : Option (WideEvent → WideEvent) → WideEvent → WideEvent
after_preset none e = e
after_preset (some preset) e = preset e

-- That preset as the code sees it.
abbrev pub returning : Option (WideEvent → WideEvent) → Option (WideEvent → Option WideEvent)
returning none = none
returning (some preset) = some (λ e. some (preset e))

module _ {K : Type 0} (cx : Context K) where
  -- A later default leaves this one alone: their paths part, or it is the same one again.
  abbrev pub Leaves : List K × Value → List K × Value → Type 0
  Leaves d later = Apart cx later.0 d.0 ⊎ (d ≡ later)

  abbrev pub IsSpread : List (List K × Value) → Type 0
  IsSpread [] = Unit
  IsSpread (d ∷ rest) = All (Leaves d) rest × IsSpread rest

  -- The event has the defaults, and nothing elsewhere.
  pub record Defaulted (defaults : List (List K × Value)) (e : WideEvent) : Type 0 where
    pub present : All (λ d. lookup cx d.0 e ≡ some d.1) defaults
    pub nothing_else : (r : List K) → All (λ d. Apart cx d.0 r) defaults → lookup cx r e ≡ none

module _ {K : Type 0} (cx : Context K) (obs : Observes cx) where
  add_path-Sets :
      (p : List K) (v : Value) (e : WideEvent)
      → HasSegment p
      → (e' : WideEvent) × (add_path cx p v e ≡ some e') × PathUpdate cx (λ o. some v) p e e'
  add_path-Sets [] v e h = absurd h
  add_path-Sets (k ∷ p) v e h =
      let (e', ran) = add_path-Returns cx (Observes-KeepsCount cx obs) k p v e in
      (e', ran, add_path-PathUpdate cx obs k p v e e' ran)

  written_value :
      (p : List K) (v : Value) (e e' : WideEvent)
      → PathUpdate cx (λ o. some v) p e e'
      → lookup cx p e' ≡ some v
  written_value p v e e' u = let (w, is, at) = u.written in at ∙ sym is

  -- From `e` to `e'` the defaults are set; `d` stays if they leave it alone, and so does every path apart
  -- from them.
  record Sets (defaults : List (List K × Value)) (e e' : WideEvent) : Type 0 where
    present : All (λ d. lookup cx d.0 e' ≡ some d.1) defaults
    kept :
        (d : List K × Value)
        → All (Leaves cx d) defaults
        → lookup cx d.0 e ≡ some d.1
        → lookup cx d.0 e' ≡ some d.1
    others : (r : List K) → All (λ d. Apart cx d.0 r) defaults → lookup cx r e' ≡ lookup cx r e

  Sets-cons :
      (d : List K × Value) (rest : List (List K × Value)) (e e₁ e' : WideEvent)
      → PathUpdate cx (λ o. some d.1) d.0 e e₁
      → Sets rest e₁ e'
      → All (Leaves cx d) rest
      → Sets (d ∷ rest) e e'
  Sets-cons d rest e e₁ e' u s leaves = record {
    present = (s.kept d leaves (written_value d.0 d.1 e e₁ u), s.present);
    kept = λ c all at. s.kept c all.1 (one c all.0 at);
    others = λ r all. s.others r all.1 ∙ u.untouched r all.0;
  }
    where
      one :
          (c : List K × Value)
          → Leaves cx c d
          → lookup cx c.0 e ≡ some c.1
          → lookup cx c.0 e₁ ≡ some c.1
      one c (inl apart) at = u.untouched c.0 apart ∙ at
      one c (inr same) at =
          subst (λ x. lookup cx x.0 e₁ ≡ some x.1) (sym same) (written_value d.0 d.1 e e₁ u)

  apply_defaults-Sets :
      (defaults : List (List K × Value)) (e : WideEvent)
      → All (λ d. HasSegment d.0) defaults
      → IsSpread cx defaults
      → (e' : WideEvent) × (apply_defaults cx defaults e ≡ some e') × Sets defaults e e'
  unfolding apply_defaults
  apply_defaults-Sets [] e h spread =
      (e, refl, record { present = tt; kept = λ d all at. at; others = λ r all. refl })
  apply_defaults-Sets (d ∷ rest) e h spread =
      let (e₁, ran, u) = add_path-Sets d.0 d.1 e h.0 in
      let (e', more, s) = apply_defaults-Sets rest e₁ h.1 spread.1 in
      (e', rw ran more, Sets-cons d rest e e₁ e' u s spread.0)

  lookup-new : (r : List K) → lookup cx r new ≡ none
  unfolding lookup
  lookup-new [] = refl
  lookup-new (k ∷ q) = follow-none cx q

  started :
      (defaults : List (List K × Value)) (start : WideEvent)
      → Sets defaults new start
      → Defaulted cx defaults start
  started defaults start s = record {
    present = s.present;
    nothing_else = λ r all. s.others r all ∙ lookup-new r;
  }

  -- The event that a guard or scope starts with, where the preset, if there is one, returns: first every
  -- default is at its path and nothing is elsewhere; the preset gets that event; then the id is at the id's
  -- path, and every path apart from it has what the preset left there. So no default panics or undoes
  -- another one, and no preset can change the id. The paths have a segment, and of two defaults the later
  -- one is for a path apart from the earlier one's, or is the same again. The callbacks must leave the
  -- event alone.
  pub build-Defaulted :
      (defaults : List (List K × Value)) (preset : Option (WideEvent → WideEvent)) (id : Str)
      → All (λ d. HasSegment d.0) defaults
      → IsSpread cx defaults
      → HasSegment cx.key.id_path
      → (start e : WideEvent) × (build cx defaults (returning preset) id ≡ some e)
        × Defaulted cx defaults start
        × PathUpdate cx (λ o. some (str id)) cx.key.id_path (after_preset preset start) e
  unfolding build
  build-Defaulted defaults none id paths spread named =
      let (start, ran, s) = apply_defaults-Sets defaults new paths spread in
      let (e, set, u) = add_path-Sets cx.key.id_path (str id) start named in
      (start, e, rw ran set, started defaults start s, u)
  build-Defaulted defaults (some preset) id paths spread named =
      let (start, ran, s) = apply_defaults-Sets defaults new paths spread in
      let (e, set, u) = add_path-Sets cx.key.id_path (str id) (preset start) named in
      (start, e, rw ran set, started defaults start s, u)
