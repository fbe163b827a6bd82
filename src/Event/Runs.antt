-- ===== src/Event/Runs.antt =====
-- What any run of the public methods of src/wide_event.rs does to an event.
use wide_log.Prelude.{◌≡◌, refl, Option, some, List, [], ◌∷◌, ◌++◌, Str, All, >>=-eq-some, subst}
use wide_log.Word.{release}
use wide_log.Value.{
  Value, WideEvent, static, owned, event, values, log_entries, LogMsg, present_count,
  on_type_conflict,
}
use wide_log.Event
use wide_log.Event.{
  Context, inc_value, dec_value, add_n_value, append_log_entry, append_log_entry_static,
}
use wide_log.Event.Run.{Op, apply, run}
use wide_log.Event.Counted.{IsCounted, IsCountedValue, KeepsCount, Keeps}
use wide_log.Event.Counted.Methods.{
  at_path-Keeps, add_path-Keeps, inc-Keeps, dec-Keeps, add_n-Keeps,
}
use wide_log.Event.Lookup.{Observes, PathUpdate}
use wide_log.Event.Lookup.Paths.{
  add_path-PathUpdate, inc_path-PathUpdate, dec_path-PathUpdate, add_n_path-PathUpdate,
}

-- A value that is set brings no object with a wrong cache; every `From` impl gives such a value.
abbrev pub IsCountedOp : {K : Type 0} → Op K → Type 0
IsCountedOp (Op.add_path path v) = IsCountedValue v
IsCountedOp _ = Unit

-- The path has a segment, as the methods demand.
abbrev pub IsPath : {K : Type 0} → List K → Type 0
IsPath [] = ⊥
IsPath (k ∷ rest) = Unit

abbrev pub HasPath : {K : Type 0} → Op K → Type 0
HasPath (Op.add_path path v) = IsPath path
HasPath (Op.inc_path path) = IsPath path
HasPath (Op.dec_path path) = IsPath path
HasPath (Op.add_n_path path n) = IsPath path
HasPath _ = Unit

log-IsCounted :
    (level message : Str) (e : WideEvent)
    → IsCounted e
    → IsCounted (append_log_entry level message e)
      × IsCounted (append_log_entry_static level message e)
unfolding append_log_entry append_log_entry_static
log-IsCounted level message (event s l c n) h = (h, h)

module _ {K : Type 0} (cx : Context K) (ok : KeepsCount cx) where
  apply-Keeps : (op : Op K) → IsCountedOp op → Keeps cx (apply cx op)
  unfolding apply Event.inc_path Event.dec_path Event.add_n_path
  apply-Keeps (Op.add_path path v) hv = add_path-Keeps cx ok path v hv
  apply-Keeps (Op.inc_path path) hv = at_path-Keeps cx ok path (Event.inc cx) (inc-Keeps cx ok)
  apply-Keeps (Op.dec_path path) hv = at_path-Keeps cx ok path (Event.dec cx) (dec-Keeps cx ok)
  apply-Keeps (Op.add_n_path path n) hv =
      at_path-Keeps cx ok path (λ k. Event.add_n cx k n) (λ k. add_n-Keeps cx ok k n)
  apply-Keeps (Op.append_log_entry level message) hv =
      λ e e' h eq. subst IsCounted (cc eq) (log-IsCounted level message e h).0
  apply-Keeps (Op.append_log_entry_static level message) hv =
      λ e e' h eq. subst IsCounted (cc eq) (log-IsCounted level message e h).1

  -- Whatever methods run on an event with exact caches, if none of them panics the caches are exact
  -- at the end: every cached count, at every depth, is the number of slots that hold a value. The
  -- values set may themselves be such objects, and a callback may do what keeps the caches exact and
  -- removes no value.
  pub run-IsCounted :
      (ops : List (Op K)) (e e' : WideEvent)
      → All IsCountedOp ops
      → IsCounted e
      → run cx ops e ≡ some e'
      → IsCounted e'
  unfolding run
  run-IsCounted [] e e' hv h eq = subst IsCounted (cc eq) h
  run-IsCounted (op ∷ ops) e e' hv h eq =
      let (e₁, first, others) = >>=-eq-some (apply cx op e) (run cx ops) eq in
      run-IsCounted ops e₁ e' hv.1 (apply-Keeps op hv.0 e e₁ h first) others

module _ {K : Type 0} (cx : Context K) (ok : KeepsCount cx) (wraps : cx.profile ≡ release) where
  -- A computed content of a slot that is always there.
  abbrev IsTotal : (Option Value → Option Value) → Type 0
  IsTotal value = (o : Option Value) → (v : Value) × (value o ≡ some v)

module _ {K : Type 0} (cx : Context K) (obs : Observes cx) where
  -- A log entry is added at the end, and nothing else changes.
  abbrev pub Logged : Str → LogMsg → WideEvent → WideEvent → Type 0
  Logged level message e e' =
      (log_entries e' ≡ log_entries e ++ record { level = level; message = message } ∷ [])
      × (values e' ≡ values e)
      × (present_count e' ≡ present_count e)
      × (on_type_conflict e' ≡ on_type_conflict e)

  -- What each method promises, by the path map of an event.
  abbrev pub Promise : Op K → WideEvent → WideEvent → Type 0
  Promise (Op.add_path path v) e e' = PathUpdate cx (λ o. some v) path e e'
  Promise (Op.inc_path path) e e' = PathUpdate cx (inc_value cx) path e e'
  Promise (Op.dec_path path) e e' = PathUpdate cx (dec_value cx) path e e'
  Promise (Op.add_n_path path n) e e' = PathUpdate cx (add_n_value cx n) path e e'
  Promise (Op.append_log_entry level message) e e' = Logged level (owned message) e e'
  Promise (Op.append_log_entry_static level message) e e' = Logged level (static message) e e'

  log-Logged :
      (level message : Str) (e : WideEvent)
      → Logged level (owned message) e (append_log_entry level message e)
        × Logged level (static message) e (append_log_entry_static level message e)
  unfolding append_log_entry append_log_entry_static
  log-Logged level message (event s l c n) = ((refl, refl, refl, refl), (refl, refl, refl, refl))

  -- Where a method returns, the event maps the method's path to the value that the method computes
  -- from the value that was at that path, and every path apart from it to the value it had; a log
  -- method adds its entry at the end and changes no value. The callbacks must leave the event alone.
  pub apply-Promise : (op : Op K) (e e' : WideEvent) → apply cx op e ≡ some e' → Promise op e e'
  unfolding apply
  apply-Promise (Op.add_path (k ∷ rest) v) e e' eq = add_path-PathUpdate cx obs k rest v e e' eq
  apply-Promise (Op.inc_path (k ∷ rest)) e e' eq = inc_path-PathUpdate cx obs k rest e e' eq
  apply-Promise (Op.dec_path (k ∷ rest)) e e' eq = dec_path-PathUpdate cx obs k rest e e' eq
  apply-Promise (Op.add_n_path (k ∷ rest) n) e e' eq = add_n_path-PathUpdate cx obs k rest n e e' eq
  apply-Promise (Op.append_log_entry level message) e e' eq =
      subst (λ o. Logged level (owned message) e o) {x = append_log_entry level message e} {y = e'}
        (cc eq) (log-Logged level message e).0
  apply-Promise (Op.append_log_entry_static level message) e e' eq =
      subst (λ o. Logged level (static message) e o) {x = append_log_entry_static level message e}
        {y = e'} (cc eq) (log-Logged level message e).1
  apply-Promise (Op.add_path [] v) e e' eq = unfold Event.add_path in cc eq
  apply-Promise (Op.inc_path []) e e' eq = unfold Event.inc_path in cc eq
  apply-Promise (Op.dec_path []) e e' eq = unfold Event.dec_path in cc eq
  apply-Promise (Op.add_n_path [] n) e e' eq = unfold Event.add_n_path in cc eq
