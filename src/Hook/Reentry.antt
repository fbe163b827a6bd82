-- ===== src/Hook/Reentry.antt =====
-- src/hook_registry.rs: `append_log_entry` and `append_log_entry_fmt` with hooks that log themselves. A
-- call of a hook makes the entries that `reacts` says; the calls in each other are bounded by fuel, where
-- running out is the overflow of the stack.
use wide_log.Prelude.{
  ℕ, zero, suc, ◌≡◌, refl, ◌∙◌, ap, Bool, true, false, Option, none, some, List, [], ◌∷◌, ◌++◌, map,
  Str, All, if◌then◌else◌, ◌>>=◌,
}
use wide_log.Hook.{Stacks, innermost}
use wide_log.Hook.Nesting.{Call}

-- An entry that a hook makes: of a literal, or with format arguments, which come as their text.
pub data Entry : Type 0 where
  literal : Str → Str → Entry
  format : Str → Str → Entry

-- The entries are made with format arguments.
pub data IsFormat : Entry → Type 0 where
  is_format : {level text : Str} → IsFormat (format level text)

abbrev pub call_of_entry : ℕ → Entry → Call
call_of_entry hook (literal level message) = (hook, (level, message))
call_of_entry hook (format level text) = (hook, (level, text))

module _ (reacts : ℕ → Str → Str → List Entry) (s : Stacks) where
  -- The entries that the body of a hook makes, one after another, where `append` is `append_log_entry`
  -- with the buffer borrowed or not. `append_log_entry_fmt` skips an entry when it is borrowed, and borrows
  -- it for the call.
  abbrev pub append_all :
      (Bool → Str → Str → Option (List Call)) → Bool → List Entry → Option (List Call)
  append_all append borrowed [] = some []
  append_all append borrowed (literal level message ∷ es) =
      append borrowed level message >>= λ calls.
      append_all append borrowed es >>= λ more. some (calls ++ more)
  append_all append true (format level text ∷ es) = append_all append true es
  append_all append false (format level text ∷ es) = append true level text >>= λ calls.
      append_all append false es >>= λ more. some (calls ++ more)

  -- The call of a hook.
  abbrev pub call_hook :
      (Bool → Str → Str → Option (List Call)) → Bool → Str → Str → Option ℕ → Option (List Call)
  call_hook append borrowed level message none = some []
  call_hook append borrowed level message (some hook) =
      append_all append borrowed (reacts hook level message) >>= λ calls.
      some ((hook, (level, message)) ∷ calls)

  unfoldable pub append_log_entry : ℕ → Bool → Str → Str → Option (List Call)
  unfolding innermost
  append_log_entry zero borrowed level message = none
  append_log_entry (suc n) borrowed level message =
      call_hook (append_log_entry n) borrowed level message (innermost s)

  -- The buffer's `try_borrow_mut` fails when it is borrowed.
  unfoldable pub append_log_entry_fmt : ℕ → Bool → Str → Str → Option (List Call)
  unfolding append_log_entry
  append_log_entry_fmt n borrowed level text =
      if borrowed then some [] else append_log_entry n true level text

  skipped :
      (append : Bool → Str → Str → Option (List Call)) (es : List Entry)
      → All IsFormat es
      → append_all append true es ≡ some []
  skipped append [] h = refl
  skipped append (literal level message ∷ es) h = elim h.0 [ ]
  skipped append (format level text ∷ es) h = skipped append es h.1

  each_once :
      (hook : ℕ) (append : Bool → Str → Str → Option (List Call)) (es : List Entry)
      → All IsFormat es
      → ((level text : Str) → append true level text ≡ some ((hook, (level, text)) ∷ []))
      → append_all append false es ≡ some (map (call_of_entry hook) es)
  each_once hook append [] h once = refl
  each_once hook append (literal level message ∷ es) h once = elim h.0 [ ]
  each_once hook append (format level text ∷ es) h once =
      rw (once level text) (rw (each_once hook append es h.1 once) refl)

  module _ (hook : ℕ) (installed : innermost s ≡ some hook)
      (formats : (level text : Str) → All IsFormat (reacts hook level text)) where
    borrowed_once :
        (n : ℕ) (level text : Str)
        → append_log_entry (suc n) true level text ≡ some ((hook, (level, text)) ∷ [])
    unfolding append_log_entry
    borrowed_once n level text =
        rw installed
          (rw (skipped (append_log_entry n) (reacts hook level text) (formats level text)) refl)

    -- When the innermost hook itself logs, with format arguments only: an entry with format arguments calls
    -- it exactly once, since the entries that it makes meanwhile are skipped; an entry of a literal calls it
    -- once, and once more for each entry that it makes in that call, and then no further. One call deep and
    -- two calls deep are enough for that.
    pub reentrant-calls :
        (n : ℕ) (level text : Str)
        → (append_log_entry_fmt (suc n) false level text ≡ some ((hook, (level, text)) ∷ []))
          × (append_log_entry (suc (suc n)) false level text
              ≡ some ((hook, (level, text)) ∷ map (call_of_entry hook) (reacts hook level text)))
    unfolding append_log_entry_fmt append_log_entry
    reentrant-calls n level text = (
      borrowed_once n level text,
      ap (call_hook (append_log_entry (suc n)) false level text) installed
          ∙ ap (λ r. r >>= λ calls. some ((hook, (level, text)) ∷ calls))
              (each_once hook (append_log_entry (suc n)) (reacts hook level text)
                (formats level text) (borrowed_once n)),
    )
