-- ===== src/Hook/Nesting.antt =====
-- src/hook_registry.rs: what well-nested guards and task scopes do to the hooks and to the entries.
use wide_log.Prelude.{
  ℕ, ◌≡◌, refl, ◌∙◌, ap, true, Option, none, some, List, [], ◌∷◌, ◌++◌, length, ◌==◌, ◌>>=◌, arith,
}
use wide_log.Word.{Profile}
use wide_log.Hook.{
  Stacks, rposition, remove, last, remove_hook, removed_at, or_else, push_log_hook, pop_log_hook,
  innermost,
}

-- One call of a hook: the hook, the level and the message.
abbrev pub Call : Type 0
Call = ℕ × (List ℕ × List ℕ)

-- Code between two points of a thread: it logs, runs code under a `LogHookGuard`, or runs code in a
-- `scope_log_hook`, and goes on.
pub data Code : Type 0 where
  done : Code
  log : List ℕ → List ℕ → Code → Code
  guarded : ℕ → Code → Code → Code
  scoped : ℕ → Code → Code → Code

-- `append_log_entry`
abbrev pub call_of : Option ℕ → List ℕ → List ℕ → List Call
call_of none level message = []
call_of (some h) level message = (h, (level, message)) ∷ []

-- `scope_log_hook`: the task's stack inside the scope.
abbrev pub enter_scope : ℕ → Stacks → Stacks
enter_scope hook s = record s { task = some (hook ∷ []) }

-- The code, with the calls of hooks that it makes; `none` is a failed `debug_assert!`.
unfoldable pub exec : Profile → Code → Stacks → Option (Stacks × List Call)
exec p done s = some (s, [])
exec p (log level message next) s =
    exec p next s >>= λ (s', calls). some (s', call_of (innermost s) level message ++ calls)
exec p (guarded hook body next) s = exec p body (push_log_hook hook s) >>= λ (s₁, calls₁).
    pop_log_hook p hook s₁ >>= λ s₂. exec p next s₂ >>= λ (s₃, calls₂). some (s₃, calls₁ ++ calls₂)
exec p (scoped hook body next) s = exec p body (enter_scope hook s) >>= λ (s₁, calls₁).
    exec p next (record s₁ { task = s.task }) >>= λ (s₂, calls₂). some (s₂, calls₁ ++ calls₂)

-- The calls by the text of the code alone: an entry goes to the hook of the nearest guard or scope
-- around it.
unfoldable pub calls : Option ℕ → Code → List Call
calls h done = []
calls h (log level message next) = call_of h level message ++ calls h next
calls h (guarded hook body next) = calls (some hook) body ++ calls h next
calls h (scoped hook body next) = calls (some hook) body ++ calls h next

==_refl : (n : ℕ) → (n == n) ≡ true
==_refl n = ground arith

rposition-append :
    (hook : ℕ) (hooks : List ℕ) → rposition hook (hooks ++ hook ∷ []) ≡ some (length hooks)
unfolding rposition
rposition-append hook [] = rw (==_refl hook)
rposition-append hook (h ∷ rest) = rw (rposition-append hook rest)

remove-append : (hook : ℕ) (hooks : List ℕ) → remove (length hooks) (hooks ++ hook ∷ []) ≡ hooks
unfolding remove
remove-append hook [] = refl
remove-append hook (h ∷ rest) = ap (λ hs. h ∷ hs) (remove-append hook rest)

last-append : (hook : ℕ) (hooks : List ℕ) → last (hooks ++ hook ∷ []) ≡ some hook
unfolding last
last-append hook [] = refl
last-append hook (h ∷ []) = refl
last-append hook (h ∷ k ∷ rest) = last-append hook (k ∷ rest)

remove_hook-append :
    (hook : ℕ) (hooks : List ℕ) → remove_hook (hooks ++ hook ∷ []) hook ≡ (hooks, true)
unfolding remove_hook
remove_hook-append hook hooks =
    ap (removed_at (hooks ++ hook ∷ [])) (rposition-append hook hooks)
    ∙ ap (λ left. (left, true)) (remove-append hook hooks)

-- A pop of the hook that was pushed last restores both stacks, in a debug and in a release build, in a
-- task scope and outside one.
pub pop-push :
    (p : Profile) (hook : ℕ) (s : Stacks) → pop_log_hook p hook (push_log_hook hook s) ≡ some s
unfolding pop_log_hook push_log_hook
pop-push p hook s = go s.task s.thread
  where
    go :
        (t : Option (List ℕ)) (th : List ℕ)
        → pop_log_hook p hook (push_log_hook hook (record { thread = th; task = t }))
          ≡ some (record { thread = th; task = t })
    go none th = rw (remove_hook-append hook th)
    go (some hooks) th = rw (remove_hook-append hook hooks)

pub innermost-push : (hook : ℕ) (s : Stacks) → innermost (push_log_hook hook s) ≡ some hook
unfolding innermost push_log_hook
innermost-push hook s = go s.task s.thread
  where
    go :
        (t : Option (List ℕ)) (th : List ℕ)
        → innermost (push_log_hook hook (record { thread = th; task = t })) ≡ some hook
    go none th = last-append hook th
    go (some hooks) th = ap (λ h. or_else h (last th)) (last-append hook hooks)

-- Well-nested code does not panic, leaves both stacks as it found them, and its entries go to the hook
-- of the nearest guard or scope around them.
pub exec-calls :
    (p : Profile) (c : Code) (s : Stacks) → exec p c s ≡ some (s, calls (innermost s) c)
unfolding exec calls innermost last
exec-calls p done s = refl
exec-calls p (log level message next) s = rw (exec-calls p next s)
exec-calls p (guarded hook body next) s = rw (
  exec-calls p body (push_log_hook hook s),
  innermost-push hook s,
  pop-push p hook s,
  exec-calls p next s,
)
exec-calls p (scoped hook body next) s =
    rw (exec-calls p body (record s { task = some (hook ∷ []) }), exec-calls p next s)
