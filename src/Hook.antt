-- ===== src/Hook.antt =====
-- src/hook_registry.rs: the stacks of log hooks, with the feature `tokio`. A hook is its address.
-- A stack has its innermost hook last, as the `Vec` has.
pub mod Nesting
pub mod Reentry
use wide_log.Prelude.{
  ℕ, zero, suc, Bool, true, false, Option, none, some, List, [], ◌∷◌, ◌++◌, ◌==◌, if◌then◌else◌,
  length,
}
use wide_log.Word.{Profile, debug, release}

-- The thread's stack and, inside a task scope, the task's.
pub record Stacks : Type 0 where
  pub thread : List ℕ
  pub task : Option (List ℕ)

-- `Iterator::rposition` with the test `fn_addr_eq`
unfoldable pub rposition : ℕ → List ℕ → Option ℕ
rposition hook [] = none
rposition hook (h ∷ rest) = elim (rposition hook rest) [
  | some i ↦ some (suc i)
  | none ↦ if h == hook then some 0 else none
]

-- `Vec::remove`, at an index in range
unfoldable pub remove : ℕ → List ℕ → List ℕ
remove i [] = []
remove zero (h ∷ rest) = rest
remove (suc i) (h ∷ rest) = h ∷ remove i rest

-- `slice::last`
unfoldable pub last : List ℕ → Option ℕ
last [] = none
last (h ∷ []) = some h
last (h ∷ k ∷ rest) = last (k ∷ rest)

abbrev pub removed_at : List ℕ → Option ℕ → List ℕ × Bool
removed_at hooks none = (hooks, false)
removed_at hooks (some pos) = (remove pos hooks, true)

-- The stack without the last occurrence, and whether there was one.
unfoldable pub remove_hook : List ℕ → ℕ → List ℕ × Bool
remove_hook hooks hook = removed_at hooks (rposition hook hooks)

unfoldable pub log_hook_stack_depth : Stacks → ℕ
log_hook_stack_depth s = elim s.task [ none ↦ length s.thread | some hooks ↦ length hooks ]

unfoldable pub push_log_hook : ℕ → Stacks → Stacks
push_log_hook hook s = elim s.task [
  | none ↦ record s { thread = s.thread ++ hook ∷ [] }
  | some hooks ↦ record s { task = some (hooks ++ hook ∷ []) }
]

-- On the thread's stack; the `debug_assert!` panics in a debug build.
abbrev pub pop_thread : Profile → ℕ → Stacks → Option Stacks
pop_thread p hook s =
    let (hooks, removed) = remove_hook s.thread hook in
    if removed
    then some (record s { thread = hooks })
    else elim p [ debug ↦ none | release ↦ some (record s { thread = hooks }) ]

unfoldable pub pop_log_hook : Profile → ℕ → Stacks → Option Stacks
pop_log_hook p hook s = elim s.task [
  | none ↦ pop_thread p hook s
  | some hooks ↦
      let (left, removed) = remove_hook hooks hook in
      if removed
      then some (record s { task = some left })
      else pop_thread p hook (record s { task = some left })
]

-- The first that there is.
abbrev pub or_else : Option ℕ → Option ℕ → Option ℕ
or_else (some h) other = some h
or_else none other = other

-- The hook that an entry goes through: `append_log_entry`, up to the call.
unfoldable pub innermost : Stacks → Option ℕ
innermost s = elim s.task [
  | none ↦ last s.thread
  | some hooks ↦ or_else (last hooks) (last s.thread)
]
