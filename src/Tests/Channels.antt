-- ===== src/Tests/Channels.antt =====
-- The theorems on the writer, the channel and the hooks at concrete runs.
use wide_log.Prelude.{
  ◌++◌, ℕ, map, Str, ◌≡◌, refl, some, none, List, [], ◌∷◌, chars, arith, ◌*◌, false, true,
}
use wide_log.Word.{debug}
use wide_log.Stdout
use wide_log.Stdout.Flushed.{IsFlushed, flush-IsFlushed}
use wide_log.Stdout.{
  Channel, Job, request_flush, send, enqueue, Global, FlushPolicy, start, bounded,
  set_channel_capacity,
}
use wide_log.Stdout.Writer.{Writer, Received, begin, round, wakeup}
use wide_log.Stdout.Batch.{IsBatch, round-IsBatch, timeout-flushes}
use wide_log.Stdout.System.{System, Action, fresh, act, run}
use wide_log.Stdout.Delivery.{IsDelivering, run-fresh-IsDelivering}
use wide_log.Hook.{Stacks, innermost, last}
use wide_log.Hook.Reentry.{
  Entry, format, is_format, append_log_entry, append_log_entry_fmt, call_of_entry, reentrant-calls,
}
use wide_log.Hook.Nesting.{Code, exec, calls, exec-calls}

abbrev policy : FlushPolicy
policy = record { max_interval = 100; max_bytes = 10; max_lines = 3 }

-- One line of two bytes is buffered since the time 5.
abbrev waiting : Writer
waiting = record (begin policy 5) {
  batch_bytes = 2;
  batch_lines = 1;
  buffered = (7 ∷ 10 ∷ []) ∷ [];
}

waiting-IsBatch : IsBatch waiting
waiting-IsBatch = record {
  lines = refl;
  bytes = refl;
  lines_below = omega arith;
  bytes_below = λ h. omega arith;
}

round-IsBatch_example : IsBatch (round 9 (Received.line (8 ∷ 10 ∷ []) true) waiting)
round-IsBatch_example = round-IsBatch 9 (Received.line (8 ∷ 10 ∷ []) true) waiting waiting-IsBatch

timeout-flushes_example :
    ((round 120 Received.timeout waiting).buffered ≡ [])
    × ((round 120 Received.timeout waiting).flushed ≡ (7 ∷ 10 ∷ []) ∷ [])
timeout-flushes_example =
    timeout-flushes 120 6 waiting waiting-IsBatch (omega arith) (omega arith)
      (unfold wakeup in omega arith)

abbrev small : Global
small = record start { capacity = some (bounded 0) }

-- The second line finds the channel full.
abbrev actions : List Action
actions =
    Action.submit (1 ∷ [])
    ∷ Action.try_submit (2 ∷ [])
    ∷ Action.receive 3
    ∷ Action.submit (4 ∷ [])
    ∷ Action.idle 9
    ∷ []

abbrev left_over : System
left_over = record {
  global = record small {
    sender = some (record { capacity = some 1; queue = Stdout.line (4 ∷ []) ∷ []; closed = false });
    dropped = 1;
  };
  writer =
      record (begin (record { max_interval = 100_000_000; max_bytes = 8 * 1024; max_lines = 1000 })
        0) { batch_bytes = 1; batch_lines = 1; buffered = (1 ∷ []) ∷ [] };
  accepted = (1 ∷ []) ∷ (4 ∷ []) ∷ [];
}

left_over-run : run actions (fresh small 0) ≡ some left_over
unfolding run act Stdout.submit Stdout.try_submit Stdout.current_flush_policy
left_over-run = refl

run-fresh-IsDelivering_example : IsDelivering left_over
run-fresh-IsDelivering_example = run-fresh-IsDelivering actions small 0 left_over refl left_over-run

-- A task scope inside a guard, with a guard of its own.
abbrev code : Code
code =
    Code.guarded 1
      (Code.log (chars "info") (chars "a") (
        Code.scoped 2 (Code.guarded 3 (Code.log (chars "warn") (chars "b") Code.done) Code.done)
          Code.done))
      Code.done

abbrev outer : Stacks
outer = record { thread = 9 ∷ []; task = none }

exec-calls_example : exec debug code outer ≡ some (outer, calls (innermost outer) code)
exec-calls_example = exec-calls debug code outer

-- A hook that logs one entry with format arguments whenever it is called.
abbrev echo : ℕ → Str → Str → List Entry
echo hook level message = format level message ∷ []

outer_hook : innermost outer ≡ some 9
unfolding innermost last
outer_hook = refl

reentrant-calls_example :
    (append_log_entry_fmt echo outer 1 false (chars "info") (chars "a")
      ≡ some ((9, (chars "info", chars "a")) ∷ []))
    × (append_log_entry echo outer 2 false (chars "info") (chars "a")
        ≡ some (
            (9, (chars "info", chars "a"))
            ∷ map (call_of_entry 9) (echo 9 (chars "info") (chars "a"))))
reentrant-calls_example =
    reentrant-calls echo outer 9 outer_hook (λ level text. (is_format, tt)) 0 (chars "info")
      (chars "a")

abbrev line_queue : List Job
line_queue = Stdout.line (1 ∷ []) ∷ Stdout.line (2 ∷ []) ∷ []

abbrev channel_with : List Job → Channel
channel_with jobs = record { capacity = none; queue = jobs; closed = false }

-- Two lines in an unbounded channel, with the jobs behind them.
abbrev two_lines : List Job → System
two_lines more = record {
  global = record start { sender = some (channel_with (line_queue ++ more)) };
  writer = begin policy 0;
  accepted = (1 ∷ []) ∷ (2 ∷ []) ∷ [];
}

two_lines-IsDelivering : IsDelivering (two_lines [])
two_lines-IsDelivering = record { stays_open = refl; in_order = refl; within = λ n h. cc }

two_lines-flush : act (Action.flush 4) (two_lines []) ≡ some (two_lines (Stdout.flush 4 ∷ []))
unfolding act request_flush send enqueue
two_lines-flush = refl

flush-IsFlushed_example :
    (s' : System) × (run
        (map Action.receive (5 ∷ 6 ∷ []) ++ Action.receive 7 ∷ [])
        (two_lines (Stdout.flush 4 ∷ []))
      ≡ some s')
    × IsFlushed ((1 ∷ []) ∷ (2 ∷ []) ∷ []) 4 s'
flush-IsFlushed_example =
    flush-IsFlushed 4 7 (5 ∷ 6 ∷ []) (channel_with line_queue) (two_lines [])
      (two_lines (Stdout.flush 4 ∷ [])) two_lines-IsDelivering refl refl two_lines-flush
