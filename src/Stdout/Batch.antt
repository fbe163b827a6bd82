-- ===== src/Stdout/Batch.antt =====
-- What `writer_loop` of src/stdout_emit.rs keeps in its buffer, and for how long.
use wide_log.Prelude.{
  ℕ, ◌+◌, ◌-◌, ◌<◌, ◌≤◌, max, ◌≡◌, refl, sym, true, false, List, [], ◌∷◌, ◌++◌, append-nil, length,
  length-append, arith, ltb, leb, Bool-cases, inl, inr,
}
use wide_log.Stdout.Writer.{
  Writer, Received, line, flush, timeout, disconnected, wakeup, flush_batch, buffer_line,
  after_line, round,
}

abbrev pub total_bytes : List (List ℕ) → ℕ
total_bytes [] = 0
total_bytes (l ∷ rest) = length l + total_bytes rest

total_bytes-append_one :
    (ls : List (List ℕ)) (l : List ℕ) → total_bytes (ls ++ l ∷ []) ≡ total_bytes ls + length l
total_bytes-append_one [] l = omega arith
total_bytes-append_one (m ∷ ls) l = omega (arith, total_bytes-append_one ls l)

length-append_one : (ls : List (List ℕ)) (l : List ℕ) → length (ls ++ l ∷ []) ≡ length ls + 1
length-append_one ls l = length-append ls (l ∷ [])

-- The counts are those of the buffered lines, and stay under the thresholds of the policy.
pub record IsBatch (w : Writer) : Type 0 where
  pub lines : w.batch_lines ≡ length w.buffered
  pub bytes : w.batch_bytes ≡ total_bytes w.buffered
  pub lines_below : w.batch_lines < max w.policy.max_lines 1
  pub bytes_below : 0 < w.policy.max_bytes → w.batch_bytes < w.policy.max_bytes

flush_batch-IsBatch : (now : ℕ) (w : Writer) → IsBatch (flush_batch now w)
flush_batch-IsBatch now w = record {
  lines = refl;
  bytes = refl;
  lines_below = omega arith;
  bytes_below = λ h. h;
}

after_line-IsBatch :
    (now : ℕ) (w : Writer)
    → w.batch_lines ≡ length w.buffered
    → w.batch_bytes ≡ total_bytes w.buffered
    → IsBatch (after_line now w)
after_line-IsBatch now w hl hb = ground arith

-- Every round of the writer keeps the counts of its batch equal to the number and the total size of
-- the lines buffered since the last flush, and leaves fewer lines than `max_lines` (none if that is 0
-- or 1) and, if `max_bytes` is not 0, fewer bytes than that.
pub round-IsBatch : (now : ℕ) (r : Received) (w : Writer) → IsBatch w → IsBatch (round now r w)
unfolding round
round-IsBatch now (line bytes false) w h = h
round-IsBatch now (line bytes true) w h =
    after_line-IsBatch now (buffer_line bytes w)
      (omega (arith, h.lines, length-append_one w.buffered bytes))
      (omega (arith, h.bytes, total_bytes-append_one w.buffered bytes))
round-IsBatch now (flush ack) w h = record {
  lines = refl;
  bytes = refl;
  lines_below = omega arith;
  bytes_below = λ k. k;
}
round-IsBatch now timeout w h = ground arith
round-IsBatch now disconnected w h = record {
  lines = refl;
  bytes = refl;
  lines_below = omega arith;
  bytes_below = λ k. k;
}

none_left : (w : Writer) → IsBatch w → ltb 0 w.batch_lines ≡ false → w.buffered ≡ []
none_left w h idle = empty w.buffered (let counted = h.lines in ground arith)
  where
    empty : (ls : List (List ℕ)) → length ls ≡ 0 → ls ≡ []
    empty [] e = refl
    empty (l ∷ ls) e = absurd (omega arith)

-- With a time threshold, no line stays in an idle writer's buffer for longer than that: when
-- `recv_timeout` times out, which is a wait of at least `wakeup` since a moment that is not before the
-- batch began, the round flushes all that is buffered.
pub timeout-flushes :
    (now last : ℕ) (w : Writer)
    → IsBatch w
    → 0 < w.policy.max_interval
    → w.batch_started ≤ last
    → last + wakeup w.policy ≤ now
    → ((round now timeout w).buffered ≡ [])
      × ((round now timeout w).flushed ≡ w.flushed ++ w.buffered)
unfolding round wakeup
timeout-flushes now last w h timed before waited = elim (Bool-cases (ltb 0 w.batch_lines)) [
  | inl some_lines ↦
      let on : ltb 0 w.policy.max_interval ≡ true = ground arith in
      let aged : leb w.policy.max_interval (now - w.batch_started) ≡ true = ground arith in
      rw (on, some_lines, aged) (refl, refl)
  | inr idle ↦
      let nothing = none_left w h idle in
      let on : ltb 0 w.policy.max_interval ≡ true = ground arith in
      rw (on, idle) (nothing, rw nothing (sym (append-nil w.flushed)))
]
