-- ===== src/Stdout/Writer.antt =====
-- src/stdout_emit.rs: `writer_loop`, one round for each answer of `recv_timeout`. `buffered` are the
-- lines that have been written to the `BufWriter` and not been flushed since (it may pass on some of
-- them earlier by itself), `flushed` the lines that have reached stdout for certain.
use wide_log.Prelude.{
  ℕ, ◌+◌, ◌-◌, Bool, true, false, ◌&&◌, ◌||◌, List, [], ◌∷◌, ◌++◌, length, ltb, leb, if◌then◌else◌,
}
use wide_log.Stdout.{FlushPolicy}

pub record Writer : Type 0 where
  pub policy : FlushPolicy
  pub batch_started : ℕ
  pub batch_bytes : ℕ
  pub batch_lines : ℕ
  pub buffered : List (List ℕ)
  pub flushed : List (List ℕ)
  pub acked : List ℕ
  pub running : Bool

-- What one call of `recv_timeout` answers. For a line, whether `write_all` succeeds.
pub data Received : Type 0 where
  line : List ℕ → Bool → Received
  flush : ℕ → Received
  timeout : Received
  disconnected : Received

abbrev pub begin : FlushPolicy → ℕ → Writer
begin policy now = record {
  policy = policy;
  batch_started = now;
  batch_bytes = 0;
  batch_lines = 0;
  buffered = [];
  flushed = [];
  acked = [];
  running = true;
}

-- The timeout that is passed to `recv_timeout`.
unfoldable pub wakeup : FlushPolicy → ℕ
wakeup policy = if ltb 0 policy.max_interval then policy.max_interval else 100_000_000

-- `buf.flush()` and the three resets.
abbrev pub flush_batch : ℕ → Writer → Writer
flush_batch now w = record w {
  batch_started = now;
  batch_bytes = 0;
  batch_lines = 0;
  buffered = [];
  flushed = w.flushed ++ w.buffered;
}

-- `buf.write_all(&bytes)` and the two counts.
abbrev pub buffer_line : List ℕ → Writer → Writer
buffer_line bytes w = record w {
  batch_bytes = w.batch_bytes + length bytes;
  batch_lines = w.batch_lines + 1;
  buffered = w.buffered ++ bytes ∷ [];
}

-- The tests after a line.
abbrev pub after_line : ℕ → Writer → Writer
after_line now w =
    if leb w.policy.max_lines 1
    then flush_batch now w
    else if ltb 0 w.policy.max_bytes && leb w.policy.max_bytes w.batch_bytes
        || leb w.policy.max_lines w.batch_lines
    then flush_batch now w
    else if ltb 0 w.policy.max_interval && leb w.policy.max_interval (now - w.batch_started)
    then flush_batch now w
    else w

-- One round, at the time `now`.
unfoldable pub round : ℕ → Received → Writer → Writer
round now (line bytes false) w = w
round now (line bytes true) w = after_line now (buffer_line bytes w)
round now (flush ack) w = let w' = flush_batch now w in record w' { acked = w'.acked ++ ack ∷ [] }
round now timeout w =
    if ltb 0 w.policy.max_interval
      && ltb 0 w.batch_lines
      && leb w.policy.max_interval (now - w.batch_started)
    then flush_batch now w
    else w
round now disconnected w = let w' = flush_batch now w in record w' { running = false }

-- The loop, over what the calls of `recv_timeout` answer and when; it ends at a closed channel.
unfoldable pub writer_loop : List (ℕ × Received) → Writer → Writer
writer_loop [] w = w
writer_loop ((now, r) ∷ rest) w =
    let w' = round now r w in let more = writer_loop rest w' in if w'.running then more else w'
