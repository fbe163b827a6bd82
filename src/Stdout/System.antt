-- ===== src/Stdout/System.antt =====
-- src/stdout_emit.rs as a whole: producers, the channel and the writer thread, one action at a time.
use wide_log.Prelude.{ℕ, Bool, true, false, not, Option, none, some, List, [], ◌∷◌, ◌++◌, ◌>>=◌}
use wide_log.Stdout
use wide_log.Stdout.{
  Global, Channel, FlushPolicy, Job, start, sender_of, current_flush_policy, request_flush,
}
use wide_log.Stdout.Writer.{Writer, Received, begin, round}

-- `accepted` are the lines that producers handed over, oldest first; it is not in the program.
pub record System : Type 0 where
  pub global : Global
  pub writer : Writer
  pub accepted : List (List ℕ)

-- A producer submits, or tries to, or asks for a flush; the writer takes a job or times out.
pub data Action : Type 0 where
  submit : List ℕ → Action
  try_submit : List ℕ → Action
  flush : ℕ → Action
  receive : ℕ → Action
  idle : ℕ → Action

-- A job as `recv_timeout` answers it, with a `write_all` that succeeds.
abbrev pub received : Job → Received
received (Job.line bytes) = Received.line bytes true
received (Job.flush ack) = Received.flush ack

-- The receiver takes the oldest job.
abbrev pub take_job : ℕ → Channel → List Job → System → Option System
take_job now c [] s = none
take_job now c (job ∷ rest) s = some (record s {
  global = record s.global { sender = some (record c { queue = rest }) };
  writer = round now (received job) s.writer;
})

abbrev pub take_from : ℕ → Option Channel → System → Option System
take_from now none s = none
take_from now (some c) s = take_job now c c.queue s

abbrev accept : List ℕ → Bool → System → System
accept bytes true s = record s { accepted = s.accepted ++ bytes ∷ [] }
accept bytes false s = s

-- `none` is an action that cannot happen now: a producer that waits for room, or an empty channel.
-- The channel stays open, since its sender is in a static.
unfoldable pub act : Action → System → Option System
unfolding round
act (submit bytes) s = Stdout.submit bytes s.global >>= λ g.
    some (accept bytes (not (sender_of s.global).closed) (record s { global = g }))
act (try_submit bytes) s =
    let (g, done) = Stdout.try_submit bytes s.global in
    some (accept bytes done (record s { global = g }))
act (flush ack) s = request_flush ack s.global >>= λ (g, waits). some (record s { global = g })
act (receive now) s = take_from now s.global.sender s
act (idle now) s = some (record s { writer = round now Received.timeout s.writer })

unfoldable pub run : List Action → System → Option System
run [] s = some s
run (a ∷ rest) s = act a s >>= run rest

-- A fresh process, with settings made before the first event.
abbrev pub fresh : Global → ℕ → System
fresh g now = record { global = g; writer = begin (current_flush_policy g) now; accepted = [] }
