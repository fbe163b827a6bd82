-- ===== src/Stdout.antt =====
-- src/stdout_emit.rs: the process-global settings and the channel to the writer thread.
-- Times are counts of nanoseconds. `none` as the result of a send is a producer that waits.
pub mod Writer
pub mod Batch
pub mod System
pub mod Delivery
pub mod Flushed
use wide_log.Prelude.{
  ℕ, ◌+◌, ◌*◌, ◌%◌, ◌^◌, max, Bool, true, false, Option, none, some, List, [], ◌∷◌, ◌++◌, length,
  leb, if◌then◌else◌,
}

pub data ChannelCapacity : Type 0 where
  unbounded : ChannelCapacity
  bounded : ℕ → ChannelCapacity

pub record FlushPolicy : Type 0 where
  pub max_interval : ℕ
  pub max_bytes : ℕ
  pub max_lines : ℕ

-- `FlushPolicy::default`: 100 ms, 8 KiB, 1000 lines
abbrev pub default_policy : FlushPolicy
default_policy = record { max_interval = 100_000_000; max_bytes = 8 * 1024; max_lines = 1000 }

abbrev pub per_line : FlushPolicy
per_line = record { max_interval = 0; max_bytes = 0; max_lines = 1 }

-- A line, or a request to flush with the channel on which it is acknowledged.
pub data Job : Type 0 where
  line : List ℕ → Job
  flush : ℕ → Job

-- `std::sync::mpsc`: what is queued, the bound of a `sync_channel`, and whether the receiver is gone.
pub record Channel : Type 0 where
  pub capacity : Option ℕ
  pub queue : List Job
  pub closed : Bool

-- The statics DROPPED, SENDER, POLICY and CAPACITY.
pub record Global : Type 0 where
  pub dropped : ℕ
  pub sender : Option Channel
  pub policy : Option FlushPolicy
  pub capacity : Option ChannelCapacity

abbrev pub start : Global
start = record { dropped = 0; sender = none; policy = none; capacity = none }

-- `OnceLock::set`, its error discarded: the first call wins.
abbrev pub set_once {ℓ} : {A : Type ℓ} → A → Option A → Option A
set_once a none = some a
set_once a (some b) = some b

-- `.copied().unwrap_or_default()`
abbrev pub unwrap_or {ℓ} : {A : Type ℓ} → A → Option A → A
unwrap_or d none = d
unwrap_or d (some a) = a

unfoldable pub set_flush_policy : FlushPolicy → Global → Global
set_flush_policy p g = record g { policy = set_once p g.policy }

unfoldable pub current_flush_policy : Global → FlushPolicy
current_flush_policy g = unwrap_or default_policy g.policy

unfoldable pub set_channel_capacity : ChannelCapacity → Global → Global
set_channel_capacity c g = record g { capacity = set_once c g.capacity }

unfoldable pub current_channel_capacity : Global → ChannelCapacity
current_channel_capacity g = unwrap_or unbounded g.capacity

-- `init_sender`, which also starts the writer thread.
unfoldable pub init_sender : ChannelCapacity → Channel
init_sender unbounded = record { capacity = none; queue = []; closed = false }
init_sender (bounded n) = record { capacity = some (max n 1); queue = []; closed = false }

-- `SENDER.get_or_init(init_sender)`
abbrev pub sender_of : Global → Channel
sender_of g = unwrap_or (init_sender (unwrap_or unbounded g.capacity)) g.sender

abbrev pub is_full : Channel → Bool
is_full c = elim c.capacity [ none ↦ false | some n ↦ leb n (length c.queue) ]

-- The job went in, came back, or waits for room.
pub data Sent : Type 0 where
  sent : Channel → Sent
  returned : Sent
  waits : Sent

unfoldable pub enqueue : Job → Channel → Channel
enqueue job c = record c { queue = c.queue ++ job ∷ [] }

-- `ChannelSender::send`
unfoldable pub send : Job → Channel → Sent
send job c = if c.closed then returned else if is_full c then waits else sent (enqueue job c)

-- `ChannelSender::try_send`
unfoldable pub try_send : Job → Channel → Sent
try_send job c = if c.closed then returned else if is_full c then returned else sent (enqueue job c)

-- `DROPPED.fetch_add(1)`
abbrev pub count_drop : Global → Global
count_drop g = record g { dropped = (g.dropped + 1) % 2 ^ 64 }

abbrev after_submit : Channel → Sent → Global → Option Global
after_submit c (sent c') g = some (record g { sender = some c' })
after_submit c returned g = some (count_drop (record g { sender = some c }))
after_submit c waits g = none

unfoldable pub submit : List ℕ → Global → Option Global
unfolding send enqueue init_sender
submit bytes g = after_submit (sender_of g) (send (line bytes) (sender_of g)) g

abbrev after_try : Channel → Sent → Global → Global × Bool
after_try c (sent c') g = (record g { sender = some c' }, true)
after_try c _ g = (count_drop (record g { sender = some c }), false)

unfoldable pub try_submit : List ℕ → Global → Global × Bool
unfolding try_send enqueue init_sender
try_submit bytes g = after_try (sender_of g) (try_send (line bytes) (sender_of g)) g

-- `flush`, up to the wait for the acknowledgement: `true` if there is one to wait for.
abbrev after_flush : Sent → Global → Option (Global × Bool)
after_flush (sent c') g = some (record g { sender = some c' }, true)
after_flush returned g = some (g, false)
after_flush waits g = none

unfoldable pub request_flush : ℕ → Global → Option (Global × Bool)
unfolding send enqueue
request_flush ack g = elim g.sender [
  | none ↦ some (g, false)
  | some c ↦ after_flush (send (flush ack) c) g
]
