-- ===== src/Stdout/Flushed.antt =====
-- `flush` of src/stdout_emit.rs: when the writer acknowledges it, all earlier lines have reached stdout.
use wide_log.Prelude.{
  ℕ, ◌≡◌, refl, sym, false, Bool-cases, inl, inr, ◌∙◌, ap, some, List, [], ◌∷◌, ◌++◌, append-nil,
  append_assoc, map, length, ◌>>=◌,
}
use wide_log.Stdout.{
  Channel, Job, sender_of, unwrap_or, init_sender, unbounded, is_full, request_flush, send, enqueue,
}
use wide_log.Stdout.Writer.{round}
use wide_log.Stdout.System.{System, Action, received, take_job, take_from, act, run}
use wide_log.Stdout.Delivery.{lines_of, lines_of-append, taken, taken-round, IsDelivering}

-- After the acknowledgement everything taken so far, and the lines that were before it, is flushed.
pub record IsFlushed (before : List (List ℕ)) (ack : ℕ) (s : System) : Type 0 where
  pub flushed : s.writer.flushed ≡ before
  pub buffered : s.writer.buffered ≡ []
  pub acked : (earlier : List ℕ) × (s.writer.acked ≡ earlier ++ ack ∷ [])

-- The state after one job.
abbrev after : ℕ → Channel → Job → List Job → System → System
after now c job rest s = record s {
  global = record s.global { sender = some (record c { queue = rest }) };
  writer = round now (received job) s.writer;
}

receive-after :
    (now : ℕ) (c : Channel) (job : Job) (rest : List Job) (s : System)
    → s.global.sender ≡ some c
    → c.queue ≡ job ∷ rest
    → act (Action.receive now) s ≡ some (after now c job rest s)
unfolding act
receive-after now c job rest s there next =
    ap (λ o. take_from now o s) there ∙ ap (λ q. take_job now c q s) next

drained :
    (jobs : List Job) (times : List ℕ) (now ack : ℕ) (more : List Job) (c : Channel) (s : System)
    → length times ≡ length jobs
    → s.global.sender ≡ some c
    → c.queue ≡ jobs ++ Job.flush ack ∷ more
    → (s' : System) × (run (map Action.receive times ++ Action.receive now ∷ []) s ≡ some s')
      × IsFlushed (taken s.writer ++ lines_of jobs) ack s'
unfolding run
drained [] (t ∷ times) now ack more c s same there next = cc
drained (job ∷ jobs) [] now ack more c s same there next = cc
drained [] [] now ack more c s same there next = (
  after now c (Job.flush ack) more s,
  ap (λ o. o >>= run []) (receive-after now c (Job.flush ack) more s there next),
  unfold round in
      record {
        flushed = sym (append-nil (taken s.writer));
        buffered = refl;
        acked = (s.writer.acked, refl);
      },
)
drained (job ∷ jobs) (t ∷ times) now ack more c s same there next =
    let rest = jobs ++ Job.flush ack ∷ more in
    let s₁ = after t c job rest s in
    let shorter : length times ≡ length jobs = cc in
    let (s', runs, h) =
      drained jobs times now ack more (record c { queue = rest }) s₁ shorter refl refl in
    (
      s',
      ap (λ o. o >>= run (map Action.receive times ++ Action.receive now ∷ []))
            (receive-after t c job rest s there next)
          ∙ runs,
      record {
        flushed =
            h.flushed
            ∙ ap (λ ls. ls ++ lines_of jobs) (taken-round t job s.writer)
            ∙ append_assoc (taken s.writer) (lines_of (job ∷ [])) (lines_of jobs)
            ∙ ap (λ ls. taken s.writer ++ ls) (sym (lines_of-append (job ∷ []) jobs));
        buffered = h.buffered;
        acked = h.acked;
      },
    )

-- The state after a flush was asked for.
asked :
    (ack : ℕ) (c : Channel) (s s₁ : System)
    → s.global.sender ≡ some c
    → c.closed ≡ false
    → act (Action.flush ack) s ≡ some s₁
    → s₁ ≡ record s {
      global = record s.global {
        sender = some (record c { queue = c.queue ++ Job.flush ack ∷ [] });
      };
    }
unfolding act request_flush send enqueue
asked ack c s s₁ there up went = elim (Bool-cases (is_full c)) [
  | inl full ↦ cc (rw (there, up, full) at went)
  | inr free ↦ let h = rw (there, up, free) at went in cc
]

-- From every state in which the deliveries are in order, with a channel in use: after a `flush` whose job
-- went into the channel, as soon as the writer has taken the jobs that were queued before, at whatever times,
-- and then the flush, it has acknowledged that flush, its buffer is empty, and every line that producers had
-- handed over before the flush has reached stdout, in order.
pub flush-IsFlushed :
    (ack now : ℕ) (times : List ℕ) (c : Channel) (s s₁ : System)
    → IsDelivering s
    → s.global.sender ≡ some c
    → length times ≡ length c.queue
    → act (Action.flush ack) s ≡ some s₁
    → (s' : System) × (run (map Action.receive times ++ Action.receive now ∷ []) s₁ ≡ some s')
      × IsFlushed s.accepted ack s'
flush-IsFlushed ack now times c s s₁ delivering there same went =
    let at : sender_of s.global ≡ c =
      ap (unwrap_or (init_sender (unwrap_or unbounded s.global.capacity))) there in
    let up : c.closed ≡ false = rw at at delivering.stays_open in
    let state = asked ack c s s₁ there up went in
    let due : taken s.writer ++ lines_of c.queue ≡ s.accepted =
      sym (rw at at delivering.in_order) in
    let later = record s {
      global = record s.global {
        sender = some (record c { queue = c.queue ++ Job.flush ack ∷ [] });
      };
    } in
    let (s', runs, h) =
      drained c.queue times now ack [] (record c { queue = c.queue ++ Job.flush ack ∷ [] }) later
        same refl refl in
    (
      s',
      ap (run (map Action.receive times ++ Action.receive now ∷ [])) state ∙ runs,
      record { flushed = h.flushed ∙ due; buffered = h.buffered; acked = h.acked },
    )
