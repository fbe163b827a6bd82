-- ===== src/Stdout/Delivery.antt =====
-- src/stdout_emit.rs: the lines that producers hand over reach stdout in order.
use wide_log.Prelude.{
  ℕ, ◌≤◌, ◌≡◌, refl, sym, ◌∙◌, ap, true, false, Option, none, some, List, [], ◌∷◌, ◌++◌, append-nil,
  append_assoc, length, length-append, arith, leb, >>=-eq-some, Bool-cases, Option-cases, ◌⊎◌, inl,
  inr, subst,
}
use wide_log.Stdout
use wide_log.Stdout.{
  Global, Channel, Job, ChannelCapacity, unbounded, bounded, init_sender, sender_of, is_full, send,
  try_send, enqueue, count_drop, request_flush, unwrap_or,
}
use wide_log.Stdout.Writer.{Writer, Received, round, buffer_line, after_line}
use wide_log.Stdout.System.{System, Action, received, take_job, take_from, act, run, fresh}

abbrev pub lines_of : List Job → List (List ℕ)
lines_of [] = []
lines_of (Job.line bytes ∷ rest) = bytes ∷ lines_of rest
lines_of (Job.flush ack ∷ rest) = lines_of rest

pub lines_of-append : (xs ys : List Job) → lines_of (xs ++ ys) ≡ lines_of xs ++ lines_of ys
lines_of-append [] ys = refl
lines_of-append (Job.line bytes ∷ xs) ys = ap (λ ls. bytes ∷ ls) (lines_of-append xs ys)
lines_of-append (Job.flush ack ∷ xs) ys = lines_of-append xs ys

-- All that the writer has taken.
abbrev pub taken : Writer → List (List ℕ)
taken w = w.flushed ++ w.buffered

taken-after_line : (now : ℕ) (w : Writer) → taken (after_line now w) ≡ taken w
taken-after_line now w = ground (arith, append-nil (w.flushed ++ w.buffered))

pub taken-round :
    (now : ℕ) (job : Job) (w : Writer)
    → taken (round now (received job) w) ≡ taken w ++ lines_of (job ∷ [])
unfolding round
taken-round now (Job.line bytes) w =
    taken-after_line now (buffer_line bytes w)
    ∙ sym (append_assoc w.flushed w.buffered (bytes ∷ []))
taken-round now (Job.flush ack) w = refl

taken-timeout : (now : ℕ) (w : Writer) → taken (round now Received.timeout w) ≡ taken w
unfolding round
taken-timeout now w = ground (arith, append-nil (w.flushed ++ w.buffered))

-- The queue of a bounded channel is within its bound.
abbrev pub WithinBound : Channel → Type 0
WithinBound c = (n : ℕ) → c.capacity ≡ some n → length c.queue ≤ n

-- What was accepted is what the writer took and, behind it, what is queued.
pub record IsDelivering (s : System) : Type 0 where
  pub stays_open : (sender_of s.global).closed ≡ false
  pub in_order : s.accepted ≡ taken s.writer ++ lines_of (sender_of s.global).queue
  pub within : WithinBound (sender_of s.global)

enqueue-WithinBound :
    (job : Job) (c : Channel) → is_full c ≡ false → WithinBound c → WithinBound (enqueue job c)
unfolding enqueue
enqueue-WithinBound job c free h n e =
    let room : leb n (length c.queue) ≡ false = rw e at free in
    ground (arith, length-append c.queue (job ∷ []))

-- The state after a producer's job went in.
abbrev put_in : Job → Global → Global
put_in job g = record g { sender = some (enqueue job (sender_of g)) }

submit-open :
    (bytes : List ℕ) (g : Global)
    → (sender_of g).closed ≡ false
    → (Stdout.submit bytes g ≡ none)
      ⊎ ((Stdout.submit bytes g ≡ some (put_in (Job.line bytes) g))
          × (is_full (sender_of g) ≡ false))
unfolding Stdout.submit send
submit-open bytes g up = elim (Bool-cases (is_full (sender_of g))) [
  | inl full ↦ inl (rw (up, full))
  | inr free ↦ inr (rw (up, free), free)
]

try_submit-open :
    (bytes : List ℕ) (g : Global)
    → (sender_of g).closed ≡ false
    → (Stdout.try_submit bytes g ≡ (count_drop (record g { sender = some (sender_of g) }), false))
      ⊎ ((Stdout.try_submit bytes g ≡ (put_in (Job.line bytes) g, true))
          × (is_full (sender_of g) ≡ false))
unfolding Stdout.try_submit try_send
try_submit-open bytes g up = elim (Bool-cases (is_full (sender_of g))) [
  | inl full ↦ inl (rw (up, full))
  | inr free ↦ inr (rw (up, free), free)
]

-- A job that goes in keeps what is due in order.
put_in-IsDelivering :
    (job : Job) (s : System)
    → is_full (sender_of s.global) ≡ false
    → IsDelivering s
    → IsDelivering
        (record s { global = put_in job s.global; accepted = s.accepted ++ lines_of (job ∷ []) })
unfolding enqueue
put_in-IsDelivering job s free h = record {
  stays_open = h.stays_open;
  in_order =
      ap (λ ls. ls ++ lines_of (job ∷ [])) h.in_order
      ∙ append_assoc (taken s.writer) (lines_of (sender_of s.global).queue) (lines_of (job ∷ []))
      ∙ ap (λ ls. taken s.writer ++ ls)
          (sym (lines_of-append (sender_of s.global).queue (job ∷ [])));
  within = unfold enqueue in enqueue-WithinBound job (sender_of s.global) free h.within;
}

arrive : {s₁ s' : System} → some s₁ ≡ some s' → IsDelivering s₁ → IsDelivering s'
arrive {s₁ = s₁} {s' = s'} e h = let same : s₁ ≡ s' = cc in subst IsDelivering same h

submit-IsDelivering :
    (bytes : List ℕ) (s s' : System)
    → IsDelivering s
    → act (Action.submit bytes) s ≡ some s'
    → IsDelivering s'
unfolding act
submit-IsDelivering bytes s s' h eq = elim (submit-open bytes s.global h.stays_open) [
  | inl waits ↦ cc (rw waits at eq)
  | inr (went, free) ↦
      arrive (rw (went, h.stays_open) at eq) (put_in-IsDelivering (Job.line bytes) s free h)
]

try_submit-IsDelivering :
    (bytes : List ℕ) (s s' : System)
    → IsDelivering s
    → act (Action.try_submit bytes) s ≡ some s'
    → IsDelivering s'
unfolding act
try_submit-IsDelivering bytes s s' h eq = elim (try_submit-open bytes s.global h.stays_open) [
  | inl full ↦
      arrive (rw full at eq)
        (record { stays_open = h.stays_open; in_order = h.in_order; within = h.within })
  | inr (went, free) ↦ arrive (rw went at eq) (put_in-IsDelivering (Job.line bytes) s free h)
]

request_flush-open :
    (ack : ℕ) (g : Global)
    → (sender_of g).closed ≡ false
    → (request_flush ack g ≡ none)
      ⊎ (request_flush ack g ≡ some (g, false))
      ⊎ ((request_flush ack g ≡ some (put_in (Job.flush ack) g, true))
          × (is_full (sender_of g) ≡ false))
unfolding request_flush send
request_flush-open ack g up = elim (Option-cases g.sender) [
  | inl unset ↦ inr (inl (rw unset))
  | inr (c, set) ↦ elim (Bool-cases (is_full c)) [
    | inl full ↦ inl (rw (set, rw set at up, full))
    | inr free ↦ inr (inr (rw (set, rw set at up, free), rw set free))
  ]
]

flush-IsDelivering :
    (ack : ℕ) (s s' : System)
    → IsDelivering s
    → act (Action.flush ack) s ≡ some s'
    → IsDelivering s'
unfolding act
flush-IsDelivering ack s s' h eq = elim (request_flush-open ack s.global h.stays_open) [
  | inl waits ↦ cc (rw waits at eq)
  | inr (inl unset) ↦ arrive (rw unset at eq) h
  | inr (inr (went, free)) ↦
      let more = put_in-IsDelivering (Job.flush ack) s free h in
      arrive (rw went at eq) (record {
        stays_open = more.stays_open;
        in_order = sym (append-nil s.accepted) ∙ more.in_order;
        within = more.within;
      })
]

-- The writer takes the oldest job of a queue.
take-IsDelivering :
    (now : ℕ) (s : System) (c : Channel) (job : Job) (rest : List Job)
    → sender_of s.global ≡ c
    → c.queue ≡ job ∷ rest
    → IsDelivering s
    → IsDelivering (record s {
      global = record s.global { sender = some (record c { queue = rest }) };
      writer = round now (received job) s.writer;
    })
take-IsDelivering now s c job rest is at h = record {
  stays_open = rw is at h.stays_open;
  in_order =
      h.in_order
      ∙ ap (λ d. taken s.writer ++ lines_of d.queue) is
      ∙ ap (λ q. taken s.writer ++ lines_of q) at
      ∙ ap (λ ls. taken s.writer ++ ls) (lines_of-append (job ∷ []) rest)
      ∙ sym (append_assoc (taken s.writer) (lines_of (job ∷ [])) (lines_of rest))
      ∙ ap (λ ls. ls ++ lines_of rest) (sym (taken-round now job s.writer));
  within = λ n e.
      let bound : length c.queue ≤ n = subst WithinBound is h.within n e in
      let longer = ap length at in omega arith;
}

receive-IsDelivering :
    (now : ℕ) (s s' : System)
    → IsDelivering s
    → act (Action.receive now) s ≡ some s'
    → IsDelivering s'
unfolding act
receive-IsDelivering now s s' h eq = from s.global.sender refl eq
  where
    go :
        (c : Channel)
        → s.global.sender ≡ some c
        → (q : List Job) → c.queue ≡ q
        → take_job now c q s ≡ some s'
        → IsDelivering s'
    go c set [] at ran = cc
    go c set (job ∷ rest) at ran = arrive ran (take-IsDelivering now s c job rest (rw set) at h)

    from :
        (o : Option Channel) → s.global.sender ≡ o → take_from now o s ≡ some s' → IsDelivering s'
    from none unset ran = cc
    from (some c) set ran = go c set c.queue refl ran

idle-IsDelivering :
    (now : ℕ) (s : System)
    → IsDelivering s
    → IsDelivering (record s { writer = round now Received.timeout s.writer })
idle-IsDelivering now s h = record {
  stays_open = h.stays_open;
  in_order =
      h.in_order
      ∙ ap (λ ls. ls ++ lines_of (sender_of s.global).queue) (sym (taken-timeout now s.writer));
  within = h.within;
}

act-IsDelivering :
    (a : Action) (s s' : System) → IsDelivering s → act a s ≡ some s' → IsDelivering s'
act-IsDelivering (Action.submit bytes) s s' h eq = submit-IsDelivering bytes s s' h eq
act-IsDelivering (Action.try_submit bytes) s s' h eq = try_submit-IsDelivering bytes s s' h eq
act-IsDelivering (Action.flush ack) s s' h eq = flush-IsDelivering ack s s' h eq
act-IsDelivering (Action.receive now) s s' h eq = receive-IsDelivering now s s' h eq
act-IsDelivering (Action.idle now) s s' h eq = unfold act in arrive eq (idle-IsDelivering now s h)

run-IsDelivering :
    (as' : List Action) (s s' : System) → IsDelivering s → run as' s ≡ some s' → IsDelivering s'
unfolding run
run-IsDelivering [] s s' h eq = arrive eq h
run-IsDelivering (a ∷ rest) s s' h eq =
    let (s₁, first, others) = >>=-eq-some (act a s) (run rest) eq in
    run-IsDelivering rest s₁ s' (act-IsDelivering a s s₁ h first) others

-- A channel without a job in it.
init_sender-empty :
    (cap : ChannelCapacity)
    → ((init_sender cap).queue ≡ [])
      × ((init_sender cap).closed ≡ false)
      × WithinBound (init_sender cap)
unfolding init_sender
init_sender-empty unbounded = (refl, refl, λ n e. cc)
init_sender-empty (bounded m) = (refl, refl, λ n e. omega arith)

fresh-IsDelivering : (g : Global) (now : ℕ) → g.sender ≡ none → IsDelivering (fresh g now)
fresh-IsDelivering g now unset =
    let (empty, up, within) = init_sender-empty (unwrap_or unbounded g.capacity) in
    let same : sender_of g ≡ init_sender (unwrap_or unbounded g.capacity) = rw unset in
    record {
      stays_open = ap (λ c. c.closed) same ∙ up;
      in_order = sym (ap lines_of (ap (λ c. c.queue) same ∙ empty));
      within = subst WithinBound (sym same) within;
    }

-- Producers and the writer, from a process whose channel has not been used: after any interleaving of
-- submits, tried submits, flush requests, and rounds of the writer in which no write fails, the lines
-- that were accepted are those flushed, those buffered and those queued, in this order. So no line is
-- lost, doubled or overtaken. The channel is still open, and the queue of a bounded one within its
-- bound.
pub run-fresh-IsDelivering :
    (as' : List Action) (g : Global) (now : ℕ) (s' : System)
    → g.sender ≡ none
    → run as' (fresh g now) ≡ some s'
    → IsDelivering s'
run-fresh-IsDelivering as' g now s' unset eq =
    run-IsDelivering as' (fresh g now) s' (fresh-IsDelivering g now unset) eq
