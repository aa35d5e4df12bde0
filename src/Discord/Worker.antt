-- ===== src/Discord/Worker.antt =====
-- internal/discord/worker.go: one drain of the queue, as the steps that its workers may take, together
-- with the table, the limiter and whoever else works on the table meanwhile.
--
-- The channel has no buffer, so a delivery goes from the drain to a worker in one step. A worker's turn
-- is two steps. The first is its call of Limiter.Wait, all of which that touches the limiter happens at
-- the call: the hold is read once. From then on the worker sleeps in Wait until the time that the step
-- has found. The second, at that time or later, is the attempt with all that follows it. A worker whose
-- Wait is going to fail is gone from its call on. What the limiter and Discord answer, and when the
-- context ends, are arguments of the steps.
pub mod Moves
pub mod Accounts
pub mod Flights
pub mod Refinement
pub mod Losses
pub mod Pacing
pub mod Completion
pub mod Run
pub mod Tests
use anvil_forge.Prelude.{
  Bool, List, Option, Text, [], contains, false, if◌then◌else◌, is_positive, map, none, suc, true,
  ℕ, ◌++◌, ◌∷◌, ◌≡◌, ◌≢◌, ◌≤◌,
}
use anvil_forge.Discord.Sender.{Codec, Verdict, delivered, retry, dead, drop, Reply, Result, send}
use anvil_forge.Discord.Rows.{Outside, Outside, Queue, Delivery, Fault}
use anvil_forge.Discord.Queue.{complete}
use anvil_forge.Discord.Queue.Steps.{Step}
use anvil_forge.Ratelimit.{Keyed, wait, asked, reserve_for, sweep}

-- A worker's delivery: Wait is still to be called for it, or was called and lets it through at a time,
-- which may be yet to come.
pub data Job : Type 0 where
  held : Delivery → Job
  asleep : ℕ → Delivery → Job

abbrev pub delivery_of : Job → Delivery
delivery_of (held d) = d
delivery_of (asleep at d) = d

-- A drain under way. `settled` are the deliveries that were given to Complete, `left` those whose
-- worker is gone or that no worker got.
pub record Drain (Limit : Type 0) : Type 0 where
  pub waiting : List Delivery
  pub busy : List Job
  pub settled : List Delivery
  pub left : List Delivery
  pub idle : ℕ
  pub delivered : ℕ
  pub retried : ℕ
  pub dead : ℕ
  pub dropped : ℕ
  pub ended : Bool
  pub gave_up : Bool
  pub queue : Queue
  pub limiter : Keyed Limit

abbrev pub begin : {Limit : Type 0} → ℕ → List Delivery → Queue → Keyed Limit → Drain Limit
begin workers claims q k = record {
  waiting = claims;
  busy = [];
  settled = [];
  left = [];
  idle = workers;
  delivered = 0;
  retried = 0;
  dead = 0;
  dropped = 0;
  ended = false;
  gave_up = false;
  queue = q;
  limiter = k;
}

abbrev pub count : {Limit : Type 0} → Verdict → Drain Limit → Drain Limit
count delivered t = record t { delivered = suc t.delivered }
count dead t = record t { dead = suc t.dead }
count drop t = record t { dropped = suc t.dropped }
count retry t = record t { retried = suc t.retried }

-- The deliveries that the table holds as delivering on account of this drain.
abbrev pub in_flight : {Limit : Type 0} → Drain Limit → List Delivery
in_flight t = t.waiting ++ (map delivery_of t.busy ++ t.left)

-- Another process completes no delivery of this drain.
abbrev pub IsOther : {Limit : Type 0} → Drain Limit → ℕ → Type 0
IsOther t id = contains (map (λ d. d.id) (in_flight t)) id ≡ false

module _ {Limit : Type 0} (c : Codec) (format : ℕ → Text) (outside : Outside)
    (Evicts : Type 0) where
  -- After an attempt: the whole bucket is held off, the result is counted and written, and the worker
  -- is idle again.
  unfoldable pub after_attempt :
      ℕ → Fault → Delivery → Result → List Job → Drain Limit → Drain Limit
  unfolding complete
  after_attempt now fault d res others t = count res.verdict (record t {
    busy = others;
    settled = d ∷ t.settled;
    idle = suc t.idle;
    queue = (complete format now fault d res t.queue).0;
    limiter =
        if is_positive res.retry_after
        then reserve_for now d.bucket res.retry_after t.limiter
        else t.limiter;
  })

  pub data Turn : Drain Limit → Drain Limit → Type 0 where
    -- queue <- d
    hand_over :
        (t : Drain Limit) (d : Delivery) (rest : List Delivery) (n : ℕ)
        → t.waiting ≡ d ∷ rest
        → t.idle ≡ suc n
        → Turn t (record t { waiting = rest; busy = held d ∷ t.busy; idle = n })
    context_ends : (t : Drain Limit) → Turn t (record t { ended = true })
    -- The drain stops handing over, at a delivery that no worker has taken.
    give_up :
        (t : Drain Limit)
        → t.waiting ≢ []
        → t.ended ≡ true
        → Turn t (record t { waiting = []; left = t.waiting ++ t.left; gave_up = true })
    -- w.Limiter.Wait is called at `now`, and is going to return at `at`.
    sleeps :
        (t : Drain Limit) (before : List Job) (d : Delivery) (after : List Job) (now : ℕ)
        (ended : Option Text) (ask : ℕ → ℕ → Option Text) (at : ℕ)
        → t.busy ≡ before ++ held d ∷ after
        → (wait now d.bucket ended ask t.limiter).1 ≡ asked at none
        → Turn t (record t {
          busy = before ++ asleep at d ∷ after;
          limiter = (wait now d.bucket ended ask t.limiter).0;
        })
    -- It is going to return an error: the worker does nothing more.
    wait_fails :
        (t : Drain Limit) (before : List Job) (d : Delivery) (after : List Job) (now : ℕ)
        (ended : Option Text) (ask : ℕ → ℕ → Option Text)
        → t.busy ≡ before ++ held d ∷ after
        → ((at : ℕ) → (wait now d.bucket ended ask t.limiter).1 ≢ asked at none)
        → Turn t (record t {
          busy = before ++ after;
          left = d ∷ t.left;
          limiter = (wait now d.bucket ended ask t.limiter).0;
        })
    attempts :
        (t : Drain Limit) (before : List Job) (at : ℕ) (d : Delivery) (after : List Job) (now : ℕ)
        (fault : Fault) (reply : Reply)
        → t.busy ≡ before ++ asleep at d ∷ after
        → at ≤ now
        → Turn t (after_attempt now fault d (send c reply) (before ++ after) t)
    -- Another process, or the housekeeping of this one, works on the table.
    others :
        (t : Drain Limit) (q : Queue)
        → Step outside (IsOther t) t.queue q
        → Turn t (record t { queue = q })
    -- The housekeeping evicts idle buckets.
    evicts :
        (t : Drain Limit) (now : ℕ)
        → Evicts
        → Turn t (record t { limiter = (sweep now t.limiter).0 })

  pub data Reach : Drain Limit → Drain Limit → Type 0 where
    here : (t : Drain Limit) → Reach t t
    then_turn : (a b c : Drain Limit) → Reach a b → Turn b c → Reach a c
