-- ===== src/Discord/Worker/Run.antt =====
-- internal/discord/worker.go: `Run`, its drains, and the housekeeping beside them.
--
-- How long it idles between two drains is not modelled: anything may happen to the table meanwhile.
pub mod Housekeeping
pub mod Queues
pub mod Batches
use anvil_forge.Prelude.{
  Bool, List, Text, [], codes, false, if◌then◌else◌, length, ltbℤ, pos, to_ℕ, true, ℕ, ℤ, ◌∷◌, ◌≡◌,
}
use anvil_forge.Discord.Sender.{Codec}
use anvil_forge.Discord.Rows.{Outside, Row, Queue, Delivery, Fault, Outcome, ok, err}
use anvil_forge.Discord.Queue.{claim, prune, stats, Stats}
use anvil_forge.Discord.Queue.Steps.{Step}
use anvil_forge.Ratelimit.{Keyed, sweep}
use anvil_forge.Discord.Worker.{Drain, begin, Reach}
use anvil_forge.Discord.Worker.Flights.Claimed.{IsRearrangement}

-- The settings of a worker. Its lease and its retention are not negative.
pub record Worker : Type 0 where
  pub workers : ℤ
  pub claim_batch : ℤ
  pub claim_lease : ℕ
  pub tick_every : ℤ
  pub keep_delivered : ℕ

pub data Phase : Type 0 where
  draining idling stopped : Phase

-- What a worker keeps from one drain to the next.
pub record Process (Limit : Type 0) : Type 0 where
  pub queue : Queue
  pub limiter : Keyed Limit
  pub phase : Phase

abbrev context_canceled : Text
context_canceled = codes "context canceled"

-- What drain returns for its claims when its workers are done.
abbrev pub drain_result : {Limit : Type 0} → List Delivery → Drain Limit → Outcome ℕ
drain_result claims t = if t.gave_up then err context_canceled else ok (length claims)

-- What Run does next. `ended` says whether the context has ended.
abbrev pub after_drain : ℤ → Bool → Outcome ℕ → Phase
after_drain batch ended (err e) = if ended then stopped else idling
after_drain batch ended (ok n) = if ltbℤ (pos n) batch then idling else draining

-- One round of the housekeeping; the log line of the queue is what it returns.
unfoldable pub housekeep :
    {Limit : Type 0} → ℕ → Fault → Fault → Worker → Process Limit → Process Limit × Outcome Stats
housekeep now pruning reading w p =
    let q = (prune now pruning w.keep_delivered p.queue).0 in
    (record p { limiter = (sweep now p.limiter).0; queue = q }, stats now reading q)

module _ {Limit : Type 0} (c : Codec) (format : ℕ → Text) (outside : Outside) (w : Worker) where
  -- One drain, from its claim to the end of its workers: the table and the limiter afterwards, whether
  -- the context is known to have ended, and the result.
  pub data Drains (q : Queue) (k : Keyed Limit)
      : Queue → Keyed Limit → Bool → Outcome ℕ → Type 0 where
    claim_fails :
        (arrange : List Row → List Row) (now : ℕ) (locked : ℕ → Bool) (fault : Fault) (e : Text)
        → (claim arrange now locked fault w.claim_batch w.claim_lease q).1 ≡ err e
        → Drains q k
            (claim arrange now locked fault w.claim_batch w.claim_lease q).0
            k
            false
            (err e)
    claims_none :
        (arrange : List Row → List Row) (now : ℕ) (locked : ℕ → Bool) (fault : Fault)
        → (claim arrange now locked fault w.claim_batch w.claim_lease q).1 ≡ ok []
        → Drains q k (claim arrange now locked fault w.claim_batch w.claim_lease q).0 k false (ok 0)
    works :
        (arrange : List Row → List Row) (now : ℕ) (locked : ℕ → Bool) (fault : Fault) (d : Delivery)
        (ds : List Delivery) (t : Drain Limit)
        → IsRearrangement arrange
        → (claim arrange now locked fault w.claim_batch w.claim_lease q).1 ≡ ok (d ∷ ds)
        → Reach c format outside Unit
            (begin
              (to_ℕ w.workers)
              (d ∷ ds)
              (claim arrange now locked fault w.claim_batch w.claim_lease q).0
              k)
            t
        → t.waiting ≡ []
        → t.busy ≡ []
        → Drains q k t.queue t.limiter t.ended (drain_result (d ∷ ds) t)

  pub data Runs (p : Process Limit) : Process Limit → Type 0 where
    drains :
        (q : Queue) (k : Keyed Limit) (known ended : Bool) (r : Outcome ℕ)
        → p.phase ≡ draining
        → Drains p.queue p.limiter q k known r
        → (known ≡ true → ended ≡ true)
        → Runs p (record { queue = q; limiter = k; phase = after_drain w.claim_batch ended r })
    -- <-ticker.C
    ticks : p.phase ≡ idling → Runs p (record p { phase = draining })
    -- <-ctx.Done()
    stops : p.phase ≡ idling → Runs p (record p { phase = stopped })
    -- Another process works on the table.
    elsewhere : (q : Queue) → Step outside (λ k. Unit) p.queue q → Runs p (record p { queue = q })
    keeps_house : (now : ℕ) (pruning reading : Fault) → Runs p (housekeep now pruning reading w p).0

  pub data History : Process Limit → Process Limit → Type 0 where
    here : (p : Process Limit) → History p p
    next : (p p' p'' : Process Limit) → History p p' → Runs p' p'' → History p p''
