-- ===== src/Discord/Queue/Steps.antt =====
-- The life of a delivery in internal/discord/queue.go: every operation on the queue as a step, and
-- what each history keeps.
use anvil_forge.Prelude.{
  All, Bool, List, Member, Text, [], arith, false, is_none, true, ℕ, ℤ, ◌<◌, ◌↔◌, ◌≡◌, ◌≤◌,
}
use anvil_forge.Discord.Sender.{Result, max_attempts}
use anvil_forge.Discord.Rows.{
  Outside, Row, Queue, Fault, pending, delivering, done, failed, infinity, enqueue,
}
use anvil_forge.Discord.Queue.{claim, complete, prune, to_delivery, settle, is_due, leased}
use anvil_forge.Discord.Queue.Claims.{HasKeys}

-- One operation on the queue. A worker completes what the table holds as delivering, with the
-- attempts that it was claimed with; `May` says which ids it completes.
pub data Step (outside : Outside) (May : ℕ → Type 0) (q q' : Queue) : Type 0 where
  enqueued :
      (now : ℕ) (fault : Fault) (url payload key : Text) (priority : ℤ)
      → q' ≡ (enqueue outside now fault url payload key priority q).0
      → Step outside May q q'
  claimed :
      (arrange : List Row → List Row) (now : ℕ) (locked : ℕ → Bool) (fault : Fault) (limit : ℤ)
      (lease : ℕ)
      → q' ≡ (claim arrange now locked fault limit lease q).0
      → Step outside May q q'
  completed :
      (format : ℕ → Text) (now : ℕ) (fault : Fault) (r : Row) (res : Result)
      → Member r q.rows
      → r.status ≡ delivering
      → May r.id
      → q' ≡ (complete format now fault (to_delivery r) res q).0
      → Step outside May q q'
  pruned :
      (now : ℕ) (fault : Fault) (keep : ℕ) → q' ≡ (prune now fault keep q).0 → Step outside May q q'

pub data Reach (outside : Outside) (May : ℕ → Type 0) (q : Queue) : Queue → Type 0 where
  here : Reach outside May q q
  next : {p p' : Queue} → Reach outside May q p → Step outside May p p' → Reach outside May q p'

abbrev pub empty : Queue
empty = record { rows = []; next_id = 1 }

pub record IsSound (r : Row) : Type 0 where
  pub bounded : r.attempts ≤ max_attempts
  pub waiting : r.status ≡ pending → r.attempts < max_attempts
  pub given_up : r.status ≡ failed → r.next_attempt_at ≡ infinity
  pub posted : (r.status ≡ done) ↔ (is_none r.delivered_at ≡ false)

-- Every row is sound and carries an id of its own, below the next one.
pub record IsValid (q : Queue) : Type 0 where
  pub keyed : HasKeys q.rows
  pub fresh : All (λ r. r.id < q.next_id) q.rows
  pub sound : All IsSound q.rows

pub leased-IsSound :
    (now lease : ℕ) (locked : ℕ → Bool) (r : Row)
    → IsSound r
    → is_due now locked r ≡ true
    → (r.status ≡ pending) × IsSound (leased now lease r)
leased-IsSound now lease locked r s d = ground arith

pub settle-IsSound :
    (now : ℕ) (r : Row) (res : Result)
    → IsSound r
    → r.status ≡ delivering
    → IsSound (settle now (to_delivery r) res r)
unfolding settle
settle-IsSound now r res s e = ground arith
