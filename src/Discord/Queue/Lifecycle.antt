-- ===== src/Discord/Queue/Lifecycle.antt =====
-- What every history of the queue of internal/discord/queue.go keeps.
use anvil_forge.Prelude.{All-map, All, All_member, Bool, Member, arith, true, ℕ, ◌≡◌, ◌≤◌}
use anvil_forge.Discord.Sender.{max_attempts}
use anvil_forge.Discord.Rows.{Outside, Row, Queue, pending}
use anvil_forge.Discord.Queue.{claim_rows, is_due, leased}
use anvil_forge.Discord.Queue.Claims.{claim-due}
use anvil_forge.Discord.Queue.Steps.{Reach, empty, IsSound, IsValid, leased-IsSound}
use anvil_forge.Discord.Queue.Valid.{Reach-IsValid}

empty-IsValid : IsValid empty
empty-IsValid = record { keyed = λ k. omega arith; fresh = tt; sound = tt }

-- After any history of the queue from the empty one, each row that a claim hands out stood in the
-- table as pending, and not as failed, and its attempts, this one included, are at least one and at
-- most six.
pub Reach-claim :
    (outside : Outside) {q : Queue} (now lease limit : ℕ) (locked : ℕ → Bool)
    → Reach outside (λ k. Unit) empty q
    → All
        (λ x.
          (r : Row) × Member r q.rows
          × (r.status ≡ pending)
          × (x ≡ leased now lease r)
          × (1 ≤ x.attempts)
          × (x.attempts ≤ max_attempts))
        (claim_rows now locked limit lease q.rows).1
Reach-claim outside {q} now lease limit locked h =
    All-map each _ (claim-due now lease limit locked q.rows v.keyed)
  where
    v : IsValid q
    v = Reach-IsValid empty-IsValid h

    each :
        (x : Row)
        → (r : Row) × Member r q.rows × (is_due now locked r ≡ true) × (x ≡ leased now lease r)
        → (r : Row) × Member r q.rows
          × (r.status ≡ pending)
          × (x ≡ leased now lease r)
          × (1 ≤ x.attempts)
          × (x.attempts ≤ max_attempts)
    each x (r, m, d, e) =
        let (p, s) = leased-IsSound now lease locked r (All_member IsSound q.rows r v.sound m) d in
        (r, m, p, e, rw e (omega arith), rw e s.bounded)
