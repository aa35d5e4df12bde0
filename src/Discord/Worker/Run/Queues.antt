-- ===== src/Discord/Worker/Run/Queues.antt =====
-- internal/discord/worker.go: a run of the worker, as a history of the table.
use anvil_forge.Prelude.{Bool, Text, refl, to_ℕ, ℕ, ◌∷◌}
use anvil_forge.Discord.Sender.{Codec}
use anvil_forge.Discord.Rows.{Outside, Queue, Outcome}
use anvil_forge.Discord.Queue.Steps.{claimed, pruned, IsValid}
use anvil_forge.Discord.Queue.Steps
use anvil_forge.Discord.Queue.Valid.{Reach-IsValid}
use anvil_forge.Ratelimit.{Keyed}
use anvil_forge.Discord.Worker.Flights.Claimed.{claim-InFlight}
use anvil_forge.Discord.Worker.Refinement.{Reach-Steps, Reach-append}
use anvil_forge.Discord.Worker.Run.{
  Worker, Process, Drains, claim_fails, claims_none, works, Runs, drains, ticks, stops, elsewhere,
  keeps_house, housekeep, History, here, next,
}

module _ {Limit : Type 0} {c : Codec} {format : ℕ → Text} {outside : Outside} {w : Worker} where
  -- A drain is its claim and what its workers do.
  Drains-Steps :
      {q q' : Queue} {k k' : Keyed Limit} {known : Bool} {r : Outcome ℕ}
      → IsValid q
      → Drains c format outside w q k q' k' known r
      → Steps.Reach outside (λ k. Unit) q q'
  Drains-Steps v (claim_fails arrange now locked fault e h) =
      Steps.next Steps.here (claimed arrange now locked fault w.claim_batch w.claim_lease refl)
  Drains-Steps v (claims_none arrange now locked fault h) =
      Steps.next Steps.here (claimed arrange now locked fault w.claim_batch w.claim_lease refl)
  Drains-Steps {q} {k = k} v (works arrange now locked fault d ds t p h r a b) =
      Reach-append
        (Steps.next Steps.here (claimed arrange now locked fault w.claim_batch w.claim_lease refl))
        (Reach-Steps
          (claim-InFlight outside arrange now locked fault w.claim_batch w.claim_lease
            (to_ℕ w.workers) q (d ∷ ds) k p v h)
          r)

  Runs-Steps :
      {p p' : Process Limit}
      → IsValid p.queue
      → Runs c format outside w p p'
      → Steps.Reach outside (λ k. Unit) p.queue p'.queue
  unfolding housekeep
  Runs-Steps v (drains q k known ended r e d i) = Drains-Steps v d
  Runs-Steps v (ticks e) = Steps.here
  Runs-Steps v (stops e) = Steps.here
  Runs-Steps v (elsewhere q s) = Steps.next Steps.here s
  Runs-Steps v (keeps_house now pruning reading) =
      Steps.next Steps.here (pruned now pruning w.keep_delivered refl)

  -- Whatever a worker does from a valid table on, through all its drains, with whatever else happens to
  -- the table, is a history of the operations of the queue, so the table stays valid.
  pub History-Steps :
      {p p' : Process Limit}
      → IsValid p.queue
      → History c format outside w p p'
      → Steps.Reach outside (λ k. Unit) p.queue p'.queue × IsValid p'.queue
  History-Steps v (here p) = (Steps.here, v)
  History-Steps v (next a b d h s) =
      let r = History-Steps v h in
      let r' = Reach-append r.0 (Runs-Steps r.1 s) in (r', Reach-IsValid v r')
