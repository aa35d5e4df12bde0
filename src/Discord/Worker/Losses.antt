-- ===== src/Discord/Worker/Losses.antt =====
-- internal/discord/worker.go: what becomes of the deliveries that a drain has not settled when its
-- process ends.
use anvil_forge.Prelude.{
  ==_iff, ==_refl, All, All-map, Bool, Bool-cases, List, Member, Text, [], ap, arith,
  count_of_member, count_where, inl, inr, leb, subst, sym, ℕ, ℤ, ◌+◌, ◌==◌, ◌∙◌, ◌∷◌, ◌≡◌, ◌≢◌, ◌≤◌,
}
use anvil_forge.Discord.Sender.{Codec}
use anvil_forge.Discord.Rows.{Outside, Row, Queue, Delivery, Fault, ok, delivering}
use anvil_forge.Discord.Queue.{claim, claim_rows}
use anvil_forge.Discord.Queue.Steps.{IsValid}
use anvil_forge.Discord.Queue.Steps
use anvil_forge.Discord.Queue.Stranded.{delivering-Member}
use anvil_forge.Ratelimit.{Keyed}
use anvil_forge.Discord.Worker.{Drain, begin, Reach}
use anvil_forge.Discord.Worker.Accounts.{Reach-IsBalanced}
use anvil_forge.Discord.Worker.Flights.{IsHeld, has_id, jobs, InFlight}
use anvil_forge.Discord.Worker.Flights.Turns.{Reach-InFlight}
use anvil_forge.Discord.Worker.Flights.Claimed.{IsRearrangement, claim-InFlight}

abbrev IsDelivering : ℕ → Queue → Type 0
IsDelivering k q = (r : Row) × Member r q.rows × (r.status ≡ delivering) × (r.id ≡ k)

held-IsDelivering :
    (k : ℕ) (q : Queue) (ds : List Delivery)
    → All (IsHeld q) ds
    → 1 ≤ count_where (has_id k) ds
    → IsDelivering k q
held-IsDelivering k q [] h n = absurd (omega (arith, n))
held-IsDelivering k q (d ∷ ds) h n = elim (Bool-cases (d.id == k)) [
  | inl e ↦ let (r, m, s, i) = h.0 in (r, m, s, ap (λ (d : Delivery). d.id) i ∙ (==_iff d.id k).0 e)
  | inr e ↦ held-IsDelivering k q ds h.1 (ground (arith, n))
]

flight-IsDelivering :
    {Limit : Type 0} (k : ℕ) (t : Drain Limit)
    → InFlight t
    → 1
      ≤ count_where (has_id k) t.waiting
        + (count_where (has_id k) (jobs t) + count_where (has_id k) t.left)
    → IsDelivering k t.queue
flight-IsDelivering k t f n = elim (Bool-cases (leb 1 (count_where (has_id k) t.waiting))) [
  | inl h ↦ held-IsDelivering k t.queue t.waiting f.waiting (ground (arith, h))
  | inr h ↦ elim (Bool-cases (leb 1 (count_where (has_id k) (jobs t)))) [
    | inl i ↦ held-IsDelivering k t.queue (jobs t) f.busy (ground (arith, i))
    | inr i ↦ held-IsDelivering k t.queue t.left f.left (ground (arith, n, h, i))
  ]
]

-- Take a claim on a valid table and, at any moment of the drain that it starts, a message of the claim
-- that was not given to Complete. If it is not completed from then on, because the process has ended
-- or its worker is gone, then whatever else happens to the table, for however long, its row stays
-- delivering, and no claim hands it out again: the message is lost.
pub claim-lost :
    {Limit : Type 0} (c : Codec) (format : ℕ → Text) (outside : Outside) (Evicts : Type 0)
    (arrange : List Row → List Row) (start : ℕ) (locked : ℕ → Bool) (fault : Fault) (limit : ℤ)
    (lease workers : ℕ) (q : Queue) (ds : List Delivery) (k : Keyed Limit) (t : Drain Limit)
    (d : Delivery) (q' : Queue)
    → IsRearrangement arrange
    → IsValid q
    → (claim arrange start locked fault limit lease q).1 ≡ ok ds
    → Reach c format outside Evicts
        (begin workers ds (claim arrange start locked fault limit lease q).0 k)
        t
    → Member d ds
    → count_where (has_id d.id) t.settled ≡ 0
    → Steps.Reach outside (λ k. k ≢ d.id) t.queue q'
    → ((r : Row) × Member r q'.rows × (r.status ≡ delivering) × (r.id ≡ d.id))
      × ((now' lease' limit' : ℕ) (locked' : ℕ → Bool)
          → All (λ x. x.id ≢ d.id) (claim_rows now' locked' limit' lease' q'.rows).1)
claim-lost c format outside Evicts arrange start locked fault limit lease workers q ds k t d q' p v
      e h m z w =
    let f =
      Reach-InFlight h
        (claim-InFlight outside arrange start locked fault limit lease workers q ds k p v e) in
    let accounts =
      Reach-IsBalanced c format outside Evicts workers ds
        (claim arrange start locked fault limit lease q).0 k t h in
    let places = accounts.0.shared.places (has_id d.id) in
    let (r, n, s, i) =
      flight-IsDelivering d.id t f
        (omega (arith, places, z, count_of_member (has_id d.id) ds d m (==_refl d.id))) in
    let (there, never) =
      delivering-Member outside r f.valid n s
        (subst (λ (j : ℕ). Steps.Reach outside (λ k. k ≢ j) t.queue q') (sym i) w) in
    (
      (r, there, s, i),
      λ now' lease' limit' locked'.
          All-map (λ x ne o. ne (o ∙ sym i)) _ (never now' lease' limit' locked'),
    )
