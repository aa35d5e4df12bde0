-- ===== src/Discord/Worker/Flights.antt =====
-- internal/discord/worker.go: what the table holds for the deliveries of a drain.
pub mod Effects
pub mod Turns
pub mod Claimed
use anvil_forge.Prelude.{
  ==_iff, All, Bool, List, Member, Text, [], ap, arith, count_where, if◌then◌else◌, map, refl,
  subst, sym, ℕ, ◌++◌, ◌+◌, ◌==◌, ◌∷◌, ◌≡◌, ◌≢◌, ◌≤◌,
}
use anvil_forge.Discord.Rows.{Outside, Row, Queue, Delivery, delivering}
use anvil_forge.Discord.Queue.{to_delivery}
use anvil_forge.Discord.Queue.Steps.{IsValid}
use anvil_forge.Discord.Queue.Steps
use anvil_forge.Discord.Queue.Stranded.{Reach-Member}
use anvil_forge.Discord.Worker.{Job, delivery_of, Drain}

-- The row of a delivery in flight is delivering, and gives the delivery.
abbrev pub IsHeld : Queue → Delivery → Type 0
IsHeld q d = (r : Row) × Member r q.rows × (r.status ≡ delivering) × (to_delivery r ≡ d)

abbrev pub has_id : ℕ → Delivery → Bool
has_id k d = d.id == k

abbrev pub jobs : {Limit : Type 0} → Drain Limit → List Delivery
jobs t = map delivery_of t.busy

-- The table is valid, holds each delivery in flight, and no id is in flight twice.
pub record InFlight {Limit : Type 0} (t : Drain Limit) : Type 0 where
  pub valid : IsValid t.queue
  pub waiting : All (IsHeld t.queue) t.waiting
  pub busy : All (IsHeld t.queue) (jobs t)
  pub left : All (IsHeld t.queue) t.left
  pub apart :
      (k : ℕ)
      → count_where (has_id k) t.waiting
          + (count_where (has_id k) (jobs t) + count_where (has_id k) t.left)
        ≤ 1

-- A delivery stays held while no step completes it.
pub Reach-IsHeld :
    (outside : Outside) (May : ℕ → Type 0) (q q' : Queue) (d : Delivery)
    → ((k : ℕ) → May k → k ≢ d.id)
    → IsValid q
    → Steps.Reach outside May q q'
    → IsHeld q d
    → IsHeld q' d
Reach-IsHeld outside May q q' d spared v h (r, m, s, e) = (
  r,
  Reach-Member outside May r (λ now locked. ground arith) (λ now keep. ground arith)
      (λ k n. subst (λ (x : ℕ). k ≢ x) (ap (λ (d : Delivery). d.id) (sym e)) (spared k n)) v h m,
  s,
  e,
)

-- Splitting the list of jobs at one of them.
pub All-jobs :
    (P : Delivery → Type 0) (before : List Job) (j : Job) (after : List Job)
    → All P (map delivery_of (before ++ j ∷ after))
    → P (delivery_of j) × All P (map delivery_of (before ++ after))
All-jobs P [] j after h = h
All-jobs P (i ∷ before) j after h = let r = All-jobs P before j after h.1 in (r.0, (h.0, r.1))

pub All-jobs_back :
    (P : Delivery → Type 0) (before : List Job) (j : Job) (after : List Job)
    → P (delivery_of j)
    → All P (map delivery_of (before ++ after))
    → All P (map delivery_of (before ++ j ∷ after))
All-jobs_back P [] j after x h = (x, h)
All-jobs_back P (i ∷ before) j after x h = (h.0, All-jobs_back P before j after x h.1)

pub count-jobs :
    (k : ℕ) (before : List Job) (j : Job) (after : List Job)
    → count_where (has_id k) (map delivery_of (before ++ j ∷ after))
      ≡ (if has_id k (delivery_of j) then 1 else 0)
        + count_where (has_id k) (map delivery_of (before ++ after))
count-jobs k [] j after = refl
count-jobs k (i ∷ before) j after = omega (arith, count-jobs k before j after)

-- Members of a list in which an id does not stand have other ids.
pub All-apart :
    (k : ℕ) (ds : List Delivery) → count_where (has_id k) ds ≡ 0 → All (λ d. d.id ≢ k) ds
All-apart k [] h = tt
All-apart k (d ∷ ds) h = (ground (arith, ==_iff d.id k), All-apart k ds (omega (arith, h)))
