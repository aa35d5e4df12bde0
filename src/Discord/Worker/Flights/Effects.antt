-- ===== src/Discord/Worker/Flights/Effects.antt =====
-- internal/discord/worker.go: what a step on the table does to the deliveries in flight.
use anvil_forge.Prelude.{
  ==_iff, ==_refl, All, All-Member, All-both, All-map, List, Member, Member-append,
  Member-append_right, Text, any_of_member, ap, arith, contains-keys, count_where, map, refl, subst,
  sym, ℕ, ◌++◌, ◌+◌, ◌∙◌, ◌∷◌, ◌≡◌, ◌≢◌,
}
use anvil_forge.Discord.Sender.{Result, Verdict, delivered, retry, dead, drop}
use anvil_forge.Discord.Rows.{Outside, Queue, Delivery, Fault}
use anvil_forge.Discord.Queue.{complete}
use anvil_forge.Discord.Queue.Steps.{Step, completed, IsValid}
use anvil_forge.Discord.Queue.Steps
use anvil_forge.Discord.Queue.Valid.{Step-IsValid}
use anvil_forge.Discord.Worker.{Job, delivery_of, Drain, count, IsOther, in_flight}
use anvil_forge.Discord.Worker.Flights.{
  IsHeld, has_id, jobs, InFlight, Reach-IsHeld, All-jobs, count-jobs, All-apart,
}

-- Completing a delivery that the table holds is a step of the queue.
pub IsHeld-Step :
    (outside : Outside) (format : ℕ → Text) (now : ℕ) (fault : Fault) (q : Queue) (d : Delivery)
    (res : Result)
    → IsHeld q d
    → Step outside (λ k. k ≡ d.id) q (complete format now fault d res q).0
IsHeld-Step outside format now fault q d res (r, m, s, e) =
    subst (λ (d : Delivery). Step outside (λ k. k ≡ d.id) q (complete format now fault d res q).0) e
      (completed format now fault r res m s refl refl)

other-apart :
    {Limit : Type 0} (t : Drain Limit) (d : Delivery)
    → Member d (in_flight t)
    → (k : ℕ) → IsOther t k
    → k ≢ d.id
other-apart t d m k o e = ground (
  arith,
  o,
  contains-keys (λ (d : Delivery). d.id) (in_flight t) k,
  any_of_member (has_id k) (in_flight t) d m,
  ==_iff d.id k,
)

module _ {Limit : Type 0} where
  pub count-InFlight : (v : Verdict) (t : Drain Limit) → InFlight t → InFlight (count v t)
  count-InFlight delivered t f = record {
    valid = f.valid;
    waiting = f.waiting;
    busy = f.busy;
    left = f.left;
    apart = f.apart;
  }
  count-InFlight dead t f = record {
    valid = f.valid;
    waiting = f.waiting;
    busy = f.busy;
    left = f.left;
    apart = f.apart;
  }
  count-InFlight drop t f = record {
    valid = f.valid;
    waiting = f.waiting;
    busy = f.busy;
    left = f.left;
    apart = f.apart;
  }
  count-InFlight retry t f = record {
    valid = f.valid;
    waiting = f.waiting;
    busy = f.busy;
    left = f.left;
    apart = f.apart;
  }

  -- The deliveries in flight, when the table takes a step that completes none of them.
  pub moved-InFlight :
      (outside : Outside) (t : Drain Limit) (q : Queue)
      → Step outside (IsOther t) t.queue q
      → InFlight t
      → InFlight (record t { queue = q })
  moved-InFlight outside t q s f = record {
    valid = Step-IsValid s f.valid;
    waiting = each t.waiting f.waiting (λ d m. Member-append t.waiting _ d m);
    busy =
        each (jobs t) f.busy
          (λ d m. Member-append_right t.waiting _ d (Member-append (jobs t) t.left d m));
    left =
        each t.left f.left
          (λ d m. Member-append_right t.waiting _ d (Member-append_right (jobs t) t.left d m));
    apart = f.apart;
  }
    where
      each :
          (ds : List Delivery)
          → All (IsHeld t.queue) ds
          → ((d : Delivery) → Member d ds → Member d (in_flight t))
          → All (IsHeld q) ds
      each ds h within =
          All-map
            (λ d x.
              Reach-IsHeld outside (IsOther t) t.queue q d (other-apart t d (within d x.1)) f.valid
                (Steps.next Steps.here s) x.0)
            ds (All-both (IsHeld t.queue) (λ d. Member d ds) ds h (All-Member ds))

  -- And when a worker completes its own.
  pub settled-InFlight :
      (outside : Outside) (format : ℕ → Text) (now : ℕ) (fault : Fault) (res : Result)
      (t : Drain Limit) (before : List Job) (j : Job) (after : List Job)
      → t.busy ≡ before ++ j ∷ after
      → InFlight t
      → InFlight (record t {
        busy = before ++ after;
        queue = (complete format now fault (delivery_of j) res t.queue).0;
      })
  settled-InFlight outside format now fault res t before j after b f = record {
    valid = Step-IsValid step f.valid;
    waiting = each t.waiting f.waiting (omega (arith, f.apart d.id, once));
    busy = each _ mine.1 (omega (arith, f.apart d.id, once));
    left = each t.left f.left (omega (arith, f.apart d.id, once));
    apart = λ k. omega (
      arith,
      f.apart k,
      ap (λ js. count_where (has_id k) (map delivery_of js)) b,
      count-jobs k before j after,
    );
  }
    where
      d : Delivery
      d = delivery_of j

      q : Queue
      q = (complete format now fault d res t.queue).0

      mine : IsHeld t.queue d × All (IsHeld t.queue) (map delivery_of (before ++ after))
      mine =
          All-jobs (IsHeld t.queue) before j after
            (subst (λ js. All (IsHeld t.queue) (map delivery_of js)) b f.busy)

      step : Step outside (λ k. k ≡ d.id) t.queue q
      step = IsHeld-Step outside format now fault t.queue d res mine.0

      once :
          count_where (has_id d.id) (jobs t)
          ≡ 1 + count_where (has_id d.id) (map delivery_of (before ++ after))
      once =
          ap (λ js. count_where (has_id d.id) (map delivery_of js)) b
          ∙ count-jobs d.id before j after
          ∙ ground (arith, ==_refl d.id)

      each :
          (ds : List Delivery)
          → All (IsHeld t.queue) ds
          → count_where (has_id d.id) ds ≡ 0
          → All (IsHeld q) ds
      each ds h z =
          All-map
            (λ x y.
              Reach-IsHeld outside (λ k. k ≡ d.id) t.queue q x (λ k e n. y.1 (sym n ∙ e)) f.valid
                (Steps.next Steps.here step) y.0)
            ds (All-both (IsHeld t.queue) (λ x. x.id ≢ d.id) ds h (All-apart d.id ds z))
