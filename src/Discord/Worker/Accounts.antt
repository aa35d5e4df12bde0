-- ===== src/Discord/Worker/Accounts.antt =====
-- internal/discord/worker.go: every delivery of a drain is accounted for, and a drain takes a bounded
-- number of turns.
use anvil_forge.Prelude.{
  List, Text, ap, arith, if◌then◌else◌, length, refl, suc, ℕ, ◌*◌, ◌+◌, ◌<◌, ◌≡◌, ◌≤◌,
}
use anvil_forge.Discord.Sender.{Codec, Verdict, delivered, retry, dead, drop, send}
use anvil_forge.Discord.Rows.{Outside, Delivery, Queue}
use anvil_forge.Ratelimit.{Keyed}
use anvil_forge.Pool.{is_turn}
use anvil_forge.Pool.Accounts.{IsShared, begin-IsShared, Move-IsShared}
use anvil_forge.Pool.Work.{ahead, work, work-Move}
use anvil_forge.Discord.Worker.{
  Job, held, asleep, delivery_of, Drain, begin, count, after_attempt, Turn, hand_over, context_ends,
  give_up, sleeps, wait_fails, attempts, others, evicts, Reach, here, then_turn,
}
use anvil_forge.Discord.Worker.Moves.{pool_of, turns, Turn-Move}

-- Each delivery is waiting, with a worker, settled or left, as often as it was claimed, and a worker is
-- idle, busy or gone (both in `shared`); and the four numbers of the log are those settled.
pub record IsBalanced {Limit : Type 0} (workers : ℕ) (claims : List Delivery) (t : Drain Limit)
    : Type 0 where
  pub shared : IsShared delivery_of held turns workers claims (pool_of t)
  pub tallies : length t.settled ≡ t.delivered + (t.retried + (t.dead + t.dropped))

pub turns_ahead : (j : Job) → 0 < turns j
turns_ahead (held d) = omega arith
turns_ahead (asleep at d) = omega arith

module _ {Limit : Type 0} where
  abbrev IsTallied : Drain Limit → Type 0
  IsTallied t = length t.settled ≡ t.delivered + (t.retried + (t.dead + t.dropped))

  count-IsTallied :
      (v : Verdict) (t : Drain Limit)
      → length t.settled ≡ suc (t.delivered + (t.retried + (t.dead + t.dropped)))
      → IsTallied (count v t)
  count-IsTallied delivered t h = omega (arith, h)
  count-IsTallied dead t h = omega (arith, h)
  count-IsTallied drop t h = omega (arith, h)
  count-IsTallied retry t h = omega (arith, h)

module _ {Limit : Type 0} {c : Codec} {format : ℕ → Text} {outside : Outside}
    {Evicts : Type 0} where
  Turn-IsTallied :
      {a b : Drain Limit} → Turn c format outside Evicts a b → IsTallied a → IsTallied b
  unfolding after_attempt
  Turn-IsTallied (hand_over t d rest n w i) h = h
  Turn-IsTallied (context_ends t) h = h
  Turn-IsTallied (give_up t n e) h = h
  Turn-IsTallied (sleeps t before d after now ended ask at b e) h = h
  Turn-IsTallied (wait_fails t before d after now ended ask b e) h = h
  Turn-IsTallied (attempts t before at d after now fault reply b e) h =
      count-IsTallied (send c reply).verdict _ (ap suc h)
  Turn-IsTallied (others t q s) h = h
  Turn-IsTallied (evicts t now e) h = h

  module _ (workers : ℕ) (claims : List Delivery) where
    Reach-keeps :
        {a b : Drain Limit}
        → Reach c format outside Evicts a b
        → IsBalanced workers claims a
        → IsBalanced workers claims b
    Reach-keeps (here t) v = v
    Reach-keeps (then_turn x y z r s) v =
        let w = Reach-keeps r v in
        record {
          shared =
              Move-IsShared delivery_of held turns (λ d. refl) workers claims (pool_of y)
                (pool_of z) (Turn-Move s) w.shared;
          tallies = Turn-IsTallied s w.tallies;
        }

  -- The turns of a history that a worker takes, or that hand a delivery over.
  abbrev pub moves : {a b : Drain Limit} → Reach c format outside Evicts a b → ℕ
  moves (here t) = 0
  moves (then_turn a b d r s) = moves r + (if is_turn (Turn-Move s) then 1 else 0)

  work-Reach :
      {a b : Drain Limit} (r : Reach c format outside Evicts a b)
      → work delivery_of held turns 2 (pool_of b) + moves r
        ≤ work delivery_of held turns 2 (pool_of a)
  work-Reach (here t) = omega arith
  work-Reach (then_turn x y z r s) = omega (
    arith,
    work-Reach r,
    work-Move delivery_of held turns 2 (λ d. refl) turns_ahead (pool_of y) (pool_of z)
        (Turn-Move s),
  )

-- Whatever the limiter, Discord, the context and other processes do, at every moment of a drain each
-- delivery is waiting, with a worker, settled or left behind, exactly as often as it was claimed; the
-- four numbers of the log add up to the settled ones; no more workers are about than were started, and
-- no more are gone than deliveries were left behind; and at most three turns were taken for each
-- delivery: to hand it over, to call Limiter.Wait, to attempt it.
pub Reach-IsBalanced :
    {Limit : Type 0} (c : Codec) (format : ℕ → Text) (outside : Outside) (Evicts : Type 0)
    (workers : ℕ) (claims : List Delivery) (q : Queue) (k : Keyed Limit) (t : Drain Limit)
    (r : Reach c format outside Evicts (begin workers claims q k) t)
    → IsBalanced workers claims t × (moves r ≤ 3 * length claims)
unfolding ahead
Reach-IsBalanced c format outside Evicts workers claims q k t r = (
  Reach-keeps workers claims r (record {
    shared = begin-IsShared delivery_of held turns (λ d. refl) workers claims;
    tallies = refl;
  }),
  omega (arith, work-Reach r),
)
