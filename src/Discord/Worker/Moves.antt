-- ===== src/Discord/Worker/Moves.antt =====
-- internal/discord/worker.go: the turns of a drain are the moves of a pool of workers.
use anvil_forge.Prelude.{Text, refl, ℕ, ◌≡◌}
use anvil_forge.Discord.Sender.{Codec, Verdict, delivered, retry, dead, drop}
use anvil_forge.Discord.Rows.{Outside, Delivery}
use anvil_forge.Pool
use anvil_forge.Pool.{Pool, Move}
use anvil_forge.Discord.Worker.{
  Job, held, asleep, delivery_of, Drain, count, after_attempt, Turn, hand_over, context_ends,
  give_up, sleeps, wait_fails, attempts, others, evicts,
}

abbrev pub pool_of : {Limit : Type 0} → Drain Limit → Pool Delivery Job
pool_of t = record {
  waiting = t.waiting;
  busy = t.busy;
  completed = t.settled;
  left = t.left;
  idle = t.idle;
  ended = t.ended;
}

-- What a job has ahead: its call of Limiter.Wait, and its attempt.
abbrev pub turns : Job → ℕ
turns (held d) = 2
turns (asleep at d) = 1

pub pool_of-count :
    {Limit : Type 0} (v : Verdict) (t : Drain Limit) → pool_of (count v t) ≡ pool_of t
pool_of-count delivered t = refl
pool_of-count dead t = refl
pool_of-count drop t = refl
pool_of-count retry t = refl

module _ {Limit : Type 0} {c : Codec} {format : ℕ → Text} {outside : Outside}
    {Evicts : Type 0} where
  unfoldable pub Turn-Move :
      {a b : Drain Limit}
      → Turn c format outside Evicts a b
      → Move delivery_of held turns (pool_of a) (pool_of b)
  unfolding after_attempt
  Turn-Move (hand_over t d rest n w i) = Pool.hand_over d rest n w i refl
  Turn-Move (context_ends t) = Pool.context_ends refl
  Turn-Move (give_up t n e) = Pool.give_up e refl
  Turn-Move (sleeps t before d after now ended ask at b e) =
      Pool.advances before (held d) (asleep at d) after b refl refl refl
  Turn-Move (wait_fails t before d after now ended ask b e) =
      Pool.leaves before (held d) after b refl
  Turn-Move (attempts t before at d after now fault reply b e) =
      Pool.completes before (asleep at d) after b (pool_of-count _ _)
  Turn-Move (others t q s) = Pool.rests refl
  Turn-Move (evicts t now e) = Pool.rests refl
