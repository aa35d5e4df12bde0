-- ===== src/Sweep/Moves.antt =====
-- internal/sweep/runner.go: the steps of a tick are the moves of a pool of workers.
use anvil_forge.Prelude.{Text, refl, ℕ, ◌≡◌}
use anvil_forge.Store.{Request}
use anvil_forge.Hiscores.Client.{Error, Outcome, outcome_ok, outcome_unranked, outcome_transient}
use anvil_forge.Pool
use anvil_forge.Pool.{Pool, Move}
use anvil_forge.Sweep.{
  Tick, count, finish, Step, hand_over, context_ends, give_up, wait_fails, fetch_cancelled,
  completes, others,
}

abbrev pub pool_of : Tick → Pool Request Request
pool_of t = record {
  waiting = t.waiting;
  busy = t.busy;
  completed = t.completed;
  left = t.left;
  idle = t.idle;
  ended = t.ended;
}

abbrev pub same : Request → Request
same req = req

abbrev pub one_turn : Request → ℕ
one_turn req = 1

pub pool_of-count : (o : Outcome) (t : Tick) → pool_of (count o t) ≡ pool_of t
pool_of-count outcome_ok t = refl
pool_of-count outcome_unranked t = refl
pool_of-count outcome_transient t = refl

module _ {format : ℕ → Text} {error_text : Error → Text} where
  abbrev pub Step-Move :
      {a b : Tick} → Step format error_text a b → Move same same one_turn (pool_of a) (pool_of b)
  unfolding finish
  Step-Move (hand_over t req rest n w i) = Pool.hand_over req rest n w i refl
  Step-Move (context_ends t) = Pool.context_ends refl
  Step-Move (give_up t n e) = Pool.give_up e refl
  Step-Move (others t s x) = Pool.rests refl
  Step-Move (wait_fails t before req after b) = Pool.leaves before req after b refl
  Step-Move (fetch_cancelled t before req after b e) = Pool.leaves before req after b refl
  Step-Move (completes t before req after now fault res b e) =
      Pool.completes before req after b (pool_of-count res.outcome _)
