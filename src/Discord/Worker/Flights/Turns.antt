-- ===== src/Discord/Worker/Flights/Turns.antt =====
-- internal/discord/worker.go: every turn keeps what the table holds for the deliveries in flight.
use anvil_forge.Prelude.{
  All, All-append, Text, ap, arith, count_where, count_where-append, map, subst, ℕ,
}
use anvil_forge.Discord.Rows.{Outside}
use anvil_forge.Discord.Sender.{Codec, send}
use anvil_forge.Discord.Worker.{
  held, asleep, delivery_of, Drain, after_attempt, Turn, hand_over, context_ends, give_up, sleeps,
  wait_fails, attempts, others, evicts, Reach, here, then_turn,
}
use anvil_forge.Discord.Worker.Flights.{
  IsHeld, has_id, InFlight, All-jobs, All-jobs_back, count-jobs,
}
use anvil_forge.Discord.Worker.Flights.Effects.{count-InFlight, moved-InFlight, settled-InFlight}

module _ {Limit : Type 0} {c : Codec} {format : ℕ → Text} {outside : Outside}
    {Evicts : Type 0} where
  pub Turn-InFlight :
      {a b : Drain Limit} → Turn c format outside Evicts a b → InFlight a → InFlight b
  unfolding after_attempt
  Turn-InFlight {a} (hand_over t d rest n w i) f =
      let h = subst (All (IsHeld t.queue)) w f.waiting in
      record {
        valid = f.valid;
        waiting = h.1;
        busy = (h.0, f.busy);
        left = f.left;
        apart = λ k. omega (arith, f.apart k, ap (count_where (has_id k)) w);
      }
  Turn-InFlight (context_ends t) f = record {
    valid = f.valid;
    waiting = f.waiting;
    busy = f.busy;
    left = f.left;
    apart = f.apart;
  }
  Turn-InFlight (give_up t n e) f = record {
    valid = f.valid;
    waiting = tt;
    busy = f.busy;
    left = All-append (IsHeld t.queue) t.waiting t.left f.waiting f.left;
    apart = λ k. omega (arith, f.apart k, count_where-append (has_id k) t.waiting t.left);
  }
  Turn-InFlight (sleeps t before d after now ended ask at b e) f =
      let r =
        All-jobs (IsHeld t.queue) before (held d) after
          (subst (λ js. All (IsHeld t.queue) (map delivery_of js)) b f.busy) in
      record {
        valid = f.valid;
        waiting = f.waiting;
        busy = All-jobs_back (IsHeld t.queue) before (asleep at d) after r.0 r.1;
        left = f.left;
        apart = λ k. omega (
          arith,
          f.apart k,
          ap (λ js. count_where (has_id k) (map delivery_of js)) b,
          count-jobs k before (held d) after,
          count-jobs k before (asleep at d) after,
        );
      }
  Turn-InFlight (wait_fails t before d after now ended ask b e) f =
      let r =
        All-jobs (IsHeld t.queue) before (held d) after
          (subst (λ js. All (IsHeld t.queue) (map delivery_of js)) b f.busy) in
      record {
        valid = f.valid;
        waiting = f.waiting;
        busy = r.1;
        left = (r.0, f.left);
        apart = λ k. omega (
          arith,
          f.apart k,
          ap (λ js. count_where (has_id k) (map delivery_of js)) b,
          count-jobs k before (held d) after,
        );
      }
  Turn-InFlight (attempts t before at d after now fault reply b e) f =
      let g =
        settled-InFlight outside format now fault (send c reply) t before (asleep at d) after b f in
      count-InFlight (send c reply).verdict _ (record {
        valid = g.valid;
        waiting = g.waiting;
        busy = g.busy;
        left = g.left;
        apart = g.apart;
      })
  Turn-InFlight (others t q s) f = moved-InFlight outside t q s f
  Turn-InFlight (evicts t now e) f = record {
    valid = f.valid;
    waiting = f.waiting;
    busy = f.busy;
    left = f.left;
    apart = f.apart;
  }

  pub Reach-InFlight :
      {a b : Drain Limit} → Reach c format outside Evicts a b → InFlight a → InFlight b
  Reach-InFlight (here t) f = f
  Reach-InFlight (then_turn x y z r s) f = Turn-InFlight s (Reach-InFlight r f)
