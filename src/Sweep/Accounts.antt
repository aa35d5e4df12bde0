-- ===== src/Sweep/Accounts.antt =====
-- internal/sweep/runner.go: every claim is accounted for.
use anvil_forge.Prelude.{
  List, Text, [], ap, arith, count_where, length, map, refl, suc, true, ℕ, ◌+◌, ◌∷◌, ◌≡◌,
}
use anvil_forge.Store.{Request, Store}
use anvil_forge.Hiscores.Client.{Outcome, outcome_ok, outcome_unranked, outcome_transient, Error}
use anvil_forge.Pool.Accounts.{IsShared, begin-IsShared, Move-IsShared}
use anvil_forge.Sweep.{
  Tick, begin, count, finish, Step, hand_over, context_ends, give_up, others, wait_fails,
  fetch_cancelled, completes, Reach, here, then_step, run_stats,
}
use anvil_forge.Sweep.Moves.{pool_of, same, one_turn, Step-Move}

-- Each claim is waiting, busy, completed or left, as often as it was claimed, and a worker is idle,
-- busy or gone (both in `shared`); and the tallies are those completed.
pub record IsAccounted (workers : ℕ) (claims : List Request) (t : Tick) : Type 0 where
  pub shared : IsShared same same one_turn workers claims (pool_of t)
  pub tallies : length t.completed ≡ t.fetched + (t.unranked + t.errs)

tallies-count :
    (o : Outcome) (t : Tick)
    → length t.completed ≡ suc (t.fetched + (t.unranked + t.errs))
    → length (count o t).completed ≡ (count o t).fetched + ((count o t).unranked + (count o t).errs)
tallies-count outcome_ok t h = omega (arith, h)
tallies-count outcome_unranked t h = omega (arith, h)
tallies-count outcome_transient t h = omega (arith, h)

module _ (format : ℕ → Text) (error_text : Error → Text) (workers : ℕ) (claims : List Request) where
  Step-tallies :
      (a b : Tick)
      → Step format error_text a b
      → length a.completed ≡ a.fetched + (a.unranked + a.errs)
      → length b.completed ≡ b.fetched + (b.unranked + b.errs)
  unfolding finish
  Step-tallies a b (hand_over t req rest n e i) h = h
  Step-tallies a b (context_ends t) h = h
  Step-tallies a b (give_up t n e) h = h
  Step-tallies a b (others t s x) h = h
  Step-tallies a b (wait_fails t before req after e) h = h
  Step-tallies a b (fetch_cancelled t before req after e k) h = h
  Step-tallies a b (completes t before req after now fault res e k) h =
      tallies-count res.outcome _ (omega (arith, h))

  Reach-keeps :
      (a b : Tick)
      → Reach format error_text a b
      → IsAccounted workers claims a
      → IsAccounted workers claims b
  Reach-keeps a b (here t) v = v
  Reach-keeps a b (then_step x y z r s) v =
      let w = Reach-keeps x y r v in
      record {
        shared =
            Move-IsShared same same one_turn (λ a. refl) workers claims (pool_of y) (pool_of z)
              (Step-Move s) w.shared;
        tallies = Step-tallies y z s w.tallies;
      }

-- Whatever the limiter, the fetches and the context do, at every moment of a tick each claim is
-- waiting, with a worker, completed or left to its lease, exactly as often as it was claimed; the
-- three tallies add up to the completed ones; and no more workers are about than were started, and no
-- more are gone than claims were left.
pub Reach-IsAccounted :
    (format : ℕ → Text) (error_text : Error → Text) (workers : ℕ) (claims : List Request)
    (s : Store) (t : Tick)
    → Reach format error_text (begin workers claims s) t
    → IsAccounted workers claims t
Reach-IsAccounted format error_text workers claims s t r =
    Reach-keeps format error_text workers claims (begin workers claims s) t r (record {
      shared = begin-IsShared same same one_turn (λ a. refl) workers claims;
      tallies = refl;
    })

-- When all is handed over and every worker is done, the run log's claims are its three tallies and
-- those left to their lease.
run_stats-balance :
    (workers : ℕ) (claims : List Request) (t : Tick) (backlog : ℕ)
    → IsAccounted workers claims t
    → t.waiting ≡ []
    → t.busy ≡ []
    → (let st = run_stats backlog claims t in
        st.claimed ≡ st.fetched + (st.unranked + st.errors) + length t.left)
unfolding run_stats
run_stats-balance workers claims t backlog v w b =
    let places = v.shared.places (λ x. true) in
    omega (
      arith,
      places,
      v.tallies,
      all claims,
      all t.completed,
      all t.left,
      ap (count_where λ x. true) w,
      ap (λ xs. count_where (λ x. true) (map same xs)) b,
    )
  where
    all : (xs : List Request) → count_where (λ x. true) xs ≡ length xs
    all [] = refl
    all (x ∷ xs) = omega (arith, all xs)
