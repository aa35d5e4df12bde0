-- ===== src/Sweep/Tests.antt =====
-- Histories of a tick, and its theorems at concrete inputs.
use anvil_forge.Prelude.{
  ◌↔◌, count_where, length, List, Text, [], arith, codes, false, none, pos, refl, ℕ, ◌∷◌, ◌≡◌,
}
use anvil_forge.Store.{is_due, Request, Store, claim, no_fault, ok}
use anvil_forge.Store.Tests.{free, fetch}
use anvil_forge.Sweep.Run.{Runner, ticking, waiting, conclude, after_tick, ticks, concludes}
use anvil_forge.Sweep.Run
use anvil_forge.Store.Lanes.{HasKeys}
use anvil_forge.Sweep.Run.Pace.{claim-waiting_iff}
use anvil_forge.Hiscores.Client.{Error, Result, outcome_unranked}
use anvil_forge.Sweep.{
  Tick, begin, hand_over, wait_fails, completes, finish, Reach, here, then_step,
}
use anvil_forge.Sweep.Accounts.{IsAccounted, Reach-IsAccounted}
use anvil_forge.Sweep.Stalls.{IsStalled, IsDeserted, begin-IsStalled}

abbrev no_text : ℕ → Text
no_text n = []

abbrev no_error : Error → Text
no_error e = []

abbrev request : ℕ → Request
request n = record { id = n; rsn = codes "a"; mode = codes "main" }

abbrev two : List Request
two = request 1 ∷ request 2 ∷ []

abbrev store : Store
store = record { fetches = []; runs = []; dry_run = false }

abbrev started : Tick
started = begin 1 two store

abbrev handed : Tick
handed = record started { waiting = request 2 ∷ []; busy = request 1 ∷ []; idle = 0 }

abbrev refused : Tick
refused = record handed { busy = []; left = request 1 ∷ [] }

abbrev history : Reach no_text no_error started refused
history =
    then_step started handed refused
      (then_step started started handed (here started)
        (hand_over started (request 1) (request 2 ∷ []) 0 refl refl))
      (wait_fails handed [] (request 1) [] refl)

Reach-IsAccounted_example : IsAccounted 1 two refused
Reach-IsAccounted_example = Reach-IsAccounted no_text no_error 1 two store refused history

begin-IsStalled_example :
    (t : Tick) × Reach no_text no_error (begin 1 two store) t
    × IsDeserted no_text no_error t
    × IsStalled no_text no_error t
begin-IsStalled_example = begin-IsStalled no_text no_error 1 two store (omega arith)

-- A tick of one worker on one fetch, from its claim to the run log.
abbrev runner : Runner
runner = record { workers = pos 1; claim_batch = pos 2; claim_lease = 10; tick_interval = pos 5 }

abbrev asked : Store
asked = record { fetches = fetch 1 (pos 0) 5 ∷ []; runs = []; dry_run = false }

abbrev zezima : Request
zezima = record { id = 1; rsn = codes "Zezima"; mode = codes "main" }

abbrev claims : List Request
claims = zezima ∷ []

abbrev after_claim : Store
after_claim = (claim 100 free no_fault (pos 2) 10 asked).0

asked-HasKeys : HasKeys asked.fetches
asked-HasKeys k = ground arith

claims_one : (claim 100 free no_fault (pos 2) 10 asked).1 ≡ ok claims
unfolding claim
claims_one = refl

abbrev fetching : Tick
fetching = record (begin 1 claims after_claim) { waiting = []; busy = claims; idle = 0 }

abbrev unranked_result : Result
unranked_result = record { outcome = outcome_unranked; body = []; err = none }

abbrev tick_done : Tick
tick_done = finish no_text no_error 120 no_fault unranked_result zezima [] fetching

abbrev tick_Reach : Reach no_text no_error (begin 1 claims after_claim) tick_done
tick_Reach =
    then_step _ _ _
      (then_step _ _ _ (here (begin 1 claims after_claim))
        (hand_over (begin 1 claims after_claim) zezima [] 0 refl refl))
      (completes fetching [] zezima [] 120 no_fault unranked_result refl refl)

tick_over : (tick_done.waiting ≡ []) × (tick_done.busy ≡ []) × (tick_done.gave_up ≡ false)
unfolding finish
tick_over = (refl, refl, refl)

abbrev recorded_store : Store
recorded_store = conclude 130 no_fault no_fault 100 claims tick_done

abbrev run :
    Run.History no_text no_error runner
      (record { store = asked; phase = ticking })
      (record { store = recorded_store; phase = ticking })
run = Run.next _ _ _ (Run.here (record { store = asked; phase = ticking })) (
    ticks recorded_store 1 none refl (
      concludes 100 free no_fault zezima [] tick_done 130 no_fault no_fault claims_one tick_Reach
        tick_over.0 tick_over.1 tick_over.2))

claim-waiting_iff_example :
    (after_tick (length claims) none ≡ waiting)
    ↔ (count_where (is_due 100 10 free) asked.fetches ≡ 0)
claim-waiting_iff_example =
    claim-waiting_iff 100 10 2 free asked claims asked-HasKeys (omega arith) claims_one
