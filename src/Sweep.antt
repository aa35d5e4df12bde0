-- ===== src/Sweep.antt =====
-- internal/sweep/runner.go: one tick of the sweep, as the steps that its workers may take.
--
-- The channel has no buffer, so a claim goes from the tick to a worker in one step. What the limiter
-- and the fetcher give is an argument of the steps, and so is the moment at which the context ends.
-- Counting a result and completing its fetch are one step of a worker.
pub mod Moves
pub mod Accounts
pub mod Stalls
pub mod Progress
pub mod Run
pub mod Tests
use anvil_forge.Prelude.{
  ◌≢◌, Bool, List, Option, Text, [], false, length, none, some, suc, true, ℕ, ◌++◌, ◌∷◌, ◌≡◌,
}
use anvil_forge.Store.{Request, RunStats, Store, Fault, complete}
use anvil_forge.Store.Steps
use anvil_forge.Hiscores.Client.{
  Outcome, outcome_ok, outcome_unranked, outcome_transient, outcome_text, Error, Result,
}

-- A tick under way: `waiting` are the claims still to be handed over, `busy` those with a worker;
-- `completed` are those whose result was given to Complete, and `left` those left to their lease.
pub record Tick : Type 0 where
  pub waiting : List Request
  pub busy : List Request
  pub completed : List Request
  pub left : List Request
  pub idle : ℕ
  pub fetched : ℕ
  pub unranked : ℕ
  pub errs : ℕ
  pub ended : Bool
  pub gave_up : Bool
  pub store : Store

abbrev pub begin : ℕ → List Request → Store → Tick
begin workers claims s = record {
  waiting = claims;
  busy = [];
  completed = [];
  left = [];
  idle = workers;
  fetched = 0;
  unranked = 0;
  errs = 0;
  ended = false;
  gave_up = false;
  store = s;
}

abbrev pub count : Outcome → Tick → Tick
count outcome_ok t = record t { fetched = suc t.fetched }
count outcome_unranked t = record t { unranked = suc t.unranked }
count outcome_transient t = record t { errs = suc t.errs }

module _ (format : ℕ → Text) (error_text : Error → Text) where
  abbrev pub err_text : Option Error → Text
  err_text none = []
  err_text (some e) = error_text e

  -- A worker counts the result, calls Complete, and is idle again.
  unfoldable pub finish : ℕ → Fault → Result → Request → List Request → Tick → Tick
  unfolding complete outcome_text
  finish now fault res req others t = count res.outcome (record t {
    busy = others;
    completed = req ∷ t.completed;
    idle = suc t.idle;
    store =
        (complete format now fault req.id (outcome_text res.outcome) res.body (err_text res.err)
          t.store).0;
  })

  pub data Step : Tick → Tick → Type 0 where
    -- queue <- c
    hand_over :
        (t : Tick) (req : Request) (rest : List Request) (n : ℕ)
        → t.waiting ≡ req ∷ rest
        → t.idle ≡ suc n
        → Step t (record t { waiting = rest; busy = req ∷ t.busy; idle = n })
    context_ends : (t : Tick) → Step t (record t { ended = true })
    -- The tick stops handing over, at a claim that no worker has taken.
    give_up :
        (t : Tick)
        → t.waiting ≢ []
        → t.ended ≡ true
        → Step t (record t { waiting = []; left = t.waiting ++ t.left; gave_up = true })
    -- r.Limiter.Wait returns an error, and the worker is gone.
    wait_fails :
        (t : Tick) (before : List Request) (req : Request) (after : List Request)
        → t.busy ≡ before ++ req ∷ after
        → Step t (record t { busy = before ++ after; left = req ∷ t.left })
    -- The context ended during the fetch, and the worker is gone.
    fetch_cancelled :
        (t : Tick) (before : List Request) (req : Request) (after : List Request)
        → t.busy ≡ before ++ req ∷ after
        → t.ended ≡ true
        → Step t (record t { busy = before ++ after; left = req ∷ t.left })
    completes :
        (t : Tick) (before : List Request) (req : Request) (after : List Request) (now : ℕ)
        (fault : Fault) (res : Result)
        → t.busy ≡ before ++ req ∷ after
        → t.ended ≡ false
        → Step t (finish now fault res req (before ++ after) t)
    -- Another process, or the site, works on the store.
    others : (t : Tick) (s : Store) → Steps.Step t.store s → Step t (record t { store = s })

  pub data Reach : Tick → Tick → Type 0 where
    here : (t : Tick) → Reach t t
    then_step : (a b c : Tick) → Reach a b → Step b c → Reach a c

-- The numbers of the run log.
unfoldable pub run_stats : ℕ → List Request → Tick → RunStats
run_stats backlog claims t = record {
  claimed = length claims;
  fetched = t.fetched;
  unranked = t.unranked;
  errors = t.errs;
  backlog = backlog;
}
