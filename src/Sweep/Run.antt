-- ===== src/Sweep/Run.antt =====
-- internal/sweep/runner.go: `Tick` from its claim to its run log, and `Run`.
--
-- How long Run waits between two ticks is not modelled: anything may happen to the store meanwhile.
pub mod Stores
pub mod Pace
use anvil_forge.Prelude.{
  Bool, List, Option, Text, [], codes, false, if◌then◌else◌, length, ltb, none, some, to_ℕ, true, ℕ,
  ℤ, ◌∷◌, ◌≡◌,
}
use anvil_forge.Store.{Request, Store, Result, ok, err, Fault, claim, backlog, record_run}
use anvil_forge.Store.Steps
use anvil_forge.Hiscores.Client.{Error}
use anvil_forge.Sweep.{Tick, begin, Reach, run_stats}

pub record Runner : Type 0 where
  pub workers : ℤ
  pub claim_batch : ℤ
  pub claim_lease : ℕ
  pub tick_interval : ℤ

pub data Phase : Type 0 where
  ticking waiting stopped : Phase

-- What a runner keeps from one tick to the next.
pub record Sweeper : Type 0 where
  pub store : Store
  pub phase : Phase

abbrev context_canceled : Text
context_canceled = codes "context canceled"

-- The backlog of the run log: 0 where reading it fails.
abbrev pub or_zero : Result ℕ → ℕ
or_zero (ok n) = n
or_zero (err e) = 0

-- What a tick does when its workers are done and it was not cancelled.
unfoldable pub conclude : ℕ → Fault → Fault → ℕ → List Request → Tick → Store
unfolding run_stats backlog
conclude now reading recording started claims t =
    (record_run now recording started (run_stats (or_zero (backlog reading t.store)) claims t)
      t.store).0

-- What Run does after a tick that claimed `n` and returned an error or none.
abbrev pub after_tick : ℕ → Option Text → Phase
after_tick n (some e) = waiting
after_tick n none = if ltb 0 n then ticking else waiting

module _ (format : ℕ → Text) (error_text : Error → Text) (r : Runner) where
  -- One tick: the store afterwards, how many it claimed, and its error.
  pub data Ticks (s : Store) : Store → ℕ → Option Text → Type 0 where
    claim_fails :
        (now : ℕ) (locked : ℕ → Bool) (fault : Fault) (e : Text)
        → (claim now locked fault r.claim_batch r.claim_lease s).1 ≡ err e
        → Ticks s (claim now locked fault r.claim_batch r.claim_lease s).0 0 (some e)
    claims_none :
        (now : ℕ) (locked : ℕ → Bool) (fault : Fault)
        → (claim now locked fault r.claim_batch r.claim_lease s).1 ≡ ok []
        → Ticks s (claim now locked fault r.claim_batch r.claim_lease s).0 0 none
    concludes :
        (started : ℕ) (locked : ℕ → Bool) (fault : Fault) (req : Request) (rest : List Request)
        (t : Tick) (now : ℕ) (reading recording : Fault)
        → (claim started locked fault r.claim_batch r.claim_lease s).1 ≡ ok (req ∷ rest)
        → Reach format error_text
            (begin
              (to_ℕ r.workers)
              (req ∷ rest)
              (claim started locked fault r.claim_batch r.claim_lease s).0)
            t
        → t.waiting ≡ []
        → t.busy ≡ []
        → t.gave_up ≡ false
        → Ticks s (conclude now reading recording started (req ∷ rest) t) (length (req ∷ rest)) none
    is_cancelled :
        (started : ℕ) (locked : ℕ → Bool) (fault : Fault) (req : Request) (rest : List Request)
        (t : Tick)
        → (claim started locked fault r.claim_batch r.claim_lease s).1 ≡ ok (req ∷ rest)
        → Reach format error_text
            (begin
              (to_ℕ r.workers)
              (req ∷ rest)
              (claim started locked fault r.claim_batch r.claim_lease s).0)
            t
        → t.busy ≡ []
        → t.gave_up ≡ true
        → Ticks s t.store (length (req ∷ rest)) (some context_canceled)

  pub data Runs (p : Sweeper) : Sweeper → Type 0 where
    ticks :
        (s : Store) (n : ℕ) (e : Option Text)
        → p.phase ≡ ticking
        → Ticks p.store s n e
        → Runs p (record { store = s; phase = after_tick n e })
    -- <-time.After(r.TickInterval)
    wakes : p.phase ≡ waiting → Runs p (record p { phase = ticking })
    -- <-ctx.Done()
    stops : p.phase ≡ waiting → Runs p (record p { phase = stopped })
    -- Another process, or the site, works on the store.
    elsewhere : (s : Store) → Steps.Step p.store s → Runs p (record p { store = s })

  pub data History : Sweeper → Sweeper → Type 0 where
    here : (p : Sweeper) → History p p
    next : (a b c : Sweeper) → History a b → Runs b c → History a c
