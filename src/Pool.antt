-- ===== src/Pool.antt =====
-- The worker pool that internal/sweep/runner.go and internal/discord/worker.go both write out: claims
-- that one loop hands over an unbuffered channel to workers, each with one claim at a time.
pub mod Accounts
pub mod Work
use anvil_forge.Prelude.{Bool, List, [], false, suc, true, ℕ, ◌++◌, ◌∷◌, ◌≡◌}

-- A pool under way: `waiting` are the claims still to be handed over, `busy` the workers' jobs;
-- `completed` are the claims whose result was recorded, and `left` those left to their lease.
pub record Pool (A J : Type 0) : Type 0 where
  pub waiting : List A
  pub busy : List J
  pub completed : List A
  pub left : List A
  pub idle : ℕ
  pub ended : Bool

abbrev pub begin : {A J : Type 0} → ℕ → List A → Pool A J
begin workers claims = record {
  waiting = claims;
  busy = [];
  completed = [];
  left = [];
  idle = workers;
  ended = false;
}

-- One move of a pool. `item` is the claim of a job, `start` the job of a claim just handed over, and
-- `turns` the moves that a job has ahead.
pub data Move {A J : Type 0} (item : J → A) (start : A → J) (turns : J → ℕ) (p p' : Pool A J)
    : Type 0 where
  hand_over :
      (a : A) (rest : List A) (n : ℕ)
      → p.waiting ≡ a ∷ rest
      → p.idle ≡ suc n
      → p' ≡ record p { waiting = rest; busy = start a ∷ p.busy; idle = n }
      → Move item start turns p p'
  context_ends : p' ≡ record p { ended = true } → Move item start turns p p'
  give_up :
      p.ended ≡ true
      → p' ≡ record p { waiting = []; left = p.waiting ++ p.left }
      → Move item start turns p p'
  advances :
      (before : List J) (j j' : J) (after : List J)
      → p.busy ≡ before ++ j ∷ after
      → item j' ≡ item j
      → turns j ≡ suc (turns j')
      → p' ≡ record p { busy = before ++ j' ∷ after }
      → Move item start turns p p'
  leaves :
      (before : List J) (j : J) (after : List J)
      → p.busy ≡ before ++ j ∷ after
      → p' ≡ record p { busy = before ++ after; left = item j ∷ p.left }
      → Move item start turns p p'
  completes :
      (before : List J) (j : J) (after : List J)
      → p.busy ≡ before ++ j ∷ after
      → p'
        ≡ record p { busy = before ++ after; completed = item j ∷ p.completed; idle = suc p.idle }
      → Move item start turns p p'
  -- What the pool does not see.
  rests : p' ≡ p → Move item start turns p p'

-- A move that hands over a claim or takes a job on.
abbrev pub is_turn :
    {A J : Type 0} {item : J → A} {start : A → J} {turns : J → ℕ} {p p' : Pool A J}
    → Move item start turns p p'
    → Bool
is_turn (context_ends e) = false
is_turn (give_up h e) = false
is_turn (rests e) = false
is_turn _ = true
