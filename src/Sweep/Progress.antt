-- ===== src/Sweep/Progress.antt =====
-- internal/sweep/runner.go: a tick does not go on for ever.
use anvil_forge.Prelude.{List, Text, arith, if◌then◌else◌, length, refl, ℕ, ◌*◌, ◌+◌, ◌≤◌}
use anvil_forge.Store.{Request, Store}
use anvil_forge.Hiscores.Client.{Error}
use anvil_forge.Pool.{is_turn}
use anvil_forge.Pool.Work.{ahead, work, work-Move}
use anvil_forge.Sweep.{Tick, begin, Reach, here, then_step}
use anvil_forge.Sweep.Moves.{pool_of, same, one_turn, Step-Move}

module _ {format : ℕ → Text} {error_text : Error → Text} where
  -- The steps of a history that are a worker's or hand over a claim.
  abbrev pub moves : {a b : Tick} → Reach format error_text a b → ℕ
  moves (here t) = 0
  moves (then_step a b c r s) = moves r + (if is_turn (Step-Move s) then 1 else 0)

  work-Reach :
      (a b : Tick) (r : Reach format error_text a b)
      → work same same one_turn 1 (pool_of b) + moves r ≤ work same same one_turn 1 (pool_of a)
  work-Reach a b (here t) = omega arith
  work-Reach a b (then_step x y z r s) = omega (
    arith,
    work-Reach x y r,
    work-Move same same one_turn 1 (λ a. refl) (λ j. omega arith) (pool_of y) (pool_of z)
        (Step-Move s),
  )

-- A tick makes at most two moves for each claim, whatever fails: each hands a claim to a worker or is
-- the end of a worker's turn with one.
pub moves-le :
    (format : ℕ → Text) (error_text : Error → Text) (workers : ℕ) (claims : List Request)
    (s : Store) (t : Tick) (r : Reach format error_text (begin workers claims s) t)
    → moves r ≤ 2 * length claims
unfolding ahead
moves-le format error_text workers claims s t r =
    omega (arith, work-Reach (begin workers claims s) t r)
