-- ===== src/Pool/Work.antt =====
-- A pool does not go on for ever: each turn takes from the work that is left.
use anvil_forge.Prelude.{
  List, [], ap, arith, if◌then◌else◌, length, refl, suc, ℕ, ◌*◌, ◌++◌, ◌+◌, ◌<◌, ◌∷◌, ◌≡◌, ◌≤◌,
}
use anvil_forge.Pool.{
  Pool, Move, hand_over, context_ends, give_up, advances, leaves, completes, rests, is_turn,
}

module _ {A J : Type 0} (item : J → A) (start : A → J) (turns : J → ℕ) where
  unfoldable pub ahead : List J → ℕ
  ahead [] = 0
  ahead (j ∷ js) = turns j + ahead js

  -- The turns that are left: one to hand a claim over, and those of its job.
  abbrev pub work : ℕ → Pool A J → ℕ
  work most p = suc most * length p.waiting + ahead p.busy

  ahead-split :
      (xs : List J) (x : J) (ys : List J) → ahead (xs ++ x ∷ ys) ≡ turns x + ahead (xs ++ ys)
  unfolding ahead
  ahead-split [] x ys = refl
  ahead-split (y ∷ xs) x ys = omega (arith, ahead-split xs x ys)

  pub work-Move :
      (most : ℕ)
      → ((a : A) → turns (start a) ≡ most)
      → ((j : J) → 0 < turns j)
      → (p p' : Pool A J) (m : Move item start turns p p')
      → work most p' + (if is_turn m then 1 else 0) ≤ work most p
  unfolding ahead
  work-Move most s alive p p' (hand_over a rest n w i e) = rw e (grind (arith, ap length w, s a))
  work-Move most s alive p p' (context_ends e) = rw e (omega arith)
  work-Move most s alive p p' (give_up h e) = rw e (grind arith)
  work-Move most s alive p p' (advances before j j' after b i t e) =
      rw e (omega (arith, ap ahead b, ahead-split before j after, ahead-split before j' after, t))
  work-Move most s alive p p' (leaves before j after b e) =
      rw e (omega (arith, ap ahead b, ahead-split before j after, alive j))
  work-Move most s alive p p' (completes before j after b e) =
      rw e (omega (arith, ap ahead b, ahead-split before j after, alive j))
  work-Move most s alive p p' (rests e) = rw e (omega arith)
