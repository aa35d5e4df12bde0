-- ===== src/Pool/Accounts.antt =====
-- Every claim of a pool is accounted for, and so is every worker.
use anvil_forge.Prelude.{
  length-append, Bool, List, [], ap, arith, count_where, count_where-append, if◌then◌else◌, length,
  length-split, map, refl, ℕ, ◌++◌, ◌+◌, ◌∷◌, ◌≡◌, ◌≤◌,
}
use anvil_forge.Pool.{
  Pool, begin, Move, hand_over, context_ends, give_up, advances, leaves, completes, rests,
}

module _ {A J : Type 0} (item : J → A) (start : A → J) (turns : J → ℕ) where
  -- Each claim is waiting, with a worker, completed or left, as often as it was claimed; and a worker
  -- is idle, busy or gone; a worker that is gone has left a claim.
  pub record IsShared (workers : ℕ) (claims : List A) (p : Pool A J) : Type 0 where
    pub places :
        (q : A → Bool)
        → count_where q claims
          ≡ count_where q p.waiting
            + count_where q (map item p.busy)
            + (count_where q p.completed + count_where q p.left)
    pub hands : p.idle + length p.busy ≤ workers
    pub staffed : workers ≤ p.idle + (length p.busy + length p.left)

  count_where-split :
      (q : A → Bool) (xs : List J) (x : J) (ys : List J)
      → count_where q (map item (xs ++ x ∷ ys))
        ≡ (if q (item x) then 1 else 0) + count_where q (map item (xs ++ ys))
  count_where-split q [] x ys = refl
  count_where-split q (y ∷ xs) x ys = omega (arith, count_where-split q xs x ys)

  module _ (started : (a : A) → item (start a) ≡ a) (workers : ℕ) (claims : List A) where
    pub begin-IsShared : IsShared workers claims (begin workers claims)
    begin-IsShared = record {
      places = λ q. omega arith;
      hands = omega arith;
      staffed = omega arith;
    }

    pub Move-IsShared :
        (p p' : Pool A J)
        → Move item start turns p p'
        → IsShared workers claims p
        → IsShared workers claims p'
    Move-IsShared p p' (hand_over a rest n w i e) v = rw e (record {
      places = λ q. omega (
        arith,
        v.places q,
        ap (count_where q) w,
        ap {B = ℕ} (λ (a : A). if q a then 1 else 0) (started a),
      );
      hands = omega (arith, v.hands, i);
      staffed = omega (arith, v.staffed, i);
    })
    Move-IsShared p p' (context_ends e) v =
        rw e (record { places = v.places; hands = v.hands; staffed = v.staffed })
    Move-IsShared p p' (give_up h e) v = rw e (record {
      places = λ q. omega (arith, v.places q, count_where-append q p.waiting p.left);
      hands = v.hands;
      staffed = omega (arith, v.staffed, length-append p.waiting p.left);
    })
    Move-IsShared p p' (advances before j j' after b i t e) v = rw e (record {
      places = λ q. omega (
        arith,
        v.places q,
        ap (λ xs. count_where q (map item xs)) b,
        count_where-split q before j after,
        count_where-split q before j' after,
        ap {B = ℕ} (λ (a : A). if q a then 1 else 0) i,
      );
      hands =
          omega (
            arith,
            v.hands,
            ap length b,
            length-split before j after,
            length-split before j' after,
          );
      staffed = omega (
        arith,
        v.staffed,
        ap length b,
        length-split before j after,
        length-split before j' after,
      );
    })
    Move-IsShared p p' (leaves before j after b e) v = rw e (record {
      places = λ q. omega (
        arith,
        v.places q,
        ap (λ xs. count_where q (map item xs)) b,
        count_where-split q before j after,
      );
      hands = omega (arith, v.hands, ap length b, length-split before j after);
      staffed = omega (arith, v.staffed, ap length b, length-split before j after);
    })
    Move-IsShared p p' (completes before j after b e) v = rw e (record {
      places = λ q. omega (
        arith,
        v.places q,
        ap (λ xs. count_where q (map item xs)) b,
        count_where-split q before j after,
      );
      hands = omega (arith, v.hands, ap length b, length-split before j after);
      staffed = omega (arith, v.staffed, ap length b, length-split before j after);
    })
    Move-IsShared p p' (rests e) v = rw e v
