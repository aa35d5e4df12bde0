-- ===== src/Ratelimit/Tests.antt =====
-- Runs of internal/ratelimit/keyed.go, and its theorems at concrete inputs.
use anvil_forge.Prelude.{
  Option, Text, [], arith, codes, eq_text, if◌then◌else◌, negsuc, none, pos, refl, sub_ℕ, ℕ, ◌*◌,
  ◌+◌, ◌<◌, ◌↔◌, ◌∷◌, ◌≡◌, ◌≤◌,
}
use anvil_forge.Ratelimit.{Keyed, new_keyed, reserve_for, get, wait, asked, sweep, lookup}
use anvil_forge.Ratelimit.Holds.{gets, run, deadline, deadline-get, wait-reserve_for}
use anvil_forge.Ratelimit.Apart.{IsApart}
use anvil_forge.Ratelimit.Limiters.{called, swept, after, after-limiters}
use anvil_forge.Ratelimit.Eviction.{wait-sweep}

abbrev one_second : ℕ
one_second = 1000000000

abbrev table : Keyed ℕ
table = record {
  limit = 2;
  burst = pos 4;
  ttl = pos (900 * one_second);
  buckets =
      record { key = codes "a"; limiter = 0; last_used = 5; not_before = 3600 * one_second } ∷ [];
  next_limiter = 1;
}

abbrev free : ℕ → ℕ → Option Text
free limiter now = none

-- The longer of two holds stands, whichever comes first.
longer_hold :
    deadline
      (reserve_for 2
        (codes "b")
        (pos 3)
        (reserve_for 1 (codes "b") (pos 9) (new_keyed {Limit = ℕ} 2 (pos 4) (pos 100))))
      (codes "b")
    ≡ 10
unfolding reserve_for new_keyed lookup eq_text
longer_hold = refl

defaults :
    ((new_keyed {Limit = ℕ} 2 (pos 0) (negsuc 4)).burst ≡ pos 1)
    × ((new_keyed {Limit = ℕ} 2 (pos 0) (negsuc 4)).ttl ≡ pos (600 * one_second))
unfolding new_keyed
defaults = (refl, refl)

abbrev later : ℕ
later = 1000 * one_second

deadline-get_example :
    (deadline (get 7 (codes "a") table).0 (codes "b") ≡ deadline table (codes "b"))
    × ((get 7 (codes "a") table).1.1 ≡ sub_ℕ (deadline table (codes "a")) 7)
deadline-get_example = deadline-get 7 (codes "a") table (codes "b")

wait-reserve_for_example : 7 + 9 ≤ 16
unfolding wait reserve_for run lookup eq_text
wait-reserve_for_example =
    wait-reserve_for 7 8 (codes "z") (pos 9) ((8, gets (codes "a")) ∷ []) table none free 16 none
      refl refl

after-limiters_example :
    let k =
      after
        ((3, called (gets (codes "a"))) ∷ (4, swept) ∷ [])
        (new_keyed {Limit = ℕ} 2 (pos 4) (pos 100)) in
    ((get 5 (codes "a") k).1.0 ≡ (get 6 (codes "b") (get 5 (codes "a") k).0).1.0)
    ↔ (codes "a" ≡ codes "b")
after-limiters_example =
    after-limiters 2 (pos 4) (pos 100) ((3, called (gets (codes "a"))) ∷ (4, swept) ∷ []) 5 6
      (codes "a") (codes "b")

table-IsApart : IsApart table
unfolding eq_text
table-IsApart = record { keyed = λ key. one key; limiters = λ n. ground arith; made = omega arith }
  where
    one : (key : Text) → (if eq_text (codes "a") key then 1 else 0) + 0 ≤ 1
    one key = ground arith

-- Held for an hour, unused for over fifteen minutes.
wait-sweep_example :
    (e : Option Text) × ((wait later (codes "a") none free (sweep later table).0).1 ≡ asked later e)
    × (later < deadline table (codes "a"))
unfolding lookup eq_text
wait-sweep_example =
    wait-sweep later (codes "a") table
      (record { key = codes "a"; limiter = 0; last_used = 5; not_before = 3600 * one_second }) none
      free table-IsApart refl (omega arith) (omega arith)
