-- ===== src/Store/Tests.antt =====
-- Runs of internal/store/store.go on a small queue, and its theorems at concrete inputs.
use anvil_forge.Prelude.{
  All, Bool, IsSorted, List, Member, Text, [], arith, codes, count_where, false, is_none, map, min,
  negsuc, none, not, pos, refl, some, ℕ, ℤ, ◌-◌, ◌↔◌, ◌∷◌, ◌≡◌, ◌≢◌, ◌≤◌, ◌⊎◌,
}
use anvil_forge.Store.{
  complete, Fetch, Store, err, no_fault, jump_share, claim_rows, claim, is_jump, before,
}
use anvil_forge.Store.Lanes.{HasKeys, claim-lanes, claim-rest_iff}
use anvil_forge.Store.Apart.{claim-claim_apart}
use anvil_forge.Store.Steps.{claimed, completed}
use anvil_forge.Store.Steps
use anvil_forge.Store.Recovery.{Recovers, Reach-Recovers}
use anvil_forge.Store.Settled.{fetched-claim}

abbrev pub fetch : ℕ → ℤ → ℕ → Fetch
fetch id priority at = record {
  id = id;
  rsn = codes "Zezima";
  mode = codes "main";
  priority = priority;
  requested_at = at;
  claimed_at = none;
  fetched_at = none;
  outcome = none;
  body = none;
  error = none;
}

-- Two late joiners, a competition, a filler.
abbrev queue : List Fetch
queue = fetch 1 (pos 1) 5 ∷ fetch 2 (negsuc 0) 9 ∷ fetch 3 (pos 0) 7 ∷ fetch 4 (negsuc 0) 8 ∷ []

abbrev queue_store : Store
queue_store = record { fetches = queue; runs = []; dry_run = false }

abbrev pub free : ℕ → Bool
free k = false

abbrev request_ids : List Fetch → List ℕ
request_ids = map (λ f. f.id)

-- One late joiner, then the competition.
claim_two : request_ids (claim_rows 100 10 free 2 1 queue).1 ≡ 4 ∷ 3 ∷ []
unfolding claim_rows
claim_two = refl

claim_refuses_negative :
    (claim 100 free no_fault (negsuc 0) 10 queue_store).1
    ≡ err (codes "ERROR: LIMIT must not be negative (SQLSTATE 2201W)")
unfolding claim
claim_refuses_negative = refl

jump_share_values : map jump_share (pos 20 ∷ pos 4 ∷ pos 0 ∷ negsuc 3 ∷ []) ≡ 4 ∷ 1 ∷ 0 ∷ 0 ∷ []
unfolding jump_share
jump_share_values = refl

queue-HasKeys : HasKeys queue
queue-HasKeys k = ground arith

claim-lanes_example :
    let rows = (claim_rows 100 10 free 2 (jump_share (pos 2)) queue).1 in
    (count_where is_jump rows ≡ min (jump_share (pos 2)) 2)
    × (count_where (λ f. not (is_jump f)) rows ≡ min (2 - min (jump_share (pos 2)) 2) 2)
    × IsSorted before rows
claim-lanes_example = claim-lanes 100 10 free 2 queue queue-HasKeys

abbrev no_digits : ℕ → Text
no_digits n = []

-- After a claim of two, another claim under a longer lease takes the others, and one is completed.
abbrev after_two : Store
after_two = record queue_store { fetches = (claim_rows 100 10 free 2 1 queue).0 }

abbrev after_three : Store
after_three = (claim 104 free no_fault (pos 1) 30 after_two).0

abbrev after_result : Store
after_result = (complete no_digits 106 no_fault 3 (codes "ok") (codes "{}") [] after_three).0

abbrev meanwhile : Steps.Reach after_two after_result
meanwhile =
    Steps.next (Steps.next Steps.here (claimed 104 free no_fault (pos 1) 30 refl))
      (completed no_digits 106 no_fault 3 (codes "ok") (codes "{}") [] refl)

claim-claim_apart_example :
    All
      (λ x. All (λ y. x.id ≢ y.id) (claim_rows 100 10 free 2 1 queue).1)
      (claim_rows 112 20 free 4 1 after_result.fetches).1
claim-claim_apart_example =
    claim-claim_apart 100 10 free 2 1 queue_store after_result meanwhile 112 20 free 4 1
      queue-HasKeys ((tt, omega arith), tt) (omega arith)

claim-rest_iff_example :
    (1 ≤ count_where (λ f. not (is_jump f)) (claim_rows 100 10 free 1 (jump_share (pos 1)) queue).1)
    ↔ (2 ≤ 1)
claim-rest_iff_example =
    claim-rest_iff 100 10 free 1 queue queue-HasKeys (omega arith) (omega arith) (omega arith)

abbrev fetched : Fetch
fetched = record (fetch 9 (pos 0) 3) {
  claimed_at = some 40;
  fetched_at = some 50;
  outcome = some (codes "ok");
}

abbrev kept_store : Store
kept_store = record { fetches = fetched ∷ queue; runs = []; dry_run = false }

abbrev claimed_store : Store
claimed_store = (claim 100 free no_fault (pos 2) 10 kept_store).0

fetched-claim_example :
    Member fetched claimed_store.fetches
    × ((now lease limit share : ℕ) (locked : ℕ → Bool)
        → All (λ x. x.id ≢ 9) (claim_rows now lease locked limit share claimed_store.fetches).1)
fetched-claim_example =
    fetched-claim fetched (λ k. ground arith) (Member.head refl) refl
      (Steps.next Steps.here (claimed 100 free no_fault (pos 2) 10 refl))

Reach-Recovers_example :
    (g : Fetch) × Member g claimed_store.fetches
    × (g.id ≡ 1)
    × ((is_none g.fetched_at ≡ false) ⊎ Recovers g)
Reach-Recovers_example =
    Reach-Recovers (fetch 1 (pos 1) 5) (Member.tail (Member.head refl))
      (Steps.next Steps.here (claimed 100 free no_fault (pos 2) 10 refl))
