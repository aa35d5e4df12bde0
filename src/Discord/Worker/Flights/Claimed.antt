-- ===== src/Discord/Worker/Flights/Claimed.antt =====
-- internal/discord/worker.go: a drain starts with the deliveries that its claim has marked.
use anvil_forge.Prelude.{
  All, All-Member, All-map, All-select, All_member, Bool, List, Member, [], ap, arith, contains,
  count_where, count_where-select, count_where_mono, map, negsuc, pos, refl, subst, ℕ, ℤ, ◌&&◌,
  ◌==◌, ◌∷◌, ◌≡◌, ◌≤◌,
}
use anvil_forge.Discord.Rows.{Outside, Row, Queue, Delivery, Fault, no_fault, query_fault, ok}
use anvil_forge.Discord.Queue.{claim, claim_rows, due, ids, to_delivery}
use anvil_forge.Discord.Queue.Claims.{claim-due, claim-HasKeys}
use anvil_forge.Discord.Queue.Steps.{claimed, IsValid}
use anvil_forge.Discord.Queue.Valid.{Step-IsValid}
use anvil_forge.Ratelimit.{Keyed}
use anvil_forge.Discord.Worker.{begin}
use anvil_forge.Discord.Worker.Flights.{IsHeld, has_id, InFlight}

-- RETURNING gives the rows in some order.
pub record IsRearrangement (arrange : List Row → List Row) : Type 0 where
  pub members : (rows : List Row) (r : Row) → Member r (arrange rows) → Member r rows
  pub counts :
      (p : Row → Bool) (rows : List Row) → count_where p (arrange rows) ≡ count_where p rows

module _ (now lease limit : ℕ) (locked : ℕ → Bool) (q : Queue) where
  abbrev after_claim : Queue
  after_claim = record q { rows = (claim_rows now locked limit lease q.rows).0 }

  abbrev returned : List Row
  returned = (claim_rows now locked limit lease q.rows).1

  returned-Member : All (λ r. Member r (claim_rows now locked limit lease q.rows).0) returned
  unfolding claim_rows
  returned-Member =
      let rows = (claim_rows now locked limit lease q.rows).0 in
      All-map (λ r h. h.1) _
        (All-select (λ r. contains (ids (due now locked limit q.rows)) r.id) (λ r. Member r rows)
          rows (All-Member rows))

  count-returned : IsValid q → (k : ℕ) → count_where (λ r. r.id == k) returned ≤ 1
  unfolding claim_rows
  count-returned v k =
      let rows = (claim_rows now locked limit lease q.rows).0 in
      let c = λ (r : Row). contains (ids (due now locked limit q.rows)) r.id in
      omega (
        arith,
        claim-HasKeys now lease limit locked q.rows v.keyed k,
        count_where-select (λ r. r.id == k) c rows,
        count_where_mono (λ r. c r && (r.id == k)) (λ r. r.id == k) rows (λ r h. ground arith),
      )

  returned-IsHeld : IsValid q → (r : Row) → Member r returned → IsHeld after_claim (to_delivery r)
  returned-IsHeld v r m =
      let (x, n, d, e) =
        All_member _ returned r (claim-due now lease limit locked q.rows v.keyed) m in
      (
        r,
        All_member (λ r. Member r after_claim.rows) returned r returned-Member m,
        ap (λ (r : Row). r.status) e,
        refl,
      )

All-map_list :
    (P : Delivery → Type 0) (rows : List Row)
    → All (λ r. P (to_delivery r)) rows
    → All P (map to_delivery rows)
All-map_list P [] h = tt
All-map_list P (r ∷ rows) h = (h.0, All-map_list P rows h.1)

count-map_list :
    (k : ℕ) (rows : List Row)
    → count_where (has_id k) (map to_delivery rows) ≡ count_where (λ r. r.id == k) rows
count-map_list k [] = refl
count-map_list k (r ∷ rows) = rw (count-map_list k rows)

module _ {Limit : Type 0} where
  begin-InFlight :
      (arrange : List Row → List Row) (now lease limit : ℕ) (locked : ℕ → Bool) (workers : ℕ)
      (q : Queue) (k : Keyed Limit)
      → IsRearrangement arrange
      → IsValid q
      → IsValid (after_claim now lease limit locked q)
      → InFlight (
          begin workers
            (map to_delivery (arrange (returned now lease limit locked q)))
            (after_claim now lease limit locked q)
            k)
  begin-InFlight arrange now lease limit locked workers q k p v w =
      let rows = returned now lease limit locked q in
      record {
        valid = w;
        waiting = All-map_list (IsHeld (after_claim now lease limit locked q)) (arrange rows) (
            All-map (λ r m. returned-IsHeld now lease limit locked q v r (p.members rows r m))
              (arrange rows) (All-Member (arrange rows)));
        busy = tt;
        left = tt;
        apart = λ j. omega (
          arith,
          count-map_list j (arrange rows),
          p.counts (λ r. r.id == j) rows,
          count-returned now lease limit locked q v j,
        );
      }

  -- A claim on a valid table starts a drain of what the table holds.
  pub claim-InFlight :
      (outside : Outside) (arrange : List Row → List Row) (now : ℕ) (locked : ℕ → Bool)
      (fault : Fault) (limit : ℤ) (lease workers : ℕ) (q : Queue) (ds : List Delivery)
      (k : Keyed Limit)
      → IsRearrangement arrange
      → IsValid q
      → (claim arrange now locked fault limit lease q).1 ≡ ok ds
      → InFlight (begin workers ds (claim arrange now locked fault limit lease q).0 k)
  unfolding claim
  claim-InFlight outside arrange now locked (query_fault x) limit lease workers q ds k p v e =
      absurd (ground (arith, e))
  claim-InFlight outside arrange now locked no_fault (negsuc n) lease workers q ds k p v e =
      absurd (ground (arith, e))
  claim-InFlight outside arrange now locked no_fault (pos n) lease workers q ds k p v e =
      let given : map to_delivery (arrange (returned now lease n locked q)) ≡ ds = cc in
      subst (λ ds. InFlight (begin workers ds (after_claim now lease n locked q) k)) given
        (begin-InFlight arrange now lease n locked workers q k p v (
          Step-IsValid {outside = outside} {May = λ k. Unit {0}}
            (claimed arrange now locked no_fault (pos n) lease refl) v))
