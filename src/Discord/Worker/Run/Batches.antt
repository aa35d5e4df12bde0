-- ===== src/Discord/Worker/Run/Batches.antt =====
-- internal/discord/worker.go: when `Run` goes straight to the next drain, and when it idles.
use anvil_forge.Prelude.{
  All-map, Bool, List, [], ap, arith, contains, count-chosen, count_where, count_where-select,
  count_where-update_where, false, length, length-map, length-order_by, length-select, length-take,
  map, min, order_by, pos, refl, select, sym, true, update_where, ℕ, ◌&&◌, ◌<◌, ◌↔◌, ◌∙◌, ◌∷◌, ◌≡◌,
}
use anvil_forge.Discord.Rows.{Row, Queue, Delivery, no_fault, ok}
use anvil_forge.Discord.Queue.{claim, claim_rows, due, ids, is_due, leased, before, to_delivery}
use anvil_forge.Discord.Queue.Claims.{HasKeys, due-All}
use anvil_forge.Discord.Queue.Order.{due-HasKeys}
use anvil_forge.Discord.Worker.{Drain}
use anvil_forge.Discord.Worker.Flights.Claimed.{IsRearrangement}
use anvil_forge.Discord.Worker.Run.{idling, drain_result, after_drain}

length-due :
    (now limit : ℕ) (locked : ℕ → Bool) (rows : List Row)
    → length (due now locked limit rows) ≡ min limit (count_where (is_due now locked) rows)
unfolding due
length-due now limit locked rows =
    let l = select (is_due now locked) rows in
    omega (
      arith,
      length-take limit (order_by before l),
      length-order_by before l,
      length-select (is_due now locked) rows,
    )

length-count : {A : Type 0} (xs : List A) → count_where (λ x. true) xs ≡ length xs
length-count [] = refl
length-count (x ∷ xs) = omega (arith, length-count xs)

-- A claim returns as many rows as are due, up to its limit.
length-claim_rows :
    (now lease limit : ℕ) (locked : ℕ → Bool) (rows : List Row)
    → HasKeys rows
    → count_where (λ r. true) (claim_rows now locked limit lease rows).1
      ≡ min limit (count_where (is_due now locked) rows)
unfolding claim_rows
length-claim_rows now lease limit locked rows u =
    let c = λ (r : Row). contains (ids (due now locked limit rows)) r.id in
    count_where-select (λ r. true) c (update_where c (leased now lease) rows)
    ∙ count_where-update_where (λ r. c r && true) c (leased now lease) rows (λ r. refl)
    ∙ count-chosen (λ r. r.id) (λ r. true) rows (due now locked limit rows) u
        (due-HasKeys now limit locked rows u)
        (All-map (λ r h. h.1) (due now locked limit rows) (due-All now lease limit locked rows))
    ∙ length-count (due now locked limit rows)
    ∙ length-due now limit locked rows

length-claim :
    (arrange : List Row → List Row) (now lease limit : ℕ) (locked : ℕ → Bool) (q : Queue)
    (ds : List Delivery)
    → IsRearrangement arrange
    → HasKeys q.rows
    → (claim arrange now locked no_fault (pos limit) lease q).1 ≡ ok ds
    → length ds ≡ min limit (count_where (is_due now locked) q.rows)
unfolding claim
length-claim arrange now lease limit locked q ds p u e =
    let rows = (claim_rows now locked limit lease q.rows).1 in
    let given : map to_delivery (arrange rows) ≡ ds = cc in
    ap length (sym given)
    ∙ length-map to_delivery (arrange rows)
    ∙ sym (length-count (arrange rows))
    ∙ p.counts (λ r. true) rows
    ∙ length-claim_rows now lease limit locked q.rows u

-- After a drain that handed over all its claims, Run idles exactly if fewer rows were due at the claim
-- than its batch can take, so that none that was due is left unclaimed; else it drains again at once.
-- With a batch of 0 it never idles.
pub claim-idling_iff :
    {Limit : Type 0} (arrange : List Row → List Row) (now lease batch : ℕ) (locked : ℕ → Bool)
    (q : Queue) (ds : List Delivery) (t : Drain Limit) (ended : Bool)
    → IsRearrangement arrange
    → HasKeys q.rows
    → (claim arrange now locked no_fault (pos batch) lease q).1 ≡ ok ds
    → t.gave_up ≡ false
    → (after_drain (pos batch) ended (drain_result ds t) ≡ idling)
      ↔ (count_where (is_due now locked) q.rows < batch)
claim-idling_iff arrange now lease batch locked q ds t ended p u e g =
    ground (arith, length-claim arrange now lease batch locked q ds p u e)
