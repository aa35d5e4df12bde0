-- ===== src/Discord/Queue/Order.antt =====
-- Which due deliveries a claim of internal/discord/queue.go takes when it cannot take all.
use anvil_forge.Prelude.{
  count_where_mono, count_where-order_by, lebℤ_trans, count_where-select, count_where-take, All-map,
  Bool, List, arith, contains, count-chosen, count_where, count_where-take-le,
  count_where-update_where, false, lebℤ, lebℤ_total, min, order_by, order_by-IsSorted, refl, select,
  true, update_where, ℕ, ℤ, ◌&&◌, ◌==◌, ◌∙◌, ◌≡◌,
}
use anvil_forge.Discord.Rows.{Row, Moment}
use anvil_forge.Discord.Queue.{sooner, is_due, before, due, ids, leased, claim_rows}
use anvil_forge.Discord.Queue.Claims.{HasKeys, due-All}

sooner_trans : (a b c : Moment) → sooner a b ≡ true → sooner b c ≡ true → sooner a c ≡ true
sooner_trans a b c h k = ground arith

before_trans : (a b c : Row) → before a b ≡ true → before b c ≡ true → before a c ≡ true
before_trans a b c h k = ground (
  arith,
  sooner_trans a.next_attempt_at b.next_attempt_at c.next_attempt_at,
  lebℤ_trans a.priority b.priority c.priority,
  lebℤ_trans c.priority b.priority a.priority,
  lebℤ_trans b.priority c.priority a.priority,
  lebℤ_trans c.priority a.priority b.priority,
  lebℤ_trans b.priority a.priority c.priority,
  lebℤ_trans a.priority c.priority b.priority,
)

before_total : (a b : Row) → before a b ≡ false → before b a ≡ true
before_total a b h =
    ground (arith, lebℤ_total a.priority b.priority, lebℤ_total b.priority a.priority)

abbrev pub reaches : ℤ → Row → Bool
reaches k r = lebℤ k r.priority

reaches_first : (k : ℤ) (a b : Row) → before a b ≡ true → reaches k b ≡ true → reaches k a ≡ true
reaches_first k a b h e =
    ground (arith, lebℤ_trans k b.priority a.priority, lebℤ_total a.priority b.priority)

count-due :
    (now limit : ℕ) (locked : ℕ → Bool) (rows : List Row) (k : ℤ)
    → count_where (reaches k) (due now locked limit rows)
      ≡ min limit (count_where (λ r. is_due now locked r && reaches k r) rows)
unfolding due
count-due now limit locked rows k =
    let l = select (is_due now locked) rows in
    omega (
      arith,
      count_where-take before (reaches k) (reaches_first k) limit (order_by before l)
          (order_by-IsSorted before before_trans before_total l),
      count_where-order_by (reaches k) before l,
      count_where-select (reaches k) (is_due now locked) rows,
    )

pub due-HasKeys :
    (now limit : ℕ) (locked : ℕ → Bool) (rows : List Row)
    → HasKeys rows
    → HasKeys (due now locked limit rows)
unfolding due
due-HasKeys now limit locked rows u k =
    let l = select (is_due now locked) rows in
    omega (
      arith,
      u k,
      count_where-take-le (λ r. r.id == k) limit (order_by before l),
      count_where-order_by (λ r. r.id == k) before l,
      count_where-select (λ r. r.id == k) (is_due now locked) rows,
      count_where_mono (λ r. is_due now locked r && (r.id == k)) (λ r. r.id == k) rows
          (λ r h. ground arith),
    )

-- On a table whose ids are distinct, a claim returns, for every priority, as many of the rows with
-- at least that priority as are due, up to its limit: no row of a lower priority goes before a due
-- row of a higher one.
pub claim-priority :
    (now lease limit : ℕ) (locked : ℕ → Bool) (rows : List Row) (k : ℤ)
    → HasKeys rows
    → count_where (reaches k) (claim_rows now locked limit lease rows).1
      ≡ min limit (count_where (λ r. is_due now locked r && reaches k r) rows)
unfolding claim_rows
claim-priority now lease limit locked rows k u =
    let c = λ (r : Row). contains (ids (due now locked limit rows)) r.id in
    count_where-select (reaches k) c (update_where c (leased now lease) rows)
    ∙ count_where-update_where (λ r. c r && reaches k r) c (leased now lease) rows (λ r. refl)
    ∙ count-chosen (λ r. r.id) (reaches k) rows (due now locked limit rows) u
        (due-HasKeys now limit locked rows u)
        (All-map (λ r h. h.1) (due now locked limit rows) (due-All now lease limit locked rows))
    ∙ count-due now limit locked rows k
