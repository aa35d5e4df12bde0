-- ===== src/Discord/Queue/Handout.antt =====
-- What is put in comes out: from `Enqueue` to `Claim` of internal/discord/queue.go.
use anvil_forge.Prelude.{
  ==_refl, Bool, Bool-cases, List, Member, Member-append_right, Member-select, Member-update_where,
  Text, [], any, any-none, ap, arith, contains, contains-keys, count_of_member, count_where,
  count_where-order_by, count_where_none, false, inl, inr, length-order_by, length-select, order_by,
  refl, select, subst, sym, take, take_all, true, update_where, ℕ, ℤ, ◌==◌, ◌∙◌, ◌∷◌, ◌≡◌, ◌≤◌,
}
use anvil_forge.Discord.Rows.{
  Outside, Row, Queue, ok, no_fault, bucket_for, new_row, null_if_empty, same_key, enqueue,
}
use anvil_forge.Discord.Queue.{claim_rows, due, ids, is_due, leased, before, to_delivery}

-- A due row is among the chosen ones where the limit leaves none out.
due-contains :
    (now limit : ℕ) (locked : ℕ → Bool) (rows : List Row) (r : Row)
    → Member r rows
    → is_due now locked r ≡ true
    → count_where (is_due now locked) rows ≤ limit
    → contains (ids (due now locked limit rows)) r.id ≡ true
unfolding due
due-contains now limit locked rows r m d n =
    let l = select (is_due now locked) rows in
    let all =
      take_all limit (order_by before l)
        (omega (arith, n, length-order_by before l, length-select (is_due now locked) rows)) in
    elim (Bool-cases (contains (ids (take limit (order_by before l))) r.id)) [
      | inl h ↦ h
      | inr h ↦ absurd (
          omega (
            arith,
            count_where_none (λ x. x.id == r.id) (order_by before l)
                (any-none (λ x. x.id == r.id) (order_by before l)
                  (sym (contains-keys (λ x. x.id) (order_by before l) r.id)
                    ∙ ap (λ xs. contains (ids xs) r.id) (sym all)
                    ∙ h)),
            count_where-order_by (λ x. x.id == r.id) before l,
            count_of_member (λ x. x.id == r.id) l r (Member-select (is_due now locked) rows r m d)
                (==_refl r.id),
          ))
    ]

claim-Member :
    (now lease limit : ℕ) (locked : ℕ → Bool) (rows : List Row) (r : Row)
    → Member r rows
    → is_due now locked r ≡ true
    → count_where (is_due now locked) rows ≤ limit
    → Member (leased now lease r) (claim_rows now locked limit lease rows).1
unfolding claim_rows
claim-Member now lease limit locked rows r m d n =
    let c = λ (x : Row). contains (ids (due now locked limit rows)) x.id in
    let chosen = due-contains now limit locked rows r m d n in
    Member-select c (update_where c (leased now lease) rows) (leased now lease r)
      (subst (λ x. Member x (update_where c (leased now lease) rows)) (rw chosen refl)
        (Member-update_where c (leased now lease) rows r m))
      chosen

-- A message without a key, or with one that the table does not hold, is stored under a new id if its
-- statement does not fail, and a claim on the table as the enqueue left it, no earlier than it, with the
-- new row unlocked and a limit as large as the rows that are due, hands it out: the same address and
-- priority, the payload as the jsonb column gives it back, in the bucket of its address, as a first
-- attempt.
pub enqueue-claim :
    (outside : Outside) (now later : ℕ) (url payload key : Text) (priority : ℤ) (q : Queue)
    (locked : ℕ → Bool) (lease limit : ℕ)
    → any (λ r. same_key (null_if_empty key) r.dedupe_key) q.rows ≡ false
    → now ≤ later
    → locked q.next_id ≡ false
    → count_where
        (is_due later locked)
        (enqueue outside now no_fault url payload key priority q).0.rows
      ≤ limit
    → ((enqueue outside now no_fault url payload key priority q).1 ≡ ok q.next_id)
      × ((x : Row) × Member x
            (claim_rows later locked limit lease
              (enqueue outside now no_fault url payload key priority q).0.rows).1
          × (to_delivery x ≡ record {
            id = q.next_id;
            webhook_url = url;
            bucket = bucket_for outside.sha256 url;
            payload = outside.jsonb payload;
            attempts = 1;
            priority = priority;
          }))
unfolding enqueue
enqueue-claim outside now later url payload key priority q locked lease limit fresh t free n =
    let r = new_row outside now q.next_id url payload (null_if_empty key) priority in
    let rows = (enqueue outside now no_fault url payload key priority q).0.rows in
    let there : Member r rows =
      rw fresh (Member-append_right q.rows (r ∷ []) r (Member.head refl)) in
    (
      rw fresh refl,
      (
        leased later lease r,
        claim-Member later lease limit locked rows r there (ground (arith, t, free)) n,
        refl,
      ),
    )
