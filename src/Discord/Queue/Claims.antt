-- ===== src/Discord/Queue/Claims.antt =====
-- What one claim of internal/discord/queue.go selects and changes.
use anvil_forge.Prelude.{
  chosen_row, All-take, All-update_where, All-map, subst, All, All-Member, All-order_by, All-select,
  Bool, Bool-cases, IsKeyed, IsKeyed-update_where, List, Member, Member-update_where, arith,
  contains, false, if◌then◌else◌, inl, inr, refl, true, update_where, ℕ, ◌≡◌,
}
use anvil_forge.Discord.Rows.{Row}
use anvil_forge.Discord.Queue.{is_due, before, due, ids, leased, claim_rows}

abbrev pub HasKeys : List Row → Type 0
HasKeys = IsKeyed (λ r. r.id)

module _ (now lease limit : ℕ) (locked : ℕ → Bool) (rows : List Row) where
  abbrev chosen : Row → Bool
  chosen r = contains (ids (due now locked limit rows)) r.id

  pub due-All : All (λ r. (is_due now locked r ≡ true) × Member r rows) (due now locked limit rows)
  unfolding due
  due-All =
      All-take (λ r. (is_due now locked r ≡ true) × Member r rows) limit _
        (All-order_by before (λ r. (is_due now locked r ≡ true) × Member r rows) _
          (All-select (is_due now locked) (λ r. Member r rows) rows (All-Member rows)))

  pub chosen-is_due :
      HasKeys rows → (r : Row) → Member r rows → chosen r ≡ true → is_due now locked r ≡ true
  chosen-is_due u r m h =
      chosen_row (λ r. r.id) (λ r. is_due now locked r ≡ true) rows (due now locked limit rows) r u
        due-All m h

  -- A row that is not due stays as it is.
  pub Member-claim :
      HasKeys rows
      → (r : Row) → Member r rows
      → is_due now locked r ≡ false
      → Member r (claim_rows now locked limit lease rows).0
  unfolding claim_rows
  Member-claim u r m e =
      subst (λ x. Member x (update_where chosen (leased now lease) rows)) (kept (chosen r) refl)
        (Member-update_where chosen (leased now lease) rows r m)
    where
      kept : (b : Bool) → chosen r ≡ b → (if chosen r then leased now lease r else r) ≡ r
      kept true h = ground (arith, chosen-is_due u r m h)
      kept false h = rw h

  pub claim-HasKeys : HasKeys rows → HasKeys (claim_rows now locked limit lease rows).0
  unfolding claim_rows
  claim-HasKeys u = IsKeyed-update_where (λ r. r.id) chosen (leased now lease) rows (λ r. refl) u

  -- What holds of the rows that stay and of those that are leased.
  pub claim-All :
      (P : Row → Type 0)
      → HasKeys rows
      → ((r : Row) → Member r rows → P r)
      → ((r : Row) → Member r rows → is_due now locked r ≡ true → P (leased now lease r))
      → All P (claim_rows now locked limit lease rows).0
  unfolding claim_rows
  claim-All P u keep lend =
      All-update_where P chosen (leased now lease) rows (All-map each rows (All-Member rows))
    where
      each : (r : Row) → Member r rows → P (if chosen r then leased now lease r else r)
      each r m = elim (Bool-cases (chosen r)) [
        | inl h ↦ rw h (lend r m (chosen-is_due u r m h))
        | inr h ↦ rw h (keep r m)
      ]

  -- The rows that a claim returns are the due ones, leased.
  pub claim-due :
      HasKeys rows
      → All
          (λ x. (r : Row) × Member r rows × (is_due now locked r ≡ true) × (x ≡ leased now lease r))
          (claim_rows now locked limit lease rows).1
  unfolding claim_rows
  claim-due u =
      All-map (λ x h. h.1 h.0) _
        (All-select chosen Chosen (update_where chosen (leased now lease) rows) (
          All-update_where Chosen chosen (leased now lease) rows
            (All-map each rows (All-Member rows))))
    where
      Leased : Row → Type 0
      Leased x = (r : Row) × Member r rows × (is_due now locked r ≡ true) × (x ≡ leased now lease r)

      Chosen : Row → Type 0
      Chosen x = chosen x ≡ true → Leased x

      each : (r : Row) → Member r rows → Chosen (if chosen r then leased now lease r else r)
      each r m = elim (Bool-cases (chosen r)) [
        | inl h ↦ rw h (λ k. (r, m, chosen-is_due u r m h, refl))
        | inr h ↦ rw h (λ k. absurd (ground arith))
      ]
