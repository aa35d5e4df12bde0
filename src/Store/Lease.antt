-- ===== src/Store/Lease.antt =====
-- Leases of internal/store/store.go: a claimed row is held until its lease lapses, and then comes
-- back by itself.
use anvil_forge.Prelude.{
  contains-keys, ℕ, ◌+◌, ◌≤◌, ◌<◌, ◌≡◌, refl, sym, ◌∙◌, subst, Bool, true, List, some, arith, All,
  select, contains, Member, ◌==◌, count_where-update_where, All-order_by, All-select, All-map,
  All-Member, All-update_where, All-both, All_member, find_member, ==_iff,
}
use anvil_forge.Store.{Fetch, before, is_due, is_pending, due, ids, stamp, returning, claim_rows}
use anvil_forge.Store.Lanes.{HasKeys, claim-due}

module _ (now lease : ℕ) (locked : ℕ → Bool) (limit share : ℕ) (t : List Fetch) where
  abbrev pub after : List Fetch
  after = (claim_rows now lease locked limit share t).0

  abbrev pub rows : List Fetch
  rows = (claim_rows now lease locked limit share t).1

  pub after-HasKeys : HasKeys t → HasKeys after
  unfolding claim_rows stamp
  after-HasKeys u k =
      subst (λ (n : ℕ). n ≤ 1) (sym (count_where-update_where (λ f. f.id == k) _ _ t (λ f. refl)))
        (u k)

  abbrev pub chosen : List ℕ
  chosen = ids (due now lease locked limit share t)

  -- The rows with a chosen id carry the time of the claim.
  after-stamped : All (λ f. contains chosen f.id ≡ true → f.claimed_at ≡ some now) after
  unfolding claim_rows stamp
  after-stamped =
      All-update_where (λ f. contains chosen f.id ≡ true → f.claimed_at ≡ some now)
        (λ f. contains chosen f.id) (λ f. record f { claimed_at = some now }) t
        (All-map (λ f m. ground arith) t (All-Member t))

  pub rows-chosen : All (λ r. (contains chosen r.id ≡ true) × Member r after) rows
  unfolding claim_rows returning
  rows-chosen =
      All-order_by before (λ r. (contains chosen r.id ≡ true) × Member r after)
        (select (λ f. contains chosen f.id) after)
        (All-select (λ f. contains chosen f.id) (λ r. Member r after) after (All-Member after))

  pub rows-stamped :
      (f : Fetch) → Member f after → contains (ids rows) f.id ≡ true → f.claimed_at ≡ some now
  rows-stamped f m h =
      let (g, n, e) =
        find_member (λ g. g.id == f.id) rows (sym (contains-keys (λ f. f.id) rows f.id) ∙ h) in
      All_member _ after f after-stamped m (
        subst (λ i. contains chosen i ≡ true) ((==_iff g.id f.id).0 e)
          (All_member _ rows g rows-chosen n).0)

-- On a table whose ids are distinct, each row that a claim returned and that nobody completed stands
-- in the table and is pending again once the lease has lapsed.
pub claim-is_pending_later :
    (now lease later : ℕ) (locked : ℕ → Bool) (limit share : ℕ) (t : List Fetch)
    → HasKeys t
    → now + lease < later
    → let (t', rows) = claim_rows now lease locked limit share t in
      All (λ r. Member r t' × (is_pending later lease r ≡ true)) rows
claim-is_pending_later now lease later locked limit share t u late =
    let (t', rows) = claim_rows now lease locked limit share t in
    All-map again rows (
      All-both Kept Stamped rows (rows-chosen now lease locked limit share t)
        (claim-due now lease locked limit share t u))
  where
    Kept : Fetch → Type 0
    Kept r =
        (contains (ids (due now lease locked limit share t)) r.id ≡ true)
        × Member r (claim_rows now lease locked limit share t).0

    Stamped : Fetch → Type 0
    Stamped r =
        (f : Fetch) × Member f t
        × (is_due now lease locked f ≡ true)
        × (r ≡ record f { claimed_at = some now })

    again :
        (r : Fetch)
        → Kept r × Stamped r
        → Member r (claim_rows now lease locked limit share t).0 × (is_pending later lease r ≡ true)
    again r (k, (f, m, d, e)) =
        (k.1, subst (λ r. is_pending later lease r ≡ true) (sym e) (ground arith))
