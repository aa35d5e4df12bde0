-- ===== src/Store/Lanes.antt =====
-- What one claim of internal/store/store.go returns: how many rows of each lane, in which order, and
-- that they are the due rows of the table, stamped.
use anvil_forge.Prelude.{
  ◌↔◌, suc, ◌≤◌, count-chosen, IsKeyed, chosen_row, ℕ, ◌-◌, min, ◌≡◌, refl, ◌∙◌, Bool, true, not,
  ◌&&◌, List, some, arith, All, select, update_where, count_where, contains, IsSorted, Member, pos,
  ◌==◌, if◌then◌else◌, Bool-cases, inl, inr, count_where-order_by, count_where-select,
  count_where-update_where, All-order_by, All-select, All-map, All-Member, All-update_where,
}
use anvil_forge.Store.{
  Fetch, before, is_jump, is_due, due, jump_share, ids, stamp, returning, claim_rows,
}
use anvil_forge.Store.Selection.{
  sorted, jump_share-le, due_jumps, due_rest, due-All, count-due-jumps, count-due-rest,
  count-due-le,
}

-- The primary key: no id stands in two rows.
abbrev pub HasKeys : List Fetch → Type 0
HasKeys = IsKeyed (λ f. f.id)

module _ (now lease : ℕ) (locked : ℕ → Bool) (limit share : ℕ) (t : List Fetch)
    (u : HasKeys t) where
  abbrev claimed : List Fetch
  claimed = (claim_rows now lease locked limit share t).1

  abbrev chosen_rows : List Fetch
  chosen_rows = due now lease locked limit share t

  chosen-HasKeys : HasKeys chosen_rows
  chosen-HasKeys k =
      omega (arith, u k, count-due-le now lease locked (λ f. f.id == k) limit share t)

  -- The join on the primary key returns what was selected, as often.
  count-claim :
      (p : Fetch → Bool)
      → ((f : Fetch) → p (record f { claimed_at = some now }) ≡ p f)
      → count_where p claimed ≡ count_where p chosen_rows
  unfolding claim_rows returning stamp
  count-claim p keep =
      let q = λ (f : Fetch). contains (ids chosen_rows) f.id in
      let s = λ (f : Fetch). record f { claimed_at = some now } in
      count_where-order_by p before (select q (update_where q s t))
      ∙ count_where-select p q (update_where q s t)
      ∙ count_where-update_where (λ f. q f && p f) q s t (λ f. rw (keep f))
      ∙ count-chosen (λ f. f.id) p t chosen_rows u chosen-HasKeys
          (All-map (λ f h. h.1) chosen_rows (due-All now lease locked limit share t))

  chosen_due :
      (f : Fetch)
      → Member f t
      → contains (ids chosen_rows) f.id ≡ true
      → is_due now lease locked f ≡ true
  chosen_due f m h =
      chosen_row (λ f. f.id) (λ f. is_due now lease locked f ≡ true) t chosen_rows f u
        (due-All now lease locked limit share t) m h

  -- On a table whose ids are distinct, each row that a claim returns is a row of the table that was
  -- due, that is not fetched, not under a live lease and not locked, with the claim's time written in.
  pub claim-due :
      All
        (λ r.
          (f : Fetch) × Member f t
          × (is_due now lease locked f ≡ true)
          × (r ≡ record f { claimed_at = some now }))
        claimed
  unfolding claim_rows returning stamp
  claim-due = All-order_by before Stamped _ (
      All-map (λ r h. h.1 h.0) _
        (All-select (λ f. contains (ids chosen_rows) f.id) Chosen _
          (All-update_where Chosen (λ f. contains (ids chosen_rows) f.id)
            (λ f. record f { claimed_at = some now }) t (All-map stamped t (All-Member t)))))
    where
      Stamped : Fetch → Type 0
      Stamped r =
          (f : Fetch) × Member f t
          × (is_due now lease locked f ≡ true)
          × (r ≡ record f { claimed_at = some now })

      Chosen : Fetch → Type 0
      Chosen r = contains (ids chosen_rows) r.id ≡ true → Stamped r

      stamped :
          (f : Fetch)
          → Member f t
          → Chosen
              (if contains (ids chosen_rows) f.id then record f { claimed_at = some now } else f)
      stamped f m = elim (Bool-cases (contains (ids chosen_rows) f.id)) [
        | inl e ↦ rw e (λ h. (f, m, chosen_due f m e, refl))
        | inr e ↦ rw e (λ h. absurd (ground arith))
      ]

returning-IsSorted : (chosen : List ℕ) (t : List Fetch) → IsSorted before (returning chosen t)
unfolding returning
returning-IsSorted chosen t = sorted (select (λ f. contains chosen f.id) t)

-- On a table whose ids are distinct, one claim returns exactly as many late joiners (priority below
-- zero) as are due, up to their share of the limit, and exactly as many other rows as are due, up to
-- what the late joiners leave of the limit; and it returns them by priority, then oldest first.
pub claim-lanes :
    (now lease : ℕ) (locked : ℕ → Bool) (limit : ℕ) (t : List Fetch)
    → HasKeys t
    → let share = jump_share (pos limit) in
      let rows = (claim_rows now lease locked limit share t).1 in
      let jumps = min share (due_jumps now lease locked t) in
      (count_where is_jump rows ≡ jumps)
      × (count_where (λ f. not (is_jump f)) rows
          ≡ min (limit - jumps) (due_rest now lease locked t))
      × IsSorted before rows
unfolding claim_rows
claim-lanes now lease locked limit t u =
    let share = jump_share (pos limit) in
    let le = jump_share-le limit in
    (
      count-claim now lease locked limit share t u is_jump (λ f. refl)
          ∙ count-due-jumps now lease locked limit share t le,
      count-claim now lease locked limit share t u (λ f. not (is_jump f)) (λ f. refl)
          ∙ count-due-rest now lease locked limit share t le,
      returning-IsSorted (ids (due now lease locked limit share t))
          (stamp now (ids (due now lease locked limit share t)) t),
    )

jump_share-lt :
    (limit : ℕ)
    → 1 ≤ limit
    → (1 ≤ jump_share (pos limit)) × (2 ≤ limit → suc (jump_share (pos limit)) ≤ limit)
unfolding jump_share
jump_share-lt limit h = ground arith

-- On a table whose ids are distinct, where late joiners and other rows are due and the limit is
-- positive, a claim returns some row that is no late joiner exactly when its limit is at least two:
-- with a limit of one the late joiners do stop the other lanes.
pub claim-rest_iff :
    (now lease : ℕ) (locked : ℕ → Bool) (limit : ℕ) (t : List Fetch)
    → HasKeys t
    → 1 ≤ limit
    → 1 ≤ due_jumps now lease locked t
    → 1 ≤ due_rest now lease locked t
    → (1
        ≤ count_where
            (λ f. not (is_jump f))
            (claim_rows now lease locked limit (jump_share (pos limit)) t).1)
      ↔ (2 ≤ limit)
claim-rest_iff now lease locked limit t u h j r =
    let e = (claim-lanes now lease locked limit t u).1 in
    (
      λ k. omega (arith, e, (jump_share-lt limit h).0),
      λ k. omega (arith, e, (jump_share-lt limit h).1 k),
    )
