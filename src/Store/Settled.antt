-- ===== src/Store/Settled.antt =====
-- Fetches that internal/store/store.go is done with: what no history of the store changes.
use anvil_forge.Prelude.{
  ◌++◌, count_where, ==_iff, All, All-map, Bool, Bool-cases, List, Member, Member-append,
  Member-update_where, Text, [], ap, arith, chosen_row, contains, count_where-append, false,
  if◌then◌else◌, inl, inr, is_none, same_row, some, subst, sym, to_ℕ, true, update_where, ℕ, ◌&&◌,
  ◌==◌, ◌∙◌, ◌∷◌, ◌≡◌, ◌≢◌, ◌⊎◌,
}
use anvil_forge.Store.{
  Fetch, Store, claim_rows, write_result, jump_share, stamp, due, ids, is_due, null_if_empty,
}
use anvil_forge.Store.Selection.{due-All}
use anvil_forge.Store.Lanes.{HasKeys, claim-due}
use anvil_forge.Store.Lease.{after-HasKeys}
use anvil_forge.Store.Results.{write_result-HasKeys}
use anvil_forge.Store.Steps.{
  Step, requested, claimed, completed, recorded, Reach, here, next, claim-cases, complete-cases,
  record_run-fetches,
}

-- A row that is not due stays as it is.
pub Member-claim :
    (now lease limit share : ℕ) (locked : ℕ → Bool) (t : List Fetch) (f : Fetch)
    → HasKeys t
    → Member f t
    → is_due now lease locked f ≡ false
    → Member f (claim_rows now lease locked limit share t).0
unfolding claim_rows stamp
Member-claim now lease limit share locked t f u m d =
    subst (λ x. Member x (update_where chosen (λ f. record f { claimed_at = some now }) t))
      (kept (Bool-cases (chosen f)))
      (Member-update_where chosen (λ f. record f { claimed_at = some now }) t f m)
  where
    chosen : Fetch → Bool
    chosen f = contains (ids (due now lease locked limit share t)) f.id

    kept :
        (chosen f ≡ true) ⊎ (chosen f ≡ false)
        → (if chosen f then record f { claimed_at = some now } else f) ≡ f
    kept (inl h) = absurd (
        ground (
          arith,
          d,
          chosen_row (λ f. f.id) (λ f. is_due now lease locked f ≡ true) t
              (due now lease locked limit share t) f u (due-All now lease locked limit share t) m h,
        ))
    kept (inr h) = rw h

Member-write_result :
    (now id : ℕ) (o b e : Text) (t : List Fetch) (f : Fetch)
    → Member f t
    → is_none f.fetched_at ≡ false
    → Member f (write_result now id o b e t)
unfolding write_result
Member-write_result now id o b e t f m h =
    subst (λ x. Member x (update_where unsettled write t)) kept
      (Member-update_where unsettled write t f m)
  where
    unsettled : Fetch → Bool
    unsettled g = g.id == id && is_none g.fetched_at

    write : Fetch → Fetch
    write g = record g {
      fetched_at = some now;
      outcome = some o;
      body = null_if_empty b;
      error = null_if_empty e;
    }

    kept : (if unsettled f then write f else f) ≡ f
    kept = ground (arith, h)

-- A new row with an id of its own.
pub requested-HasKeys :
    (g : Fetch) (t : List Fetch)
    → count_where (λ x. x.id == g.id) t ≡ 0
    → HasKeys t
    → HasKeys (t ++ g ∷ [])
requested-HasKeys g t fresh u k =
    ground (arith, u k, fresh, count_where-append (λ x. x.id == k) t (g ∷ []), ==_iff g.id k)

module _ (f : Fetch) (done : is_none f.fetched_at ≡ false) where
  -- The row stands in a table whose ids are distinct.
  abbrev Stands : Store → Type 0
  Stands s = HasKeys s.fetches × Member f s.fetches

  Step-Stands : {s s' : Store} → Step s s' → Stands s → Stands s'
  Step-Stands {s} (requested g fresh new e) (u, m) =
      rw e (requested-HasKeys g s.fetches fresh u, Member-append s.fetches (g ∷ []) f m)
  Step-Stands {s} (claimed now locked fault limit lease e) (u, m) =
      rw e (elim (claim-cases now locked fault limit lease s) [
        | inl h ↦ rw h (u, m)
        | inr h ↦ rw h (
          after-HasKeys now lease locked (to_ℕ limit) (jump_share limit) s.fetches u,
          Member-claim now lease (to_ℕ limit) (jump_share limit) locked s.fetches f u m
              (ground (arith, done)),
        )
      ])
  Step-Stands {s} (completed format now fault id o b x e) (u, m) =
      rw e (elim (complete-cases format now fault id o b x s) [
        | inl h ↦ rw h (u, m)
        | inr h ↦ rw h (
          write_result-HasKeys now id o b x s.fetches u,
          Member-write_result now id o b x s.fetches f m done,
        )
      ])
  Step-Stands {s} (recorded now fault started st e) (u, m) =
      rw (e, record_run-fetches now fault started st s) (u, m)

  pub Reach-Stands : {s s' : Store} → Reach s s' → Stands s → Stands s'
  Reach-Stands here h = h
  Reach-Stands (next r s) h = Step-Stands s (Reach-Stands r h)

-- Once a fetch of a table whose ids are distinct has its result, no history of the store, in which any
-- number of processes claim, complete and record and the site asks for more fetches, changes its row,
-- and no claim at any time, under any lease, limits and locks, hands it out again.
pub fetched-claim :
    {s s' : Store} (f : Fetch)
    → HasKeys s.fetches
    → Member f s.fetches
    → is_none f.fetched_at ≡ false
    → Reach s s'
    → Member f s'.fetches
      × ((now lease limit share : ℕ) (locked : ℕ → Bool)
          → All (λ x. x.id ≢ f.id) (claim_rows now lease locked limit share s'.fetches).1)
fetched-claim {s} {s'} f u m d r =
    let h = Reach-Stands f d r (u, m) in
    (
      h.1,
      λ now lease limit share locked.
          All-map (λ x c e. apart now lease locked x c e h) _
            (claim-due now lease locked limit share s'.fetches h.0),
    )
  where
    apart :
        (now lease : ℕ) (locked : ℕ → Bool) (x : Fetch)
        → (g : Fetch) × Member g s'.fetches
          × (is_due now lease locked g ≡ true)
          × (x ≡ record g { claimed_at = some now })
        → x.id ≡ f.id
        → HasKeys s'.fetches × Member f s'.fetches
        → ⊥
    apart now lease locked x (g, n, due, e) i (v, k) =
        let same =
          same_row (λ f. f.id) s'.fetches g f v n k (ap (λ (f : Fetch). f.id) (sym e) ∙ i) in
        ground (arith, d, due, ap (is_due now lease locked) same)
