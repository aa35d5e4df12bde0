-- ===== src/Store/Apart.antt =====
-- Leases of internal/store/store.go: what keeps the runners that share the table apart.
use anvil_forge.Prelude.{
  refl, update_where, update_where, All, All-Member, All-map, All_member, Bool, Bool-cases, List,
  Member, Member-append, Member-update_where, Text, [], any_of_member, ==_refl, ap, arith, contains,
  contains-keys, false, inl, inr, is_none, same_row, some, subst, sym, to_ℕ, true, ℕ, ◌&&◌, ◌+◌,
  ◌==◌, ◌∙◌, ◌∷◌, ◌≡◌, ◌≢◌, ◌≤◌, ◌⊎◌,
}
use anvil_forge.Store.{
  Fetch, Store, claim_rows, write_result, jump_share, ids, is_due, null_if_empty,
}
use anvil_forge.Store.Lanes.{HasKeys, claim-due}
use anvil_forge.Store.Lease.{after-HasKeys, rows-chosen, rows-stamped}
use anvil_forge.Store.Results.{write_result-HasKeys}
use anvil_forge.Store.Settled.{Member-claim, requested-HasKeys}
use anvil_forge.Store.Steps.{
  Step, requested, claimed, completed, recorded, Reach, here, next, claim-cases, complete-cases,
  record_run-fetches,
}

-- A claim of the history comes no later than its own lease after `now`.
abbrev pub IsEarlyStep : ℕ → {s s' : Store} → Step s s' → Type 0
IsEarlyStep now (claimed now' locked fault limit lease e) = now' ≤ now + lease
IsEarlyStep now (requested f fresh new e) = Unit
IsEarlyStep now (completed format now' fault id o b x e) = Unit
IsEarlyStep now (recorded now' fault started st e) = Unit

abbrev pub IsEarly : ℕ → {s s' : Store} → Reach s s' → Type 0
IsEarly now here = Unit
IsEarly now (next r s) = IsEarly now r × IsEarlyStep now s

module _ (now k : ℕ) where
  -- Claimed at `now`, or fetched.
  abbrev IsHeld : Fetch → Type 0
  IsHeld f = (f.claimed_at ≡ some now) ⊎ (is_none f.fetched_at ≡ false)

  -- The row of the id is in the table, and held.
  abbrev Holds : List Fetch → Type 0
  Holds t = HasKeys t × ((f : Fetch) × Member f t × (f.id ≡ k) × IsHeld f)

  held-not_due :
      (now' lease : ℕ) (locked : ℕ → Bool) (f : Fetch)
      → now' ≤ now + lease
      → IsHeld f
      → is_due now' lease locked f ≡ false
  held-not_due now' lease locked f early (inl h) = rw h (ground arith)
  held-not_due now' lease locked f early (inr h) = rw h (ground arith)

  write_result-Holds :
      (now' id : ℕ) (o b x : Text) (t : List Fetch) → Holds t → Holds (write_result now' id o b x t)
  unfolding write_result
  write_result-Holds now' id o b x t (u, (f, m, i, h)) = (
    write_result-HasKeys now' id o b x t u,
    elim (Bool-cases (unsettled f)) [
      | inl c ↦ (
        write f,
        subst (λ y. Member y (update_where unsettled write t)) (rw c refl)
            (Member-update_where unsettled write t f m),
        i,
        inr refl,
      )
      | inr c ↦ (
        f,
        subst (λ y. Member y (update_where unsettled write t)) (rw c refl)
            (Member-update_where unsettled write t f m),
        i,
        h,
      )
    ],
  )
    where
      unsettled : Fetch → Bool
      unsettled g = g.id == id && is_none g.fetched_at

      write : Fetch → Fetch
      write g = record g {
        fetched_at = some now';
        outcome = some o;
        body = null_if_empty b;
        error = null_if_empty x;
      }

  Step-Holds :
      {s s' : Store} (q : Step s s') → IsEarlyStep now q → Holds s.fetches → Holds s'.fetches
  Step-Holds {s} (requested g fresh new e) early (u, (f, m, i, h)) =
      rw e (requested-HasKeys g s.fetches fresh u, (f, Member-append s.fetches (g ∷ []) f m, i, h))
  Step-Holds {s} (claimed now' locked fault limit lease e) early (u, (f, m, i, h)) =
      rw e (elim (claim-cases now' locked fault limit lease s) [
        | inl c ↦ rw c (u, (f, m, i, h))
        | inr c ↦ rw c (
          after-HasKeys now' lease locked (to_ℕ limit) (jump_share limit) s.fetches u,
          (
            f,
            Member-claim now' lease (to_ℕ limit) (jump_share limit) locked s.fetches f u m
                (held-not_due now' lease locked f early h),
            i,
            h,
          ),
        )
      ])
  Step-Holds {s} (completed format now' fault id o b x e) early v =
      rw e (elim (complete-cases format now' fault id o b x s) [
        | inl c ↦ rw c v
        | inr c ↦ rw c (write_result-Holds now' id o b x s.fetches v)
      ])
  Step-Holds {s} (recorded now' fault started st e) early v =
      rw (e, record_run-fetches now' fault started st s) v

  Reach-Holds : {s s' : Store} (r : Reach s s') → IsEarly now r → Holds s.fetches → Holds s'.fetches
  Reach-Holds here early v = v
  Reach-Holds (next r q) early v = Step-Holds q early.1 (Reach-Holds r early.0 v)

  -- A claim that comes early enough does not return the row.
  Holds-apart :
      (now' lease limit share : ℕ) (locked : ℕ → Bool) (t : List Fetch)
      → now' ≤ now + lease
      → Holds t
      → All (λ x. x.id ≢ k) (claim_rows now' lease locked limit share t).1
  Holds-apart now' lease limit share locked t early (u, (f, m, i, h)) =
      All-map apart _ (claim-due now' lease locked limit share t u)
    where
      apart :
          (x : Fetch)
          → (g : Fetch) × Member g t
            × (is_due now' lease locked g ≡ true)
            × (x ≡ record g { claimed_at = some now' })
          → x.id ≢ k
      apart x (g, n, due, e) z =
          let same =
            same_row (λ f. f.id) t g f u n m (ap (λ (f : Fetch). f.id) (sym e) ∙ z ∙ sym i) in
          ground (
            arith,
            held-not_due now' lease locked f early h,
            due,
            ap (is_due now' lease locked) same,
          )

-- Take a claim on a table whose ids are distinct, and any history of the store after it, in which
-- runners claim, complete and record and the site asks for more fetches, and each claim comes no later
-- than its own lease after the first. A further claim that does so too, whatever its limits and locks,
-- returns none of the rows that the first one returned.
pub claim-claim_apart :
    (now lease : ℕ) (locked : ℕ → Bool) (limit share : ℕ) (s s' : Store)
    (r : Reach (record s { fetches = (claim_rows now lease locked limit share s.fetches).0 }) s')
    (now' lease' : ℕ) (locked' : ℕ → Bool) (limit' share' : ℕ)
    → HasKeys s.fetches
    → IsEarly now r
    → now' ≤ now + lease'
    → All
        (λ x. All (λ y. x.id ≢ y.id) (claim_rows now lease locked limit share s.fetches).1)
        (claim_rows now' lease' locked' limit' share' s'.fetches).1
claim-claim_apart now lease locked limit share s s' r now' lease' locked' limit' share' u early e =
    All-map
      (λ x m.
        All-map (λ y n. All_member (λ x. x.id ≢ y.id) later x (each y n) m) first
          (All-Member first))
      later (All-Member later)
  where
    first : List Fetch
    first = (claim_rows now lease locked limit share s.fetches).1

    later : List Fetch
    later = (claim_rows now' lease' locked' limit' share' s'.fetches).1

    each : (y : Fetch) → Member y first → All (λ x. x.id ≢ y.id) later
    each y n =
        let m = (All_member _ first y (rows-chosen now lease locked limit share s.fetches) n).1 in
        let chosen : contains (ids first) y.id ≡ true =
          contains-keys (λ f. f.id) first y.id
          ∙ any_of_member (λ x. x.id == y.id) first y n (==_refl y.id) in
        Holds-apart now y.id now' lease' limit' share' locked' s'.fetches e (
          Reach-Holds now y.id r early (
            after-HasKeys now lease locked limit share s.fetches u,
            (y, m, refl, inl (rows-stamped now lease locked limit share s.fetches y m chosen)),
          ))
