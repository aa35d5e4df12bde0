-- ===== src/Store/Recovery.antt =====
-- No fetch is lost: what every history of internal/store/store.go leaves to be claimed.
use anvil_forge.Prelude.{
  ==_iff, ==_refl, Bool, Bool-cases, List, Member, Option, Text, [], any, any-none, arith,
  count_of_member, count_where, count_where-append, count_where-update_where, count_where_none,
  false, find_member, inl, inr, is_none, none, refl, some, to_ℕ, true, ℕ, ◌&&◌, ◌+◌, ◌<◌, ◌==◌, ◌∷◌,
  ◌≡◌, ◌≤◌, ◌⊎◌,
}
use anvil_forge.Store.{
  Fetch, Store, claim_rows, write_result, jump_share, stamp, is_pending, null_if_empty,
}
use anvil_forge.Store.Steps.{
  Step, requested, claimed, completed, recorded, Reach, here, next, claim-cases, complete-cases,
  record_run-fetches,
}

abbrev Holds : ℕ → Store → Type 0
Holds id s = 1 ≤ count_where (λ f. f.id == id) s.fetches

count-claim_rows :
    (now lease limit share : ℕ) (locked : ℕ → Bool) (t : List Fetch) (id : ℕ)
    → count_where (λ f. f.id == id) (claim_rows now lease locked limit share t).0
      ≡ count_where (λ f. f.id == id) t
unfolding claim_rows stamp
count-claim_rows now lease limit share locked t id =
    count_where-update_where (λ f. f.id == id) _ (λ f. record f { claimed_at = some now }) t
      (λ f. refl)

count_id-write_result :
    (now n : ℕ) (o b e : Text) (t : List Fetch) (id : ℕ)
    → count_where (λ f. f.id == id) (write_result now n o b e t) ≡ count_where (λ f. f.id == id) t
unfolding write_result
count_id-write_result now n o b e t id =
    count_where-update_where (λ f. f.id == id) (λ f. f.id == n && is_none f.fetched_at)
      (λ f. record f {
        fetched_at = some now;
        outcome = some o;
        body = null_if_empty b;
        error = null_if_empty e;
      })
      t (λ f. refl)

Step-Holds : (id : ℕ) {s s' : Store} → Step s s' → Holds id s → Holds id s'
Step-Holds id {s} (requested g fresh new e) h =
    rw e (omega (arith, h, count_where-append (λ f. f.id == id) s.fetches (g ∷ [])))
Step-Holds id {s} (claimed now locked fault limit lease e) h =
    rw e (elim (claim-cases now locked fault limit lease s) [
      | inl c ↦ rw c h
      | inr c ↦ rw c (
          omega (
            arith,
            h,
            count-claim_rows now lease (to_ℕ limit) (jump_share limit) locked s.fetches id,
          ))
    ])
Step-Holds id {s} (completed format now fault n o b x e) h =
    rw e (elim (complete-cases format now fault n o b x s) [
      | inl c ↦ rw c h
      | inr c ↦ rw c (omega (arith, h, count_id-write_result now n o b x s.fetches id))
    ])
Step-Holds id {s} (recorded now fault started st e) h =
    rw (e, record_run-fetches now fault started st s) h

Reach-Holds : (id : ℕ) {s s' : Store} → Reach s s' → Holds id s → Holds id s'
Reach-Holds id here h = h
Reach-Holds id (next r s) h = Step-Holds id s (Reach-Holds id r h)

abbrev pub Recovers : Fetch → Type 0
Recovers f =
    (lease : ℕ) → (until : ℕ) × ((later : ℕ) → until < later → is_pending later lease f ≡ true)

unfetched-Recovers :
    (f : Fetch) (claimed_at : Option ℕ)
    → f.claimed_at ≡ claimed_at
    → is_none f.fetched_at ≡ true
    → Recovers f
unfetched-Recovers f none c h lease = (0, λ later l. ground (arith, c, h))
unfetched-Recovers f (some t) c h lease = (t + lease, λ later l. ground (arith, c, h, l))

-- A fetch that is asked for is not lost: after any history of the store, in which claims, completions
-- and run logs of any processes may fail or be missing, a row of its id is in the table, and it has
-- its result or is pending again from some time on, whatever the lease.
pub Reach-Recovers :
    {s s' : Store} (f : Fetch)
    → Member f s.fetches
    → Reach s s'
    → (g : Fetch) × Member g s'.fetches
      × (g.id ≡ f.id)
      × ((is_none g.fetched_at ≡ false) ⊎ Recovers g)
Reach-Recovers {s} {s'} f m r =
    let held =
      Reach-Holds f.id r (count_of_member (λ g. g.id == f.id) s.fetches f m (==_refl f.id)) in
    let (g, n, e) = find_member (λ g. g.id == f.id) s'.fetches (held_any s'.fetches held) in
    (
      g,
      n,
      (==_iff g.id f.id).0 e,
      elim (Bool-cases (is_none g.fetched_at)) [
        | inl h ↦ inr (unfetched-Recovers g g.claimed_at refl h)
        | inr h ↦ inl h
      ],
    )
  where
    held_any :
        (t : List Fetch) → 1 ≤ count_where (λ g. g.id == f.id) t → any (λ g. g.id == f.id) t ≡ true
    held_any t h = elim (Bool-cases (any (λ g. g.id == f.id) t)) [
      | inl a ↦ a
      | inr a ↦ absurd (
          omega
            (arith, h, count_where_none (λ g. g.id == f.id) t (any-none (λ g. g.id == f.id) t a)))
    ]
