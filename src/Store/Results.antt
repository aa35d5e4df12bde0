-- ===== src/Store/Results.antt =====
-- What `Complete` and `Backlog` of internal/store/store.go do to the queue.
use anvil_forge.Prelude.{
  ℕ, suc, ◌+◌, ◌≤◌, ◌≡◌, refl, ap, sym, ◌∙◌, subst, Bool, true, false, ◌&&◌, List, [], ◌∷◌, some,
  none, arith, All, update_where, count_where, Member, ◌==◌, Text, count_where-update_where,
  All-map, All-Member, All-update_where, All_member, is_none, ==_refl, count_of_member,
  count_where_mono,
}
use anvil_forge.Store.{
  Fetch, Store, ok, Fault, no_fault, query_fault, is_due, claim_rows, complete, write_result,
  backlog, null_if_empty,
}
use anvil_forge.Store.Lanes.{HasKeys, claim-due}

abbrev pub is_unfetched : Fetch → Bool
is_unfetched f = is_none f.fetched_at

abbrev Settled : ℕ → Fetch → Type 0
Settled id f = (f.id == id) ≡ true → is_unfetched f ≡ false

write_result-Settled :
    (now id : ℕ) (outcome body err_text : Text) (t : List Fetch)
    → All (Settled id) (write_result now id outcome body err_text t)
unfolding write_result
write_result-Settled now id outcome body err_text t =
    All-update_where (Settled id) (λ f. f.id == id && is_none f.fetched_at)
      (λ f. record f {
        fetched_at = some now;
        outcome = some outcome;
        body = null_if_empty body;
        error = null_if_empty err_text;
      })
      t (All-map (λ f m. ground arith) t (All-Member t))

update_where_none :
    (c : Fetch → Bool) (f : Fetch → Fetch) (t : List Fetch)
    → All (λ x. c x ≡ false) t
    → update_where c f t ≡ t
update_where_none c f [] h = refl
update_where_none c f (x ∷ t) h = rw (h.0, update_where_none c f t h.1)

write_result-write_result :
    (now now' id : ℕ) (o b e o' b' e' : Text) (t : List Fetch)
    → write_result now' id o' b' e' (write_result now id o b e t) ≡ write_result now id o b e t
write_result-write_result now now' id o b e o' b' e' t =
    unfold write_result in
    update_where_none (λ f. f.id == id && is_none f.fetched_at) _ (write_result now id o b e t)
      (All-map (λ f h. ground arith) _ (write_result-Settled now id o b e t))

pub write_result-HasKeys :
    (now id : ℕ) (outcome body err_text : Text) (t : List Fetch)
    → HasKeys t
    → HasKeys (write_result now id outcome body err_text t)
unfolding write_result
write_result-HasKeys now id outcome body err_text t u k =
    subst (λ (n : ℕ). n ≤ 1) (sym (count_where-update_where (λ f. f.id == k) _ _ t (λ f. refl)))
      (u k)

complete-settled :
    (format : ℕ → Text) (now id : ℕ) (o b e : Text) (s : Store) (fault : Fault)
    → s.dry_run ≡ false
    → write_result now id o b e s.fetches ≡ s.fetches
    → (complete format now fault id o b e s).0 ≡ s
unfolding complete
complete-settled format now id o b e s (query_fault c) wet h = rw wet
complete-settled format now id o b e s _ wet h = ground arith

count-write_result :
    (now id : ℕ) (o b e : Text) (t : List Fetch)
    → count_where is_unfetched t
      ≡ count_where (λ f. f.id == id && is_unfetched f) t
        + count_where is_unfetched (write_result now id o b e t)
unfolding write_result
count-write_result now id o b e [] = refl
count-write_result now id o b e (f ∷ t) = ground (arith, count-write_result now id o b e t)

module _ (format : ℕ → Text) (now id : ℕ) (outcome body err_text : Text) (s : Store)
    (wet : s.dry_run ≡ false) where
  abbrev written : Store
  written = (complete format now no_fault id outcome body err_text s).0

  written-eq : written ≡ record s { fetches = write_result now id outcome body err_text s.fetches }
  unfolding complete
  written-eq = rw wet

  -- Without a dry run the first result of a fetch stands: once one is written, another `Complete`
  -- for the same id, at any time, with any outcome and whether or not it fails, leaves the store as
  -- it is.
  pub complete-complete :
      (now' : ℕ) (fault : Fault) (outcome' body' err_text' : Text)
      → (complete format now' fault id outcome' body' err_text' written).0 ≡ written
  complete-complete now' fault o b e = rw written-eq (again fault)
    where
      fst : Store
      fst = record s { fetches = write_result now id outcome body err_text s.fetches }

      again : (fault : Fault) → (complete format now' fault id o b e fst).0 ≡ fst
      again fault =
          complete-settled format now' id o b e fst fault wet
            (write_result-write_result now now' id outcome body err_text o b e s.fetches)

  -- Without a dry run and on a table whose ids are distinct, a completed fetch is never claimed
  -- again, at any time and under any lease, limits and locks.
  pub claim_complete :
      (later lease limit share : ℕ) (locked : ℕ → Bool)
      → HasKeys s.fetches
      → All
          (λ r. (r.id == id) ≡ false)
          (claim_rows later lease locked limit share written.fetches).1
  claim_complete later lease limit share locked u = rw written-eq (
      All-map apart _ (
        claim-due later lease locked limit share
          (write_result now id outcome body err_text s.fetches)
          (write_result-HasKeys now id outcome body err_text s.fetches u)))
    where
      apart :
          (r : Fetch)
          → (f : Fetch) × Member f (write_result now id outcome body err_text s.fetches)
            × (is_due later lease locked f ≡ true)
            × (r ≡ record f { claimed_at = some later })
          → (r.id == id) ≡ false
      apart r (f, m, d, e) =
          ap (λ (f : Fetch). f.id == id) e
          ∙ ground (
            arith,
            All_member _ _ f (write_result-Settled now id outcome body err_text s.fetches) m,
          )

-- Without a dry run and on a table whose ids are distinct, completing a fetch that waits takes
-- exactly one off the backlog.
pub backlog-complete :
    (format : ℕ → Text) (now : ℕ) (outcome body err_text : Text) (s : Store) (f : Fetch)
    → s.dry_run ≡ false
    → HasKeys s.fetches
    → Member f s.fetches
    → f.fetched_at ≡ none
    → (n : ℕ) × (backlog no_fault s ≡ ok (suc n))
      × (backlog no_fault (complete format now no_fault f.id outcome body err_text s).0 ≡ ok n)
unfolding backlog complete
backlog-complete format now outcome body err_text s f wet u m e = (
  count_where is_unfetched (write_result now f.id outcome body err_text s.fetches),
  ap ok (
      omega (
        arith,
        count-write_result now f.id outcome body err_text s.fetches,
        count_of_member (λ g. g.id == f.id && is_unfetched g) s.fetches f m (rw (==_refl f.id, e)),
        count_where_mono (λ g. g.id == f.id && is_unfetched g) (λ g. g.id == f.id) s.fetches
            (λ g h. ground arith),
        u f.id,
      )),
  rw wet,
)
