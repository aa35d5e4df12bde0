-- ===== src/Store/Steps.antt =====
-- The life of a fetch in internal/store/store.go: every operation on the store as a step, and what
-- each history keeps. A row comes in with an id of its own and no result; it is Anvil.Site that puts
-- it there.
use anvil_forge.Prelude.{
  Bool, Bool-cases, Text, [], count_where, inl, inr, negsuc, none, pos, refl, to_ℕ, ℕ, ℤ, ◌++◌,
  ◌==◌, ◌∷◌, ◌≡◌, ◌⊎◌,
}
use anvil_forge.Store.{
  Fetch, Store, RunStats, Fault, no_fault, query_fault, scan_fault, rows_fault, claim, claim_rows,
  complete, record_run, write_result, jump_share,
}

pub data Step (s s' : Store) : Type 0 where
  requested :
      (f : Fetch)
      → count_where (λ g. g.id == f.id) s.fetches ≡ 0
      → f.fetched_at ≡ none
      → s' ≡ record s { fetches = s.fetches ++ f ∷ [] }
      → Step s s'
  claimed :
      (now : ℕ) (locked : ℕ → Bool) (fault : Fault) (limit : ℤ) (lease : ℕ)
      → s' ≡ (claim now locked fault limit lease s).0
      → Step s s'
  completed :
      (format : ℕ → Text) (now : ℕ) (fault : Fault) (id : ℕ) (outcome body err_text : Text)
      → s' ≡ (complete format now fault id outcome body err_text s).0
      → Step s s'
  recorded :
      (now : ℕ) (fault : Fault) (started : ℕ) (st : RunStats)
      → s' ≡ (record_run now fault started st s).0
      → Step s s'

pub data Reach (s : Store) : Store → Type 0 where
  here : Reach s s
  next : {a b : Store} → Reach s a → Step a b → Reach s b

pub Reach-append : {a b c : Store} → Reach a b → Reach b c → Reach a c
Reach-append r here = r
Reach-append r (next q s) = next (Reach-append r q) s

-- What a claim does to the rows, if it changes them.
pub claim-cases :
    (now : ℕ) (locked : ℕ → Bool) (fault : Fault) (limit : ℤ) (lease : ℕ) (s : Store)
    → ((claim now locked fault limit lease s).0 ≡ s)
      ⊎ ((claim now locked fault limit lease s).0 ≡ record s {
        fetches = (claim_rows now lease locked (to_ℕ limit) (jump_share limit) s.fetches).0;
      })
unfolding claim
claim-cases now locked (query_fault e) limit lease s = inl refl
claim-cases now locked no_fault (negsuc n) lease s = inl refl
claim-cases now locked (scan_fault e) (negsuc n) lease s = inl refl
claim-cases now locked (rows_fault e) (negsuc n) lease s = inl refl
claim-cases now locked no_fault (pos n) lease s = inr refl
claim-cases now locked (scan_fault e) (pos n) lease s = inr refl
claim-cases now locked (rows_fault e) (pos n) lease s = inr refl

pub complete-cases :
    (format : ℕ → Text) (now : ℕ) (fault : Fault) (id : ℕ) (o b e : Text) (s : Store)
    → ((complete format now fault id o b e s).0 ≡ s)
      ⊎ ((complete format now fault id o b e s).0
          ≡ record s { fetches = write_result now id o b e s.fetches })
unfolding complete
complete-cases format now (query_fault x) id o b e s = elim (Bool-cases s.dry_run) [
  | inl d ↦ inl (simp d)
  | inr d ↦ inl (simp d)
]
complete-cases format now no_fault id o b e s = elim (Bool-cases s.dry_run) [
  | inl d ↦ inl (simp d)
  | inr d ↦ inr (simp d)
]
complete-cases format now (scan_fault x) id o b e s = elim (Bool-cases s.dry_run) [
  | inl d ↦ inl (simp d)
  | inr d ↦ inr (simp d)
]
complete-cases format now (rows_fault x) id o b e s = elim (Bool-cases s.dry_run) [
  | inl d ↦ inl (simp d)
  | inr d ↦ inr (simp d)
]

pub record_run-fetches :
    (now : ℕ) (fault : Fault) (started : ℕ) (st : RunStats) (s : Store)
    → (record_run now fault started st s).0.fetches ≡ s.fetches
unfolding record_run
record_run-fetches now no_fault started st s = refl
record_run-fetches now (query_fault e) started st s = refl
record_run-fetches now (scan_fault e) started st s = refl
record_run-fetches now (rows_fault e) started st s = refl
