-- ===== src/Edge/Server/Pushes.antt =====
-- internal/edge/server.go, handleIngest: what a batch leaves in the table, and a retried batch.
use anvil_forge.Prelude.{
  Bool, List, Text, [], any, arith, eq_text_refl, false, if_both, if_cases, if◌then◌else◌, inl, inr,
  length, length-append, refl, suc, true, ℕ, ◌++◌, ◌+◌, ◌∷◌, ◌≡◌, ◌⊎◌,
}
use anvil_forge.Prelude.Statement.{
  Fault, no_fault, query_fault, Outcome, ok, err, null_if_empty, same_key,
}
use anvil_forge.Hiscores.Rsn.{trim_space, is_empty}
use anvil_forge.Edge.Tables.{Tables, Caller, ingest, has_conflict}
use anvil_forge.Edge.Server.{
  push, Batch, nil, cons, Pushed, stopped, all_stored, tallied, after_ingest, ingest_all, or_braces,
}

abbrev pub size : Batch → ℕ
size nil = 0
size (cons p b) = suc (size b)

-- Each push of the batch carries a key.
abbrev pub AreKeyed : Batch → Type 0
AreKeyed nil = Unit
AreKeyed (cons (push kind payload key events) b) = is_empty key ≡ false × AreKeyed b

-- What a batch that was stored to its end has done.
abbrev pub IsTally : Batch → Tables → Tables × Pushed → Type 0
IsTally b t (t', stopped a) = Unit
IsTally b t (t', all_stored accepted duplicates) =
    (accepted + duplicates ≡ size b) × (length t'.events ≡ length t.events + accepted)

any-last :
    {A : Type 0} (p : A → Bool) (xs : List A) (y : A) → p y ≡ true → any p (xs ++ y ∷ []) ≡ true
any-last p [] y h = ground arith
any-last p (x ∷ xs) y h = ground (arith, any-last p xs y h)

key-same_key :
    (key : Text) → is_empty key ≡ false → same_key (null_if_empty key) (null_if_empty key) ≡ true
key-same_key [] h = absurd (ground arith)
key-same_key (c ∷ key) h = eq_text_refl (c ∷ key)

-- One statement: what it keeps, what it adds, and that the key is there afterwards.
abbrev pub IsIngested : Text → Tables → Tables × Outcome Bool → Type 0
IsIngested key t (t', err e) = Unit
IsIngested key t (t', ok stored) =
    (length t'.events ≡ length t.events + (if stored then 1 else 0))
    × (is_empty key ≡ false → has_conflict (null_if_empty key) t'.events ≡ true)

pub ingest-IsIngested :
    (now : ℕ) (fault : Fault) (c : Caller) (kind payload key : Text) (t : Tables)
    → IsIngested key t (ingest now fault c kind payload key t)
unfolding ingest
ingest-IsIngested now (query_fault e) c kind payload key t = tt
ingest-IsIngested now no_fault c kind payload key t =
    if_cases (IsIngested key t) (has_conflict (null_if_empty key) t.events) _ _
      (λ h. (omega arith, λ _. h))
      (λ h. (
        length-append t.events _,
        λ k.
            any-last (λ e. same_key (null_if_empty key) e.dedupe_key) t.events _
              (key-same_key key k),
      ))

-- A batch that is stored to its end: every push is counted once, and the table has grown by those
-- that were accepted.
pub ingest_all-IsTally :
    (now : ℕ) (faults : ℕ → Fault) (c : Caller) (i : ℕ) (b : Batch) (t : Tables)
    → IsTally b t (ingest_all now faults c i b t)
unfolding ingest_all
ingest_all-IsTally now faults c i nil t = (omega arith, omega arith)
ingest_all-IsTally now faults c i (cons (push kind payload key events) b) t =
    if_both (IsTally (cons (push kind payload key events) b) t) (is_empty (trim_space kind)) _ _ tt
      (go (ingest now (faults i) c kind (or_braces payload) key t)
        (ingest-IsIngested now (faults i) c kind (or_braces payload) key t)
        (ingest_all-IsTally now faults c (suc i) b))
  where
    step :
        (stored : Bool) (t' : Tables) (r : Tables × Pushed)
        → IsIngested key t (t', ok stored)
        → IsTally b t' r
        → IsTally (cons (push kind payload key events) b) t (r.0, tallied stored r.1)
    step stored t' (t2, stopped a) h j = tt
    step true t' (t2, all_stored m n) h j = (omega (arith, j.0), omega (arith, h.0, j.1))
    step false t' (t2, all_stored m n) h j = (omega (arith, j.0), omega (arith, h.0, j.1))

    go :
        (r : Tables × Outcome Bool)
        → IsIngested key t r
        → ((t' : Tables) → IsTally b t' (ingest_all now faults c (suc i) b t'))
        → IsTally
            (cons (push kind payload key events) b)
            t
            (after_ingest r (λ t'. ingest_all now faults c (suc i) b t'))
    go (t', err e) h next = tt
    go (t', ok stored) h next = step stored t' (ingest_all now faults c (suc i) b t') h (next t')

-- An answer that stops the loop is 400 or 500.
abbrev pub IsStop : Pushed → Type 0
IsStop (stopped a) = (a.status ≡ 400) ⊎ (a.status ≡ 500)
IsStop (all_stored accepted duplicates) = Unit

pub ingest_all-IsStop :
    (now : ℕ) (faults : ℕ → Fault) (c : Caller) (i : ℕ) (b : Batch) (t : Tables)
    → IsStop (ingest_all now faults c i b t).1
unfolding ingest_all
ingest_all-IsStop now faults c i nil t = tt
ingest_all-IsStop now faults c i (cons (push kind payload key events) b) t =
    if_both {A = Tables × Pushed} (λ r. IsStop r.1) (is_empty (trim_space kind)) _ _ (inl refl)
      (go (ingest now (faults i) c kind (or_braces payload) key t)
        (λ t'. ingest_all-IsStop now faults c (suc i) b t'))
  where
    step : (stored : Bool) (r : Pushed) → IsStop r → IsStop (tallied stored r)
    step stored (stopped a) h = h
    step true (all_stored m n) h = tt
    step false (all_stored m n) h = tt

    go :
        (r : Tables × Outcome Bool)
        → ((t' : Tables) → IsStop (ingest_all now faults c (suc i) b t').1)
        → IsStop (after_ingest r (λ t'. ingest_all now faults c (suc i) b t')).1
    go (t', err e) next = inr refl
    go (t', ok stored) next = step stored (ingest_all now faults c (suc i) b t').1 (next t')
