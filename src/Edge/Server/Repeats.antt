-- ===== src/Edge/Server/Repeats.antt =====
-- internal/edge/server.go, handleIngest: the keys that a batch leaves in the table, and a batch of known keys.
use anvil_forge.Prelude.{
  Bool, List, Option, Text, [], any, ap, arith, false, if_both, if_cases, refl, suc, true, ℕ, ◌++◌,
  ◌∙◌, ◌∷◌, ◌≡◌,
}
use anvil_forge.Prelude.Statement.{
  Fault, no_fault, query_fault, Outcome, ok, err, null_if_empty, same_key,
}
use anvil_forge.Hiscores.Rsn.{trim_space, is_empty}
use anvil_forge.Edge.Tables.{Tables, Caller, Event, ingest, has_conflict}
use anvil_forge.Edge.Server.{
  push, Batch, nil, cons, Pushed, stopped, all_stored, tallied, after_ingest, ingest_all, or_braces,
}
use anvil_forge.Edge.Server.Pushes.{size, AreKeyed, IsIngested, ingest-IsIngested}

-- Each push of the batch has a kind, and its key is in the table.
abbrev pub AreRepeats : Batch → List Event → Type 0
AreRepeats nil es = Unit
AreRepeats (cons (push kind payload key events) b) es =
    (is_empty (trim_space kind) ≡ false × has_conflict (null_if_empty key) es ≡ true)
    × AreRepeats b es

abbrev pub Repeated : Batch → Tables × Pushed → Type 0
Repeated b (t', stopped a) = Unit
Repeated b (t', all_stored accepted duplicates) = AreRepeats b t'.events

any-append :
    {A : Type 0} (p : A → Bool) (xs ys : List A) → any p xs ≡ true → any p (xs ++ ys) ≡ true
any-append p [] ys h = absurd (ground (arith, h))
any-append p (x ∷ xs) ys h = ground (arith, any-append p xs ys)

-- More events make no repeat new.
pub AreRepeats-append :
    (b : Batch) (es added : List Event) → AreRepeats b es → AreRepeats b (es ++ added)
AreRepeats-append nil es added h = tt
AreRepeats-append (cons (push kind payload key events) b) es added h = (
  (h.0.0, any-append (λ e. same_key (null_if_empty key) e.dedupe_key) es added h.0.1),
  AreRepeats-append b es added h.1,
)

ingest-has_conflict :
    (now : ℕ) (fault : Fault) (c : Caller) (kind payload key : Text) (t : Tables) (k : Option Text)
    → has_conflict k t.events ≡ true
    → has_conflict k (ingest now fault c kind payload key t).0.events ≡ true
unfolding ingest
ingest-has_conflict now (query_fault e) c kind payload key t k h = h
ingest-has_conflict now no_fault c kind payload key t k h =
    if_both {A = Tables × Outcome Bool} (λ r. has_conflict k r.0.events ≡ true)
      (has_conflict (null_if_empty key) t.events) _ _ h
      (any-append (λ e. same_key k e.dedupe_key) t.events _ h)

ingest_all-has_conflict :
    (now : ℕ) (faults : ℕ → Fault) (c : Caller) (i : ℕ) (b : Batch) (t : Tables) (k : Option Text)
    → has_conflict k t.events ≡ true
    → has_conflict k (ingest_all now faults c i b t).0.events ≡ true
unfolding ingest_all
ingest_all-has_conflict now faults c i nil t k h = h
ingest_all-has_conflict now faults c i (cons (push kind payload key events) b) t k h =
    if_both {A = Tables × Pushed} (λ r. has_conflict k r.0.events ≡ true)
      (is_empty (trim_space kind)) _ _ h
      (go (ingest now (faults i) c kind (or_braces payload) key t)
        (ingest-has_conflict now (faults i) c kind (or_braces payload) key t k h)
        (λ t'. ingest_all-has_conflict now faults c (suc i) b t' k))
  where
    go :
        (r : Tables × Outcome Bool)
        → has_conflict k r.0.events ≡ true
        → ((t' : Tables)
            → has_conflict k t'.events ≡ true
            → has_conflict k (ingest_all now faults c (suc i) b t').0.events ≡ true)
        → has_conflict k (after_ingest r (λ t'. ingest_all now faults c (suc i) b t')).0.events
          ≡ true
    go (t', err e) h next = h
    go (t', ok stored) h next = next t' h

pub ingest_all-Repeated :
    (now : ℕ) (faults : ℕ → Fault) (c : Caller) (i : ℕ) (b : Batch) (t : Tables)
    → AreKeyed b
    → Repeated b (ingest_all now faults c i b t)
unfolding ingest_all
ingest_all-Repeated now faults c i nil t k = tt
ingest_all-Repeated now faults c i (cons (push kind payload key events) b) t k =
    if_cases (Repeated (cons (push kind payload key events) b)) (is_empty (trim_space kind)) _ _
      (λ _. tt)
      (λ e.
        go e (ingest now (faults i) c kind (or_braces payload) key t)
          (ingest-IsIngested now (faults i) c kind (or_braces payload) key t)
          (λ t'. ingest_all-Repeated now faults c (suc i) b t' k.1))
  where
    step :
        is_empty (trim_space kind) ≡ false
        → (stored : Bool) (r : Tables × Pushed) → has_conflict (null_if_empty key) r.0.events ≡ true
        → Repeated b r
        → Repeated (cons (push kind payload key events) b) (r.0, tallied stored r.1)
    step e stored (t2, stopped a) h j = tt
    step e true (t2, all_stored m n) h j = ((e, h), j)
    step e false (t2, all_stored m n) h j = ((e, h), j)

    go :
        is_empty (trim_space kind) ≡ false
        → (r : Tables × Outcome Bool) → IsIngested key t r
        → ((t' : Tables) → Repeated b (ingest_all now faults c (suc i) b t'))
        → Repeated
            (cons (push kind payload key events) b)
            (after_ingest r (λ t'. ingest_all now faults c (suc i) b t'))
    go e (t', err x) h next = tt
    go e (t', ok stored) h next =
        step e stored (ingest_all now faults c (suc i) b t')
          (ingest_all-has_conflict now faults c (suc i) b t' (null_if_empty key) (h.1 k.0))
          (next t')

ingest-repeat :
    (now : ℕ) (c : Caller) (kind payload key : Text) (t : Tables)
    → has_conflict (null_if_empty key) t.events ≡ true
    → ingest now no_fault c kind payload key t
      ≡ (record t { next_event = suc t.next_event }, ok false)
unfolding ingest
ingest-repeat now c kind payload key t h = rw h refl

ingest_all-repeat :
    (now : ℕ) (faults : ℕ → Fault) (c : Caller) (i : ℕ) (kind payload key : Text) (events b : Batch)
    (t : Tables)
    → faults i ≡ no_fault
    → is_empty (trim_space kind) ≡ false
    → has_conflict (null_if_empty key) t.events ≡ true
    → ingest_all now faults c i (cons (push kind payload key events) b) t
      ≡ after_ingest
          (record t { next_event = suc t.next_event }, ok false)
          (λ t'. ingest_all now faults c (suc i) b t')
unfolding ingest_all
ingest_all-repeat now faults c i kind payload key events b t f e h =
    rw e (rw f (rw (ingest-repeat now c kind (or_braces payload) key t h) refl))

-- A batch of repeats adds nothing.
pub ingest_all-AreRepeats :
    (now : ℕ) (faults : ℕ → Fault) (c : Caller) (i : ℕ) (b : Batch) (t : Tables)
    → ((i : ℕ) → faults i ≡ no_fault)
    → AreRepeats b t.events
    → ((ingest_all now faults c i b t).1 ≡ all_stored 0 (size b))
      × ((ingest_all now faults c i b t).0.events ≡ t.events)
unfolding ingest_all
ingest_all-AreRepeats now faults c i nil t f h = (refl, refl)
ingest_all-AreRepeats now faults c i (cons (push kind payload key events) b) t f h =
    let here = ingest_all-repeat now faults c i kind payload key events b t (f i) h.0.0 h.0.1 in
    let rest =
      ingest_all-AreRepeats now faults c (suc i) b (record t { next_event = suc t.next_event }) f
        h.1 in
    (
      ap (λ (r : Tables × Pushed). r.1) here ∙ ap (tallied false) rest.0,
      ap (λ (r : Tables × Pushed). r.0.events) here ∙ rest.1,
    )
