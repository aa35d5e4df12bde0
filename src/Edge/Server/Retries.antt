-- ===== src/Edge/Server/Retries.antt =====
-- internal/edge/server.go, handleIngest: a batch that was accepted, and the same batch again.
use anvil_forge.Prelude.{
  List, arith, codes, eq_text, if_both, inl, inr, length, not, refl, some, subst, sym, true, ℕ, ◌+◌,
  ◌∙◌, ◌≡◌, ◌⊎◌,
}
use anvil_forge.Prelude.Statement.{no_fault}
use anvil_forge.Edge.Tables.{Tables, Caller, Event}
use anvil_forge.Edge.Server.{
  Codec, Faults, Request, Server, Response, Authed, known, refused, authed, handle_ingest,
  ingest_as, ingest_body, Push, Batch, batch_of, Pushed, stopped, all_stored, ingest_all,
  answer_push, tally,
}
use anvil_forge.Edge.Server.Callers.{IsRefusal, authed-IsRefusal}
use anvil_forge.Edge.Server.Pushes.{
  size, IsStop, ingest_all-IsStop, AreKeyed, IsTally, ingest_all-IsTally,
}
use anvil_forge.Edge.Events.History.{Reach, Reach-added}
use anvil_forge.Edge.Server.Repeats.{
  AreRepeats-append, AreRepeats, Repeated, ingest_all-Repeated, ingest_all-AreRepeats,
}

-- The answer counts each push once, and the table and the counters have grown by what it says.
abbrev pub IsCounted : Batch → Server → Server × Response → Type 0
IsCounted b s (s', a) =
    (accepted : ℕ) × (duplicates : ℕ) × (a.body ≡ tally accepted duplicates)
    × (accepted + duplicates ≡ size b)
    × (length s'.tables.events ≡ length s.tables.events + accepted)
    × (s'.counters.ingested ≡ s.counters.ingested + accepted)
    × (s'.counters.duplicates ≡ s.counters.duplicates + duplicates)

stop-not_accepted : (a : Response) → (a.status ≡ 400) ⊎ (a.status ≡ 500) → a.status ≡ 202 → ⊥
stop-not_accepted a (inl x) z = omega (arith, x, z)
stop-not_accepted a (inr x) z = omega (arith, x, z)

answer_push-IsCounted :
    (b : Batch) (s : Server) (r : Tables × Pushed)
    → IsTally b s.tables r
    → IsStop r.1
    → (answer_push s r).1.status ≡ 202
    → IsCounted b s (answer_push s r)
answer_push-IsCounted b s (t, stopped a) h stop e = absurd (stop-not_accepted a stop e)
answer_push-IsCounted b s (t, all_stored m n) h stop e = (m, n, refl, h.0, h.1, refl, refl)

answer_push-Repeated :
    (b : Batch) (s : Server) (r : Tables × Pushed)
    → Repeated b r
    → IsStop r.1
    → (answer_push s r).1.status ≡ 202
    → AreRepeats b (answer_push s r).0.tables.events
answer_push-Repeated b s (t, stopped a) h stop e = absurd (stop-not_accepted a stop e)
answer_push-Repeated b s (t, all_stored m n) h stop e = h

-- What holds of the answers to a caller holds of every answer of 202.
accepted :
    (P : Server × Response → Type 0) (c : Codec) (now : ℕ) (f : Faults) (r : Request) (s : Server)
    (p : Push)
    → r.body ≡ some p
    → ((caller : Caller)
        → (answer_push s (ingest_all now f.at_event caller 0 (batch_of p) s.tables)).1.status ≡ 202
        → P (answer_push s (ingest_all now f.at_event caller 0 (batch_of p) s.tables)))
    → (handle_ingest c now f r s).1.status ≡ 202
    → P (handle_ingest c now f r s)
unfolding handle_ingest
accepted P c now f r s p e h =
    if_both (λ x. x.1.status ≡ 202 → P x) (not (eq_text r.method (codes "POST"))) _ _
      (λ z. absurd (omega (arith, z)))
      (go (authed c f r s.tables) (authed-IsRefusal c f r s.tables))
  where
    go :
        (a : Authed)
        → IsRefusal a
        → (ingest_as now f r s a).1.status ≡ 202
        → P (ingest_as now f r s a)
    go (refused a) (inl x) z = absurd (omega (arith, x, z))
    go (refused a) (inr x) z = absurd (omega (arith, x, z))
    go (known caller) x z =
        subst
          (λ b.
            (ingest_body now f.at_event s b caller).1.status ≡ 202
            → P (ingest_body now f.at_event s b caller))
          (sym e) (h caller) z

-- An answer of 202 counts each push of the batch once, as accepted or as a duplicate; the table has
-- grown by those accepted, and the two counters by the two numbers.
pub handle_ingest-IsCounted :
    (c : Codec) (now : ℕ) (f : Faults) (r : Request) (s : Server) (p : Push)
    → r.body ≡ some p
    → (handle_ingest c now f r s).1.status ≡ 202
    → IsCounted (batch_of p) s (handle_ingest c now f r s)
handle_ingest-IsCounted c now f r s p e z =
    accepted (IsCounted (batch_of p) s) c now f r s p e
      (λ caller.
        answer_push-IsCounted (batch_of p) s _
          (ingest_all-IsTally now f.at_event caller 0 (batch_of p) s.tables)
          (ingest_all-IsStop now f.at_event caller 0 (batch_of p) s.tables))
      z

abbrev IsAnswer : ℕ → List Event → Server × Response → Type 0
IsAnswer n es x = (x.1.status ≡ 202) × (x.1.body ≡ tally 0 n) × (x.0.tables.events ≡ es)

answer_push-IsAnswer :
    (s : Server) (t : Tables) (q : Pushed) (n : ℕ)
    → q ≡ all_stored 0 n
    → IsAnswer n t.events (answer_push s (t, q))
answer_push-IsAnswer s t q n h =
    subst (λ q. IsAnswer n t.events (answer_push s (t, q))) (sym h) (refl, refl, refl)

handle_ingest-known :
    (c : Codec) (now : ℕ) (f : Faults) (r : Request) (s : Server) (p : Push) (caller : Caller)
    → r.body ≡ some p
    → eq_text r.method (codes "POST") ≡ true
    → authed c f r s.tables ≡ known caller
    → handle_ingest c now f r s
      ≡ answer_push s (ingest_all now f.at_event caller 0 (batch_of p) s.tables)
unfolding handle_ingest
handle_ingest-known c now f r s p caller e m a = rw m (rw a (rw e refl))

-- A batch in which every push has a key, once answered with 202, is stored for good: after whatever else
-- the edge is asked, and whatever of that fails, the same body again, from any caller that is let in
-- then, is answered with 202, none accepted and all duplicates, and adds no event, if none of its own
-- statements fails.
pub handle_ingest-handle_ingest :
    (c : Codec) (now now' : ℕ) (f f' : Faults) (r r' : Request) (s s' : Server) (p : Push)
    (caller : Caller)
    → r.body ≡ some p
    → r'.body ≡ some p
    → AreKeyed (batch_of p)
    → (handle_ingest c now f r s).1.status ≡ 202
    → Reach c (handle_ingest c now f r s).0 s'
    → eq_text r'.method (codes "POST") ≡ true
    → authed c f' r' s'.tables ≡ known caller
    → ((i : ℕ) → f'.at_event i ≡ no_fault)
    → ((handle_ingest c now' f' r' s').1.status ≡ 202)
      × ((handle_ingest c now' f' r' s').1.body ≡ tally 0 (size (batch_of p)))
      × ((handle_ingest c now' f' r' s').0.tables.events ≡ s'.tables.events)
handle_ingest-handle_ingest c now now' f f' r r' s s' p caller e e' k z q m a g =
    let first =
      accepted (λ x. AreRepeats (batch_of p) x.0.tables.events) c now f r s p e
        (λ caller.
          answer_push-Repeated (batch_of p) s _
            (ingest_all-Repeated now f.at_event caller 0 (batch_of p) s.tables k)
            (ingest_all-IsStop now f.at_event caller 0 (batch_of p) s.tables))
        z in
    let grows = Reach-added c q in
    let repeats : AreRepeats (batch_of p) s'.tables.events =
      subst (AreRepeats (batch_of p)) (sym grows.kept) (
        AreRepeats-append (batch_of p) (handle_ingest c now f r s).0.tables.events grows.added
          first) in
    let again = ingest_all-AreRepeats now' f'.at_event caller 0 (batch_of p) s'.tables g repeats in
    let answer =
      answer_push-IsAnswer s' (ingest_all now' f'.at_event caller 0 (batch_of p) s'.tables).0 _
        (size (batch_of p)) again.0 in
    rw (handle_ingest-known c now' f' r' s' p caller e' m a)
      (answer.0, answer.1, answer.2 ∙ again.1)
