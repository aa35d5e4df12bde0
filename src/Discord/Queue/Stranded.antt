-- ===== src/Discord/Queue/Stranded.antt =====
-- What a claim of internal/discord/queue.go leaves alone: rows that are delivering.
use anvil_forge.Prelude.{
  All-map, Member-select, subst, ==_iff, All, Bool, Bool-cases, List, Member, Member-append,
  Member-update_where, Text, any, ap, arith, false, if◌then◌else◌, inl, inr, negsuc, not, pos, refl,
  same_row, sym, true, update_where, ℕ, ℤ, ◌==◌, ◌∙◌, ◌≡◌, ◌≢◌,
}
use anvil_forge.Discord.Sender.{Result}
use anvil_forge.Discord.Rows.{
  Outside, Row, Queue, Fault, no_fault, query_fault, delivering, enqueue, null_if_empty, same_key,
}
use anvil_forge.Discord.Queue.{
  claim_rows, is_due, leased, claim, complete, prune, settle, to_delivery, is_stale,
}
use anvil_forge.Discord.Queue.Claims.{claim-due, Member-claim}
use anvil_forge.Discord.Queue.Steps.{
  Step, enqueued, claimed, completed, pruned, Reach, here, next, IsValid,
}
use anvil_forge.Discord.Queue.Valid.{Reach-IsValid}

-- No claim can choose the row, now or later.
abbrev pub IsIdle : Row → Type 0
IsIdle r = (now : ℕ) (locked : ℕ → Bool) → is_due now locked r ≡ false

abbrev pub IsKept : Row → Type 0
IsKept r = (now keep : ℕ) → is_stale now keep r ≡ false

Member-enqueue :
    (outside : Outside) (now : ℕ) (fault : Fault) (url payload key : Text) (priority : ℤ)
    (q : Queue) (r : Row)
    → Member r q.rows
    → Member r (enqueue outside now fault url payload key priority q).0.rows
unfolding enqueue
Member-enqueue outside now (query_fault e) url payload key priority q r m = m
Member-enqueue outside now no_fault url payload key priority q r m =
    elim (Bool-cases (any (λ r. same_key (null_if_empty key) r.dedupe_key) q.rows)) [
      | inl h ↦ rw h m
      | inr h ↦ rw h (Member-append q.rows _ r m)
    ]

Member-claim_call :
    (arrange : List Row → List Row) (now : ℕ) (locked : ℕ → Bool) (fault : Fault) (limit : ℤ)
    (lease : ℕ) (q : Queue) (r : Row)
    → IsValid q
    → IsIdle r
    → Member r q.rows
    → Member r (claim arrange now locked fault limit lease q).0.rows
unfolding claim
Member-claim_call arrange now locked (query_fault e) limit lease q r v i m = m
Member-claim_call arrange now locked no_fault (pos n) lease q r v i m =
    Member-claim now lease n locked q.rows v.keyed r m (i now locked)
Member-claim_call arrange now locked no_fault (negsuc n) lease q r v i m = m

Member-complete :
    (format : ℕ → Text) (now : ℕ) (fault : Fault) (d : Row) (res : Result) (q : Queue) (r : Row)
    → d.id ≢ r.id
    → Member r q.rows
    → Member r (complete format now fault (to_delivery d) res q).0.rows
unfolding complete
Member-complete format now (query_fault e) d res q r ne m = m
Member-complete format now no_fault d res q r ne m =
    subst (λ x. Member x (update_where hit write q.rows)) (untouched (hit r) refl)
      (Member-update_where hit write q.rows r m)
  where
    hit : Row → Bool
    hit x = x.id == d.id

    write : Row → Row
    write = settle now (to_delivery d) res

    untouched : (b : Bool) → hit r ≡ b → (if hit r then write r else r) ≡ r
    untouched true h = absurd (ne (sym ((==_iff r.id d.id).0 h)))
    untouched false h = rw h

Member-prune :
    (now : ℕ) (fault : Fault) (keep : ℕ) (q : Queue) (r : Row)
    → IsKept r
    → Member r q.rows
    → Member r (prune now fault keep q).0.rows
unfolding prune
Member-prune now (query_fault e) keep q r k m = m
Member-prune now no_fault keep q r k m =
    Member-select (λ r. not (is_stale now keep r)) q.rows r m (rw (k now keep))

module _ (outside : Outside) (May : ℕ → Type 0) (r : Row) (idle : IsIdle r) (kept : IsKept r)
    (spared : (k : ℕ) → May k → k ≢ r.id) where
  Step-Member :
      {q q' : Queue} → IsValid q → Step outside May q q' → Member r q.rows → Member r q'.rows
  Step-Member {q} v (enqueued now fault url payload key priority e) m =
      rw e (Member-enqueue outside now fault url payload key priority q r m)
  Step-Member {q} v (claimed arrange now locked fault limit lease e) m =
      rw e (Member-claim_call arrange now locked fault limit lease q r v idle m)
  Step-Member {q} v (completed format now fault d res n h may e) m =
      rw e (Member-complete format now fault d res q r (spared d.id may) m)
  Step-Member {q} v (pruned now fault keep e) m = rw e (Member-prune now fault keep q r kept m)

  pub Reach-Member :
      {q q' : Queue} → IsValid q → Reach outside May q q' → Member r q.rows → Member r q'.rows
  Reach-Member v here m = m
  Reach-Member v (next h s) m = Step-Member (Reach-IsValid v h) s (Reach-Member v h m)

-- A row that no claim can choose is in none of them.
claim-apart :
    (now lease limit : ℕ) (locked : ℕ → Bool) (q : Queue) (r : Row)
    → IsValid q
    → IsIdle r
    → Member r q.rows
    → All (λ x. x.id ≢ r.id) (claim_rows now locked limit lease q.rows).1
claim-apart now lease limit locked q r v idle m =
    All-map each _ (claim-due now lease limit locked q.rows v.keyed)
  where
    each :
        (x : Row)
        → (y : Row) × Member y q.rows × (is_due now locked y ≡ true) × (x ≡ leased now lease y)
        → x.id ≢ r.id
    each x (y, n, d, e) h =
        let same =
          same_row (λ r. r.id) q.rows y r v.keyed n m (ap (λ (x : Row). x.id) (sym e) ∙ h) in
        ground (arith, idle now locked, ap (is_due now locked) same)

-- In a valid queue, a row that a claim marked as delivering and that no worker completes stays
-- delivering, unchanged, after every history of the queue, however late, and no claim at any time
-- hands it out again: its lease is never looked at.
pub delivering-Member :
    (outside : Outside) {q q' : Queue} (r : Row)
    → IsValid q
    → Member r q.rows
    → r.status ≡ delivering
    → Reach outside (λ k. k ≢ r.id) q q'
    → Member r q'.rows
      × ((now lease limit : ℕ) (locked : ℕ → Bool)
          → All (λ x. x.id ≢ r.id) (claim_rows now locked limit lease q'.rows).1)
delivering-Member outside {q} {q'} r v m e h =
    let idle : IsIdle r = λ now locked. ground arith in
    let there =
      Reach-Member outside (λ k. k ≢ r.id) r idle (λ now keep. ground arith) (λ k n. n) v h m in
    (
      there,
      λ now lease limit locked.
          claim-apart now lease limit locked q' r (Reach-IsValid v h) idle there,
    )
