-- ===== src/Discord/Queue/Finished.antt =====
-- Messages that internal/discord/queue.go is done with: delivered, dead, or given up.
use anvil_forge.Prelude.{
  All-update_where, All-map, All_member, ==_iff, All, All-Member, All-append, All-select, Bool,
  Bool-cases, List, Member, Text, any, ap, arith, false, if◌then◌else◌, inl, inr, negsuc, not, pos,
  same_row, sym, true, ℕ, ℤ, ◌<◌, ◌==◌, ◌∙◌, ◌≡◌, ◌≢◌, ◌⊎◌,
}
use anvil_forge.Discord.Sender.{Result}
use anvil_forge.Discord.Rows.{
  Outside, Row, Queue, Status, Fault, no_fault, query_fault, delivering, done, dead_letter, failed,
  enqueue, null_if_empty, same_key,
}
use anvil_forge.Discord.Queue.{
  claim_rows, is_due, leased, claim, complete, prune, settle, to_delivery, is_stale,
}
use anvil_forge.Discord.Queue.Claims.{claim-due, claim-All}
use anvil_forge.Discord.Queue.Steps.{
  Step, enqueued, claimed, completed, pruned, Reach, here, next, IsSound, IsValid,
}
use anvil_forge.Discord.Queue.Valid.{Reach-IsValid, settle-id}

abbrev pub IsFinished : Status → Type 0
IsFinished s = (s ≡ done) ⊎ (s ≡ dead_letter) ⊎ (s ≡ failed)

-- Whatever row has the id of `r` is `r`, and the id is not given again.
abbrev pub Only : Row → Queue → Type 0
Only r q = (r.id < q.next_id) × All (λ x. x.id ≡ r.id → x ≡ r) q.rows

module _ (outside : Outside) (r : Row) (finished : IsFinished r.status)
    (idle : (now : ℕ) (locked : ℕ → Bool) → is_due now locked r ≡ false) where
  Only-enqueue :
      (now : ℕ) (fault : Fault) (url payload key : Text) (priority : ℤ) (q : Queue)
      → Only r q
      → Only r (enqueue outside now fault url payload key priority q).0
  unfolding enqueue
  Only-enqueue now (query_fault e) url payload key priority q o = o
  Only-enqueue now no_fault url payload key priority q o =
      elim (Bool-cases (any (λ r. same_key (null_if_empty key) r.dedupe_key) q.rows)) [
        | inl h ↦ rw h (omega arith, o.1)
        | inr h ↦ rw h (
          omega arith,
          All-append (λ x. x.id ≡ r.id → x ≡ r) q.rows _ o.1 ((λ e. absurd (omega arith)), tt),
        )
      ]

  not_due : (now : ℕ) (locked : ℕ → Bool) (x : Row) → x ≡ r → is_due now locked x ≡ true → ⊥
  not_due now locked x e d = ground (arith, idle now locked, ap (is_due now locked) e)

  Only-claim :
      (arrange : List Row → List Row) (now : ℕ) (locked : ℕ → Bool) (fault : Fault) (limit : ℤ)
      (lease : ℕ) (q : Queue)
      → IsValid q
      → Only r q
      → Only r (claim arrange now locked fault limit lease q).0
  unfolding claim
  Only-claim arrange now locked (query_fault e) limit lease q v o = o
  Only-claim arrange now locked no_fault (negsuc n) lease q v o = o
  Only-claim arrange now locked no_fault (pos n) lease q v o = (
    o.0,
    claim-All now lease n locked q.rows (λ x. x.id ≡ r.id → x ≡ r) v.keyed
        (λ x m. All_member (λ x. x.id ≡ r.id → x ≡ r) q.rows x o.1 m)
        (λ x m d e.
          absurd (not_due now locked x (All_member (λ x. x.id ≡ r.id → x ≡ r) q.rows x o.1 m e) d)),
  )

  Only-complete :
      (format : ℕ → Text) (now : ℕ) (fault : Fault) (d : Row) (res : Result) (q : Queue)
      → Member d q.rows
      → d.status ≡ delivering
      → Only r q
      → Only r (complete format now fault (to_delivery d) res q).0
  unfolding complete
  Only-complete format now (query_fault e) d res q m h o = o
  Only-complete format now no_fault d res q m h o = (
    o.0,
    All-update_where (λ x. x.id ≡ r.id → x ≡ r) (λ x. x.id == d.id) (settle now (to_delivery d) res)
        q.rows (All-map each q.rows o.1),
  )
    where
      other : d.id ≡ r.id → ⊥
      other e = ground (
        arith,
        ap (λ (x : Row). x.status) (All_member (λ x. x.id ≡ r.id → x ≡ r) q.rows d o.1 m e),
      )

      each :
          (x : Row)
          → (x.id ≡ r.id → x ≡ r)
          → (if x.id == d.id then settle now (to_delivery d) res x else x).id ≡ r.id
          → (if x.id == d.id then settle now (to_delivery d) res x else x) ≡ r
      each x k = elim (Bool-cases (x.id == d.id)) [
        | inl e ↦ rw e (λ i.
            absurd (
              other (sym ((==_iff x.id d.id).0 e) ∙ sym (settle-id now (to_delivery d) res x) ∙ i)))
        | inr e ↦ rw e k
      ]

  Only-prune :
      (now : ℕ) (fault : Fault) (keep : ℕ) (q : Queue)
      → Only r q
      → Only r (prune now fault keep q).0
  unfolding prune
  Only-prune now (query_fault e) keep q o = o
  Only-prune now no_fault keep q o = (
    o.0,
    All-map (λ x h. h.1) _
        (All-select (λ x. not (is_stale now keep x)) (λ x. x.id ≡ r.id → x ≡ r) q.rows o.1),
  )

  Step-Only :
      {May : ℕ → Type 0} {q q' : Queue} → IsValid q → Step outside May q q' → Only r q → Only r q'
  Step-Only {q = q} v (enqueued now fault url payload key priority e) o =
      rw e (Only-enqueue now fault url payload key priority q o)
  Step-Only {q = q} v (claimed arrange now locked fault limit lease e) o =
      rw e (Only-claim arrange now locked fault limit lease q v o)
  Step-Only {q = q} v (completed format now fault d res m h may e) o =
      rw e (Only-complete format now fault d res q m h o)
  Step-Only {q = q} v (pruned now fault keep e) o = rw e (Only-prune now fault keep q o)

  Reach-Only :
      {May : ℕ → Type 0} {q q' : Queue} → IsValid q → Reach outside May q q' → Only r q → Only r q'
  Reach-Only v here o = o
  Reach-Only v (next h s) o = Step-Only (Reach-IsValid v h) s (Reach-Only v h o)

  apart :
      (now lease limit : ℕ) (locked : ℕ → Bool) (q : Queue)
      → IsValid q
      → Only r q
      → All (λ x. x.id ≢ r.id) (claim_rows now locked limit lease q.rows).1
  apart now lease limit locked q v o =
      All-map each _ (claim-due now lease limit locked q.rows v.keyed)
    where
      each :
          (x : Row)
          → (y : Row) × Member y q.rows × (is_due now locked y ≡ true) × (x ≡ leased now lease y)
          → x.id ≢ r.id
      each x (y, n, d, e) h =
          not_due now locked y
            (All_member (λ x. x.id ≡ r.id → x ≡ r) q.rows y o.1 n
              (ap (λ (x : Row). x.id) (sym e) ∙ h))
            d

-- Once a message of a valid queue is delivered, dead or given up, no history of the queue, in which
-- workers complete whatever is delivering, changes its row (a prune may delete it) and no claim at
-- any time hands it out again.
pub finished-claim :
    (outside : Outside) {q q' : Queue} (r : Row)
    → IsValid q
    → Member r q.rows
    → IsFinished r.status
    → Reach outside (λ k. Unit) q q'
    → All (λ x. x.id ≡ r.id → x ≡ r) q'.rows
      × ((now lease limit : ℕ) (locked : ℕ → Bool)
          → All (λ x. x.id ≢ r.id) (claim_rows now locked limit lease q'.rows).1)
finished-claim outside {q} {q'} r v m f h =
    let s = All_member IsSound q.rows r v.sound m in
    let idle : (now : ℕ) (locked : ℕ → Bool) → is_due now locked r ≡ false =
      λ now locked. ground arith in
    let start : Only r q = (
      All_member _ q.rows r v.fresh m,
      All-map (λ x n e. same_row (λ x. x.id) q.rows x r v.keyed n m e) q.rows (All-Member q.rows),
    ) in
    let o = Reach-Only outside r f idle v h start in
    (
      o.1,
      λ now lease limit locked.
          apart outside r f idle now lease limit locked q' (Reach-IsValid v h) o,
    )
