-- ===== src/Discord/Queue/Dedupe.antt =====
-- Idempotency of `Enqueue` of internal/discord/queue.go, and where it ends.
use anvil_forge.Prelude.{
  any, all_true, count_where_mono, count_where-update_where, All, All-Member, All-any-false,
  All-map, All-select, Bool, Bool-cases, List, Text, [], arith, contains, count_where,
  count_where-append, count_where-select, eq_text, eq_text-eq, eq_text_refl, false, if◌then◌else◌,
  inl, inr, negsuc, none, not, pos, refl, select, some, subst, sym, true, ℕ, ℤ, ◌&&◌, ◌++◌, ◌+◌,
  ◌==◌, ◌||◌, ◌∷◌, ◌≡◌, ◌≤◌,
}
use anvil_forge.Discord.Rows.{
  Outside, Row, Queue, ok, no_fault, query_fault, Fault, enqueue, same_key, no_rows, new_row,
}
use anvil_forge.Discord.Queue.{
  prune, is_stale, claim, claim_rows, complete, settle, to_delivery, leased, ids, due,
}
use anvil_forge.Discord.Sender.{Result}
use anvil_forge.Discord.Queue.Steps.{
  Step, enqueued, claimed, completed, pruned, Reach, here, next, empty,
}

abbrev pub has_key : Text → Row → Bool
has_key k r = same_key (some k) r.dedupe_key

any-append : (p : Row → Bool) (xs ys : List Row) → any p (xs ++ ys) ≡ any p xs || any p ys
any-append p [] ys = refl
any-append p (x ∷ xs) ys = ground (arith, any-append p xs ys)

module _ (outside : Outside) (c : ℕ) (cs : Text) where
  -- A key that stands in the table.
  enqueue-known :
      (now : ℕ) (url payload : Text) (priority : ℤ) (q : Queue)
      → any (has_key (c ∷ cs)) q.rows ≡ true
      → ((enqueue outside now no_fault url payload (c ∷ cs) priority q).0.rows ≡ q.rows)
        × ((enqueue outside now no_fault url payload (c ∷ cs) priority q).1 ≡ ok 0)
  unfolding enqueue
  enqueue-known now url payload priority q h = (rw h, rw (h, eq_text_refl no_rows))

  -- A key that does not.
  enqueue-new :
      (now : ℕ) (url payload : Text) (priority : ℤ) (q : Queue)
      → any (has_key (c ∷ cs)) q.rows ≡ false
      → ((enqueue outside now no_fault url payload (c ∷ cs) priority q).0.rows
          ≡ q.rows ++ new_row outside now q.next_id url payload (some (c ∷ cs)) priority ∷ [])
        × ((enqueue outside now no_fault url payload (c ∷ cs) priority q).1 ≡ ok q.next_id)
  unfolding enqueue
  enqueue-new now url payload priority q h = (rw h, rw h)

  enqueue-has_key :
      (now : ℕ) (url payload : Text) (priority : ℤ) (q : Queue)
      → any (has_key (c ∷ cs)) (enqueue outside now no_fault url payload (c ∷ cs) priority q).0.rows
        ≡ true
  enqueue-has_key now url payload priority q = elim (Bool-cases (any (has_key (c ∷ cs)) q.rows)) [
    | inl h ↦ rw (enqueue-known now url payload priority q h).0 h
    | inr h ↦
        rw (enqueue-new now url payload priority q h).0
          (rw (any-append (has_key (c ∷ cs)) q.rows _, h, eq_text_refl (c ∷ cs)) refl)
  ]

  -- Enqueuing under a key that is not empty a second time, at any time and with any message, inserts
  -- nothing and reports id 0, whether or not the first call inserted.
  pub enqueue-enqueue :
      (now now' : ℕ) (url url' payload payload' : Text) (priority priority' : ℤ) (q : Queue)
      → let first = (enqueue outside now no_fault url payload (c ∷ cs) priority q).0 in
        let second = enqueue outside now' no_fault url' payload' (c ∷ cs) priority' first in
        (second.0.rows ≡ first.rows) × (second.1 ≡ ok 0)
  enqueue-enqueue now now' url url' payload payload' priority priority' q =
      enqueue-known now' url' payload' priority' _ (enqueue-has_key now url payload priority q)

  -- The key is remembered only as long as the row: once every row under a key is delivered and past
  -- its retention, a prune and a second enqueue under the same key insert a new pending row.
  pub enqueue-prune :
      (now now' keep : ℕ) (url payload : Text) (priority : ℤ) (q : Queue)
      → All (λ r. has_key (c ∷ cs) r ≡ true → is_stale now keep r ≡ true) q.rows
      → let p = (prune now no_fault keep q).0 in
        let again = enqueue outside now' no_fault url payload (c ∷ cs) priority p in
        (again.0.rows
          ≡ p.rows ++ new_row outside now' p.next_id url payload (some (c ∷ cs)) priority ∷ [])
        × (again.1 ≡ ok p.next_id)
  unfolding prune
  enqueue-prune now now' keep url payload priority q h =
      enqueue-new now' url payload priority
        (record q { rows = select (λ r. not (is_stale now keep r)) q.rows })
        (All-any-false (has_key (c ∷ cs)) _ (
          All-map (λ r k. gone r (ground arith) k.1) _
            (All-select (λ r. not (is_stale now keep r))
              (λ r. has_key (c ∷ cs) r ≡ true → is_stale now keep r ≡ true) q.rows h)))
    where
      gone :
          (r : Row)
          → is_stale now keep r ≡ false
          → (has_key (c ∷ cs) r ≡ true → is_stale now keep r ≡ true)
          → has_key (c ∷ cs) r ≡ false
      gone r e k = elim (Bool-cases (has_key (c ∷ cs) r)) [
        | inl h ↦ absurd (ground (arith, k h))
        | inr h ↦ h
      ]

-- No two rows carry the key.
abbrev pub IsUnique : Text → Queue → Type 0
IsUnique k q = count_where (has_key k) q.rows ≤ 1

module _ (outside : Outside) (k : Text) where
  enqueue-IsUnique :
      (now : ℕ) (fault : Fault) (url payload key : Text) (priority : ℤ) (q : Queue)
      → IsUnique k q
      → IsUnique k (enqueue outside now fault url payload key priority q).0
  unfolding enqueue
  enqueue-IsUnique now (query_fault e) url payload key priority q u = u
  enqueue-IsUnique now no_fault url payload [] priority q u =
      rw (All-any-false (λ r. false) q.rows (All-map (λ r m. refl) q.rows (All-Member q.rows))) (
        omega (
          arith,
          count_where-append (has_key k) q.rows
              (new_row outside now q.next_id url payload none priority ∷ []),
        ))
  enqueue-IsUnique now no_fault url payload (c ∷ cs) priority q u =
      elim (Bool-cases (any (has_key (c ∷ cs)) q.rows)) [
        | inl h ↦ rw h u
        | inr h ↦ rw h (rw (count_where-append (has_key k) q.rows) (added h))
      ]
    where
      added :
          any (has_key (c ∷ cs)) q.rows ≡ false
          → count_where (has_key k) q.rows + ((if eq_text k (c ∷ cs) then 1 else 0) + 0) ≤ 1
      added h = elim (Bool-cases (eq_text k (c ∷ cs))) [
        | inl e ↦ rw e (
            omega (
              arith,
              all_true (has_key k) q.rows
                  (subst (λ s. any (has_key s) q.rows ≡ false) (sym (eq_text-eq k (c ∷ cs) e)) h),
            ))
        | inr e ↦ rw e (omega arith)
      ]

  claim-IsUnique :
      (arrange : List Row → List Row) (now : ℕ) (locked : ℕ → Bool) (fault : Fault) (limit : ℤ)
      (lease : ℕ) (q : Queue)
      → IsUnique k q
      → IsUnique k (claim arrange now locked fault limit lease q).0
  unfolding claim claim_rows
  claim-IsUnique arrange now locked (query_fault e) limit lease q u = u
  claim-IsUnique arrange now locked no_fault (negsuc n) lease q u = u
  claim-IsUnique arrange now locked no_fault (pos n) lease q u = omega (
    arith,
    count_where-update_where (has_key k) (λ r. contains (ids (due now locked n q.rows)) r.id)
        (leased now lease) q.rows (λ r. refl),
  )

  complete-IsUnique :
      (format : ℕ → Text) (now : ℕ) (fault : Fault) (d : Row) (res : Result) (q : Queue)
      → IsUnique k q
      → IsUnique k (complete format now fault (to_delivery d) res q).0
  unfolding complete
  complete-IsUnique format now (query_fault e) d res q u = u
  complete-IsUnique format now no_fault d res q u = omega (
    arith,
    count_where-update_where (has_key k) (λ r. r.id == d.id) (settle now (to_delivery d) res) q.rows
        (λ r. unfold settle in ground arith),
  )

  prune-IsUnique :
      (now : ℕ) (fault : Fault) (keep : ℕ) (q : Queue)
      → IsUnique k q
      → IsUnique k (prune now fault keep q).0
  unfolding prune
  prune-IsUnique now (query_fault e) keep q u = u
  prune-IsUnique now no_fault keep q u = omega (
    arith,
    count_where-select (has_key k) (λ r. not (is_stale now keep r)) q.rows,
    count_where_mono (λ r. not (is_stale now keep r) && has_key k r) (has_key k) q.rows
        (λ r h. ground arith),
  )

  Step-IsUnique :
      {May : ℕ → Type 0} {q q' : Queue} → Step outside May q q' → IsUnique k q → IsUnique k q'
  Step-IsUnique {q = q} (enqueued now fault url payload key priority e) u =
      rw e (enqueue-IsUnique now fault url payload key priority q u)
  Step-IsUnique {q = q} (claimed arrange now locked fault limit lease e) u =
      rw e (claim-IsUnique arrange now locked fault limit lease q u)
  Step-IsUnique {q = q} (completed format now fault d res m h may e) u =
      rw e (complete-IsUnique format now fault d res q u)
  Step-IsUnique {q = q} (pruned now fault keep e) u = rw e (prune-IsUnique now fault keep q u)

  -- After any history from the empty queue, whatever fails in it, at most one row carries a key.
  pub Reach-IsUnique : {May : ℕ → Type 0} {q : Queue} → Reach outside May empty q → IsUnique k q
  Reach-IsUnique here = omega arith
  Reach-IsUnique (next r s) = Step-IsUnique s (Reach-IsUnique r)
