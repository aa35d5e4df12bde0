-- ===== src/Discord/Queue/Valid.antt =====
-- Every operation of internal/discord/queue.go keeps the queue valid.
use anvil_forge.Prelude.{
  All-append, count_where_mono, All-update_where, ==_iff, All, All-Member, All-both, All-map,
  All-select, All_member, Bool, Bool-cases, IsKeyed-update_where, List, Member, Text, [], any, ap,
  arith, count_where, count_where-append, count_where-select, count_where_none, if◌then◌else◌, inl,
  inr, negsuc, not, pos, refl, same_row, subst, suc, sym, ℕ, ℤ, ◌&&◌, ◌++◌, ◌<◌, ◌==◌, ◌∷◌, ◌≡◌,
}
use anvil_forge.Discord.Sender.{Result}
use anvil_forge.Discord.Rows.{
  Outside, new_row, null_if_empty, Delivery, same_key, Row, Queue, Fault, no_fault, query_fault,
  delivering, enqueue,
}
use anvil_forge.Discord.Queue.{is_stale, claim, claim_rows, complete, prune, to_delivery, settle}
use anvil_forge.Discord.Queue.Claims.{claim-HasKeys, claim-All}
use anvil_forge.Discord.Queue.Steps.{
  Step, enqueued, claimed, completed, pruned, Reach, here, next, IsSound, IsValid, leased-IsSound,
  settle-IsSound,
}

pub settle-id : (now : ℕ) (d : Delivery) (res : Result) (x : Row) → (settle now d res x).id ≡ x.id
unfolding settle
settle-id now d res x = ground arith

fresh-count :
    (n : ℕ) (rows : List Row) → All (λ r. r.id < n) rows → count_where (λ r. r.id == n) rows ≡ 0
fresh-count n rows h = count_where_none (λ r. r.id == n) rows (All-map (λ r k. ground arith) rows h)

grown-IsValid :
    (q : Queue) (r : Row)
    → IsValid q
    → r.id ≡ q.next_id
    → IsSound r
    → IsValid (record { rows = q.rows ++ r ∷ []; next_id = suc q.next_id })
grown-IsValid q r v e s = record {
  keyed = λ k. ground (
    arith,
    count_where-append (λ r. r.id == k) q.rows (r ∷ []),
    v.keyed k,
    fresh-count q.next_id q.rows v.fresh,
    ap (λ (k : ℕ). count_where (λ r. r.id == k) q.rows) e,
  );
  fresh =
      All-append (λ r. r.id < suc q.next_id) q.rows (r ∷ [])
        (All-map (λ r h. omega arith) q.rows v.fresh) (omega arith);
  sound = All-append IsSound q.rows (r ∷ []) v.sound (s, tt);
}

module _ (outside : Outside) where
  enqueue-IsValid :
      (now : ℕ) (fault : Fault) (url payload key : Text) (priority : ℤ) (q : Queue)
      → IsValid q
      → IsValid (enqueue outside now fault url payload key priority q).0
  unfolding enqueue
  enqueue-IsValid now (query_fault e) url payload key priority q v = v
  enqueue-IsValid now no_fault url payload key priority q v =
      elim (Bool-cases (any (λ r. same_key (null_if_empty key) r.dedupe_key) q.rows)) [
        | inl h ↦ rw h (record {
          keyed = v.keyed;
          fresh = All-map (λ r k. omega arith) q.rows v.fresh;
          sound = v.sound;
        })
        | inr h ↦ rw h (
            grown-IsValid q (new_row outside now q.next_id url payload (null_if_empty key) priority)
              v refl (ground arith))
      ]

lent-IsValid :
    (now lease limit : ℕ) (locked : ℕ → Bool) (q : Queue)
    → IsValid q
    → IsValid (record q { rows = (claim_rows now locked limit lease q.rows).0 })
lent-IsValid now lease limit locked q v = record {
  keyed = claim-HasKeys now lease limit locked q.rows v.keyed;
  fresh =
      claim-All now lease limit locked q.rows (λ r. r.id < q.next_id) v.keyed
        (λ r m. All_member _ q.rows r v.fresh m) (λ r m d. All_member _ q.rows r v.fresh m);
  sound =
      claim-All now lease limit locked q.rows IsSound v.keyed
        (λ r m. All_member IsSound q.rows r v.sound m)
        (λ r m d. (leased-IsSound now lease locked r (All_member IsSound q.rows r v.sound m) d).1);
}

claim-IsValid :
    (arrange : List Row → List Row) (now : ℕ) (locked : ℕ → Bool) (fault : Fault) (limit : ℤ)
    (lease : ℕ) (q : Queue)
    → IsValid q
    → IsValid (claim arrange now locked fault limit lease q).0
unfolding claim
claim-IsValid arrange now locked (query_fault e) limit lease q v = v
claim-IsValid arrange now locked no_fault (pos n) lease q v = lent-IsValid now lease n locked q v
claim-IsValid arrange now locked no_fault (negsuc n) lease q v = v

complete-IsValid :
    (format : ℕ → Text) (now : ℕ) (fault : Fault) (r : Row) (res : Result) (q : Queue)
    → Member r q.rows
    → r.status ≡ delivering
    → IsValid q
    → IsValid (complete format now fault (to_delivery r) res q).0
unfolding complete
complete-IsValid format now (query_fault e) r res q m h v = v
complete-IsValid format now no_fault r res q m h v = record {
  keyed = IsKeyed-update_where (λ x. x.id) hit write q.rows same_id v.keyed;
  fresh =
      All-update_where (λ x. x.id < q.next_id) hit write q.rows
        (All-map (λ x k. ground (arith, same_id x)) q.rows v.fresh);
  sound = All-update_where IsSound hit write q.rows (
      All-map each q.rows
        (All-both IsSound (λ x. Member x q.rows) q.rows v.sound (All-Member q.rows)));
}
  where
    hit : Row → Bool
    hit x = x.id == r.id

    write : Row → Row
    write = settle now (to_delivery r) res

    same_id : (x : Row) → (write x).id ≡ x.id
    same_id x = settle-id now (to_delivery r) res x

    each : (x : Row) → IsSound x × Member x q.rows → IsSound (if hit x then write x else x)
    each x (s, k) = elim (Bool-cases (hit x)) [
      | inl e ↦ rw e (
          subst (λ x. IsSound (write x))
            (sym (same_row (λ x. x.id) q.rows x r v.keyed k m ((==_iff x.id r.id).0 e)))
            (settle-IsSound now r res (All_member IsSound q.rows r v.sound m) h))
      | inr e ↦ rw e s
    ]

prune-IsValid :
    (now : ℕ) (fault : Fault) (keep : ℕ) (q : Queue)
    → IsValid q
    → IsValid (prune now fault keep q).0
unfolding prune
prune-IsValid now (query_fault e) keep q v = v
prune-IsValid now no_fault keep q v = record {
  keyed = λ k. omega (
    arith,
    count_where-select (λ r. r.id == k) stays q.rows,
    v.keyed k,
    count_where_mono (λ r. stays r && (r.id == k)) (λ r. r.id == k) q.rows (λ r h. ground arith),
  );
  fresh = All-map (λ r h. h.1) _ (All-select stays (λ r. r.id < q.next_id) q.rows v.fresh);
  sound = All-map (λ r h. h.1) _ (All-select stays IsSound q.rows v.sound);
}
  where
    stays : Row → Bool
    stays r = not (is_stale now keep r)

module _ {outside : Outside} {May : ℕ → Type 0} where
  pub Step-IsValid : {q q' : Queue} → Step outside May q q' → IsValid q → IsValid q'
  Step-IsValid {q} (enqueued now fault url payload key priority e) v =
      rw e (enqueue-IsValid outside now fault url payload key priority q v)
  Step-IsValid {q} (claimed arrange now locked fault limit lease e) v =
      rw e (claim-IsValid arrange now locked fault limit lease q v)
  Step-IsValid {q} (completed format now fault r res m h may e) v =
      rw e (complete-IsValid format now fault r res q m h v)
  Step-IsValid {q} (pruned now fault keep e) v = rw e (prune-IsValid now fault keep q v)

  pub Reach-IsValid : {q q' : Queue} → IsValid q → Reach outside May q q' → IsValid q'
  Reach-IsValid v here = v
  Reach-IsValid v (next r s) = Step-IsValid s (Reach-IsValid v r)
