-- ===== src/Ratelimit/Apart.antt =====
-- internal/ratelimit/keyed.go: no two keys share a bucket or a limiter, and every method keeps it so.
use anvil_forge.Prelude.{
  All-update_where, count_where-update_where, all_true, count_where_mono, All, All-map, All-select,
  Bool, Bool-cases, IsKeyed, IsKeyed-update_where, List, Text, [], ap, arith, count_where,
  count_where-select, count_where_none, eq_text, eq_text-eq, false, if◌then◌else◌, inl, inr,
  is_positive, not, refl, suc, to_ℕ, ℕ, ℤ, ◌&&◌, ◌+◌, ◌<◌, ◌==◌, ◌∷◌, ◌≡◌, ◌≤◌,
}
use anvil_forge.Ratelimit.{
  Bucket, Keyed, has_key, has_bucket, ensure, fresh_bucket, ensure_locked, extend, reserve_for,
  sweep, is_idle, new_keyed,
}

-- One bucket for a key and one for a limiter, and every limiter was made.
pub record IsApart {Limit : Type 0} (k : Keyed Limit) : Type 0 where
  pub keyed : (key : Text) → count_where (has_key key) k.buckets ≤ 1
  pub limiters : IsKeyed (λ b. b.limiter) k.buckets
  pub made : All (λ b. b.limiter < k.next_limiter) k.buckets

-- What the methods keep of a bucket.
count-ensure :
    (p : Bucket → Bool) (now : ℕ) (key : Text) (limiter : ℕ) (bs : List Bucket)
    → ((b : Bucket) → p (record b { last_used = now }) ≡ p b)
    → count_where p (ensure now key limiter bs)
      ≡ count_where p bs
        + (if has_bucket key bs then 0 else if p (fresh_bucket now key limiter) then 1 else 0)
unfolding ensure
count-ensure p now key limiter [] h = ground arith
count-ensure p now key limiter (b ∷ bs) h = ground (arith, h b, count-ensure p now key limiter bs h)

All-ensure :
    (P : Bucket → Type 0) (now : ℕ) (key : Text) (limiter : ℕ) (bs : List Bucket)
    → ((b : Bucket) → P b → P (record b { last_used = now }))
    → (has_bucket key bs ≡ false → P (fresh_bucket now key limiter))
    → All P bs
    → All P (ensure now key limiter bs)
unfolding ensure
All-ensure P now key limiter [] keep new h = (new refl, tt)
All-ensure P now key limiter (b ∷ bs) keep new h = elim (Bool-cases (has_key key b)) [
  | inl e ↦ rw e (keep b h.0, h.1)
  | inr e ↦ rw e (h.0, All-ensure P now key limiter bs keep (λ n. new (ground arith)) h.1)
]

unmade :
    (n : ℕ) (bs : List Bucket)
    → All (λ b. b.limiter < n) bs
    → count_where (λ b. b.limiter == n) bs ≡ 0
unmade n bs h = count_where_none (λ b. b.limiter == n) bs (All-map (λ b k. ground arith) bs h)

module _ {Limit : Type 0} where
  pub new_keyed-IsApart : (r : Limit) (burst ttl : ℤ) → IsApart (new_keyed r burst ttl)
  unfolding new_keyed
  new_keyed-IsApart r burst ttl = record {
    keyed = λ key. omega arith;
    limiters = λ n. omega arith;
    made = tt;
  }

  pub ensure_locked-IsApart :
      (now : ℕ) (key : Text) (k : Keyed Limit) → IsApart k → IsApart (ensure_locked now key k)
  unfolding ensure_locked
  ensure_locked-IsApart now key k a = record {
    keyed = λ j. elim (Bool-cases (eq_text key j)) [
      | inl e ↦ ground (
        arith,
        count-ensure (has_key j) now key k.next_limiter k.buckets (λ b. refl),
        a.keyed j,
        all_true (has_key key) k.buckets,
        ap (λ s. count_where (has_key s) k.buckets) (eq_text-eq key j e),
      )
      | inr e ↦
          ground (
            arith,
            count-ensure (has_key j) now key k.next_limiter k.buckets (λ b. refl),
            a.keyed j,
          )
    ];
    limiters = λ n. ground (
      arith,
      count-ensure (λ b. b.limiter == n) now key k.next_limiter k.buckets (λ b. refl),
      a.limiters n,
      unmade k.next_limiter k.buckets a.made,
    );
    made =
        All-ensure
          (λ b.
            b.limiter < (if has_bucket key k.buckets then k.next_limiter else suc k.next_limiter))
          now key k.next_limiter k.buckets (λ b h. h) (λ n. rw n (omega arith))
          (All-map (λ b h. ground arith) k.buckets a.made);
  }

  pub reserve_for-IsApart :
      (now : ℕ) (key : Text) (d : ℤ) (k : Keyed Limit)
      → IsApart k
      → IsApart (reserve_for now key d k)
  unfolding reserve_for
  reserve_for-IsApart now key d k a = elim (Bool-cases (is_positive d)) [
    | inr e ↦ rw e a
    | inl e ↦
        let v = ensure_locked-IsApart now key k a in
        let bs = (ensure_locked now key k).buckets in
        let until = now + to_ℕ d in
        rw e (record {
          keyed = λ j. omega (
            arith,
            v.keyed j,
            count_where-update_where (has_key j) (has_key key) (extend until) bs
                (λ b. ground arith),
          );
          limiters =
              IsKeyed-update_where (λ b. b.limiter) (has_key key) (extend until) bs
                (λ b. ground arith) v.limiters;
          made =
              All-update_where (λ b. b.limiter < (ensure_locked now key k).next_limiter)
                (has_key key) (extend until) bs (All-map (λ b h. ground arith) bs v.made);
        })
  ]

  pub sweep-IsApart : (now : ℕ) (k : Keyed Limit) → IsApart k → IsApart (sweep now k).0
  unfolding sweep
  sweep-IsApart now k a =
      let stays = λ (b : Bucket). not (is_idle now k.ttl b) in
      record {
        keyed = λ j. omega (
          arith,
          a.keyed j,
          count_where-select (has_key j) stays k.buckets,
          count_where_mono (λ b. stays b && has_key j b) (has_key j) k.buckets
              (λ b h. ground arith),
        );
        limiters = λ n. omega (
          arith,
          a.limiters n,
          count_where-select (λ b. b.limiter == n) stays k.buckets,
          count_where_mono (λ b. stays b && (b.limiter == n)) (λ b. b.limiter == n) k.buckets
              (λ b h. ground arith),
        );
        made =
            All-map (λ b h. h.1) _
              (All-select stays (λ b. b.limiter < k.next_limiter) k.buckets a.made);
      }
