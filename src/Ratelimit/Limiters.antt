-- ===== src/Ratelimit/Limiters.antt =====
-- The limiters of internal/ratelimit/keyed.go: a key keeps its own, and shares it with no other.
use anvil_forge.Prelude.{
  sym, Bool-cases, List, Text, [], ap, eq_text, eq_text-eq, eq_text_refl, inl, inr, refl, same_row,
  some, ℕ, ℤ, ◌↔◌, ◌∙◌, ◌∷◌, ◌≡◌,
}
use anvil_forge.Ratelimit.{
  Bucket, Keyed, lookup, ensure_locked, get, sweep, new_keyed, limiter_and_pause,
}
use anvil_forge.Ratelimit.Holds.{Call, reserves, gets, step}
use anvil_forge.Ratelimit.Lookup.{touched, lookup-ensure, lookup-Member}
use anvil_forge.Ratelimit.Apart.{
  IsApart, new_keyed-IsApart, ensure_locked-IsApart, reserve_for-IsApart, sweep-IsApart,
}

of_some : (b c : Bucket) → some b ≡ some c → b ≡ c
of_some b c e = cc

-- A call of a worker, or the eviction of idle buckets.
pub data Event : Type 0 where
  called : Call → Event
  swept : Event

module _ {Limit : Type 0} where
  pub happen : ℕ × Event → Keyed Limit → Keyed Limit
  unfolding step
  happen (now, called c) k = step (now, c) k
  happen (now, swept) k = (sweep now k).0

  pub after : List (ℕ × Event) → Keyed Limit → Keyed Limit
  after [] k = k
  after (e ∷ es) k = after es (happen e k)

  happen-IsApart : (e : ℕ × Event) (k : Keyed Limit) → IsApart k → IsApart (happen e k)
  unfolding happen get
  happen-IsApart (now, called (reserves key d)) k a = reserve_for-IsApart now key d k a
  happen-IsApart (now, called (gets key)) k a = ensure_locked-IsApart now key k a
  happen-IsApart (now, swept) k a = sweep-IsApart now k a

  after-IsApart : (es : List (ℕ × Event)) (k : Keyed Limit) → IsApart k → IsApart (after es k)
  unfolding after
  after-IsApart [] k a = a
  after-IsApart (e ∷ es) k a = after-IsApart es (happen e k) (happen-IsApart e k a)

  -- The bucket that a get returns the limiter of.
  got :
      (now : ℕ) (key : Text) (k : Keyed Limit)
      → (b : Bucket) × (lookup key (get now key k).0.buckets ≡ some b)
        × ((get now key k).1.0 ≡ b.limiter)
  unfolding get ensure_locked limiter_and_pause
  got now key k =
      let e = lookup-ensure now key k.next_limiter k.buckets key in
      (
        touched now key k.next_limiter (lookup key k.buckets),
        rw e (rw (eq_text_refl key)),
        rw e (rw (eq_text_refl key)),
      )

  -- A bucket keeps its limiter while any key is looked at.
  kept :
      (now : ℕ) (j key : Text) (k : Keyed Limit) (b : Bucket)
      → lookup key k.buckets ≡ some b
      → (b' : Bucket) × (lookup key (get now j k).0.buckets ≡ some b') × (b'.limiter ≡ b.limiter)
  unfolding get ensure_locked
  kept now j key k b h = elim (Bool-cases (eq_text j key)) [
    | inl e ↦
        let f = lookup-ensure now j k.next_limiter k.buckets key in
        let h' = ap (λ s. lookup s k.buckets) (eq_text-eq j key e) ∙ h in
        (record b { last_used = now }, rw f (rw (e, h')), refl)
    | inr e ↦ (b, rw (lookup-ensure now j k.next_limiter k.buckets key) (rw e h), refl)
  ]

  get-IsApart : (now : ℕ) (key : Text) (k : Keyed Limit) → IsApart k → IsApart (get now key k).0
  unfolding get
  get-IsApart now key k a = ensure_locked-IsApart now key k a

  get_limiters :
      (now now' : ℕ) (key j : Text) (k : Keyed Limit)
      → IsApart k
      → ((get now key k).1.0 ≡ (get now' j (get now key k).0).1.0) ↔ (key ≡ j)
  get_limiters now now' key j k a =
      let k' = (get now key k).0 in
      let (b, hb, lb) = got now key k in
      let (c, hc, lc) = got now' j k' in
      let (b', hb', lb') = kept now' j key k' b hb in
      let v = get-IsApart now' j k' (get-IsApart now key k a) in
      let mb = lookup-Member key (get now' j k').0.buckets b' hb' in
      let mc = lookup-Member j (get now' j k').0.buckets c hc in
      (
        λ e.
            let same =
              same_row (λ b. b.limiter) (get now' j k').0.buckets b' c v.limiters mb.0 mc.0
                (lb' ∙ sym lb ∙ e ∙ lc) in
            sym (eq_text-eq b'.key key mb.1)
            ∙ ap (λ (b : Bucket). b.key) same
            ∙ eq_text-eq c.key j mc.1,
        λ e.
            lb
            ∙ sym lb'
            ∙ ap (λ (b : Bucket). b.limiter)
                (of_some b' c (sym hb' ∙ ap (λ s. lookup s (get now' j k').0.buckets) e ∙ hc))
            ∙ sym lc,
      )

  -- After any calls of workers and evictions on a new table, two looks, one after the other, give
  -- the same limiter exactly when they are at the same key.
  pub after-limiters :
      (r : Limit) (burst ttl : ℤ) (es : List (ℕ × Event)) (now now' : ℕ) (key j : Text)
      → let k = after es (new_keyed r burst ttl) in
        ((get now key k).1.0 ≡ (get now' j (get now key k).0).1.0) ↔ (key ≡ j)
  after-limiters r burst ttl es now now' key j =
      get_limiters now now' key j (after es (new_keyed r burst ttl))
        (after-IsApart es _ (new_keyed-IsApart r burst ttl))
