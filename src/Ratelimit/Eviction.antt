-- ===== src/Ratelimit/Eviction.antt =====
-- What the eviction of internal/ratelimit/keyed.go drops and keeps.
use anvil_forge.Prelude.{
  count_where_mono, count_where-select, List, Option, Text, [], ap, arith, count_where,
  count_where-not, if◌then◌else◌, length-select, none, not, refl, select, some, to_ℕ, ℕ, ℤ, ◌&&◌,
  ◌+◌, ◌<◌, ◌∙◌, ◌∷◌, ◌≡◌, ◌≤◌,
}
use anvil_forge.Ratelimit.{Bucket, Keyed, has_key, lookup, sweep, is_idle, len, get, wait, asked}
use anvil_forge.Ratelimit.Holds.{deadline, deadline-get, deadline_of}
use anvil_forge.Ratelimit.Apart.{IsApart}

-- The bucket, unless it is idle.
abbrev pub awake : ℕ → ℤ → Option Bucket → Option Bucket
awake now ttl none = none
awake now ttl (some b) = if is_idle now ttl b then none else some b

lookup-absent :
    (key : Text) (bs : List Bucket) → count_where (has_key key) bs ≡ 0 → lookup key bs ≡ none
unfolding lookup
lookup-absent key [] h = refl
lookup-absent key (b ∷ bs) h = ground (arith, lookup-absent key bs)

lookup-select :
    (now : ℕ) (ttl : ℤ) (key : Text) (bs : List Bucket)
    → count_where (has_key key) bs ≤ 1
    → lookup key (select (λ b. not (is_idle now ttl b)) bs) ≡ awake now ttl (lookup key bs)
unfolding lookup
lookup-select now ttl key [] h = refl
lookup-select now ttl key (b ∷ bs) h = ground (
  arith,
  lookup-select now ttl key bs,
  lookup-absent key bs,
  lookup-absent key (select (λ b. not (is_idle now ttl b)) bs),
  count_where-select (has_key key) (λ b. not (is_idle now ttl b)) bs,
  count_where_mono (λ b. not (is_idle now ttl b) && has_key key b) (has_key key) bs
      (λ b h. ground arith),
)

module _ {Limit : Type 0} where
  -- On a table with one bucket for a key, an eviction drops the buckets that were unused for longer
  -- than the time to live and leaves every other one as it is; the number that it returns is that of
  -- the buckets that went.
  pub lookup-sweep :
      (now : ℕ) (k : Keyed Limit) (key : Text)
      → IsApart k
      → (lookup key (sweep now k).0.buckets ≡ awake now k.ttl (lookup key k.buckets))
        × ((sweep now k).1 + len (sweep now k).0 ≡ len k)
  unfolding sweep len
  lookup-sweep now k key a = (
    lookup-select now k.ttl key k.buckets (a.keyed key),
    omega (
      arith,
      length-select (λ b. not (is_idle now k.ttl b)) k.buckets,
      count_where-not (is_idle now k.ttl) k.buckets,
    ),
  )

  -- A hold does not keep its bucket alive: where a key was not used for longer than the time to live,
  -- an eviction before the end of its hold forgets the hold, and a wait right after it asks the
  -- limiter at once, too early.
  pub wait-sweep :
      (now : ℕ) (key : Text) (k : Keyed Limit) (b : Bucket) (ended : Option Text)
      (ask : ℕ → ℕ → Option Text)
      → IsApart k
      → lookup key k.buckets ≡ some b
      → b.last_used + to_ℕ k.ttl < now
      → now < b.not_before
      → (e : Option Text) × ((wait now key ended ask (sweep now k).0).1 ≡ asked now e)
        × (now < deadline k key)
  unfolding wait
  wait-sweep now key k b ended ask a h idle held =
      let k' = (sweep now k).0 in
      let gone : lookup key k'.buckets ≡ none =
        (lookup-sweep now k key a).0 ∙ ap (awake now k.ttl) h ∙ ground arith in
      let zero_deadline = ap deadline_of gone in
      (
        ask (get now key k').1.0 now,
        ground (arith, (deadline-get now key k' key).1, zero_deadline),
        rw h held,
      )
