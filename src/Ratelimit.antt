-- ===== src/Ratelimit.antt =====
-- internal/ratelimit/keyed.go: one rate limiter for each key, made on demand, with holds.
--
-- Time is a number of nanoseconds; 0 is Go's zero time, before every other. Durations are integers.
-- golang.org/x/time/rate is not modelled: a `*rate.Limiter` is the number of its allocation, so two
-- keys share a limiter only if they hold the same number, and what waiting on one gives is an
-- argument of `wait`. Each method runs under the mutex, so it is one step.
pub mod Lookup
pub mod Holds
pub mod Apart
pub mod Limiters
pub mod Eviction
pub mod Tests
use anvil_forge.Prelude.{
  count_where, Bool, List, Option, Text, [], any, eq_text, if◌then◌else◌, is_positive, length, ltb,
  ltbℤ, none, not, pos, select, some, sub_ℕ, suc, to_ℕ, update_where, ℕ, ℤ, ◌*◌, ◌+◌, ◌∷◌,
}

pub record Bucket : Type 0 where
  pub key : Text
  pub limiter : ℕ
  pub last_used : ℕ
  pub not_before : ℕ

-- `next_limiter` numbers the limiters that rate.NewLimiter has made.
pub record Keyed (Limit : Type 0) : Type 0 where
  pub limit : Limit
  pub burst : ℤ
  pub ttl : ℤ
  pub buckets : List Bucket
  pub next_limiter : ℕ

abbrev pub default_ttl : ℤ
default_ttl = pos (10 * 60 * 1000000000)

unfoldable pub new_keyed : {Limit : Type 0} → Limit → ℤ → ℤ → Keyed Limit
new_keyed r burst ttl = record {
  limit = r;
  burst = if ltbℤ burst (pos 1) then pos 1 else burst;
  ttl = if is_positive ttl then ttl else default_ttl;
  buckets = [];
  next_limiter = 0;
}

abbrev pub has_key : Text → Bucket → Bool
has_key key b = eq_text b.key key

abbrev pub has_bucket : Text → List Bucket → Bool
has_bucket key bs = any (has_key key) bs

unfoldable pub lookup : Text → List Bucket → Option Bucket
lookup key [] = none
lookup key (b ∷ bs) = if has_key key b then some b else lookup key bs

abbrev pub fresh_bucket : ℕ → Text → ℕ → Bucket
fresh_bucket now key limiter = record {
  key = key;
  limiter = limiter;
  last_used = now;
  not_before = 0;
}

-- The bucket of the key, stamped; a new one is added where there is none.
pub ensure : ℕ → Text → ℕ → List Bucket → List Bucket
ensure now key limiter [] = fresh_bucket now key limiter ∷ []
ensure now key limiter (b ∷ bs) =
    if has_key key b then record b { last_used = now } ∷ bs else b ∷ ensure now key limiter bs

abbrev pub extend : ℕ → Bucket → Bucket
extend until b = if ltb b.not_before until then record b { not_before = until } else b

pub limiter_and_pause : ℕ → Option Bucket → ℕ × ℤ
limiter_and_pause now none = (0, sub_ℕ 0 now)
limiter_and_pause now (some b) = (b.limiter, sub_ℕ b.not_before now)

-- Where a wait ends: with the context's error during the hold, or with what the limiter says when
-- it is asked at that time.
pub data Waited : Type 0 where
  interrupted : Text → Waited
  asked : ℕ → Option Text → Waited

-- b.lastUsed.Before(time.Now().Add(-k.ttl))
abbrev pub is_idle : ℕ → ℤ → Bucket → Bool
is_idle now ttl b = ltb (b.last_used + to_ℕ ttl) now

module _ {Limit : Type 0} where
  unfoldable pub ensure_locked : ℕ → Text → Keyed Limit → Keyed Limit
  unfolding ensure
  ensure_locked now key k = record k {
    buckets = ensure now key k.next_limiter k.buckets;
    next_limiter = if has_bucket key k.buckets then k.next_limiter else suc k.next_limiter;
  }

  unfoldable pub reserve_for : ℕ → Text → ℤ → Keyed Limit → Keyed Limit
  unfolding ensure_locked
  reserve_for now key d k =
      if is_positive d
      then (let k' = ensure_locked now key k in
          record k' { buckets = update_where (has_key key) (extend (now + to_ℕ d)) k'.buckets })
      else k

  -- The limiter of the key, and how long the key is still held off.
  unfoldable pub get : ℕ → Text → Keyed Limit → Keyed Limit × (ℕ × ℤ)
  unfolding ensure_locked limiter_and_pause lookup
  get now key k =
      let k' = ensure_locked now key k in (k', limiter_and_pause now (lookup key k'.buckets))

  -- `ended` is the context's error if it ends during the hold; `ask` is limiter.Wait.
  unfoldable pub wait :
      ℕ → Text → Option Text → (ℕ → ℕ → Option Text) → Keyed Limit → Keyed Limit × Waited
  unfolding get
  wait now key ended ask k =
      let (k', (limiter, pause)) = get now key k in
      if is_positive pause
      then (elim ended [
        | some e ↦ (k', interrupted e)
        | none ↦ (k', asked (now + to_ℕ pause) (ask limiter (now + to_ℕ pause)))
      ])
      else (k', asked now (ask limiter now))

  unfoldable pub sweep : ℕ → Keyed Limit → Keyed Limit × ℕ
  sweep now k = (
    record k { buckets = select (λ b. not (is_idle now k.ttl b)) k.buckets },
    count_where (is_idle now k.ttl) k.buckets,
  )

  unfoldable pub len : Keyed Limit → ℕ
  len k = length k.buckets
