-- ===== src/Ratelimit/Lookup.antt =====
-- What a lookup finds after each method of internal/ratelimit/keyed.go.
use anvil_forge.Prelude.{
  Bool-cases, List, Member, Option, Text, [], any, arith, eq_text, eq_text-eq, if◌then◌else◌, inl,
  inr, is_none, none, not, refl, some, subst, sym, true, update_where, ℕ, ◌∷◌, ◌≡◌,
}
use anvil_forge.Ratelimit.{Bucket, has_key, lookup, ensure, fresh_bucket, extend}

abbrev pub touched : ℕ → Text → ℕ → Option Bucket → Bucket
touched now key limiter none = fresh_bucket now key limiter
touched now key limiter (some b) = record b { last_used = now }

pub lookup-ensure :
    (now : ℕ) (key : Text) (limiter : ℕ) (bs : List Bucket) (j : Text)
    → lookup j (ensure now key limiter bs)
      ≡ (if eq_text key j then some (touched now key limiter (lookup key bs)) else lookup j bs)
unfolding lookup ensure
lookup-ensure now key limiter [] j = refl
lookup-ensure now key limiter (b ∷ bs) j = ground (
  arith,
  lookup-ensure now key limiter bs j,
  eq_text-eq b.key key,
  eq_text-eq b.key j,
  eq_text-eq key j,
)

abbrev pub extended : ℕ → Option Bucket → Option Bucket
extended until none = none
extended until (some b) = some (extend until b)

pub lookup-extend :
    (until : ℕ) (key : Text) (bs : List Bucket) (j : Text)
    → lookup j (update_where (has_key key) (extend until) bs)
      ≡ (if eq_text key j then extended until (lookup key bs) else lookup j bs)
unfolding lookup
lookup-extend until key [] j = ground arith
lookup-extend until key (b ∷ bs) j = ground (
  arith,
  lookup-extend until key bs j,
  eq_text-eq b.key key,
  eq_text-eq b.key j,
  eq_text-eq key j,
)

pub lookup-Member :
    (key : Text) (bs : List Bucket) (b : Bucket)
    → lookup key bs ≡ some b
    → Member b bs × (has_key key b ≡ true)
unfolding lookup
lookup-Member key [] b e = absurd (ground arith)
lookup-Member key (c ∷ bs) b e = elim (Bool-cases (has_key key c)) [
  | inl h ↦
      let same : c ≡ b = ground arith in
      (Member.head (sym same), subst (λ b. has_key key b ≡ true) same h)
  | inr h ↦ let found = lookup-Member key bs b (ground arith) in (Member.tail found.0, found.1)
]

pub has_bucket-lookup :
    (key : Text) (bs : List Bucket) → any (has_key key) bs ≡ not (is_none (lookup key bs))
unfolding lookup
has_bucket-lookup key [] = refl
has_bucket-lookup key (b ∷ bs) = ground (arith, has_bucket-lookup key bs)
