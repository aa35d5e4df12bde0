-- ===== src/Ratelimit/Holds.antt =====
-- internal/ratelimit/keyed.go refines a table of deadlines: a hold is a deadline for its key, a
-- second hold the later of the two, and a wait asks the limiter no sooner than the deadline.
use anvil_forge.Prelude.{
  List, Option, Text, [], ap, arith, eq_text, eq_text-eq, eq_text_refl, if◌then◌else◌, is_positive,
  max, none, refl, some, sub_ℕ, to_ℕ, true, ℕ, ℤ, ◌&&◌, ◌+◌, ◌∙◌, ◌∷◌, ◌≡◌, ◌≤◌,
}
use anvil_forge.Ratelimit.{
  Bucket, Keyed, lookup, ensure_locked, reserve_for, get, wait, asked, limiter_and_pause,
}
use anvil_forge.Ratelimit.Lookup.{lookup-ensure, lookup-extend}

-- The deadline of a key: 0, Go's zero time, where it has none.
abbrev pub deadline_of : Option Bucket → ℕ
deadline_of none = 0
deadline_of (some b) = b.not_before

pause-of : (now : ℕ) (o : Option Bucket) → (limiter_and_pause now o).1 ≡ sub_ℕ (deadline_of o) now
unfolding limiter_and_pause
pause-of now none = refl
pause-of now (some b) = refl

-- The methods that workers call; the eviction of idle buckets is not among them.
pub data Call : Type 0 where
  reserves : Text → ℤ → Call
  gets : Text → Call

module _ {Limit : Type 0} where
  abbrev pub deadline : Keyed Limit → Text → ℕ
  deadline k key = deadline_of (lookup key k.buckets)

  deadline-ensure_locked :
      (now : ℕ) (key : Text) (k : Keyed Limit) (j : Text)
      → deadline (ensure_locked now key k) j ≡ deadline k j
  unfolding ensure_locked
  deadline-ensure_locked now key k j =
      ground (arith, lookup-ensure now key k.next_limiter k.buckets j, eq_text-eq key j)

  -- Holding a key off for a positive time moves its deadline to the later of the old one and the end
  -- of that time, and never to an earlier one; a time that is not positive changes nothing, and no
  -- other key's deadline changes.
  pub deadline-reserve_for :
      (now : ℕ) (key : Text) (d : ℤ) (k : Keyed Limit) (j : Text)
      → deadline (reserve_for now key d k) j ≡ (
          if is_positive d && eq_text key j
          then max (deadline k j) (now + to_ℕ d)
          else deadline k j)
  unfolding reserve_for
  deadline-reserve_for now key d k j = ground (
    arith,
    lookup-extend (now + to_ℕ d) key (ensure_locked now key k).buckets j,
    deadline-ensure_locked now key k j,
    deadline-ensure_locked now key k key,
    eq_text-eq key j,
    lookup-ensure now key k.next_limiter k.buckets key,
    eq_text_refl key,
  )

  -- A look at a key changes no deadline, and the pause is what is left of the key's.
  pub deadline-get :
      (now : ℕ) (key : Text) (k : Keyed Limit) (j : Text)
      → (deadline (get now key k).0 j ≡ deadline k j)
        × ((get now key k).1.1 ≡ sub_ℕ (deadline k key) now)
  unfolding get
  deadline-get now key k j = (
    deadline-ensure_locked now key k j,
    pause-of now (lookup key (ensure_locked now key k).buckets)
        ∙ ap (λ (t : ℕ). sub_ℕ t now) (deadline-ensure_locked now key k key),
  )

  unfoldable pub step : ℕ × Call → Keyed Limit → Keyed Limit
  step (now, reserves key d) k = reserve_for now key d k
  step (now, gets key) k = (get now key k).0

  unfoldable pub run : List (ℕ × Call) → Keyed Limit → Keyed Limit
  unfolding step
  run [] k = k
  run (c ∷ cs) k = run cs (step c k)

  step-deadline-le :
      (c : ℕ × Call) (k : Keyed Limit) (j : Text) → deadline k j ≤ deadline (step c k) j
  unfolding step
  step-deadline-le (now, reserves key d) k j = ground (arith, deadline-reserve_for now key d k j)
  step-deadline-le (now, gets key) k j = omega (arith, (deadline-get now key k j).0)

  run-deadline-le :
      (cs : List (ℕ × Call)) (k : Keyed Limit) (j : Text) → deadline k j ≤ deadline (run cs k) j
  unfolding run
  run-deadline-le [] k j = omega arith
  run-deadline-le (c ∷ cs) k j =
      omega (arith, step-deadline-le c k j, run-deadline-le cs (step c k) j)

  -- A wait changes no deadline.
  pub deadline-wait :
      (now : ℕ) (key : Text) (ended : Option Text) (ask : ℕ → ℕ → Option Text) (k : Keyed Limit)
      (j : Text)
      → deadline (wait now key ended ask k).0 j ≡ deadline k j
  unfolding wait
  deadline-wait now key ended ask k j = ground (arith, (deadline-get now key k j).0)

  pub wait-deadline :
      (now : ℕ) (key : Text) (ended : Option Text) (ask : ℕ → ℕ → Option Text) (k : Keyed Limit)
      (t : ℕ) (e : Option Text)
      → (wait now key ended ask k).1 ≡ asked t e
      → deadline k key ≤ t
  unfolding wait
  wait-deadline now key ended ask k t e h = ground (arith, (deadline-get now key k key).1)

  -- After a positive hold on a key, and after any calls of workers on any keys in the meantime, a
  -- wait on that key asks its limiter no sooner than the end of the hold.
  pub wait-reserve_for :
      (now later : ℕ) (key : Text) (d : ℤ) (cs : List (ℕ × Call)) (k : Keyed Limit)
      (ended : Option Text) (ask : ℕ → ℕ → Option Text) (t : ℕ) (e : Option Text)
      → is_positive d ≡ true
      → (wait later key ended ask (run cs (reserve_for now key d k))).1 ≡ asked t e
      → now + to_ℕ d ≤ t
  wait-reserve_for now later key d cs k ended ask t e p h = ground (
    arith,
    wait-deadline later key ended ask (run cs (reserve_for now key d k)) t e h,
    run-deadline-le cs (reserve_for now key d k) key,
    deadline-reserve_for now key d k key,
    eq_text_refl key,
  )
