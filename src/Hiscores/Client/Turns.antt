-- ===== src/Hiscores/Client/Turns.antt =====
-- internal/hiscores/client.go: the loop over the attempts of a fetch, turn by turn.
use anvil_forge.Prelude.{
  ◌^◌, All, Bool, Bool-cases, List, Option, Text, [], ap, arith, false, if_both, if_cases,
  if◌then◌else◌, inl, inr, is_none, leb, length, ltb, none, refl, some, subst, suc, true, zero, ℕ,
  ◌&&◌, ◌+◌, ◌<◌, ◌==◌, ◌∙◌, ◌∷◌, ◌≡◌, ◌≤◌, ◌⊎◌,
}
use anvil_forge.Hiscores.Client.{
  Outcome, outcome_ok, outcome_unranked, outcome_transient, Error, is_not_found, Result, World,
  Reply, malformed, unanswered, response, Attempt, got, failed, turn, after_failure, check_stats,
  read_body, fetch_once, fetch_from,
}

abbrev pub repeat {ℓ} : {A : Type ℓ} → ℕ → A → List A
repeat zero a = []
repeat (suc n) a = a ∷ repeat n a

-- A body that passed the test comes with no error, and any other outcome with an error and no body.
abbrev pub IsTagged : (Text → Bool) → Outcome → Text → Option Error → Type 0
IsTagged is_stats outcome_ok body err = err ≡ none × is_stats body ≡ true
IsTagged is_stats _ body err = body ≡ [] × is_none err ≡ false

-- What an attempt decides by itself.
abbrev pub decides : Attempt → Option Result
decides (got body) = some (record { outcome = outcome_ok; body = body; err = none })
decides (failed e) =
    if is_not_found e
    then some (record { outcome = outcome_unranked; body = []; err = some e })
    else none

abbrev pub AreCalls : Text → ℕ → Result × List Text → Type 0
AreCalls url n r = length r.1 ≤ n × All (λ u. u ≡ url) r.1

abbrev pub IsGood : (Text → Bool) → Result × List Text → Type 0
IsGood is_stats r = IsTagged is_stats r.0.outcome r.0.body r.0.err

after_failure-AreCalls :
    (url : Text) (e : Error) (a b : Option Text) (n : ℕ) (next : Error → Result × List Text)
    → ((e : Error) → AreCalls url n (next e))
    → AreCalls url (suc n) (after_failure url e a b next)
unfolding after_failure
after_failure-AreCalls url e (some c) b n next h = (omega arith, (refl, tt))
after_failure-AreCalls url e none (some c) n next h = (omega arith, (refl, tt))
after_failure-AreCalls url e none none n next h = (omega (arith, (h e).0), (refl, (h e).1))

turn-AreCalls :
    (url : Text) (t : Attempt) (a b : Option Text) (n : ℕ) (next : Error → Result × List Text)
    → ((e : Error) → AreCalls url n (next e))
    → AreCalls url (suc n) (turn url t a b next)
unfolding turn
turn-AreCalls url (got body) a b n next h = (omega arith, (refl, tt))
turn-AreCalls url (failed e) a b n next h =
    if_both (AreCalls url (suc n)) (is_not_found e) _ _ (omega arith, (refl, tt))
      (after_failure-AreCalls url e a b n next h)

after_failure-IsGood :
    (is_stats : Text → Bool) (url : Text) (e : Error) (a b : Option Text)
    (next : Error → Result × List Text)
    → ((e : Error) → IsGood is_stats (next e))
    → IsGood is_stats (after_failure url e a b next)
unfolding after_failure
after_failure-IsGood is_stats url e (some c) b next h = (refl, refl)
after_failure-IsGood is_stats url e none (some c) next h = (refl, refl)
after_failure-IsGood is_stats url e none none next h = h e

abbrev IsStats : (Text → Bool) → Attempt → Type 0
IsStats is_stats (got body) = is_stats body ≡ true
IsStats is_stats (failed e) = Unit

turn-IsGood :
    (is_stats : Text → Bool) (url : Text) (t : Attempt) (a b : Option Text)
    (next : Error → Result × List Text)
    → IsStats is_stats t
    → ((e : Error) → IsGood is_stats (next e))
    → IsGood is_stats (turn url t a b next)
unfolding turn
turn-IsGood is_stats url (got body) a b next s h = (refl, s)
turn-IsGood is_stats url (failed e) a b next s h =
    if_both (IsGood is_stats) (is_not_found e) _ _ (refl, refl)
      (after_failure-IsGood is_stats url e a b next h)

turn-decides :
    (url : Text) (t : Attempt) (a b : Option Text) (next : Error → Result × List Text) (r : Result)
    → decides t ≡ some r
    → turn url t a b next ≡ (r, url ∷ [])
unfolding turn
turn-decides url (got body) a b next r d = ground arith
turn-decides url (failed e) a b next r d = elim (Bool-cases (is_not_found e)) [
  | inl h ↦ ground arith
  | inr h ↦ ground arith
]

-- The attempt does not decide, and the context lasts.
turn-next :
    (url : Text) (t : Attempt) (a b : Option Text) (next : Error → Result × List Text)
    → decides t ≡ none
    → is_none a && is_none b ≡ true
    → (e : Error) × (turn url t a b next ≡ ((next e).0, url ∷ (next e).1))
unfolding turn after_failure
turn-next url (got body) a b next d h = absurd (ground arith)
turn-next url (failed e) none none next d h = (e, ground arith)
turn-next url (failed e) (some c) b next d h = absurd (ground arith)
turn-next url (failed e) none (some c) next d h = absurd (ground arith)

module _ (w : World) where
  -- Nothing stops the fetch between an attempt and the next.
  abbrev pub goes_on : Text → Text → ℕ → Bool
  goes_on rsn url k =
      is_none (decides (fetch_once w rsn (w.serve k url)))
      && (is_none (w.ended_after k) && is_none (w.ended_in_pause k))

  goes_on-decides :
      (rsn url : Text) (k : ℕ)
      → goes_on rsn url k ≡ true
      → decides (fetch_once w rsn (w.serve k url)) ≡ none
  goes_on-decides rsn url k h = ground arith

  goes_on-lasts :
      (attempts : ℕ) (rsn url : Text) (k : ℕ)
      → goes_on rsn url k ≡ true
      → is_none (w.ended_after k) && is_none (if ltb k attempts then w.ended_in_pause k else none)
        ≡ true
  goes_on-lasts attempts rsn url k h = ground arith

  check_stats-IsStats : (rsn body : Text) → IsStats w.is_stats (check_stats w rsn body)
  unfolding check_stats
  check_stats-IsStats rsn body =
      if_cases (IsStats w.is_stats) (w.is_stats body) _ _ (λ h. h) (λ h. tt)

  read_body-IsStats :
      (rsn body : Text) (fault : Option Text) → IsStats w.is_stats (read_body w rsn body fault)
  unfolding read_body
  read_body-IsStats rsn body (some e) =
      if_both (IsStats w.is_stats) (leb (2 ^ 20) (length body)) _ _ (check_stats-IsStats rsn _) tt
  read_body-IsStats rsn body none = check_stats-IsStats rsn _

  fetch_once-IsStats : (rsn : Text) (reply : Reply) → IsStats w.is_stats (fetch_once w rsn reply)
  unfolding fetch_once read_body
  fetch_once-IsStats rsn (malformed e) = tt
  fetch_once-IsStats rsn (unanswered e) = tt
  fetch_once-IsStats rsn (response status body fault) =
      if_both (IsStats w.is_stats) (status == 404) _ _ tt (
        if_both (IsStats w.is_stats) (status == 429) _ _ tt
          (if_both (IsStats w.is_stats) (leb 400 status) _ _ tt (read_body-IsStats rsn body fault)))

  pub fetch_from-AreCalls :
      (attempts : ℕ) (rsn url : Text) (n k : ℕ) (last : Option Error)
      → AreCalls url n (fetch_from w attempts rsn url n k last)
  unfolding fetch_from
  fetch_from-AreCalls attempts rsn url zero k last = (omega arith, tt)
  fetch_from-AreCalls attempts rsn url (suc n) k last =
      turn-AreCalls url _ _ _ n _ (λ e. fetch_from-AreCalls attempts rsn url n (suc k) (some e))

  pub fetch_from-IsGood :
      (attempts : ℕ) (rsn url : Text) (n k : ℕ) (last : Option Error)
      → is_none last ≡ false ⊎ 0 < n
      → IsGood w.is_stats (fetch_from w attempts rsn url n k last)
  unfolding fetch_from
  fetch_from-IsGood attempts rsn url zero k last (inl h) = (refl, h)
  fetch_from-IsGood attempts rsn url zero k last (inr h) = absurd (omega (arith, h))
  fetch_from-IsGood attempts rsn url (suc n) k last h =
      turn-IsGood w.is_stats url _ _ _ _ (fetch_once-IsStats rsn (w.serve k url))
        (λ e. fetch_from-IsGood attempts rsn url n (suc k) (some e) (inl refl))

  fetch_from-next :
      (attempts : ℕ) (rsn url : Text) (f k : ℕ) (last : Option Error)
      → goes_on rsn url k ≡ true
      → (e : Error) × (fetch_from w attempts rsn url (suc f) k last ≡ (
        (fetch_from w attempts rsn url f (suc k) (some e)).0,
        url ∷ (fetch_from w attempts rsn url f (suc k) (some e)).1,
      ))
  unfolding fetch_from
  fetch_from-next attempts rsn url f k last now =
      turn-next url (fetch_once w rsn (w.serve k url)) (w.ended_after k)
        (if ltb k attempts then w.ended_in_pause k else none) _ (goes_on-decides rsn url k now)
        (goes_on-lasts attempts rsn url k now)

  pub fetch_from-decides :
      (attempts : ℕ) (rsn url : Text) (f m k j : ℕ) (last : Option Error) (r : Result)
      → j ≡ k + m
      → m < f
      → ((i : ℕ) → k ≤ i → i < j → goes_on rsn url i ≡ true)
      → decides (fetch_once w rsn (w.serve j url)) ≡ some r
      → fetch_from w attempts rsn url f k last ≡ (r, repeat (suc m) url)
  unfolding fetch_from
  fetch_from-decides attempts rsn url zero m k j last r e l h d = absurd (omega (arith, l))
  fetch_from-decides attempts rsn url (suc f) zero k j last r e l h d =
      turn-decides url (fetch_once w rsn (w.serve k url)) _ _ _ r
        (subst (λ x. decides (fetch_once w rsn (w.serve x url)) ≡ some r) (omega (arith, e)) d)
  fetch_from-decides attempts rsn url (suc f) (suc m) k j last r e l h d =
      let go = fetch_from-next attempts rsn url f k last (h k (omega arith) (omega (arith, e))) in
      go.1
      ∙ ap (λ x. (x.0, url ∷ x.1))
          (fetch_from-decides attempts rsn url f m (suc k) j (some go.0) r (omega (arith, e))
            (omega (arith, l)) (λ i a. h i (omega (arith, a))) d)

  pub fetch_from-lasts :
      (attempts : ℕ) (rsn url : Text) (f k : ℕ) (last : Option Error)
      → ((i : ℕ) → k ≤ i → i < k + f → goes_on rsn url i ≡ true)
      → (let r = fetch_from w attempts rsn url f k last in
          r.0.outcome ≡ outcome_transient × r.1 ≡ repeat f url)
  unfolding fetch_from
  fetch_from-lasts attempts rsn url zero k last h = (refl, refl)
  fetch_from-lasts attempts rsn url (suc f) k last h =
      let go = fetch_from-next attempts rsn url f k last (h k (omega arith) (omega arith)) in
      let rest =
        fetch_from-lasts attempts rsn url f (suc k) (some go.0)
          (λ i a b. h i (omega (arith, a)) (omega (arith, b))) in
      (ap (λ x. x.0.outcome) go.1 ∙ rest.0, ap (λ x. x.1) go.1 ∙ ap (λ us. url ∷ us) rest.1)
