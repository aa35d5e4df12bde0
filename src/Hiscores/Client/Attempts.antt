-- ===== src/Hiscores/Client/Attempts.antt =====
-- internal/hiscores/client.go: what a fetch makes of its attempts.
use anvil_forge.Prelude.{
  List, Option, Text, [], arith, false, if_both, inl, inr, negsuc, none, pos, refl, some, subst,
  suc, sym, true, zero, ℕ, ℤ, ◌<◌, ◌≡◌, ◌≤◌, ◌⊎◌,
}
use anvil_forge.Hiscores.Rsn.{sanitize_rsn, is_plausible_rsn}
use anvil_forge.Hiscores.Client.{
  outcome_unranked, outcome_transient, Result, Client, World, fetch_from, attempts_of, endpoint,
  fetch_table, fetch, table_suffix,
}
use anvil_forge.Hiscores.Client.Turns.{
  AreCalls, IsGood, goes_on, repeat, fetch_from-AreCalls, fetch_from-IsGood, fetch_from-lasts,
}

module _ (w : World) where
  attempts_of-positive : (n : ℤ) → 0 < attempts_of n
  attempts_of-positive (pos zero) = omega arith
  attempts_of-positive (pos (suc n)) = grind arith
  attempts_of-positive (negsuc n) = omega arith

  abbrev pub target : Client → Text → Text → Text
  target c suffix rsn = endpoint w c suffix (sanitize_rsn rsn)

  fetch-fetch_from :
      (c : Client) (rsn mode suffix : Text)
      → is_plausible_rsn (sanitize_rsn rsn) ≡ true
      → table_suffix mode ≡ some suffix
      → fetch w c rsn mode
        ≡ fetch_from w
            (attempts_of c.retries)
            (sanitize_rsn rsn)
            (target c suffix rsn)
            (attempts_of c.retries)
            1
            none
  unfolding fetch fetch_table
  fetch-fetch_from c rsn mode suffix p t = ground arith

  -- A fetch tries nothing but the endpoint of its table for the cleaned name, at most as often as the
  -- client's number of attempts, which counts as one where it is below one.
  pub fetch-calls :
      (c : Client) (rsn mode suffix : Text)
      → table_suffix mode ≡ some suffix
      → AreCalls (target c suffix rsn) (attempts_of c.retries) (fetch w c rsn mode)
  unfolding fetch fetch_table
  fetch-calls c rsn mode suffix h =
      if_both (AreCalls (target c suffix rsn) (attempts_of c.retries))
        (is_plausible_rsn (sanitize_rsn rsn)) _ _
        (subst
          (λ t.
            AreCalls (target c suffix rsn) (attempts_of c.retries)
              (fetch_table w c (sanitize_rsn rsn) mode t))
          (sym h) (fetch_from-AreCalls w _ _ _ _ _ _))
        (omega arith, tt)

  -- A name that is not plausible once it is cleaned, or a mode without a table, gives an unranked
  -- outcome and no attempt at all.
  fetch-no_calls :
      (c : Client) (rsn mode : Text)
      → is_plausible_rsn (sanitize_rsn rsn) ≡ false ⊎ table_suffix mode ≡ none
      → (fetch w c rsn mode).0.outcome ≡ outcome_unranked × (fetch w c rsn mode).1 ≡ []
  unfolding fetch fetch_table
  fetch-no_calls c rsn mode (inl h) = ground arith
  fetch-no_calls c rsn mode (inr h) =
      if_both {A = Result × List Text} (λ r. r.0.outcome ≡ outcome_unranked × r.1 ≡ [])
        (is_plausible_rsn (sanitize_rsn rsn)) _ _
        (subst
          (λ t.
            (fetch_table w c (sanitize_rsn rsn) mode t).0.outcome ≡ outcome_unranked
            × (fetch_table w c (sanitize_rsn rsn) mode t).1 ≡ [])
          (sym h) (refl, refl))
        (refl, refl)

  fetch_table-IsGood :
      (c : Client) (clean mode : Text) (t : Option Text)
      → IsGood w.is_stats (fetch_table w c clean mode t)
  unfolding fetch_table
  fetch_table-IsGood c clean mode none = (refl, refl)
  fetch_table-IsGood c clean mode (some suffix) =
      fetch_from-IsGood w _ _ _ _ _ _ (inr (attempts_of-positive c.retries))

  -- Every fetch is tagged rightly: the outcome ok comes with no error and with a body that passed the
  -- test for stats, and any other outcome with an error and an empty body.
  pub fetch-IsGood : (c : Client) (rsn mode : Text) → IsGood w.is_stats (fetch w c rsn mode)
  unfolding fetch
  fetch-IsGood c rsn mode =
      if_both (IsGood w.is_stats) (is_plausible_rsn (sanitize_rsn rsn)) _ _
        (fetch_table-IsGood c (sanitize_rsn rsn) mode (table_suffix mode)) (refl, refl)

  -- A fetch of a plausible name and a known mode is transient if no attempt decides and no context
  -- ends, and then it has used all its attempts.
  pub fetch-lasts :
      (c : Client) (rsn mode suffix : Text)
      → is_plausible_rsn (sanitize_rsn rsn) ≡ true
      → table_suffix mode ≡ some suffix
      → ((i : ℕ)
          → 1 ≤ i
          → i < suc (attempts_of c.retries)
          → goes_on w (sanitize_rsn rsn) (target c suffix rsn) i ≡ true)
      → (fetch w c rsn mode).0.outcome ≡ outcome_transient
        × (fetch w c rsn mode).1 ≡ repeat (attempts_of c.retries) (target c suffix rsn)
  fetch-lasts c rsn mode suffix p t h =
      subst
        (λ x.
          x.0.outcome ≡ outcome_transient
          × x.1 ≡ repeat (attempts_of c.retries) (target c suffix rsn))
        (sym (fetch-fetch_from c rsn mode suffix p t))
        (fetch_from-lasts w (attempts_of c.retries) (sanitize_rsn rsn) (target c suffix rsn)
          (attempts_of c.retries) 1 none (λ i a b. h i a (omega (arith, b))))
