-- ===== src/Discord/Sender/Verdicts.antt =====
-- What `Send` of internal/discord/sender.go makes of each reply, and the bounds of the waits.
use anvil_forge.Prelude.{ℕ, ◌*◌, ◌≤◌, ◌<◌, ◌≡◌, refl, ◌↔◌, ◌⊎◌, inl, true, none, arith, is_positive}
use anvil_forge.Discord.Sender.{
  delivered, retry, dead, drop, Reply, no_request, no_response, response, Codec, send, backoff,
  second, minute,
}

-- The status that a reply came with, if one came.
abbrev pub HasStatus : (ℕ → Type 0) → Reply → Type 0
HasStatus P (response r) = P r.status
HasStatus P _ = ⊥

-- No retry of the same bytes can help.
abbrev pub IsPermanent : Reply → Type 0
IsPermanent (no_request e) = Unit
IsPermanent (no_response e) = ⊥
IsPermanent (response r) =
    (r.status ≡ 404) ⊎ (r.status ≡ 401) ⊎ (r.status ≡ 403) ⊎ (r.status ≡ 400) ⊎ (r.status ≡ 413)

module _ (c : Codec) where
  -- An attempt counts as delivered exactly when a response in the 200s came back, and it carries an
  -- error exactly when it was not delivered.
  pub send-delivered :
      (r : Reply)
      → ((send c r).verdict ≡ delivered ↔ HasStatus (λ s. (200 ≤ s) × (s < 300)) r)
        × ((send c r).err ≡ none ↔ (send c r).verdict ≡ delivered)
  unfolding send
  send-delivered (no_request e) = ground arith
  send-delivered (no_response e) = ground arith
  send-delivered (response r) = ground arith

  -- A wait is asked for only by a 429, and then the verdict is to retry.
  pub send-retry_after :
      (r : Reply)
      → is_positive (send c r).retry_after ≡ true
      → ((send c r).verdict ≡ retry) × ((send c r).status ≡ 429)
  unfolding send
  send-retry_after (no_request e) h = ground arith
  send-retry_after (no_response e) h = ground arith
  send-retry_after (response r) h = ground arith

  -- A verdict that gives up comes from a malformed URL or from one of the five statuses that no
  -- retry can mend, and no other reply gives up.
  pub send-terminal :
      (r : Reply) → (((send c r).verdict ≡ dead) ⊎ ((send c r).verdict ≡ drop)) ↔ IsPermanent r
  unfolding send
  send-terminal (no_request e) = (λ h. tt, λ h. inl refl)
  send-terminal (no_response e) = (λ h. ground arith, λ h. absurd h)
  send-terminal (response r) = (λ h. ground arith, λ h. ground arith)

-- The schedule never shortens a wait, and every wait lies between five seconds and a quarter of an
-- hour.
backoff_mono :
    (m n : ℕ)
    → m ≤ n
    → (backoff m ≤ backoff n) × (5 * second ≤ backoff m) × (backoff n ≤ 15 * minute)
unfolding backoff
backoff_mono m n h = ground arith
