-- ===== src/Cmd/Probe.antt =====
-- cmd/forge/main.go: the self-probe and the health endpoints.
use anvil_forge.Prelude.{
  ==_iff, ==_refl, Option, Text, [], ap, arith, codes, count_where, inl, inr, is_none, none, refl,
  some, subst, ◌↔◌, ◌∷◌, ◌≡◌, ◌⊎◌,
}
use anvil_forge.Config.{Environment, read, or_default}
use anvil_forge.Store.{Store, backlog}
use anvil_forge.Store
use anvil_forge.Cmd.{
  Got, failed, answered, status_of, or_colon, health_url, healthcheck, ready_with, ready,
}

status_of_iff : (g : Got) → (status_of g ≡ 0) ↔ (g ≡ answered 200)
status_of_iff (failed e) = ((λ h. absurd (omega (arith, h))), λ h. absurd (ground (arith, h)))
status_of_iff (answered status) =
    ((λ h. ap answered (ground (arith, h, ==_iff status 200))), λ h. ground (arith, h, ==_refl 200))

or_colon_lem : (s : Text) → or_colon s ≡ or_default some s (codes ":8080")
or_colon_lem [] = refl
or_colon_lem (c ∷ s) = refl

-- The self-probe succeeds exactly if /health answers 200 at the address that the settings give the
-- server, with 127.0.0.1 for a host that is left out.
pub healthcheck_iff :
    (e : Environment) (get : Text → Got)
    → (healthcheck e.getenv get ≡ 0) ↔ (get (health_url (read e).http_addr) ≡ answered 200)
unfolding healthcheck read
healthcheck_iff e get =
    let addr = e.getenv (codes "FORGE_HTTP_ADDR") in
    subst
      (λ (a : Text).
        (status_of (get (health_url (or_colon addr))) ≡ 0) ↔ (get (health_url a) ≡ answered 200))
      (or_colon_lem addr) (status_of_iff (get (health_url (or_colon addr))))

-- Readiness is 200 exactly if the database answers a ping and the backlog can be read, and then says
-- how many fetches wait; else it is 503.
pub ready_iff :
    (ping : Option Text) (fault : Store.Fault) (s : Store)
    → ((ready ping fault s ≡ (200, ready_with (count_where (λ f. is_none f.fetched_at) s.fetches)))
        × (ping ≡ none)
        × (fault ≡ Store.no_fault))
      ⊎ ((ready ping fault s).0 ≡ 503)
unfolding ready backlog
ready_iff (some e) fault s = inr refl
ready_iff none Store.no_fault s = inl (refl, refl, refl)
ready_iff none (Store.query_fault e) s = inr refl
ready_iff none (Store.scan_fault e) s = inr refl
ready_iff none (Store.rows_fault e) s = inr refl
