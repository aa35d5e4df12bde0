-- ===== src/Edge/Server/Callers.antt =====
-- internal/edge/server.go, authed: who gets past it.
use anvil_forge.Prelude.{
  Bool, List, Option, Text, [], any, ap, arith, codes, eq_text, false, if_both, if◌then◌else◌, inl,
  inr, none, not, refl, select, some, true, ℕ, ◌∷◌, ◌≡◌, ◌⊎◌,
}
use anvil_forge.Prelude.Statement.{no_fault, Outcome, ok, err}
use anvil_forge.Hiscores.Rsn.{trim_space, is_empty}
use anvil_forge.Edge.Headers.{bearer}
use anvil_forge.Edge.Tables.{
  Tables, Caller, Credential, first, is_valid_for, to_caller, hash_token, authenticate,
}
use anvil_forge.Edge.Server.{
  Codec, Faults, Request, Server, Response, Authed, known, refused, admit, authed, unauthorized,
  handle_config, handle_board, handle_ingest, handle_heartbeat, method_not_allowed, ingest_as,
  beat_as, config_as, board_as,
}

abbrev pub IsRefusal : Authed → Type 0
IsRefusal (known caller) = Unit
IsRefusal (refused a) = (a.status ≡ 401) ⊎ (a.status ≡ 500)

pub admit-IsRefusal : (r : Outcome (Option Caller)) → IsRefusal (admit r)
admit-IsRefusal (err e) = inr refl
admit-IsRefusal (ok none) = inl refl
admit-IsRefusal (ok (some c)) = tt

first-none :
    (p : Credential → Bool) (cs : List Credential) → any p cs ≡ false → first (select p cs) ≡ none
first-none p [] h = refl
first-none p (c ∷ cs) h = ground (arith, first-none p cs)

guarded {ℓ} :
    {A : Type ℓ} (f : Response → A) (b : Bool) (y : A)
    → y ≡ f unauthorized
    → (if not b then f method_not_allowed else y)
      ≡ f (if b then unauthorized else method_not_allowed)
guarded f true y h = h
guarded f false y h = refl

-- What a request without a token is answered, where a handler takes one method only.
abbrev pub answer_for : Request → Text → Response
answer_for r method = if eq_text r.method method then unauthorized else method_not_allowed

module _ (c : Codec) where
  pub authed-IsRefusal : (f : Faults) (r : Request) (t : Tables) → IsRefusal (authed c f r t)
  unfolding authed
  authed-IsRefusal f r t =
      if_both IsRefusal (is_empty (bearer r.authorization)) _ _ (inl refl) (admit-IsRefusal _)

  -- The header carries no token that is in use.
  abbrev pub HasNoToken : Request → Tables → Type 0
  HasNoToken r t =
      any (is_valid_for (hash_token c.sha256 (bearer r.authorization))) t.credentials ≡ false

  authed-HasNoToken :
      (f : Faults) (r : Request) (t : Tables)
      → f.at_auth ≡ no_fault
      → HasNoToken r t
      → authed c f r t ≡ refused unauthorized
  unfolding authed authenticate
  authed-HasNoToken f r t e h =
      if_both (λ x. x ≡ refused unauthorized) (is_empty (bearer r.authorization)) _ _ refl
        (if_both (λ x. admit x ≡ refused unauthorized)
          (is_empty (trim_space (bearer r.authorization))) _ _ refl
          (rw e (
            ap (λ x. admit (ok (to_caller (hash_token c.sha256 (bearer r.authorization)) x)))
              (first-none _ t.credentials h))))

  -- A request whose header carries no token that is in use, where the lookup does not fail, changes
  -- nothing at any of the four handlers and is answered with 401, or with 405 for the wrong method;
  -- a board that is asked for by an event's id is not among these.
  pub authed-refusals :
      (now : ℕ) (f : Faults) (r : Request) (s : Server)
      → f.at_auth ≡ no_fault
      → HasNoToken r s.tables
      → is_empty r.event_id ≡ true
      → ((handle_config c f r s ≡ ((s, answer_for r (codes "GET")), none))
          × (handle_board c f r s ≡ (s, answer_for r (codes "GET"))))
        × ((handle_ingest c now f r s ≡ (s, answer_for r (codes "POST")))
            × (handle_heartbeat c now f r s ≡ (s, answer_for r (codes "POST"))))
  unfolding handle_config handle_board handle_ingest handle_heartbeat
  authed-refusals now f r s e h m =
      let no = authed-HasNoToken f r s.tables e h in
      (
        (
          guarded (λ a. ((s, a), none)) (eq_text r.method (codes "GET")) _
              (ap (config_as c f r s) no),
          guarded (λ a. (s, a)) (eq_text r.method (codes "GET")) _
              (rw m (ap (board_as c f r s) no)),
        ),
        (
          guarded (λ a. (s, a)) (eq_text r.method (codes "POST")) _ (ap (ingest_as now f r s) no),
          guarded (λ a. (s, a)) (eq_text r.method (codes "POST")) _ (ap (beat_as c now f s) no),
        ),
      )
