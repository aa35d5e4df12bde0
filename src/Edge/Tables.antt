-- ===== src/Edge/Tables.antt =====
-- internal/edge/store.go: the statements behind the plugin's surface, on their tables.
--
-- Time is a number of nanoseconds and an argument of each statement. SHA-256 is a parameter.
use anvil_forge.Prelude.{
  Bool, List, Option, Text, [], any, codes, eq_text, false, if◌then◌else◌, is_none, ltb, map, none,
  select, some, suc, true, update_where, ℕ, ◌&&◌, ◌++◌, ◌+◌, ◌==◌, ◌∷◌,
}
use anvil_forge.Prelude.Statement.{
  Fault, no_fault, query_fault, Outcome, ok, err, null_if_empty, same_key,
}
use anvil_forge.Hiscores.Rsn.{trim_space, is_empty}

-- A row of forge_plugin_payloads.
pub record Payload : Type 0 where
  pub etag : Text
  pub body : Text
  pub encoding : Text

-- A row of forge_plugin_bindings.
pub record Binding : Type 0 where
  pub token_hash : Text
  pub kind : Text
  pub etag : Text

-- A row of forge_plugin_public_payloads.
pub record PublicPayload : Type 0 where
  pub scope_key : Text
  pub etag : Text

-- A row of forge_plugin_credentials.
pub record Credential : Type 0 where
  pub token_hash : Text
  pub account_id : Option ℕ
  pub subject : Option Text
  pub revoked_at : Option ℕ
  pub last_seen_at : Option ℕ

-- A row of forge_plugin_ingest_events.
pub record Event : Type 0 where
  pub id : ℕ
  pub account_id : Option ℕ
  pub subject : Option Text
  pub kind : Text
  pub payload : Text
  pub received_at : ℕ
  pub consumed_at : Option ℕ
  pub dedupe_key : Option Text

-- A row of forge_sweep_state.
pub record SweepState : Type 0 where
  pub player_id : ℕ
  pub live_seen_at : Option ℕ

pub record Tables : Type 0 where
  pub payloads : List Payload
  pub bindings : List Binding
  pub public_payloads : List PublicPayload
  pub credentials : List Credential
  pub events : List Event
  pub next_event : ℕ
  pub sweep_states : List SweepState

pub record Caller : Type 0 where
  pub token_hash : Text
  pub account_id : Option ℕ
  pub subject : Option Text

-- What loading a payload ends in.
pub data Loaded : Type 0 where
  found : Payload → Loaded
  not_found : Loaded
  failed : Text → Loaded

-- The first row of a result.
abbrev pub first {ℓ} : {A : Type ℓ} → List A → Option A
first [] = none
first (x ∷ xs) = some x

-- JOIN forge_plugin_payloads pp ON pp.etag = …
abbrev pub joined : List Payload → List Text → List Payload
joined ps [] = []
joined ps (e ∷ es) = select (λ p. eq_text p.etag e) ps ++ joined ps es

abbrev pub scanned : Option Payload → Loaded
scanned none = not_found
scanned (some p) = found p

unfoldable pub bound_payload : Fault → Text → Text → Tables → Loaded
unfolding eq_text
bound_payload (query_fault e) hash kind t =
    failed (codes "reading bound payload (" ++ (kind ++ (codes "): " ++ e)))
bound_payload no_fault hash kind t = scanned (
    first (
      joined t.payloads (
        map (λ b. b.etag)
          (select (λ b. eq_text b.token_hash hash && eq_text b.kind kind) t.bindings))))

unfoldable pub public_payload : Fault → Text → Tables → Loaded
unfolding eq_text
public_payload (query_fault e) scope t =
    failed (codes "reading public payload (" ++ (scope ++ (codes "): " ++ e)))
public_payload no_fault scope t = scanned (
    first (
      joined t.payloads
        (map (λ p. p.etag) (select (λ p. eq_text p.scope_key scope) t.public_payloads))))

-- token_hash = $1 AND revoked_at IS NULL
abbrev pub is_valid_for : Text → Credential → Bool
is_valid_for hash c = eq_text c.token_hash hash && is_none c.revoked_at

abbrev pub to_caller : Text → Option Credential → Option Caller
to_caller hash none = none
to_caller hash (some c) =
    some (record { token_hash = hash; account_id = c.account_id; subject = c.subject })

unfoldable pub touch_seen : ℕ → Fault → Text → ℕ → Tables → Tables × Outcome (Unit {0})
unfolding eq_text
touch_seen now (query_fault e) hash interval t = (t, err (codes "touching credential: " ++ e))
touch_seen now no_fault hash interval t = (
  record t {
    credentials =
        update_where (λ c. eq_text c.token_hash hash && is_stale c.last_seen_at)
          (λ c. record c { last_seen_at = some now }) t.credentials;
  },
  ok tt,
)
  where
    is_stale : Option ℕ → Bool
    is_stale none = true
    is_stale (some seen) = ltb (seen + interval) now

abbrev pub new_event : ℕ → ℕ → Caller → Text → Text → Option Text → Event
new_event now id c kind payload key = record {
  id = id;
  account_id = c.account_id;
  subject = c.subject;
  kind = kind;
  payload = payload;
  received_at = now;
  consumed_at = none;
  dedupe_key = key;
}

abbrev pub has_conflict : Option Text → List Event → Bool
has_conflict key events = any (λ e. same_key key e.dedupe_key) events

-- ON CONFLICT (dedupe_key) WHERE dedupe_key IS NOT NULL DO NOTHING; a conflict still draws an id.
unfoldable pub ingest : ℕ → Fault → Caller → Text → Text → Text → Tables → Tables × Outcome Bool
unfolding eq_text
ingest now (query_fault e) c kind payload dedupe_key t =
    (t, err (codes "ingesting " ++ (kind ++ (codes ": " ++ e))))
ingest now no_fault c kind payload dedupe_key t =
    let key = null_if_empty dedupe_key in
    if has_conflict key t.events then (record t { next_event = suc t.next_event }, ok false) else (
      record t {
        events = t.events ++ new_event now t.next_event c kind payload key ∷ [];
        next_event = suc t.next_event;
      },
      ok true,
    )

-- The decimal form of an id in the message is a parameter.
unfoldable pub heartbeat : (ℕ → Text) → ℕ → Fault → ℕ → Tables → Tables × Outcome (Unit {0})
heartbeat format now (query_fault e) player t =
    (t, err (codes "recording heartbeat for " ++ (format player ++ (codes ": " ++ e))))
heartbeat format now no_fault player t = (
  record t {
    sweep_states =
        update_where (λ s. s.player_id == player) (λ s. record s { live_seen_at = some now })
          t.sweep_states;
  },
  ok tt,
)

module _ (sha256 : Text → Text) where
  unfoldable pub hash_token : Text → Text
  unfolding trim_space
  hash_token token = sha256 (trim_space token)

  abbrev pub find_caller : Fault → Text → Tables → Outcome (Option Caller)
  find_caller (query_fault e) hash t = err (codes "authenticating: " ++ e)
  find_caller no_fault hash t =
      ok (to_caller hash (first (select (is_valid_for hash) t.credentials)))

  unfoldable pub authenticate : Fault → Text → Tables → Outcome (Option Caller)
  unfolding hash_token trim_space
  authenticate fault token t =
      if is_empty (trim_space token) then ok none else find_caller fault (hash_token token) t
