-- ===== src/Edge/Server.antt =====
-- internal/edge/server.go: the handlers of the plugin's surface.
use anvil_forge.Prelude.{
  Bool, Option, Text, [], codes, eq_text, false, if◌then◌else◌, none, not, some, suc, true, ℕ, ◌*◌,
  ◌++◌, ◌+◌, ◌∷◌,
}
use anvil_forge.Prelude.Statement.{Fault, Outcome, ok, err}
use anvil_forge.Hiscores.Rsn.{trim_space, is_empty}
use anvil_forge.Edge.Headers.{bearer, matches_etag, accepts_gzip}
use anvil_forge.Edge.Tables.{
  Payload, Tables, Caller, Loaded, found, not_found, failed, bound_payload, public_payload,
  touch_seen, ingest, heartbeat, authenticate,
}
pub mod Reads
pub mod Pushes
pub mod Repeats
pub mod Callers
pub mod Retries
pub use anvil_forge.Edge.Requests.{
  Push, push, Batch, nil, cons, Request, Body, no_body, plain, json_error, bytes, tally, Response,
  Counters, Server, Faults, Codec, error_response, method_not_allowed, internal_error, unauthorized,
  no_content,
}

abbrev pub seen_interval : ℕ
seen_interval = 5 * 60 * 1000000000

-- The counters handed out and set back.
unfoldable pub stats : Server → Server × Counters
stats s = (
  record s { counters = record { served = 0; not_modified = 0; ingested = 0; duplicates = 0 } },
  s.counters,
)

abbrev pub add_served : Server → Server
add_served s = record s { counters = record s.counters { served = suc s.counters.served } }

abbrev pub add_not_modified : Server → Server
add_not_modified s = record s {
  counters = record s.counters { not_modified = suc s.counters.not_modified };
}

abbrev pub add_ingested : ℕ → ℕ → Server → Server
add_ingested accepted duplicates s = record s {
  counters = record s.counters {
    ingested = s.counters.ingested + accepted;
    duplicates = s.counters.duplicates + duplicates;
  };
}

-- Who is asking, or the answer to give at once.
pub data Authed : Type 0 where
  known : Caller → Authed
  refused : Response → Authed

abbrev pub admit : Outcome (Option Caller) → Authed
admit (err e) = refused internal_error
admit (ok none) = refused unauthorized
admit (ok (some c)) = known c

abbrev pub stored_bytes : Payload → Bool → Text → Response
stored_bytes p gzip body = record {
  status = 200;
  etag = some p.etag;
  gzip = gzip;
  body = bytes body;
}

abbrev pub unpacked : Payload → Option Text → Response
unpacked p none = record internal_error { etag = some p.etag }
unpacked p (some body) = stored_bytes p false body

module _ (c : Codec) where
  unfoldable pub authed : Faults → Request → Tables → Authed
  unfolding bearer authenticate
  authed f r t =
      let token = bearer r.authorization in
      if is_empty token
      then refused unauthorized
      else admit (authenticate c.sha256 f.at_auth token t)

  -- A payload that is stored compressed is unpacked where gzip is not accepted.
  unfoldable pub write_payload : Request → Payload → Response
  unfolding eq_text accepts_gzip
  write_payload r p =
      if eq_text p.encoding (codes "gzip")
      then (if accepts_gzip r.accept_encoding
          then stored_bytes p true p.body
          else unpacked p (c.gunzip p.body))
      else stored_bytes p false p.body

  unfoldable pub serve_payload : Request → Loaded → Server → Server × Response
  unfolding matches_etag write_payload
  serve_payload r not_found s = (s, error_response 404 (codes "No payload available"))
  serve_payload r (failed e) s = (s, internal_error)
  serve_payload r (found p) s =
      if matches_etag r.if_none_match p.etag
      then (
        add_not_modified s,
        record { status = 304; etag = some p.etag; gzip = false; body = no_body },
      )
      else (add_served s, write_payload r p)

  abbrev pub config_as : Faults → Request → Server → Authed → (Server × Response) × Option Text
  config_as f r s (refused a) = ((s, a), none)
  config_as f r s (known caller) = (
    serve_payload r (bound_payload f.at_load caller.token_hash (codes "config") s.tables) s,
    some caller.token_hash,
  )

  -- The answer, and the token that is touched once it is given.
  unfoldable pub handle_config : Faults → Request → Server → (Server × Response) × Option Text
  unfolding authed serve_payload bound_payload
  handle_config f r s =
      if not (eq_text r.method (codes "GET"))
      then ((s, method_not_allowed), none)
      else config_as f r s (authed f r s.tables)

  -- The goroutine that handle_config starts.
  unfoldable pub touch : ℕ → Fault → Text → Server → Server
  unfolding touch_seen
  touch now fault hash s = record s {
    tables = (touch_seen now fault hash seen_interval s.tables).0;
  }

  abbrev pub board_as : Faults → Request → Server → Authed → Server × Response
  board_as f r s (refused a) = (s, a)
  board_as f r s (known caller) =
      serve_payload r (bound_payload f.at_load caller.token_hash (codes "board") s.tables) s

  abbrev pub preview : Faults → Request → Server → Option ℕ → Server × Response
  preview f r s none = (s, error_response 400 (codes "Invalid eventId"))
  preview f r s (some id) =
      serve_payload r (public_payload f.at_load (codes "board:event:" ++ c.format_id id) s.tables) s

  unfoldable pub handle_board : Faults → Request → Server → Server × Response
  unfolding authed serve_payload bound_payload public_payload
  handle_board f r s =
      if not (eq_text r.method (codes "GET"))
      then (s, method_not_allowed)
      else if is_empty r.event_id
      then board_as f r s (authed f r s.tables)
      else preview f r s (c.parse_id r.event_id)

abbrev pub or_braces : Text → Text
or_braces [] = codes "{}"
or_braces (x ∷ p) = x ∷ p

-- What the loop over a batch ends in: the answer of an early return, or the two tallies.
pub data Pushed : Type 0 where
  stopped : Response → Pushed
  all_stored : ℕ → ℕ → Pushed

abbrev pub tallied : Bool → Pushed → Pushed
tallied stored (stopped a) = stopped a
tallied true (all_stored accepted duplicates) = all_stored (suc accepted) duplicates
tallied false (all_stored accepted duplicates) = all_stored accepted (suc duplicates)

abbrev pub after_ingest : Tables × Outcome Bool → (Tables → Tables × Pushed) → Tables × Pushed
after_ingest (t, err e) next = (t, stopped internal_error)
after_ingest (t, ok stored) next = ((next t).0, tallied stored (next t).1)

-- The loop, from the event at place `i` on.
unfoldable pub ingest_all : ℕ → (ℕ → Fault) → Caller → ℕ → Batch → Tables → Tables × Pushed
unfolding ingest trim_space
ingest_all now faults caller i nil t = (t, all_stored 0 0)
ingest_all now faults caller i (cons (push kind payload key events) b) t =
    if is_empty (trim_space kind)
    then (t, stopped (error_response 400 (codes "Each event needs a kind")))
    else after_ingest (ingest now (faults i) caller kind (or_braces payload) key t)
        (λ t'. ingest_all now faults caller (suc i) b t')

abbrev pub batch_of : Push → Batch
batch_of (push kind payload key nil) = cons (push kind payload key nil) nil
batch_of (push kind payload key (cons p b)) = cons p b

abbrev pub answer_push : Server → Tables × Pushed → Server × Response
answer_push s (t, stopped a) = (record s { tables = t }, a)
answer_push s (t, all_stored accepted duplicates) = (
  add_ingested accepted duplicates (record s { tables = t }),
  record { status = 202; etag = none; gzip = false; body = tally accepted duplicates },
)

abbrev pub ingest_body : ℕ → (ℕ → Fault) → Server → Option Push → Caller → Server × Response
ingest_body now faults s none caller = (s, error_response 400 (codes "Malformed body"))
ingest_body now faults s (some p) caller =
    answer_push s (ingest_all now faults caller 0 (batch_of p) s.tables)

abbrev pub ingest_as : ℕ → Faults → Request → Server → Authed → Server × Response
ingest_as now f r s (refused a) = (s, a)
ingest_as now f r s (known caller) = ingest_body now f.at_event s r.body caller

module _ (c : Codec) where
  unfoldable pub handle_ingest : ℕ → Faults → Request → Server → Server × Response
  unfolding authed ingest_all
  handle_ingest now f r s =
      if not (eq_text r.method (codes "POST"))
      then (s, method_not_allowed)
      else ingest_as now f r s (authed c f r s.tables)

  abbrev pub answer_beat : Server → Tables × Outcome (Unit {0}) → Server × Response
  answer_beat s (t, err e) = (record s { tables = t }, internal_error)
  answer_beat s (t, ok _) = (record s { tables = t }, no_content)

  abbrev pub beat : ℕ → Fault → Server → Option ℕ → Server × Response
  beat now fault s none = (s, no_content)
  beat now fault s (some player) = answer_beat s (heartbeat c.format_id now fault player s.tables)

  abbrev pub beat_as : ℕ → Faults → Server → Authed → Server × Response
  beat_as now f s (refused a) = (s, a)
  beat_as now f s (known caller) = beat now f.at_heartbeat s caller.account_id

  unfoldable pub handle_heartbeat : ℕ → Faults → Request → Server → Server × Response
  unfolding authed heartbeat
  handle_heartbeat now f r s =
      if not (eq_text r.method (codes "POST"))
      then (s, method_not_allowed)
      else beat_as now f s (authed c f r s.tables)
