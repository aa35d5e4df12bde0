-- ===== src/Edge/Counting.antt =====
-- internal/edge/server.go: no answer depends on the counters of the server.
use anvil_forge.Prelude.{
  Bool, Option, ap, arith, codes, eq_text, false, if◌then◌else◌, none, not, refl, some, suc, true,
  ℕ, ◌++◌, ◌+◌, ◌∙◌, ◌≡◌,
}
use anvil_forge.Edge.Tables.{Loaded, found, not_found, failed, bound_payload, public_payload}
use anvil_forge.Edge.Requests.{
  Request, Response, Server, Counters, Faults, Codec, Push, no_body, method_not_allowed,
}
use anvil_forge.Prelude.Statement.{Outcome, ok, err}
use anvil_forge.Edge.Server.{
  write_payload, preview, answer_beat, add_served, add_not_modified, add_ingested, Authed, known,
  refused, authed, serve_payload, config_as, handle_config, board_as, handle_board, Pushed, stopped,
  all_stored, ingest_all, batch_of, answer_push, ingest_as, handle_ingest, beat, beat_as,
  handle_heartbeat,
}
use anvil_forge.Edge.Tables
use anvil_forge.Hiscores.Rsn.{is_empty}
use anvil_forge.Edge.Headers.{matches_etag}
use anvil_forge.Edge.Routes.{Route, at_config, at_board, at_ingest, at_heartbeat, serve}

abbrev pub plus : Counters → Counters → Counters
plus j k = record {
  served = j.served + k.served;
  not_modified = j.not_modified + k.not_modified;
  ingested = j.ingested + k.ingested;
  duplicates = j.duplicates + k.duplicates;
}

-- A server whose counters are ahead by `k`.
abbrev pub ahead_by : Counters → Server → Server
ahead_by k s = record s { counters = plus k s.counters }

-- An answer that the counters do not change, and that changes them alike.
abbrev pub IsAlike : Counters → (Server → Server × Response) → Server → Type 0
IsAlike k act s = act (ahead_by k s) ≡ (ahead_by k (act s).0, (act s).1)

suc-plus : (a b : ℕ) → suc (a + b) ≡ a + suc b
suc-plus a b = omega arith

plus_assoc : (a b d : ℕ) → (a + b) + d ≡ a + (b + d)
plus_assoc a b d = omega arith

module _ (k : Counters) where
  add_not_modified-ahead :
      (s : Server) → add_not_modified (ahead_by k s) ≡ ahead_by k (add_not_modified s)
  add_not_modified-ahead s =
      ap (λ n. record (ahead_by k s) { counters = record (plus k s.counters) { not_modified = n } })
        (suc-plus k.not_modified s.counters.not_modified)

  add_served-ahead : (s : Server) → add_served (ahead_by k s) ≡ ahead_by k (add_served s)
  add_served-ahead s =
      ap (λ n. record (ahead_by k s) { counters = record (plus k s.counters) { served = n } })
        (suc-plus k.served s.counters.served)

  add_ingested-ahead :
      (a d : ℕ) (s : Server) → add_ingested a d (ahead_by k s) ≡ ahead_by k (add_ingested a d s)
  add_ingested-ahead a d s =
      ap
        (λ n. record (ahead_by k s) {
          counters = record (plus k s.counters) {
            ingested = n;
            duplicates = (k.duplicates + s.counters.duplicates) + d;
          };
        })
        (plus_assoc k.ingested s.counters.ingested a)
      ∙ ap
          (λ n. record (ahead_by k s) {
            counters = record (plus k s.counters) {
              ingested = k.ingested + (s.counters.ingested + a);
              duplicates = n;
            };
          })
          (plus_assoc k.duplicates s.counters.duplicates d)

  if-IsAlike :
      (b : Bool) (x y : Server → Server × Response) (s : Server)
      → IsAlike k x s
      → IsAlike k y s
      → IsAlike k (λ s. if b then x s else y s) s
  if-IsAlike true x y s h i = h
  if-IsAlike false x y s h i = i

with_answer : (a : Response) {s s' : Server} → s ≡ s' → ◌≡◌ {A = Server × Response} (s, a) (s', a)
with_answer a e = ap (λ s. (s, a)) e

module _ (c : Codec) (k : Counters) where
  serve_payload-IsAlike :
      (r : Request) (l : Loaded) (s : Server) → IsAlike k (serve_payload c r l) s
  unfolding serve_payload
  serve_payload-IsAlike r not_found s = refl
  serve_payload-IsAlike r (failed e) s = refl
  serve_payload-IsAlike r (found p) s =
      if-IsAlike k (matches_etag r.if_none_match p.etag)
        (λ s. (
          add_not_modified s,
          record { status = 304; etag = some p.etag; gzip = false; body = no_body },
        ))
        (λ s. (add_served s, write_payload c r p)) s (with_answer _ (add_not_modified-ahead k s))
        (with_answer _ (add_served-ahead k s))

  config_as-IsAlike :
      (f : Faults) (r : Request) (a : Authed) (s : Server)
      → IsAlike k (λ s. (config_as c f r s a).0) s
  config_as-IsAlike f r (refused a) s = refl
  config_as-IsAlike f r (known caller) s =
      serve_payload-IsAlike r (bound_payload f.at_load caller.token_hash (codes "config") s.tables)
        s

  board_as-IsAlike :
      (f : Faults) (r : Request) (a : Authed) (s : Server) → IsAlike k (λ s. board_as c f r s a) s
  board_as-IsAlike f r (refused a) s = refl
  board_as-IsAlike f r (known caller) s =
      serve_payload-IsAlike r (bound_payload f.at_load caller.token_hash (codes "board") s.tables) s

  preview-IsAlike :
      (f : Faults) (r : Request) (o : Option ℕ) (s : Server) → IsAlike k (λ s. preview c f r s o) s
  preview-IsAlike f r none s = refl
  preview-IsAlike f r (some id) s =
      serve_payload-IsAlike r
        (public_payload f.at_load (codes "board:event:" ++ c.format_id id) s.tables) s

  handle_config-IsAlike :
      (f : Faults) (r : Request) (s : Server) → IsAlike k (λ s. (handle_config c f r s).0) s
  unfolding handle_config
  handle_config-IsAlike f r s = pick (not (eq_text r.method (codes "GET")))
    where
      pick :
          (b : Bool)
          → IsAlike k
              (λ s.
                (if b
                  then ((s, method_not_allowed), none)
                  else config_as c f r s (authed c f r s.tables)).0)
              s
      pick true = refl
      pick false = config_as-IsAlike f r (authed c f r s.tables) s

  handle_board-IsAlike : (f : Faults) (r : Request) (s : Server) → IsAlike k (handle_board c f r) s
  unfolding handle_board
  handle_board-IsAlike f r s =
      if-IsAlike k (not (eq_text r.method (codes "GET"))) (λ s. (s, method_not_allowed))
        (λ s.
          if is_empty r.event_id
          then board_as c f r s (authed c f r s.tables)
          else preview c f r s (c.parse_id r.event_id))
        s refl
        (if-IsAlike k (is_empty r.event_id) (λ s. board_as c f r s (authed c f r s.tables))
          (λ s. preview c f r s (c.parse_id r.event_id)) s
          (board_as-IsAlike f r (authed c f r s.tables) s)
          (preview-IsAlike f r (c.parse_id r.event_id) s))

  answer_push-IsAlike :
      (p : Tables.Tables × Pushed) (s : Server) → IsAlike k (λ s. answer_push s p) s
  answer_push-IsAlike (t, stopped a) s = refl
  answer_push-IsAlike (t, all_stored a d) s =
      with_answer _ (add_ingested-ahead k a d (record s { tables = t }))

  ingest_as-IsAlike :
      (now : ℕ) (f : Faults) (r : Request) (b : Option Push) (a : Authed) (s : Server)
      → IsAlike k (λ s. ingest_as now f (record r { body = b }) s a) s
  ingest_as-IsAlike now f r b (refused a) s = refl
  ingest_as-IsAlike now f r none (known caller) s = refl
  ingest_as-IsAlike now f r (some p) (known caller) s =
      answer_push-IsAlike (ingest_all now f.at_event caller 0 (batch_of p) s.tables) s

  handle_ingest-IsAlike :
      (now : ℕ) (f : Faults) (r : Request) (s : Server) → IsAlike k (handle_ingest c now f r) s
  unfolding handle_ingest
  handle_ingest-IsAlike now f r s =
      if-IsAlike k (not (eq_text r.method (codes "POST"))) (λ s. (s, method_not_allowed))
        (λ s. ingest_as now f r s (authed c f r s.tables)) s refl
        (ingest_as-IsAlike now f r r.body (authed c f r s.tables) s)

  answer_beat-IsAlike :
      (p : Tables.Tables × Outcome (Unit {0})) (s : Server) → IsAlike k (λ s. answer_beat c s p) s
  answer_beat-IsAlike (t, err e) s = refl
  answer_beat-IsAlike (t, ok _) s = refl

  beat_as-IsAlike :
      (now : ℕ) (f : Faults) (a : Authed) (s : Server) → IsAlike k (λ s. beat_as c now f s a) s
  beat_as-IsAlike now f (refused a) s = refl
  beat_as-IsAlike now f (known caller) s = beats caller.account_id
    where
      beats : (o : Option ℕ) → IsAlike k (λ s. beat c now f.at_heartbeat s o) s
      beats none = refl
      beats (some player) =
          answer_beat-IsAlike (Tables.heartbeat c.format_id now f.at_heartbeat player s.tables) s

  handle_heartbeat-IsAlike :
      (now : ℕ) (f : Faults) (r : Request) (s : Server) → IsAlike k (handle_heartbeat c now f r) s
  unfolding handle_heartbeat
  handle_heartbeat-IsAlike now f r s =
      if-IsAlike k (not (eq_text r.method (codes "POST"))) (λ s. (s, method_not_allowed))
        (λ s. beat_as c now f s (authed c f r s.tables)) s refl
        (beat_as-IsAlike now f (authed c f r s.tables) s)

  -- Whatever is asked at whichever route, the answer does not depend on the counters, and they change
  -- by the same numbers.
  pub serve-IsAlike :
      (now : ℕ) (f : Faults) (route : Route) (r : Request) (s : Server)
      → IsAlike k (serve c now f route r) s
  unfolding serve
  serve-IsAlike now f at_config r s = handle_config-IsAlike f r s
  serve-IsAlike now f at_board r s = handle_board-IsAlike f r s
  serve-IsAlike now f at_ingest r s = handle_ingest-IsAlike now f r s
  serve-IsAlike now f at_heartbeat r s = handle_heartbeat-IsAlike now f r s
