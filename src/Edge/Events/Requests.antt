-- ===== src/Edge/Events/Requests.antt =====
-- internal/edge/server.go: what each request, and each touch of a token, does to the table of events.
use anvil_forge.Prelude.{Option, Text, codes, eq_text, if_both, none, not, refl, some, ℕ, ◌++◌}
use anvil_forge.Prelude.Statement.{Fault, no_fault, query_fault, Outcome, ok, err}
use anvil_forge.Hiscores.Rsn.{is_empty}
use anvil_forge.Edge.Tables.{
  Tables, Loaded, found, not_found, failed, bound_payload, public_payload, heartbeat,
}
use anvil_forge.Edge.Headers.{matches_etag}
use anvil_forge.Edge.Requests.{Request, Response, Server, Faults, Codec, Push}
use anvil_forge.Edge.Server.{
  Authed, known, refused, authed, serve_payload, config_as, handle_config, board_as, preview,
  handle_board, Pushed, stopped, all_stored, ingest_all, batch_of, answer_push, ingest_as,
  handle_ingest, answer_beat, beat, beat_as, handle_heartbeat,
}
use anvil_forge.Edge.Routes.{Route, at_config, at_board, at_ingest, at_heartbeat, serve}
use anvil_forge.Edge.Events.{Grows, same-Grows, ingest_all-Grows}

abbrev Leads : Server → Server × Response → Type 0
Leads s r = Grows s.tables r.0.tables

module _ (c : Codec) (f : Faults) (r : Request) (s : Server) where
  same : Grows s.tables s.tables
  same = same-Grows s.tables s.tables refl refl

  serve_payload-Leads : (l : Loaded) → Leads s (serve_payload c r l s)
  unfolding serve_payload
  serve_payload-Leads not_found = same
  serve_payload-Leads (failed e) = same
  serve_payload-Leads (found p) =
      if_both (Leads s) (matches_etag r.if_none_match p.etag) _ _ same same

  config_as-Leads : (a : Authed) → Leads s (config_as c f r s a).0
  config_as-Leads (refused a) = same
  config_as-Leads (known caller) =
      serve_payload-Leads (bound_payload f.at_load caller.token_hash (codes "config") s.tables)

  board_as-Leads : (a : Authed) → Leads s (board_as c f r s a)
  board_as-Leads (refused a) = same
  board_as-Leads (known caller) =
      serve_payload-Leads (bound_payload f.at_load caller.token_hash (codes "board") s.tables)

  preview-Leads : (o : Option ℕ) → Leads s (preview c f r s o)
  preview-Leads none = same
  preview-Leads (some id) =
      serve_payload-Leads
        (public_payload f.at_load (codes "board:event:" ++ c.format_id id) s.tables)

  handle_config-Leads : Leads s (handle_config c f r s).0
  unfolding handle_config
  handle_config-Leads =
      if_both {A = (Server × Response) × Option Text} (λ x. Leads s x.0)
        (not (eq_text r.method (codes "GET"))) _ _ same (config_as-Leads (authed c f r s.tables))

  handle_board-Leads : Leads s (handle_board c f r s)
  unfolding handle_board
  handle_board-Leads = if_both (Leads s) (not (eq_text r.method (codes "GET"))) _ _ same (
      if_both (Leads s) (is_empty r.event_id) _ _ (board_as-Leads (authed c f r s.tables))
        (preview-Leads (c.parse_id r.event_id)))

  answer_push-Leads : (p : Tables × Pushed) → Grows s.tables p.0 → Leads s (answer_push s p)
  answer_push-Leads (t, stopped a) g = g
  answer_push-Leads (t, all_stored a d) g = g

  ingest_as-Leads :
      (now : ℕ) (b : Option Push) (a : Authed)
      → Leads s (ingest_as now f (record r { body = b }) s a)
  ingest_as-Leads now b (refused a) = same
  ingest_as-Leads now none (known caller) = same
  ingest_as-Leads now (some p) (known caller) =
      answer_push-Leads (ingest_all now f.at_event caller 0 (batch_of p) s.tables)
        (ingest_all-Grows now f.at_event caller 0 (batch_of p) s.tables)

  handle_ingest-Leads : (now : ℕ) → Leads s (handle_ingest c now f r s)
  unfolding handle_ingest
  handle_ingest-Leads now =
      if_both (Leads s) (not (eq_text r.method (codes "POST"))) _ _ same
        (ingest_as-Leads now r.body (authed c f r s.tables))

  heartbeat-Grows :
      (now : ℕ) (fault : Fault) (player : ℕ)
      → Grows s.tables (heartbeat c.format_id now fault player s.tables).0
  unfolding heartbeat
  heartbeat-Grows now no_fault player = same-Grows s.tables _ refl refl
  heartbeat-Grows now (query_fault e) player = same

  answer_beat-Leads :
      (p : Tables × Outcome (Unit {0})) → Grows s.tables p.0 → Leads s (answer_beat c s p)
  answer_beat-Leads (t, ok x) g = g
  answer_beat-Leads (t, err e) g = g

  beat_as-Leads : (now : ℕ) (a : Authed) → Leads s (beat_as c now f s a)
  beat_as-Leads now (refused a) = same
  beat_as-Leads now (known caller) = beats caller.account_id
    where
      beats : (o : Option ℕ) → Leads s (beat c now f.at_heartbeat s o)
      beats none = same
      beats (some player) =
          answer_beat-Leads (heartbeat c.format_id now f.at_heartbeat player s.tables)
            (heartbeat-Grows now f.at_heartbeat player)

  handle_heartbeat-Leads : (now : ℕ) → Leads s (handle_heartbeat c now f r s)
  unfolding handle_heartbeat
  handle_heartbeat-Leads now =
      if_both (Leads s) (not (eq_text r.method (codes "POST"))) _ _ same
        (beat_as-Leads now (authed c f r s.tables))

  pub serve-Leads : (now : ℕ) (route : Route) → Grows s.tables (serve c now f route r s).0.tables
  unfolding serve
  serve-Leads now at_config = handle_config-Leads
  serve-Leads now at_board = handle_board-Leads
  serve-Leads now at_ingest = handle_ingest-Leads now
  serve-Leads now at_heartbeat = handle_heartbeat-Leads now
