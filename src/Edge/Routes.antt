-- ===== src/Edge/Routes.antt =====
-- internal/edge/server.go: the paths of the plugin's handlers.
--
-- http.ServeMux is not in this repository: a pattern that does not end in a slash takes the requests
-- for that very path. A path is given as the mux has cleaned it.
use anvil_forge.Prelude.{Option, Text, codes, eq_text, if◌then◌else◌, none, some, ℕ}
use anvil_forge.Edge.Requests.{Request, Response, Server, Faults, Codec}
use anvil_forge.Edge.Server.{handle_config, handle_board, handle_ingest, handle_heartbeat}

pub data Route : Type 0 where
  at_config at_board at_ingest at_heartbeat : Route

unfoldable pub route_of : Text → Option Route
unfolding eq_text
route_of path =
    if eq_text path (codes "/api/plugin/config")
    then some at_config
    else if eq_text path (codes "/api/plugin/board")
    then some at_board
    else if eq_text path (codes "/api/plugin/ingest")
    then some at_ingest
    else if eq_text path (codes "/api/plugin/heartbeat")
    then some at_heartbeat
    else none

-- The handler of a route.
unfoldable pub serve : Codec → ℕ → Faults → Route → Request → Server → Server × Response
unfolding handle_config handle_board handle_ingest handle_heartbeat
serve c now f at_config r s = (handle_config c f r s).0
serve c now f at_board r s = handle_board c f r s
serve c now f at_ingest r s = handle_ingest c now f r s
serve c now f at_heartbeat r s = handle_heartbeat c now f r s
