-- ===== src/Lib.antt =====
-- Anvil.Forge, the data plane of Anvil: a verification library of the Go code of this repository.
--
-- Forge talks to three parties through tables that it shares with Anvil.Site. It drains a queue of
-- hiscores fetches (internal/store) by asking Jagex (internal/hiscores); it posts the messages of a
-- second queue to Discord (internal/discord) under a rate limit for each webhook
-- (internal/ratelimit); and it serves the game client's plugin (internal/edge). The parts meet only
-- in the tables and in the values below, so each module models one part with its whole state.
--
-- Which file models which part:
--   Store.antt: internal/store/store.go. `claim`, `complete`, `backlog`, `record_run` and
--     `jump_share` are Claim, Complete, Backlog, RecordRun and JumpShare on the tables
--     hiscores_fetches and forge_sweep_runs; `claim_rows` is the statement of Claim. Store/Lanes has
--     what a claim chooses, Store/Lease and Store/Apart what the lease keeps apart, Store/Results what Complete does,
--     Store/Settled and Store/Recovery what every history of the store keeps; `open_store` in
--     Store/Open is Open.
--   Discord/Rows.antt, Discord/Queue.antt: internal/discord/queue.go. `enqueue`, `claim`, `complete`,
--     `stats` and `prune` are the methods of Queue on the table forge_discord_deliveries; `settle` is
--     what Complete writes into a row. Discord/Queue/Steps has the steps of a history of the queue
--     (enqueue, claim, completion of a delivering row, prune) as a relation; the other children have
--     its invariants, the order of claims, the retries, the dedupe keys and the retention.
--   Discord/Sender.antt: internal/discord/sender.go. `send` and `classify` are Send from the reply of
--     the HTTP client on; `backoff` is Backoff, `parse_retry_after` parseRetryAfter.
--   Ratelimit.antt: internal/ratelimit/keyed.go. `wait`, `reserve_for`, `sweep`, `len` are the methods
--     of Keyed, `get` and `ensure_locked` its helpers; each runs under the mutex and is one step.
--   Hiscores/Rsn.antt: internal/hiscores/rsn.go, with the specification of a name as its words in
--     Hiscores/Rsn/Words. Hiscores/Client.antt: internal/hiscores/client.go; `fetch`, `fetch_from`,
--     `turn` and `fetch_once` are Fetch, its loop, one turn of the loop, and fetchOnce.
--   Discord/Worker.antt: internal/discord/worker.go. `Turn` is what drain and its workers may do, in any
--     interleaving, with the table of the queue and the limiter; Discord/Worker/Run has `Drains` for
--     drain, `Runs` for Run and `housekeep`. Discord/Worker/Flights has what the table holds for the
--     deliveries of a drain, Discord/Worker/Refinement how a drain is a history of the queue,
--     Discord/Worker/Completion how a drain ends, Discord/Worker/Pacing what the limiter keeps apart,
--     and Discord/Worker/Losses the deliveries that a drain leaves behind.
--   Pool.antt: the worker pool that both Tick and drain write out, with what holds of every pool;
--     Sweep/Moves and Discord/Worker/Moves show that their steps are moves of it.
--   Sweep.antt: internal/sweep/runner.go. `Step` is what the loop over the claims and the workers of
--     Tick may do, in any interleaving; `finish` is a worker with a result. Sweep/Accounts,
--     Sweep/Progress and Sweep/Stalls follow a tick from `begin` on; Sweep/Run has `Ticks` for Tick
--     with its claim and its run log, and `Runs` for Run.
--   Edge/Headers.antt, Edge/Requests.antt, Edge/Server.antt: internal/edge/server.go, the reading of
--     headers, the requests and answers, and the handlers `handle_config`, `handle_board`,
--     `handle_ingest`, `handle_heartbeat` with the helpers they call. Edge/Tables.antt:
--     internal/edge/store.go, one function for each statement.
--   Edge/Routes.antt: the paths of the handlers; Edge/Counting and Edge/Events have what all of them do
--     to the counters and to the table of events.
--   Cmd.antt: cmd/forge/main.go. `main`, `run`, `healthcheck`, `report`, `ready` and `log_level` are the
--     functions of these names; `services` is what run starts, with the settings it gives to each.
--   Config.antt: internal/config/config.go. `load` is Load: `read` takes the settings from the
--     environment and `check` has the tests on them.
--   Prelude: what the parts share: lists over the native numbers, a table as the list of its rows with
--     the operations of SQL (`select`, `update_where`, `order_by`, `take`), texts and integers.
--
-- How the code is read. A table is the list of its rows, and a statement is a function of the table
-- and of the time, which is a number of nanoseconds; `now() - d > t` is written `t + d < now`. An
-- ORDER BY is a stable sort: rows that tie keep the order of the table, which Postgres leaves open,
-- and no result depends on it. FOR UPDATE SKIP LOCKED is a set of ids that another transaction
-- holds. A statement may fail: a `Fault` argument says with which error, and a failed statement leaves
-- the tables as they are. Ids and counters are natural numbers, far below 2^63. A text is the list of
-- its code points, or of its bytes where the code counts bytes (Discord/Sender).
--
-- Parameters. What is not in this repository is an argument: Postgres's answer to a failing statement,
-- the text that a jsonb column gives back, SHA-256, gzip, JSON, the formatting and parsing of numbers,
-- the case of a letter, the replies of an HTTP server, the end of a context, a panic, and
-- golang.org/x/time/rate, whose limiter is the number of its allocation. One of them is constrained:
-- the lower case of white space is white space.
--
-- Bounds. The loop over the attempts of a fetch runs on the number of turns left, which starts as the
-- number of attempts that the code computes, so it never runs out before the loop ends; the loop over
-- a batch of events is recursion on the batch. No other definition has a bound of its own.
--
-- Not modelled: the log lines, the time that a worker idles, goroutines, signals and the timeouts of
-- the HTTP server and client, the headers of outgoing requests, and the SQL of
-- migrations and scripts, whose unique indexes stand as the hypothesis that ids are distinct, or as
-- what the statements check.
mod Prelude
pub mod Store
pub mod Discord
pub mod Ratelimit
pub mod Hiscores
pub mod Edge
pub mod Pool
pub mod Sweep
pub mod Cmd
pub mod Config
