-- ===== src/Cmd.antt =====
-- cmd/forge/main.go: the command, its health endpoints and the report of the edge's counters.
--
-- The network, the signals and the goroutines are not modelled: `run` says what it starts and what it
-- returns when the context has ended. Floats are a parameter.
pub mod Report
pub mod Probe
pub mod Exit
pub mod Tests
use anvil_forge.Prelude.{
  Bool, List, Option, Text, [], codes, eq_text, false, if◌then◌else◌, ltb, none, pos, some, to_ℕ, ℕ,
  ℤ, ◌*◌, ◌++◌, ◌+◌, ◌==◌, ◌∷◌,
}
use anvil_forge.Config.{Environment, Config, Loaded, loaded, rejected, read, load, env_str, minute}
use anvil_forge.Store.{Store, backlog}
use anvil_forge.Store.Open.{Failure, Driver, Opened, opened, not_opened, open_store}
use anvil_forge.Store
use anvil_forge.Edge.Requests.{Server, Counters}
use anvil_forge.Edge.Server.{stats}
use anvil_forge.Edge.Routes.{Route, route_of}
use anvil_forge.Ratelimit.{Keyed, new_keyed}
use anvil_forge.Sweep.Run.{Runner}
use anvil_forge.Discord.Worker.Run.{Worker}

-- slog's levels.
pub data Level : Type 0 where
  level_debug level_info level_warn level_error : Level

unfoldable pub log_level : (Text → Text) → Level
unfolding eq_text
log_level getenv =
    let level = getenv (codes "FORGE_LOG_LEVEL") in
    if eq_text level (codes "debug")
    then level_debug
    else if eq_text level (codes "warn")
    then level_warn
    else if eq_text level (codes "error")
    then level_error
    else level_info

-- The addresses of net.Listen may leave out the host.
abbrev pub with_host : Text → Text
with_host [] = []
with_host (c ∷ s) = if c == b':' then codes "127.0.0.1" ++ c ∷ s else c ∷ s

-- What the HTTP client gives for a URL.
pub data Got : Type 0 where
  failed : Text → Got
  answered : ℕ → Got

abbrev pub health_url : Text → Text
health_url addr = codes "http://" ++ (with_host addr ++ codes "/health")

abbrev pub status_of : Got → ℕ
status_of (failed e) = 1
status_of (answered status) = if status == 200 then 0 else 1

abbrev pub or_colon : Text → Text
or_colon [] = codes ":8080"
or_colon (c ∷ s) = c ∷ s

-- The exit status of the self-probe.
unfoldable pub healthcheck : (Text → Text) → (Text → Got) → ℕ
healthcheck getenv get = status_of (get (health_url (or_colon (getenv (codes "FORGE_HTTP_ADDR")))))

-- The JSON of the health endpoints.
pub data Json : Type 0 where
  alive : Text → Json
  unready : Text → Json
  ready_with : ℕ → Json

abbrev pub health : Text → ℕ × Json
health git_sha = (200, alive git_sha)

-- `ping` is the error of the pool's Ping.
unfoldable pub ready : Option Text → Store.Fault → Store → ℕ × Json
unfolding backlog
ready (some e) fault s = (503, unready e)
ready none fault s = elim (backlog fault s) [
  | Store.err e ↦ (503, unready e)
  | Store.ok n ↦ (200, ready_with n)
]

pub data Endpoint : Type 0 where
  at_health at_ready : Endpoint
  at_plugin : Route → Endpoint

-- Where a request goes: the edge is mounted below /api/plugin/ if it is enabled.
unfoldable pub endpoint_of : Bool → Text → Option Endpoint
unfolding eq_text route_of
endpoint_of edge path =
    if eq_text path (codes "/health")
    then some at_health
    else if eq_text path (codes "/ready")
    then some at_ready
    else if edge
    then (elim (route_of path) [ none ↦ none | some r ↦ some (at_plugin r) ])
    else none

pub record Floats : Type 1 where
  pub Float : Type 0
  pub of_int : ℤ → Float
  pub of_ratio : ℕ → ℕ → Float
  pub add : Float → Float → Float
  pub mul : Float → Float → Float
  pub div : Float → Float → Float
  pub to_int : Float → ℤ
  pub half : Float

module _ (fl : Floats) where
  -- float64(int(f*100+0.5)) / 100
  unfoldable pub round2 : fl.Float → fl.Float
  round2 f =
      fl.div (fl.of_int (fl.to_int (fl.add (fl.mul f (fl.of_int (pos 100))) fl.half)))
        (fl.of_int (pos 100))

  -- A line of the report: the counters, and the rate of the answers that were not modified.
  pub record Line : Type 0 where
    pub counters : Counters
    pub not_modified_rate : fl.Float

  unfoldable pub hit_rate : Counters → fl.Float
  unfolding round2
  hit_rate k =
      let total = k.served + k.not_modified in
      if ltb 0 total then round2 (fl.of_ratio k.not_modified total) else round2 (fl.of_int (pos 0))

  -- One minute of reportEdge: the counters are set back whether or not a line is logged.
  unfoldable pub report : Server → Server × Option Line
  unfolding stats hit_rate
  report s =
      let (s', k) = stats s in
      (
        s',
        if k.served + k.not_modified + k.ingested + k.duplicates == 0
            then none
            else some (record { counters = k; not_modified_rate = hit_rate k }),
      )

-- What runs beside the HTTP server.
pub data Service (Float : Type 0) : Type 0 where
  sweeps : Text → Float → ℤ → Runner → Service Float
  delivers : Text → Keyed Float → Worker → Service Float
  reports : Service Float

-- discord.WebhookRatePerSecond and discord.WebhookBurst
abbrev pub webhook_burst : ℤ
webhook_burst = pos 4

abbrev pub bucket_ttl : ℤ
bucket_ttl = pos (15 * minute)

module _ {Float : Type 0} where
  abbrev pub runner_of : Config Float → Runner
  runner_of c = record {
    workers = c.workers;
    claim_batch = c.claim_batch;
    claim_lease = to_ℕ c.claim_lease;
    tick_interval = c.tick_interval;
  }

  -- A negative lease or retention counts as none here.
  abbrev pub worker_of : Config Float → Worker
  worker_of c = record {
    workers = c.discord_workers;
    claim_batch = c.discord_claim_batch;
    claim_lease = to_ℕ c.discord_claim_lease;
    tick_every = c.discord_tick_every;
    keep_delivered = to_ℕ c.discord_keep_delivered;
  }

  -- `webhook_rate` is the float 2.0.
  unfoldable pub services : Float → Config Float → List (Service Float)
  unfolding new_keyed
  services webhook_rate c =
      (if c.enable_sweep
        then sweeps c.user_agent c.hiscores_rps c.hiscores_burst (runner_of c) ∷ []
        else [])
      ++ ((if c.enable_discord
            then delivers c.user_agent (new_keyed webhook_rate webhook_burst bucket_ttl)
                (worker_of c)
              ∷ []
            else [])
          ++ (if c.enable_edge then reports ∷ [] else []))

-- What the command does: it returns at once, or it runs its services until a signal ends the context.
pub data Ran (Float : Type 0) : Type 0 where
  returned : Failure → Ran Float
  served_until : List (Service Float) → Ran Float

module _ (e : Environment) (webhook_rate : e.Float) (driver : Driver) where
  abbrev pub after_open : Config e.Float → Opened → Ran e.Float
  after_open c (not_opened f) = returned f
  after_open c (opened pool dry_run) = served_until (services webhook_rate c)

  abbrev pub after_load : Loaded e.Float → Ran e.Float
  after_load (rejected t) = returned (record { text = t; is_canceled = false })
  after_load (loaded c) = after_open c (open_store driver c.database_url c.dry_run)

  unfoldable pub run : Ran e.Float
  unfolding load open_store services
  run = after_load (load e)

-- How the serving ends: by the signal that ends the context, or by a panic in one of the goroutines,
-- which ends the process.
pub data Ending : Type 0 where
  by_signal by_panic : Ending

-- ctx.Err() after the signal is the cancellation, which is no error to `main`; the status of a panic is
-- the one of Go's runtime.
abbrev pub exit_status : {Float : Type 0} → Ending → Ran Float → ℕ
exit_status ending (returned f) = if f.is_canceled then 0 else 1
exit_status by_signal (served_until services) = 0
exit_status by_panic (served_until services) = 2

abbrev pub probes_itself : List Text → Bool
probes_itself [] = false
probes_itself (arg ∷ args) = eq_text arg (codes "-healthcheck")

-- The command, with the arguments after its name: the exit status.
unfoldable pub main : (e : Environment) → e.Float → Driver → (Text → Got) → Ending → List Text → ℕ
unfolding run healthcheck eq_text
main e webhook_rate driver get ending args =
    if probes_itself args
    then healthcheck e.getenv get
    else exit_status ending (run e webhook_rate driver)
