-- ===== src/Config.antt =====
-- internal/config/config.go: the settings that are read from the environment.
--
-- The environment gives the empty text for a variable that is not set, as os.Getenv does. Parsing and
-- formatting of numbers and durations are parameters, and so are floats. Durations are nanoseconds.
pub mod Checks
pub mod Tests
use anvil_forge.Prelude.{
  Bool, Option, Text, [], codes, false, if◌then◌else◌, ltbℤ, none, not, pos, some, true, ℕ, ℤ, ◌&&◌,
  ◌*◌, ◌++◌, ◌∷◌,
}

pub record Environment : Type 1 where
  pub getenv : Text → Text
  pub Float : Type 0
  pub one : Float
  pub is_at_most_zero : Float → Bool
  pub parse_int : Text → Option ℤ
  pub parse_float : Text → Option Float
  pub parse_bool : Text → Option Bool
  pub parse_duration : Text → Option ℤ
  pub format_int : ℤ → Text
  pub format_float : Float → Text
  pub format_duration : ℤ → Text

pub record Config (Float : Type 0) : Type 0 where
  pub database_url : Text
  pub hiscores_rps : Float
  pub hiscores_burst : ℤ
  pub workers : ℤ
  pub claim_batch : ℤ
  pub claim_lease : ℤ
  pub tick_interval : ℤ
  pub user_agent : Text
  pub dry_run : Bool
  pub http_addr : Text
  pub enable_sweep : Bool
  pub enable_edge : Bool
  pub enable_discord : Bool
  pub discord_workers : ℤ
  pub discord_claim_batch : ℤ
  pub discord_claim_lease : ℤ
  pub discord_tick_every : ℤ
  pub discord_keep_delivered : ℤ

pub data Loaded (Float : Type 0) : Type 0 where
  loaded : Config Float → Loaded Float
  rejected : Text → Loaded Float

abbrev pub second : ℕ
second = 1000000000

abbrev pub minute : ℕ
minute = 60 * second

abbrev pub is_unset : Text → Bool
is_unset [] = true
is_unset (c ∷ s) = false

-- The value of a set variable that parses, or the default.
abbrev pub or_default {ℓ} : {A : Type ℓ} → (Text → Option A) → Text → A → A
or_default parse [] def = def
or_default parse (c ∷ s) def = elim (parse (c ∷ s)) [ none ↦ def | some v ↦ v ]

module _ (e : Environment) where
  abbrev pub env_str : Text → Text → Text
  env_str key def = or_default some (e.getenv key) def

  abbrev pub env_int : Text → ℤ → ℤ
  env_int key def = or_default e.parse_int (e.getenv key) def

  abbrev pub env_float : Text → e.Float → e.Float
  env_float key def = or_default e.parse_float (e.getenv key) def

  abbrev pub env_bool : Text → Bool → Bool
  env_bool key def = or_default e.parse_bool (e.getenv key) def

  abbrev pub env_duration : Text → ℤ → ℤ
  env_duration key def = or_default e.parse_duration (e.getenv key) def

  -- What the environment says, before it is checked.
  unfoldable pub read : Config e.Float
  read = record {
    database_url = e.getenv (codes "DATABASE_URL");
    hiscores_rps = env_float (codes "FORGE_HISCORES_RPS") e.one;
    hiscores_burst = env_int (codes "FORGE_HISCORES_BURST") (pos 2);
    workers = env_int (codes "FORGE_WORKERS") (pos 4);
    claim_batch = env_int (codes "FORGE_CLAIM_BATCH") (pos 20);
    claim_lease = env_duration (codes "FORGE_CLAIM_LEASE") (pos (5 * minute));
    tick_interval = env_duration (codes "FORGE_TICK_INTERVAL") (pos (5 * second));
    user_agent =
        env_str (codes "FORGE_USER_AGENT")
          (codes "Anvil.Forge/1.0 (+https://anvilosrs.com; contact@anvilosrs.com)");
    dry_run = env_bool (codes "FORGE_DRY_RUN") false;
    http_addr = env_str (codes "FORGE_HTTP_ADDR") (codes ":8080");
    enable_sweep = env_bool (codes "FORGE_ENABLE_SWEEP") true;
    enable_edge = env_bool (codes "FORGE_ENABLE_EDGE") true;
    enable_discord = env_bool (codes "FORGE_ENABLE_DISCORD") true;
    discord_workers = env_int (codes "FORGE_DISCORD_WORKERS") (pos 16);
    discord_claim_batch = env_int (codes "FORGE_DISCORD_CLAIM_BATCH") (pos 100);
    discord_claim_lease = env_duration (codes "FORGE_DISCORD_CLAIM_LEASE") (pos (2 * minute));
    discord_tick_every = env_duration (codes "FORGE_DISCORD_TICK") (pos (2 * second));
    discord_keep_delivered =
        env_duration (codes "FORGE_DISCORD_KEEP_DELIVERED") (pos (72 * 60 * minute));
  }

  unfoldable pub check : Config e.Float → Loaded e.Float
  check c =
      if not c.enable_sweep && (not c.enable_edge && not c.enable_discord)
      then rejected (codes "every subsystem is disabled; nothing to run")
      else if is_unset c.database_url
      then rejected (codes "DATABASE_URL is required")
      else if e.is_at_most_zero c.hiscores_rps
      then rejected
          (codes "FORGE_HISCORES_RPS must be positive, got " ++ e.format_float c.hiscores_rps)
      else if ltbℤ c.workers (pos 1)
      then rejected (codes "FORGE_WORKERS must be at least 1, got " ++ e.format_int c.workers)
      else if ltbℤ c.claim_lease (pos minute)
      then rejected
          (codes "FORGE_CLAIM_LEASE must be at least 1m, got " ++ e.format_duration c.claim_lease)
      else loaded c

  unfoldable pub load : Loaded e.Float
  unfolding read check
  load = check read
