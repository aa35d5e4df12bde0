-- ===== src/Config/Tests.antt =====
-- An environment of one variable, and the settings that it gives.
use anvil_forge.Prelude.{
  not, Option, Text, [], codes, eq_text, if◌then◌else◌, ltb, none, pos, refl, some, ℕ, ℤ, ◌≡◌,
}
use anvil_forge.Config.{not, Environment, loaded, read, check, load}

-- Floats are numbers here, and the only number that parses is 0.
abbrev parse_zero : Text → Option ℤ
parse_zero s = if eq_text s (codes "0") then some (pos 0) else none

abbrev lookup_env : Text → Text
lookup_env key =
    if eq_text key (codes "DATABASE_URL")
    then codes "postgres://db"
    else if eq_text key (codes "FORGE_HISCORES_BURST")
    then codes "0"
    else if eq_text key (codes "FORGE_DISCORD_WORKERS")
    then codes "0"
    else []

abbrev pub environment : Environment
environment = record {
  getenv = lookup_env;
  Float = ℕ;
  one = 1;
  is_at_most_zero = λ n. not (ltb 0 n);
  parse_int = parse_zero;
  parse_float = λ s. none;
  parse_bool = λ s. none;
  parse_duration = λ s. none;
  format_int = λ n. [];
  format_float = λ n. [];
  format_duration = λ n. [];
}

-- A burst of 0 and no workers for Discord are let through.
no_burst : (read environment).hiscores_burst ≡ pos 0
unfolding read eq_text
no_burst = refl

no_discord_workers : (read environment).discord_workers ≡ pos 0
unfolding read eq_text
no_discord_workers = refl

pub loads : load environment ≡ loaded (read environment)
unfolding load read check eq_text
loads = refl
