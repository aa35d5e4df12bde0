-- ===== src/Store/Open.antt =====
-- internal/store/store.go: `Open`. pgxpool is the record `Driver`.
use anvil_forge.Prelude.{
  Bool, Option, Text, ap, arith, codes, if◌then◌else◌, ltb, none, refl, some, subst, sym, ℕ, ◌*◌,
  ◌++◌, ◌≡◌, ◌≤◌,
}

-- An error, and whether it is the cancellation of a context; `%w` keeps that.
pub record Failure : Type 0 where
  pub text : Text
  pub is_canceled : Bool

abbrev pub wrap : Text → Failure → Failure
wrap phrase f = record f { text = phrase ++ (codes ": " ++ f.text) }

pub record PoolConfig : Type 0 where
  pub max_conns : ℕ
  pub max_conn_lifetime : ℕ
  pub max_conn_idle_time : ℕ

pub data Parsed : Type 0 where
  parsed : PoolConfig → Parsed
  not_parsed : Failure → Parsed

-- The errors of pgxpool.NewWithConfig and of the pool's Ping.
pub record Driver : Type 0 where
  pub parse_config : Text → Parsed
  pub new_with_config : PoolConfig → Option Failure
  pub ping : PoolConfig → Option Failure

pub data Opened : Type 0 where
  opened : PoolConfig → Bool → Opened
  not_opened : Failure → Opened

abbrev pub second : ℕ
second = 1000000000

abbrev pub limited : PoolConfig → PoolConfig
limited c = record {
  max_conns = if ltb 8 c.max_conns then 8 else c.max_conns;
  max_conn_lifetime = 3600 * second;
  max_conn_idle_time = 600 * second;
}

module _ (driver : Driver) where
  abbrev pub pinged : PoolConfig → Bool → Option Failure → Opened
  pinged c dry_run (some f) = not_opened (wrap (codes "pinging") f)
  pinged c dry_run none = opened c dry_run

  abbrev pub connected : PoolConfig → Bool → Option Failure → Opened
  connected c dry_run (some f) = not_opened (wrap (codes "connecting") f)
  connected c dry_run none = pinged c dry_run (driver.ping c)

  abbrev pub configured : Bool → Parsed → Opened
  configured dry_run (not_parsed f) = not_opened (wrap (codes "parsing DATABASE_URL") f)
  configured dry_run (parsed c) = connected (limited c) dry_run (driver.new_with_config (limited c))

  unfoldable pub open_store : Text → Bool → Opened
  open_store url dry_run = configured dry_run (driver.parse_config url)

  -- What it means for a configuration to have been opened.
  pub record Works (c : PoolConfig) : Type 0 where
    made : driver.new_with_config c ≡ none
    answers : driver.ping c ≡ none

  pinged-opened :
      (p c : PoolConfig) (dry_run dry : Bool) (o : Option Failure)
      → pinged p dry_run o ≡ opened c dry
      → (o ≡ none) × (p ≡ c) × (dry_run ≡ dry)
  pinged-opened p c dry_run dry (some f) e = absurd (ground (arith, e))
  pinged-opened p c dry_run dry none e = (refl, cc, cc)

  connected-opened :
      (p c : PoolConfig) (dry_run dry : Bool) (o : Option Failure)
      → driver.new_with_config p ≡ o
      → connected p dry_run o ≡ opened c dry
      → Works c × (p ≡ c) × (dry_run ≡ dry)
  connected-opened p c dry_run dry (some f) h e = absurd (ground (arith, e))
  connected-opened p c dry_run dry none h e =
      let (a, same, d) = pinged-opened p c dry_run dry (driver.ping p) e in
      (
        record {
          made = subst (λ c. driver.new_with_config c ≡ none) same h;
          answers = subst (λ c. driver.ping c ≡ none) same a;
        },
        same,
        d,
      )

  configured-opened :
      (c : PoolConfig) (dry_run dry : Bool) (p : Parsed)
      → configured dry_run p ≡ opened c dry
      → (q : PoolConfig) × (p ≡ parsed q) × (limited q ≡ c) × Works c × (dry_run ≡ dry)
  configured-opened c dry_run dry (not_parsed f) e = absurd (ground (arith, e))
  configured-opened c dry_run dry (parsed q) e =
      let (w, same, d) =
        connected-opened (limited q) c dry_run dry (driver.new_with_config (limited q)) refl e in
      (q, refl, same, w, d)

  -- A pool that is opened has at most eight connections, and no more than the URL asks for, so that a
  -- stall leaves the site its own; it could be made, and it answered a ping.
  pub open_store-max_conns :
      (url : Text) (dry_run dry : Bool) (c : PoolConfig)
      → open_store url dry_run ≡ opened c dry
      → (c.max_conns ≤ 8)
        × Works c
        × (dry_run ≡ dry)
        × ((p : PoolConfig) × (driver.parse_config url ≡ parsed p) × (c.max_conns ≤ p.max_conns))
  unfolding open_store
  open_store-max_conns url dry_run dry c e =
      let (p, h, same, w, d) = configured-opened c dry_run dry (driver.parse_config url) e in
      let few : c.max_conns ≡ (if ltb 8 p.max_conns then 8 else p.max_conns) =
        ap (λ (c : PoolConfig). c.max_conns) (sym same) in
      (ground (arith, few), w, d, (p, h, ground (arith, few)))
