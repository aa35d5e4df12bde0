-- ===== src/Discord/Rows.antt =====
-- internal/discord/queue.go: the rows of the table of deliveries, and `Enqueue`, which inserts them.
--
-- Time is a number of nanoseconds and an argument of each statement. SHA-256 and jsonb are parameters.
use anvil_forge.Prelude.{
  List, Option, Text, [], any, codes, eq_text, if◌then◌else◌, ltb, none, suc, take, ℕ, ℤ, ◌%◌, ◌++◌,
  ◌+◌, ◌-◌, ◌/◌, ◌∷◌,
}
pub use anvil_forge.Prelude.Statement.{
  Fault, no_fault, query_fault, Outcome, ok, err, null_if_empty, same_key,
}

-- The status column.
pub data Status : Type 0 where
  pending delivering done failed dead_letter : Status

-- A timestamptz that may be 'infinity'.
pub data Moment : Type 0 where
  at : ℕ → Moment
  infinity : Moment

-- A row of forge_discord_deliveries.
pub record Row : Type 0 where
  pub id : ℕ
  pub webhook_url : Text
  pub bucket : Text
  pub payload : Text
  pub dedupe_key : Option Text
  pub status : Status
  pub attempts : ℕ
  pub next_attempt_at : Moment
  pub last_error : Option Text
  pub last_status : Option ℕ
  pub created_at : ℕ
  pub delivered_at : Option ℕ
  pub priority : ℤ

-- The table and the sequence behind its ids.
pub record Queue : Type 0 where
  pub rows : List Row
  pub next_id : ℕ

-- What a claim hands to a worker.
pub record Delivery : Type 0 where
  pub id : ℕ
  pub webhook_url : Text
  pub bucket : Text
  pub payload : Text
  pub attempts : ℕ
  pub priority : ℤ

-- hex.EncodeToString
hex_digit : ℕ → ℕ
hex_digit n = if ltb n 10 then b'0' + n else b'a' + (n - 10)

hex : List ℕ → Text
unfolding hex_digit
hex [] = []
hex (b ∷ bs) = hex_digit (b / 16) ∷ hex_digit (b % 16) ∷ hex bs

unfoldable pub bucket_for : (Text → List ℕ) → Text → Text
unfolding hex
bucket_for sha256 url = hex (take 8 (sha256 url))

abbrev pub no_rows : Text
no_rows = codes "no rows in result set"

-- What is not the program's own: SHA-256, and the text that a jsonb column gives back for the text that
-- was put in.
pub record Outside : Type 0 where
  pub sha256 : Text → List ℕ
  pub jsonb : Text → Text

module _ (outside : Outside) where
  abbrev pub new_row : ℕ → ℕ → Text → Text → Option Text → ℤ → Row
  new_row now id url payload key priority = record {
    id = id;
    webhook_url = url;
    bucket = bucket_for outside.sha256 url;
    payload = outside.jsonb payload;
    dedupe_key = key;
    status = pending;
    attempts = 0;
    next_attempt_at = at now;
    last_error = none;
    last_status = none;
    created_at = now;
    delivered_at = none;
    priority = priority;
  }

  -- The statement and its scan: a conflict inserts nothing, returns no row, and still draws an id.
  insert : ℕ → Fault → Text → Text → Text → ℤ → Queue → Queue × Outcome ℕ
  insert now (query_fault e) url payload key priority q = (q, err e)
  insert now no_fault url payload key priority q =
      if any (λ r. same_key (null_if_empty key) r.dedupe_key) q.rows
      then (record q { next_id = suc q.next_id }, err no_rows)
      else (
        record {
          rows = q.rows ++ new_row now q.next_id url payload (null_if_empty key) priority ∷ [];
          next_id = suc q.next_id;
        },
        ok q.next_id,
      )

  after_scan : Outcome ℕ → Outcome ℕ
  after_scan (ok id) = ok id
  after_scan (err e) = if eq_text e no_rows then ok 0 else err (codes "enqueuing delivery: " ++ e)

  unfoldable pub enqueue : ℕ → Fault → Text → Text → Text → ℤ → Queue → Queue × Outcome ℕ
  unfolding insert after_scan
  enqueue now fault url payload key priority q =
      let (q', r) = insert now fault url payload key priority q in (q', after_scan r)
