-- ===== src/Discord/Queue.antt =====
-- internal/discord/queue.go: claiming deliveries, recording the outcome of an attempt, and the
-- housekeeping of the table. The formatting of numbers and the order of RETURNING rows, which
-- Postgres leaves open, are parameters.
pub mod Claims
pub mod Steps
pub mod Valid
pub mod Lifecycle
pub mod Order
pub mod Handout
pub mod Retry
pub mod Stranded
pub mod Finished
pub mod Dedupe
pub mod Retention
use anvil_forge.Prelude.{
  ltbℤ, Bool, List, Option, Text, [], codes, contains, count_where, false, if◌then◌else◌,
  is_negative, is_positive, leb, lebℤ, ltb, map, none, not, order_by, select, some, take, to_ℕ,
  true, update_where, ℕ, ℤ, ◌&&◌, ◌++◌, ◌+◌, ◌-◌, ◌==◌, ◌||◌, ◌∷◌,
}
use anvil_forge.Discord.Rows.{
  Status, pending, delivering, done, failed, dead_letter, Moment, at, infinity, Row, Queue,
  Delivery, Fault, no_fault, query_fault, Outcome, ok, err,
}
use anvil_forge.Discord.Sender.{
  Verdict, delivered, retry, dead, drop, Result, truncate, backoff, max_attempts,
}

-- next_attempt_at <= now()
abbrev pub reached : ℕ → Moment → Bool
reached now (at t) = leb t now
reached now infinity = false

abbrev pub claimable : Status → Bool
claimable pending = true
claimable failed = true
claimable _ = false

abbrev pub is_due : ℕ → (ℕ → Bool) → Row → Bool
is_due now locked r = claimable r.status && (reached now r.next_attempt_at && not (locked r.id))

abbrev pub sooner : Moment → Moment → Bool
sooner (at a) (at b) = leb a b
sooner (at a) infinity = true
sooner infinity (at b) = false
sooner infinity infinity = true

-- ORDER BY priority DESC, next_attempt_at
abbrev pub before : Row → Row → Bool
before a b =
    ltbℤ b.priority a.priority
    || (lebℤ b.priority a.priority && sooner a.next_attempt_at b.next_attempt_at)

unfoldable pub due : ℕ → (ℕ → Bool) → ℕ → List Row → List Row
due now locked limit rows = take limit (order_by before (select (is_due now locked) rows))

abbrev pub ids : List Row → List ℕ
ids = map λ r. r.id

abbrev pub leased : ℕ → ℕ → Row → Row
leased now lease r = record r {
  status = delivering;
  next_attempt_at = at (now + lease);
  attempts = r.attempts + 1;
}

abbrev pub to_delivery : Row → Delivery
to_delivery r = record {
  id = r.id;
  webhook_url = r.webhook_url;
  bucket = r.bucket;
  payload = r.payload;
  attempts = r.attempts;
  priority = r.priority;
}

-- The statement on its table: the table afterwards, and the rows that it returns.
unfoldable pub claim_rows : ℕ → (ℕ → Bool) → ℕ → ℕ → List Row → List Row × List Row
unfolding due
claim_rows now locked limit lease rows =
    let chosen = ids (due now locked limit rows) in
    let rows' = update_where (λ r. contains chosen r.id) (leased now lease) rows in
    (rows', select (λ r. contains chosen r.id) rows')

abbrev negative_limit : Text
negative_limit = codes "ERROR: LIMIT must not be negative (SQLSTATE 2201W)"

-- `arrange` is the order in which the rows come back.
unfoldable pub claim :
    (List Row → List Row) → ℕ → (ℕ → Bool) → Fault → ℤ → ℕ → Queue → Queue × Outcome (List Delivery)
unfolding claim_rows
claim arrange now locked (query_fault e) limit lease q =
    (q, err (codes "claiming deliveries: " ++ e))
claim arrange now locked no_fault limit lease q =
    if is_negative limit
    then (q, err negative_limit)
    else (let (rows, returned) = claim_rows now locked (to_ℕ limit) lease q.rows in
        (record q { rows = rows }, ok (map to_delivery (arrange returned))))

-- `err.Error()` cut to 1000 bytes, or NULL.
abbrev pub err_text : Option Text → Option Text
err_text none = none
err_text (some e) = some (truncate e 1000)

-- What an attempt's result writes into its row.
unfoldable pub settle : ℕ → Delivery → Result → Row → Row
settle now d res r = elim res.verdict [
  | delivered ↦ record r {
    status = done;
    delivered_at = some now;
    last_status = some res.status;
    last_error = none;
  }
  | dead ↦ record r {
    status = dead_letter;
    last_status = some res.status;
    last_error = err_text res.err;
  }
  | drop ↦ record r {
    status = failed;
    last_status = some res.status;
    last_error = err_text res.err;
    next_attempt_at = infinity;
  }
  | retry ↦
      if leb max_attempts d.attempts
      then record r {
        status = failed;
        last_status = some res.status;
        last_error = err_text res.err;
        next_attempt_at = infinity;
      }
      else record r {
        status = pending;
        next_attempt_at = at (
            now
            + (if is_positive res.retry_after then to_ℕ res.retry_after else backoff d.attempts));
        last_status = some res.status;
        last_error = err_text res.err;
      }
]

-- What the error of a failed statement says.
unfoldable pub complete_phrase : Delivery → Result → Text
complete_phrase d res = elim res.verdict [
  | delivered ↦ codes "marking delivered"
  | dead ↦ codes "marking dead"
  | drop ↦ codes "dropping"
  | retry ↦
      if leb max_attempts d.attempts then codes "exhausting retries" else codes "scheduling retry"
]

unfoldable pub complete :
    (ℕ → Text) → ℕ → Fault → Delivery → Result → Queue → Queue × Outcome (Unit {0})
unfolding settle complete_phrase
complete format now (query_fault e) d res q =
    (q, err (complete_phrase d res ++ (codes " delivery " ++ (format d.id ++ (codes ": " ++ e)))))
complete format now no_fault d res q =
    (record q { rows = update_where (λ r. r.id == d.id) (settle now d res) q.rows }, ok tt)

pub record Stats : Type 0 where
  pub pending : ℕ
  pub dead : ℕ
  pub failed : ℕ
  pub oldest : ℕ

abbrev pub is_waiting : Row → Bool
is_waiting r = elim r.status [ pending ↦ true | delivering ↦ true | _ ↦ false ]

abbrev pub is_dead : Row → Bool
is_dead r = elim r.status [ dead_letter ↦ true | _ ↦ false ]

abbrev pub is_failed : Row → Bool
is_failed r = elim r.status [ failed ↦ true | _ ↦ false ]

abbrev pub is_done : Row → Bool
is_done r = elim r.status [ done ↦ true | _ ↦ false ]

-- min(created_at) FILTER (WHERE …)
abbrev pub least : Option ℕ → ℕ → Option ℕ
least none t = some t
least (some a) t = some (if leb a t then a else t)

pub oldest_waiting : List Row → Option ℕ
oldest_waiting [] = none
oldest_waiting (r ∷ rows) =
    let rest = oldest_waiting rows in if is_waiting r then least rest r.created_at else rest

-- `time.Since` on the worker's clock, which is not before the row's.
abbrev pub age : ℕ → Option ℕ → ℕ
age now none = 0
age now (some t) = now - t

unfoldable pub stats : ℕ → Fault → Queue → Outcome Stats
unfolding oldest_waiting
stats now (query_fault e) q = err (codes "reading queue stats: " ++ e)
stats now no_fault q = ok (record {
  pending = count_where is_waiting q.rows;
  dead = count_where is_dead q.rows;
  failed = count_where is_failed q.rows;
  oldest = age now (oldest_waiting q.rows);
})

-- status = 'delivered' AND delivered_at < now() - keep
abbrev pub is_stale : ℕ → ℕ → Row → Bool
is_stale now keep r =
    is_done r && (elim r.delivered_at [ none ↦ false | some t ↦ ltb (t + keep) now ])

unfoldable pub prune : ℕ → Fault → ℕ → Queue → Queue × Outcome ℕ
prune now (query_fault e) keep q = (q, err (codes "pruning deliveries: " ++ e))
prune now no_fault keep q = (
  record q { rows = select (λ r. not (is_stale now keep r)) q.rows },
  ok (count_where (is_stale now keep) q.rows),
)
