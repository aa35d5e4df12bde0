-- ===== src/Store.antt =====
-- internal/store/store.go: the queue of hiscores fetches and the log of runs.
--
-- A table is the list of its rows. Time is a number of nanoseconds and an argument of each
-- statement; `a < b - d` is written `a + d < b`, since subtraction on ℕ stops at 0. A statement may
-- fail: `Fault` says where the driver reports an error.
pub mod Selection
pub mod Lanes
pub mod Lease
pub mod Apart
pub mod Results
pub mod Open
pub mod Steps
pub mod Settled
pub mod Recovery
pub mod Tests
use anvil_forge.Prelude.{
  ℕ, ◌+◌, ◌/◌, Bool, true, not, ◌&&◌, ◌||◌, List, [], ◌∷◌, ◌++◌, map, Option, none, some, ℤ, pos,
  negsuc, lebℤ, ltbℤ, is_negative, to_ℕ, Text, codes, ltb, leb, ◌==◌, if◌then◌else◌, is_none, take,
  select, update_where, count_where, order_by, contains,
}
pub use anvil_forge.Prelude.Statement.{null_if_empty}

-- A row of hiscores_fetches.
pub record Fetch : Type 0 where
  pub id : ℕ
  pub rsn : Text
  pub mode : Text
  pub priority : ℤ
  pub requested_at : ℕ
  pub claimed_at : Option ℕ
  pub fetched_at : Option ℕ
  pub outcome : Option Text
  pub body : Option Text
  pub error : Option Text

-- A row of forge_sweep_runs.
pub record RunRow : Type 0 where
  pub started_at : ℕ
  pub finished_at : ℕ
  pub claimed : ℕ
  pub fetched : ℕ
  pub changed : ℕ
  pub unranked : ℕ
  pub errors : ℕ
  pub backlog : ℕ
  pub shadow : Bool

pub record Store : Type 0 where
  pub fetches : List Fetch
  pub runs : List RunRow
  pub dry_run : Bool

-- What a claim hands to the runner.
pub record Request : Type 0 where
  pub id : ℕ
  pub rsn : Text
  pub mode : Text

pub record RunStats : Type 0 where
  pub claimed : ℕ
  pub fetched : ℕ
  pub unranked : ℕ
  pub errors : ℕ
  pub backlog : ℕ

-- Where a statement reports an error: before it ran, or while its rows are read.
pub data Fault : Type 0 where
  no_fault : Fault
  query_fault scan_fault rows_fault : Text → Fault

pub data Result {ℓ} (A : Type ℓ) : Type ℓ where
  ok : A → Result A
  err : Text → Result A

-- A fifth of the limit, at least one, and nothing of a limit that is not positive.
unfoldable pub jump_share : ℤ → ℕ
jump_share (negsuc n) = 0
jump_share (pos limit) = if limit == 0 then 0 else if ltb (limit / 5) 1 then 1 else limit / 5

-- fetched_at IS NULL AND (claimed_at IS NULL OR claimed_at < now() - lease)
abbrev pub lapsed : ℕ → ℕ → Option ℕ → Bool
lapsed now lease none = true
lapsed now lease (some t) = ltb (t + lease) now

abbrev pub is_pending : ℕ → ℕ → Fetch → Bool
is_pending now lease f = is_none f.fetched_at && lapsed now lease f.claimed_at

-- FOR UPDATE SKIP LOCKED: `locked` are the ids whose rows another transaction holds.
abbrev pub is_due : ℕ → ℕ → (ℕ → Bool) → Fetch → Bool
is_due now lease locked f = is_pending now lease f && not (locked f.id)

-- ORDER BY priority, requested_at
abbrev pub before : Fetch → Fetch → Bool
before a b =
    ltbℤ a.priority b.priority || (lebℤ a.priority b.priority && leb a.requested_at b.requested_at)

abbrev pub is_jump : Fetch → Bool
is_jump f = is_negative f.priority

module _ (now lease : ℕ) (locked : ℕ → Bool) where
  pub jump : ℕ → List Fetch → List Fetch
  jump share t =
      take share (order_by before (select (λ f. is_due now lease locked f && is_jump f) t))

  pub rest : ℕ → List Fetch → List Fetch
  rest limit t =
      take limit (order_by before (select (λ f. is_due now lease locked f && not (is_jump f)) t))

  pub due : ℕ → ℕ → List Fetch → List Fetch
  due limit share t = take limit (order_by before (jump share t ++ rest limit t))

abbrev pub ids : List Fetch → List ℕ
ids = map λ f. f.id

-- SET claimed_at = now() WHERE f.id = due.id
pub stamp : ℕ → List ℕ → List Fetch → List Fetch
stamp now chosen =
    update_where (λ f. contains chosen f.id) (λ f. record f { claimed_at = some now })

-- RETURNING, and the final ORDER BY.
pub returning : List ℕ → List Fetch → List Fetch
returning chosen t = order_by before (select (λ f. contains chosen f.id) t)

abbrev pub to_request : Fetch → Request
to_request f = record { id = f.id; rsn = f.rsn; mode = f.mode }

-- The statement on its table: the table afterwards, and the rows it returns.
unfoldable pub claim_rows : ℕ → ℕ → (ℕ → Bool) → ℕ → ℕ → List Fetch → List Fetch × List Fetch
unfolding due jump rest stamp returning
claim_rows now lease locked limit share t =
    let chosen = ids (due now lease locked limit share t) in
    let t' = stamp now chosen t in (t', returning chosen t')

abbrev negative_limit : Text
negative_limit = codes "ERROR: LIMIT must not be negative (SQLSTATE 2201W)"

read_claim : Store → Fault → List Fetch → Store × Result (List Request)
read_claim s (scan_fault e) rows = (s, err (codes "scanning claim: " ++ e))
read_claim s (rows_fault e) rows = (s, err e)
read_claim s f rows = (s, ok (map to_request rows))

run_claim : ℕ → (ℕ → Bool) → Fault → ℤ → ℕ → Store → Store × Result (List Request)
unfolding claim_rows read_claim jump_share
run_claim now locked (query_fault e) limit lease s = (s, err (codes "claiming fetches: " ++ e))
run_claim now locked fault limit lease s =
    if is_negative limit
    then (s, err negative_limit)
    else (let (t', rows) = claim_rows now lease locked (to_ℕ limit) (jump_share limit) s.fetches in
        read_claim (record s { fetches = t' }) fault rows)

unfoldable pub claim : ℕ → (ℕ → Bool) → Fault → ℤ → ℕ → Store → Store × Result (List Request)
unfolding run_claim
claim now locked fault limit lease s = run_claim now locked fault limit lease s

-- SET … WHERE id = $1 AND fetched_at IS NULL
pub write_result : ℕ → ℕ → Text → Text → Text → List Fetch → List Fetch
write_result now id outcome body err_text =
    update_where (λ f. f.id == id && is_none f.fetched_at)
      (λ f. record f {
        fetched_at = some now;
        outcome = some outcome;
        body = null_if_empty body;
        error = null_if_empty err_text;
      })

-- The decimal form of an id in the message is a parameter.
run_complete : (ℕ → Text) → ℕ → Fault → ℕ → Text → Text → Text → Store → Store × Result (Unit {0})
run_complete format now (query_fault e) id outcome body err_text s =
    (s, err (codes "completing fetch " ++ (format id ++ (codes ": " ++ e))))
run_complete format now fault id outcome body err_text s =
    (record s { fetches = write_result now id outcome body err_text s.fetches }, ok tt)

unfoldable pub complete :
    (ℕ → Text) → ℕ → Fault → ℕ → Text → Text → Text → Store → Store × Result (Unit {0})
unfolding run_complete
complete format now fault id outcome body err_text s =
    if s.dry_run then (s, ok tt) else run_complete format now fault id outcome body err_text s

unfoldable pub backlog : Fault → Store → Result ℕ
backlog no_fault s = ok (count_where (λ f. is_none f.fetched_at) s.fetches)
backlog (query_fault e) s = err e
backlog (scan_fault e) s = err e
backlog (rows_fault e) s = err e

unfoldable pub record_run : ℕ → Fault → ℕ → RunStats → Store → Store × Result (Unit {0})
record_run now (query_fault e) started st s = (s, err (codes "recording run: " ++ e))
record_run now fault started st s = (record s { runs = s.runs ++ row ∷ [] }, ok tt)
  where
    row : RunRow
    row = record {
      started_at = started;
      finished_at = now;
      claimed = st.claimed;
      fetched = st.fetched;
      changed = 0;
      unranked = st.unranked;
      errors = st.errors;
      backlog = st.backlog;
      shadow = s.dry_run;
    }
