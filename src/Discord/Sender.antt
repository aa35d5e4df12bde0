-- ===== src/Discord/Sender.antt =====
-- internal/discord/sender.go: one attempt to post a message, and the retry schedule.
--
-- The HTTP client is a parameter: `Reply` is what it gives back. Texts are bytes. Durations are
-- integers of nanoseconds. Floats, the JSON decoder and the formatting of numbers are the record
-- `Codec`.
pub mod Verdicts
use anvil_forge.Prelude.{
  ℕ, ◌*◌, Bool, ◌&&◌, ◌||◌, [], ◌∷◌, ◌++◌, Option, none, some, ℤ, pos, Text, codes, ltb, leb, ◌==◌,
  if◌then◌else◌, length, take,
}

pub data Verdict : Type 0 where
  delivered retry dead drop : Verdict

unfoldable pub verdict_text : Verdict → Text
verdict_text delivered = codes "delivered"
verdict_text retry = codes "retry"
verdict_text dead = codes "dead"
verdict_text drop = codes "drop"

pub record Result : Type 0 where
  pub verdict : Verdict
  pub status : ℕ
  pub retry_after : ℤ
  pub err : Option Text

-- An HTTP response: its status, its Retry-After header (empty if there is none) and its body.
pub record Response : Type 0 where
  pub status : ℕ
  pub retry_after_header : Text
  pub body : Text

-- What posting a message ends in: no request (a malformed URL), no response, or a response.
pub data Reply : Type 0 where
  no_request no_response : Text → Reply
  response : Response → Reply

-- What the sender takes from the standard library and does not compute itself.
pub record Codec : Type 1 where
  pub Float : Type 0
  -- The number under "retry_after" in a JSON body; the zero of floats if the body is an object
  -- without it, and none if the body does not decode.
  pub decode_retry_after : Text → Option Float
  pub parse_float : Text → Option Float
  pub is_above_zero : Float → Bool
  -- time.Duration(f * float64(time.Second))
  pub from_seconds : Float → ℤ
  pub format_duration : ℤ → Text
  pub format_int : ℕ → Text

abbrev pub second : ℕ
second = 1000000000

abbrev pub minute : ℕ
minute = 60 * second

-- "…" in UTF-8.
abbrev ellipsis : Text
ellipsis = 0xe2 ∷ 0x80 ∷ 0xa6 ∷ []

unfoldable pub truncate : Text → ℕ → Text
truncate s n = if leb (length s) n then s else take n s ++ ellipsis

module _ (c : Codec) where
  -- `err == nil && f > 0`
  pub usable : Option c.Float → Option ℤ
  usable none = none
  usable (some f) = if c.is_above_zero f then some (c.from_seconds f) else none

  pub or_else : Option ℤ → ℤ → ℤ
  or_else none d = d
  or_else (some d) _ = d

  pub header_wait : Text → Option ℤ
  unfolding usable
  header_wait [] = none
  header_wait (h ∷ hs) = usable (c.parse_float (h ∷ hs))

  -- The body, then the header, then a second.
  unfoldable pub parse_retry_after : Response → ℤ
  unfolding usable or_else header_wait
  parse_retry_after r =
      or_else (usable (c.decode_retry_after (take 4096 r.body)))
        (or_else (header_wait r.retry_after_header) (pos second))

  abbrev rejected : ℕ → Text → Text
  rejected status body =
      codes "discord rejected the payload ("
      ++ (c.format_int status ++ (codes "): " ++ truncate body 500))

  unfoldable pub classify : Response → Result
  unfolding parse_retry_after truncate
  classify r =
      if leb 200 r.status && ltb r.status 300
      then result delivered (pos 0) none
      else if r.status == 429
      then (let wait = parse_retry_after r in
          result retry wait (some (codes "rate limited, retry after " ++ c.format_duration wait)))
      else if r.status == 404 || (r.status == 401 || r.status == 403)
      then result dead (pos 0) (some (codes "webhook rejected us with " ++ c.format_int r.status))
      else if r.status == 400 || r.status == 413
      then result drop (pos 0) (some (rejected r.status (take 2048 r.body)))
      else result retry (pos 0) (some (codes "discord returned " ++ c.format_int r.status))
    where
      result : Verdict → ℤ → Option Text → Result
      result v wait e = record { verdict = v; status = r.status; retry_after = wait; err = e }

  unfoldable pub send : Reply → Result
  unfolding classify
  send (no_request e) = record {
    verdict = dead;
    status = 0;
    retry_after = pos 0;
    err = some (codes "building request: " ++ e);
  }
  send (no_response e) = record { verdict = retry; status = 0; retry_after = pos 0; err = some e }
  send (response r) = classify r

-- The attempts are counted from 1; at 0 the first branch applies too.
unfoldable pub backoff : ℕ → ℕ
backoff attempts =
    if leb attempts 1
    then 5 * second
    else if attempts == 2
    then 30 * second
    else if attempts == 3
    then 2 * minute
    else if attempts == 4
    then 5 * minute
    else 15 * minute

abbrev pub max_attempts : ℕ
max_attempts = 6
