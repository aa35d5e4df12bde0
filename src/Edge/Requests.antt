-- ===== src/Edge/Requests.antt =====
-- internal/edge/server.go: what the handlers read and what they answer.
--
-- A request is what the handlers read of it; the decoding of JSON bodies and of gzip, SHA-256 and the
-- formatting of numbers are the record `Codec`. Each statement of a request has its own `Fault`. The
-- counters are numbers, far below 2^63. The headers ETag, Cache-Control and Vary are set together:
-- `etag` stands for the three.
use anvil_forge.Prelude.{Bool, Option, Text, codes, false, none, ℕ}
use anvil_forge.Prelude.Statement.{Fault}
use anvil_forge.Edge.Tables.{Tables}

-- ingestRequest; the pushes inside it are of the same type.
mutual
  pub data Push : Type 0 where
    push : Text → Text → Text → Batch → Push

  pub data Batch : Type 0 where
    nil : Batch
    cons : Push → Batch → Batch

pub record Request : Type 0 where
  pub method : Text
  pub authorization : Text
  pub if_none_match : Text
  pub accept_encoding : Text
  -- The query's eventId, empty where there is none.
  pub event_id : Text
  -- The body, as its first 512 KiB decode.
  pub body : Option Push

pub data Body : Type 0 where
  no_body : Body
  plain json_error bytes : Text → Body
  tally : ℕ → ℕ → Body

pub record Response : Type 0 where
  pub status : ℕ
  pub etag : Option Text
  pub gzip : Bool
  pub body : Body

pub record Counters : Type 0 where
  pub served : ℕ
  pub not_modified : ℕ
  pub ingested : ℕ
  pub duplicates : ℕ

pub record Server : Type 0 where
  pub tables : Tables
  pub counters : Counters

-- The errors of the statements of one request: `at_event` by the event's place in the batch.
pub record Faults : Type 0 where
  pub at_auth : Fault
  pub at_load : Fault
  pub at_event : ℕ → Fault
  pub at_heartbeat : Fault

pub record Codec : Type 0 where
  pub sha256 : Text → Text
  pub gunzip : Text → Option Text
  -- strconv.ParseInt, none where it fails or the number is not positive.
  pub parse_id : Text → Option ℕ
  pub format_id : ℕ → Text

abbrev pub error_response : ℕ → Text → Response
error_response status message = record {
  status = status;
  etag = none;
  gzip = false;
  body = json_error message;
}

abbrev pub method_not_allowed : Response
method_not_allowed = record {
  status = 405;
  etag = none;
  gzip = false;
  body = plain (codes "method not allowed");
}

abbrev pub internal_error : Response
internal_error = error_response 500 (codes "Internal error")

abbrev pub unauthorized : Response
unauthorized =
    error_response 401 (codes "Unauthorized. Provide Authorization: Bearer <accountToken>")

abbrev pub no_content : Response
no_content = record { status = 204; etag = none; gzip = false; body = no_body }
