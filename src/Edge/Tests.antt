-- ===== src/Edge/Tests.antt =====
-- Runs of the plugin's surface, and its theorems at concrete inputs.
use anvil_forge.Prelude.{
  List, [], arith, codes, eq_text, false, none, refl, some, true, ◌++◌, ◌↔◌, ◌∷◌, ◌≡◌,
}
use anvil_forge.Prelude.Statement.{no_fault}
use anvil_forge.Hiscores.Rsn.{trim_space, trim_left, trim_right, is_space, is_empty}
use anvil_forge.Edge.Routes.{at_heartbeat, at_ingest, serve}
use anvil_forge.Edge.Events.{WellKept}
use anvil_forge.Edge.Events.History.{Reach, here, asked, Reach-Grows}
use anvil_forge.Edge.Headers.{bearer, split, matches_candidate, matches_etag, accepts_gzip}
use anvil_forge.Edge.Tables.{heartbeat, Event, Payload, ingest, authenticate, hash_token}
use anvil_forge.Edge.Server.{
  Codec, Faults, Request, Server, authed, handle_config, handle_board, handle_ingest,
  handle_heartbeat, serve_payload, Push, push, nil, cons, batch_of, tally, ingest_all,
}
use anvil_forge.Edge.Tables.{found}
use anvil_forge.Edge.Server.Callers.{authed-refusals, answer_for}
use anvil_forge.Edge.Server.Retries.{
  IsCounted, handle_ingest-IsCounted, handle_ingest-handle_ingest,
}
use anvil_forge.Edge.Server.Reads.{IsListed, matches_etag_iff, IsAnswered, serve_payload-IsAnswered}

weak_tag : matches_etag (codes "\"a\", W/\"b\"") (codes "\"b\"") ≡ true
unfolding matches_etag matches_candidate split eq_text trim_space trim_left trim_right is_space
weak_tag = refl

any_case : bearer (codes "bEARER  tok ") ≡ codes "tok"
unfolding bearer eq_text trim_space trim_left trim_right is_space
any_case = refl

-- A quality of zero refuses an encoding, and is not read.
zero_quality : accepts_gzip (codes "gzip;q=0") ≡ true
unfolding accepts_gzip split eq_text trim_space trim_left trim_right is_space
zero_quality = refl

abbrev pub no_faults : Faults
no_faults = record {
  at_auth = no_fault;
  at_load = no_fault;
  at_event = λ i. no_fault;
  at_heartbeat = no_fault;
}

abbrev pub codec : Codec
codec = record { sha256 = λ s. s; gunzip = λ s. some s; parse_id = λ s. none; format_id = λ n. [] }

abbrev page : Payload
page = record { etag = codes "t"; body = codes "{}"; encoding = codes "gzip" }

abbrev pub server : Server
server = record {
  tables = record {
    payloads = page ∷ [];
    bindings = [];
    public_payloads = [];
    credentials =
        record {
          token_hash = codes "k";
          account_id = some 7;
          subject = none;
          revoked_at = none;
          last_seen_at = none;
        }
        ∷ [];
    events = [];
    next_event = 1;
    sweep_states = [];
  };
  counters = record { served = 0; not_modified = 0; ingested = 0; duplicates = 0 };
}

-- Two pushes under one key.
abbrev kills : Push
kills = push [] [] [] (
    cons (push (codes "kill") [] (codes "a") nil)
      (cons (push (codes "kill") [] (codes "a") nil) nil))

abbrev pub request : Request
request = record {
  method = codes "POST";
  authorization = codes "Bearer k";
  if_none_match = codes "*";
  accept_encoding = [];
  event_id = [];
  body = some kills;
}

abbrev stranger : Request
stranger = record request { authorization = codes "Bearer x" }

one_new : (handle_ingest codec 5 no_faults request server).1.body ≡ tally 1 1
unfolding handle_ingest authed bearer authenticate hash_token eq_text trim_space trim_left
    trim_right is_space ingest_all ingest
one_new = refl

authed-refusals_example :
    ((handle_config codec no_faults stranger server
        ≡ ((server, answer_for stranger (codes "GET")), none))
      × (handle_board codec no_faults stranger server
          ≡ (server, answer_for stranger (codes "GET"))))
    × ((handle_ingest codec 5 no_faults stranger server
          ≡ (server, answer_for stranger (codes "POST")))
        × (handle_heartbeat codec 5 no_faults stranger server
            ≡ (server, answer_for stranger (codes "POST"))))
unfolding bearer hash_token eq_text trim_space trim_left trim_right is_space
authed-refusals_example = authed-refusals codec 5 no_faults stranger server refl refl refl

handle_ingest-IsCounted_example :
    IsCounted (batch_of kills) server (handle_ingest codec 5 no_faults request server)
unfolding handle_ingest authed bearer authenticate hash_token eq_text trim_space trim_left
    trim_right is_space ingest_all ingest
handle_ingest-IsCounted_example =
    handle_ingest-IsCounted codec 5 no_faults request server kills refl refl

abbrev after : Server
after = (handle_ingest codec 5 no_faults request server).0

-- A stranger asks, and a heartbeat comes in.
abbrev later : Server
later =
    (serve codec 8 no_faults at_heartbeat request
      (serve codec 7 no_faults at_ingest stranger after).0).0

abbrev after-later : Reach codec after later
after-later = asked 8 no_faults at_heartbeat request (asked 7 no_faults at_ingest stranger here)

handle_ingest-handle_ingest_example :
    ((handle_ingest codec 9 no_faults request later).1.status ≡ 202)
    × ((handle_ingest codec 9 no_faults request later).1.body ≡ tally 0 2)
    × ((handle_ingest codec 9 no_faults request later).0.tables.events ≡ later.tables.events)
unfolding handle_ingest handle_heartbeat serve heartbeat authed bearer authenticate hash_token
    eq_text trim_space trim_left trim_right is_space ingest_all ingest
handle_ingest-handle_ingest_example =
    handle_ingest-handle_ingest codec 5 9 no_faults no_faults request request server later kills
      (record { token_hash = codes "k"; account_id = some 7; subject = none }) refl refl
      (refl, (refl, tt)) refl after-later refl refl (λ i. refl)

matches_etag_iff_example : (matches_etag (codes "\"a\", W/\"b\"") (codes "\"b\"") ≡ true) ↔ (
    (is_empty (codes "\"a\", W/\"b\"") ≡ false)
    × (is_empty (codes "\"b\"") ≡ false)
    × IsListed (codes "\"a\", W/\"b\"") (codes "\"b\""))
matches_etag_iff_example = matches_etag_iff (codes "\"a\", W/\"b\"") (codes "\"b\"")

serve_payload-IsAnswered_example :
    IsAnswered codec request page server
      (codes "{}")
      (serve_payload codec request (found page) server)
unfolding eq_text
serve_payload-IsAnswered_example =
    serve_payload-IsAnswered codec request page server (codes "{}") refl

server-WellKept : WellKept server.tables
server-WellKept = record { unique = λ k. omega arith; fresh = tt; keyed = λ k. omega arith }

abbrev asked_once : Server
asked_once = (serve codec 5 no_faults at_ingest request server).0

Reach-Grows_example :
    WellKept asked_once.tables
    × ((added : List Event) × (asked_once.tables.events ≡ server.tables.events ++ added))
Reach-Grows_example = Reach-Grows codec (asked 5 no_faults at_ingest request here) server-WellKept
