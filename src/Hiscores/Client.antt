-- ===== src/Hiscores/Client.antt =====
-- internal/hiscores/client.go: one player's stats from one table, with the retry.
--
-- The HTTP client, the decoding of JSON, url.QueryEscape and the context are the record `World`. An
-- attempt is numbered from 1. Where both arms of the pause's `select` are ready, Go picks one: what
-- it picked is `ended_in_pause`.
use anvil_forge.Prelude.{
  length, Bool, List, Option, Text, [], codes, eq_text, false, if◌then◌else◌, leb, ltb, ltbℤ, none,
  pos, some, suc, take, to_ℕ, true, zero, ℕ, ℤ, ◌*◌, ◌++◌, ◌==◌, ◌^◌, ◌∷◌,
}
use anvil_forge.Hiscores.Rsn.{sanitize_rsn, is_plausible_rsn}
pub mod Turns
pub mod Attempts

abbrev pub base_url : Text
base_url = codes "https://secure.runescape.com/m=hiscore_oldschool"

abbrev pub stats_path : Text
stats_path = codes "/index_lite.json?player="

unfoldable pub table_suffix : Text → Option Text
table_suffix mode =
    if eq_text mode (codes "main")
    then some []
    else if eq_text mode (codes "ironman")
    then some (codes "_ironman")
    else if eq_text mode (codes "hardcore")
    then some (codes "_hardcore_ironman")
    else if eq_text mode (codes "ultimate")
    then some (codes "_ultimate")
    else none

pub data Outcome : Type 0 where
  outcome_ok outcome_unranked outcome_transient : Outcome

unfoldable pub outcome_text : Outcome → Text
outcome_text outcome_ok = codes "ok"
outcome_text outcome_unranked = codes "unranked"
outcome_text outcome_transient = codes "transient"

-- The errors by what they say and wrap.
pub data Error : Type 0 where
  invalid_rsn unknown_mode context_ended no_request no_response : Text → Error
  not_found rate_limited not_stats : Text → Error
  bad_status : ℕ → Text → Error
  unreadable : Text → Text → Error

-- errors.Is(err, errNotFound)
abbrev pub is_not_found : Error → Bool
is_not_found (not_found rsn) = true
is_not_found _ = false

pub record Result : Type 0 where
  pub outcome : Outcome
  pub body : Text
  pub err : Option Error

pub record Client : Type 0 where
  pub timeout : ℕ
  pub base_url : Text
  pub user_agent : Text
  pub retries : ℤ
  pub retry_delay : ℕ

unfoldable pub new_client : Text → Client
new_client user_agent = record {
  timeout = 8 * 1000000000;
  base_url = base_url;
  user_agent = user_agent;
  retries = pos 2;
  retry_delay = 1500 * 1000000;
}

-- What an attempt meets: no request (a malformed URL), no response, or a response with its body,
-- which may break off with an error.
pub data Reply : Type 0 where
  malformed unanswered : Text → Reply
  response : ℕ → Text → Option Text → Reply

pub record World : Type 0 where
  pub query_escape : Text → Text
  -- The body decodes into the shape of stats, with at least one skill.
  pub is_stats : Text → Bool
  -- The attempt's number and its URL.
  pub serve : ℕ → Text → Reply
  -- The context's error after an attempt, and in the pause after it.
  pub ended_after : ℕ → Option Text
  pub ended_in_pause : ℕ → Option Text

pub data Attempt : Type 0 where
  got : Text → Attempt
  failed : Error → Attempt

abbrev pub attempts_of : ℤ → ℕ
attempts_of retries = if ltbℤ retries (pos 1) then 1 else to_ℕ retries

abbrev pub unranked : Error → Result × List Text
unranked e = (record { outcome = outcome_unranked; body = []; err = some e }, [])

-- After a failed attempt: the context may have ended then, or end in the pause.
unfoldable pub after_failure :
    Text → Error → Option Text → Option Text → (Error → Result × List Text) → Result × List Text
after_failure url e (some c) _ next =
    (record { outcome = outcome_transient; body = []; err = some (context_ended c) }, url ∷ [])
after_failure url e none (some c) next =
    (record { outcome = outcome_transient; body = []; err = some (context_ended c) }, url ∷ [])
after_failure url e none none next = ((next e).0, url ∷ (next e).1)

-- One turn of the loop; `next` is the rest of it.
unfoldable pub turn :
    Text → Attempt → Option Text → Option Text → (Error → Result × List Text) → Result × List Text
unfolding after_failure
turn url (got body) _ _ next = (record { outcome = outcome_ok; body = body; err = none }, url ∷ [])
turn url (failed e) ended_after ended_in_pause next =
    if is_not_found e
    then (record { outcome = outcome_unranked; body = []; err = some e }, url ∷ [])
    else after_failure url e ended_after ended_in_pause next

module _ (w : World) where
  unfoldable pub check_stats : Text → Text → Attempt
  check_stats rsn body = if w.is_stats body then got body else failed (not_stats rsn)

  unfoldable pub read_body : Text → Text → Option Text → Attempt
  unfolding check_stats
  read_body rsn body (some e) =
      if leb (2 ^ 20) (length body)
      then check_stats rsn (take (2 ^ 20) body)
      else failed (unreadable rsn e)
  read_body rsn body none = check_stats rsn (take (2 ^ 20) body)

  unfoldable pub fetch_once : Text → Reply → Attempt
  unfolding read_body
  fetch_once rsn (malformed e) = failed (no_request e)
  fetch_once rsn (unanswered e) = failed (no_response e)
  fetch_once rsn (response status body fault) =
      if status == 404
      then failed (not_found rsn)
      else if status == 429
      then failed (rate_limited rsn)
      else if leb 400 status
      then failed (bad_status status rsn)
      else read_body rsn body fault

  -- The loop's turns left, of `attempts`. The texts are the URLs that were tried, in order.
  unfoldable pub fetch_from : ℕ → Text → Text → ℕ → ℕ → Option Error → Result × List Text
  unfolding fetch_once turn
  fetch_from attempts rsn url zero attempt last =
      (record { outcome = outcome_transient; body = []; err = last }, [])
  fetch_from attempts rsn url (suc n) attempt last =
      turn url (fetch_once rsn (w.serve attempt url)) (w.ended_after attempt)
        (if ltb attempt attempts then w.ended_in_pause attempt else none)
        (λ e. fetch_from attempts rsn url n (suc attempt) (some e))

  unfoldable pub endpoint : Client → Text → Text → Text
  endpoint c suffix rsn = c.base_url ++ (suffix ++ (stats_path ++ w.query_escape rsn))

  pub fetch_table : Client → Text → Text → Option Text → Result × List Text
  unfolding fetch_from endpoint
  fetch_table c clean mode none = unranked (unknown_mode mode)
  fetch_table c clean mode (some suffix) =
      fetch_from (attempts_of c.retries) clean (endpoint c suffix clean) (attempts_of c.retries) 1
        none

  unfoldable pub fetch : Client → Text → Text → Result × List Text
  unfolding fetch_table
  fetch c rsn mode =
      if is_plausible_rsn (sanitize_rsn rsn)
      then fetch_table c (sanitize_rsn rsn) mode (table_suffix mode)
      else unranked (invalid_rsn rsn)
