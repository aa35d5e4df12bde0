-- ===== src/Discord/Worker/Tests.antt =====
-- Drains of internal/discord/worker.go on a queue of two messages, and its theorems at concrete inputs.
use anvil_forge.Prelude.{
  ◌⊎◌, All, Bool, List, Member, Option, Text, [], ap, arith, codes, count_where, eq_text, false,
  is_positive, none, pos, refl, some, to_ℕ, true, ℕ, ◌*◌, ◌+◌, ◌<◌, ◌↔◌, ◌∷◌, ◌≡◌, ◌≢◌, ◌≤◌,
}
use anvil_forge.Discord.Sender.{retry, send, second}
use anvil_forge.Discord.Rows.{Row, Queue, Delivery, pending, delivering, no_fault, ok}
use anvil_forge.Discord.Queue.{claim, claim_rows, is_due, leased, to_delivery}
use anvil_forge.Discord.Queue.Steps.{IsValid}
use anvil_forge.Discord.Queue.Steps
use anvil_forge.Discord.Tests.{seconds_codec, reply, message, plain, free, send_429}
use anvil_forge.Ratelimit.{Keyed, wait, asked, reserve_for}
use anvil_forge.Discord.Worker.{
  held, asleep, Drain, begin, after_attempt, hand_over, sleeps, wait_fails, context_ends, give_up,
  Reach, here, then_turn,
}
use anvil_forge.Discord.Worker.Accounts.{IsBalanced, Reach-IsBalanced, moves}
use anvil_forge.Discord.Worker.Flights.Claimed.{IsRearrangement}
use anvil_forge.Discord.Worker.Refinement.{claim-attempt-claim}
use anvil_forge.Discord.Worker.Completion.{Rests, IsLive, Reach-IsLive}
use anvil_forge.Discord.Worker.Losses.{claim-lost}
use anvil_forge.Discord.Worker.Pacing.{IsPaced, attempt-IsPaced}
use anvil_forge.Discord.Worker.Run
use anvil_forge.Discord.Worker.Run.{
  Worker, Process, draining, idling, stopped, drain_result, after_drain, Runs, works, drains,
  History,
}
use anvil_forge.Discord.Worker.Run.Queues.{History-Steps}
use anvil_forge.Discord.Worker.Run.Batches.{claim-idling_iff}

abbrev no_number : ℕ → Text
no_number n = []

abbrev as_they_come : List Row → List Row
as_they_come rows = rows

as_they_come-IsRearrangement : IsRearrangement as_they_come
as_they_come-IsRearrangement = record { members = λ rows r m. m; counts = λ p rows. refl }

abbrev row : ℕ → Row
row id = record (message id pending 0 (pos 0)) { dedupe_key = none }

abbrev table : Queue
table = record { rows = row 1 ∷ row 2 ∷ []; next_id = 3 }

table-IsValid : IsValid table
table-IsValid = record {
  keyed = λ k. ground arith;
  fresh = omega arith;
  sound = (ground arith, (ground arith, tt));
}

abbrev sent : ℕ → Delivery
sent id = to_delivery (leased 50 100 (row id))

abbrev both : List Delivery
both = sent 1 ∷ sent 2 ∷ []

abbrev claim_result : Queue
claim_result = (claim as_they_come 50 free no_fault (pos 2) 100 table).0

claims_both : (claim as_they_come 50 free no_fault (pos 2) 100 table).1 ≡ ok both
unfolding claim
claims_both = refl

abbrev limiter : Keyed Unit
limiter = record { limit = tt; burst = pos 5; ttl = pos 900; buckets = []; next_limiter = 0 }

abbrev lets_through : ℕ → ℕ → Option Text
lets_through number now = none

abbrev started : Drain Unit
started = begin 1 both claim_result limiter

abbrev handed : Drain Unit
handed = record started { waiting = sent 2 ∷ []; busy = held (sent 1) ∷ []; idle = 0 }

abbrev through : Drain Unit
through = record handed {
  busy = asleep 60 (sent 1) ∷ [];
  limiter = (wait 60 (sent 1).bucket none lets_through limiter).0;
}

let_through : (wait 60 (sent 1).bucket none lets_through limiter).1 ≡ asked 60 none
unfolding wait eq_text
let_through = refl

abbrev through-Reach :
    (Evicts : Type 0) → Reach seconds_codec no_number plain Evicts started through
through-Reach Evicts =
    then_turn _ _ _
      (then_turn _ _ _ (here started) (hand_over started (sent 1) (sent 2 ∷ []) 0 refl refl))
      (sleeps handed [] (sent 1) [] 60 none lets_through 60 refl let_through)

Reach-IsBalanced_example : IsBalanced 1 both through × (moves (through-Reach Unit) ≤ 6)
Reach-IsBalanced_example =
    Reach-IsBalanced seconds_codec no_number plain Unit 1 both claim_result limiter through
      (through-Reach Unit)

abbrev after : ℕ → (Evicts : Type 0) → Drain Unit
after status Evicts =
    after_attempt seconds_codec no_number plain Evicts 70 no_fault (sent 1)
      (send seconds_codec (reply status)) [] through

posted : (send seconds_codec (reply 204)).verdict ≢ retry
unfolding send
posted = ground arith

claim-attempt-claim_example :
    All (λ x. x.id ≢ 1) (claim_rows 5000 free 9 100 (after 204 Unit).queue.rows).1
claim-attempt-claim_example =
    claim-attempt-claim seconds_codec no_number plain Unit as_they_come 50 free no_fault (pos 2) 100
      1 table both limiter through (after 204 Unit) [] 60 (sent 1) [] 70 (reply 204)
      (after 204 Unit).queue as_they_come-IsRearrangement table-IsValid claims_both
      (through-Reach Unit) refl (omega arith) posted (here (after 204 Unit)) Steps.here 5000 100 9
      free

claim-lost_example :
    ((r : Row) × Member r claim_result.rows × (r.status ≡ delivering) × (r.id ≡ 2))
    × ((now lease limit : ℕ) (locked : ℕ → Bool)
        → All (λ x. x.id ≢ 2) (claim_rows now locked limit lease claim_result.rows).1)
claim-lost_example =
    claim-lost seconds_codec no_number plain Unit as_they_come 50 free no_fault (pos 2) 100 1 table
      both limiter through (sent 2) claim_result as_they_come-IsRearrangement table-IsValid
      claims_both (through-Reach Unit) (Member.tail (Member.head refl)) refl Steps.here

-- The second message of the webhook waits until Discord lets it come.
abbrev answered : Drain Unit
answered = after 429 ⊥

abbrev resumed : ℕ
resumed = 70 + 2 * second

abbrev second_through : Drain Unit
second_through = record answered {
  waiting = [];
  busy = asleep resumed (sent 2) ∷ [];
  idle = 0;
  limiter = (wait 80 (sent 2).bucket none lets_through answered.limiter).0;
}

held_back : (wait 80 (sent 2).bucket none lets_through answered.limiter).1 ≡ asked resumed none
unfolding wait eq_text after_attempt send reserve_for
held_back = refl

second-Reach : Reach seconds_codec no_number plain ⊥ answered second_through
unfolding after_attempt send
second-Reach =
    let handed_second : Drain Unit = record answered {
      waiting = [];
      busy = held (sent 2) ∷ [];
      idle = 0;
    } in
    then_turn _ _ _ (then_turn _ _ _ (here answered) (hand_over answered (sent 2) [] 0 refl refl))
      (sleeps handed_second [] (sent 2) [] 80 none lets_through resumed refl held_back)

attempt-IsPaced_example :
    All
      (IsPaced (codes "b") (70 + to_ℕ (send seconds_codec (reply 429)).retry_after) [])
      second_through.busy
attempt-IsPaced_example =
    attempt-IsPaced seconds_codec no_number plain through second_through [] (sent 1) 70 no_fault
      (reply 429) (ap is_positive send_429) second-Reach

claim-idling_iff_example :
    (after_drain (pos 2) false (drain_result both through) ≡ idling)
    ↔ (count_where (is_due 50 free) table.rows < 2)
claim-idling_iff_example =
    claim-idling_iff as_they_come 50 100 2 free table both through false
      as_they_come-IsRearrangement table-IsValid.keyed claims_both refl

-- The context ends while the first message waits for the limiter.
abbrev worker : Worker
worker = record {
  workers = pos 1;
  claim_batch = pos 2;
  claim_lease = 100;
  tick_every = pos 2;
  keep_delivered = 1000;
}

abbrev refuses : ℕ → ℕ → Option Text
refuses number now = some (codes "context canceled")

abbrev refused : Drain Unit
refused = record handed {
  busy = [];
  left = sent 1 ∷ [];
  limiter = (wait 60 (sent 1).bucket none refuses limiter).0;
}

abbrev cancelled : Drain Unit
cancelled = record refused {
  ended = true;
  waiting = [];
  left = sent 2 ∷ sent 1 ∷ [];
  gave_up = true;
}

is_refused : (now : ℕ) → (wait 60 (sent 1).bucket none refuses limiter).1 ≢ asked now none
unfolding wait eq_text
is_refused now e = ground (arith, e)

still_waits : refused.waiting ≢ []
still_waits e = ground (arith, e)

abbrev cancelled-Reach : Reach seconds_codec no_number plain Unit started cancelled
cancelled-Reach =
    then_turn _ _ _
      (then_turn _ _ _
        (then_turn _ _ _
          (then_turn _ _ _ (here started) (hand_over started (sent 1) (sent 2 ∷ []) 0 refl refl))
          (wait_fails handed [] (sent 1) [] 60 none refuses refl is_refused))
        (context_ends refused))
      (give_up (record refused { ended = true }) still_waits refl)

abbrev first : Process Unit
first = record { queue = table; limiter = limiter; phase = draining }

abbrev last : Process Unit
last = record { queue = cancelled.queue; limiter = cancelled.limiter; phase = stopped }

abbrev run : History seconds_codec no_number plain worker first last
run = Run.next _ _ _ (Run.here first) (
    drains claim_result cancelled.limiter true true _ refl
      (works as_they_come 50 free no_fault (sent 1) (sent 2 ∷ []) cancelled
        as_they_come-IsRearrangement claims_both cancelled-Reach refl refl)
      (λ e. refl))

History-Steps_example :
    Steps.Reach plain (λ k. Unit) table cancelled.queue × IsValid cancelled.queue
History-Steps_example = History-Steps table-IsValid run

Reach-IsLive_example :
    (moves (through-Reach Unit) ≤ 3 * 2)
    × IsLive seconds_codec no_number plain Unit 1 through
    × (Rests seconds_codec no_number plain Unit through
        → (through.busy ≡ []) × ((through.waiting ≡ []) ⊎ (1 ≤ 0)))
Reach-IsLive_example =
    Reach-IsLive seconds_codec no_number plain Unit 1 both claim_result limiter through
      (through-Reach Unit)
