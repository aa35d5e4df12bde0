-- ===== src/Discord/Tests.antt =====
-- Runs of internal/discord on a small queue, and its theorems at concrete inputs.
use anvil_forge.Prelude.{
  select, All, Bool, Member, [], arith, codes, count_where, false, if◌then◌else◌, inl, leb, length,
  ltb, min, none, not, pos, refl, some, ℕ, ℤ, ◌&&◌, ◌*◌, ◌++◌, ◌+◌, ◌==◌, ◌∷◌, ◌≡◌, ◌≢◌, ◌≤◌,
}
use anvil_forge.Discord.Sender.{
  retry, Result, Reply, response, Codec, send, backoff, second, minute, truncate, max_attempts,
}
use anvil_forge.Discord.Rows.{
  Outside, Row, Queue, Status, pending, delivering, done, dead_letter, at, ok, no_fault, enqueue,
  new_row, bucket_for,
}
use anvil_forge.Discord.Queue.{claim, claim_rows, complete, prune, to_delivery, leased, is_due}
use anvil_forge.Discord.Queue.Handout.{enqueue-claim}
use anvil_forge.Discord.Queue.Steps.{enqueued, claimed, pruned, Reach, here, next, empty, IsValid}
use anvil_forge.Discord.Queue.Lifecycle.{Reach-claim}
use anvil_forge.Discord.Queue.Finished.{finished-claim}
use anvil_forge.Discord.Queue.Order.{reaches, claim-priority}
use anvil_forge.Discord.Queue.Retry.{wait, complete-is_due}
use anvil_forge.Discord.Queue.Dedupe.{IsUnique, enqueue-prune, Reach-IsUnique}

-- A codec over whole seconds that reads no text.
abbrev pub seconds_codec : Codec
seconds_codec = record {
  Float = ℕ;
  decode_retry_after = λ s. if length s == 0 then none else some (length s);
  parse_float = λ s. some (length s);
  is_above_zero = λ n. ltb 0 n;
  from_seconds = λ n. pos (n * second);
  format_duration = λ d. [];
  format_int = λ n. [];
}

abbrev pub reply : ℕ → Reply
reply status = response (record { status = status; retry_after_header = codes "30"; body = [] })

-- The header is read where the body says nothing.
pub send_429 : (send seconds_codec (reply 429)).retry_after ≡ pos (2 * second)
unfolding send
send_429 = refl

truncate_cuts : truncate (codes "abcdef") 3 ≡ codes "abc" ++ 0xe2 ∷ 0x80 ∷ 0xa6 ∷ []
unfolding truncate
truncate_cuts = refl

bucket_hex : bucket_for (λ url. 0xab ∷ 0x07 ∷ []) [] ≡ codes "ab07"
unfolding bucket_for
bucket_hex = refl

-- The five waits between six attempts take 22 minutes and 35 seconds.
backoff_total :
    backoff 1 + backoff 2 + backoff 3 + backoff 4 + backoff 5 ≡ 22 * minute + 35 * second
unfolding backoff
backoff_total = refl

abbrev pub plain : Outside
plain = record { sha256 = λ url. []; jsonb = λ s. select (λ c. not (c == b' ')) s }

abbrev pub message : ℕ → Status → ℕ → ℤ → Row
message id status attempts priority = record {
  id = id;
  webhook_url = codes "https://discord.com/api/webhooks/1";
  bucket = codes "b";
  payload = codes "{}";
  dedupe_key = some (codes "completion:8821");
  status = status;
  attempts = attempts;
  next_attempt_at = at 10;
  last_error = none;
  last_status = none;
  created_at = 5;
  delivered_at = none;
  priority = priority;
}

abbrev busy : Queue
busy = record {
  rows = message 1 pending 0 (pos 0) ∷ message 2 delivering 2 (pos 3) ∷ [];
  next_id = 3;
}

busy-IsValid : IsValid busy
busy-IsValid = record {
  keyed = λ k. ground arith;
  fresh = omega arith;
  sound = (ground arith, (ground arith, tt));
}

abbrev ended : Row
ended = record (message 4 done 1 (pos 0)) { delivered_at = some 20 }

abbrev history : Queue
history = record { rows = ended ∷ message 5 dead_letter 1 (pos 0) ∷ []; next_id = 6 }

history-IsValid : IsValid history
history-IsValid = record {
  keyed = λ k. ground arith;
  fresh = omega arith;
  sound = (ground arith, (ground arith, tt));
}

abbrev one_message : Queue
one_message = (enqueue plain 7 no_fault (codes "u") (codes "{}") (codes "k") (pos 0) empty).0

one_message-Reach : (May : ℕ → Type 0) → Reach plain May empty one_message
one_message-Reach May =
    next here (enqueued 7 no_fault (codes "u") (codes "{}") (codes "k") (pos 0) refl)

abbrev pub free : ℕ → Bool
free k = false

Reach-claim_example :
    All
      (λ x.
        (r : Row) × Member r one_message.rows
        × (r.status ≡ pending)
        × (x ≡ leased 9 100 r)
        × (1 ≤ x.attempts)
        × (x.attempts ≤ max_attempts))
      (claim_rows 9 free 10 100 one_message.rows).1
Reach-claim_example = Reach-claim plain 9 100 10 free (one_message-Reach (λ k. Unit))

-- Another message comes in, a claim takes it, and what is old is deleted.
abbrev with_another : Queue
with_another = (enqueue plain 21 no_fault (codes "u") (codes "{}") (codes "k") (pos 0) history).0

abbrev claimed_another : Queue
claimed_another = (claim (λ rows. rows) 30 free no_fault (pos 5) 100 with_another).0

abbrev pruned_since : Queue
pruned_since = (prune 40 no_fault 15 claimed_another).0

abbrev since : Reach plain (λ k. Unit) history pruned_since
since =
    next
      (next (next here (enqueued 21 no_fault (codes "u") (codes "{}") (codes "k") (pos 0) refl))
        (claimed (λ rows. rows) 30 free no_fault (pos 5) 100 refl))
      (pruned 40 no_fault 15 refl)

finished-claim_example :
    All (λ x. x.id ≡ 4 → x ≡ ended) pruned_since.rows
    × ((now lease limit : ℕ) (locked : ℕ → Bool)
        → All (λ x. x.id ≢ 4) (claim_rows now locked limit lease pruned_since.rows).1)
finished-claim_example =
    finished-claim plain ended history-IsValid (Member.head refl) (inl refl) since

claim-priority_example :
    count_where (reaches (pos 0)) (claim_rows 50 free 1 100 busy.rows).1
    ≡ min 1 (count_where (λ r. is_due 50 free r && reaches (pos 0) r) busy.rows)
claim-priority_example = claim-priority 50 100 1 free busy.rows (pos 0) busy-IsValid.keyed

abbrev slow_down : Result
slow_down = record { verdict = retry; status = 429; retry_after = pos 40; err = some [] }

complete-is_due_example :
    (r' : Row) × Member r'
      (complete
        (λ n. [])
        60
        no_fault
        (to_delivery (message 2 delivering 2 (pos 3)))
        slow_down
        busy).0.rows
    × (r'.id ≡ 2)
    × ((later : ℕ) (locked : ℕ → Bool)
        → is_due later locked r'
          ≡ (ltb 2 max_attempts && (leb (60 + wait slow_down 2) later && not (locked 2))))
complete-is_due_example =
    complete-is_due (λ n. []) 60 (message 2 delivering 2 (pos 3)) slow_down busy busy-IsValid
      (Member.tail (Member.head refl)) refl refl

abbrev posted : Queue
posted = record { rows = ended ∷ []; next_id = 6 }

enqueue-prune_example :
    let p = (prune 100 no_fault 50 posted).0 in
    let again =
      enqueue plain 101 no_fault (codes "u") (codes "{}") (codes "completion:8821") (pos 0) p in
    (again.0.rows
      ≡ p.rows
        ++ new_row plain 101 p.next_id
            (codes "u")
            (codes "{}")
            (some (codes "completion:8821"))
            (pos 0)
          ∷ [])
    × (again.1 ≡ ok p.next_id)
enqueue-prune_example =
    enqueue-prune plain b'c' (codes "ompletion:8821") 100 101 50 (codes "u") (codes "{}") (pos 0)
      posted ((λ h. refl), tt)

Reach-IsUnique_example : IsUnique (codes "k") one_message
Reach-IsUnique_example = Reach-IsUnique plain (codes "k") (one_message-Reach (λ k. Unit))

abbrev stored : Queue
stored = (enqueue plain 7 no_fault (codes "u") (codes "{}") (codes "k") (pos 0) empty).0

only_one : count_where (is_due 9 free) stored.rows ≤ 1
unfolding enqueue
only_one = omega arith

enqueue-claim_example :
    ((enqueue plain 7 no_fault (codes "u") (codes "{}") (codes "k") (pos 0) empty).1 ≡ ok 1)
    × ((x : Row) × Member x (claim_rows 9 free 1 100 stored.rows).1
        × (to_delivery x ≡ record {
          id = 1;
          webhook_url = codes "u";
          bucket = bucket_for plain.sha256 (codes "u");
          payload = codes "{}";
          attempts = 1;
          priority = pos 0;
        }))
enqueue-claim_example =
    enqueue-claim plain 7 9 (codes "u") (codes "{}") (codes "k") (pos 0) empty free 100 1 refl
      (omega arith) refl only_one
