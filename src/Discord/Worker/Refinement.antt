-- ===== src/Discord/Worker/Refinement.antt =====
-- internal/discord/worker.go refines the queue: whatever a drain does, its table goes through a
-- history of the operations on the queue, in which each worker completes what it was given.
use anvil_forge.Prelude.{
  ==_iff, All, All-map, Bool, List, Member, Member-update_where, Text, ap, if◌then◌else◌, inl, inr,
  map, refl, subst, sym, true, update_where, ℕ, ℤ, ◌++◌, ◌==◌, ◌∙◌, ◌∷◌, ◌≡◌, ◌≢◌, ◌≤◌,
}
use anvil_forge.Discord.Sender.{Codec, Reply, Result, Verdict, delivered, retry, dead, drop, send}
use anvil_forge.Discord.Rows.{Outside, Row, Queue, Delivery, Fault, no_fault, ok}
use anvil_forge.Discord.Queue.{claim, claim_rows, complete, settle}
use anvil_forge.Discord.Queue.Steps.{Step, enqueued, claimed, completed, pruned, IsValid}
use anvil_forge.Discord.Queue.Steps
use anvil_forge.Discord.Queue.Valid.{settle-id}
use anvil_forge.Discord.Queue.Finished.{IsFinished, finished-claim}
use anvil_forge.Ratelimit.{Keyed}
use anvil_forge.Discord.Worker.{
  Job, asleep, delivery_of, Drain, begin, count, after_attempt, Turn, hand_over, context_ends,
  give_up, sleeps, wait_fails, attempts, others, evicts, Reach, here, then_turn,
}
use anvil_forge.Discord.Worker.Flights.{IsHeld, InFlight, All-jobs}
use anvil_forge.Discord.Worker.Flights.Effects.{IsHeld-Step}
use anvil_forge.Discord.Worker.Flights.Turns.{Turn-InFlight, Reach-InFlight}
use anvil_forge.Discord.Worker.Flights.Claimed.{IsRearrangement, claim-InFlight}

abbrev AnyId : ℕ → Type 0
AnyId k = Unit

Step-any :
    {outside : Outside} {May : ℕ → Type 0} {q q' : Queue}
    → Step outside May q q'
    → Step outside AnyId q q'
Step-any (enqueued now fault url payload key priority e) =
    enqueued now fault url payload key priority e
Step-any (claimed arrange now locked fault limit lease e) =
    claimed arrange now locked fault limit lease e
Step-any (completed format now fault r res m h may e) = completed format now fault r res m h tt e
Step-any (pruned now fault keep e) = pruned now fault keep e

pub Reach-append :
    {outside : Outside} {p q r : Queue}
    → Steps.Reach outside AnyId p q
    → Steps.Reach outside AnyId q r
    → Steps.Reach outside AnyId p r
Reach-append a Steps.here = a
Reach-append a (Steps.next b s) = Steps.next (Reach-append a b) s

count-queue : {Limit : Type 0} (v : Verdict) (t : Drain Limit) → (count v t).queue ≡ t.queue
count-queue delivered t = refl
count-queue dead t = refl
count-queue drop t = refl
count-queue retry t = refl

-- A worker's delivery is one that the table holds.
busy-IsHeld :
    {Limit : Type 0} (t : Drain Limit) (before : List Job) (j : Job) (after : List Job)
    → InFlight t
    → t.busy ≡ before ++ j ∷ after
    → IsHeld t.queue (delivery_of j)
busy-IsHeld t before j after f b =
    (All-jobs (IsHeld t.queue) before j after
      (subst (λ js. All (IsHeld t.queue) (map delivery_of js)) b f.busy)).0

after_attempt-queue :
    {Limit : Type 0} (c : Codec) (format : ℕ → Text) (outside : Outside) (Evicts : Type 0) (now : ℕ)
    (fault : Fault) (d : Delivery) (res : Result) (rest : List Job) (t : Drain Limit)
    → (after_attempt c format outside Evicts now fault d res rest t).queue
      ≡ (complete format now fault d res t.queue).0
unfolding after_attempt
after_attempt-queue c format outside Evicts now fault d res rest t = count-queue res.verdict _

module _ {Limit : Type 0} {c : Codec} {format : ℕ → Text} {outside : Outside}
    {Evicts : Type 0} where
  Turn-next :
      {p : Queue} {a b : Drain Limit}
      → InFlight a
      → Steps.Reach outside AnyId p a.queue
      → Turn c format outside Evicts a b
      → Steps.Reach outside AnyId p b.queue
  Turn-next f r (hand_over t d rest n w i) = r
  Turn-next f r (context_ends t) = r
  Turn-next f r (give_up t n e) = r
  Turn-next f r (sleeps t before d after now ended ask at b e) = r
  Turn-next f r (wait_fails t before d after now ended ask b e) = r
  Turn-next {p} f r (attempts t before at d after now fault reply b e) =
      let h = busy-IsHeld t before (asleep at d) after f b in
      subst (Steps.Reach outside AnyId p)
        (sym (
          after_attempt-queue c format outside Evicts now fault d (send c reply) (before ++ after)
            t))
        (Steps.next r (Step-any (IsHeld-Step outside format now fault t.queue d (send c reply) h)))
  Turn-next f r (others t q s) = Steps.next r (Step-any s)
  Turn-next f r (evicts t now e) = r

  -- From a state in which the table holds the deliveries of a drain, every history of the drain is,
  -- on the table, a history of the operations of the queue.
  pub Reach-Steps :
      {a b : Drain Limit}
      → InFlight a
      → Reach c format outside Evicts a b
      → Steps.Reach outside (λ k. Unit) a.queue b.queue
  Reach-Steps f (here t) = Steps.here
  Reach-Steps f (then_turn x y z r s) = Turn-next (Reach-InFlight r f) (Reach-Steps f r) s

settle-IsFinished :
    (now : ℕ) (d : Delivery) (res : Result) (r : Row)
    → res.verdict ≢ retry
    → (x : Verdict) → res.verdict ≡ x
    → IsFinished (settle now d res r).status
unfolding settle
settle-IsFinished now d res r v delivered h = rw h (inl refl)
settle-IsFinished now d res r v dead h = rw h (inr (inl refl))
settle-IsFinished now d res r v drop h = rw h (inr (inr refl))
settle-IsFinished now d res r v retry h = absurd (v h)

-- What an attempt that is not to be repeated leaves in the table.
settled-IsFinished :
    (format : ℕ → Text) (now : ℕ) (res : Result) (q : Queue) (d : Delivery)
    → IsHeld q d
    → res.verdict ≢ retry
    → (r : Row) × Member r (complete format now no_fault d res q).0.rows
      × IsFinished r.status
      × (r.id ≡ d.id)
unfolding complete
settled-IsFinished format now res q d (r, m, s, e) v = (
  settle now d res r,
  subst (λ x. Member x (update_where (λ x. x.id == d.id) (settle now d res) q.rows))
      (ap (λ b. if b then settle now d res r else r) mine)
      (Member-update_where (λ x. x.id == d.id) (settle now d res) q.rows r m),
  settle-IsFinished now d res r v res.verdict refl,
  settle-id now d res r ∙ same,
)
  where
    same : r.id ≡ d.id
    same = ap (λ (d : Delivery). d.id) e

    mine : (r.id == d.id) ≡ true
    mine = (==_iff r.id d.id).1 same

-- Take a claim on a valid table, whatever order it returns its rows in, and a drain of what it gave.
-- Once a worker has attempted a message with an outcome other than to retry it and could record this,
-- then whatever this drain, other processes and later claims, enqueues, completions and prunes do, no
-- claim at any time hands the message out again.
pub claim-attempt-claim :
    {Limit : Type 0} (c : Codec) (format : ℕ → Text) (outside : Outside) (Evicts : Type 0)
    (arrange : List Row → List Row) (start : ℕ) (locked : ℕ → Bool) (fault : Fault) (limit : ℤ)
    (lease workers : ℕ) (q : Queue) (ds : List Delivery) (k : Keyed Limit) (t u : Drain Limit)
    (before : List Job) (at : ℕ) (d : Delivery) (after : List Job) (now : ℕ) (reply : Reply)
    (q' : Queue)
    → IsRearrangement arrange
    → IsValid q
    → (claim arrange start locked fault limit lease q).1 ≡ ok ds
    → Reach c format outside Evicts
        (begin workers ds (claim arrange start locked fault limit lease q).0 k)
        t
    → t.busy ≡ before ++ asleep at d ∷ after
    → at ≤ now
    → (send c reply).verdict ≢ retry
    → Reach c format outside Evicts
        (after_attempt c format outside Evicts now no_fault d (send c reply) (before ++ after) t)
        u
    → Steps.Reach outside (λ k. Unit) u.queue q'
    → (now' lease' limit' : ℕ) (locked' : ℕ → Bool)
    → All (λ x. x.id ≢ d.id) (claim_rows now' locked' limit' lease' q'.rows).1
claim-attempt-claim c format outside Evicts arrange start locked fault limit lease workers q ds k t
      u before at d after now reply q' p v e h b l n g w now' lease' limit' locked' =
    let f =
      Reach-InFlight h
        (claim-InFlight outside arrange start locked fault limit lease workers q ds k p v e) in
    let held = busy-IsHeld t before (asleep at d) after f b in
    let turn : Turn c format outside Evicts t
        (after_attempt c format outside Evicts now no_fault d (send c reply) (before ++ after) t) =
      attempts t before at d after now no_fault reply b l in
    let f' = Turn-InFlight turn f in
    let (r, m, s, i) = settled-IsFinished format now (send c reply) t.queue d held n in
    let same =
      after_attempt-queue c format outside Evicts now no_fault d (send c reply) (before ++ after)
        t in
    All-map (λ x ne o. ne (o ∙ sym i)) _
      ((finished-claim outside r f'.valid (subst (λ (q : Queue). Member r q.rows) (sym same) m) s
          (Reach-append (Reach-Steps f' g) w)).1
        now' lease' limit' locked')
