-- ===== src/Discord/Worker/Pacing.antt =====
-- internal/discord/worker.go: what a wait that Discord asks for does to the messages of the webhook
-- that come after it.
use anvil_forge.Prelude.{
  All, All-Member, All-join, All-map, All-split, List, Member, Option, Text, ap, arith, eq_text,
  eq_text_refl, inl, inr, is_positive, none, refl, subst, sym, to_ℕ, true, ℕ, ◌++◌, ◌+◌, ◌∙◌, ◌∷◌,
  ◌≡◌, ◌≤◌, ◌⊎◌,
}
use anvil_forge.Discord.Sender.{Codec, Reply, Verdict, delivered, retry, dead, drop, Result, send}
use anvil_forge.Discord.Rows.{Outside, Delivery, Fault}
use anvil_forge.Ratelimit.{wait, asked}
use anvil_forge.Ratelimit.Holds.{deadline, deadline-reserve_for, deadline-wait, wait-deadline}
use anvil_forge.Discord.Worker.{
  Job, held, asleep, Drain, count, after_attempt, Turn, hand_over, context_ends, give_up, sleeps,
  wait_fails, attempts, others, evicts, Reach, here, then_turn,
}

-- A message of the webhook is let through no sooner than the end of the hold, or is one of `before`.
abbrev pub IsPaced : Text → ℕ → List Job → Job → Type 0
IsPaced bucket until before (held d) = Unit
IsPaced bucket until before (asleep at d) =
    Member (asleep at d) before ⊎ (d.bucket ≡ bucket → until ≤ at)

module _ {Limit : Type 0} (bucket : Text) (until : ℕ) (early : List Job) where
  record Holds (t : Drain Limit) : Type 0 where
    off : until ≤ deadline t.limiter bucket
    paced : All (IsPaced bucket until early) t.busy

  count-Holds : (v : Verdict) (t : Drain Limit) → Holds t → Holds (count v t)
  count-Holds delivered t h = record { off = h.off; paced = h.paced }
  count-Holds dead t h = record { off = h.off; paced = h.paced }
  count-Holds drop t h = record { off = h.off; paced = h.paced }
  count-Holds retry t h = record { off = h.off; paced = h.paced }

  sleeps-Holds :
      (t : Drain Limit) (before : List Job) (d : Delivery) (after : List Job) (now : ℕ)
      (ended : Option Text) (ask : ℕ → ℕ → Option Text) (at : ℕ)
      → t.busy ≡ before ++ held d ∷ after
      → (wait now d.bucket ended ask t.limiter).1 ≡ asked at none
      → Holds t
      → All (IsPaced bucket until early) (before ++ asleep at d ∷ after)
  sleeps-Holds t before d after now ended ask at b e h =
      All-join (IsPaced bucket until early) before (asleep at d) after
        (inr (λ s. omega (
          arith,
          h.off,
          wait-deadline now d.bucket ended ask t.limiter at none e,
          ap (deadline t.limiter) s,
        )))
        (All-split (IsPaced bucket until early) before (held d) after
          (subst (All (IsPaced bucket until early)) b h.paced)).1

  module _ {c : Codec} {format : ℕ → Text} {outside : Outside} where
    Turn-Holds : {a b : Drain Limit} → Turn c format outside ⊥ a b → Holds a → Holds b
    unfolding after_attempt
    Turn-Holds (hand_over t d rest n w i) h = record { off = h.off; paced = (tt, h.paced) }
    Turn-Holds (context_ends t) h = record { off = h.off; paced = h.paced }
    Turn-Holds (give_up t n e) h = record { off = h.off; paced = h.paced }
    Turn-Holds (sleeps t before d after now ended ask at b e) h = record {
      off = omega (arith, h.off, deadline-wait now d.bucket ended ask t.limiter bucket);
      paced = sleeps-Holds t before d after now ended ask at b e h;
    }
    Turn-Holds (wait_fails t before d after now ended ask b e) h = record {
      off = omega (arith, h.off, deadline-wait now d.bucket ended ask t.limiter bucket);
      paced =
          (All-split (IsPaced bucket until early) before (held d) after
            (subst (All (IsPaced bucket until early)) b h.paced)).1;
    }
    Turn-Holds (attempts t before at d after now fault reply b e) h =
        count-Holds (send c reply).verdict _ (record {
          off = ground (
            arith,
            h.off,
            deadline-reserve_for now d.bucket (send c reply).retry_after t.limiter bucket,
          );
          paced =
              (All-split (IsPaced bucket until early) before (asleep at d) after
                (subst (All (IsPaced bucket until early)) b h.paced)).1;
        })
    Turn-Holds (others t q s) h = record { off = h.off; paced = h.paced }
    Turn-Holds (evicts t now e) h = absurd e

    Reach-Holds : {a b : Drain Limit} → Reach c format outside ⊥ a b → Holds a → Holds b
    Reach-Holds (here t) h = h
    Reach-Holds (then_turn x y z r s) h = Turn-Holds s (Reach-Holds r h)

  after_attempt-Holds :
      (c : Codec) (format : ℕ → Text) (outside : Outside) (Evicts : Type 0) (now : ℕ)
      (fault : Fault) (d : Delivery) (res : Result) (rest : List Job) (t : Drain Limit)
      → d.bucket ≡ bucket
      → until ≡ now + to_ℕ res.retry_after
      → is_positive res.retry_after ≡ true
      → All (IsPaced bucket until early) rest
      → Holds (after_attempt c format outside Evicts now fault d res rest t)
  unfolding after_attempt
  after_attempt-Holds c format outside Evicts now fault d res rest t s u p h =
      count-Holds res.verdict _ (record {
        off = rw p (
            ground (
              arith,
              deadline-reserve_for now d.bucket res.retry_after t.limiter bucket,
              u,
              p,
              ap (eq_text d.bucket) (sym s) ∙ eq_text_refl d.bucket,
            ));
        paced = h;
      })

-- A call of Wait that came before is among `before`.
early-IsPaced :
    (bucket : Text) (until : ℕ) (j : Job) (jobs : List Job)
    → Member j jobs
    → IsPaced bucket until jobs j
early-IsPaced bucket until (held d) jobs m = tt
early-IsPaced bucket until (asleep at d) jobs m = inl m

-- When Discord answers an attempt with a wait, then at every later moment of a drain without an
-- eviction of buckets, each message of that webhook for which a worker has called Limiter.Wait and
-- not been refused is let through no sooner than the end of that wait, but for those whose call of
-- Limiter.Wait came before the answer, which may be asleep in it.
pub attempt-IsPaced :
    {Limit : Type 0} (c : Codec) (format : ℕ → Text) (outside : Outside) (t u : Drain Limit)
    (rest : List Job) (d : Delivery) (now : ℕ) (fault : Fault) (reply : Reply)
    → is_positive (send c reply).retry_after ≡ true
    → Reach c format outside ⊥
        (after_attempt c format outside ⊥ now fault d (send c reply) rest t)
        u
    → All (IsPaced d.bucket (now + to_ℕ (send c reply).retry_after) rest) u.busy
attempt-IsPaced c format outside t u rest d now fault reply p h =
    let until = now + to_ℕ (send c reply).retry_after in
    (Reach-Holds d.bucket until rest h (
      after_attempt-Holds d.bucket until rest c format outside ⊥ now fault d (send c reply) rest t
        refl refl p
        (All-map (λ j m. early-IsPaced d.bucket until j rest m) rest (All-Member rest)))).paced
