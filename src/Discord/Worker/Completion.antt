-- ===== src/Discord/Worker/Completion.antt =====
-- internal/discord/worker.go: how a drain comes to its end.
use anvil_forge.Prelude.{
  Bool-cases, ltb, List, Option, Text, [], ap, arith, inl, inr, length, none, some, refl, suc, true,
  zero, ℕ, ◌*◌, ◌++◌, ◌<◌, ◌∷◌, ◌≡◌, ◌≢◌, ◌≤◌, ◌⊎◌,
}
use anvil_forge.Discord.Sender.{Codec, no_response, Reply, send}
use anvil_forge.Discord.Rows.{Outside, Queue, Delivery, Fault, no_fault}
use anvil_forge.Ratelimit.{Keyed, Waited, wait, asked, interrupted}
use anvil_forge.Pool.{is_turn}
use anvil_forge.Discord.Worker.{
  Job, held, asleep, Drain, begin, after_attempt, Turn, hand_over, sleeps, wait_fails, attempts,
  Reach,
}
use anvil_forge.Discord.Worker.Moves.{Turn-Move}
use anvil_forge.Discord.Worker.Accounts.{Reach-IsBalanced, moves}

idle_suc : (n : ℕ) → 0 < n → (k : ℕ) × (n ≡ suc k)
idle_suc zero h = absurd (omega (arith, h))
idle_suc (suc k) h = (k, refl)

-- A wait lets through at some time, or it does not.
wait-cases : (w : Waited) → ((at : ℕ) × (w ≡ asked at none)) ⊎ ((at : ℕ) → w ≢ asked at none)
wait-cases (interrupted e) = inr (λ at z. absurd (ground (arith, z)))
wait-cases (asked at none) = inl (at, refl)
wait-cases (asked at (some e)) = inr (λ at' z. absurd (ground (arith, z)))

module _ {Limit : Type 0} (c : Codec) (format : ℕ → Text) (outside : Outside)
    (Evicts : Type 0) where
  -- The drain itself takes a turn: it hands over, or one of its workers goes on.
  abbrev pub Takes : Drain Limit → Drain Limit → Type 0
  Takes t u = (s : Turn c format outside Evicts t u) × (is_turn (Turn-Move s) ≡ true)

  -- Whatever the limiter and Discord answer, and whenever, each busy worker can go on; and while nobody
  -- is busy, the next delivery can be handed over, unless all workers are gone.
  pub record IsLive (workers : ℕ) (t : Drain Limit) : Type 0 where
    pub calls :
        (before : List Job) (d : Delivery) (after : List Job) (now : ℕ) (ended : Option Text)
        (ask : ℕ → ℕ → Option Text)
        → t.busy ≡ before ++ held d ∷ after
        → (u : Drain Limit) × Takes t u
          × (u.limiter ≡ (wait now d.bucket ended ask t.limiter).0)
          × (((at : ℕ) × (u.busy ≡ before ++ asleep at d ∷ after)) ⊎ (u.busy ≡ before ++ after))
    pub tries :
        (before : List Job) (at : ℕ) (d : Delivery) (after : List Job) (now : ℕ) (fault : Fault)
        (reply : Reply)
        → t.busy ≡ before ++ asleep at d ∷ after
        → at ≤ now
        → Takes t
            (after_attempt c format outside Evicts now fault d (send c reply) (before ++ after) t)
    pub hands_over :
        (d : Delivery) (rest : List Delivery)
        → t.busy ≡ []
        → t.waiting ≡ d ∷ rest
        → length t.left < workers
        → (u : Drain Limit) × Takes t u × (u.waiting ≡ rest) × (u.busy ≡ held d ∷ [])

  -- Where the drain itself cannot take a turn.
  abbrev pub Rests : Drain Limit → Type 0
  Rests t = (u : Drain Limit) → Takes t u → ⊥

  IsLive-Rests :
      (workers : ℕ) (t : Drain Limit) (busy : List Job) (waiting : List Delivery)
      → t.busy ≡ busy
      → t.waiting ≡ waiting
      → IsLive workers t
      → Rests t
      → (t.busy ≡ []) × ((t.waiting ≡ []) ⊎ (workers ≤ length t.left))
  IsLive-Rests workers t (held d ∷ after) waiting b w live rests =
      let turn = live.calls [] d after 0 none (λ n now. none) b in absurd (rests turn.0 turn.1)
  IsLive-Rests workers t (asleep at d ∷ after) waiting b w live rests =
      absurd (rests _ (live.tries [] at d after at no_fault (no_response []) b (omega arith)))
  IsLive-Rests workers t [] [] b w live rests = (b, inl w)
  IsLive-Rests workers t [] (d ∷ rest) b w live rests = (
    b,
    inr (elim (Bool-cases (ltb (length t.left) workers)) [
      | inl l ↦ let turn = live.hands_over d rest b w (ground arith) in absurd (rests turn.0 turn.1)
      | inr l ↦ ground arith
    ]),
  )

  -- A drain takes at most three turns of its own for each delivery. At every moment, whatever the
  -- limiter, Discord and the statement of Complete answer, each worker that has a delivery can call
  -- Limiter.Wait for it, or attempt it from the end of its sleep on; and while no worker is busy, fewer
  -- deliveries are left behind than there are workers, and one waits, the next one can be handed over.
  -- So where it cannot take a turn of its own, no worker is busy, and either nothing waits or at least
  -- as many deliveries are left behind as there are workers.
  pub Reach-IsLive :
      (workers : ℕ) (claims : List Delivery) (q : Queue) (k : Keyed Limit) (t : Drain Limit)
      (r : Reach c format outside Evicts (begin workers claims q k) t)
      → (moves r ≤ 3 * length claims)
        × IsLive workers t
        × (Rests t → (t.busy ≡ []) × ((t.waiting ≡ []) ⊎ (workers ≤ length t.left)))
  unfolding Turn-Move
  Reach-IsLive workers claims q k t r =
      let (balanced, bound) = Reach-IsBalanced c format outside Evicts workers claims q k t r in
      let live : IsLive workers t = record {
        calls = λ before d after now ended ask b.
            elim (wait-cases (wait now d.bucket ended ask t.limiter).1) [
              | inl (at, e) ↦
                  (_, (sleeps t before d after now ended ask at b e, refl), refl, inl (at, refl))
              | inr no_time ↦
                  (_, (wait_fails t before d after now ended ask b no_time, refl), refl, inr refl)
            ];
        tries = λ before at d after now fault reply b late.
            (attempts t before at d after now fault reply b late, refl);
        hands_over = λ d rest b w l.
            let (n, i) = idle_suc t.idle (omega (arith, balanced.shared.staffed, ap length b, l)) in
            (_, (hand_over t d rest n w i, refl), refl, ap (λ js. held d ∷ js) b);
      } in
      (bound, live, IsLive-Rests workers t t.busy t.waiting refl refl live)
