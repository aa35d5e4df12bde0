-- ===== src/Sweep/Stalls.antt =====
-- internal/sweep/runner.go: a tick that cannot go on.
use anvil_forge.Prelude.{
  List, Text, [], ap, arith, false, length, refl, suc, sym, zero, ℕ, ◌++◌, ◌<◌, ◌∙◌, ◌∷◌, ◌≡◌,
}
use anvil_forge.Store.{Request, Store}
use anvil_forge.Hiscores.Client.{Error}
use anvil_forge.Sweep.{
  Tick, begin, Step, hand_over, context_ends, give_up, wait_fails, fetch_cancelled, completes,
  others, Reach, here, then_step,
}

module _ (format : ℕ → Text) (error_text : Error → Text) where
  -- What is left to happen is the end of the context, and what others do to the store.
  abbrev pub IsStalled : Tick → Type 0
  IsStalled t =
      (t' : Tick)
      → Step format error_text t t'
      → t' ≡ record t { ended = t'.ended; store = t'.store }

  -- Claims wait, the context goes on, and no worker is left to take them.
  abbrev pub IsDeserted : Tick → Type 0
  IsDeserted t = (0 < length t.waiting) × (t.ended ≡ false) × (t.busy ≡ []) × (t.idle ≡ 0)

  no_split :
      (before : List Request) (req : Request) (after : List Request)
      → [] ≡ before ++ req ∷ after
      → ⊥
  no_split [] req after e = ground arith
  no_split (x ∷ before) req after e = ground arith

  deserted-IsStalled : (t : Tick) → IsDeserted t → IsStalled t
  deserted-IsStalled t d t' (hand_over u req rest n e i) = absurd (omega (arith, d.3, i))
  deserted-IsStalled t d t' (context_ends u) = refl
  deserted-IsStalled t d t' (give_up u n e) = absurd (ground (arith, d.1))
  deserted-IsStalled t d t' (wait_fails u before req after e) =
      absurd (no_split before req after (sym d.2 ∙ e))
  deserted-IsStalled t d t' (fetch_cancelled u before req after e h) =
      absurd (no_split before req after (sym d.2 ∙ e))
  deserted-IsStalled t d t' (others u s h) = refl
  deserted-IsStalled t d t' (completes u before req after now fault res e h) =
      absurd (no_split before req after (sym d.2 ∙ e))

  -- Each worker takes a claim and is gone with it.
  desert :
      (n : ℕ) (a t : Tick) (w : List Request)
      → t.waiting ≡ w
      → Reach format error_text a t
      → t.idle ≡ n
      → n < length w
      → t.ended ≡ false
      → t.busy ≡ []
      → (t' : Tick) × Reach format error_text a t' × IsDeserted t'
  desert zero a t w q r i l e b = (t, r, (omega (arith, l, ap length q), e, b, i))
  desert (suc n) a t [] q r i l e b = absurd (omega (arith, l))
  desert (suc n) a t (req ∷ rest) q r i l e b =
      let taken = record t { waiting = rest; busy = req ∷ t.busy; idle = n } in
      let gone = record taken { busy = t.busy; left = req ∷ t.left } in
      desert n a gone rest refl
        (then_step a taken gone (then_step a t taken r (hand_over t req rest n q i))
          (wait_fails taken [] req t.busy refl))
        refl (omega (arith, l)) e b

-- A tick with fewer workers than claims can come, without the end of its context, to a point where
-- claims wait, no worker is left, and each step only ends the context or is one of others on the
-- store: when the limiter refuses each worker its first request, the tick hangs and hands over no
-- further claim.
pub begin-IsStalled :
    (format : ℕ → Text) (error_text : Error → Text) (workers : ℕ) (claims : List Request)
    (s : Store)
    → workers < length claims
    → (t : Tick) × Reach format error_text (begin workers claims s) t
      × IsDeserted format error_text t
      × IsStalled format error_text t
begin-IsStalled format error_text workers claims s l =
    let (t, r, d) =
      desert format error_text workers (begin workers claims s) (begin workers claims s) claims refl
        (here (begin workers claims s)) refl l refl refl in
    (t, r, d, deserted-IsStalled format error_text t d)
