-- ===== src/Sweep/Run/Stores.antt =====
-- internal/sweep/runner.go: a run of the sweep, as a history of the store.
use anvil_forge.Prelude.{Option, Text, refl, subst, sym, ℕ, ◌∷◌, ◌≡◌}
use anvil_forge.Store.{Store, backlog}
use anvil_forge.Store.Steps.{claimed, completed, recorded}
use anvil_forge.Store.Steps
use anvil_forge.Hiscores.Client.{
  Error, Outcome, outcome_ok, outcome_unranked, outcome_transient, outcome_text,
}
use anvil_forge.Sweep.{
  Tick, count, err_text, finish, Step, hand_over, context_ends, give_up, wait_fails,
  fetch_cancelled, completes, others, Reach, here, then_step, run_stats,
}
use anvil_forge.Sweep.Run.{
  Runner, Sweeper, conclude, or_zero, Ticks, claim_fails, claims_none, concludes, is_cancelled,
  Runs, ticks, wakes, stops, elsewhere, History,
}
use anvil_forge.Sweep.Run

count-store : (o : Outcome) (t : Tick) → (count o t).store ≡ t.store
count-store outcome_ok t = refl
count-store outcome_unranked t = refl
count-store outcome_transient t = refl

module _ {format : ℕ → Text} {error_text : Error → Text} where
  Step-next :
      {s : Store} {a b : Tick}
      → Steps.Reach s a.store
      → Step format error_text a b
      → Steps.Reach s b.store
  unfolding finish
  Step-next r (hand_over t req rest n w i) = r
  Step-next r (context_ends t) = r
  Step-next r (give_up t n e) = r
  Step-next r (wait_fails t before req after b) = r
  Step-next r (fetch_cancelled t before req after b e) = r
  Step-next {s} r (completes t before req after now fault res b e) =
      subst (Steps.Reach s) (sym (count-store res.outcome _)) (
        Steps.next r (
          completed format now fault req.id (outcome_text res.outcome) res.body
            (err_text format error_text res.err) refl))
  Step-next r (others t s x) = Steps.next r x

  Reach-next :
      {s : Store} {a b : Tick}
      → Steps.Reach s a.store
      → Reach format error_text a b
      → Steps.Reach s b.store
  Reach-next r (here t) = r
  Reach-next r (then_step x y z q s) = Step-next (Reach-next r q) s

  module _ {r : Runner} where
    Ticks-Steps :
        {s s' : Store} {n : ℕ} {e : Option Text}
        → Ticks format error_text r s s' n e
        → Steps.Reach s s'
    unfolding conclude
    Ticks-Steps (claim_fails now locked fault e h) =
        Steps.next Steps.here (claimed now locked fault r.claim_batch r.claim_lease refl)
    Ticks-Steps (claims_none now locked fault h) =
        Steps.next Steps.here (claimed now locked fault r.claim_batch r.claim_lease refl)
    Ticks-Steps (concludes started locked fault req rest t now reading recording h q w b g) =
        Steps.next
          (Reach-next
            (Steps.next Steps.here (claimed started locked fault r.claim_batch r.claim_lease refl))
            q)
          (recorded now recording started
            (run_stats (or_zero (backlog reading t.store)) (req ∷ rest) t) refl)
    Ticks-Steps (is_cancelled started locked fault req rest t h q b g) =
        Reach-next
          (Steps.next Steps.here (claimed started locked fault r.claim_batch r.claim_lease refl)) q

    Runs-next :
        {s : Store} {p p' : Sweeper}
        → Steps.Reach s p.store
        → Runs format error_text r p p'
        → Steps.Reach s p'.store
    Runs-next q (ticks s n e i t) = Steps.Reach-append q (Ticks-Steps t)
    Runs-next q (wakes i) = q
    Runs-next q (stops i) = q
    Runs-next q (elsewhere s x) = Steps.next q x

    -- Whatever a runner does through all its ticks, with whatever else happens to the store, is a
    -- history of the operations of the store.
    History-Reach :
        {p p' : Sweeper} → History format error_text r p p' → Steps.Reach p.store p'.store
    History-Reach (Run.here p) = Steps.here
    History-Reach (Run.next a b c h s) = Runs-next (History-Reach h) s
