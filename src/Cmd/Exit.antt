-- ===== src/Cmd/Exit.antt =====
-- cmd/forge/main.go: what the command starts, and the exit status it ends with.
use anvil_forge.Prelude.{
  All, All-append, Bool, List, Text, [], ap, arith, false, if◌then◌else◌, inl, inr, lebℤ, length,
  length-append, negsuc, pos, refl, subst, sym, to_ℕ, true, ℕ, ℤ, ◌++◌, ◌↔◌, ◌∙◌, ◌∷◌, ◌≡◌, ◌≤◌,
  ◌⊎◌,
}
use anvil_forge.Config.{Environment, Config, Loaded, loaded, rejected, load, minute}
use anvil_forge.Config.Checks.{IsValid, load-IsValid}
use anvil_forge.Store.Open.{Failure, Driver, Opened, opened, not_opened, open_store}
use anvil_forge.Ratelimit.{new_keyed}
use anvil_forge.Cmd.{
  returned, Service, sweeps, delivers, reports, services, runner_of, worker_of, webhook_burst,
  bucket_ttl, Got, served_until, run, after_load, after_open, exit_status, main, Ending, by_signal,
  by_panic, probes_itself, Ran,
}

le-to_ℕ : (n : ℕ) (z : ℤ) → lebℤ (pos n) z ≡ true → n ≤ to_ℕ z
le-to_ℕ n (pos m) h = ground (arith, h)
le-to_ℕ n (negsuc m) h = ground (arith, h)

All-if : {A : Type 0} (P : A → Type 0) (b : Bool) (x : A) → P x → All P (if b then x ∷ [] else [])
All-if P true x p = (p, tt)
All-if P false x p = tt

length-if :
    {A : Type 0} (b : Bool) (x : A) → length (if b then x ∷ [] else []) ≡ (if b then 1 else 0)
length-if true x = refl
length-if false x = refl

served-not_one :
    {Float : Type 0} (ss : List (Service Float)) (ending : Ending)
    → exit_status ending (served_until ss) ≡ 1
    → ⊥
served-not_one ss by_signal z = omega (arith, z)
served-not_one ss by_panic z = omega (arith, z)

module _ (e : Environment) (webhook_rate : e.Float) (driver : Driver) where
  -- The command stops before it starts anything, with an error that is none of a signal.
  abbrev pub Refuses : Type 0
  Refuses =
      ((t : Text) × (load e ≡ rejected t))
      ⊎ ((c : Config e.Float) × (f : Failure) × (load e ≡ loaded c)
          × (open_store driver c.database_url c.dry_run ≡ not_opened f)
          × (f.is_canceled ≡ false))

  opened-status :
      (ending : Ending) (c : Config e.Float) (o : Opened)
      → load e ≡ loaded c
      → open_store driver c.database_url c.dry_run ≡ o
      → (exit_status ending (after_open e webhook_rate driver c o) ≡ 1) ↔ Refuses
  opened-status ending c (opened p d) h k =
      ((λ z. absurd (served-not_one (services webhook_rate c) ending z)), λ r. absurd (never r))
    where
      never : Refuses → ⊥
      never (inl (t, x)) = ground (arith, sym h ∙ x)
      never (inr (c', f, x, y, z)) =
          let same : c ≡ c' = cc in
          ground (
            arith,
            sym k
                ∙ ap (λ (c : Config e.Float). open_store driver c.database_url c.dry_run) same
                ∙ y,
          )
  opened-status ending c (not_opened f) h k =
      ((λ z. inr (c, f, h, k, ground (arith, z))), λ r. ground (arith, canceled r))
    where
      canceled : Refuses → f.is_canceled ≡ false
      canceled (inl (t, x)) = absurd (ground (arith, sym h ∙ x))
      canceled (inr (c', f', x, y, z)) =
          let same : c ≡ c' = cc in
          let both =
            sym k
            ∙ ap (λ (c : Config e.Float). open_store driver c.database_url c.dry_run) same
            ∙ y in
          let failure : f ≡ f' = cc in ap (λ (f : Failure). f.is_canceled) failure ∙ z

  loaded-status :
      (ending : Ending) (l : Loaded e.Float)
      → load e ≡ l
      → (exit_status ending (after_load e webhook_rate driver l) ≡ 1) ↔ Refuses
  loaded-status ending (rejected t) h = ((λ z. inl (t, h)), λ r. refl)
  loaded-status ending (loaded c) h =
      opened-status ending c (open_store driver c.database_url c.dry_run) h refl

  -- Status 2 is the one of a panic.
  served-status :
      (ending : Ending) (r : Ran e.Float)
      → (exit_status ending r ≡ 2)
        ↔ ((ss : List (Service e.Float)) × (r ≡ served_until ss) × (ending ≡ by_panic))
  served-status ending (returned f) =
      ((λ z. absurd (ground (arith, z))), λ (ss, h, k). absurd (ground (arith, h)))
  served-status by_signal (served_until ss) =
      ((λ z. absurd (omega (arith, z))), λ (x, h, k). absurd (ground (arith, k)))
  served-status by_panic (served_until ss) = ((λ z. (ss, refl, refl)), λ (x, h, k). refl)

  exit_status-le : (ending : Ending) (r : Ran e.Float) → exit_status ending r ≤ 2
  exit_status-le ending (returned f) = ground arith
  exit_status-le by_signal (served_until ss) = omega arith
  exit_status-le by_panic (served_until ss) = omega arith

  -- The command, when it is not asked to probe itself, ends with status 1 exactly if the settings are
  -- rejected or the database cannot be opened for another reason than a signal; with 2 exactly if it
  -- has started its services and one of them panics; and with 0 otherwise.
  pub main-status_iff :
      (get : Text → Got) (ending : Ending) (args : List Text)
      → probes_itself args ≡ false
      → ((main e webhook_rate driver get ending args ≡ 1) ↔ Refuses)
        × ((main e webhook_rate driver get ending args ≡ 2) ↔ (
            (ss : List (Service e.Float)) × (run e webhook_rate driver ≡ served_until ss)
            × (ending ≡ by_panic)))
        × (main e webhook_rate driver get ending args ≤ 2)
  unfolding main run
  main-status_iff get ending args h = rw h (
    loaded-status ending (load e) refl,
    served-status ending (after_load e webhook_rate driver (load e)),
    exit_status-le ending (after_load e webhook_rate driver (load e)),
  )

  served-loaded :
      (l : Loaded e.Float) (ss : List (Service e.Float))
      → after_load e webhook_rate driver l ≡ served_until ss
      → (c : Config e.Float) × (l ≡ loaded c) × (ss ≡ services webhook_rate c)
  served-loaded (rejected t) ss h = absurd (ground (arith, h))
  served-loaded (loaded c) ss h = (c, refl, of (open_store driver c.database_url c.dry_run) h)
    where
      of :
          (o : Opened)
          → after_open e webhook_rate driver c o ≡ served_until ss
          → ss ≡ services webhook_rate c
      of (opened p d) h = cc
      of (not_opened f) h = absurd (ground (arith, h))

  -- What a service was promised by the checks of the settings.
  abbrev pub IsSafe : Service e.Float → Type 0
  IsSafe (sweeps agent rate burst r) =
      (e.is_at_most_zero rate ≡ false) × (1 ≤ to_ℕ r.workers) × (minute ≤ r.claim_lease)
  IsSafe (delivers agent limiter w) = Unit
  IsSafe reports = Unit

  services-IsSafe :
      (c : Config e.Float)
      → IsValid e c
      → (1 ≤ length (services webhook_rate c)) × All IsSafe (services webhook_rate c)
  unfolding services
  services-IsSafe c v = (
    ground (
      arith,
      length-if c.enable_sweep (sweeps c.user_agent c.hiscores_rps c.hiscores_burst (runner_of c)),
      length-if c.enable_discord
          (delivers c.user_agent (new_keyed webhook_rate webhook_burst bucket_ttl) (worker_of c)),
      length-if c.enable_edge reports,
      length-append
          (if c.enable_sweep
            then sweeps c.user_agent c.hiscores_rps c.hiscores_burst (runner_of c) ∷ []
            else [])
          (beside c),
      length-append
          (if c.enable_discord
            then delivers c.user_agent (new_keyed webhook_rate webhook_burst bucket_ttl)
                (worker_of c)
              ∷ []
            else [])
          (if c.enable_edge then reports ∷ [] else []),
      v.some_subsystem,
    ),
    All-append IsSafe _ _
        (All-if IsSafe c.enable_sweep _ (
          v.has_rate,
          le-to_ℕ 1 c.workers v.has_workers,
          le-to_ℕ minute c.claim_lease v.long_lease,
        ))
        (All-append IsSafe _ _ (All-if IsSafe c.enable_discord _ tt)
          (All-if IsSafe c.enable_edge reports tt)),
  )
    where
      beside : Config e.Float → List (Service e.Float)
      beside c =
          (if c.enable_discord
            then delivers c.user_agent (new_keyed webhook_rate webhook_burst bucket_ttl)
                (worker_of c)
              ∷ []
            else [])
          ++ (if c.enable_edge then reports ∷ [] else [])

  -- A command that starts serving has at least one service, and its sweep, if it is one of them, has
  -- a rate that is not at most zero, at least one worker, and a lease of at least a minute.
  pub run-IsSafe :
      (ss : List (Service e.Float))
      → run e webhook_rate driver ≡ served_until ss
      → (1 ≤ length ss) × All IsSafe ss
  unfolding run
  run-IsSafe ss h =
      let (c, l, s) = served-loaded (load e) ss h in
      subst (λ ss. (1 ≤ length ss) × All IsSafe ss) (sym s) (services-IsSafe c (load-IsValid e c l))
