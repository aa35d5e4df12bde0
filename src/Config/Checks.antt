-- ===== src/Config/Checks.antt =====
-- internal/config/config.go: which settings Load lets through.
use anvil_forge.Prelude.{
  Bool, arith, false, if_cases, inl, inr, lebℤ, ltbℤ, not, pos, refl, subst, true, ◌&&◌, ◌≡◌, ◌⊎◌,
}
use anvil_forge.Config.{
  Environment, Config, Loaded, loaded, rejected, minute, is_unset, read, check, load,
}

-- What the rest of the program may rely on.
pub record IsValid (e : Environment) (c : Config e.Float) : Type 0 where
  pub some_subsystem :
      (c.enable_sweep ≡ true) ⊎ ((c.enable_edge ≡ true) ⊎ (c.enable_discord ≡ true))
  pub has_database : is_unset c.database_url ≡ false
  -- NaN is not at most zero either.
  pub has_rate : e.is_at_most_zero c.hiscores_rps ≡ false
  pub has_workers : lebℤ (pos 1) c.workers ≡ true
  pub long_lease : lebℤ (pos minute) c.claim_lease ≡ true

subsystems :
    (a b c : Bool) → not a && (not b && not c) ≡ false → (a ≡ true) ⊎ ((b ≡ true) ⊎ (c ≡ true))
subsystems true b c h = inl refl
subsystems false true c h = inr (inl refl)
subsystems false false true h = inr (inr refl)
subsystems false false false h = absurd (ground (arith, h))

none_enabled :
    (a b c : Bool) → (a ≡ true) ⊎ ((b ≡ true) ⊎ (c ≡ true)) → not a && (not b && not c) ≡ false
none_enabled a b c (inl h) = ground arith
none_enabled a b c (inr (inl h)) = ground arith
none_enabled a b c (inr (inr h)) = ground arith

false_of_not : (b : Bool) → not b ≡ false → b ≡ true
false_of_not true h = refl
false_of_not false h = absurd (ground (arith, h))

true_of_not : (b : Bool) → not b ≡ true → b ≡ false
true_of_not false h = refl
true_of_not true h = absurd (ground (arith, h))

clash : {b : Bool} → b ≡ true → b ≡ false → ⊥
clash {b} h k = ground (arith, h, k)

module _ (e : Environment) where
  -- What a loaded configuration is, and nothing for a rejected one.
  abbrev IsLoaded : Config e.Float → Loaded e.Float → Type 0
  IsLoaded c (loaded d) = (d ≡ c) × IsValid e d
  IsLoaded c (rejected m) = IsValid e c → ⊥

  check-IsLoaded : (c : Config e.Float) → IsLoaded c (check e c)
  unfolding check
  check-IsLoaded c =
      if_cases (IsLoaded c) (not c.enable_sweep && (not c.enable_edge && not c.enable_discord)) _ _
        (λ h v.
          clash h (none_enabled c.enable_sweep c.enable_edge c.enable_discord v.some_subsystem))
        (λ h1.
          if_cases (IsLoaded c) (is_unset c.database_url) _ _ (λ h v. clash h v.has_database)
            (λ h2.
              if_cases (IsLoaded c) (e.is_at_most_zero c.hiscores_rps) _ _
                (λ h v. clash h v.has_rate)
                (λ h3.
                  if_cases (IsLoaded c) (ltbℤ c.workers (pos 1)) _ _
                    (λ h v. clash v.has_workers (true_of_not _ h))
                    (λ h4.
                      if_cases (IsLoaded c) (ltbℤ c.claim_lease (pos minute)) _ _
                        (λ h v. clash v.long_lease (true_of_not _ h))
                        (λ h5. (
                          refl,
                          record {
                            some_subsystem =
                                subsystems c.enable_sweep c.enable_edge c.enable_discord h1;
                            has_database = h2;
                            has_rate = h3;
                            has_workers = false_of_not _ h4;
                            long_lease = false_of_not _ h5;
                          },
                        ))))))

-- A configuration that is loaded passes the checks.
pub load-IsValid : (e : Environment) (c : Config e.Float) → load e ≡ loaded c → IsValid e c
unfolding load
load-IsValid e c h = let (same, v) = subst (IsLoaded e (read e)) h (check-IsLoaded e (read e)) in v
