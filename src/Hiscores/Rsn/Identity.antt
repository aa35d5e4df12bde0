-- ===== src/Hiscores/Rsn/Identity.antt =====
-- internal/hiscores/rsn.go: which names have the same key.
use anvil_forge.Prelude.{
  Bool, Bool-cases, List, Text, [], ap, arith, false, inl, inr, map, refl, true, ℕ, ◌&&◌, ◌++◌, ◌∙◌,
  ◌∷◌, ◌≡◌,
}
use anvil_forge.Hiscores.Rsn.{
  is_space, is_separator, trim_left, trim_right, trim_space, is_empty, normalize_rsn,
}
use anvil_forge.Hiscores.Rsn.Words.{flush, words_from, words, unwords, trim_space-collapse}

space-is_separator : (c : ℕ) → is_space c ≡ true → is_separator c ≡ true
unfolding is_separator
space-is_separator c h = ground arith

pub append_nil {ℓ} : {A : Type ℓ} (ws : List A) → ws ++ [] ≡ ws
append_nil [] = refl
append_nil (w ∷ ws) = ap (λ r. w ∷ r) (append_nil ws)

both_left : (a b : Bool) → a && b ≡ true → a ≡ true
both_left a b h = ground arith

both_right : (a b : Bool) → a && b ≡ true → b ≡ true
both_right a b h = ground arith

empty_of : (s : Text) → is_empty s ≡ true → s ≡ []
empty_of [] h = refl
empty_of (c ∷ s) h = ground arith

module _ (lower : ℕ → ℕ) (keeps : (c : ℕ) → is_space c ≡ true → is_space (lower c) ≡ true) where
  lower-space : (c : ℕ) → is_space c ≡ true → is_separator (lower c) ≡ true
  lower-space c h = space-is_separator (lower c) (keeps c h)

  words-trim_left :
      (s : Text) → words is_separator (map lower (trim_left s)) ≡ words is_separator (map lower s)
  unfolding trim_left words_from
  words-trim_left [] = refl
  words-trim_left (c ∷ s) = elim (Bool-cases (is_space c)) [
    | inl e ↦ ground (arith, words-trim_left s, lower-space c e)
    | inr e ↦ ground arith
  ]

  words-trim_right :
      (w s : Text)
      → words_from is_separator w (map lower (trim_right s))
        ≡ words_from is_separator w (map lower s)
  unfolding trim_right words_from
  words-trim_right w [] = refl
  words-trim_right w (c ∷ s) = elim (Bool-cases (is_space c && is_empty (trim_right s))) [
    | inl e ↦ ground (
      arith,
      words-trim_right [] s,
      lower-space c (both_left (is_space c) (is_empty (trim_right s)) e),
      empty_of (trim_right s) (both_right (is_space c) (is_empty (trim_right s)) e),
      append_nil (flush w),
    )
    | inr e ↦ elim (Bool-cases (is_separator (lower c))) [
      | inl e' ↦ ground (arith, words-trim_right [] s)
      | inr e' ↦ ground (arith, words-trim_right (w ++ lower c ∷ []) s)
    ]
  ]

  -- The key of a name is the words of its lower case, split at white space and underscores, joined by
  -- single spaces, where the lower case of white space is white space.
  pub normalize_rsn-words :
      (rsn : Text) → normalize_rsn lower rsn ≡ unwords (words is_separator (map lower rsn))
  unfolding normalize_rsn trim_space
  normalize_rsn-words rsn =
      trim_space-collapse is_separator space-is_separator false (map lower (trim_space rsn))
      ∙ ap unwords (words-trim_right [] (trim_left rsn) ∙ words-trim_left rsn)
