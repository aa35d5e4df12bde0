-- ===== src/Hiscores/Rsn/Words.antt =====
-- internal/hiscores/rsn.go against its specification: the words of a name, joined by single spaces.
use anvil_forge.Prelude.{
  Bool, Bool-cases, List, Text, [], ap, arith, false, inl, inr, refl, true, ℕ, ◌++◌, ◌∷◌, ◌≡◌,
}
use anvil_forge.Hiscores.Rsn.{
  is_space, space, trim_left, trim_right, trim_space, collapse, sanitize_rsn,
}

abbrev pub flush : Text → List Text
flush [] = []
flush (c ∷ w) = (c ∷ w) ∷ []

-- The words of a text, the word that has begun included.
unfoldable pub words_from : (ℕ → Bool) → Text → Text → List Text
words_from is_sep word [] = flush word
words_from is_sep word (c ∷ s) = elim (is_sep c) [
  | true ↦ flush word ++ words_from is_sep [] s
  | false ↦ words_from is_sep (word ++ c ∷ []) s
]

abbrev pub words : (ℕ → Bool) → Text → List Text
words is_sep = words_from is_sep []

abbrev pub spaced : List Text → Text
spaced [] = []
spaced (w ∷ ws) = space ∷ (w ++ spaced ws)

abbrev pub unwords : List Text → Text
unwords [] = []
unwords (w ∷ ws) = w ++ spaced ws

pub append_one : (w : Text) (x : ℕ) (t : Text) → (w ++ x ∷ []) ++ t ≡ w ++ x ∷ t
append_one [] x t = refl
append_one (y ∷ w) x t = ap (λ r. y ∷ r) (append_one w x t)

module _ (is_sep : ℕ → Bool) (spaces : (c : ℕ) → is_space c ≡ true → is_sep c ≡ true) where
  not_space : (c : ℕ) → is_sep c ≡ false → is_space c ≡ false
  not_space c h = elim (Bool-cases (is_space c)) [
    | inl e ↦ absurd (ground (arith, spaces c e))
    | inr e ↦ e
  ]

  trim_left-word : (c : ℕ) (s : Text) → is_sep c ≡ false → trim_left (c ∷ s) ≡ c ∷ s
  unfolding trim_left
  trim_left-word c s h = ground (arith, not_space c h)

  trim_right-word : (c : ℕ) (s : Text) → is_sep c ≡ false → trim_right (c ∷ s) ≡ c ∷ trim_right s
  unfolding trim_right
  trim_right-word c s h = ground (arith, not_space c h)

  trim_right-space :
      (c : ℕ) (s : Text) → is_sep c ≡ false → trim_right (space ∷ c ∷ s) ≡ space ∷ c ∷ trim_right s
  unfolding trim_right is_space
  trim_right-space c s h = ground (arith, not_space c h)

  spaced-words :
      (c : ℕ) (w s : Text)
      → spaced (words_from is_sep (c ∷ w) s) ≡ space ∷ unwords (words_from is_sep (c ∷ w) s)
  unfolding words_from
  spaced-words c w [] = refl
  spaced-words c w (x ∷ s) = ground (arith, spaced-words c (w ++ x ∷ []) s)

  abbrev InWord : Text → Type 0
  InWord s =
      (c : ℕ) (w : Text)
      → (c ∷ w) ++ trim_right (collapse is_sep false s) ≡ unwords (words_from is_sep (c ∷ w) s)

  abbrev AfterWord : Text → Type 0
  AfterWord s = trim_right (space ∷ collapse is_sep true s) ≡ spaced (words_from is_sep [] s)

  InWord-step : (x : ℕ) (s : Text) → InWord s → AfterWord s → InWord (x ∷ s)
  unfolding collapse words_from
  InWord-step x s hi ha c w = elim (Bool-cases (is_sep x)) [
    | inl e ↦ ground (arith, ha)
    | inr e ↦ ground (
      arith,
      hi c (w ++ x ∷ []),
      trim_right-word x (collapse is_sep false s) e,
      append_one w x (trim_right (collapse is_sep false s)),
    )
  ]

  AfterWord-step : (x : ℕ) (s : Text) → InWord s → AfterWord s → AfterWord (x ∷ s)
  unfolding collapse words_from
  AfterWord-step x s hi ha = elim (Bool-cases (is_sep x)) [
    | inl e ↦ ground (arith, ha)
    | inr e ↦
        ground (arith, hi x [], trim_right-space x (collapse is_sep false s) e, spaced-words x [] s)
  ]

  in_text : (s : Text) → InWord s × AfterWord s
  unfolding collapse words_from trim_right is_space
  in_text [] = (λ c w. refl, refl)
  in_text (x ∷ s) =
      (InWord-step x s (in_text s).0 (in_text s).1, AfterWord-step x s (in_text s).0 (in_text s).1)

  -- Each run of separators made one space and the ends trimmed, a text is its words joined by single
  -- spaces.
  pub trim_space-collapse :
      (last : Bool) (s : Text) → trim_space (collapse is_sep last s) ≡ unwords (words is_sep s)
  unfolding collapse words_from trim_space trim_left is_space
  trim_space-collapse last [] = refl
  trim_space-collapse last (x ∷ s) = elim (Bool-cases (is_sep x)) [
    | inl e ↦ ground (arith, trim_space-collapse true s)
    | inr e ↦ ground (
      arith,
      trim_left-word x (collapse is_sep false s) e,
      trim_right-word x (collapse is_sep false s) e,
      (in_text s).0 x [],
    )
  ]

-- A name to display is its words, split at Unicode white space, joined by single spaces.
pub sanitize_rsn-words : (rsn : Text) → sanitize_rsn rsn ≡ unwords (words is_space rsn)
unfolding sanitize_rsn
sanitize_rsn-words rsn = trim_space-collapse is_space (λ c h. h) false rsn
