-- ===== src/Hiscores/Rsn/Unwords.antt =====
-- Words joined by single spaces are the words again.
use anvil_forge.Prelude.{
  All, All-append, Bool, Bool-cases, List, Text, [], ap, arith, false, inl, inr, map, refl, subst,
  sym, true, ℕ, ◌++◌, ◌↔◌, ◌∙◌, ◌∷◌, ◌≡◌,
}
use anvil_forge.Hiscores.Rsn.{is_space, space, is_separator, sanitize_rsn, normalize_rsn}
use anvil_forge.Hiscores.Rsn.Words.{
  flush, words_from, words, spaced, unwords, append_one, sanitize_rsn-words,
}
use anvil_forge.Hiscores.Rsn.Identity.{append_nil, normalize_rsn-words}

module _ (is_sep : ℕ → Bool) where
  abbrev IsWord : Text → Type 0
  IsWord [] = ⊥
  IsWord (c ∷ w) = is_sep c ≡ false × All (λ c. is_sep c ≡ false) w

  words_from-sep :
      (w : Text) (c : ℕ) (s : Text)
      → is_sep c ≡ true
      → words_from is_sep w (c ∷ s) ≡ flush w ++ words_from is_sep [] s
  unfolding words_from
  words_from-sep w c s e = ground arith

  words_from-letter :
      (w : Text) (c : ℕ) (s : Text)
      → is_sep c ≡ false
      → words_from is_sep w (c ∷ s) ≡ words_from is_sep (w ++ c ∷ []) s
  unfolding words_from
  words_from-letter w c s e = ground arith

  flush-All : (w : Text) → All (λ c. is_sep c ≡ false) w → All IsWord (flush w)
  flush-All [] h = tt
  flush-All (c ∷ w) h = (h, tt)

  words_from-All : (w s : Text) → All (λ c. is_sep c ≡ false) w → All IsWord (words_from is_sep w s)
  unfolding words_from
  words_from-All w [] h = flush-All w h
  words_from-All w (c ∷ s) h = elim (Bool-cases (is_sep c)) [
    | inl e ↦
        subst (All IsWord) (sym (words_from-sep w c s e))
          (All-append IsWord (flush w) _ (flush-All w h) (words_from-All [] s tt))
    | inr e ↦
        subst (All IsWord) (sym (words_from-letter w c s e))
          (words_from-All (w ++ c ∷ []) s (All-append _ w (c ∷ []) h (e, tt)))
  ]

  words_from-append :
      (w t r : Text)
      → All (λ c. is_sep c ≡ false) t
      → words_from is_sep w (t ++ r) ≡ words_from is_sep (w ++ t) r
  unfolding words_from
  words_from-append w [] r h = ap (λ x. words_from is_sep x r) (sym (append_nil w))
  words_from-append w (c ∷ t) r h =
      words_from-letter w c (t ++ r) h.0
      ∙ words_from-append (w ++ c ∷ []) t r h.1
      ∙ ap (λ x. words_from is_sep x r) (append_one w c t)

  words_from-spaced :
      is_sep space ≡ true
      → (w : Text) (ws : List Text) → All IsWord ws
      → words_from is_sep w (spaced ws) ≡ flush w ++ ws
  unfolding words_from
  words_from-spaced e w [] h = sym (append_nil (flush w))
  words_from-spaced e w ([] ∷ vs) h = absurd h.0
  words_from-spaced e w ((c ∷ v) ∷ vs) h =
      words_from-sep w space ((c ∷ v) ++ spaced vs) e
      ∙ ap (λ x. flush w ++ x)
          (words_from-append [] (c ∷ v) (spaced vs) h.0 ∙ words_from-spaced e (c ∷ v) vs h.1)

  pub words-unwords :
      is_sep space ≡ true → (s : Text) → words is_sep (unwords (words is_sep s)) ≡ words is_sep s
  unfolding words_from
  words-unwords e s = go (words is_sep s) (words_from-All [] s tt)
    where
      go : (ws : List Text) → All IsWord ws → words is_sep (unwords ws) ≡ ws
      go [] h = refl
      go ([] ∷ ws) h = absurd h.0
      go ((c ∷ v) ∷ ws) h =
          words_from-append [] (c ∷ v) (spaced ws) h.0 ∙ words_from-spaced e (c ∷ v) ws h.1

-- Cleaning a name twice is cleaning it once.
sanitize_rsn-sanitize_rsn : (rsn : Text) → sanitize_rsn (sanitize_rsn rsn) ≡ sanitize_rsn rsn
unfolding is_space
sanitize_rsn-sanitize_rsn rsn =
    sanitize_rsn-words (sanitize_rsn rsn)
    ∙ ap (λ s. unwords (words is_space s)) (sanitize_rsn-words rsn)
    ∙ ap unwords (words-unwords is_space refl rsn)
    ∙ sym (sanitize_rsn-words rsn)

-- Where the lower case of white space is white space, two names have the same key exactly when their
-- lower cases have the same words, split at white space and underscores.
pub normalize_rsn_iff :
    (lower : ℕ → ℕ)
    → ((c : ℕ) → is_space c ≡ true → is_space (lower c) ≡ true)
    → (a b : Text)
    → (normalize_rsn lower a ≡ normalize_rsn lower b)
      ↔ (words is_separator (map lower a) ≡ words is_separator (map lower b))
unfolding is_separator is_space
normalize_rsn_iff lower keeps a b = (there, λ h. key a ∙ ap unwords h ∙ sym (key b))
  where
    key : (s : Text) → normalize_rsn lower s ≡ unwords (words is_separator (map lower s))
    key = normalize_rsn-words lower keeps

    there :
        normalize_rsn lower a ≡ normalize_rsn lower b
        → words is_separator (map lower a) ≡ words is_separator (map lower b)
    there h =
        sym (words-unwords is_separator refl (map lower a))
        ∙ ap (words is_separator) (sym (key a) ∙ h ∙ key b)
        ∙ words-unwords is_separator refl (map lower b)
