-- ===== src/Hiscores/Tests.antt =====
-- Runs of the hiscores client and of the names, and the theorems at concrete inputs.
use anvil_forge.Prelude.{
  Bool, Bool-cases, Text, [], arith, codes, eq_text, false, if◌then◌else◌, inl, inr, leb, map, none,
  pos, refl, some, subst, sym, true, ℕ, ◌&&◌, ◌+◌, ◌==◌, ◌↔◌, ◌∷◌, ◌≡◌,
}
use anvil_forge.Hiscores.Rsn.{
  is_space, is_separator, collapse, trim_left, trim_right, trim_space, sanitize_rsn, normalize_rsn,
  is_name_char, all_name_chars, is_plausible_rsn,
}
use anvil_forge.Hiscores.Rsn.Words.{words}
use anvil_forge.Hiscores.Rsn.Unwords.{normalize_rsn_iff}
use anvil_forge.Hiscores.Client.{
  Client, World, response, unanswered, outcome_transient, table_suffix, endpoint, fetch, fetch_once,
}
use anvil_forge.Hiscores.Client.Turns.{IsGood, repeat}
use anvil_forge.Hiscores.Client.Attempts.{fetch-IsGood, fetch-lasts}

-- The lower case of ASCII.
abbrev to_lower : ℕ → ℕ
to_lower c = if leb b'A' c && leb c b'Z' then c + 32 else c

to_lower-space : (c : ℕ) → is_space c ≡ true → is_space (to_lower c) ≡ true
unfolding is_space
to_lower-space c h = elim (Bool-cases (leb b'A' c && leb c b'Z')) [
  | inl e ↦ absurd (grind arith)
  | inr e ↦ subst (λ (b : Bool). is_space (if b then c + 32 else c) ≡ true) (sym e) h
]

no_break : sanitize_rsn (0xa0 ∷ b'G' ∷ 0xa0 ∷ 0xa0 ∷ b'n' ∷ 32 ∷ []) ≡ codes "G n"
unfolding sanitize_rsn collapse trim_space trim_left trim_right is_space
no_break = refl

same_key :
    normalize_rsn to_lower (codes "GIM_nisbro") ≡ normalize_rsn to_lower (codes " GIM  Nisbro")
unfolding normalize_rsn collapse trim_space trim_left trim_right is_space is_separator
same_key = refl

placeholder : is_plausible_rsn (codes "#Player1404") ≡ false
unfolding is_plausible_rsn all_name_chars is_name_char
placeholder = refl

normalize_rsn_iff_example :
    (normalize_rsn to_lower (codes "GIM_nisbro") ≡ normalize_rsn to_lower (codes "GIM Nisbro")) ↔ (
      words is_separator (map to_lower (codes "GIM_nisbro"))
      ≡ words is_separator (map to_lower (codes "GIM Nisbro")))
normalize_rsn_iff_example =
    normalize_rsn_iff to_lower to_lower-space (codes "GIM_nisbro") (codes "GIM Nisbro")

-- A body is stats if it begins with a brace; the first attempt is not answered.
abbrev world : World
world = record {
  query_escape = λ s. s;
  is_stats = begins;
  serve = λ k url. if k == 1 then unanswered (codes "EOF") else response 200 (codes "{}") none;
  ended_after = λ k. none;
  ended_in_pause = λ k. none;
}
  where
    begins : Text → Bool
    begins [] = false
    begins (c ∷ s) = c == b'{'

abbrev down : World
down = record world { serve = λ k url. response 503 [] none }

abbrev client : Client
client = record {
  timeout = 8;
  base_url = codes "b";
  user_agent = codes "u";
  retries = pos 2;
  retry_delay = 1;
}

a_b : is_plausible_rsn (sanitize_rsn (codes "a b")) ≡ true
unfolding is_plausible_rsn sanitize_rsn collapse trim_space trim_left trim_right is_space
    all_name_chars is_name_char
a_b = refl

main_suffix : table_suffix (codes "main") ≡ some []
unfolding table_suffix eq_text
main_suffix = refl

fetch-IsGood_example : IsGood world.is_stats (fetch world client (codes "a b") (codes "main"))
fetch-IsGood_example = fetch-IsGood world client (codes "a b") (codes "main")

fetch-lasts_example :
    ((fetch down client (codes "a b") (codes "main")).0.outcome ≡ outcome_transient)
    × ((fetch down client (codes "a b") (codes "main")).1
        ≡ repeat 2 (endpoint down client [] (sanitize_rsn (codes "a b"))))
unfolding fetch_once
fetch-lasts_example =
    fetch-lasts down client (codes "a b") (codes "main") [] a_b main_suffix (λ i a b. refl)
