-- ===== src/Edge/Headers.antt =====
-- internal/edge/server.go: reading the headers of a request.
--
-- A header is the list of its code points. strings.EqualFold is only called with "Bearer " and
-- "gzip", whose letters fold to ASCII letters alone.
use anvil_forge.Prelude.{
  Bool, List, Text, [], any, codes, drop, eq_text, false, if◌then◌else◌, leb, length, map, not,
  take, ℕ, ◌&&◌, ◌+◌, ◌==◌, ◌||◌, ◌∷◌,
}
use anvil_forge.Hiscores.Rsn.{trim_space, is_empty}

abbrev pub fold : ℕ → ℕ
fold c = if leb b'A' c && leb c b'Z' then c + 32 else c

abbrev pub equal_fold : Text → Text → Bool
equal_fold s t = eq_text (map fold s) (map fold t)

abbrev pub bearer_prefix : Text
bearer_prefix = codes "Bearer "

unfoldable pub bearer : Text → Text
unfolding eq_text trim_space
bearer header =
    if leb (length header) 7 || not (equal_fold (take 7 header) bearer_prefix)
    then []
    else trim_space (drop 7 header)

-- strings.Split at one character: at least one part, and the parts between.
abbrev pub join_head : ℕ → List Text → List Text
join_head c [] = (c ∷ []) ∷ []
join_head c (p ∷ ps) = (c ∷ p) ∷ ps

unfoldable pub split : ℕ → Text → List Text
split sep [] = [] ∷ []
split sep (c ∷ s) = let rest = split sep s in if c == sep then [] ∷ rest else join_head c rest

-- strings.TrimPrefix(s, "W/")
abbrev pub trim_weak : Text → Text
trim_weak (c ∷ d ∷ s) = if c == b'W' && d == b'/' then s else c ∷ d ∷ s
trim_weak s = s

unfoldable pub matches_candidate : Text → Text → Bool
unfolding eq_text trim_space
matches_candidate current part =
    let candidate = trim_space part in
    eq_text candidate (codes "*")
    || (eq_text candidate current || eq_text (trim_weak candidate) (trim_weak current))

unfoldable pub matches_etag : Text → Text → Bool
unfolding matches_candidate split
matches_etag if_none_match current =
    if is_empty if_none_match || is_empty current
    then false
    else any (matches_candidate current) (split b',' if_none_match)

abbrev pub first_part : List Text → Text
first_part [] = []
first_part (p ∷ ps) = p

unfoldable pub accepts_gzip : Text → Bool
unfolding eq_text trim_space split
accepts_gzip header =
    any (λ part. equal_fold (trim_space (first_part (split b';' part))) (codes "gzip"))
      (split b',' header)
