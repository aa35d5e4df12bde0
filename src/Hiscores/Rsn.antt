-- ===== src/Hiscores/Rsn.antt =====
-- internal/hiscores/rsn.go: the three notions of "the same name".
--
-- A name is the list of its code points, as Go's `range` over a string gives them. The lower case of
-- a code point is a parameter.
pub mod Words
pub mod Identity
pub mod Unwords
use anvil_forge.Prelude.{
  Bool, Text, [], false, if◌then◌else◌, leb, length, map, true, ℕ, ◌&&◌, ◌==◌, ◌||◌, ◌∷◌,
}

-- unicode.IsSpace
unfoldable pub is_space : ℕ → Bool
is_space r =
    (leb 9 r && leb r 13)
    || (r == 32
        || (r == 0x85
            || (r == 0xa0
                || (r == 0x1680
                    || ((leb 0x2000 r && leb r 0x200a)
                        || (r == 0x2028
                            || (r == 0x2029 || (r == 0x202f || (r == 0x205f || r == 0x3000)))))))))

abbrev pub space : ℕ
space = 32

-- `unicode.IsSpace(r) || r == '_'`
unfoldable pub is_separator : ℕ → Bool
unfolding is_space
is_separator r = is_space r || r == b'_'

-- strings.TrimSpace
unfoldable pub trim_left : Text → Text
unfolding is_space
trim_left [] = []
trim_left (c ∷ s) = let rest = trim_left s in if is_space c then rest else c ∷ s

abbrev pub is_empty : Text → Bool
is_empty [] = true
is_empty (c ∷ s) = false

unfoldable pub trim_right : Text → Text
unfolding is_space
trim_right [] = []
trim_right (c ∷ s) = let rest = trim_right s in if is_space c && is_empty rest then [] else c ∷ rest

unfoldable pub trim_space : Text → Text
unfolding trim_left trim_right is_space
trim_space s = trim_right (trim_left s)

-- The loop of both functions: each run of separators becomes one space.
unfoldable pub collapse : (ℕ → Bool) → Bool → Text → Text
collapse is_sep last [] = []
collapse is_sep last (r ∷ rs) =
    let rest = collapse is_sep (is_sep r) rs in
    if is_sep r then (if last then rest else space ∷ rest) else r ∷ rest

unfoldable pub sanitize_rsn : Text → Text
unfolding trim_space collapse
sanitize_rsn rsn = trim_space (collapse is_space false rsn)

unfoldable pub normalize_rsn : (ℕ → ℕ) → Text → Text
unfolding trim_space collapse is_separator
normalize_rsn lower rsn = trim_space (collapse is_separator false (map lower (trim_space rsn)))

-- [A-Za-z0-9 _-]
unfoldable pub is_name_char : ℕ → Bool
is_name_char c =
    (leb b'A' c && leb c b'Z')
    || ((leb b'a' c && leb c b'z')
        || ((leb b'0' c && leb c b'9') || (c == 32 || (c == b'_' || c == b'-'))))

unfoldable pub all_name_chars : Text → Bool
unfolding is_name_char
all_name_chars [] = true
all_name_chars (c ∷ s) = is_name_char c && all_name_chars s

-- ^[A-Za-z0-9 _-]{1,12}$
unfoldable pub is_plausible_rsn : Text → Bool
unfolding all_name_chars
is_plausible_rsn rsn = leb 1 (length rsn) && (leb (length rsn) 12 && all_name_chars rsn)
