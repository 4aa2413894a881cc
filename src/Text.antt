-- ===== src/Text.antt =====
-- internal/text/text.go: comma lists and DNS labels. Texts are lists of code points.
pub mod Csv
pub mod Slug
use home_kai.Base.{
  ℕ, ◌+◌, Text, codes, Bool, true, false, not, ◌&&◌, ◌||◌, List, [], ◌∷◌, ◌++◌, ltb, leb, ◌==◌,
  if◌then◌else◌, is_empty,
}

abbrev pub comma : ℕ
comma = 44

abbrev pub dash : ℕ
dash = 45

-- strings.Join(items, ","), the body of `JoinCSV`
unfoldable pub join_csv : List Text → Text
join_csv [] = []
join_csv (x ∷ []) = x
join_csv (x ∷ y ∷ ys) = x ++ comma ∷ join_csv (y ∷ ys)

unfoldable pub join_or : List Text → Text → Text
unfolding join_csv
join_or items empty = if is_empty items then empty else join_csv items

abbrev cons_head : ℕ → List Text → List Text
cons_head c [] = (c ∷ []) ∷ []
cons_head c (x ∷ xs) = (c ∷ x) ∷ xs

-- strings.Split(s, sep) at a separator of one code point
unfoldable pub split_on : ℕ → Text → List Text
split_on sep [] = [] ∷ []
split_on sep (c ∷ s) = let rest = split_on sep s in if c == sep then [] ∷ rest else cons_head c rest

unfoldable pub split_csv : Text → List Text
unfolding split_on
split_csv s = if is_empty s then [] else split_on comma s

-- unicode.IsSpace
abbrev is_space : ℕ → Bool
is_space c =
    (leb 9 c && leb c 13)
    || c == 32
    || c == 0x85
    || c == 0xa0
    || c == 0x1680
    || (leb 0x2000 c && leb c 0x200a)
    || c == 0x2028
    || c == 0x2029
    || c == 0x202f
    || c == 0x205f
    || c == 0x3000

module _ (cut : ℕ → Bool) where
  unfoldable pub trim_left : Text → Text
  trim_left [] = []
  trim_left (c ∷ s) = let rest = trim_left s in if cut c then rest else c ∷ s

  unfoldable pub trim_right : Text → Text
  trim_right [] = []
  trim_right (c ∷ s) = let rest = trim_right s in if is_empty rest && cut c then [] else c ∷ rest

-- strings.TrimSpace
unfoldable pub trim_space : Text → Text
unfolding trim_left trim_right
trim_space s = trim_right is_space (trim_left is_space s)

trim_items : List Text → List Text
trim_items [] = []
trim_items (p ∷ ps) =
    let rest = trim_items ps in
    let item = trim_space p in if is_empty item then rest else item ∷ rest

unfoldable pub fields : Text → List Text
unfolding trim_items split_on trim_space
fields s = trim_items (split_on comma s)

-- [a-z0-9]
abbrev pub is_alnum : ℕ → Bool
is_alnum r = (leb b'a' r && leb r b'z') || (leb b'0' r && leb r b'9')

-- unicode.ToLower, as far as the label can see: besides A-Z, only U+0130 and U+212A have an ASCII
-- letter for lower case, and every rune that has none counts as a separator.
abbrev pub to_lower : ℕ → ℕ
to_lower r =
    if leb b'A' r && leb r b'Z'
    then r + 32
    else if r == 0x130
    then b'i'
    else if r == 0x212a
    then b'k'
    else r

-- what one rune appends to `b`
abbrev pub emit : ℕ → Bool → Text
emit r swallow = if is_alnum r then r ∷ [] else if swallow then [] else dash ∷ []

-- the loop over the runes: `swallow` is the variable `dash` of the source
slug_loop : Text → Bool → Text → Text
slug_loop [] swallow b = b
slug_loop (r ∷ rs) swallow b =
    slug_loop rs (not (is_alnum (to_lower r))) (b ++ emit (to_lower r) swallow)

unfoldable pub slug : Text → Text
unfolding slug_loop trim_left trim_right
slug s = let b = slug_loop s true [] in trim_right (λ c. c == dash) (trim_left (λ c. c == dash) b)
