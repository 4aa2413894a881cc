-- ===== src/Text/Csv.antt =====
-- Comma lists of internal/text/text.go: the laws of `JoinCSV` and `SplitCSV`.
use home_kai.Base.{
  ℕ, Text, Bool, true, false, not, ◌&&◌, ◌≡◌, refl, ap, ◌∙◌, List, [], ◌∷◌, ◌++◌, arith, ◌==◌, any,
  all, is_empty, if◌then◌else◌,
}
use home_kai.Text.{comma, cons_head, join_csv, split_on, split_csv}

-- An entry that `JoinCSV` expects: not empty, with no comma in it.
abbrev pub is_entry : Text → Bool
is_entry x = not (is_empty x) && not (any (λ c. c == comma) x)

split_on-entry : (x : Text) → any (λ c. c == comma) x ≡ false → split_on comma x ≡ x ∷ []
unfolding split_on
split_on-entry [] h = refl
split_on-entry (c ∷ x) h = ground (arith, split_on-entry x)

split_on-append :
    (x rest : Text)
    → any (λ c. c == comma) x ≡ false
    → split_on comma (x ++ comma ∷ rest) ≡ x ∷ split_on comma rest
unfolding split_on
split_on-append [] rest h = refl
split_on-append (c ∷ x) rest h = ground (arith, split_on-append x rest)

pub split_on-join_csv :
    (x : Text) (xs : List Text)
    → all is_entry (x ∷ xs) ≡ true
    → split_on comma (join_csv (x ∷ xs)) ≡ x ∷ xs
unfolding join_csv
split_on-join_csv x [] h = ground (arith, split_on-entry x)
split_on-join_csv x (y ∷ ys) h =
    ground (arith, split_on-append x (join_csv (y ∷ ys)), split_on-join_csv y ys)

pub is_empty-join_csv :
    (x : Text) (xs : List Text)
    → all is_entry (x ∷ xs) ≡ true
    → is_empty (join_csv (x ∷ xs)) ≡ false
unfolding join_csv
is_empty-join_csv [] xs h = ground arith
is_empty-join_csv (c ∷ x) [] h = refl
is_empty-join_csv (c ∷ x) (y ∷ ys) h = refl

-- A list of nonempty entries without commas is read back from its stored field as it was.
pub split_csv-join_csv : (xs : List Text) → all is_entry xs ≡ true → split_csv (join_csv xs) ≡ xs
unfolding split_csv
split_csv-join_csv [] h = unfold join_csv in refl
split_csv-join_csv (x ∷ xs) h = ground (arith, is_empty-join_csv x xs, split_on-join_csv x xs)

join_csv-cons_head :
    (c : ℕ) (x : Text) (xs : List Text) → join_csv (cons_head c (x ∷ xs)) ≡ c ∷ join_csv (x ∷ xs)
unfolding join_csv
join_csv-cons_head c x [] = refl
join_csv-cons_head c x (y ∷ ys) = refl

is_empty-split_on : (sep : ℕ) (s : Text) → is_empty (split_on sep s) ≡ false
unfolding split_on
is_empty-split_on sep [] = refl
is_empty-split_on sep (c ∷ s) = go (split_on sep s)
  where
    go : (xs : List Text) → is_empty (if c == sep then [] ∷ xs else cons_head c xs) ≡ false
    go [] = ground arith
    go (x ∷ xs) = ground arith

join_csv-step :
    (c : ℕ) (xs : List Text)
    → is_empty xs ≡ false
    → join_csv (if c == comma then [] ∷ xs else cons_head c xs) ≡ c ∷ join_csv xs
unfolding join_csv
join_csv-step c [] h = ground arith
join_csv-step c (x ∷ []) h = ground arith
join_csv-step c (x ∷ y ∷ ys) h = ground arith

-- Joining what a split at commas gives is the text again, whatever the text.
pub join_csv-split_on : (s : Text) → join_csv (split_on comma s) ≡ s
unfolding split_on
join_csv-split_on [] = unfold join_csv in refl
join_csv-split_on (c ∷ s) =
    join_csv-step c (split_on comma s) (is_empty-split_on comma s)
    ∙ ap (λ t. c ∷ t) (join_csv-split_on s)
