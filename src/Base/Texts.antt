-- ===== src/Base/Texts.antt =====
-- Texts are lists of code points: their equality and order, the sorting of a slice of texts, and
-- the Go maps from a text to `true` that serve as sets, here lists with a membership test.
use Prim.Native.Nat.{ℕ}
use Prim.Native.Char.{code}
use Prim.Native.String.{String}
use mathlib.Core.Path.{◌≡◌, refl}
use mathlib.Core.Logic.{◌↔◌}
use mathlib.Core.Bool.{Bool, true, false, ◌&&◌, ◌||◌, not}
use mathlib.Core.List.{List, [], ◌∷◌, ◌++◌}
use native.Mathlib.Omega.{arith}
use home_kai.Base.Tests.{ltb, ◌==◌, if◌then◌else◌}
use home_kai.Base.Lists.{any, all, any-append, is_empty}

abbrev pub Text : Type 0
Text = List ℕ

-- The code points of a literal.
abbrev pub codes : String → Text
codes String.[] = []
codes (String.◌∷◌ c s) = code c ∷ codes s

unfoldable pub text_eq : Text → Text → Bool
text_eq [] [] = true
text_eq (a ∷ s) (b ∷ t) = a == b && text_eq s t
text_eq _ _ = false

pub text_eq_iff : (s t : Text) → (text_eq s t ≡ true) ↔ (s ≡ t)
unfolding text_eq
text_eq_iff [] [] = ground arith
text_eq_iff [] (b ∷ t) = ground arith
text_eq_iff (a ∷ s) [] = ground arith
text_eq_iff (a ∷ s) (b ∷ t) = ground (arith, text_eq_iff s t)

pub text_eq_refl : (s : Text) → text_eq s s ≡ true
text_eq_refl s = (text_eq_iff s s).1 refl

pub text_eq_comm : (s t : Text) → text_eq s t ≡ text_eq t s
text_eq_comm s t = ground (arith, text_eq_iff s t, text_eq_iff t s)

-- The order of Go strings.
unfoldable pub text_leb : Text → Text → Bool
text_leb [] t = true
text_leb (a ∷ s) [] = false
text_leb (a ∷ s) (b ∷ t) = ltb a b || (a == b && text_leb s t)

-- Membership in a slice, and in a map used as a set.
abbrev pub elem : Text → List Text → Bool
elem x xs = any (text_eq x) xs

insert_sorted : Text → List Text → List Text
insert_sorted x [] = x ∷ []
insert_sorted x (y ∷ ys) =
    let rest = insert_sorted x ys in if text_leb x y then x ∷ y ∷ ys else y ∷ rest

-- sort.Strings
unfoldable pub sort_texts : List Text → List Text
unfolding insert_sorted text_leb
sort_texts [] = []
sort_texts (x ∷ xs) = insert_sorted x (sort_texts xs)

any-insert_sorted :
    (p : Text → Bool) (x : Text) (xs : List Text) → any p (insert_sorted x xs) ≡ (p x || any p xs)
unfolding insert_sorted
any-insert_sorted p x [] = refl
any-insert_sorted p x (y ∷ ys) = ground (arith, any-insert_sorted p x ys)

pub any-sort_texts : (p : Text → Bool) (xs : List Text) → any p (sort_texts xs) ≡ any p xs
unfolding sort_texts
any-sort_texts p [] = refl
any-sort_texts p (x ∷ xs) =
    ground (arith, any-sort_texts p xs, any-insert_sorted p x (sort_texts xs))

all-insert_sorted :
    (p : Text → Bool) (x : Text) (xs : List Text) → all p (insert_sorted x xs) ≡ (p x && all p xs)
unfolding insert_sorted
all-insert_sorted p x [] = refl
all-insert_sorted p x (y ∷ ys) = ground (arith, all-insert_sorted p x ys)

pub all-sort_texts : (p : Text → Bool) (xs : List Text) → all p (sort_texts xs) ≡ all p xs
unfolding sort_texts
all-sort_texts p [] = refl
all-sort_texts p (x ∷ xs) =
    ground (arith, all-sort_texts p xs, all-insert_sorted p x (sort_texts xs))

-- Sorting keeps an empty list empty, and only that.
pub is_empty-sort_texts : (xs : List Text) → is_empty (sort_texts xs) ≡ is_empty xs
unfolding sort_texts
is_empty-sort_texts [] = refl
is_empty-sort_texts (x ∷ xs) = go (sort_texts xs)
  where
    go : (ys : List Text) → is_empty (insert_sorted x ys) ≡ false
    go [] = refl
    go (y ∷ ys) = ground arith

-- In order, each element no later than the next.
pub is_sorted : List Text → Bool
is_sorted [] = true
is_sorted (x ∷ []) = true
is_sorted (x ∷ y ∷ ys) = text_leb x y && is_sorted (y ∷ ys)

text_leb_total : (s t : Text) → text_leb s t ≡ false → text_leb t s ≡ true
unfolding text_leb
text_leb_total [] t h = ground arith
text_leb_total (a ∷ s) [] h = refl
text_leb_total (a ∷ s) (b ∷ t) h = ground (arith, text_leb_total s t)

insert_sorted-is_sorted :
    (x : Text) (xs : List Text) → is_sorted xs ≡ true → is_sorted (insert_sorted x xs) ≡ true
unfolding insert_sorted is_sorted
insert_sorted-is_sorted x [] h = refl
insert_sorted-is_sorted x (y ∷ []) h = ground (arith, text_leb_total x y)
insert_sorted-is_sorted x (y ∷ z ∷ zs) h =
    ground (arith, text_leb_total x y, insert_sorted-is_sorted x (z ∷ zs))

pub sort_texts-is_sorted : (xs : List Text) → is_sorted (sort_texts xs) ≡ true
unfolding sort_texts
sort_texts-is_sorted [] = unfold is_sorted in refl
sort_texts-is_sorted (x ∷ xs) = insert_sorted-is_sorted x (sort_texts xs) (sort_texts-is_sorted xs)

-- No element twice.
unfoldable pub is_nodup : List Text → Bool
is_nodup [] = true
is_nodup (x ∷ xs) = not (elem x xs) && is_nodup xs

insert_sorted-is_nodup :
    (x : Text) (xs : List Text)
    → elem x xs ≡ false
    → is_nodup xs ≡ true
    → is_nodup (insert_sorted x xs) ≡ true
unfolding insert_sorted is_nodup
insert_sorted-is_nodup x [] h k = refl
insert_sorted-is_nodup x (y ∷ ys) h k =
    ground
      (arith, insert_sorted-is_nodup x ys, any-insert_sorted (text_eq y) x ys, text_eq_comm x y)

pub sort_texts-is_nodup : (xs : List Text) → is_nodup xs ≡ true → is_nodup (sort_texts xs) ≡ true
unfolding sort_texts is_nodup
sort_texts-is_nodup [] h = refl
sort_texts-is_nodup (x ∷ xs) h = ground (
  arith,
  sort_texts-is_nodup xs,
  any-sort_texts (text_eq x) xs,
  insert_sorted-is_nodup x (sort_texts xs),
)

pub is_nodup-append_new :
    (x : Text) (xs : List Text)
    → elem x xs ≡ false
    → is_nodup xs ≡ true
    → is_nodup (xs ++ x ∷ []) ≡ true
unfolding is_nodup
is_nodup-append_new x [] h k = refl
is_nodup-append_new x (y ∷ ys) h k =
    ground (arith, is_nodup-append_new x ys, any-append (text_eq y) ys (x ∷ []), text_eq_comm x y)

pub is_nodup_nil : is_nodup [] ≡ true
unfolding is_nodup
is_nodup_nil = refl

pub is_nodup_cons :
    (x : Text) (xs : List Text) → elem x xs ≡ false → is_nodup xs ≡ true → is_nodup (x ∷ xs) ≡ true
unfolding is_nodup
is_nodup_cons x xs h k = ground arith

-- strings.HasSuffix
unfoldable pub has_suffix : Text → Text → Bool
has_suffix [] suffix = text_eq [] suffix
has_suffix (c ∷ s) suffix = text_eq (c ∷ s) suffix || has_suffix s suffix

pub has_suffix-append : (s suffix : Text) → has_suffix (s ++ suffix) suffix ≡ true
unfolding has_suffix text_eq
has_suffix-append [] [] = refl
has_suffix-append [] (c ∷ suffix) = ground (arith, text_eq_refl (c ∷ suffix))
has_suffix-append (c ∷ s) suffix = ground (arith, has_suffix-append s suffix)
