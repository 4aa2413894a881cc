-- ===== src/Base/Lists.antt =====
-- Lists measured by native numbers, and the loops over slices that the program writes: search,
-- selection and collection, with a Boolean test.
use Prim.Native.Nat.{ℕ, zero, suc, ◌+◌, ◌≤◌, ◌<◌}
use mathlib.Core.Path.{◌≡◌, refl, sym, ◌∙◌, ap, fun_ext}
use mathlib.Core.Bool.{Bool, true, false, ◌&&◌, ◌||◌}
use mathlib.Core.Option.{Option, none, some}
use mathlib.Core.List.{List, [], ◌∷◌, ◌++◌, map, append_assoc, append-nil}
use mathlib.Core.Logic.{inl, inr}
use native.Mathlib.Omega.{arith}
use home_kai.Base.Tests.{if◌then◌else◌, ◌==◌, ==_iff, Option-cases}

module _ {ℓ} {A : Type ℓ} where
  abbrev pub length : List A → ℕ
  length [] = 0
  length (x ∷ xs) = suc (length xs)

  abbrev pub get_elem? : List A → ℕ → Option A
  get_elem? [] i = none
  get_elem? (x ∷ xs) zero = some x
  get_elem? (x ∷ xs) (suc i) = get_elem? xs i

  abbrev pub take : ℕ → List A → List A
  take zero xs = []
  take (suc n) [] = []
  take (suc n) (x ∷ xs) = x ∷ take n xs

  abbrev pub drop : ℕ → List A → List A
  drop zero xs = xs
  drop (suc n) [] = []
  drop (suc n) (x ∷ xs) = drop n xs

  abbrev pub is_empty : List A → Bool
  is_empty [] = true
  is_empty (x ∷ xs) = false

  -- Is there an element that passes the test?
  abbrev pub any : (A → Bool) → List A → Bool
  any p [] = false
  any p (x ∷ xs) = p x || any p xs

  -- Do all elements pass the test?
  abbrev pub all : (A → Bool) → List A → Bool
  all p [] = true
  all p (x ∷ xs) = p x && all p xs

  -- The elements that pass the test, in order.
  abbrev pub keep : (A → Bool) → List A → List A
  keep p [] = []
  keep p (x ∷ xs) = let rest = keep p xs in if p x then x ∷ rest else rest

  -- The first element that passes the test.
  abbrev pub find : (A → Bool) → List A → Option A
  find p [] = none
  find p (x ∷ xs) = let rest = find p xs in if p x then some x else rest

  -- The rows that pass the test, rewritten; the others as they are.
  abbrev pub update_where : (A → Bool) → (A → A) → List A → List A
  update_where p f [] = []
  update_where p f (x ∷ xs) = (if p x then f x else x) ∷ update_where p f xs

  pub any-append : (p : A → Bool) (xs ys : List A) → any p (xs ++ ys) ≡ (any p xs || any p ys)
  any-append p [] ys = refl
  any-append p (x ∷ xs) ys = ground (arith, any-append p xs ys)

  pub all-append : (p : A → Bool) (xs ys : List A) → all p (xs ++ ys) ≡ (all p xs && all p ys)
  all-append p [] ys = refl
  all-append p (x ∷ xs) ys = ground (arith, all-append p xs ys)

  pub any-keep : (p q : A → Bool) (xs : List A) → any p (keep q xs) ≡ any (λ x. q x && p x) xs
  any-keep p q [] = refl
  any-keep p q (x ∷ xs) = ground (arith, any-keep p q xs)

  pub all-keep_self : (p : A → Bool) (xs : List A) → all p (keep p xs) ≡ true
  all-keep_self p [] = refl
  all-keep_self p (x ∷ xs) = ground (arith, all-keep_self p xs)

  pub length-keep-le : (p : A → Bool) (xs : List A) → length (keep p xs) ≤ length xs
  length-keep-le p [] = omega arith
  length-keep-le p (x ∷ xs) = ground (arith, length-keep-le p xs)

  pub length-append : (xs ys : List A) → length (xs ++ ys) ≡ length xs + length ys
  length-append [] ys = omega arith
  length-append (x ∷ xs) ys = omega (arith, length-append xs ys)

  pub all-any :
      (p q : A → Bool) (xs : List A)
      → all p xs ≡ true
      → any q xs ≡ true
      → any (λ x. p x && q x) xs ≡ true
  all-any p q [] h k = k
  all-any p q (x ∷ xs) h k = ground (arith, all-any p q xs)

  pub find-some : (p : A → Bool) (xs : List A) (x : A) → find p xs ≡ some x → p x ≡ true
  find-some p [] x h = ground arith
  find-some p (y ∷ ys) x h = ground (arith, find-some p ys x)

  pub find-any : (p : A → Bool) (xs : List A) → any p xs ≡ false → find p xs ≡ none
  find-any p [] h = refl
  find-any p (y ∷ ys) h = ground (arith, find-any p ys)

module _ {ℓ κ} {A : Type ℓ} {B : Type κ} where
  -- The concatenation of what each element gives.
  abbrev pub gather : (A → List B) → List A → List B
  gather f [] = []
  gather f (x ∷ xs) = f x ++ gather f xs

  pub length-map : (f : A → B) (xs : List A) → length (map f xs) ≡ length xs
  length-map f [] = refl
  length-map f (x ∷ xs) = ap suc (length-map f xs)

  pub any-map : (p : B → Bool) (f : A → B) (xs : List A) → any p (map f xs) ≡ any (λ x. p (f x)) xs
  any-map p f [] = refl
  any-map p f (x ∷ xs) = ground (arith, any-map p f xs)

  pub any-gather :
      (p : B → Bool) (f : A → List B) (xs : List A)
      → any p (gather f xs) ≡ any (λ x. any p (f x)) xs
  any-gather p f [] = refl
  any-gather p f (x ∷ xs) = ground (arith, any-gather p f xs, any-append p (f x) (gather f xs))

-- Tests that agree everywhere select alike.
pub any_congr {ℓ} :
    {A : Type ℓ} {p q : A → Bool} → ((x : A) → p x ≡ q x) → (xs : List A) → any p xs ≡ any q xs
any_congr h xs = ap (λ f. any f xs) (fun_ext h)

pub all-map-keep {ℓ κ} :
    {A : Type ℓ} {B : Type κ} (p : B → Bool) (f : A → B) (q : A → Bool) (xs : List A)
    → all (λ x. p (f x)) xs ≡ true
    → all p (map f (keep q xs)) ≡ true
all-map-keep p f q [] h = refl
all-map-keep p f q (x ∷ xs) h = ground (arith, all-map-keep p f q xs)

module _ {ℓ κ} {A : Type ℓ} {B : Type κ} (f : A → Option B) where
  -- What `f` gives of the elements, in order.
  abbrev pub filter_map : List A → List B
  filter_map [] = []
  filter_map (x ∷ xs) = elim (f x) [ none ↦ filter_map xs | some y ↦ y ∷ filter_map xs ]

  -- A loop that appends what `f` gives to `out`, and breaks when `out` has `max` elements.
  unfoldable pub collect_upto : ℕ → List A → List B → List B
  collect_upto max [] out = out
  collect_upto max (x ∷ xs) out = elim (f x) [
    | none ↦ collect_upto max xs out
    | some y ↦ elim (length (out ++ y ∷ []) == max) [
      | true ↦ out ++ y ∷ []
      | false ↦ collect_upto max xs (out ++ y ∷ [])
    ]
  ]

  filter_map-none : (x : A) (xs : List A) → f x ≡ none → filter_map (x ∷ xs) ≡ filter_map xs
  filter_map-none x xs e = rw (e, filter_map)

  filter_map-some :
      (x : A) (xs : List A) {y : B} → f x ≡ some y → filter_map (x ∷ xs) ≡ y ∷ filter_map xs
  filter_map-some x xs e = rw (e, filter_map)

  upto-none :
      (max : ℕ) (x : A) (xs : List A) (out : List B)
      → f x ≡ none
      → collect_upto max (x ∷ xs) out ≡ collect_upto max xs out
  unfolding collect_upto
  upto-none max x xs out e = rw (e, collect_upto)

  upto-last :
      (max : ℕ) (x : A) (xs : List A) (out : List B) {y : B}
      → f x ≡ some y
      → length (out ++ y ∷ []) ≡ max
      → collect_upto max (x ∷ xs) out ≡ out ++ y ∷ []
  unfolding collect_upto
  upto-last max x xs out {y} e l =
      rw (e, collect_upto) (rw ((==_iff (length (out ++ y ∷ [])) max).1 l, collect_upto))

  upto-more :
      (max : ℕ) (x : A) (xs : List A) (out : List B) {y : B}
      → f x ≡ some y
      → (length (out ++ y ∷ []) == max) ≡ false
      → collect_upto max (x ∷ xs) out ≡ collect_upto max xs (out ++ y ∷ [])
  unfolding collect_upto
  upto-more max x xs out {y} e l = rw (e, collect_upto) (rw (l, collect_upto))

  collect_upto-append :
      (xs : List A) (max k : ℕ) (out : List B)
      → length out + suc k ≡ max
      → collect_upto max xs out ≡ out ++ take (suc k) (filter_map xs)
  collect_upto-append [] max k out h = unfold collect_upto in sym (append-nil out)
  collect_upto-append (x ∷ xs) max zero out h = elim (Option-cases (f x)) [
    | inl e ↦
        rw (upto-none max x xs out e, filter_map-none x xs e)
          (collect_upto-append xs max zero out h)
    | inr (y, e) ↦
        rw (filter_map-some x xs e)
          (upto-last max x xs out e (omega (arith, length-append out (y ∷ []))))
  ]
  collect_upto-append (x ∷ xs) max (suc k) out h = elim (Option-cases (f x)) [
    | inl e ↦
        rw (upto-none max x xs out e, filter_map-none x xs e)
          (collect_upto-append xs max (suc k) out h)
    | inr (y, e) ↦ rw (filter_map-some x xs e) (
        upto-more max x xs out e (ground (arith, length-append out (y ∷ [])))
        ∙ collect_upto-append xs max k (out ++ y ∷ []) (omega (arith, length-append out (y ∷ [])))
        ∙ append_assoc out (y ∷ []) (take (suc k) (filter_map xs)))
  ]

  pub collect_upto-eq-take :
      (xs : List A) (max : ℕ) → 0 < max → collect_upto max xs [] ≡ take max (filter_map xs)
  collect_upto-eq-take xs zero h = elim h [ ]
  collect_upto-eq-take xs (suc k) h = collect_upto-append xs (suc k) k [] (omega arith)

module _ {ℓ κ} {A : Type ℓ} {B : Type κ} where
  pub all-map_of :
      (p : B → Bool) (f : A → B) (xs : List A)
      → ((x : A) → p (f x) ≡ true)
      → all p (map f xs) ≡ true
  all-map_of p f [] h = refl
  all-map_of p f (x ∷ xs) h = ground (arith, h x, all-map_of p f xs h)

pub any-and {ℓ} :
    {A : Type ℓ} (b : Bool) (p : A → Bool) (xs : List A) → any (λ x. b && p x) xs ≡ (b && any p xs)
any-and b p [] = ground arith
any-and b p (x ∷ xs) = ground (arith, any-and b p xs)

-- What a stronger test finds everywhere, a weaker one does.
pub all_weaken {ℓ} :
    {A : Type ℓ} (p q : A → Bool) (xs : List A)
    → ((x : A) → p x ≡ true → q x ≡ true)
    → all p xs ≡ true
    → all q xs ≡ true
all_weaken p q [] f h = refl
all_weaken p q (x ∷ xs) f h = ground (arith, f x, all_weaken p q xs f)

pub all-gather {ℓ κ} :
    {A : Type ℓ} {B : Type κ} (q : B → Bool) (f : A → List B) (xs : List A)
    → ((x : A) → all q (f x) ≡ true)
    → all q (gather f xs) ≡ true
all-gather q f [] h = refl
all-gather q f (x ∷ xs) h =
    all-append q (f x) (gather f xs) ∙ ground (arith, h x, all-gather q f xs h)
