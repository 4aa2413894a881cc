-- ===== src/Text/Slug.antt =====
-- DNS labels: the laws of `Slug` of internal/text/text.go.
use home_kai.Base.{
  ℕ, Text, Bool, true, false, not, ◌&&◌, ◌≡◌, refl, ap, sym, [], ◌∷◌, ◌++◌, arith, ◌==◌, is_empty,
  if◌then◌else◌, Bool-cases, inl, inr, text_eq, text_eq_refl, text_eq_iff, ◌∙◌,
}
use home_kai.Text.{dash, is_alnum, to_lower, emit, slug_loop, trim_left, trim_right, slug}
use mathlib.Core.List.{append_assoc, append-nil}

-- Only [a-z0-9] and single dashes, with no dash at the front if `start` holds.
abbrev pub is_label_from : Bool → Text → Bool
is_label_from start [] = true
is_label_from start (c ∷ s) =
    let after_dash = is_label_from true s in
    let after_alnum = is_label_from false s in
    if c == dash then not start && after_dash else is_alnum c && after_alnum

abbrev pub ends_in_dash : Text → Bool
ends_in_dash [] = false
ends_in_dash (c ∷ []) = c == dash
ends_in_dash (c ∷ d ∷ s) = ends_in_dash (d ∷ s)

-- A DNS-safe label, or the empty text.
abbrev pub is_label : Text → Bool
is_label s = is_label_from true s && not (ends_in_dash s)

-- What the loop appends to `b`.
emits : Text → Bool → Text
emits [] swallow = []
emits (r ∷ rs) swallow = emit (to_lower r) swallow ++ emits rs (not (is_alnum (to_lower r)))

slug_loop-eq-emits :
    (s : Text) (swallow : Bool) (b : Text) → slug_loop s swallow b ≡ b ++ emits s swallow
unfolding slug_loop emits
slug_loop-eq-emits [] swallow b = sym (append-nil b)
slug_loop-eq-emits (r ∷ rs) swallow b =
    rw (slug_loop-eq-emits rs (not (is_alnum (to_lower r))) (b ++ emit (to_lower r) swallow))
      (append_assoc b (emit (to_lower r) swallow) (emits rs (not (is_alnum (to_lower r)))))

is_label_from-emit :
    (r : ℕ) (swallow : Bool) (rest : Text)
    → is_label_from (not (is_alnum r)) rest ≡ true
    → is_label_from swallow (emit r swallow ++ rest) ≡ true
is_label_from-emit r swallow rest h = ground arith

is_label_from-emits : (s : Text) (swallow : Bool) → is_label_from swallow (emits s swallow) ≡ true
unfolding emits
is_label_from-emits [] swallow = refl
is_label_from-emits (r ∷ rs) swallow =
    is_label_from-emit (to_lower r) swallow (emits rs (not (is_alnum (to_lower r))))
      (is_label_from-emits rs (not (is_alnum (to_lower r))))

trim_left-label : (s : Text) → is_label_from true s ≡ true → trim_left (λ c. c == dash) s ≡ s
unfolding trim_left
trim_left-label [] h = refl
trim_left-label (c ∷ s) h = ground arith

trim_right-label :
    (s : Text) (start : Bool)
    → is_label_from start s ≡ true
    → is_label_from start (trim_right (λ c. c == dash) s) ≡ true
unfolding trim_right
trim_right-label [] start h = refl
trim_right-label (c ∷ s) start h = ground (arith, trim_right-label s true, trim_right-label s false)

ends_in_dash-trim_right : (s : Text) → ends_in_dash (trim_right (λ c. c == dash) s) ≡ false
unfolding trim_right
ends_in_dash-trim_right [] = refl
ends_in_dash-trim_right (c ∷ s) = go (trim_right (λ d. d == dash) s) (ends_in_dash-trim_right s)
  where
    go :
        (t : Text)
        → ends_in_dash t ≡ false
        → ends_in_dash (if is_empty t && c == dash then [] else c ∷ t) ≡ false
    go [] h = ground arith
    go (d ∷ t) h = h

trim_right_self : (s : Text) → ends_in_dash s ≡ false → trim_right (λ c. c == dash) s ≡ s
unfolding trim_right
trim_right_self [] h = refl
trim_right_self (c ∷ []) h = ground arith
trim_right_self (c ∷ d ∷ s) h = ground (arith, trim_right_self (d ∷ s) h)

emits-label : (s : Text) (start : Bool) → is_label_from start s ≡ true → emits s start ≡ s
unfolding emits
emits-label [] start h = refl
emits-label (c ∷ s) start h = ground (arith, emits-label s true, emits-label s false)

slug-eq-trim : (s : Text) → slug s ≡ trim_right (λ c. c == dash) (emits s true)
unfolding slug
slug-eq-trim s =
    rw (slug_loop-eq-emits s true []) (
      ap (trim_right (λ c. c == dash))
        (trim_left-label (emits s true) (is_label_from-emits s true)))

-- Whatever the name, its slug has only [a-z0-9] and single inner dashes, or is empty.
pub slug-is_label : (s : Text) → is_label (slug s) ≡ true
slug-is_label s = rw (slug-eq-trim s) (
    ground (
      arith,
      trim_right-label (emits s true) true,
      is_label_from-emits s true,
      ends_in_dash-trim_right (emits s true),
    ))

slug_of_label : (s : Text) → is_label s ≡ true → slug s ≡ s
slug_of_label s h = rw (slug-eq-trim s) (ground (arith, emits-label s true, trim_right_self s))

-- A text is its own slug exactly when it is a label, so slugging twice is slugging once.
pub slug_fixed : (s : Text) → text_eq (slug s) s ≡ is_label s
slug_fixed s = elim (Bool-cases (is_label s)) [
  | inl h ↦ rw (h, slug_of_label s h) (text_eq_refl s)
  | inr h ↦ elim (Bool-cases (text_eq (slug s) s)) [
    | inl e ↦ cc (slug-is_label s, (text_eq_iff (slug s) s).0 e, h)
    | inr e ↦ e ∙ sym h
  ]
]
