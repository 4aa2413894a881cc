-- ===== src/Agent/HostsFile/Search.antt =====
-- Searching a text for a marker, as internal/agent/hosts.go does, and the ends of lines.
use home_kai.Base.{
  ℕ, ◌+◌, Text, Bool, true, false, not, ◌&&◌, Option, none, some, ◌≡◌, refl, ap, [], ◌∷◌, ◌++◌, any,
  length, take, drop, is_empty, ◌==◌, arith,
}
use home_kai.Agent.HostsFile.{newline, has_prefix, index}

abbrev pub is_newline : ℕ → Bool
is_newline c = c == 10

-- Is the last line ended, if there is one?
abbrev pub ends_line : Text → Bool
ends_line [] = true
ends_line (c ∷ []) = c == 10
ends_line (c ∷ d ∷ s) = ends_line (d ∷ s)

ends_line-tail : (c : ℕ) (s : Text) → ends_line (c ∷ s) ≡ true → ends_line s ≡ true
ends_line-tail c [] h = refl
ends_line-tail c (d ∷ s) h = h

ends_line-newline : (c : ℕ) (s : Text) → ends_line (c ∷ s) ≡ true → any is_newline (c ∷ s) ≡ true
ends_line-newline c [] h = ground (arith, h)
ends_line-newline c (d ∷ s) h = ground (arith, ends_line-newline d s h)

ends_line-append :
    (s t : Text) → ends_line s ≡ true → ends_line t ≡ true → ends_line (s ++ t) ≡ true
ends_line-append [] t h k = k
ends_line-append (c ∷ []) [] h k = h
ends_line-append (c ∷ []) (d ∷ t) h k = k
ends_line-append (c ∷ d ∷ s) t h k = ends_line-append (d ∷ s) t h k

pub ends_line-snoc : (s : Text) → ends_line (s ++ newline) ≡ true
ends_line-snoc [] = refl
ends_line-snoc (c ∷ []) = refl
ends_line-snoc (c ∷ d ∷ s) = ends_line-snoc (d ∷ s)

-- Is the pattern on one line, and not empty?
abbrev pub in_line : Text → Bool
in_line p = not (any is_newline p) && not (is_empty p)

has_prefix-line :
    (s t p : Text)
    → any is_newline s ≡ true
    → any is_newline p ≡ false
    → has_prefix (s ++ t) p ≡ has_prefix s p
unfolding has_prefix
has_prefix-line [] t p h k = ground arith
has_prefix-line (c ∷ s) t [] h k = refl
has_prefix-line (c ∷ s) t (x ∷ p) h k = ground (arith, has_prefix-line s t p)

has_prefix-append : (p t : Text) → has_prefix (p ++ t) p ≡ true
unfolding has_prefix
has_prefix-append [] t = refl
has_prefix-append (x ∷ p) t = ground (arith, has_prefix-append p t)

pub has_prefix-longer : (p s t : Text) → has_prefix s p ≡ true → has_prefix (s ++ t) p ≡ true
unfolding has_prefix
has_prefix-longer [] s t h = refl
has_prefix-longer (x ∷ p) [] t h = ground arith
has_prefix-longer (x ∷ p) (c ∷ s) t h = ground (arith, has_prefix-longer p s t)

-- Is the text without the pattern, in ended lines?
abbrev pub is_free : Text → Text → Bool
is_free p s = ends_line s && elim (index s p) [ none ↦ true | some n ↦ false ]

is_free-tail :
    (p : Text) (c : ℕ) (s : Text)
    → is_free p (c ∷ s) ≡ true
    → (has_prefix (c ∷ s) p ≡ false) × (is_free p s ≡ true)
unfolding index
is_free-tail p c s h = (ground (arith, h), ground (arith, h, ends_line-tail c s))

abbrev later : ℕ → Option ℕ → Option ℕ
later n none = none
later n (some k) = some (n + k)

-- Behind a text without the pattern, the pattern is found where it is in the rest.
pub index-append :
    (p s t : Text)
    → in_line p ≡ true
    → is_free p s ≡ true
    → index (s ++ t) p ≡ later (length s) (index t p)
unfolding index
index-append p [] t h k = ground arith
index-append p (c ∷ s) t h k =
    let (first, rest) = is_free-tail p c s k in
    ground (arith, index-append p s t h rest, has_prefix-line (c ∷ s) t p, ends_line-newline c s)

pub is_free-append :
    (p s t : Text)
    → in_line p ≡ true
    → is_free p s ≡ true
    → is_free p t ≡ true
    → is_free p (s ++ t) ≡ true
is_free-append p s t h k l = ground (arith, index-append p s t h k, ends_line-append s t)

pub index_self : (p t : Text) → in_line p ≡ true → index (p ++ t) p ≡ some 0
unfolding index
index_self [] t h = ground arith
index_self (x ∷ p) t h = ground (arith, has_prefix-append (x ∷ p) t)

pub take-length : (s t : Text) → take (length s) (s ++ t) ≡ s
take-length [] t = refl
take-length (c ∷ s) t = ap (λ u. c ∷ u) (take-length s t)

pub drop-length : (s t : Text) → drop (length s) (s ++ t) ≡ t
drop-length [] t = refl
drop-length (c ∷ s) t = drop-length s t
