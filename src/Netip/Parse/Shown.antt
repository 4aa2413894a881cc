-- ===== src/Netip/Parse/Shown.antt =====
-- Reading the text of an IPv4 prefix back.
use home_kai.Base.{
  leb, leb→le, Bool-cases, inl, inr, ℕ, zero, suc, ◌/◌, ◌%◌, ◌^◌, ◌≤◌, ◌<◌, Text, Bool, true, false,
  ◌&&◌, none, some, ◌≡◌, refl, ap, ◌∙◌, [], ◌∷◌, ◌++◌, all, ◌==◌, arith,
}
use home_kai.Netip.{v4, Ip6Text, show_octet, show_addr, show_prefix}
use home_kai.Netip.Parse.{
  is_digit, parse_plain, parse_by, parse_fields, cut_last, prefix_parts, parse_addr, parse_prefix,
  parse_digits,
}
use home_kai.Text.{split_on}

-- The numbers that an octet or a length of a prefix can be: a property of each is a run.
holds_upto : (ℕ → Bool) → ℕ → Bool
holds_upto good zero = good zero
holds_upto good (suc top) = let lower = holds_upto good top in lower && good (suc top)

holds_at : (good : ℕ → Bool) (top n : ℕ) → n ≤ top → holds_upto good top ≡ true → good n ≡ true
unfolding holds_upto
holds_at good zero n le h = let e : n ≡ zero = omega arith in rw e h
holds_at good (suc top) n le h = elim (Bool-cases (leb n top)) [
  | inl lower ↦ holds_at good top n (leb→le n top lower) (ground (arith, h))
  | inr last ↦ let e : n ≡ suc top = ground (arith, last) in rw e (ground (arith, h))
]

abbrev reads_as : ℕ → ℕ → Bool
reads_as top n = elim (parse_plain top (show_octet n)) [ none ↦ false | some m ↦ m == n ]

octet_table : holds_upto (λ n. reads_as 255 n && all is_digit (show_octet n)) 255 ≡ true
unfolding holds_upto parse_plain show_octet parse_digits
octet_table = refl

bits_table : holds_upto (λ n. reads_as 32 n && all is_digit (show_octet n)) 32 ≡ true
unfolding holds_upto parse_plain show_octet parse_digits
bits_table = refl

read_octet : (n : ℕ) → n < 256 → parse_plain 255 (show_octet n) ≡ some n
read_octet n h = ground (arith, holds_at _ 255 n (omega arith) octet_table)

octet_digits : (n : ℕ) → n < 256 → all is_digit (show_octet n) ≡ true
octet_digits n h = ground (arith, holds_at _ 255 n (omega arith) octet_table)

read_bits : (n : ℕ) → n < 33 → parse_plain 32 (show_octet n) ≡ some n
read_bits n h = ground (arith, holds_at _ 32 n (omega arith) bits_table)

bits_digits : (n : ℕ) → n < 33 → all is_digit (show_octet n) ≡ true
bits_digits n h = ground (arith, holds_at _ 32 n (omega arith) bits_table)

split_on-digits :
    (sep : ℕ) (x s : Text)
    → is_digit sep ≡ false
    → all is_digit x ≡ true
    → split_on sep (x ++ sep ∷ s) ≡ x ∷ split_on sep s
unfolding split_on
split_on-digits sep [] s h d = ground arith
split_on-digits sep (c ∷ x) s h d = ground (arith, split_on-digits sep x s h)

split_on-last :
    (sep : ℕ) (x : Text) → is_digit sep ≡ false → all is_digit x ≡ true → split_on sep x ≡ x ∷ []
unfolding split_on
split_on-last sep [] h d = refl
split_on-last sep (c ∷ x) h d = ground (arith, split_on-last sep x h)

pub cut_last-digits :
    (sep : ℕ) (x : Text) → is_digit sep ≡ false → all is_digit x ≡ true → cut_last sep x ≡ none
unfolding cut_last
cut_last-digits sep [] h d = refl
cut_last-digits sep (c ∷ x) h d = ground (arith, cut_last-digits sep x h)

pub cut_last-append :
    (sep : ℕ) (a b : Text) → cut_last sep b ≡ none → cut_last sep (a ++ sep ∷ b) ≡ some (a, b)
unfolding cut_last
cut_last-append sep [] b h = ground (arith, h)
cut_last-append sep (c ∷ a) b h = ground (arith, cut_last-append sep a b)

module _ (ip6 : Ip6Text) where
  parse_by-digits :
      (whole x s : Text)
      → all is_digit x ≡ true
      → parse_by ip6 whole (x ++ b'.' ∷ s) ≡ parse_fields (split_on b'.' whole)
  unfolding parse_by
  parse_by-digits whole [] s h = refl
  parse_by-digits whole (c ∷ x) s h = ground (arith, parse_by-digits whole x s)

  abbrev dotted : Text → Text → Text → Text → Text
  dotted a b c d = a ++ (b'.' ∷ (b ++ (b'.' ∷ (c ++ (b'.' ∷ d)))))

  split_dotted :
      (a b c d : Text)
      → all is_digit a ≡ true
      → all is_digit b ≡ true
      → all is_digit c ≡ true
      → all is_digit d ≡ true
      → split_on b'.' (dotted a b c d) ≡ a ∷ b ∷ c ∷ d ∷ []
  split_dotted a b c d ha hb hc hd = ground (
    arith,
    split_on-digits b'.' a (b ++ (b'.' ∷ (c ++ (b'.' ∷ d)))) refl ha,
    split_on-digits b'.' b (c ++ (b'.' ∷ d)) refl hb,
    split_on-digits b'.' c d refl hc,
    split_on-last b'.' d refl hd,
  )

  pub parse_addr-show_addr :
      (n : ℕ) → n < 2 ^ 32 → parse_addr ip6 (show_addr ip6 (v4 n)) ≡ some (v4 n)
  unfolding parse_addr show_addr parse_fields
  parse_addr-show_addr n h =
      let a = n / 2 ^ 24 in
      let b = n / 2 ^ 16 % 256 in
      let c = n / 2 ^ 8 % 256 in
      let d = n % 256 in
      let whole = dotted (show_octet a) (show_octet b) (show_octet c) (show_octet d) in
      parse_by-digits whole (show_octet a) _ (octet_digits a (omega arith))
      ∙ (ap parse_fields (
            split_dotted (show_octet a) (show_octet b) (show_octet c) (show_octet d)
              (octet_digits a (omega arith)) (octet_digits b (omega arith))
              (octet_digits c (omega arith)) (octet_digits d (omega arith)))
          ∙ rw
              (
                read_octet a (omega arith),
                read_octet b (omega arith),
                read_octet c (omega arith),
                read_octet d (omega arith),
                parse_fields,
              )
              (ap (λ m. some (v4 m)) (omega arith)))

  -- The text of an IPv4 prefix reads back as the prefix.
  pub parse_prefix-show_prefix :
      (n bits : ℕ)
      → n < 2 ^ 32
      → bits ≤ 32
      → parse_prefix ip6 (show_prefix ip6 (record { addr = v4 n; bits = bits }))
        ≡ some (record { addr = v4 n; bits = bits })
  unfolding parse_prefix show_prefix prefix_parts
  parse_prefix-show_prefix n bits h k = ground (
    arith,
    cut_last-append b'/' (show_addr ip6 (v4 n)) (show_octet bits)
        (cut_last-digits b'/' (show_octet bits) refl (bits_digits bits (omega arith))),
    parse_addr-show_addr n h,
    read_bits bits (omega arith),
  )
