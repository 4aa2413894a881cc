-- ===== src/Netip/Parse/Ports.antt =====
-- Reading the text of an IPv4 address with a port back.
use native.Mathlib.Nat.{pow-succ'}
use home_kai.Base.{
  ℕ, zero, suc, ◌+◌, ◌-◌, ◌*◌, ◌/◌, ◌%◌, ◌^◌, ◌≤◌, ◌<◌, Text, true, false, some, ◌≡◌, refl, ◌∙◌, [],
  ◌∷◌, ◌++◌, all, all-append, ltb, is_empty, arith, Bool-cases, inl, inr,
}
use home_kai.Netip.{v4, Ip6Text, digit, show_octet, show_decimal, show_addr, show_addr_port}
use home_kai.Netip.Parse.{
  is_digit, digits_from, parse_digits, bracketed, bracketed_port, addr_port_parts, parse_addr_port,
}
use home_kai.Netip.Parse.Shown.{cut_last-append, cut_last-digits, parse_addr-show_addr}

digits_from-snoc :
    (acc : ℕ) (s : Text) (d : ℕ)
    → digits_from acc (s ++ d ∷ []) ≡ digits_from acc s * 10 + (d - b'0')
unfolding digits_from
digits_from-snoc acc [] d = refl
digits_from-snoc acc (c ∷ s) d = digits_from-snoc (acc * 10 + (c - b'0')) s d

is_empty-snoc : (s : Text) (d : ℕ) → is_empty (s ++ d ∷ []) ≡ false
is_empty-snoc [] d = refl
is_empty-snoc (c ∷ s) d = refl

show_decimal-digits : (fuel n : ℕ) → all is_digit (show_decimal fuel n) ≡ true
unfolding show_decimal
show_decimal-digits zero n = refl
show_decimal-digits (suc fuel) n = ground (
  arith,
  all-append is_digit (show_decimal fuel (n / 10)) (digit (n % 10) ∷ []),
  show_decimal-digits fuel (n / 10),
)

show_decimal-value : (fuel n : ℕ) → n < 10 ^ fuel → digits_from 0 (show_decimal fuel n) ≡ n
unfolding show_decimal digits_from
show_decimal-value zero n h = omega (arith, h)
show_decimal-value (suc fuel) n h = elim (Bool-cases (ltb n 10)) [
  | inl e ↦ rw (e, show_decimal) (ground (arith, e))
  | inr e ↦
      let small : n / 10 < 10 ^ fuel = omega (arith, pow-succ' 10 fuel) in
      rw (e, show_decimal)
        (digits_from-snoc 0 (show_decimal fuel (n / 10)) (digit (n % 10))
          ∙ rw (show_decimal-value fuel (n / 10) small) (omega arith))
]

show_decimal_nonempty : (fuel n : ℕ) → is_empty (show_decimal (suc fuel) n) ≡ false
unfolding show_decimal
show_decimal_nonempty fuel n =
    ground (arith, is_empty-snoc (show_decimal fuel (n / 10)) (digit (n % 10)))

parse_digits-show_decimal :
    (fuel n : ℕ) → n < 10 ^ suc fuel → parse_digits (show_decimal (suc fuel) n) ≡ some n
unfolding parse_digits
parse_digits-show_decimal fuel n h = ground (
  arith,
  show_decimal_nonempty fuel n,
  show_decimal-digits (suc fuel) n,
  show_decimal-value (suc fuel) n h,
)

module _ (ip6 : Ip6Text) where
  -- The text of an IPv4 address starts with a digit.
  bracketed-octet :
      (n : ℕ) (s : Text) → n < 256 → bracketed (show_octet n ++ s) ≡ some (false, show_octet n ++ s)
  unfolding show_octet
  bracketed-octet n s h = ground arith

  bracketed-show_addr :
      (n : ℕ) → n < 2 ^ 32 → bracketed (show_addr ip6 (v4 n)) ≡ some (false, show_addr ip6 (v4 n))
  unfolding show_addr
  bracketed-show_addr n h = bracketed-octet (n / 2 ^ 24) _ (omega arith)

  -- The text of an IPv4 address and a port is read as that address and port.
  pub parse_addr_port-show_addr_port :
      (n port : ℕ)
      → n < 2 ^ 32
      → port ≤ 65535
      → parse_addr_port ip6 (show_addr_port ip6 (record { addr = v4 n; port = port }))
        ≡ some (record { addr = v4 n; port = port })
  unfolding parse_addr_port show_addr_port addr_port_parts bracketed_port
  parse_addr_port-show_addr_port n port h k = ground (
    arith,
    cut_last-append b':' (show_addr ip6 (v4 n)) (show_decimal 5 port)
        (cut_last-digits b':' (show_decimal 5 port) refl (show_decimal-digits 5 port)),
    bracketed-show_addr n h,
    parse_addr-show_addr ip6 n h,
    parse_digits-show_decimal 4 port (omega arith),
  )
