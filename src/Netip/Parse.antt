-- ===== src/Netip/Parse.antt =====
-- Go's netip.ParseAddr, ParsePrefix and ParseAddrPort, and strconv.Atoi on the texts that the
-- program gives them.
pub mod Shown
pub mod Ports
use home_kai.Base.{
  ℕ, ◌+◌, ◌-◌, ◌*◌, Text, Bool, true, false, not, ◌&&◌, Option, none, some, List, [], ◌∷◌, all, leb,
  ◌==◌, is_empty, if◌then◌else◌,
}
use home_kai.Netip.{Addr, v4, v6, Prefix, AddrPort, Ip6Text, is4}
use home_kai.Text.{split_on}

abbrev is_digit : ℕ → Bool
is_digit c = leb b'0' c && leb c b'9'

digits_from : ℕ → Text → ℕ
digits_from acc [] = acc
digits_from acc (c ∷ s) = digits_from (acc * 10 + (c - b'0')) s

-- The value of a nonempty text of digits.
unfoldable pub parse_digits : Text → Option ℕ
unfolding digits_from
parse_digits s =
    if is_empty s then none else if all is_digit s then some (digits_from 0 s) else none

abbrev leading_zero : Text → Bool
leading_zero (c ∷ d ∷ s) = c == b'0'
leading_zero s = false

abbrev at_most : ℕ → Option ℕ → Option ℕ
at_most top none = none
at_most top (some n) = if leb n top then some n else none

-- A decimal with no leading zero, up to `top`.
parse_plain : ℕ → Text → Option ℕ
parse_plain top s = if leading_zero s then none else at_most top (parse_digits s)

abbrev octets : Option ℕ → Option ℕ → Option ℕ → Option ℕ → Option Addr
octets (some a) (some b) (some c) (some d) = some (v4 (((a * 256 + b) * 256 + c) * 256 + d))
octets _ _ _ _ = none

parse_fields : List Text → Option Addr
unfolding parse_plain parse_digits
parse_fields (a ∷ b ∷ c ∷ d ∷ []) =
    octets (parse_plain 255 a) (parse_plain 255 b) (parse_plain 255 c) (parse_plain 255 d)
parse_fields _ = none

abbrev from_ip6 : Option (ℕ × Text) → Option Addr
from_ip6 none = none
from_ip6 (some (n, z)) = some (v6 n z)

-- The text before the last `sep`, and the text behind it.
unfoldable pub cut_last : ℕ → Text → Option (Text × Text)
cut_last sep [] = none
cut_last sep (c ∷ s) = elim (cut_last sep s) [
  | some (a, b) ↦ some (c ∷ a, b)
  | none ↦ if c == sep then some ([], s) else none
]

abbrev addr_bits : Addr → ℕ
addr_bits a = if is4 a then 32 else 128

abbrev has_zone : Addr → Bool
has_zone (v6 n z) = not (is_empty z)
has_zone _ = false

abbrev with_bits : Addr → Option ℕ → Option Prefix
with_bits a none = none
with_bits a (some n) = if has_zone a then none else some (record { addr = a; bits = n })

abbrev with_port : Bool → Addr → Option ℕ → Option AddrPort
with_port bracket a none = none
with_port bracket a (some n) =
    if bracket && is4 a
    then none
    else if not bracket && not (is4 a)
    then none
    else some (record { addr = a; port = n })

-- [text] without its brackets
abbrev bracketed : Text → Option (Bool × Text)
bracketed [] = none
bracketed (c ∷ s) =
    if c == b'['
    then elim (cut_last b']' s) [ some (a, []) ↦ some (true, a) | _ ↦ none ]
    else some (false, c ∷ s)

module _ (ip6 : Ip6Text) where
  -- ParseAddr: the first of `.`, `:` and `%` decides the family
  parse_by : Text → Text → Option Addr
  unfolding parse_fields split_on
  parse_by whole [] = none
  parse_by whole (c ∷ s) =
      let rest = parse_by whole s in
      if c == b'.'
      then parse_fields (split_on b'.' whole)
      else if c == b':'
      then from_ip6 (ip6.parse whole)
      else if c == b'%'
      then none
      else rest

  unfoldable pub parse_addr : Text → Option Addr
  unfolding parse_by
  parse_addr s = parse_by s s

  prefix_parts : Option (Text × Text) → Option Prefix
  unfolding parse_addr parse_plain parse_digits
  prefix_parts none = none
  prefix_parts (some (ip, bits)) = elim (parse_addr ip) [
    | none ↦ none
    | some a ↦ with_bits a (parse_plain (addr_bits a) bits)
  ]

  unfoldable pub parse_prefix : Text → Option Prefix
  unfolding prefix_parts cut_last
  parse_prefix s = prefix_parts (cut_last b'/' s)

  bracketed_port : Option (Bool × Text) → Option ℕ → Option AddrPort
  unfolding parse_addr
  bracketed_port none port = none
  bracketed_port (some (bracket, ip)) port = elim (parse_addr ip) [
    | none ↦ none
    | some a ↦ with_port bracket a port
  ]

  addr_port_parts : Option (Text × Text) → Option AddrPort
  unfolding bracketed_port parse_digits cut_last
  addr_port_parts none = none
  addr_port_parts (some (ip, port)) =
      bracketed_port (bracketed ip) (at_most 65535 (parse_digits port))

  unfoldable pub parse_addr_port : Text → Option AddrPort
  unfolding addr_port_parts cut_last
  parse_addr_port s = addr_port_parts (cut_last b':' s)
