-- ===== src/Netip.antt =====
-- The part of Go's net/netip that the program calls: addresses and prefixes as numbers, the
-- dotted form of an IPv4 address. The text of an IPv6 address, with its zone, is a parameter,
-- `Ip6Text`: its value and its zone, and the text of such a pair.
pub mod Parse
use home_kai.Base.{
  ℕ, zero, suc, ◌+◌, ◌-◌, ◌*◌, ◌/◌, ◌%◌, ◌^◌, Text, codes, Bool, true, false, Option, [], ◌∷◌, ◌++◌,
  ltb, ◌==◌, ◌&&◌, is_empty, if◌then◌else◌,
}

pub data Addr : Type 0 where
  invalid : Addr
  v4 : ℕ → Addr
  v6 : ℕ → Text → Addr

pub record Prefix : Type 0 where
  pub addr : Addr
  pub bits : ℕ

pub record Ip6Text : Type 0 where
  pub show : ℕ → Text → Text
  pub parse : Text → Option (ℕ × Text)

abbrev pub is4 : Addr → Bool
is4 (v4 n) = true
is4 _ = false

-- The number of addresses that share the first `bits` bits.
abbrev pub block4 : ℕ → ℕ
block4 bits = 2 ^ (32 - bits)

abbrev pub block6 : ℕ → ℕ
block6 bits = 2 ^ (128 - bits)

-- Addr.Next: the zero Addr behind the last address of a family
unfoldable pub next : Addr → Addr
next invalid = invalid
next (v4 n) = if n == 2 ^ 32 - 1 then invalid else v4 (n + 1)
next (v6 n z) = if n == 2 ^ 128 - 1 then invalid else v6 (n + 1) z

abbrev masked_addr : Addr → ℕ → Addr
masked_addr invalid bits = invalid
masked_addr (v4 n) bits = v4 ((n / block4 bits) * block4 bits)
masked_addr (v6 n z) bits = v6 ((n / block6 bits) * block6 bits) []

-- Prefix.Masked
unfoldable pub masked : Prefix → Prefix
masked p = record { addr = masked_addr p.addr p.bits; bits = p.bits }

abbrev same_block : Addr → Addr → ℕ → Bool
same_block (v4 a) (v4 b) bits = (a / block4 bits) == (b / block4 bits)
same_block (v6 a y) (v6 b z) bits = (a / block6 bits) == (b / block6 bits) && is_empty z
same_block _ _ bits = false

-- Prefix.Contains: an address with a zone is in no prefix
unfoldable pub contains : Prefix → Addr → Bool
contains p ip = same_block p.addr ip p.bits

-- Prefix.Overlaps: the shorter of the two prefixes contains the other's address
unfoldable pub overlaps : Prefix → Prefix → Bool
overlaps p q = same_block p.addr q.addr (if ltb p.bits q.bits then p.bits else q.bits)

-- Addr.Unmap: an IPv4-mapped IPv6 address is its IPv4 address
unfoldable pub unmap : Addr → Addr
unmap (v6 n z) = if (n / 2 ^ 32) == 0xffff then v4 (n % 2 ^ 32) else v6 n z
unmap a = a

-- Addr.IsLoopback
unfoldable pub is_loopback : Addr → Bool
is_loopback invalid = false
is_loopback (v4 n) = (n / 2 ^ 24) == 127
is_loopback (v6 n z) = n == 1

-- Addr.IsMulticast
unfoldable pub is_multicast : Addr → Bool
is_multicast invalid = false
is_multicast (v4 n) = (n / 2 ^ 28) == 14
is_multicast (v6 n z) = (n / 2 ^ 120) == 0xff

-- Addr.IsUnspecified
unfoldable pub is_unspecified : Addr → Bool
is_unspecified invalid = false
is_unspecified (v4 n) = n == 0
is_unspecified (v6 n z) = n == 0 && is_empty z

-- Addr.IsLinkLocalUnicast
unfoldable pub is_link_local_unicast : Addr → Bool
is_link_local_unicast invalid = false
is_link_local_unicast (v4 n) = (n / 2 ^ 16) == 0xa9fe
is_link_local_unicast (v6 n z) = (n / 2 ^ 118) == 0x3fa

pub record AddrPort : Type 0 where
  pub addr : Addr
  pub port : ℕ

abbrev digit : ℕ → ℕ
digit n = b'0' + n

-- The decimal text of a number below 1000.
show_octet : ℕ → Text
show_octet n =
    if ltb n 10
    then digit n ∷ []
    else if ltb n 100
    then digit (n / 10) ∷ digit (n % 10) ∷ []
    else digit (n / 100) ∷ digit (n / 10 % 10) ∷ digit (n % 10) ∷ []

-- The decimal text of a number of at most `fuel` digits; a port has at most five.
unfoldable pub show_decimal : ℕ → ℕ → Text
show_decimal zero n = []
show_decimal (suc fuel) n =
    let front = show_decimal fuel (n / 10) in
    if ltb n 10 then digit n ∷ [] else front ++ digit (n % 10) ∷ []

module _ (ip6 : Ip6Text) where
  -- Addr.String
  unfoldable pub show_addr : Addr → Text
  unfolding show_octet
  show_addr invalid = codes "invalid IP"
  show_addr (v4 n) =
      show_octet (n / 2 ^ 24)
      ++ (b'.'
          ∷ (show_octet (n / 2 ^ 16 % 256)
              ++ (b'.' ∷ (show_octet (n / 2 ^ 8 % 256) ++ (b'.' ∷ show_octet (n % 256))))))
  show_addr (v6 n z) = ip6.show n z

  -- Prefix.String
  unfoldable pub show_prefix : Prefix → Text
  unfolding show_addr show_octet
  show_prefix p = show_addr p.addr ++ (b'/' ∷ show_octet p.bits)

  -- AddrPort.String
  unfoldable pub show_addr_port : AddrPort → Text
  unfolding show_addr show_octet show_decimal
  show_addr_port ap =
      if is4 ap.addr
      then show_addr ap.addr ++ (b':' ∷ show_decimal 5 ap.port)
      else (b'[' ∷ show_addr ap.addr) ++ (b']' ∷ b':' ∷ show_decimal 5 ap.port)
