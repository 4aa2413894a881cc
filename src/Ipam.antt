-- ===== src/Ipam.antt =====
-- internal/coordinator/ipam.go: the allocation of overlay addresses.
pub mod Lowest
use home_kai.Base.{
  ℕ, zero, suc, ◌+◌, ◌-◌, ◌*◌, ◌/◌, ◌%◌, ◌^◌, Text, Bool, true, false, not, ◌&&◌, List, [], ◌∷◌,
  ◌==◌, if◌then◌else◌, elem,
}
use home_kai.Netip.{
  Addr, invalid, v4, v6, Prefix, Ip6Text, is4, block4, next, masked, contains, show_addr,
}

-- The outcome of `AllocateIP`. `out_of_fuel` stands for a loop that does not end.
pub data Allocation : Type 0 where
  got : Addr → Allocation
  exhausted : Allocation
  unsupported : Allocation
  out_of_fuel : Allocation

-- b[k/8] |= 1 << (7 - k%8), with `r = 31 - k` the weight of that bit in the address
abbrev set_bit : ℕ → ℕ → ℕ
set_bit n r = if (n / 2 ^ r % 2) == 0 then n + 2 ^ r else n

-- the loop `for i := p.Bits(); i < 32; i++`, with `r = 32 - i` rounds left
set_host_bits : ℕ → ℕ → ℕ
set_host_bits zero n = n
set_host_bits (suc r) n = set_host_bits r (set_bit n r)

abbrev broadcast_from : Addr → ℕ → Addr
broadcast_from (v4 n) bits = v4 (set_host_bits (32 - bits) n)
broadcast_from a bits = a

unfoldable pub broadcast_addr : Prefix → Addr
unfolding set_host_bits masked
broadcast_addr p = broadcast_from (masked p).addr p.bits

abbrev pub v4_eq : Addr → Addr → Bool
v4_eq (v4 a) (v4 b) = a == b
v4_eq _ _ = false

module _ (ip6 : Ip6Text) where
  -- the loop of `AllocateIP`; all addresses here are IPv4
  allocate_from : Prefix → Addr → List Text → ℕ → Addr → Allocation
  allocate_from network broadcast used zero addr = out_of_fuel
  allocate_from network broadcast used (suc fuel) addr =
      let rest = allocate_from network broadcast used fuel (next addr) in
      if contains network addr && not (v4_eq addr broadcast)
      then if elem (show_addr ip6 addr) used then rest else got addr
      else exhausted

  unfoldable pub allocate_ip : Prefix → List Text → Allocation
  unfolding allocate_from masked next contains
  allocate_ip cidr used =
      if is4 cidr.addr
      then allocate_from (masked cidr) (broadcast_addr cidr) used (block4 cidr.bits)
          (next (masked cidr).addr)
      else unsupported

-- HubIP: the loop makes `HubHostOffset` = 1 step
unfoldable pub hub_ip : Prefix → Addr
unfolding next masked
hub_ip cidr = next (masked cidr).addr
