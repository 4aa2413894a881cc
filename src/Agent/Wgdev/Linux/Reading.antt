-- ===== src/Agent/Wgdev/Linux/Reading.antt =====
-- The texts that SyncRoutes of internal/agent/wgdev keeps of IPv4 prefixes, and what they are read as.
use native.Mathlib.Nat.{mul-div_left, one-le-pow}
use home_kai.Base.{
  ℕ, ◌*◌, ◌/◌, ◌-◌, ◌^◌, ◌≤◌, ◌<◌, ltb, leb, Text, text_eq_iff, text_eq_refl, elem, Bool, true,
  false, ◌&&◌, some, ◌≡◌, ap, List, [], ◌∷◌, all, arith,
}
use home_kai.Netip.{Addr, invalid, v4, v6, Prefix, Ip6Text, masked, block4, show_prefix}
use home_kai.Netip.Parse.{parse_prefix}
use home_kai.Netip.Parse.Shown.{parse_prefix-show_prefix}
use home_kai.Agent.Wgdev.Routes.{wanted}
use home_kai.Agent.Wgdev.Linux.Kept.{reads_back, dst_text}

-- An IPv4 prefix, with its numbers in their range.
abbrev in_range : Addr → ℕ → Bool
in_range (v4 n) bits = ltb n (2 ^ 32) && leb bits 32
in_range _ bits = false

abbrev pub is_ip4 : Prefix → Bool
is_ip4 p = in_range p.addr p.bits

abbrev prefix4 : ℕ → ℕ → Prefix
prefix4 n bits = record { addr = v4 n; bits = bits }

masked_twice : (n bits : ℕ) → masked (masked (prefix4 n bits)) ≡ masked (prefix4 n bits)
unfolding masked
masked_twice n bits =
    ap (λ m. prefix4 (m * block4 bits) bits)
      (mul-div_left (n / block4 bits) (one-le-pow (32 - bits) 2 (omega arith)))

masked_le : (n b : ℕ) → n / b * b ≤ n
masked_le n b = grind arith

reads_back_of :
    (ip6 : Ip6Text) (s : Text) (p : Prefix)
    → parse_prefix ip6 s ≡ some p
    → dst_text ip6 p ≡ s
    → reads_back ip6 s ≡ true
reads_back_of ip6 s p e f = rw (e, reads_back) (rw f (text_eq_refl s))

reads_back-masked :
    (ip6 : Ip6Text) (n bits : ℕ)
    → in_range (v4 n) bits ≡ true
    → reads_back ip6 (dst_text ip6 (prefix4 n bits)) ≡ true
unfolding masked
reads_back-masked ip6 n bits h =
    let m = n / block4 bits * block4 bits in
    let le : m ≤ n = masked_le n (block4 bits) in
    let small : n < 2 ^ 32 = ground (arith, h) in
    let low : bits ≤ 32 = ground (arith, h) in
    reads_back_of ip6 (dst_text ip6 (prefix4 n bits)) (prefix4 m bits)
      (parse_prefix-show_prefix ip6 m bits (omega arith) low)
      (ap (show_prefix ip6) (masked_twice n bits))

range_of : (ip6 : Ip6Text) (p : Prefix) → is_ip4 p ≡ true → reads_back ip6 (dst_text ip6 p) ≡ true
range_of ip6 p h = by_addr p.addr p.bits h
  where
    by_addr :
        (a : Addr) (bits : ℕ)
        → in_range a bits ≡ true
        → reads_back ip6 (dst_text ip6 (record { addr = a; bits = bits })) ≡ true
    by_addr (v4 n) bits h = reads_back-masked ip6 n bits h
    by_addr invalid bits h = cc
    by_addr (v6 n z) bits h = cc

pub wanted-reads_back :
    (ip6 : Ip6Text) (prefixes : List Prefix) (t : Text)
    → all is_ip4 prefixes ≡ true
    → elem t (wanted ip6 prefixes) ≡ true
    → reads_back ip6 t ≡ true
unfolding wanted
wanted-reads_back ip6 [] t h m = cc
wanted-reads_back ip6 (p ∷ ps) t h m =
    let s = dst_text ip6 p in
    ground (arith, m, text_eq_iff t s, wanted-reads_back ip6 ps t, range_of ip6 p)
