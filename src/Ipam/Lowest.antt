-- ===== src/Ipam/Lowest.antt =====
-- `AllocateIP` of internal/coordinator/ipam.go against a description of its result.
use Prim.Native.Nat.add
use native.Mathlib.Nat.{div-lt_iff_lt-mul, div-eq_of_lt-le, mul-div_left, two-pow-succ, one-le-pow}
use native.Mathlib.Decide.{ℕ_discrete}
use home_kai.Base.{
  ℕ, zero, suc, ◌+◌, ◌-◌, ◌*◌, ◌/◌, ◌^◌, ◌≤◌, ◌<◌, Text, Bool, true, false, ◌≡◌, ◌≢◌, refl, ap, ◌∙◌,
  List, arith, elem, Bool-cases, inl, inr,
}
use home_kai.Netip.{Addr, v4, Prefix, Ip6Text, block4, next, contains, show_addr}
use home_kai.Ipam.{
  Allocation, got, exhausted, set_bit, set_host_bits, broadcast_addr, allocate_from, allocate_ip,
}

pow-pos : (r : ℕ) → 0 < 2 ^ r
pow-pos r = one-le-pow r 2 (omega arith)

set_bit-even : (k r : ℕ) → set_bit ((k + k) * 2 ^ r) r ≡ (k + k + 1) * 2 ^ r
set_bit-even k r = rw (mul-div_left (k + k) (pow-pos r)) (ground arith)

-- Setting the host bits of a masked address adds all of them.
set_host_bits-masked : (r k : ℕ) → set_host_bits r (k * 2 ^ r) + 1 ≡ k * 2 ^ r + 2 ^ r
unfolding set_host_bits
set_host_bits-masked zero k = omega arith
set_host_bits-masked (suc r) k =
    let split : k * 2 ^ suc r ≡ (k + k) * 2 ^ r =
      omega (arith, ap (λ (t : ℕ). k * t) (two-pow-succ r)) in
    rw (split, set_bit-even k r) (omega (arith, set_host_bits-masked r (k + k + 1), two-pow-succ r))

module _ (ip6 : Ip6Text) (used : List Text) where
  -- Is the IPv4 address taken?
  abbrev pub is_used : ℕ → Bool
  is_used a = elem (show_addr ip6 (v4 a)) used

  -- What `AllocateIP` promises about the hosts strictly between `network` and `broadcast`.
  abbrev pub IsLowestFree : ℕ → ℕ → Allocation → Type 0
  IsLowestFree network broadcast (got (v4 a)) =
      (network < a)
      × (a < broadcast)
      × (is_used a ≡ false)
      × ((b : ℕ) → network < b → b < a → is_used b ≡ true)
  IsLowestFree network broadcast exhausted =
      (b : ℕ) → network < b → b < broadcast → is_used b ≡ true
  IsLowestFree network broadcast _ = ⊥

module _ (ip6 : Ip6Text) (used : List Text) (k bits : ℕ) where
  abbrev network : Prefix
  network = record { addr = v4 (k * block4 bits); bits = bits }

  in_network :
      (a : ℕ)
      → k * block4 bits ≤ a
      → a < k * block4 bits + block4 bits
      → contains network (v4 a) ≡ true
  unfolding contains
  in_network a lo hi =
      rw (mul-div_left k (pow-pos (32 - bits)))
        (rw (div-eq_of_lt-le {k = k} (block4 bits) {m = a} lo (omega arith)) (ground arith))

  module _ (top : ℕ) (e : top + 1 ≡ k * block4 bits + block4 bits) (small : top < 2 ^ 32) where
    step_end :
        (fuel : ℕ)
        → k * block4 bits ≤ top
        → allocate_from ip6 network (v4 top) used (suc fuel) (v4 top) ≡ exhausted
    unfolding allocate_from
    step_end fuel lo = ground arith

    step_used :
        (fuel a : ℕ)
        → k * block4 bits ≤ a
        → a < top
        → is_used ip6 used a ≡ true
        → allocate_from ip6 network (v4 top) used (suc fuel) (v4 a)
          ≡ allocate_from ip6 network (v4 top) used fuel (v4 (a + 1))
    unfolding allocate_from next
    step_used fuel a lo hi u = ground (arith, in_network a)

    step_free :
        (fuel a : ℕ)
        → k * block4 bits ≤ a
        → a < top
        → is_used ip6 used a ≡ false
        → allocate_from ip6 network (v4 top) used (suc fuel) (v4 a) ≡ got (v4 a)
    unfolding allocate_from
    step_free fuel a lo hi u = ground (arith, in_network a)

    below_next :
        (a : ℕ)
        → ((b : ℕ) → k * block4 bits < b → b < a → is_used ip6 used b ≡ true)
        → is_used ip6 used a ≡ true
        → (b : ℕ) → k * block4 bits < b
        → b < a + 1
        → is_used ip6 used b ≡ true
    below_next a below u b lo hi = elim (ℕ_discrete b a) [
      | yes q ↦ rw q u
      | no q ↦ below b lo (omega arith)
    ]

    loop :
        (fuel a : ℕ)
        → k * block4 bits < a
        → a ≤ top
        → top < a + fuel
        → ((b : ℕ) → k * block4 bits < b → b < a → is_used ip6 used b ≡ true)
        → IsLowestFree ip6 used
            (k * block4 bits)
            top
            (allocate_from ip6 network (v4 top) used fuel (v4 a))
    loop zero a lo hi enough below = absurd (omega arith)
    loop (suc fuel) a lo hi enough below = elim (ℕ_discrete a top) [
      | yes q ↦ rw (q, step_end fuel (omega arith)) (λ b l h. below b l (omega arith))
      | no q ↦ elim (Bool-cases (is_used ip6 used a)) [
        | inl u ↦
            rw (step_used fuel a (omega arith) (omega arith) u)
              (loop fuel (a + 1) (omega arith) (omega arith) (omega arith) (below_next a below u))
        | inr f ↦ rw (step_free fuel a (omega arith) (omega arith) f) (lo, omega arith, f, below)
      ]
    ]

pow-add : (d r : ℕ) → 2 ^ (d + r) ≡ 2 ^ d * 2 ^ r
pow-add zero r = simp add.zero (omega arith)
pow-add (suc d) r =
    rw add.suc
      (omega (arith, two-pow-succ (d + r), pow-add d r, ap (λ (t : ℕ). t * 2 ^ r) (two-pow-succ d)))

next_below : (a : ℕ) → a ≢ 2 ^ 32 - 1 → next (v4 a) ≡ v4 (a + 1)
unfolding next
next_below a h = ground arith

-- The block of an address ends within the 32 bits.
block_end :
    (n bits : ℕ) → n < 2 ^ 32 → bits ≤ 32 → n / block4 bits * block4 bits + block4 bits ≤ 2 ^ 32
block_end n bits small le =
    let whole : 2 ^ 32 ≡ 2 ^ bits * block4 bits =
      ap (λ (t : ℕ). 2 ^ t) {x = 32} {y = bits + (32 - bits)} (omega arith)
      ∙ pow-add bits (32 - bits) in
    let q : n / block4 bits < 2 ^ bits =
      (div-lt_iff_lt-mul (pow-pos (32 - bits))).1 (rw (← whole) small) in
    rw whole (grind arith)

module _ (ip6 : Ip6Text) (used : List Text) (k bits : ℕ) where
  past_block :
      block4 bits ≡ 1 → contains (network ip6 used k bits) (v4 (k * block4 bits + 1)) ≡ false
  unfolding contains
  past_block one =
      let mul : k * block4 bits ≡ k * 1 = ap (λ (t : ℕ). k * t) one in
      rw (mul-div_left k (pow-pos (32 - bits))) (
        rw
          (div-eq_of_lt-le {k = k + 1} (block4 bits) {m = k * block4 bits + 1} (omega arith)
            (omega arith))
          (ground arith))

  leaves_block :
      block4 bits ≡ 1 → contains (network ip6 used k bits) (next (v4 (k * block4 bits))) ≡ false
  unfolding next
  leaves_block one = elim (ℕ_discrete (k * block4 bits) (2 ^ 32 - 1)) [
    | yes q ↦ unfold contains in rw q
    | no q ↦ rw (next_below (k * block4 bits) q) (past_block one)
  ]

  step_out :
      (fuel : ℕ) (broadcast a : Addr)
      → contains (network ip6 used k bits) a ≡ false
      → allocate_from ip6 (network ip6 used k bits) broadcast used (suc fuel) a ≡ exhausted
  unfolding allocate_from
  step_out fuel broadcast a h = rw h

  start :
      (top : ℕ)
      → top + 1 ≡ k * block4 bits + block4 bits
      → top < 2 ^ 32
      → (fuel : ℕ) → fuel ≡ block4 bits
      → IsLowestFree ip6 used (k * block4 bits) top (
          allocate_from ip6
            (network ip6 used k bits)
            (v4 top)
            used
            fuel
            (next (v4 (k * block4 bits))))
  start top e small zero f = absurd (omega (arith, pow-pos (32 - bits)))
  start top e small (suc fuel) f = elim (ℕ_discrete (block4 bits) 1) [
    | yes one ↦
        rw (step_out fuel (v4 top) (next (v4 (k * block4 bits))) (leaves_block one))
          (λ b lo hi. absurd (omega arith))
    | no more ↦ rw (next_below (k * block4 bits) (omega (arith, pow-pos (32 - bits)))) (
        loop ip6 used k bits top e small (suc fuel) (k * block4 bits + 1) (omega arith)
          (omega (arith, pow-pos (32 - bits))) (omega arith) (λ b lo hi. absurd (omega arith)))
  ]

-- Of an IPv4 overlay of at most 32 bits, AllocateIP gives the lowest host address strictly between
-- the network and the broadcast address whose text is not used, or reports exhaustion when every
-- one of them is; its loop ends.
pub allocate_ip-IsLowestFree :
    (ip6 : Ip6Text) (used : List Text) (n bits : ℕ)
    → n < 2 ^ 32
    → bits ≤ 32
    → let low = (n / block4 bits) * block4 bits in
      IsLowestFree ip6 used low
        (low + block4 bits - 1)
        (allocate_ip ip6 (record { addr = v4 n; bits = bits }) used)
unfolding allocate_ip broadcast_addr
allocate_ip-IsLowestFree ip6 used n bits small le =
    let k = n / block4 bits in
    let top : set_host_bits (32 - bits) (k * block4 bits) ≡ k * block4 bits + block4 bits - 1 =
      omega (arith, set_host_bits-masked (32 - bits) k) in
    rw top (
      start ip6 used k bits (k * block4 bits + block4 bits - 1) (omega (arith, pow-pos (32 - bits)))
        (omega (arith, block_end n bits small le, pow-pos (32 - bits))) (block4 bits) refl)
