-- ===== src/Sidecar/Subnets/Bounds.antt =====
-- sidecar/src/main.rs: where the subnets lie.
use serpentine.Prelude.{
  ℕ, zero, suc, ◌+◌, ◌*◌, ◌/◌, ◌%◌, ◌≤◌, ◌<◌, ◌≡◌, ◌≢◌, ◌⊎◌, inl, inr, refl, ◌-◌, ◌^◌, max, arith,
}
use serpentine.Sidecar.Subnets.{bit_or, subnet_size, subnet_prefix, Subnet, subnet_of, pick_subnet}

abbrev pow : ℕ → ℕ
pow zero = 1
pow (suc k) = 2 * pow k

abbrev shifted : ℕ → ℕ → ℕ
shifted zero p = p
shifted (suc k) p = 2 * shifted k p

abbrev above : ℕ → ℕ → ℕ
above zero bits = bits
above (suc k) bits = suc (above k bits)

or_low : (a b : ℕ) → max (2 * a % 2) (b % 2) ≡ b % 2
or_low a b = omega arith

half_double : (a : ℕ) → 2 * a / 2 ≡ a
half_double a = omega arith

halves : (b : ℕ) → b % 2 + 2 * (b / 2) ≡ b
halves b = omega arith

or_zero : (b : ℕ) → max (b % 2) (0 % 2) ≡ b % 2
or_zero b = omega arith

bit_or_zero : (bits p : ℕ) → p < pow bits → bit_or bits p 0 ≡ p
unfolding bit_or
bit_or_zero zero p lt = omega arith
bit_or_zero (suc bits) p lt =
    let small : p / 2 < pow bits = omega arith in
    rw (or_zero p, bit_or_zero bits (p / 2) small) (halves p)

-- Where one number has zeros, the other's bits are added.
bit_or-shifted :
    (low bits p b : ℕ)
    → p < pow bits
    → b < pow low
    → bit_or (above low bits) (shifted low p) b ≡ shifted low p + b
unfolding bit_or
bit_or-shifted zero bits p b lt lt' =
    let none_left : b ≡ 0 = omega arith in rw none_left (omega (arith, bit_or_zero bits p lt))
bit_or-shifted (suc low) bits p b lt lt' =
    let small : b / 2 < pow low = omega arith in
    rw
      (
        or_low (shifted low p) b,
        half_double (shifted low p),
        bit_or-shifted low bits p (b / 2) lt small,
      )
      (omega arith)

prefix_bits : shifted 17 25353 ≡ subnet_prefix
prefix_bits = refl

free_bits :
    (counter : ℕ) → counter < 65536 → counter * 2 ^ (32 - subnet_size) % 4294967296 ≡ 2 * counter
free_bits counter lt = omega arith

ip1_lem : (counter : ℕ) → counter < 65536 → (subnet_of counter).ip1 ≡ subnet_prefix + 2 * counter
unfolding subnet_of
ip1_lem counter lt =
    let small : 2 * counter < pow 17 = omega arith in
    rw (free_bits counter lt) (bit_or-shifted 17 15 25353 (2 * counter) (omega arith) small)

halved : (counter : ℕ) → subnet_prefix + 2 * counter ≡ 2 * (1661534208 + counter)
halved counter = omega arith

ip2_lem : (counter : ℕ) → counter < 65536 → (subnet_of counter).ip2 ≡ (subnet_of counter).ip1 + 1
unfolding subnet_of
ip2_lem counter lt =
    let small : 2 * counter < pow 17 = omega arith in
    let low : 1661534208 + counter < pow 31 = omega arith in
    rw
      (
        free_bits counter lt,
        bit_or-shifted 17 15 25353 (2 * counter) (omega arith) small,
        halved counter,
      )
      (bit_or-shifted 1 31 (1661534208 + counter) 1 low (omega arith))

-- Two neighbouring addresses in 198.18.0.0/15.
abbrev pub IsInside : Subnet → Type 0
IsInside s = (subnet_prefix ≤ s.ip1) × ((s.ip2 ≡ s.ip1 + 1) × (s.ip2 < subnet_prefix + 131072))

order : (c d : ℕ) → c ≢ d → (c < d) ⊎ (d < c)
order c d ne = ground arith

apart :
    (s t : Subnet) (c d : ℕ)
    → s.ip1 ≡ subnet_prefix + 2 * c
    → s.ip2 ≡ s.ip1 + 1
    → t.ip1 ≡ subnet_prefix + 2 * d
    → t.ip2 ≡ t.ip1 + 1
    → c ≢ d
    → (s.ip2 < t.ip1) ⊎ (t.ip2 < s.ip1)
apart s t c d p q p' q' ne = elim (order c d ne) [
  | inl lt ↦ inl (omega arith)
  | inr lt ↦ inr (omega arith)
]

inside :
    (s : Subnet) (c : ℕ)
    → c < 65536
    → s.ip1 ≡ subnet_prefix + 2 * c
    → s.ip2 ≡ s.ip1 + 1
    → IsInside s
inside s c lt p q = (omega arith, (q, omega arith))

wraps : (c : ℕ) → (c + 1) % 65536 < 65536
wraps c = omega arith

-- Every subnet is two neighbouring addresses inside 198.18.0.0/15, the counter stays a u16, and
-- before it wraps no two subnets share an address.
pub pick_subnet-IsInside :
    (c d : ℕ)
    → c < 65536
    → d < 65536
    → c ≢ d
    → IsInside (pick_subnet c).0
      × (((pick_subnet c).1 < 65536)
          × (((pick_subnet c).0.ip2 < (pick_subnet d).0.ip1)
              ⊎ ((pick_subnet d).0.ip2 < (pick_subnet c).0.ip1)))
unfolding pick_subnet
pick_subnet-IsInside c d lt lt' ne =
    let p = ip1_lem c lt in
    let q = ip2_lem c lt in
    let p' = ip1_lem d lt' in
    let q' = ip2_lem d lt' in
    (inside (subnet_of c) c lt p q, (wraps c, apart (subnet_of c) (subnet_of d) c d p q p' q' ne))
