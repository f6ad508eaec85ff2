-- ===== src/Sidecar/Subnets.antt =====
-- sidecar/src/main.rs: pick_subnet. An Ipv4Addr is its 32 bits, and the counter has 16.
pub mod Bounds
use serpentine.Prelude.{ℕ, zero, suc, ◌+◌, ◌*◌, ◌-◌, ◌/◌, ◌%◌, ◌^◌, max}

-- `|` on so many bits.
unfoldable pub bit_or : ℕ → ℕ → ℕ → ℕ
bit_or zero a b = 0
bit_or (suc bits) a b = max (a % 2) (b % 2) + 2 * bit_or bits (a / 2) (b / 2)

abbrev pub subnet_size : ℕ
subnet_size = 31

-- 198.18.0.0
abbrev pub subnet_prefix : ℕ
subnet_prefix = 198 * 16777216 + 18 * 65536

abbrev pub subnet_prefix_length : ℕ
subnet_prefix_length = 15

pub record Subnet : Type 0 where
  pub subnet : ℕ
  pub ip1 : ℕ
  pub ip2 : ℕ

-- The subnet for a value of the counter.
unfoldable pub subnet_of : ℕ → Subnet
unfolding bit_or
subnet_of counter =
    let subnet_free_bits = counter * 2 ^ (32 - subnet_size) % 4294967296 in
    let subnet = bit_or 32 subnet_prefix subnet_free_bits in
    record { subnet = subnet; ip1 = subnet; ip2 = bit_or 32 subnet 1 }

-- The subnet, and the counter, which `fetch_add` wraps.
unfoldable pub pick_subnet : ℕ → Subnet × ℕ
unfolding subnet_of
pick_subnet counter = (subnet_of counter, (counter + 1) % 65536)
