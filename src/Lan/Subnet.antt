-- ===== src/Lan/Subnet.antt =====
-- The addresses of one subnet that are scanned.
use nimo_os_gateway.Base.{
  ℕ, zero, suc, ◌+◌, ◌-◌, ◌/◌, ◌%◌, ◌^◌, ◌≤◌, ◌<◌, ◌≡◌, ◌≢◌, refl, ◌⊎◌, inl, inr, false, not,
  if_intro, All-map, List, [], leb, ◌==◌, length, All, arith,
}
use nimo_os_gateway.Lan.{host_range, narrowed, block_size, block_base, subnet_hosts, is_link_local}

-- Strictly between the network and the broadcast address of a block of `size` addresses.
record IsWithin (base size h : ℕ) : Type 0 where
  above : base < h
  below : h + 1 < base + size

host_range-IsWithin :
    (base size i n : ℕ)
    → base + size ≤ 2 ^ 32
    → 1 ≤ i
    → i + n + 1 ≤ size
    → All (IsWithin base size) (host_range base i n)
unfolding host_range
host_range-IsWithin base size i zero fits low high = tt
host_range-IsWithin base size i (suc n) fits low high =
    (omega arith, host_range-IsWithin base size (i + 1) n fits (omega arith) (omega arith))

length-host_range : (base i n : ℕ) → length (host_range base i n) ≡ n
unfolding host_range
length-host_range base i zero = refl
length-host_range base i (suc n) = omega (arith, length-host_range base (i + 1) n)

-- The block that is scanned is a /24 or smaller; it ends within the 32 bits and holds the address.
narrowed-cases :
    (ones : ℕ)
    → leb 31 (narrowed ones) ≡ false
    → (narrowed ones ≡ 24)
      ⊎ ((narrowed ones ≡ 25)
          ⊎ ((narrowed ones ≡ 26)
              ⊎ ((narrowed ones ≡ 27)
                  ⊎ ((narrowed ones ≡ 28) ⊎ ((narrowed ones ≡ 29) ⊎ (narrowed ones ≡ 30))))))
narrowed-cases ones h = ground arith

-- What the blocks of these sizes have in common.
abbrev pub GoodBlock : ℕ → ℕ → Type 0
GoodBlock ip n =
    (block_base ip n + block_size n ≤ 2 ^ 32)
    × (2 < block_size n)
    × (block_size n ≤ 256)
    × (block_base ip n ≤ ip)
    × (ip < block_base ip n + block_size n)

narrowed-GoodBlock :
    (ip ones : ℕ) → ip < 2 ^ 32 → leb 31 (narrowed ones) ≡ false → GoodBlock ip (narrowed ones)
narrowed-GoodBlock ip ones fits h = elim (narrowed-cases ones h) [
  | inl e ↦ rw e (omega arith)
  | inr (inl e) ↦ rw e (omega arith)
  | inr (inr (inl e)) ↦ rw e (omega arith)
  | inr (inr (inr (inl e))) ↦ rw e (omega arith)
  | inr (inr (inr (inr (inl e)))) ↦ rw e (omega arith)
  | inr (inr (inr (inr (inr (inl e))))) ↦ rw e (omega arith)
  | inr (inr (inr (inr (inr (inr e))))) ↦ rw e (omega arith)
]

-- An address of the same /24 as `ip` and of the same block with `n` leading ones, and neither the
-- first nor the last of this block, which are its network and its broadcast address.
pub record IsHostOf (ip n h : ℕ) : Type 0 where
  pub near : h / 256 ≡ ip / 256
  pub local : h / 2 ^ (32 - n) ≡ ip / 2 ^ (32 - n)
  pub no_network : h % 2 ^ (32 - n) ≢ 0
  pub no_broadcast : h % 2 ^ (32 - n) + 1 ≢ 2 ^ (32 - n)

abbrev BlockHosts : ℕ → ℕ → Type 0
BlockHosts ip n =
    (h : ℕ)
    → block_base ip n < h
    → h + 1 < block_base ip n + block_size n
    → (h / 256 ≡ ip / 256)
      × (h / 2 ^ (32 - n) ≡ ip / 2 ^ (32 - n))
      × (h % 2 ^ (32 - n) ≢ 0)
      × (h % 2 ^ (32 - n) + 1 ≢ 2 ^ (32 - n))

narrowed-BlockHosts : (ip ones : ℕ) → leb 31 (narrowed ones) ≡ false → BlockHosts ip (narrowed ones)
narrowed-BlockHosts ip ones h = elim (narrowed-cases ones h) [
  | inl e ↦ rw e (λ x a b. omega arith)
  | inr (inl e) ↦ rw e (λ x a b. omega arith)
  | inr (inr (inl e)) ↦ rw e (λ x a b. omega arith)
  | inr (inr (inr (inl e))) ↦ rw e (λ x a b. omega arith)
  | inr (inr (inr (inr (inl e)))) ↦ rw e (λ x a b. omega arith)
  | inr (inr (inr (inr (inr (inl e))))) ↦ rw e (λ x a b. omega arith)
  | inr (inr (inr (inr (inr (inr e))))) ↦ rw e (λ x a b. omega arith)
]

-- The block that is scanned: at least 24 leading ones, and no fewer than the mask has.
abbrev pub Scanned : ℕ → ℕ → List ℕ → Type 0
Scanned ip ones hosts = (n : ℕ) × (24 ≤ n) × (ones ≤ n) × All (IsHostOf ip n) hosts

Scanned-nil : (ip ones : ℕ) → Scanned ip ones []
Scanned-nil ip ones = (24 + ones, omega arith, omega arith, tt)

narrowed-bounds : (ones : ℕ) → (24 ≤ narrowed ones) × (ones ≤ narrowed ones)
narrowed-bounds ones = ground arith

-- The scanned addresses are those of one block with at least 24 leading ones, and no fewer than the
-- mask has: each is in the /24 of the interface's own address and in this block, and is neither the
-- network nor the broadcast address of the block.
pub subnet_hosts-IsHostOf :
    (ip ones bits : ℕ) → ip < 2 ^ 32 → Scanned ip ones (subnet_hosts ip ones bits)
unfolding subnet_hosts
subnet_hosts-IsHostOf ip ones bits fits =
    if_intro (Scanned ip ones) (is_link_local ip) [] _ (λ e. Scanned-nil ip ones)
      λ e.
        if_intro (Scanned ip ones) (not (bits == 32)) [] _ (λ f. Scanned-nil ip ones)
          λ f.
            if_intro (Scanned ip ones) (leb 31 (narrowed ones)) [] _ (λ g. Scanned-nil ip ones)
              λ g.
                let good = narrowed-GoodBlock ip ones fits g in
                let (long, masked) = narrowed-bounds ones in
                let within =
                  host_range-IsWithin (block_base ip (narrowed ones)) (block_size (narrowed ones)) 1
                    _ good.0 (omega arith) (omega arith) in
                (
                  narrowed ones,
                  long,
                  masked,
                  All-map (IsWithin (block_base ip (narrowed ones)) (block_size (narrowed ones)))
                      (IsHostOf ip (narrowed ones)) _
                      (λ h w.
                        let (near, local, low, high) =
                          narrowed-BlockHosts ip ones g h w.above w.below in
                        record {
                          near = near;
                          local = local;
                          no_network = low;
                          no_broadcast = high;
                        })
                      within,
                )

abbrev Few : List ℕ → Type 0
Few hosts = length hosts ≤ 254

-- There are at most 254 of them, and none for a mask of 31 or 32 ones.
pub length-subnet_hosts :
    (ip ones bits : ℕ) → ip < 2 ^ 32 → length (subnet_hosts ip ones bits) ≤ 254
unfolding subnet_hosts
length-subnet_hosts ip ones bits fits =
    if_intro Few (is_link_local ip) [] _ (λ e. omega arith)
      λ e.
        if_intro Few (not (bits == 32)) [] _ (λ f. omega arith)
          λ f.
            if_intro Few (leb 31 (narrowed ones)) [] _ (λ g. omega arith)
              λ g.
                let good = narrowed-GoodBlock ip ones fits g in
                omega (
                  arith,
                  length-host_range (block_base ip (narrowed ones)) 1
                      (block_size (narrowed ones) - 2),
                )
