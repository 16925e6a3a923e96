-- ===== src/Pci/Family/Ranges.antt =====
-- Which device IDs `device_id_to_family` (src/pci_config.rs) gives to the newest families.
use gpu_compute_nostd.Base.{
  ℕ, zero, suc, ◌/◌, ◌^◌, ◌≤◌, ◌<◌, ◌≡◌, ◌≢◌, ◌↔◌, refl, Bool, true, false, not, ◌&&◌, arith,
  within,
}
use gpu_compute_nostd.Pci.Family.{
  GpuFamily, kepler, maxwell, pascal, volta, turing, ampere, ada, unknown, family_of_block,
  device_id_to_family,
}

all_below : ℕ → (ℕ → Bool) → Bool
all_below zero p = true
all_below (suc n) p = p n && all_below n p

all_below_lem : (n : ℕ) (p : ℕ → Bool) (x : ℕ) → all_below n p ≡ true → x < n → p x ≡ true
unfolding all_below
all_below_lem zero p x h lt = absurd (omega arith)
all_below_lem (suc n) p x h lt = ground (arith, all_below_lem n p x)

-- the family and the block of IDs go together
abbrev agrees : GpuFamily → ℕ → Bool
agrees volta b = false
agrees ampere b = within 0x220 0x27F b
agrees ada b = within 0x280 0x28F b
agrees _ b = not (within 0x220 0x28F b)

table : all_below 0x1000 (λ b. agrees (family_of_block b) b) ≡ true
unfolding all_below family_of_block
table = refl

abbrev Ranges : GpuFamily → ℕ → Type 0
Ranges f b =
    (f ≢ volta)
    × ((f ≡ ada) ↔ ((0x280 ≤ b) × (b ≤ 0x28F)))
    × ((f ≡ ampere) ↔ ((0x220 ≤ b) × (b ≤ 0x27F)))

agrees-Ranges : (f : GpuFamily) (b : ℕ) → agrees f b ≡ true → Ranges f b
agrees-Ranges kepler b h = ground arith
agrees-Ranges maxwell b h = ground arith
agrees-Ranges pascal b h = ground arith
agrees-Ranges volta b h = absurd (cc)
agrees-Ranges turing b h = ground arith
agrees-Ranges ampere b h = ground arith
agrees-Ranges ada b h = ground arith
agrees-Ranges unknown b h = ground arith

-- Every 16-bit ID from 0x2200 to 0x27FF is Ampere, also those that later arms of the `match` name
-- for Ada; the IDs of Ada are those from 0x2800 to 0x28FF; and no ID is Volta.
pub device_id_to_family_ranges :
    (id : ℕ)
    → id < 2 ^ 16
    → (device_id_to_family id ≢ volta)
      × ((device_id_to_family id ≡ ada) ↔ ((0x2800 ≤ id) × (id < 0x2900)))
      × ((device_id_to_family id ≡ ampere) ↔ ((0x2200 ≤ id) × (id < 0x2800)))
unfolding device_id_to_family
device_id_to_family_ranges id word =
    let b : ℕ = id / 2 ^ 4 in
    let r = agrees-Ranges (family_of_block b) b (all_below_lem 0x1000 _ b table (omega arith)) in
    (
      r.0,
      (λ e. omega (arith, r.1.0 e), λ h. r.1.1 (omega arith)),
      (λ e. omega (arith, r.2.0 e), λ h. r.2.1 (omega arith)),
    )
