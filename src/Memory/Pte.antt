-- ===== src/Memory/Pte.antt =====
-- `GpuPte` of src/memory.rs.
use gpu_compute_nostd.Base.{
  ℕ, ◌+◌, ◌*◌, ◌/◌, ◌^◌, ◌<◌, ◌≡◌, refl, true, false, Bool, arith, bit_and, bit_or, not64, ◌!=◌, ap,
  ◌∙◌,
}
use gpu_compute_nostd.Base.Bits.{bit_and_field, bit_and_ones, bit_or_fields_low}

pub record GpuPte : Type 0 where
  pub raw : ℕ

abbrev pub aperture_vram : ℕ
aperture_vram = 0x0

abbrev pub aperture_sys_mem_coherent : ℕ
aperture_sys_mem_coherent = 0x2

abbrev pub aperture_sys_mem_noncoherent : ℕ
aperture_sys_mem_noncoherent = 0x4

unfoldable pub vram : ℕ → GpuPte
vram phys_addr = record { raw = bit_or (bit_or 1 aperture_vram) (bit_and phys_addr (not64 0xFFF)) }

unfoldable pub system_memory : ℕ → GpuPte
system_memory phys_addr = record {
  raw = bit_or (bit_or 1 aperture_sys_mem_coherent) (bit_and phys_addr (not64 0xFFF));
}

unfoldable pub invalid : GpuPte
invalid = record { raw = 0 }

unfoldable pub is_valid : GpuPte → Bool
is_valid p = bit_and p.raw 1 != 0

page_mask : (a : ℕ) → a < 2 ^ 64 → bit_and a (not64 0xFFF) ≡ a / 4096 * 4096
page_mask a h = omega (arith, bit_and_field 12 52 a)

-- A page table entry holds the address of the page in its upper 52 bits, the aperture below it,
-- and the valid bit, which `is_valid` reads; the `invalid` entry is not valid.
pub pte_fields :
    (phys_addr : ℕ)
    → phys_addr < 2 ^ 64
    → let page = phys_addr / 4096 * 4096 in
      ((vram phys_addr).raw ≡ page + aperture_vram + 1)
      × ((system_memory phys_addr).raw ≡ page + aperture_sys_mem_coherent + 1)
      × (is_valid (vram phys_addr) ≡ true)
      × (is_valid (system_memory phys_addr) ≡ true)
      × (is_valid invalid ≡ false)
unfolding vram system_memory is_valid invalid
pte_fields a h =
    let page : ℕ = a / 4096 in
    let raw_vram : bit_or 1 (bit_and a (not64 0xFFF)) ≡ page * 4096 + 1 =
      ap (bit_or 1) (page_mask a h) ∙ bit_or_fields_low 12 page 1 (omega arith) in
    let raw_system : bit_or 3 (bit_and a (not64 0xFFF)) ≡ page * 4096 + 3 =
      ap (bit_or 3) (page_mask a h) ∙ bit_or_fields_low 12 page 3 (omega arith) in
    (
      omega (arith, raw_vram),
      omega (arith, raw_system),
      rw raw_vram (ground (arith, bit_and_ones 1 (page * 4096 + 1))),
      rw raw_system (ground (arith, bit_and_ones 1 (page * 4096 + 3))),
      refl,
    )
