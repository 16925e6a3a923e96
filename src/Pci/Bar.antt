-- ===== src/Pci/Bar.antt =====
-- Base address registers, of src/pci_config.rs.
pub mod Laws
pub mod Granule
pub mod Probe
use gpu_compute_nostd.Base.{
  ℕ, ◌+◌, Bool, true, false, ◌||◌, bit_and, bit_or, u32, not32, not64, ◌<<◌, ◌==◌, if◌then◌else◌,
}
use gpu_compute_nostd.Hardware.{Io, pure, ◌>>=◌, ◌>>◌}
use gpu_compute_nostd.Pci.Config.{pci_config_read32, pci_config_write32}

-- the base and whether the BAR is in memory space
unfoldable pub decode_bar64 : ℕ → ℕ → ℕ × Bool
decode_bar64 bar_lo bar_hi =
    let is_64bit = bit_and bar_lo 0x06 == 0x04 in
    let is_mmio = bit_and bar_lo 0x01 == 0 in
    let base =
      if is_64bit
      then bit_or (bar_hi << 32) (bit_and bar_lo (not64 0xF))
      else bit_and bar_lo (not64 0xF) in
    (base, is_mmio)

-- what `probe_bar_size` makes of the word read back
unfoldable pub size_of_mask : ℕ → ℕ
size_of_mask size_mask =
    if size_mask == 0 || size_mask == 0xFFFF_FFFF
    then 0
    else (let mask = bit_and size_mask (not32 0xF) in if mask == 0 then 0 else u32 (not32 mask + 1))

unfoldable pub probe_bar_size : ℕ → ℕ → ℕ → ℕ → Io ℕ
unfolding size_of_mask
probe_bar_size bus device function bar_offset = do
  original ← pci_config_read32 bus device function bar_offset
  pci_config_write32 bus device function bar_offset 0xFFFF_FFFF
  size_mask ← pci_config_read32 bus device function bar_offset
  pci_config_write32 bus device function bar_offset original
  pure (size_of_mask size_mask)
