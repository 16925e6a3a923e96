-- ===== src/Pci/Config.antt =====
-- Configuration space access through the ports 0xCF8 and 0xCFC, of src/pci_config.rs.
pub mod Laws
pub mod Halves
use gpu_compute_nostd.Base.{ℕ, ◌+◌, ◌*◌, bit_and, bit_or, u32, not32, ◌<<◌, ◌>>>◌}
use gpu_compute_nostd.Hardware.{Io, pure, ◌>>=◌, ◌>>◌, in_port, out_port}

abbrev pub nvidia_vendor_id : ℕ
nvidia_vendor_id = 0x10DE

abbrev pub pci_vendor_id : ℕ
pci_vendor_id = 0x00

abbrev pub pci_device_id : ℕ
pci_device_id = 0x02

abbrev pub pci_command : ℕ
pci_command = 0x04

abbrev pub pci_status : ℕ
pci_status = 0x06

abbrev pub pci_revision : ℕ
pci_revision = 0x08

abbrev pub pci_class_code : ℕ
pci_class_code = 0x09

abbrev pub pci_bar0 : ℕ
pci_bar0 = 0x10

abbrev pub pci_bar1 : ℕ
pci_bar1 = 0x14

abbrev pub pci_bar2 : ℕ
pci_bar2 = 0x18

abbrev pub pci_bar3 : ℕ
pci_bar3 = 0x1C

abbrev pub pci_bar4 : ℕ
pci_bar4 = 0x20

abbrev pub pci_bar5 : ℕ
pci_bar5 = 0x24

abbrev pub pci_cmd_io_space : ℕ
pci_cmd_io_space = 1 << 0

abbrev pub pci_cmd_memory_space : ℕ
pci_cmd_memory_space = 1 << 1

abbrev pub pci_cmd_bus_master : ℕ
pci_cmd_bus_master = 1 << 2

-- the address that both accessors write to 0xCF8; `bus`, `device`, `function` and `offset` are bytes
unfoldable pub config_address : ℕ → ℕ → ℕ → ℕ → ℕ
config_address bus device function offset =
    bit_or (bit_or (bit_or (bit_or 0x8000_0000 (bus << 16)) (device << 11)) (function << 8))
      (bit_and offset 0xFC)

unfoldable pub pci_config_read32 : ℕ → ℕ → ℕ → ℕ → Io ℕ
pci_config_read32 bus device function offset = do
  out_port 0xCF8 (config_address bus device function offset)
  in_port 0xCFC

unfoldable pub pci_config_write32 : ℕ → ℕ → ℕ → ℕ → ℕ → Io (Unit {0})
pci_config_write32 bus device function offset value = do
  out_port 0xCF8 (config_address bus device function offset)
  out_port 0xCFC value

unfoldable pub pci_config_read16 : ℕ → ℕ → ℕ → ℕ → Io ℕ
unfolding pci_config_read32
pci_config_read16 bus device function offset = do
  val32 ← pci_config_read32 bus device function (bit_and offset 0xFC)
  pure (bit_and (val32 >>> (bit_and offset 2 * 8)) 0xFFFF)

unfoldable pub pci_config_write16 : ℕ → ℕ → ℕ → ℕ → ℕ → Io (Unit {0})
unfolding pci_config_read32 pci_config_write32
pci_config_write16 bus device function offset value = do
  val32 ← pci_config_read32 bus device function (bit_and offset 0xFC)
  let shift = bit_and offset 2 * 8
  let mask = not32 (u32 (0xFFFF << shift))
  let new_val = bit_or (bit_and val32 mask) (u32 (value << shift))
  pci_config_write32 bus device function (bit_and offset 0xFC) new_val
