-- ===== src/Pci/Scan.antt =====
-- `scan_for_nvidia_gpu` of src/pci_config.rs.
pub mod Laws
pub mod Enable
pub mod First
pub mod Windows
pub mod Card
use gpu_compute_nostd.Base.{
  ℕ, zero, suc, ◌+◌, Option, none, some, bit_and, bit_or, ◌>>>◌, ◌==◌, ◌!=◌, ◌&&◌, if◌then◌else◌,
}
use gpu_compute_nostd.Hardware.{Io, pure, ◌>>=◌, ◌>>◌}
use gpu_compute_nostd.Pci.Family.{GpuFamily, device_id_to_family, device_id_to_name}
use gpu_compute_nostd.Pci.Config.{
  nvidia_vendor_id, pci_vendor_id, pci_command, pci_class_code, pci_bar0, pci_bar1, pci_bar2,
  pci_bar3, pci_bar4, pci_bar5, pci_cmd_memory_space, pci_cmd_bus_master, pci_config_read32,
  pci_config_read16, pci_config_write16,
}
use gpu_compute_nostd.Pci.Bar.{decode_bar64, probe_bar_size}
use Prim.Native.String.{String}

pub record GpuPciDevice : Type 0 where
  pub bus : ℕ
  pub device : ℕ
  pub function : ℕ
  pub device_id : ℕ
  pub revision : ℕ
  pub family : GpuFamily
  pub bar0_base : ℕ
  pub bar0_size : ℕ
  pub bar1_base : ℕ
  pub bar1_size : ℕ
  pub bar2_base : ℕ
  pub bar2_size : ℕ
  pub name : String

-- the bases and sizes that the BARs decode to
pub record Bars : Type 0 where
  pub bar0_base : ℕ
  pub bar0_size : ℕ
  pub bar1_base : ℕ
  pub bar1_size : ℕ
  pub bar2_base : ℕ
  pub bar2_size : ℕ

-- the part of the loop body that reads and probes the BARs
unfoldable pub read_bars : ℕ → ℕ → Io Bars
read_bars bus device = do
  bar0_raw ← pci_config_read32 bus device 0 pci_bar0
  bar1_raw ← pci_config_read32 bus device 0 pci_bar1
  bar2_raw ← pci_config_read32 bus device 0 pci_bar2
  bar3_raw ← pci_config_read32 bus device 0 pci_bar3
  bar0_size ← probe_bar_size bus device 0 pci_bar0
  if bit_and bar0_raw 0x06 == 0x04
      then (do
        bar2_hi ← pci_config_read32 bus device 0 pci_bar3
        bar1_size ← probe_bar_size bus device 0 pci_bar2
        bar4_raw ← pci_config_read32 bus device 0 pci_bar4
        bar5_raw ← pci_config_read32 bus device 0 pci_bar5
        bar2_size ← probe_bar_size bus device 0 pci_bar4
        pure (record {
          bar0_base = (decode_bar64 bar0_raw bar1_raw).0;
          bar0_size = bar0_size;
          bar1_base = (decode_bar64 bar2_raw bar2_hi).0;
          bar1_size = bar1_size;
          bar2_base = (decode_bar64 bar4_raw bar5_raw).0;
          bar2_size = bar2_size;
        }))
      else (do
        bar1_size ← probe_bar_size bus device 0 pci_bar2
        pure (record {
          bar0_base = (decode_bar64 bar0_raw bar1_raw).0;
          bar0_size = bar0_size;
          bar1_base = (decode_bar64 bar2_raw bar3_raw).0;
          bar1_size = bar1_size;
          bar2_base = 0;
          bar2_size = 0;
        }))

-- the part that enables bus mastering and memory space
unfoldable pub enable_device : ℕ → ℕ → Io (Unit {0})
enable_device bus device = do
  cmd ← pci_config_read16 bus device 0 pci_command
  let new_cmd = bit_or (bit_or cmd pci_cmd_memory_space) pci_cmd_bus_master
  if cmd != new_cmd then pci_config_write16 bus device 0 pci_command new_cmd else pure tt

-- the body of the two loops; `none` is `continue`
unfoldable pub scan_slot : ℕ → ℕ → Io (Option GpuPciDevice)
scan_slot bus device = do
  vendor_device ← pci_config_read32 bus device 0 pci_vendor_id
  let vendor_id = bit_and vendor_device 0xFFFF
  let dev_id = bit_and (vendor_device >>> 16) 0xFFFF
  if vendor_id != nvidia_vendor_id then pure none else (do
    class_rev ← pci_config_read32 bus device 0 pci_class_code
    let class_code = bit_and (class_rev >>> 24) 0xFF
    let revision = bit_and class_rev 0xFF
    if class_code != 0x03 && class_code != 0x12 then pure none else (do
      bars ← read_bars bus device
      enable_device bus device
      pure (
          some (record {
            bus = bus;
            device = device;
            function = 0;
            device_id = dev_id;
            revision = revision;
            family = device_id_to_family dev_id;
            bar0_base = bars.bar0_base;
            bar0_size = bars.bar0_size;
            bar1_base = bars.bar1_base;
            bar1_size = bars.bar1_size;
            bar2_base = bars.bar2_base;
            bar2_size = bars.bar2_size;
            name = device_id_to_name dev_id;
          }))))

-- `for device in 0..32`, with `left` numbers to go from `device` on
unfoldable pub scan_bus : ℕ → ℕ → ℕ → Io (Option GpuPciDevice)
scan_bus bus device zero d h = (none, h)
scan_bus bus device (suc left) d h =
    let (r, h') = scan_slot bus device d h in
    elim r [ some p ↦ (some p, h') | none ↦ scan_bus bus (device + 1) left d h' ]

-- `for bus in 0..=255`, likewise
unfoldable pub scan_buses : ℕ → ℕ → Io (Option GpuPciDevice)
scan_buses bus zero d h = (none, h)
scan_buses bus (suc left) d h =
    let (r, h') = scan_bus bus 0 32 d h in
    elim r [ some p ↦ (some p, h') | none ↦ scan_buses (bus + 1) left d h' ]

unfoldable pub scan_for_nvidia_gpu : Io (Option GpuPciDevice)
scan_for_nvidia_gpu = scan_buses 0 256
