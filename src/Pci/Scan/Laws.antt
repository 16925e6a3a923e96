-- ===== src/Pci/Scan/Laws.antt =====
-- What `scan_for_nvidia_gpu` (src/pci_config.rs) returns.
use gpu_compute_nostd.Base.{
  ℕ, zero, suc, ◌+◌, ◌≤◌, ◌<◌, ◌≡◌, ◌⊎◌, refl, subst, Option, none, some, arith, bit_and, ◌>>>◌,
  ◌!=◌, ◌&&◌, Bool-cases, Option-cases, inl, inr,
}
use gpu_compute_nostd.Hardware.{Device, History}
use gpu_compute_nostd.Pci.Config.{
  pci_config_read32, nvidia_vendor_id, pci_vendor_id, pci_class_code,
}
use gpu_compute_nostd.Pci.Family.{device_id_to_family, device_id_to_name}
use gpu_compute_nostd.Pci.Scan.{GpuPciDevice, scan_slot, scan_bus, scan_buses, scan_for_nvidia_gpu}

-- what a read of configuration space finds, from a history on
abbrev pub found_at : Device → History → ℕ → ℕ → ℕ → ℕ
found_at d h bus device register = (pci_config_read32 bus device 0 register d h).0

-- The card that a result describes.
pub record IsCard (d : Device) (p : GpuPciDevice) : Type 0 where
  pub before : History
  pub between : History
  pub vendor : bit_and (found_at d before p.bus p.device pci_vendor_id) 0xFFFF ≡ nvidia_vendor_id
  pub id : bit_and (found_at d before p.bus p.device pci_vendor_id >>> 16) 0xFFFF ≡ p.device_id
  pub display :
      (bit_and (found_at d between p.bus p.device pci_class_code >>> 24) 0xFF ≡ 0x03)
      ⊎ (bit_and (found_at d between p.bus p.device pci_class_code >>> 24) 0xFF ≡ 0x12)
  pub function_zero : p.function ≡ 0
  pub family : p.family ≡ device_id_to_family p.device_id
  pub name : p.name ≡ device_id_to_name p.device_id

-- a result for this slot
abbrev OfSlot : Device → ℕ → ℕ → Option GpuPciDevice → Type 0
OfSlot d bus device none = Unit
OfSlot d bus device (some p) = (p.bus ≡ bus) × (p.device ≡ device) × IsCard d p

scan_slot-OfSlot :
    (bus device : ℕ) (d : Device) (h : History) → OfSlot d bus device (scan_slot bus device d h).0
unfolding scan_slot
scan_slot-OfSlot bus device d h =
    let v : ℕ × History = pci_config_read32 bus device 0 pci_vendor_id d h in
    let c : ℕ × History = pci_config_read32 bus device 0 pci_class_code d v.1 in
    elim (Bool-cases (bit_and v.0 0xFFFF != nvidia_vendor_id)) [
      | inl other ↦ rw (other, scan_slot) tt
      | inr ours ↦
          elim (Bool-cases
            ((bit_and (c.0 >>> 24) 0xFF != 0x03) && (bit_and (c.0 >>> 24) 0xFF != 0x12))) [
              | inl elsewhere ↦ rw (ours, elsewhere, scan_slot) tt
              | inr shows ↦
                  rw (ours, shows, scan_slot)
                    (
                      refl,
                      refl,
                      record {
                        before = h;
                        between = v.1;
                        vendor = ground arith;
                        id = refl;
                        display = ground arith;
                        function_zero = refl;
                        family = refl;
                        name = refl;
                      },
                    )
            ]
    ]

-- a result for some slot of these buses and devices
abbrev OfRange : Device → ℕ → ℕ → Option GpuPciDevice → Type 0
OfRange d buses devices none = Unit
OfRange d buses devices (some p) = (p.bus < buses) × (p.device < devices) × IsCard d p

OfSlot-OfRange :
    (d : Device) (bus device buses devices : ℕ) (r : Option GpuPciDevice)
    → bus < buses
    → device < devices
    → OfSlot d bus device r
    → OfRange d buses devices r
OfSlot-OfRange d bus device buses devices none b e s = tt
OfSlot-OfRange d bus device buses devices (some p) b e s =
    (omega (arith, s.0), omega (arith, s.1), s.2)

scan_bus-OfRange :
    (bus device left buses devices : ℕ) (d : Device) (h : History)
    → bus < buses
    → device + left ≤ devices
    → OfRange d buses devices (scan_bus bus device left d h).0
unfolding scan_bus
scan_bus-OfRange bus device zero buses devices d h b e = tt
scan_bus-OfRange bus device (suc left) buses devices d h b e =
    let one =
      OfSlot-OfRange d bus device buses devices (scan_slot bus device d h).0 b (omega arith)
        (scan_slot-OfSlot bus device d h) in
    elim (Option-cases (scan_slot bus device d h).0) [
      | inl skipped ↦
          rw (skipped, scan_bus)
            (scan_bus-OfRange bus (device + 1) left buses devices d (scan_slot bus device d h).1 b
              (omega arith))
      | inr (p, found) ↦ rw (found, scan_bus) (subst (OfRange d buses devices) found one)
    ]

scan_buses-OfRange :
    (bus left buses : ℕ) (d : Device) (h : History)
    → bus + left ≤ buses
    → OfRange d buses 32 (scan_buses bus left d h).0
unfolding scan_buses
scan_buses-OfRange bus zero buses d h e = tt
scan_buses-OfRange bus (suc left) buses d h e =
    let one = scan_bus-OfRange bus 0 32 buses 32 d h (omega arith) (omega arith) in
    elim (Option-cases (scan_bus bus 0 32 d h).0) [
      | inl skipped ↦
          rw (skipped, scan_buses)
            (scan_buses-OfRange (bus + 1) left buses d (scan_bus bus 0 32 d h).1 (omega arith))
      | inr (p, found) ↦ rw (found, scan_buses) (subst (OfRange d buses 32) found one)
    ]

-- A device that the scan returns stands in a slot of the 256 buses of 32 devices whose first
-- register read NVIDIA's vendor ID with this device ID, and whose class register then read a display
-- controller (0x03) or a processing accelerator (0x12); and its family and name are those of its ID.
pub scan_for_nvidia_gpu_lem :
    (d : Device) (h : History) {p : GpuPciDevice}
    → (scan_for_nvidia_gpu d h).0 ≡ some p
    → (p.bus < 256) × (p.device < 32) × IsCard d p
unfolding scan_for_nvidia_gpu
scan_for_nvidia_gpu_lem d h e =
    subst (OfRange d 256 32) e (scan_buses-OfRange 0 256 256 d h (omega arith))
