-- ===== src/Pci/Scan/Card.antt =====
-- The windows of the card that `scan_for_nvidia_gpu` (src/pci_config.rs) returns, over the whole scan.
use gpu_compute_nostd.Base.{
  ℕ, zero, suc, ◌+◌, ◌/◌, ◌≡◌, ◌≢◌, refl, subst, ◌∙◌, Option, none, some, arith, bit_and, bit_or,
  ◌>>>◌, ◌!=◌, ◌&&◌, Bool-cases, Option-cases, inl, inr,
}
use gpu_compute_nostd.Hardware.{Device, History}
use gpu_compute_nostd.Pci.Config.{
  pci_config_read32, pci_config_read16, pci_config_write16, pci_config_write32, nvidia_vendor_id,
  pci_vendor_id, pci_class_code, pci_command, pci_cmd_memory_space, pci_cmd_bus_master,
}
use gpu_compute_nostd.Pci.Bar.Probe.{Window, registers, aperture, io, lo, hi, BarSpace, told}
use gpu_compute_nostd.Pci.Scan.{
  GpuPciDevice, read_bars, enable_device, scan_slot, scan_bus, scan_buses, scan_for_nvidia_gpu,
}
use gpu_compute_nostd.Pci.Scan.Windows.{read_bars_lem}

-- the command register is no part of a BAR
command_far : (b : Window) → (pci_command / 4 ≢ lo b / 4) × (pci_command / 4 ≢ hi b / 4)
command_far registers = (omega arith, omega arith)
command_far aperture = (omega arith, omega arith)
command_far io = (omega arith, omega arith)

module _ {bus0 device0 : ℕ} {d : Device} (s : BarSpace d bus0 device0) where
  -- each base is at the second moment what it is at the first
  abbrev pub Stays : History → History → Type 0
  Stays h h' = (b : Window) → s.base b h' ≡ s.base b h

  enable_device-Stays : (h : History) → Stays h (enable_device bus0 device0 d h).1
  unfolding enable_device pci_config_read16 pci_config_write16 pci_config_read32 pci_config_write32
  enable_device-Stays h b =
      let cmd : ℕ = (pci_config_read16 bus0 device0 0 pci_command d h).0 in
      elim (Bool-cases (cmd != bit_or (bit_or cmd pci_cmd_memory_space) pci_cmd_bus_master)) [
        | inl differs ↦ rw differs (
            s.write_keeps b pci_command _ _ (omega arith) (command_far b).0 (command_far b).1
            ∙ s.read_keeps b _ _
            ∙ s.read_keeps b _ h)
        | inr same ↦ rw same (s.read_keeps b _ h)
      ]

  -- the windows that a result takes down, if it is for this slot, as they are at a moment
  abbrev pub HasWindows : History → GpuPciDevice → Type 0
  HasWindows h p =
      (p.bar0_base ≡ s.base registers h)
      × (p.bar0_size ≡ told s registers)
      × (p.bar1_base ≡ s.base aperture h)
      × (p.bar1_size ≡ told s aperture)
      × (p.bar2_base ≡ s.base io h)
      × (p.bar2_size ≡ told s io)

  -- what a part of the scan from `h` on comes to: nothing found and the bases untouched; or a
  -- card, and if it is the one in this slot its windows are taken down and left as they were
  abbrev Takes : History → Option GpuPciDevice × History → Type 0
  Takes h (none, h') = Stays h h'
  Takes h (some p, h') = p.bus ≡ bus0 → p.device ≡ device0 → HasWindows h p × Stays h h'

  later : (h h1 : History) (t : Option GpuPciDevice × History) → Stays h h1 → Takes h1 t → Takes h t
  later h h1 (none, h') stays takes = λ b. takes b ∙ stays b
  later h h1 (some p, h') stays takes = λ e f.
      let ((b0, z0, b1, z1, b2, z2), after) = takes e f in
      (
        (b0 ∙ stays registers, z0, b1 ∙ stays aperture, z1, b2 ∙ stays io, z2),
        λ b. after b ∙ stays b,
      )

  -- what the slot itself takes down
  shown :
      (bus device : ℕ) (h : History)
      → bus ≡ bus0
      → device ≡ device0
      → let (bars, h') = read_bars bus device d h in
        (bars.bar0_base ≡ s.base registers h)
        × (bars.bar0_size ≡ told s registers)
        × (bars.bar1_base ≡ s.base aperture h)
        × (bars.bar1_size ≡ told s aperture)
        × (bars.bar2_base ≡ s.base io h)
        × (bars.bar2_size ≡ told s io)
        × Stays h (enable_device bus device d h').1
  shown bus device h e f =
      let (b0, z0, b1, z1, b2, z2, after) = read_bars_lem s h in
      rw (e, f) (b0, z0, b1, z1, b2, z2, λ b. enable_device-Stays _ b ∙ after b)

  scan_slot-Takes : (bus device : ℕ) (h : History) → Takes h (scan_slot bus device d h)
  unfolding scan_slot pci_config_read32
  scan_slot-Takes bus device h =
      let v : ℕ × History = pci_config_read32 bus device 0 pci_vendor_id d h in
      let c : ℕ × History = pci_config_read32 bus device 0 pci_class_code d v.1 in
      let first : Stays h v.1 = λ b. s.read_keeps b _ h in
      let second : Stays h c.1 = λ b. s.read_keeps b _ _ ∙ first b in
      elim (Bool-cases (bit_and v.0 0xFFFF != nvidia_vendor_id)) [
        | inl other ↦ rw (other, scan_slot) first
        | inr ours ↦
            elim (Bool-cases
              ((bit_and (c.0 >>> 24) 0xFF != 0x03) && (bit_and (c.0 >>> 24) 0xFF != 0x12))) [
                | inl elsewhere ↦ rw (ours, elsewhere, scan_slot) second
                | inr shows ↦
                    rw (ours, shows, scan_slot)
                      (λ e f.
                        let (b0, z0, b1, z1, b2, z2, after) = shown bus device c.1 e f in
                        (
                          (b0 ∙ second registers, z0, b1 ∙ second aperture, z1, b2 ∙ second io, z2),
                          λ b. after b ∙ second b,
                        ))
              ]
      ]

  scan_bus-Takes : (bus device left : ℕ) (h : History) → Takes h (scan_bus bus device left d h)
  unfolding scan_bus
  scan_bus-Takes bus device zero h = λ b. refl
  scan_bus-Takes bus device (suc left) h =
      let h1 : History = (scan_slot bus device d h).1 in
      let one : Takes h ((scan_slot bus device d h).0, h1) = scan_slot-Takes bus device h in
      elim (Option-cases (scan_slot bus device d h).0) [
        | inl skipped ↦
            rw (skipped, scan_bus)
              (later h h1 (scan_bus bus (device + 1) left d h1)
                (subst (λ r. Takes h (r, h1)) skipped one)
                (scan_bus-Takes bus (device + 1) left h1))
        | inr (p, found) ↦ rw (found, scan_bus) (subst (λ r. Takes h (r, h1)) found one)
      ]

  scan_buses-Takes : (bus left : ℕ) (h : History) → Takes h (scan_buses bus left d h)
  unfolding scan_buses
  scan_buses-Takes bus zero h = λ b. refl
  scan_buses-Takes bus (suc left) h =
      let h1 : History = (scan_bus bus 0 32 d h).1 in
      let one : Takes h ((scan_bus bus 0 32 d h).0, h1) = scan_bus-Takes bus 0 32 h in
      elim (Option-cases (scan_bus bus 0 32 d h).0) [
        | inl skipped ↦
            rw (skipped, scan_buses)
              (later h h1 (scan_buses (bus + 1) left d h1)
                (subst (λ r. Takes h (r, h1)) skipped one) (scan_buses-Takes (bus + 1) left h1))
        | inr (p, found) ↦ rw (found, scan_buses) (subst (λ r. Takes h (r, h1)) found one)
      ]

-- The card that the scan returns, if its BARs are 64-bit ones: the bases and the sizes are those of its
-- windows, with 0 for a size of 4 GiB or more; and after the whole scan, with its probes and the
-- change of the command register, each window is where it was.
pub scan_for_nvidia_gpu-windows :
    (d : Device) (h : History) {p : GpuPciDevice}
    → (scan_for_nvidia_gpu d h).0 ≡ some p
    → (s : BarSpace d p.bus p.device) → HasWindows s h p × Stays s h (scan_for_nvidia_gpu d h).1
unfolding scan_for_nvidia_gpu
scan_for_nvidia_gpu-windows d h found s =
    subst (λ r. Takes s h (r, (scan_for_nvidia_gpu d h).1)) found (scan_buses-Takes s 0 256 h) refl
      refl
