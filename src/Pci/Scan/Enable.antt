-- ===== src/Pci/Scan/Enable.antt =====
-- What `scan_for_nvidia_gpu` (src/pci_config.rs) does to the command register of the card it finds.
use gpu_compute_nostd.Base.{
  ℕ, ◌+◌, ◌*◌, ◌/◌, ◌%◌, ◌^◌, ◌≡◌, ap, ◌∙◌, ◌∷◌, arith, bit_and, bit_or, ◌!=◌, ◌>>>◌, Bool-cases,
  List, inl, inr,
}
use gpu_compute_nostd.Base.Bits.{bit_and_ones, bit_or_low, bit_or-zero}
use gpu_compute_nostd.Hardware.{port_in, port_out, Access, Device, History}
use gpu_compute_nostd.Pci.Config.{config_address, pci_config_read16, pci_config_read32, pci_command}
use gpu_compute_nostd.Pci.Config.Halves.{config_word, IsConfigWord, pci_config_write16_lem}
use gpu_compute_nostd.Pci.Scan.{enable_device}

abbrev enabled : ℕ → ℕ
enabled cmd = bit_or (bit_or cmd 2) 4

or_1 : (x : ℕ) → bit_or x 1 ≡ x / 2 * 2 + 1
or_1 x = omega (arith, bit_or_low x 1, bit_or-zero (x / 2))

or_2 : (x : ℕ) → bit_or x 2 ≡ x / 4 * 4 + 2 + x % 2
or_2 x = omega (arith, bit_or_low x 2, or_1 (x / 2))

-- bits 1 and 2 set and the others kept
enabled_lem : (x : ℕ) → enabled x ≡ x / 8 * 8 + 6 + x % 2
enabled_lem x = let y : ℕ = bit_or x 2 in omega (arith, bit_or_low y 4, or_2 (y / 2), or_2 x)

-- `scan_for_nvidia_gpu` sets bits 1 and 2 of the card's command register and leaves the other bits
-- of the register's word as they were: on any register that holds what is written to it and
-- that a read leaves alone.
pub enable_device_lem :
    (bus device : ℕ) (d : Device) (h : History)
    → let a = config_address bus device 0 pci_command in
      IsConfigWord d a
      → let w = config_word d a h in
        config_word d a (enable_device bus device d h).1 ≡ w / 8 * 8 + 6 + w % 2
unfolding enable_device pci_config_read16 pci_config_read32
enable_device_lem bus device d h reg =
    let a : ℕ = config_address bus device 0 pci_command in
    let w : ℕ = config_word d a h in
    let read : List Access = port_in 0xCFC ∷ port_out 0xCF8 a ∷ h in
    let cmd : ℕ = bit_and (w >>> 0) 0xFFFF in
    let value : cmd ≡ w % 2 ^ 16 = ap (λ t. bit_and t 0xFFFF) (omega arith) ∙ bit_and_ones 16 w in
    elim (Bool-cases (cmd != enabled cmd)) [
      | inl differs ↦ rw (differs) (
          pci_config_write16_lem bus device 0 pci_command (enabled cmd) d read
            (omega (arith, enabled_lem cmd)) reg
          ∙ ap (λ t. t / 2 ^ 16 * 2 ^ 16 + enabled cmd) (reg.read_keeps h)
          ∙ omega (arith, enabled_lem cmd))
      | inr same ↦ rw (same) (reg.read_keeps h ∙ ground (arith, enabled_lem cmd))
    ]
