-- ===== src/Pci/Config/Halves.antt =====
-- The 16-bit accessors of src/pci_config.rs, which go through the whole 32-bit register.
use gpu_compute_nostd.Base.{
  ℕ, ◌+◌, ◌*◌, ◌/◌, ◌%◌, ◌^◌, ◌<◌, ◌≡◌, ◌⊎◌, ap, ◌∙◌, ◌∷◌, arith, bit_and, bit_or, u32, not32, ◌<<◌,
  ◌==◌, if◌then◌else◌, inl, inr, true, false,
}
use gpu_compute_nostd.Base.Bits.{bit_and_field, bit_and_ones, bit_or_sum, bit_or_fields_low}
use gpu_compute_nostd.Hardware.{port_in, port_out, Device, History}
use gpu_compute_nostd.Pci.Config.{config_address, pci_config_write16}

-- a read of the register at configuration address `a`
abbrev pub config_word : Device → ℕ → History → ℕ
config_word d a h = d.ports (port_out 0xCF8 a ∷ h) 0xCFC

-- The register at `a` holds what is written, and reading leaves it alone.
pub record IsConfigWord (d : Device) (a : ℕ) : Type 0 where
  pub written :
      (v : ℕ) (h : History) → config_word d a (port_out 0xCFC v ∷ port_out 0xCF8 a ∷ h) ≡ u32 v
  pub read_keeps :
      (h : History) → config_word d a (port_in 0xCFC ∷ port_out 0xCF8 a ∷ h) ≡ config_word d a h

-- the word with one half replaced: the half that an offset is in, at its second digit
abbrev pub replaced : ℕ → ℕ → ℕ → ℕ
replaced offset w value =
    if offset / 2 % 2 == 0 then w / 2 ^ 16 * 2 ^ 16 + value else value * 2 ^ 16 + w % 2 ^ 16

-- the value that `pci_config_write16` puts together
abbrev joined : ℕ → ℕ → ℕ → ℕ
joined offset w value =
    let shift = bit_and offset 2 * 8 in
    bit_or (bit_and w (not32 (u32 (0xFFFF << shift)))) (u32 (value << shift))

offset_half : (offset : ℕ) → (bit_and offset 2 ≡ 0) ⊎ (bit_and offset 2 ≡ 2)
offset_half offset = ground (arith, bit_and_field 1 1 offset)

joined_lem :
    (offset w value : ℕ)
    → w < 2 ^ 32
    → value < 2 ^ 16
    → joined offset w value ≡ replaced offset w value
joined_lem offset w value word half = elim (offset_half offset) [
  | inl low ↦
      let first : offset / 2 % 2 ≡ 0 = omega (arith, low, bit_and_field 1 1 offset) in
      let test : (offset / 2 % 2 == 0) ≡ true = ground arith in
      let upper : bit_and w 0xFFFF0000 ≡ w / 2 ^ 16 * 2 ^ 16 =
        omega (arith, bit_and_field 16 16 w) in
      rw (low, test, upper)
        (ap (bit_or (w / 2 ^ 16 * 2 ^ 16)) (omega arith)
          ∙ bit_or_sum 16 (w / 2 ^ 16 * 2 ^ 16) value (omega arith) half)
  | inr high ↦
      let second : offset / 2 % 2 ≡ 1 = omega (arith, high, bit_and_field 1 1 offset) in
      let test : (offset / 2 % 2 == 0) ≡ false = ground arith in
      let lower : bit_and w 0xFFFF ≡ w % 2 ^ 16 = bit_and_ones 16 w in
      rw (high, test, lower)
        (ap (bit_or (w % 2 ^ 16)) (omega arith)
          ∙ bit_or_fields_low 16 value (w % 2 ^ 16) (omega arith))
]

-- A 16-bit write replaces its half of the register and keeps the other; what it takes for the other
-- half is what it read, which the register is given back.
pub pci_config_write16_lem :
    (bus device function offset value : ℕ) (d : Device) (h : History)
    → value < 2 ^ 16
    → let a = config_address bus device function (bit_and offset 0xFC) in
      IsConfigWord d a
      → config_word d a (pci_config_write16 bus device function offset value d h).1
        ≡ replaced offset (config_word d a h) value
unfolding pci_config_write16
pci_config_write16_lem bus device function offset value d h half reg =
    let a : ℕ = config_address bus device function (bit_and offset 0xFC) in
    reg.written _ _
    ∙ ap u32 (joined_lem offset (config_word d a h) value (d.ports_word _ _) half)
    ∙ ground (arith, d.ports_word (port_out 0xCF8 a ∷ h) 0xCFC)
