-- ===== src/Pci/Scan/First.antt =====
-- Which card `scan_for_nvidia_gpu` (src/pci_config.rs) returns when a machine has several.
use gpu_compute_nostd.Base.{
  ℕ, zero, suc, ◌+◌, ◌*◌, ◌/◌, ◌%◌, ◌^◌, ◌≤◌, ◌<◌, ◌≡◌, refl, ap, subst, sym, ◌∙◌, Bool, true,
  false, Option, none, some, arith, bit_and, ◌>>>◌, ◌!=◌, ◌==◌, ◌&&◌, ◌||◌, Bool-cases,
  Option-cases, inl, inr, ltb,
}
use gpu_compute_nostd.Base.Bits.{bit_and_ones}
use gpu_compute_nostd.Hardware.{Device, History}
use gpu_compute_nostd.Pci.Config.{
  pci_config_read32, nvidia_vendor_id, pci_vendor_id, pci_class_code,
}
use gpu_compute_nostd.Pci.Scan.{GpuPciDevice, scan_slot, scan_bus, scan_buses, scan_for_nvidia_gpu}

-- The identity registers of every slot always read as a table says: `space bus device register`.
pub record IsConfiguration (d : Device) (space : ℕ → ℕ → ℕ → ℕ) : Type 0 where
  pub vendor :
      (bus device : ℕ) (h : History)
      → bus < 256
      → device < 32
      → (pci_config_read32 bus device 0 pci_vendor_id d h).0 ≡ space bus device pci_vendor_id
  pub class :
      (bus device : ℕ) (h : History)
      → bus < 256
      → device < 32
      → (pci_config_read32 bus device 0 pci_class_code d h).0 ≡ space bus device pci_class_code

-- a slot that the table gives an NVIDIA display controller or processing accelerator
abbrev is_gpu : ℕ → ℕ → Bool
is_gpu vendor class =
    let code = bit_and (class >>> 24) 0xFF in
    (bit_and vendor 0xFFFF == nvidia_vendor_id) && ((code == 0x03) || (code == 0x12))

-- whether function 0 of a slot is such a card, the slots in the order of the scan: slot `n` is device
-- `n % 32` of bus `n / 32`
abbrev pub slot : (ℕ → ℕ → ℕ → ℕ) → ℕ → Bool
slot space n =
    is_gpu (space (n / 32) (n % 32) pci_vendor_id) (space (n / 32) (n % 32) pci_class_code)

-- no slot from `low` to below `high` has a card
abbrev pub IsEmpty : (ℕ → ℕ → ℕ → ℕ) → ℕ → ℕ → Type 0
IsEmpty space low high = (n : ℕ) → low ≤ n → n < high → slot space n ≡ false

-- the entry is for function 0 and has the device ID and the revision of the slot's registers
abbrev pub IsShown : (ℕ → ℕ → ℕ → ℕ) → GpuPciDevice → Type 0
IsShown space p =
    (p.function ≡ 0)
    × (p.device_id ≡ space p.bus p.device pci_vendor_id / 2 ^ 16 % 2 ^ 16)
    × (p.revision ≡ space p.bus p.device pci_class_code % 2 ^ 8)

-- the result is the first card from `low` to below `high`, with the ID and the revision that its
-- registers show
abbrev pub IsFirst : (ℕ → ℕ → ℕ → ℕ) → ℕ → ℕ → Option GpuPciDevice → Type 0
IsFirst space low high none = IsEmpty space low high
IsFirst space low high (some p) =
    let n = p.bus * 32 + p.device in
    (p.device < 32)
    × (low ≤ n)
    × (n < high)
    × (slot space n ≡ true)
    × IsEmpty space low n
    × IsShown space p

module _ (d : Device) (space : ℕ → ℕ → ℕ → ℕ) (config : IsConfiguration d space) where
  slot-split :
      (bus device : ℕ)
      → device < 32
      → slot space (bus * 32 + device)
        ≡ is_gpu (space bus device pci_vendor_id) (space bus device pci_class_code)
  slot-split bus device e =
      let b : (bus * 32 + device) / 32 ≡ bus = omega arith in
      let f : (bus * 32 + device) % 32 ≡ device = omega arith in rw (b, f) refl

  -- a step of the scan that found nothing, and the rest of it
  IsEmpty-IsFirst :
      {low middle start stop high : ℕ} (r : Option GpuPciDevice)
      → low ≤ start
      → start ≤ middle
      → stop ≡ high
      → IsEmpty space low middle
      → IsFirst space start stop r
      → IsFirst space low high r
  IsEmpty-IsFirst {start = start} none a b e before rest = λ n l u.
      elim (Bool-cases (ltb n start)) [
        | inl early ↦ before n l (ground arith)
        | inr late ↦ rest n (ground arith) (omega arith)
      ]
  IsEmpty-IsFirst {start = start} (some p) a b e before (f, l, u, found, rest, shown) = (
    f,
    omega arith,
    omega arith,
    found,
    λ n l' u'. elim (Bool-cases (ltb n start)) [
      | inl early ↦ before n l' (ground arith)
      | inr late ↦ rest n (ground arith) u'
    ],
    shown,
  )

  -- a step of the scan that found a card
  IsFirst-wider :
      {low middle low' high : ℕ} (p : GpuPciDevice)
      → low ≡ low'
      → middle ≤ high
      → IsFirst space low middle (some p)
      → IsFirst space low' high (some p)
  IsFirst-wider p e a (f, l, u, found, rest, shown) =
      (f, omega arith, omega arith, found, λ n l' u'. rest n (omega arith) u', shown)

  scan_slot-IsFirst :
      (bus device : ℕ) (h : History)
      → bus < 256
      → device < 32
      → IsFirst space (bus * 32 + device) (bus * 32 + suc device) (scan_slot bus device d h).0
  unfolding scan_slot
  scan_slot-IsFirst bus device h b e =
      let v : ℕ × History = pci_config_read32 bus device 0 pci_vendor_id d h in
      let c : ℕ × History = pci_config_read32 bus device 0 pci_class_code d v.1 in
      let n : ℕ = bus * 32 + device in
      let here : slot space n ≡ is_gpu v.0 c.0 =
        slot-split bus device e
        ∙ rw (sym (config.vendor bus device h b e), sym (config.class bus device v.1 b e)) refl in
      let alone : slot space n ≡ false → IsEmpty space n (bus * 32 + suc device) =
        λ s m l u. ap (slot space) (omega arith) ∙ s in
      elim (Bool-cases (bit_and v.0 0xFFFF != nvidia_vendor_id)) [
        | inl other ↦ rw (other, scan_slot) (alone (here ∙ ground arith))
        | inr ours ↦
            elim (Bool-cases
              ((bit_and (c.0 >>> 24) 0xFF != 0x03) && (bit_and (c.0 >>> 24) 0xFF != 0x12))) [
                | inl elsewhere ↦ rw (ours, elsewhere, scan_slot) (alone (here ∙ ground arith))
                | inr shows ↦
                    rw (ours, shows, scan_slot)
                      (
                        e,
                        omega arith,
                        omega arith,
                        here ∙ ground arith,
                        λ m l u. absurd (omega arith),
                        (
                          refl,
                          bit_and_ones 16 (v.0 >>> 16)
                              ∙ ap (λ t. t / 2 ^ 16 % 2 ^ 16) (config.vendor bus device h b e),
                          bit_and_ones 8 c.0
                              ∙ ap (λ t. t % 2 ^ 8) (config.class bus device v.1 b e),
                        ),
                      )
              ]
      ]

  scan_bus-IsFirst :
      (bus device left : ℕ) (h : History)
      → bus < 256
      → device + left ≤ 32
      → IsFirst space
          (bus * 32 + device)
          (bus * 32 + (device + left))
          (scan_bus bus device left d h).0
  unfolding scan_bus
  scan_bus-IsFirst bus device zero h b e = λ n l u. absurd (omega arith)
  scan_bus-IsFirst bus device (suc left) h b e =
      let one = scan_slot-IsFirst bus device h b (omega arith) in
      let n : ℕ = bus * 32 + device in
      let end : ℕ = bus * 32 + (device + suc left) in
      elim (Option-cases (scan_slot bus device d h).0) [
        | inl skipped ↦
            let empty = subst (IsFirst space n (bus * 32 + suc device)) skipped one in
            let rest =
              scan_bus-IsFirst bus (device + 1) left (scan_slot bus device d h).1 b (omega arith) in
            rw (skipped, scan_bus)
              (IsEmpty-IsFirst (scan_bus bus (device + 1) left d (scan_slot bus device d h).1).0
                (omega arith) (omega arith) (omega arith) empty rest)
        | inr (p, found) ↦
            rw (found, scan_bus)
              (IsFirst-wider p refl (omega arith)
                (subst (IsFirst space n (bus * 32 + suc device)) found one))
      ]

  scan_buses-IsFirst :
      (bus left : ℕ) (h : History)
      → bus + left ≤ 256
      → IsFirst space (bus * 32) ((bus + left) * 32) (scan_buses bus left d h).0
  unfolding scan_buses
  scan_buses-IsFirst bus zero h e = λ n l u. absurd (omega arith)
  scan_buses-IsFirst bus (suc left) h e =
      let range : Option GpuPciDevice → Type 0 =
        IsFirst space (bus * 32 + 0) (bus * 32 + (0 + 32)) in
      let one = scan_bus-IsFirst bus 0 32 h (omega arith) (omega arith) in
      elim (Option-cases (scan_bus bus 0 32 d h).0) [
        | inl skipped ↦
            let empty : IsEmpty space (bus * 32) (bus * 32 + 32) =
              λ n l u. subst range skipped one n (omega arith) (omega arith) in
            let rest = scan_buses-IsFirst (bus + 1) left (scan_bus bus 0 32 d h).1 (omega arith) in
            rw (skipped, scan_buses)
              (IsEmpty-IsFirst (scan_buses (bus + 1) left d (scan_bus bus 0 32 d h).1).0
                (omega arith) (omega arith) (omega arith) empty rest)
        | inr (p, found) ↦
            rw (found, scan_buses)
              (IsFirst-wider p (omega arith) (omega arith) (subst range found one))
      ]

-- On a machine whose vendor and class registers read the same every time, the scan returns the
-- first NVIDIA display controller or processing accelerator in the order of buses and devices,
-- function 0 of each, with the device ID in the upper half of its first register and the revision in
-- the lowest byte of its class register; and it returns `none` exactly if function 0 of no slot is
-- such a card, whatever the other functions are.
pub scan_for_nvidia_gpu-IsFirst :
    (d : Device) (space : ℕ → ℕ → ℕ → ℕ) (h : History)
    → IsConfiguration d space
    → IsFirst space 0 (256 * 32) (scan_for_nvidia_gpu d h).0
unfolding scan_for_nvidia_gpu
scan_for_nvidia_gpu-IsFirst d space h config =
    scan_buses-IsFirst d space config 0 256 h (omega arith)
