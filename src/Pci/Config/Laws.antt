-- ===== src/Pci/Config/Laws.antt =====
-- The configuration addresses of src/pci_config.rs.
use gpu_compute_nostd.Base.{ℕ, ◌+◌, ◌*◌, ◌/◌, ◌%◌, ◌^◌, ◌<◌, ◌≡◌, ◌↔◌, refl, arith}
use gpu_compute_nostd.Base.Bits.{bit_and_field, bit_or_sum}
use gpu_compute_nostd.Pci.Config.{config_address}

-- The address is the enable bit with the bus, the device, the function and the register in the
-- fields that the PCI mechanism asks for.
address_sum :
    (bus device function offset : ℕ)
    → bus < 2 ^ 8
    → device < 2 ^ 5
    → function < 2 ^ 3
    → config_address bus device function offset
      ≡ 2 ^ 31 + bus * 2 ^ 16 + device * 2 ^ 11 + function * 2 ^ 8 + offset / 4 % 2 ^ 6 * 4
unfolding config_address
address_sum bus device function offset b dv f = rw (bit_and_field 2 6 offset) (
    rw (bit_or_sum 31 (2 ^ 31) (bus * 2 ^ 16) (omega arith) (omega arith)) (
      rw (bit_or_sum 16 (2 ^ 31 + bus * 2 ^ 16) (device * 2 ^ 11) (omega arith) (omega arith)) (
        rw
          (bit_or_sum 11 (2 ^ 31 + bus * 2 ^ 16 + device * 2 ^ 11) (function * 2 ^ 8) (omega arith)
            (omega arith))
          (rw
            (bit_or_sum 8 (2 ^ 31 + bus * 2 ^ 16 + device * 2 ^ 11 + function * 2 ^ 8)
              (offset / 4 % 2 ^ 6 * 4) (omega arith) (omega arith))
            refl))))

-- Two places of the configuration space, in the ranges of the mechanism, have the same address exactly if they are the same
-- function of the same device on the same bus and lie in the same 32-bit register.
pub config_address_iff :
    (bus device function offset bus' device' function' offset' : ℕ)
    → bus < 2 ^ 8
    → device < 2 ^ 5
    → function < 2 ^ 3
    → offset < 2 ^ 8
    → bus' < 2 ^ 8
    → device' < 2 ^ 5
    → function' < 2 ^ 3
    → offset' < 2 ^ 8
    → (config_address bus device function offset ≡ config_address bus' device' function' offset')
      ↔ ((bus ≡ bus') × (device ≡ device') × (function ≡ function') × (offset / 4 ≡ offset' / 4))
config_address_iff bus device function offset bus' device' function' offset' b dv f o b' dv' f' o' =
    let here = address_sum bus device function offset b dv f in
    let there = address_sum bus' device' function' offset' b' dv' f' in
    (λ e. omega (arith, here, there), λ e. omega (arith, here, there))
