-- ===== src/Pci/Family.antt =====
-- GPU families and names by PCI device ID, of src/pci_config.rs.
pub mod Ranges
use gpu_compute_nostd.Base.{ℕ, within, ◌==◌, ◌>>>◌, if◌then◌else◌}
use gpu_compute_nostd.Base.Text.{hex4}
use Prim.Native.String.{String, ◌++◌}

pub data GpuFamily : Type 0 where
  kepler maxwell pascal volta turing ampere ada unknown : GpuFamily

-- `impl Display for GpuFamily`
unfoldable pub family_name : GpuFamily → String
family_name kepler = "Kepler"
family_name maxwell = "Maxwell"
family_name pascal = "Pascal"
family_name volta = "Volta"
family_name turing = "Turing"
family_name ampere = "Ampere"
family_name ada = "Ada Lovelace"
family_name unknown = "Unknown"

-- the arms of the `match`, in order, on `device_id >> 4`
family_of_block : ℕ → GpuFamily
family_of_block b =
    if within 0x0E0 0x0EF b
    then kepler
    else if within 0x0F0 0x0FF b
    then kepler
    else if within 0x100 0x10F b
    then kepler
    else if within 0x118 0x11F b
    then kepler
    else if within 0x130 0x13F b
    then maxwell
    else if within 0x140 0x14F b
    then maxwell
    else if within 0x170 0x17F b
    then maxwell
    else if within 0x150 0x15F b
    then pascal
    else if within 0x1B0 0x1BF b
    then pascal
    else if within 0x1C0 0x1CF b
    then pascal
    else if within 0x1D0 0x1DF b
    then pascal
    else if within 0x1D8 0x1DF b
    then volta
    else if within 0x1E0 0x1EF b
    then turing
    else if within 0x1F0 0x1FF b
    then turing
    else if within 0x218 0x21F b
    then turing
    else if within 0x220 0x22F b
    then ampere
    else if within 0x230 0x23F b
    then ampere
    else if within 0x240 0x24F b
    then ampere
    else if within 0x250 0x25F b
    then ampere
    else if within 0x260 0x27F b
    then ampere
    else if within 0x260 0x26F b
    then ada
    else if within 0x270 0x27F b
    then ada
    else if within 0x280 0x28F b
    then ada
    else unknown

unfoldable pub device_id_to_family : ℕ → GpuFamily
unfolding family_of_block
device_id_to_family device_id = family_of_block (device_id >>> 4)

unfoldable pub device_id_to_name : ℕ → String
device_id_to_name device_id =
    if device_id == 0x2482
    then "NVIDIA GeForce RTX 3070 Ti"
    else if device_id == 0x2484
    then "NVIDIA GeForce RTX 3070 Ti"
    else if device_id == 0x2486
    then "NVIDIA GeForce RTX 3070 Ti Mobile"
    else if device_id == 0x2488
    then "NVIDIA GeForce RTX 3070 Ti Laptop GPU"
    else if device_id == 0x2204
    then "NVIDIA GeForce RTX 3090"
    else if device_id == 0x2206
    then "NVIDIA GeForce RTX 3080"
    else if device_id == 0x2208
    then "NVIDIA GeForce RTX 3080 Ti"
    else if device_id == 0x2503
    then "NVIDIA GeForce RTX 3060"
    else if device_id == 0x2504
    then "NVIDIA GeForce RTX 3060 Ti"
    else if device_id == 0x1E04
    then "NVIDIA GeForce RTX 2080 Ti"
    else if device_id == 0x1E07
    then "NVIDIA GeForce RTX 2080"
    else if device_id == 0x1F02
    then "NVIDIA GeForce RTX 2070"
    else if device_id == 0x1F08
    then "NVIDIA GeForce RTX 2060"
    else if device_id == 0x2684
    then "NVIDIA GeForce RTX 4090"
    else if device_id == 0x2704
    then "NVIDIA GeForce RTX 4080"
    else if device_id == 0x2782
    then "NVIDIA GeForce RTX 4070 Ti"
    else "NVIDIA GPU (device_id=0x" ++ (hex4 device_id ++ ")")
