-- ===== src/Examples/Card.antt =====
-- A card with 64-bit BARs of 16 MiB, 256 MiB and 32 MiB.
use gpu_compute_nostd.Base.{
  ℕ, ◌+◌, ◌*◌, ◌/◌, ◌%◌, ◌^◌, ◌<◌, ◌≤◌, ◌≡◌, ◌⊎◌, ◌≢◌, refl, ◌&&◌, [], ◌∷◌, arith, u32, ◌==◌,
  if◌then◌else◌, inl, sym, ◌∙◌,
}
use gpu_compute_nostd.Hardware.{load, store, port_in, port_out, Device, History}
use gpu_compute_nostd.Pci.Config.{config_address}
use gpu_compute_nostd.Pci.Config.Laws.{config_address_iff}
use gpu_compute_nostd.Pci.Config.Halves.{config_word}
use gpu_compute_nostd.Pci.Bar.Granule.{granule}
use gpu_compute_nostd.Pci.Bar.Probe.{Window, registers, aperture, io, lo, hi, BarSpace}
use gpu_compute_nostd.Examples.Machines.{ram}

abbrev pub size_of : Window → ℕ
size_of registers = 2 ^ 24
size_of aperture = 2 ^ 28
size_of io = 2 ^ 25

-- where the firmware of the machine has put them
abbrev pub start_of : Window → ℕ
start_of registers = 0xF600_0000
start_of aperture = 0x80_0000_0000
start_of io = 0xF800_0000

-- the address of a register of the card in slot 1 of bus 0
abbrev pub slot : ℕ → ℕ
slot register = 0x8000_0800 + register

-- what the address port was set to last
abbrev pub chosen : History → ℕ
chosen [] = 0
chosen (port_out q v ∷ h) = let rest = chosen h in if q == 0xCF8 then v else rest
chosen (load a ∷ h) = chosen h
chosen (store a v ∷ h) = chosen h
chosen (port_in q ∷ h) = chosen h

abbrev pub base_of : Window → History → ℕ
base_of b [] = start_of b
base_of b (port_out q v ∷ h) =
    let rest = base_of b h in
    if q == 0xCFC && chosen h == slot (lo b)
    then rest / 2 ^ 32 * 2 ^ 32 + u32 v / granule (size_of b) * granule (size_of b)
    else rest
base_of b (load a ∷ h) = base_of b h
base_of b (store a v ∷ h) = base_of b h
base_of b (port_in q ∷ h) = base_of b h

pub base_of-aligned :
    (b : Window) (h : History) → (base_of b h % size_of b ≡ 0) × (base_of b h < 2 ^ 64)
base_of-aligned registers [] = omega arith
base_of-aligned aperture [] = omega arith
base_of-aligned io [] = omega arith
base_of-aligned registers (port_out q v ∷ h) = ground (arith, base_of-aligned registers h)
base_of-aligned aperture (port_out q v ∷ h) = ground (arith, base_of-aligned aperture h)
base_of-aligned io (port_out q v ∷ h) = ground (arith, base_of-aligned io h)
base_of-aligned b (load a ∷ h) = base_of-aligned b h
base_of-aligned b (store a v ∷ h) = base_of-aligned b h
base_of-aligned b (port_in q ∷ h) = base_of-aligned b h

-- memory of 64 bits, and prefetchable
abbrev pub flags_of : Window → ℕ
flags_of b = 0xC

abbrev pub low_of : Window → History → ℕ
low_of b h = base_of b h % 2 ^ 32 + 0xC

pub low_of_lt : (b : Window) (h : History) → low_of b h < 2 ^ 32
low_of_lt registers h = omega (arith, base_of-aligned registers h)
low_of_lt aperture h = omega (arith, base_of-aligned aperture h)
low_of_lt io h = omega (arith, base_of-aligned io h)

abbrev pub answer : ℕ → History → ℕ
answer a h =
    if a == slot 0x00
    then 0x1B80_10DE
    else if a == slot 0x08
    then 0x0300_00A1
    else if a == slot 0x10
    then low_of registers h
    else if a == slot 0x14
    then base_of registers h / 2 ^ 32
    else if a == slot 0x18
    then low_of aperture h
    else if a == slot 0x1C
    then base_of aperture h / 2 ^ 32
    else if a == slot 0x20
    then low_of io h
    else if a == slot 0x24
    then base_of io h / 2 ^ 32
    else 0

pub answer_lt : (h : History) (q : ℕ) → answer (chosen h) h < 2 ^ 32
answer_lt h q = ground (
  arith,
  low_of_lt registers h,
  low_of_lt aperture h,
  low_of_lt io h,
  (base_of-aligned registers h).1,
  (base_of-aligned aperture h).1,
  (base_of-aligned io h).1,
)

abbrev pub barred : Device
barred = record {
  loads = ram.loads;
  ports = λ h q. answer (chosen h) h;
  loads_word = ram.loads_word;
  ports_word = answer_lt;
}

slot_lo : (b : Window) → config_address 0 1 0 (lo b) ≡ slot (lo b)
unfolding config_address
slot_lo registers = refl
slot_lo aperture = refl
slot_lo io = refl

pub barred-low :
    (b : Window) (h : History)
    → config_word barred (config_address 0 1 0 (lo b)) h ≡ base_of b h % 2 ^ 32 + flags_of b
unfolding config_address
barred-low registers h = refl
barred-low aperture h = refl
barred-low io h = refl

pub barred-high :
    (b : Window) (h : History)
    → config_word barred (config_address 0 1 0 (hi b)) h ≡ base_of b h / 2 ^ 32
unfolding config_address
barred-high registers h = refl
barred-high aperture h = refl
barred-high io h = refl

pub barred-written :
    (b : Window) (v : ℕ) (h : History)
    → v < 2 ^ 32
    → base_of b (port_out 0xCFC v ∷ port_out 0xCF8 (config_address 0 1 0 (lo b)) ∷ h)
      ≡ base_of b h / 2 ^ 32 * 2 ^ 32 + v / granule (size_of b) * granule (size_of b)
unfolding config_address
barred-written registers v h word = omega arith
barred-written aperture v h word = omega arith
barred-written io v h word = omega arith

lo_byte : (b : Window) → lo b < 256
lo_byte registers = omega arith
lo_byte aperture = omega arith
lo_byte io = omega arith

pub barred-write_keeps :
    (b : Window) (register v : ℕ) (h : History)
    → register < 256
    → register / 4 ≢ lo b / 4
    → register / 4 ≢ hi b / 4
    → base_of b (port_out 0xCFC v ∷ port_out 0xCF8 (config_address 0 1 0 register) ∷ h)
      ≡ base_of b h
barred-write_keeps b register v h byte low high =
    let same =
      config_address_iff 0 1 0 register 0 1 0 (lo b) (omega arith) (omega arith) (omega arith) byte
        (omega arith) (omega arith) (omega arith) (lo_byte b) in
    let ne : config_address 0 1 0 register ≢ slot (lo b) =
      λ e. low (same.0 (e ∙ sym (slot_lo b))).3 in
    ground (arith, ne)

pub size_of-bounds : (b : Window) → (16 < size_of b) × (size_of b ≤ 2 ^ 63)
size_of-bounds registers = omega arith
size_of-bounds aperture = omega arith
size_of-bounds io = omega arith

pub size_of-shape :
    (b : Window) → ((2 ^ 32 % size_of b ≡ 0) × (size_of b % 16 ≡ 0)) ⊎ (size_of b % 2 ^ 32 ≡ 0)
size_of-shape registers = inl (omega arith)
size_of-shape aperture = inl (omega arith)
size_of-shape io = inl (omega arith)

pub flags_of-memory :
    (b : Window) → (flags_of b < 16) × (flags_of b / 2 % 4 ≡ 2) × (flags_of b % 2 ≡ 0)
flags_of-memory b = omega arith

pub barred-read_keeps :
    (b : Window) (a : ℕ) (h : History)
    → base_of b (port_in 0xCFC ∷ port_out 0xCF8 a ∷ h) ≡ base_of b h
barred-read_keeps b a h = ground arith

abbrev pub barred_windows : BarSpace barred 0 1
barred_windows = record {
  size = size_of;
  flags = flags_of;
  base = base_of;
  size_bounds = size_of-bounds;
  shape = size_of-shape;
  is_memory64 = flags_of-memory;
  base_bound = λ b h. (base_of-aligned b h).1;
  aligned = λ b h. (base_of-aligned b h).0;
  low_word = barred-low;
  high_word = barred-high;
  read_keeps = barred-read_keeps;
  written = barred-written;
  write_keeps = barred-write_keeps;
}
