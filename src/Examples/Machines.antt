-- ===== src/Examples/Machines.antt =====
-- Concrete devices: words of memory, a running timer, and a Falcon that signals after some polls.
use gpu_compute_nostd.Base.{
  ℕ, ◌+◌, ◌-◌, ◌/◌, ◌%◌, ◌^◌, ◌<◌, ◌≡◌, min, [], ◌∷◌, arith, length, u32, ◌==◌, if◌then◌else◌,
}
use gpu_compute_nostd.Pci.Family.{pascal}
use gpu_compute_nostd.Pci.Scan.{GpuPciDevice}
use gpu_compute_nostd.Hardware.{Access, load, store, port_in, port_out, Device, History}
use gpu_compute_nostd.Mmio.{GpuRegs, nv_ptimer_time_0}
use gpu_compute_nostd.Mmio.Timer.{IsTimer}
use gpu_compute_nostd.Mmio.Laws.{Spares, IsRegister}

-- what was written last at an address
abbrev pub peek : ℕ → History → ℕ
peek a [] = 0
peek a (store b v ∷ h) = let rest = peek a h in if b == a then u32 v else rest
peek a (load b ∷ h) = peek a h
peek a (port_in p ∷ h) = peek a h
peek a (port_out p v ∷ h) = peek a h

pub peek_lt : (h : History) (a : ℕ) → peek a h < 2 ^ 32
peek_lt [] a = omega arith
peek_lt (store b v ∷ h) a = ground (arith, peek_lt h a)
peek_lt (load b ∷ h) a = peek_lt h a
peek_lt (port_in p ∷ h) a = peek_lt h a
peek_lt (port_out p v ∷ h) a = peek_lt h a

pub none_lt : (h : History) (p : ℕ) → 0 < 2 ^ 32
none_lt h p = omega arith

-- Every address is a word of memory.
abbrev pub ram : Device
ram = record {
  loads = λ h a. peek a h;
  ports = λ h p. 0;
  loads_word = peek_lt;
  ports_word = none_lt;
}

peek_written : (a v : ℕ) (h : History) → peek a (store a v ∷ h) ≡ u32 v
peek_written a v h = ground arith

peek_kept : (a : ℕ) (e : Access) (h : History) → Spares a e → peek a (e ∷ h) ≡ peek a h
peek_kept a (store b v) h ne = ground arith
peek_kept a (load b) h ne = ground arith
peek_kept a (port_in p) h ne = ground arith
peek_kept a (port_out p v) h ne = ground arith

pub ram-IsRegister : (a : ℕ) → IsRegister ram a
ram-IsRegister a = record { written = peek_written a; kept = peek_kept a }

abbrev pub board : GpuRegs
board = record { bar0 = 0 }

-- a counter that the second access carries over into the high half
abbrev pub ticks : History → ℕ
ticks h = min (2 ^ 32 - 2 + length h) (2 ^ 64 - 1)

abbrev pub tick_load : History → ℕ → ℕ
tick_load h a = if a == nv_ptimer_time_0 then ticks h % 2 ^ 32 else ticks h / 2 ^ 32

pub tick_load_lt : (h : History) (a : ℕ) → tick_load h a < 2 ^ 32
tick_load_lt h a = ground arith

abbrev pub clock : Device
clock = record {
  loads = tick_load;
  ports = λ h p. 0;
  loads_word = tick_load_lt;
  ports_word = none_lt;
}

pub clock-IsTimer : IsTimer board clock
clock-IsTimer = record {
  now = ticks;
  advances = λ a h. omega arith;
  fits = λ h. omega arith;
  low = λ h. ground arith;
  high = λ h. ground arith;
}

abbrev pub card : GpuPciDevice
card = record {
  bus = 1;
  device = 0;
  function = 0;
  device_id = 0x1B80;
  revision = 0xA1;
  family = pascal;
  bar0_base = 0;
  bar0_size = 0x1000000;
  bar1_base = 0xE0000000;
  bar1_size = 0x10000000;
  bar2_base = 0;
  bar2_size = 0;
  name = "NVIDIA GPU (device_id=0x1B80)";
}
